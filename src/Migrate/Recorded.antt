-- ===== src/Migrate/Recorded.antt =====
-- Recordf of pkg/migrate/action/recorder_impl.go and the steps that are built after it.
use odh_cli.Base.{ℕ, zero, suc, ◌≡◌, refl, ap, ◌∙◌, String, Bool, ◌||◌, List, [], ◌∷◌, ◌++◌, arith}
use odh_cli.Migrate.Result.{StepStatus, running, has_status}
use odh_cli.Migrate.Recorder.{
  recorder, Recorders, no_recorders, recorders, append_recorder, count, count_at, attach, child,
  completef, recordf, build_steps,
}

-- A handle of the tree, the root's included.
abbrev pub IsHandle : List ℕ → Recorders → Type 0
IsHandle [] rs = Unit
IsHandle (i ∷ p) no_recorders = ⊥
IsHandle (zero ∷ p) (recorders (recorder n d s m cs) rest) = IsHandle p cs
IsHandle (suc i ∷ p) (recorders r rest) = IsHandle (i ∷ p) rest

completef_last :
    (rs : Recorders) (name description : String) (status : StepStatus) (message : String)
    → completef
        (count rs ∷ [])
        status
        message
        (append_recorder rs (recorder name description running "" no_recorders))
      ≡ append_recorder rs (recorder name description status message no_recorders)
unfolding completef append_recorder
completef_last no_recorders name description status message = refl
completef_last (recorders r rest) name description status message =
    ap (recorders r) (completef_last rest name description status message)

completef-attach :
    (p : List ℕ) (rs : Recorders) (name description : String) (status : StepStatus)
    (message : String)
    → IsHandle p rs
    → completef
        (p ++ count_at p rs ∷ [])
        status
        message
        (attach p (recorder name description running "" no_recorders) rs)
      ≡ attach p (recorder name description status message no_recorders) rs
unfolding completef attach
completef-attach [] rs name description status message h =
    completef_last rs name description status message
completef-attach (i ∷ p) no_recorders name description status message h = elim h [ ]
completef-attach (zero ∷ []) (recorders (recorder n d s m cs) rest) name description status message
      h =
    ap (λ x. recorders (recorder n d s m x) rest)
      (completef-attach [] cs name description status message h)
completef-attach (zero ∷ j ∷ p) (recorders (recorder n d s m cs) rest) name description status
      message h =
    ap (λ x. recorders (recorder n d s m x) rest)
      (completef-attach (j ∷ p) cs name description status message h)
completef-attach (suc i ∷ p) (recorders r rest) name description status message h =
    ap (recorders r) (completef-attach (i ∷ p) rest name description status message h)

or_swap : (a b c : Bool) → a || (b || c) ≡ b || (a || c)
or_swap a b c = ground arith

has_status-append :
    (test : StepStatus → Bool) (rs : Recorders) (n d : String) (s : StepStatus) (m : String)
    → has_status test (build_steps (append_recorder rs (recorder n d s m no_recorders)))
      ≡ test s || has_status test (build_steps rs)
unfolding has_status build_steps append_recorder
has_status-append test no_recorders n d s m = ground arith
has_status-append test (recorders (recorder n' d' s' m' cs) rest) n d s m =
    ap (λ x. (test s' || has_status test (build_steps cs)) || x)
      (has_status-append test rest n d s m)
    ∙ or_swap (test s' || has_status test (build_steps cs)) (test s)
        (has_status test (build_steps rest))

or_inside : (a b c d : Bool) → (a || (b || c)) || d ≡ b || ((a || c) || d)
or_inside a b c d = ground arith

has_status-attach :
    (test : StepStatus → Bool) (p : List ℕ) (rs : Recorders) (n d : String) (s : StepStatus)
    (m : String)
    → IsHandle p rs
    → has_status test (build_steps (attach p (recorder n d s m no_recorders) rs))
      ≡ test s || has_status test (build_steps rs)
unfolding has_status build_steps attach
has_status-attach test [] rs n d s m h = has_status-append test rs n d s m
has_status-attach test (i ∷ p) no_recorders n d s m h = elim h [ ]
has_status-attach test (zero ∷ p) (recorders (recorder n' d' s' m' cs) rest) n d s m h =
    ap (λ x. (test s' || x) || has_status test (build_steps rest))
      (has_status-attach test p cs n d s m h)
    ∙ or_inside (test s') (test s) (has_status test (build_steps cs))
        (has_status test (build_steps rest))
has_status-attach test (suc i ∷ p) (recorders (recorder n' d' s' m' cs) rest) n d s m h =
    ap (λ x. (test s' || has_status test (build_steps cs)) || x)
      (has_status-attach test (i ∷ p) rest n d s m h)
    ∙ or_swap (test s' || has_status test (build_steps cs)) (test s)
        (has_status test (build_steps rest))

-- Recordf, on a recorder of the tree, adds its status to the statuses that the built steps have, and
-- changes nothing else about them: whatever statuses a test accepts, the steps built afterwards have
-- one exactly if the recorded status is one or the steps from before had one.
pub recordf-has_status :
    (test : StepStatus → Bool) (p : List ℕ) (rs : Recorders) (name message : String)
    (status : StepStatus)
    → IsHandle p rs
    → has_status test (build_steps (recordf p name message status rs))
      ≡ test status || has_status test (build_steps rs)
unfolding recordf child
recordf-has_status test p rs name message status h =
    ap (λ x. has_status test (build_steps x)) (completef-attach p rs name message status message h)
    ∙ has_status-attach test p rs name message status message h
