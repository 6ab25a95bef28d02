-- ===== src/Migrate/Recorder.antt =====
-- pkg/migrate/action/recorder_impl.go: the tree of recorders that an action fills, and the steps built
-- from it. A recorder is named by its handle, the way from the root by the numbers of the children,
-- which stays valid since children are only ever appended. The output of verbose recorders, details and
-- time stamps are left out.
use odh_cli.Base.{true, ℕ, zero, suc, String, List, [], ◌∷◌, ◌++◌}
use odh_cli.Migrate.Result.{
  StepStatus, running, step, Steps, no_steps, steps, ActionResult, new_action_result,
}

-- stepRecorderImpl, by its step and its children.
mutual
  pub data Recorder : Type 0 where
    -- the name, the description, the status, the message and the children
    recorder : String → String → StepStatus → String → Recorders → Recorder

  pub data Recorders : Type 0 where
    no_recorders : Recorders
    recorders : Recorder → Recorders → Recorders

-- `append(r.children, child)`
unfoldable pub append_recorder : Recorders → Recorder → Recorders
append_recorder no_recorders r = recorders r no_recorders
append_recorder (recorders q rest) r = recorders q (append_recorder rest r)

abbrev pub count : Recorders → ℕ
count no_recorders = 0
count (recorders r rest) = suc (count rest)

-- The number of children of the recorder with this handle.
abbrev pub count_at : List ℕ → Recorders → ℕ
count_at [] rs = count rs
count_at (i ∷ p) no_recorders = 0
count_at (zero ∷ p) (recorders (recorder n d s m cs) rest) = count_at p cs
count_at (suc i ∷ p) (recorders r rest) = count_at (i ∷ p) rest

-- A new last child of the recorder with this handle.
unfoldable pub attach : List ℕ → Recorder → Recorders → Recorders
unfolding append_recorder
attach [] new rs = append_recorder rs new
attach (i ∷ p) new no_recorders = no_recorders
attach (zero ∷ p) new (recorders (recorder n d s m cs) rest) =
    recorders (recorder n d s m (attach p new cs)) rest
attach (suc i ∷ p) new (recorders r rest) = recorders r (attach (i ∷ p) new rest)

-- Child: the handle of the new recorder, and the tree.
unfoldable pub child : List ℕ → String → String → Recorders → List ℕ × Recorders
unfolding attach
child p name description rs =
    (p ++ count_at p rs ∷ [], attach p (recorder name description running "" no_recorders) rs)

-- Completef, with the message already formatted; the root has no step.
unfoldable pub completef : List ℕ → StepStatus → String → Recorders → Recorders
completef [] status message rs = rs
completef (i ∷ p) status message no_recorders = no_recorders
completef (zero ∷ []) status message (recorders (recorder n d s m cs) rest) =
    recorders (recorder n d status message cs) rest
completef (zero ∷ j ∷ p) status message (recorders (recorder n d s m cs) rest) =
    recorders (recorder n d s m (completef (j ∷ p) status message cs)) rest
completef (suc i ∷ p) status message (recorders r rest) =
    recorders r (completef (i ∷ p) status message rest)

-- Recordf
unfoldable pub recordf : List ℕ → String → String → StepStatus → Recorders → Recorders
unfolding child completef
recordf p name message status rs =
    let (handle, rs') = child p name message rs in completef handle status message rs'

-- buildSteps
unfoldable pub build_steps : Recorders → Steps
build_steps no_recorders = no_steps
build_steps (recorders (recorder n d s m cs) rest) =
    steps (step n d s m (build_steps cs)) (build_steps rest)

-- Build
unfoldable pub build : Recorders → ActionResult
unfolding build_steps
build rs = record (new_action_result "" "" "" "") { steps = build_steps rs; completed = true }
