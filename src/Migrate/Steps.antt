-- ===== src/Migrate/Steps.antt =====
-- hasFailed of pkg/migrate/action/result/result.go against the statuses in the tree of steps.
use odh_cli.Base.{◌≡◌, ◌↔◌, ◌⊎◌, inl, inr, String, Bool, true, false, ◌||◌, arith}
use odh_cli.Migrate.Result.{
  StepStatus, Step, step, Steps, no_steps, steps, has_status, ActionResult, has_failed_steps,
  is_failed,
}

-- A status that the test accepts, of a step at any depth.
pub data Occurs (test : StepStatus → Bool) : Steps → Type 0 where
  at_step :
      {name description message : String} {status : StepStatus} {children rest : Steps}
      → test status ≡ true
      → Occurs test (steps (step name description status message children) rest)
  below :
      {name description message : String} {status : StepStatus} {children rest : Steps}
      → Occurs test children
      → Occurs test (steps (step name description status message children) rest)
  later : {s : Step} {rest : Steps} → Occurs test rest → Occurs test (steps s rest)

or_true : (a b : Bool) → a || b ≡ true → (a ≡ true) ⊎ (b ≡ true)
or_true true b h = inl h
or_true false b h = inr h

or_left : (a b : Bool) → a ≡ true → a || b ≡ true
or_left true b h = h
or_left false b h = absurd (cc)

or_right : (a b : Bool) → b ≡ true → a || b ≡ true
or_right true b h = ground arith
or_right false b h = h

has_status-Occurs :
    (test : StepStatus → Bool) (ss : Steps) → has_status test ss ≡ true → Occurs test ss
unfolding has_status
has_status-Occurs test no_steps h = absurd (cc)
has_status-Occurs test (steps (step n d status m children) rest) h = elim (or_true _ _ h) [
  | inr r ↦ later (has_status-Occurs test rest r)
  | inl l ↦ elim (or_true (test status) _ l) [
    | inl t ↦ at_step t
    | inr c ↦ below (has_status-Occurs test children c)
  ]
]

Occurs-has_status :
    (test : StepStatus → Bool) (ss : Steps) → Occurs test ss → has_status test ss ≡ true
unfolding has_status
Occurs-has_status test no_steps o = elim o [ ]
Occurs-has_status test (steps (step n d status m children) rest) (at_step t) =
    or_left _ _ (or_left _ _ t)
Occurs-has_status test (steps (step n d status m children) rest) (below o) =
    or_left _ _ (or_right (test status) _ (Occurs-has_status test children o))
Occurs-has_status test (steps s rest) (later o) = or_right _ _ (Occurs-has_status test rest o)

-- HasFailedSteps finds a failed step at every depth of the tree, and says true only if there is one.
pub has_failed_steps_iff : (r : ActionResult) → has_failed_steps r ≡ true ↔ Occurs is_failed r.steps
unfolding has_failed_steps
has_failed_steps_iff r = (has_status-Occurs is_failed r.steps, Occurs-has_status is_failed r.steps)
