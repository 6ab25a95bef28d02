-- ===== src/Migrate/Result.antt =====
-- pkg/migrate/action/result/result.go: the tree of steps of an action, and its result.
use odh_cli.Base.{String, Bool, true, false, ◌||◌}

-- StepStatus is a string; `status_other` is any that is none of the constants.
pub data StepStatus : Type 0 where
  pending running completed failed skipped : StepStatus
  status_other : String → StepStatus

-- ActionStep, without the time stamp and the details, and a list of steps.
mutual
  pub data Step : Type 0 where
    -- the name, the description, the status, the message and the children
    step : String → String → StepStatus → String → Steps → Step

  pub data Steps : Type 0 where
    no_steps : Steps
    steps : Step → Steps → Steps

-- ActionResult, with the annotations left out: no code here reads them.
pub record ActionResult : Type 0 where
  pub group : String
  pub kind : String
  pub name : String
  pub description : String
  pub steps : Steps
  pub completed : Bool
  pub error : String

-- New
abbrev pub new_action_result : String → String → String → String → ActionResult
new_action_result group kind name description = record {
  group = group;
  kind = kind;
  name = name;
  description = description;
  steps = no_steps;
  completed = false;
  error = "";
}

abbrev pub is_failed : StepStatus → Bool
is_failed failed = true
is_failed _ = false

abbrev pub is_skipped : StepStatus → Bool
is_skipped skipped = true
is_skipped _ = false

-- hasFailed and hasSkipped, by the test for the status: a step, then its children, then the next step.
unfoldable mutual
  pub has_status : (StepStatus → Bool) → Steps → Bool
  has_status test no_steps = false
  has_status test (steps s rest) = step_has_status test s || has_status test rest

  pub step_has_status : (StepStatus → Bool) → Step → Bool
  step_has_status test (step name description status message children) =
      test status || has_status test children

-- HasFailedSteps
unfoldable pub has_failed_steps : ActionResult → Bool
unfolding has_status
has_failed_steps r = has_status is_failed r.steps

-- HasSkippedSteps
unfoldable pub has_skipped_steps : ActionResult → Bool
unfolding has_status
has_skipped_steps r = has_status is_skipped r.steps
