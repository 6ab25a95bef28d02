-- ===== src/Migrate/Executor.antt =====
-- pkg/migrate/action/executor.go: the actions that apply, each with its result or its error.
use odh_cli.Base.{String, Option, none, some, List, [], ◌∷◌, if◌then◌else◌}
use Prim.Native.String.{◌++◌}
use mathlib.Core.List.{◌++◌ as ◌+++◌}
use odh_cli.Errors.{Error, text, wrapped, error_text}
use odh_cli.Lint.Check.{Returns, ok, fail}
use odh_cli.Migrate.Result.{ActionResult, new_action_result}
use odh_cli.Migrate.Registry.{Answer, Action, list_all, list_by_filter}

-- ActionExecution, with the action by its ID.
pub record ActionExecution : Type 0 where
  pub action_id : String
  pub result : Option ActionResult
  pub error : Option Error

module _ {T W : Type 0} where
  abbrev pub failed_execution : Action T W → String → Error → ActionExecution
  failed_execution a message err = record {
    action_id = a.id;
    result =
        some (record (new_action_result a.group a.id a.name a.description) { error = message });
    error = some err;
  }

  abbrev pub execution_of : Action T W → Answer → ActionExecution
  execution_of a (r, some err) =
      failed_execution a ("Action execution failed: " ++ error_text err) err
  execution_of a (r, none) = record { action_id = a.id; result = r; error = none }

  -- executeAction
  unfoldable pub execute_action : T → W → Action T W → ActionExecution × W
  execute_action target w a = elim (a.run) [
    | none ↦ (
      failed_execution a "Action has no run task"
          (text ("action " ++ (a.id ++ " has no run task"))),
      w,
    )
    | some execute ↦ let (answer, w') = execute target w in (execution_of a answer, w')
  ]

  -- executeActions, with the executions so far.
  unfoldable pub execute_actions :
      T → W → List (Action T W) → List ActionExecution → List ActionExecution × W
  unfolding execute_action
  execute_actions target w [] results = (results, w)
  execute_actions target w (a ∷ actions) results =
      let (exec, w') = execute_action target w a in
      let skip = execute_actions target w actions results in
      let go = execute_actions target w' actions (results +++ exec ∷ []) in
      if a.can_apply target w then go else skip

  -- ExecuteAll
  unfoldable pub execute_all_actions : List (Action T W) → T → W → List ActionExecution × W
  unfolding execute_actions list_all
  execute_all_actions registry target w = execute_actions target w (list_all registry) []

  -- ExecuteSelective
  unfoldable pub execute_selective_actions :
      List (Action T W) → T → W → String → String → String → Returns (List ActionExecution × W)
  unfolding execute_actions list_by_filter
  execute_selective_actions registry target w pattern group phase =
      elim (list_by_filter registry pattern group phase) [
        | fail e ↦ fail (wrapped "selecting actions: " e "")
        | ok actions ↦ ok (execute_actions target w actions [])
      ]
