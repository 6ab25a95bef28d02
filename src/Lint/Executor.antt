-- ===== src/Lint/Executor.antt =====
-- pkg/lint/check/executor.go: running checks one after another. The context is the answer of
-- CheckContextError before each check; the executor's log lines are left out.
use Prim.Native.String.{◌++◌}
use odh_cli.Base.{
  ℕ, suc, String, Bool, true, false, ◌||◌, Option, none, some, List, [], ◌∷◌, if◌then◌else◌,
}
use odh_cli.Errors.{Error, wrapped, error_text}
use odh_cli.Errors.Tables.{ApiErrors}
use odh_cli.Lint.Result.{
  Condition, status_unknown, advisory, DiagnosticResult, new_result, result_validate,
}
use odh_cli.Lint.Severity.{CheckExecution}
use odh_cli.Lint.Check.{Returns, ok, fail, Check}
use odh_cli.Lint.Registry.{list_all, list_by_patterns}

-- What NewCondition(ConditionTypeValidated, ConditionUnknown, WithReason(…), WithMessage(…)) returns.
abbrev pub unknown_condition : String → String → Condition
unknown_condition reason message = record {
  condition_type = "Validated";
  status = status_unknown;
  reason = reason;
  message = message;
  impact = advisory;
  remediation = "";
}

abbrev pub reason_failed : String
reason_failed = "CheckExecutionFailed"

abbrev pub reason_denied : String
reason_denied = "APIAccessDenied"

-- The reason and the message of buildValidateError.
abbrev pub error_reason : ApiErrors → Error → String × String
error_reason api err =
    if api.is_forbidden err
    then (reason_denied, "Insufficient permissions to access cluster resources")
    else if api.is_unauthorized err
    then (reason_denied, "Authentication required to access cluster resources")
    else if api.is_timeout err
    then (reason_failed, "Request timed out")
    else if api.is_service_unavailable err || api.is_server_timeout err
    then (reason_failed, "API server is unavailable or overloaded")
    else (reason_failed, "Check execution failed")

abbrev pub add_execution :
    CheckExecution → Option DiagnosticResult → List CheckExecution → List CheckExecution
add_execution exec none rest = rest
add_execution exec (some r) rest = exec ∷ rest

module _ {T : Type 0} where
  -- result.New for the check, with one condition.
  abbrev pub error_result : Check T → Condition → DiagnosticResult
  error_result check c =
      record (new_result check.group check.check_kind check.check_type check.description) {
        conditions = c ∷ [];
      }

  -- buildCanApplyError
  unfoldable pub build_can_apply_error : Check T → Error → CheckExecution
  build_can_apply_error check err = record {
    check_id = check.id;
    result = some (
        error_result check
          (unknown_condition reason_failed ("Check applicability failed: " ++ error_text err)));
    error = some (wrapped ("CanApply failed for check " ++ (check.id ++ ": ")) err "");
  }

  -- buildValidateError: every message is followed by the text of the error.
  unfoldable pub build_validate_error : ApiErrors → Check T → Error → CheckExecution
  build_validate_error api check err =
      let (reason, message) = error_reason api err in
      record {
        check_id = check.id;
        result =
            some
              (error_result check (unknown_condition reason (message ++ (": " ++ error_text err))));
        error = some err;
      }

  -- The part of executeCheck after a result without an error: `invalid` is the answer of its Validate.
  abbrev pub checked_result : Check T → DiagnosticResult → Option Error → CheckExecution
  checked_result check r none = record { check_id = check.id; result = some r; error = none }
  checked_result check r (some invalid) = record {
    check_id = check.id;
    result = some (
        error_result check
          (unknown_condition reason_failed ("Invalid check result: " ++ error_text invalid)));
    error = some (wrapped ("invalid result from check " ++ (check.id ++ ": ")) invalid "");
  }

  abbrev pub executed :
      ApiErrors → Check T → Option DiagnosticResult → Option Error → CheckExecution
  executed api check r (some err) = build_validate_error api check err
  executed api check none none = record { check_id = check.id; result = none; error = none }
  executed api check (some r) none = checked_result check r (result_validate r)

  -- executeCheck
  unfoldable pub execute_check : ApiErrors → T → Check T → CheckExecution
  unfolding build_validate_error result_validate
  execute_check api target check = let (r, err) = check.validate target in executed api check r err

  -- One check of the loop of executeChecks, before the executions of the later ones.
  unfoldable pub run_one :
      ApiErrors → T → Check T → Returns Bool → List CheckExecution → List CheckExecution
  unfolding build_can_apply_error execute_check
  run_one api target check (fail err) rest = build_can_apply_error check err ∷ rest
  run_one api target check (ok false) rest = rest
  run_one api target check (ok true) rest =
      let exec = execute_check api target check in add_execution exec exec.result rest

  -- executeChecks: `poll n` is the answer of CheckContextError before the check number `n`.
  unfoldable pub execute_checks :
      ApiErrors → (ℕ → Option Error) → T → ℕ → List (Check T) → List CheckExecution
  unfolding run_one
  execute_checks api poll target n [] = []
  execute_checks api poll target n (c ∷ cs) =
      let rest = execute_checks api poll target (suc n) cs in
      elim (poll n) [ some err ↦ [] | none ↦ run_one api target c (c.can_apply target) rest ]

  -- ExecuteAll
  unfoldable pub execute_all :
      ApiErrors → (ℕ → Option Error) → T → List (Check T) → List CheckExecution
  unfolding execute_checks list_all
  execute_all api poll target registry = execute_checks api poll target 0 (list_all registry)

  -- ExecuteSelective
  unfoldable pub execute_selective :
      ApiErrors
      → (ℕ → Option Error)
      → T
      → List (Check T)
      → List String
      → String
      → Returns (List CheckExecution)
  unfolding execute_checks list_by_patterns
  execute_selective api poll target registry patterns group =
      elim (list_by_patterns registry patterns group) [
        | fail err ↦ fail (wrapped "selecting checks: " err "")
        | ok checks ↦ ok (execute_checks api poll target 0 checks)
      ]
