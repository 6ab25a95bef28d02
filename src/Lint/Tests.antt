-- ===== src/Lint/Tests.antt =====
-- The theorems on lint results, checks and exit codes at concrete runs.
use odh_cli.Base.{
  inr, Bool, map, ℕ, ◌≡◌, ◌↔◌, refl, String, true, Option, none, some, List, [], ◌∷◌, if◌then◌else◌,
  ltb, All, In, arith, eq_iff, keep,
}
use odh_cli.Errors.{Error, text, canceled, sentinel}
use odh_cli.Errors.Classify.{exit_code_from_error}
use odh_cli.Errors.Tests.{no_api_errors}
use odh_cli.Output.{Envelope}
use odh_cli.Lint.Result.{
  blocking, advisory, no_impact, ConditionStatus, Impact, status_true, status_false, status_unknown,
  Condition, DiagnosticResult,
}
use odh_cli.Lint.Condition.{with_reason, with_impact, ConditionOption}
use odh_cli.Lint.Severity.{CheckExecution, critical, warning, filter_by_severity}
use odh_cli.Lint.Verdict.{exit_error_of_results}
use odh_cli.Lint.Worst.{worst_execution, at_least, level_severity}
use odh_cli.Lint.Kept.{findings_of, reaches, HasFinding, filter_by_severity-findings}
use odh_cli.Lint.Chosen.{IsIn, IsMatched, list_by_patterns_lem}
use odh_cli.Lint.Findings.{code_of_severity}
use odh_cli.Lint.Exit.{exit_error_of_results-code}
use odh_cli.Lint.Precedence.{IsTop}
use odh_cli.Lint.Flattened.{concat}
use odh_cli.Lint.Check.{ok, Check}
use odh_cli.Lint.Registry.{matches_any, matches_pattern, list_by_patterns, matches_any_check}
use odh_cli.Lint.Glob.{path_match, move, parse, match_items}
use odh_cli.Lint.Options.{validate_check_selector, validate_each_selector, validate_check_selectors}
use odh_cli.Lint.Upgrade.{run_upgrade_mode}
use odh_cli.Lint.Selectors.{valid_selectors_lem}
use odh_cli.Lint.Readiness.{all_groups, Covers, run_upgrade_mode-code}
use odh_cli.Lint.Executor.{execute_checks, execute_selective}
use odh_cli.Lint.Selection.{HasDistinctIds}
use odh_cli.Lint.Executions.{IsReported, IsNamed, execute_checks-IsReported}

abbrev condition : String → ConditionStatus → Impact → Condition
condition t status impact = record {
  condition_type = t;
  status = status;
  reason = "R";
  message = "";
  impact = impact;
  remediation = "";
}

abbrev ready : Condition
ready = condition "Ready" status_true no_impact

abbrev removed : Condition
removed = condition "Removed" status_false blocking

abbrev unsure : Condition
unsure = condition "Known" status_unknown advisory

abbrev mixed : List Condition
mixed = ready ∷ unsure ∷ removed ∷ []

abbrev diagnostic : List Condition → DiagnosticResult
diagnostic cs = record {
  group = "component";
  kind = "kserve";
  name = "removal";
  annotations = [];
  description = "";
  conditions = cs;
  impacted_objects = [];
}

abbrev runs : List CheckExecution
runs =
    record { check_id = "a"; result = some (diagnostic mixed); error = none }
    ∷ record { check_id = "b"; result = some (diagnostic (ready ∷ [])); error = some (text "boom") }
    ∷ record { check_id = "c"; result = none; error = none }
    ∷ []

abbrev failed_options : List ConditionOption
failed_options = with_reason "Removed" ∷ with_impact blocking ∷ []

abbrev failed : Condition
failed = record {
  condition_type = "Ready";
  status = status_false;
  reason = "Removed";
  message = "";
  impact = blocking;
  remediation = "";
}

filter_by_severity-findings_example :
    (findings_of (filter_by_severity runs critical) ≡ keep (reaches critical) (findings_of runs))
    × ((ltb 0 (level_severity critical)) ≡ true → All HasFinding (filter_by_severity runs critical))
filter_by_severity-findings_example = filter_by_severity-findings runs critical

abbrev envelope : Envelope
envelope = record { kind = "DiagnosticResultList"; command = "lint"; status = none }

exit_error_of_results-code_example :
    IsTop no_api_errors
      (exit_code_from_error no_api_errors (exit_error_of_results no_api_errors runs warning true))
      runs
      (code_of_severity (at_least warning (worst_execution runs)))
exit_error_of_results-code_example = exit_error_of_results-code no_api_errors runs warning true

-- A check of ℕ as targets, which applies everywhere and fails on an odd version.
abbrev check_of : String → String → Check ℕ
check_of id group = record {
  id = id;
  name = id;
  description = "";
  group = group;
  check_kind = "kserve";
  check_type = "removal";
  can_apply = λ n. ok true;
  validate = λ n.
      if ltb n 3 then (some (diagnostic (ready ∷ [])), none) else (none, some (text "unsupported"));
}

abbrev checks : List (Check ℕ)
checks = check_of "components.kserve" "component" ∷ check_of "services.auth" "service" ∷ []

checks-HasDistinctIds : HasDistinctIds checks
checks-HasDistinctIds = ((differ, tt), (tt, tt))
  where
    differ :
        (check_of "components.kserve" "component").id ≡ (check_of "services.auth" "service").id → ⊥
    differ e = ground (arith, eq_iff "components.kserve" "services.auth")

abbrev new_check : Check ℕ
new_check = check_of "workloads.ray" "workload"

abbrev stop_at : ℕ → ℕ → Option Error
stop_at k n = if ltb n k then none else some (sentinel canceled)

checks-IsNamed : All IsNamed checks
checks-IsNamed = (
  named "components.kserve" "component" (λ e. ground (arith, eq_iff "component" "")),
  (named "services.auth" "service" (λ e. ground (arith, eq_iff "service" "")), tt),
)
  where
    named : (id group : String) → (group ≡ "" → ⊥) → IsNamed (check_of id group)
    named id group h = record {
      has_group = h;
      has_kind = λ e. ground (arith, eq_iff "kserve" "");
      has_type = λ e. ground (arith, eq_iff "removal" "");
    }

execute_checks-IsReported_example :
    All IsReported (execute_checks no_api_errors (stop_at 5) 3 0 checks)
execute_checks-IsReported_example =
    execute_checks-IsReported no_api_errors (stop_at 5) 3 0 checks checks-IsNamed

abbrev selectors : List String
selectors = "components.*" ∷ "services" ∷ []

selectors_are_valid : validate_check_selectors selectors ≡ none
unfolding validate_check_selectors validate_each_selector validate_check_selector path_match parse
    match_items
selectors_are_valid = refl

list_by_patterns_lem_example :
    (picked : List (Check ℕ)) × ((list_by_patterns checks selectors "component" ≡ ok picked)
      × (((d : Check ℕ)
            → In d picked ↔ (In d checks × (IsIn "component" d × IsMatched selectors d)))
          × HasDistinctIds picked))
list_by_patterns_lem_example =
    list_by_patterns_lem checks selectors "component" selectors_are_valid checks-HasDistinctIds

valid_selectors_lem_example :
    ((picked : List (Check ℕ)) × (list_by_patterns checks selectors "component" ≡ ok picked))
    × ((b : Bool) × (matches_any_check checks selectors ≡ ok b))
unfolding validate_check_selectors validate_each_selector validate_check_selector path_match move
    parse match_items
valid_selectors_lem_example = valid_selectors_lem checks selectors "component" selectors_are_valid

run_upgrade_mode-code_example :
    (run : String → List CheckExecution) × (((g : String)
        → execute_selective no_api_errors (λ n. none) 3 checks selectors g ≡ ok (run g))
      × (Covers no_api_errors (λ group n. none) 3 checks selectors (concat (map run all_groups))
          × IsTop no_api_errors
              (exit_code_from_error no_api_errors (
                run_upgrade_mode no_api_errors
                  (λ group n. none)
                  3
                  checks
                  selectors
                  warning
                  true
                  none))
              (concat (map run all_groups))
              (code_of_severity
                (at_least warning (worst_execution (concat (map run all_groups)))))))
unfolding validate_check_selectors validate_each_selector validate_check_selector path_match move
    parse match_items matches_any_check matches_any matches_pattern
run_upgrade_mode-code_example =
    run_upgrade_mode-code no_api_errors (λ group n. none) 3 checks selectors warning true refl
      (inr refl)
