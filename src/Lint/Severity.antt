-- ===== src/Lint/Severity.antt =====
-- pkg/lint/command_options.go: severities, the filter by severity, and the sort order of impacts.
use odh_cli.Base.{
  ℕ, String, Bool, true, false, Option, none, some, List, [], ◌∷◌, if◌then◌else◌, ltb, keep,
}
use odh_cli.Errors.{Error}
use odh_cli.Lint.Result.{
  Impact, prohibited, blocking, advisory, no_impact, unknown_impact, Condition, DiagnosticResult,
}

-- SeverityLevel
pub data SeverityLevel : Type 0 where
  prohibited_level critical warning info : SeverityLevel

-- check.CheckExecution, with the check by its ID: a nil result and a nil error are `none`.
pub record CheckExecution : Type 0 where
  pub check_id : String
  pub result : Option DiagnosticResult
  pub error : Option Error

-- meetsMinSeverity
unfoldable pub meets_min_severity : Impact → SeverityLevel → Bool
meets_min_severity prohibited prohibited_level = true
meets_min_severity _ prohibited_level = false
meets_min_severity prohibited critical = true
meets_min_severity blocking critical = true
meets_min_severity _ critical = false
meets_min_severity prohibited warning = true
meets_min_severity blocking warning = true
meets_min_severity advisory warning = true
meets_min_severity _ warning = false
meets_min_severity _ info = true

-- The conditions of one result that are kept.
abbrev pub kept_conditions : SeverityLevel → List Condition → List Condition
kept_conditions level cs = keep (λ c. meets_min_severity c.impact level) cs

abbrev pub with_conditions :
    CheckExecution → DiagnosticResult → List Condition → List CheckExecution → List CheckExecution
with_conditions exec r [] rest = rest
with_conditions exec r (c ∷ cs) rest =
    record exec { result = some (record r { conditions = c ∷ cs }) } ∷ rest

abbrev pub filter_one :
    SeverityLevel
    → CheckExecution
    → Option DiagnosticResult
    → List CheckExecution
    → List CheckExecution
filter_one level exec none rest = rest
filter_one level exec (some r) rest =
    with_conditions exec r (kept_conditions level r.conditions) rest

-- The loop of FilterBySeverity.
abbrev pub filter_executions : SeverityLevel → List CheckExecution → List CheckExecution
filter_executions level [] = []
filter_executions level (exec ∷ execs) =
    filter_one level exec exec.result (filter_executions level execs)

-- FilterBySeverity
unfoldable pub filter_by_severity : List CheckExecution → SeverityLevel → List CheckExecution
filter_by_severity results info = results
filter_by_severity results level = filter_executions level results

-- impactSortPriority
unfoldable pub impact_sort_priority : Impact → ℕ
impact_sort_priority prohibited = 0
impact_sort_priority blocking = 1
impact_sort_priority advisory = 2
impact_sort_priority no_impact = 3
impact_sort_priority (unknown_impact s) = 3

unfoldable pub check_max_impact_from : Impact → List Condition → Impact
unfolding impact_sort_priority
check_max_impact_from most [] = most
check_max_impact_from most (c ∷ cs) =
    check_max_impact_from
      (if ltb (impact_sort_priority c.impact) (impact_sort_priority most) then c.impact else most)
      cs

-- checkMaxImpact, on the conditions of the result.
unfoldable pub check_max_impact : List Condition → Impact
unfolding check_max_impact_from
check_max_impact cs = check_max_impact_from no_impact cs
