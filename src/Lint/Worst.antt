-- ===== src/Lint/Worst.antt =====
-- The severity of the worst finding, and what GetImpact, checkMaxImpact, FilterBySeverity and
-- ComputeStatus make of it.
use Prim.Native.Nat.{max}
use odh_cli.Base.{
  ℕ, ◌≤◌, ◌≡◌, inl, inr, refl, ap, ◌∙◌, Option, none, some, List, [], ◌∷◌, arith, All, Some,
  if◌then◌else◌, ltb, not,
}
use odh_cli.Lint.Result.{
  Impact, prohibited, blocking, advisory, no_impact, unknown_impact, Condition, DiagnosticResult,
  get_impact,
}
use odh_cli.Lint.Result.Impacts.{severity, get_impact_max}
use odh_cli.Lint.Severity.{
  SeverityLevel, prohibited_level, critical, warning, info, CheckExecution, meets_min_severity,
  kept_conditions, with_conditions, filter_one, filter_executions, filter_by_severity,
}

abbrev pub worst_condition : List Condition → ℕ
worst_condition [] = 0
worst_condition (c ∷ cs) = max (severity c.impact) (worst_condition cs)

worst_condition-le :
    (n : ℕ) (cs : List Condition) → All (λ c. severity c.impact ≤ n) cs → worst_condition cs ≤ n
worst_condition-le n [] h = omega arith
worst_condition-le n (c ∷ cs) (p, h) = omega (arith, worst_condition-le n cs h)

worst_condition-ge :
    (i : Impact) (cs : List Condition)
    → Some (λ c. c.impact ≡ i) cs
    → severity i ≤ worst_condition cs
worst_condition-ge i [] h = elim h [ ]
worst_condition-ge i (c ∷ cs) (inl e) = omega (arith, ap severity e)
worst_condition-ge i (c ∷ cs) (inr h) = omega (arith, worst_condition-ge i cs h)

pub severity-get_impact : (cs : List Condition) → severity (get_impact cs) ≡ worst_condition cs
severity-get_impact cs =
    let (all, from) = get_impact_max cs in
    let le = worst_condition-le (severity (get_impact cs)) cs all in
    elim from [
      | inl e ↦ omega (arith, ap severity e)
      | inr h ↦ omega (arith, worst_condition-ge (get_impact cs) cs h)
    ]

-- The severity of a check's result, and the worst of a list of executions.
abbrev pub worst_result : Option DiagnosticResult → ℕ
worst_result none = 0
worst_result (some r) = worst_condition r.conditions

abbrev pub worst_execution : List CheckExecution → ℕ
worst_execution [] = 0
worst_execution (e ∷ es) = max (worst_result e.result) (worst_execution es)

abbrev pub level_severity : SeverityLevel → ℕ
level_severity prohibited_level = 3
level_severity critical = 2
level_severity warning = 1
level_severity info = 0

-- A severity as far as it reaches the level.
abbrev pub at_least : SeverityLevel → ℕ → ℕ
at_least level n = if ltb n (level_severity level) then 0 else n

pub meets_min_severity_lem :
    (i : Impact) (level : SeverityLevel)
    → meets_min_severity i level ≡ not (ltb (severity i) (level_severity level))
unfolding meets_min_severity
meets_min_severity_lem prohibited prohibited_level = refl
meets_min_severity_lem prohibited critical = refl
meets_min_severity_lem prohibited warning = refl
meets_min_severity_lem prohibited info = refl
meets_min_severity_lem blocking prohibited_level = refl
meets_min_severity_lem blocking critical = refl
meets_min_severity_lem blocking warning = refl
meets_min_severity_lem blocking info = refl
meets_min_severity_lem advisory prohibited_level = refl
meets_min_severity_lem advisory critical = refl
meets_min_severity_lem advisory warning = refl
meets_min_severity_lem advisory info = refl
meets_min_severity_lem no_impact prohibited_level = refl
meets_min_severity_lem no_impact critical = refl
meets_min_severity_lem no_impact warning = refl
meets_min_severity_lem no_impact info = refl
meets_min_severity_lem (unknown_impact s) prohibited_level = refl
meets_min_severity_lem (unknown_impact s) critical = refl
meets_min_severity_lem (unknown_impact s) warning = refl
meets_min_severity_lem (unknown_impact s) info = refl

worst_condition-kept :
    (level : SeverityLevel) (cs : List Condition)
    → worst_condition (kept_conditions level cs) ≡ at_least level (worst_condition cs)
worst_condition-kept level [] = ground arith
worst_condition-kept level (c ∷ cs) =
    ground (arith, meets_min_severity_lem c.impact level, worst_condition-kept level cs)

worst-with_conditions :
    (exec : CheckExecution) (r : DiagnosticResult) (cs : List Condition)
    (rest : List CheckExecution)
    → worst_execution (with_conditions exec r cs rest)
      ≡ max (worst_condition cs) (worst_execution rest)
worst-with_conditions exec r [] rest = omega arith
worst-with_conditions exec r (c ∷ cs) rest = refl

worst-filter_one :
    (level : SeverityLevel) (exec : CheckExecution) (o : Option DiagnosticResult)
    (rest : List CheckExecution)
    → worst_execution (filter_one level exec o rest)
      ≡ max (at_least level (worst_result o)) (worst_execution rest)
worst-filter_one level exec none rest = ground arith
worst-filter_one level exec (some r) rest =
    worst-with_conditions exec r (kept_conditions level r.conditions) rest
    ∙ ap (λ n. max n (worst_execution rest)) (worst_condition-kept level r.conditions)

worst-filter_executions :
    (level : SeverityLevel) (es : List CheckExecution)
    → worst_execution (filter_executions level es) ≡ at_least level (worst_execution es)
worst-filter_executions level [] = ground arith
worst-filter_executions level (e ∷ es) = ground (
  arith,
  worst-filter_one level e e.result (filter_executions level es),
  worst-filter_executions level es,
)

-- The worst severity after FilterBySeverity is the one from before if that reaches the level, and else
-- none.
pub worst-filter_by_severity :
    (es : List CheckExecution) (level : SeverityLevel)
    → worst_execution (filter_by_severity es level) ≡ at_least level (worst_execution es)
unfolding filter_by_severity
worst-filter_by_severity es prohibited_level = worst-filter_executions prohibited_level es
worst-filter_by_severity es critical = worst-filter_executions critical es
worst-filter_by_severity es warning = worst-filter_executions warning es
worst-filter_by_severity es info = ground arith
