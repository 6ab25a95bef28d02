-- ===== src/Lint/Kept.antt =====
-- Which findings FilterBySeverity of pkg/lint/command_options.go keeps.
use odh_cli.Base.{
  ◌≡◌, refl, sym, ◌∙◌, ap, inl, inr, arith, Bool, true, not, Option, none, some, List, [], ◌∷◌,
  ◌++◌, keep, map, ltb, All, Bool-cases,
}
use odh_cli.Lint.Result.{Condition, DiagnosticResult}
use odh_cli.Lint.Result.Impacts.{severity}
use odh_cli.Lint.Severity.{
  SeverityLevel, prohibited_level, critical, warning, info, CheckExecution, meets_min_severity,
  kept_conditions, with_conditions, filter_one, filter_executions, filter_by_severity,
}
use odh_cli.Lint.Worst.{level_severity, meets_min_severity_lem}

-- A finding: a condition, with the execution it belongs to, whose own conditions are left out.
abbrev pub Finding : Type 0
Finding = CheckExecution × Condition

abbrev pub without_conditions : CheckExecution → DiagnosticResult → CheckExecution
without_conditions e r = record e { result = some (record r { conditions = [] }) }

abbrev pub findings_in : CheckExecution → Option DiagnosticResult → List Finding
findings_in e none = []
findings_in e (some r) = map (λ c. (without_conditions e r, c)) r.conditions

-- All findings, in their order.
abbrev pub findings_of : List CheckExecution → List Finding
findings_of [] = []
findings_of (e ∷ es) = findings_in e e.result ++ findings_of es

-- The finding is at or above the level.
abbrev pub reaches : SeverityLevel → Finding → Bool
reaches level f = not (ltb (severity f.1.impact) (level_severity level))

-- The execution has a finding.
abbrev pub HasFinding : CheckExecution → Type 0
HasFinding e = (f : Finding) × ((fs : List Finding) × (findings_in e e.result ≡ f ∷ fs))

keep-append :
    {A : Type 0} (p : A → Bool) (xs ys : List A) → keep p (xs ++ ys) ≡ keep p xs ++ keep p ys
keep-append p [] ys = refl
keep-append p (x ∷ xs) ys = elim (Bool-cases (p x)) [
  | inl e ↦ rw e (ap (x ∷◌) (keep-append p xs ys))
  | inr e ↦ rw e (keep-append p xs ys)
]

keep-all : {A : Type 0} (p : A → Bool) (xs : List A) → ((x : A) → p x ≡ true) → keep p xs ≡ xs
keep-all p [] h = refl
keep-all p (x ∷ xs) h = rw (h x) (ap (x ∷◌) (keep-all p xs h))

module _ (level : SeverityLevel) where
  keep-map :
      (e : CheckExecution) (cs : List Condition)
      → map (λ c. (e, c)) (kept_conditions level cs) ≡ keep (reaches level) (map (λ c. (e, c)) cs)
  keep-map e [] = refl
  keep-map e (c ∷ cs) = elim (Bool-cases (meets_min_severity c.impact level)) [
    | inl m ↦
        let m' = sym (meets_min_severity_lem c.impact level) ∙ m in
        rw (m, m') (ap ((e, c) ∷◌) (keep-map e cs))
    | inr m ↦ let m' = sym (meets_min_severity_lem c.impact level) ∙ m in rw (m, m') (keep-map e cs)
  ]

  findings-with_conditions :
      (e : CheckExecution) (r : DiagnosticResult) (cs : List Condition) (rest : List CheckExecution)
      → findings_of (with_conditions e r cs rest)
        ≡ map (λ c. (without_conditions e r, c)) cs ++ findings_of rest
  findings-with_conditions e r [] rest = refl
  findings-with_conditions e r (c ∷ cs) rest = refl

  findings-filter_one :
      (e : CheckExecution) (o : Option DiagnosticResult) (rest : List CheckExecution)
      → findings_of (filter_one level e o rest)
        ≡ keep (reaches level) (findings_in e o) ++ findings_of rest
  findings-filter_one e none rest = refl
  findings-filter_one e (some r) rest =
      findings-with_conditions e r (kept_conditions level r.conditions) rest
      ∙ ap (λ fs. fs ++ findings_of rest) (keep-map (without_conditions e r) r.conditions)

  findings-filter_executions :
      (es : List CheckExecution)
      → findings_of (filter_executions level es) ≡ keep (reaches level) (findings_of es)
  findings-filter_executions [] = refl
  findings-filter_executions (e ∷ es) =
      findings-filter_one e e.result (filter_executions level es)
      ∙ ap (λ fs. keep (reaches level) (findings_in e e.result) ++ fs)
          (findings-filter_executions es)
      ∙ sym (keep-append (reaches level) (findings_in e e.result) (findings_of es))

  HasFinding-filter_one :
      (e : CheckExecution) (o : Option DiagnosticResult) (rest : List CheckExecution)
      → All HasFinding rest
      → All HasFinding (filter_one level e o rest)
  HasFinding-filter_one e none rest h = h
  HasFinding-filter_one e (some r) rest h = added (kept_conditions level r.conditions)
    where
      added : (cs : List Condition) → All HasFinding (with_conditions e r cs rest)
      added [] = h
      added (c ∷ cs) = ((_, (_, refl)), h)

  HasFinding-filter_executions :
      (es : List CheckExecution) → All HasFinding (filter_executions level es)
  HasFinding-filter_executions [] = tt
  HasFinding-filter_executions (e ∷ es) =
      HasFinding-filter_one e e.result _ (HasFinding-filter_executions es)

-- FilterBySeverity keeps exactly the findings at or above the level, in their order and with the checks,
-- the errors and the rest of the results they belong to; and above the level info it leaves only
-- executions that have a finding.
pub filter_by_severity-findings :
    (es : List CheckExecution) (level : SeverityLevel)
    → (findings_of (filter_by_severity es level) ≡ keep (reaches level) (findings_of es))
      × ((ltb 0 (level_severity level)) ≡ true → All HasFinding (filter_by_severity es level))
unfolding filter_by_severity
filter_by_severity-findings es prohibited_level = (
  findings-filter_executions prohibited_level es,
  λ l. HasFinding-filter_executions prohibited_level es,
)
filter_by_severity-findings es critical =
    (findings-filter_executions critical es, λ l. HasFinding-filter_executions critical es)
filter_by_severity-findings es warning =
    (findings-filter_executions warning es, λ l. HasFinding-filter_executions warning es)
filter_by_severity-findings es info =
    (sym (keep-all (reaches info) (findings_of es) (λ f. ground arith)), λ l. absurd (cc l))
