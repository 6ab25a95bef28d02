-- ===== src/Lint/Findings.antt =====
-- What the exit code of the lint command says of the findings and of the errors of the checks.
use Prim.Native.Nat.{max}
use odh_cli.Base.{
  ℕ, ◌-◌, ◌≡◌, refl, sym, ap, ◌∙◌, String, Option, none, some, List, [], ◌∷◌, arith, if◌then◌else◌,
  ltb, ◌||◌,
}
use odh_cli.Errors.{new_exit_code_error, first_in_chain}
use odh_cli.Errors.ExitCode.{exit_success, exit_error, exit_warning}
use odh_cli.Errors.Tables.{ApiErrors}
use odh_cli.Errors.Classify.{exit_code_from_error}
use odh_cli.Output.{
  Envelope, pos, Status, status_success, status_warning, status_failure, new_status,
}
use odh_cli.Lint.Result.{
  Impact, prohibited, blocking, advisory, no_impact, unknown_impact, Condition, DiagnosticResult,
  get_impact, count_impact, count_impacts, compute_status,
}
use odh_cli.Lint.Result.Impacts.{severity, severity-le}
use odh_cli.Lint.Severity.{
  CheckExecution, impact_sort_priority, check_max_impact_from, check_max_impact,
}
use odh_cli.Lint.Worst.{severity-get_impact, worst_condition, worst_result, worst_execution}
use odh_cli.Lint.Verdict.{
  Findings, note_impact, note_result, find_impacts, no_findings, verdict, evaluate_verdict,
}

-- The exit code that stands for a worst severity.
abbrev pub code_of_severity : ℕ → ℕ
code_of_severity n = if ltb 1 n then exit_error else if ltb 0 n then exit_warning else exit_success

-- The status text that stands for a worst severity.
abbrev pub status_of_severity : ℕ → String
status_of_severity n =
    if ltb 1 n then status_failure else if ltb 0 n then status_warning else status_success

-- The severity that the flags stand for, as far as the verdict reads it.
abbrev flags_severity : Findings → ℕ
flags_severity f = if f.has_prohibited || f.has_blocking then 2 else if f.has_advisory then 1 else 0

abbrev capped : ℕ → ℕ
capped n = if ltb 1 n then 2 else n

flags-note_impact :
    (i : Impact) (f : Findings)
    → flags_severity (note_impact i f) ≡ max (flags_severity f) (capped (severity i))
flags-note_impact prohibited f = ground arith
flags-note_impact blocking f = ground arith
flags-note_impact advisory f = ground arith
flags-note_impact no_impact f = ground arith
flags-note_impact (unknown_impact s) f = ground arith

flags-note_result :
    (o : Option DiagnosticResult) (f : Findings)
    → flags_severity (note_result o f) ≡ max (flags_severity f) (capped (worst_result o))
flags-note_result none f = ground arith
flags-note_result (some r) f =
    flags-note_impact (get_impact r.conditions) f
    ∙ ap (λ n. max (flags_severity f) (capped n)) (severity-get_impact r.conditions)

max-capped : (a x y : ℕ) → max (max a (capped x)) (capped y) ≡ max a (capped (max x y))
max-capped a x y = ground arith

flags-find_impacts :
    (es : List CheckExecution) (f : Findings)
    → flags_severity (find_impacts f es) ≡ max (flags_severity f) (capped (worst_execution es))
unfolding find_impacts
flags-find_impacts [] f = ground arith
flags-find_impacts (e ∷ es) f =
    flags-find_impacts es (note_result e.result f)
    ∙ ap (λ n. max n (capped (worst_execution es))) (flags-note_result e.result f)
    ∙ max-capped (flags_severity f) (worst_result e.result) (worst_execution es)

exit_code-verdict :
    (api : ApiErrors) (f : Findings)
    → exit_code_from_error api (verdict f) ≡ code_of_severity (flags_severity f)
unfolding exit_code_from_error verdict new_exit_code_error first_in_chain
exit_code-verdict api f = ground arith

code_of-capped : (n : ℕ) → code_of_severity (max 0 (capped n)) ≡ code_of_severity n
code_of-capped n = ground arith

-- The exit code of the verdict is 1 if the worst finding is blocking or prohibited, 2 if it is advisory,
-- and 0 if there is none.
pub exit_code-evaluate_verdict :
    (api : ApiErrors) (es : List CheckExecution)
    → exit_code_from_error api (evaluate_verdict es) ≡ code_of_severity (worst_execution es)
unfolding evaluate_verdict
exit_code-evaluate_verdict api es =
    exit_code-verdict api (find_impacts no_findings es)
    ∙ ap code_of_severity (flags-find_impacts es no_findings)
    ∙ code_of-capped (worst_execution es)

-- The two counters against the worst severity.
abbrev counts_severity : ℕ × ℕ → ℕ
counts_severity (warnings, errs) = if ltb 0 errs then 2 else if ltb 0 warnings then 1 else 0

counts-count_impact :
    (i : Impact) (c : ℕ × ℕ)
    → counts_severity (count_impact i c) ≡ max (counts_severity c) (capped (severity i))
counts-count_impact prohibited (w, e) = ground arith
counts-count_impact blocking (w, e) = ground arith
counts-count_impact advisory (w, e) = ground arith
counts-count_impact no_impact (w, e) = ground arith
counts-count_impact (unknown_impact s) (w, e) = ground arith

abbrev pub worst_results : List (Option DiagnosticResult) → ℕ
worst_results [] = 0
worst_results (o ∷ os) = max (worst_result o) (worst_results os)

max-zero : (a x : ℕ) → max a (capped x) ≡ max a (capped (max 0 x))
max-zero a x = ground arith

counts-count_impacts :
    (os : List (Option DiagnosticResult)) (c : ℕ × ℕ)
    → counts_severity (count_impacts c os) ≡ max (counts_severity c) (capped (worst_results os))
unfolding count_impacts
counts-count_impacts [] c = omega arith
counts-count_impacts (none ∷ os) c =
    counts-count_impacts os c ∙ max-zero (counts_severity c) (worst_results os)
counts-count_impacts (some r ∷ os) c =
    counts-count_impacts os (count_impact (get_impact r.conditions) c)
    ∙ ap (λ n. max n (capped (worst_results os))) (counts-count_impact (get_impact r.conditions) c)
    ∙ max-capped (counts_severity c) (severity (get_impact r.conditions)) (worst_results os)
    ∙ ap (λ n. max (counts_severity c) (capped (max n (worst_results os))))
        (severity-get_impact r.conditions)

new_status-result :
    (c : ℕ × ℕ) → (new_status (pos c.0) (pos c.1)).result ≡ status_of_severity (counts_severity c)
unfolding new_status
new_status-result (w, e) = ground arith

status_of-capped : (n : ℕ) → status_of_severity (max 0 (capped n)) ≡ status_of_severity n
status_of-capped n = ground arith

-- ComputeStatus sets "failure" if the worst impact of the results is blocking or prohibited, "warning" if
-- it is advisory, and "success" if there is none; nil results count for nothing.
pub compute_status-result :
    (l : Envelope) (os : List (Option DiagnosticResult))
    → (s : Status) × ((compute_status l os).status ≡ some s)
      × (s.result ≡ status_of_severity (worst_results os))
unfolding compute_status
compute_status-result l os =
    let c = count_impacts (0, 0) os in
    (
      new_status (pos c.0) (pos c.1),
      refl,
      new_status-result c
          ∙ ap status_of_severity (counts-count_impacts os (0, 0))
          ∙ status_of-capped (worst_results os),
    )

sort_priority-severity : (i : Impact) → impact_sort_priority i ≡ 3 - severity i
unfolding impact_sort_priority
sort_priority-severity prohibited = omega arith
sort_priority-severity blocking = omega arith
sort_priority-severity advisory = omega arith
sort_priority-severity no_impact = omega arith
sort_priority-severity (unknown_impact s) = omega arith

pick_max :
    (i most : Impact) (n : ℕ)
    → max
        (severity (if ltb (impact_sort_priority i) (impact_sort_priority most) then i else most))
        n
      ≡ max (severity most) (max (severity i) n)
pick_max i most n =
    ground (
      arith,
      sort_priority-severity i,
      sort_priority-severity most,
      severity-le i,
      severity-le most,
    )

max_zero_left : (n : ℕ) → max 0 n ≡ n
max_zero_left n = omega arith

check_max_impact_from-get :
    (cs : List Condition) (most : Impact)
    → severity (check_max_impact_from most cs) ≡ max (severity most) (worst_condition cs)
unfolding check_max_impact_from
check_max_impact_from-get [] most = omega arith
check_max_impact_from-get (c ∷ cs) most =
    check_max_impact_from-get cs _ ∙ pick_max c.impact most (worst_condition cs)

-- checkMaxImpact and GetImpact, written independently, find equally severe impacts.
pub check_max_impact-get_impact :
    (cs : List Condition) → severity (check_max_impact cs) ≡ severity (get_impact cs)
unfolding check_max_impact
check_max_impact-get_impact cs =
    check_max_impact_from-get cs no_impact
    ∙ max_zero_left (worst_condition cs)
    ∙ sym (severity-get_impact cs)
