-- ===== src/Lint/Exit.antt =====
-- The exit code of the lint command as a whole: errors of checks and findings weighed by priority.
use odh_cli.Base.{
  ℕ, ◌≡◌, inl, inr, refl, sym, subst, ap, ◌∙◌, Bool, true, false, Some, ◌⊎◌, ◌≤◌, Option, none,
  some, List, [], ◌∷◌, arith, All, if◌then◌else◌, keep, Bool-cases, Option-cases,
}
use odh_cli.Errors.{Error, new_exit_code_error, new_already_handled_error, first_in_chain}
use odh_cli.Errors.ExitCode.{exit_success, is_higher_priority}
use odh_cli.Errors.Codes.{is_higher_priority_irrefl, is_higher_priority_trans}
use odh_cli.Errors.Tables.{ApiErrors}
use odh_cli.Errors.Classify.{exit_code_from_error}
use odh_cli.Lint.Severity.{SeverityLevel, CheckExecution, filter_by_severity}
use odh_cli.Lint.Worst.{worst_execution, at_least, worst-filter_by_severity}
use odh_cli.Lint.Findings.{code_of_severity, exit_code-evaluate_verdict}
use odh_cli.Lint.Precedence.{place, not_higher, higher, IsTop}
use odh_cli.Lint.Verdict.{
  Findings, find_impacts, no_findings, verdict, evaluate_verdict, ExecErrorSummary, note_error,
  summarize, highest_priority_exec_error, wrap_message, exec_message, resolve_findings,
  resolve_exit_error, has_result, exit_error_of_results,
}

abbrev start : ExecErrorSummary
start = record { exit_code = exit_success; err = none }

-- The code with the higher priority, the second where neither has it.
abbrev pub higher_of : ℕ → ℕ → ℕ
higher_of a b = if is_higher_priority a b then a else b

module _ (api : ApiErrors) where
  abbrev pub code_of : CheckExecution → ℕ
  code_of e = exit_code_from_error api e.error

  note_error-code :
      (s : ExecErrorSummary) (o : Option Error)
      → (note_error api s o).exit_code ≡ higher_of (exit_code_from_error api o) s.exit_code
  unfolding exit_code_from_error is_higher_priority
  note_error-code s none = ground arith
  note_error-code s (some e) = ground arith

  higher_of_mono :
      (x c s : ℕ) → is_higher_priority x s ≡ false → is_higher_priority x (higher_of c s) ≡ false
  higher_of_mono x c s h = elim (Bool-cases (is_higher_priority c s)) [
    | inl up ↦ rw up (ground (arith, is_higher_priority_trans x c s))
    | inr same ↦ rw same h
  ]

  higher_of-ge : (c s : ℕ) → is_higher_priority c (higher_of c s) ≡ false
  higher_of-ge c s = elim (Bool-cases (is_higher_priority c s)) [
    | inl up ↦ rw up (is_higher_priority_irrefl c)
    | inr same ↦ rw same same
  ]

  summarize_mono :
      (x : ℕ) (es : List CheckExecution) (s : ExecErrorSummary)
      → is_higher_priority x s.exit_code ≡ false
      → is_higher_priority x (summarize api s es).exit_code ≡ false
  unfolding summarize
  summarize_mono x [] s h = h
  summarize_mono x (e ∷ es) s h =
      summarize_mono x es (note_error api s e.error)
        (rw (note_error-code s e.error) (higher_of_mono x (code_of e) s.exit_code h))

  summarize-All :
      (es : List CheckExecution) (s : ExecErrorSummary)
      → All (λ e. is_higher_priority (code_of e) (summarize api s es).exit_code ≡ false) es
  unfolding summarize
  summarize-All [] s = tt
  summarize-All (e ∷ es) s = (
    summarize_mono (code_of e) es (note_error api s e.error)
        (rw (note_error-code s e.error) (higher_of-ge (code_of e) s.exit_code)),
    summarize-All es (note_error api s e.error),
  )

  summarize-err :
      (es : List CheckExecution) (s : ExecErrorSummary)
      → s.exit_code ≡ exit_code_from_error api s.err
      → (summarize api s es).exit_code ≡ exit_code_from_error api (summarize api s es).err
  unfolding summarize
  summarize-err [] s h = h
  summarize-err (e ∷ es) s h = summarize-err es (note_error api s e.error) (keeps e.error)
    where
      keeps :
          (o : Option Error)
          → (note_error api s o).exit_code ≡ exit_code_from_error api (note_error api s o).err
      keeps none = h
      keeps (some x) = ground arith

  -- highestPriorityExecError: no execution's error has an exit code of higher priority than the
  -- summary's, which is the exit code of the error that the summary names.
  pub highest_priority_exec_error_max :
      (es : List CheckExecution)
      → let s = highest_priority_exec_error api es in
        All (λ e. is_higher_priority (code_of e) s.exit_code ≡ false) es
        × (s.exit_code ≡ exit_code_from_error api s.err)
  unfolding highest_priority_exec_error exit_code_from_error
  highest_priority_exec_error_max es = (summarize-All es start, summarize-err es start refl)

  explicit_code :
      (c : ℕ) (e : Error) → exit_code_from_error api (new_exit_code_error c (some e)) ≡ c
  unfolding exit_code_from_error new_exit_code_error first_in_chain
  explicit_code c e = refl

  resolve_findings-code :
      (f : Findings) (table : Bool)
      → exit_code_from_error api (resolve_findings (verdict f) table)
        ≡ exit_code_from_error api (verdict f)
  unfolding exit_code_from_error verdict new_exit_code_error new_already_handled_error
      first_in_chain
  resolve_findings-code f table = ground arith

  success_lowest : (c : ℕ) → is_higher_priority exit_success c ≡ false
  unfolding is_higher_priority
  success_lowest c = ground arith

  resolve-verdict :
      (s : ExecErrorSummary) (f : Findings) (table : Bool)
      → exit_code_from_error api (resolve_exit_error api s (verdict f) table)
        ≡ higher_of s.exit_code (exit_code_from_error api (verdict f))
  unfolding resolve_exit_error
  resolve-verdict s f table = ground (
    arith,
    resolve_findings-code f table,
    explicit_code s.exit_code (wrap_message (exec_message (verdict f)) s.err),
    success_lowest (exit_code_from_error api (verdict f)),
  )

  resolve_exit_error-code :
      (s : ExecErrorSummary) (es : List CheckExecution) (table : Bool)
      → exit_code_from_error api (resolve_exit_error api s (evaluate_verdict es) table)
        ≡ higher_of s.exit_code (exit_code_from_error api (evaluate_verdict es))
  unfolding evaluate_verdict
  resolve_exit_error-code s es table = resolve-verdict s (find_impacts no_findings es) table

  worst-keep :
      (es : List CheckExecution) → worst_execution (keep has_result es) ≡ worst_execution es
  worst-keep [] = refl
  worst-keep (e ∷ es) = elim (Option-cases e.result) [
    | inl no_result ↦ ground (arith, worst-keep es)
    | inr (r, found) ↦ ground (arith, worst-keep es)
  ]

  -- The code by the summary of the errors, which may be of success, and the verdict.
  exit_error_of_results-higher_of :
      (es : List CheckExecution) (level : SeverityLevel) (table : Bool)
      → exit_code_from_error api (exit_error_of_results api es level table)
        ≡ higher_of
            (highest_priority_exec_error api es).exit_code
            (code_of_severity (at_least level (worst_execution es)))
  unfolding exit_error_of_results
  exit_error_of_results-higher_of es level table =
      let shown = filter_by_severity (keep has_result es) level in
      let s = highest_priority_exec_error api es in
      resolve_exit_error-code s shown table
      ∙ ap (higher_of s.exit_code) (
          exit_code-evaluate_verdict api shown
          ∙ ap code_of_severity (
              worst-filter_by_severity (keep has_result es) level
              ∙ ap (at_least level) (worst-keep es)))

  summarize-Some :
      (es : List CheckExecution) (s : ExecErrorSummary)
      → ((summarize api s es).exit_code ≡ s.exit_code)
        ⊎ Some (λ e. code_of e ≡ (summarize api s es).exit_code) es
  unfolding summarize
  summarize-Some [] s = inl refl
  summarize-Some (e ∷ es) s = elim (summarize-Some es (note_error api s e.error)) [
    | inr i ↦ inr (inr i)
    | inl q ↦
        let noted = note_error-code s e.error in
        elim (Bool-cases (is_higher_priority (code_of e) s.exit_code)) [
          | inl up ↦ inr (inl (sym (q ∙ noted ∙ ap (λ b. if b then code_of e else s.exit_code) up)))
          | inr same ↦ inl (q ∙ noted ∙ ap (λ b. if b then code_of e else s.exit_code) same)
        ]
  ]

  place_of_summary :
      (es xs : List CheckExecution) (s code : ℕ)
      → place s ≤ place code
      → All (λ e. is_higher_priority (code_of e) s ≡ false) xs
      → All (λ e. place (code_of e) ≤ place code) xs
  place_of_summary es [] s code h k = tt
  place_of_summary es (x ∷ xs) s code h (n, k) =
      (omega (arith, not_higher (code_of x) s n), place_of_summary es xs s code h k)

  higher_of-IsTop :
      (es : List CheckExecution) (v code : ℕ)
      → code ≡ higher_of (highest_priority_exec_error api es).exit_code v
      → IsTop api code es v
  unfolding highest_priority_exec_error
  higher_of-IsTop es v code e =
      let s = (highest_priority_exec_error api es).exit_code in
      let all = (highest_priority_exec_error_max es).0 in
      elim (Bool-cases (is_higher_priority s v)) [
        | inr n ↦
            let q : code ≡ v = e ∙ ap (λ b. if b then s else v) n in
            subst (λ x. IsTop api x es v) (sym q)
              (place_of_summary es es s v (not_higher s v n) all, (omega arith, inl refl))
        | inl n ↦
            let q : code ≡ s = e ∙ ap (λ b. if b then s else v) n in
            subst (λ x. IsTop api x es v) (sym q)
              (
                place_of_summary es es s s (omega arith) all,
                (
                  omega (arith, higher s v n),
                  elim (summarize-Some es start) [
                    | inr i ↦ inr i
                    | inl z ↦
                        absurd
                          (cc (subst (λ x. is_higher_priority x v ≡ true) z n, success_lowest v))
                  ],
                ),
              )
      ]

  -- The exit code of the lint command is the one of highest precedence, in the documented order,
  -- among the exit codes of the errors of all its executions, those without a result included, and
  -- the code of the verdict: 1 if the worst finding is prohibited or blocking, 2 if it is advisory,
  -- and 0 if none reaches the severity level. It is one of these codes.
  pub exit_error_of_results-code :
      (es : List CheckExecution) (level : SeverityLevel) (table : Bool)
      → IsTop api
          (exit_code_from_error api (exit_error_of_results api es level table))
          es
          (code_of_severity (at_least level (worst_execution es)))
  exit_error_of_results-code es level table =
      higher_of-IsTop es _ _ (exit_error_of_results-higher_of es level table)
