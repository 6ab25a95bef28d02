-- ===== src/Lint/Verdict.antt =====
-- pkg/lint/command.go: the verdict on the findings, the most important execution error, and the error
-- that decides the exit code of the lint command.
use Prim.Native.String.{◌++◌}
use odh_cli.Base.{
  ℕ, String, Bool, true, false, ◌||◌, ◌&&◌, not, Option, none, some, List, [], ◌∷◌, if◌then◌else◌,
  nat_eq, keep,
}
use odh_cli.Errors.{
  Error, text, sentinel, lint_blocked, lint_advisory, wrapped, new_already_handled_error,
  new_exit_code_error, is_some,
}
use odh_cli.Errors.ExitCode.{exit_success, exit_error, exit_warning, is_higher_priority}
use odh_cli.Errors.Tables.{ApiErrors}
use odh_cli.Errors.Classify.{exit_code_from_error}
use odh_cli.Lint.Result.{
  Impact, prohibited, blocking, advisory, no_impact, unknown_impact, DiagnosticResult, get_impact,
}
use odh_cli.Lint.Severity.{SeverityLevel, CheckExecution, filter_by_severity}

-- The three flags of evaluateVerdict.
pub record Findings : Type 0 where
  pub has_prohibited : Bool
  pub has_blocking : Bool
  pub has_advisory : Bool

abbrev pub note_impact : Impact → Findings → Findings
note_impact prohibited f = record f { has_prohibited = true }
note_impact blocking f = record f { has_blocking = true }
note_impact advisory f = record f { has_advisory = true }
note_impact no_impact f = f
note_impact (unknown_impact s) f = f

abbrev pub note_result : Option DiagnosticResult → Findings → Findings
note_result none f = f
note_result (some r) f = note_impact (get_impact r.conditions) f

unfoldable pub find_impacts : Findings → List CheckExecution → Findings
find_impacts f [] = f
find_impacts f (exec ∷ execs) = find_impacts (note_result exec.result f) execs

abbrev pub no_findings : Findings
no_findings = record { has_prohibited = false; has_blocking = false; has_advisory = false }

-- The error that evaluateVerdict makes of the flags.
unfoldable pub verdict : Findings → Option Error
verdict f =
    if f.has_prohibited || f.has_blocking
    then new_exit_code_error exit_error (
        some (
          wrapped "" (sentinel lint_blocked)
            ": prohibited or blocking findings detected: upgrade cannot proceed"))
    else if f.has_advisory
    then new_exit_code_error exit_warning (
        some (
          wrapped "" (sentinel lint_advisory)
            ": advisory findings detected: review recommended before upgrade"))
    else none

-- evaluateVerdict; the printed verdict is left out.
unfoldable pub evaluate_verdict : List CheckExecution → Option Error
unfolding find_impacts verdict
evaluate_verdict results = verdict (find_impacts no_findings results)

-- execErrorSummary
pub record ExecErrorSummary : Type 0 where
  pub exit_code : ℕ
  pub err : Option Error

abbrev pub note_error : ApiErrors → ExecErrorSummary → Option Error → ExecErrorSummary
note_error api summary none = summary
note_error api summary (some e) =
    let code = exit_code_from_error api (some e) in
    if is_higher_priority code summary.exit_code
    then record { exit_code = code; err = some e }
    else summary

unfoldable pub summarize : ApiErrors → ExecErrorSummary → List CheckExecution → ExecErrorSummary
summarize api summary [] = summary
summarize api summary (exec ∷ execs) = summarize api (note_error api summary exec.error) execs

-- highestPriorityExecError
unfoldable pub highest_priority_exec_error : ApiErrors → List CheckExecution → ExecErrorSummary
unfolding summarize
highest_priority_exec_error api results =
    summarize api (record { exit_code = exit_success; err = none }) results

-- fmt.Errorf with %w, of an error that may be nil.
abbrev pub wrap_message : String → Option Error → Error
wrap_message before none = text (before ++ "%!w(<nil>)")
wrap_message before (some e) = wrapped before e ""

abbrev pub resolve_findings : Option Error → Bool → Option Error
resolve_findings none table = none
resolve_findings (some e) table = if table then some (new_already_handled_error e) else some e

abbrev pub exec_message : Option Error → String
exec_message none = "one or more checks failed due to infrastructure errors: "
exec_message (some e) = "check execution errors detected: "

-- resolveExitError; `table` says that the output format is the table.
unfoldable pub resolve_exit_error :
    ApiErrors → ExecErrorSummary → Option Error → Bool → Option Error
resolve_exit_error api summary findings table =
    let findings_code = exit_code_from_error api findings in
    if not (nat_eq summary.exit_code exit_success)
      && (is_higher_priority summary.exit_code findings_code
          || nat_eq summary.exit_code findings_code)
    then new_exit_code_error summary.exit_code
        (some (wrap_message (exec_message findings) summary.err))
    else resolve_findings findings table

abbrev pub has_result : CheckExecution → Bool
has_result e = is_some e.result

-- The end of Command.runUpgradeMode: the summary of the errors comes before the nil results are
-- dropped and the severities filtered, the verdict after. The printing between is left out.
unfoldable pub exit_error_of_results :
    ApiErrors → List CheckExecution → SeverityLevel → Bool → Option Error
exit_error_of_results api results level table =
    resolve_exit_error api (highest_priority_exec_error api results)
      (evaluate_verdict (filter_by_severity (keep has_result results) level)) table
