-- ===== src/Errors/Classify.antt =====
-- pkg/util/errors/errors.go: the classification of an error, by two tables, and the exit code of an
-- error (ExitCodeFromError of exitcode.go, which classifies where the chain names no code).
use odh_cli.Base.{
  ℕ, String, Bool, true, false, ◌&&◌, Option, none, some, List, [], ◌∷◌, if◌then◌else◌, nat_eq, not,
}
use odh_cli.Errors.{
  ErrorCategory, authentication, connection, validation, internal, StructuredError, lint_blocked,
  Error, Cause, cause, error_text, as_structured, as_exit_code,
}
use odh_cli.Errors.ExitCode.{
  exit_success, exit_error, exit_warning, exit_validation, exit_auth, exit_connection,
  exit_code_from_category,
}
use odh_cli.Errors.Tables.{
  ApiErrors, ErrorEntry, is_sentinel, api_error_table, local_error_table, suggestion_connection,
  suggestion_internal,
}

abbrev pub classified :
    String → String → ErrorCategory → ℕ → Bool → String → Error → StructuredError × Cause
classified code message category exit_code retriable suggestion err = (
  record {
    code = code;
    message = message;
    category = category;
    exit_code = exit_code;
    retriable = retriable;
    suggestion = suggestion;
  },
  cause err,
)

-- matchEntry: the first entry whose check holds.
unfoldable pub match_entry : List ErrorEntry → Error → Option (StructuredError × Cause)
match_entry [] err = none
match_entry (e ∷ table) err =
    if e.check err
    then some (
        classified e.code (error_text err) e.category (exit_code_from_category e.category)
          e.retriable e.suggestion err)
    else match_entry table err

-- The switch of classifyFromExitCode; `ExitError` without the lint sentinel falls through.
unfoldable pub classify_from_exit_code : ℕ → Error → StructuredError × Cause
classify_from_exit_code code err =
    let message = error_text err in
    if nat_eq code exit_warning
    then classified "LINT_ADVISORY" message validation exit_warning false
        "Review the advisory findings before proceeding with the upgrade" err
    else if nat_eq code exit_validation
    then classified "VALIDATION_FAILED" message validation exit_validation false
        "Check the command arguments and flags" err
    else if nat_eq code exit_auth
    then classified "AUTH_FAILED" message authentication exit_auth false
        "Refresh your kubeconfig credentials with 'oc login' or 'kubectl config'" err
    else if nat_eq code exit_connection
    then classified "CONN_FAILED" message connection exit_connection true suggestion_connection err
    else if nat_eq code exit_error && is_sentinel lint_blocked err
    then classified "LINT_BLOCKED" message validation exit_error false
        "Address the prohibited or blocking findings before proceeding with the upgrade" err
    else classified "INTERNAL" message internal exit_error false suggestion_internal err

-- Classify on an error that is not nil; on nil it returns nil.
unfoldable pub classify : ApiErrors → Error → StructuredError × Cause
classify api err = elim (as_structured err) [
  | some found ↦ found
  | none ↦ elim (match_entry (api_error_table api) err) [
    | some found ↦ found
    | none ↦ elim (match_entry local_error_table err) [
      | some found ↦ found
      | none ↦ elim (as_exit_code err) [
        | some code ↦ classify_from_exit_code code err
        | none ↦
            classified "INTERNAL" (error_text err) internal (exit_code_from_category internal) false
              suggestion_internal err
      ]
    ]
  ]
]

-- ExitCodeFromError; `none` is the nil error.
unfoldable pub exit_code_from_error : ApiErrors → Option Error → ℕ
exit_code_from_error api none = exit_success
exit_code_from_error api (some err) = elim (as_exit_code err) [
  | some code ↦ code
  | none ↦ elim (as_structured err) [
    | some (s, c) ↦
        if not (nat_eq s.exit_code 0) then s.exit_code else exit_code_from_category s.category
    | none ↦ exit_code_from_category (classify api err).0.category
  ]
]
