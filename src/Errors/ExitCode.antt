-- ===== src/Errors/ExitCode.antt =====
-- pkg/util/errors/exitcode.go: exit codes, their priority, and the codes of error categories.
use odh_cli.Base.{ℕ, Bool, ltb, nat_eq, if◌then◌else◌}
use odh_cli.Errors.{
  ErrorCategory, authentication, authorization, connection, not_found, validation, conflict, server,
  timeout, internal,
}

abbrev pub exit_success : ℕ
exit_success = 0

abbrev pub exit_error : ℕ
exit_error = 1

abbrev pub exit_warning : ℕ
exit_warning = 2

abbrev pub exit_validation : ℕ
exit_validation = 3

abbrev pub exit_auth : ℕ
exit_auth = 4

abbrev pub exit_connection : ℕ
exit_connection = 5

-- ExitCodeFromCategory
unfoldable pub exit_code_from_category : ErrorCategory → ℕ
exit_code_from_category authentication = exit_auth
exit_code_from_category authorization = exit_auth
exit_code_from_category connection = exit_connection
exit_code_from_category timeout = exit_connection
exit_code_from_category validation = exit_validation
exit_code_from_category server = exit_error
exit_code_from_category not_found = exit_error
exit_code_from_category conflict = exit_error
exit_code_from_category internal = exit_error

-- The table exitCodePriority and the function over it: an unknown code counts as an error.
unfoldable pub priority : ℕ → ℕ
priority code =
    if nat_eq code exit_success
    then 0
    else if nat_eq code exit_warning
    then 1
    else if nat_eq code exit_error
    then 2
    else if nat_eq code exit_validation
    then 3
    else if nat_eq code exit_auth
    then 4
    else if nat_eq code exit_connection
    then 5
    else 2

unfoldable pub is_higher_priority : ℕ → ℕ → Bool
unfolding priority
is_higher_priority a b = ltb (priority b) (priority a)
