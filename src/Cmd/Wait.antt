-- ===== src/Cmd/Wait.antt =====
-- pkg/cmd/wait.go and wait_errors.go: the flag of a fixed set of values, and `--wait-for`.
use odh_cli.Base.{
  String, Bool, true, false, not, ◌||◌, Option, none, some, List, if◌then◌else◌, ◌==◌, has, quote,
  join,
}
use Prim.Native.String.{◌++◌}
use odh_cli.Errors.{
  validation, timeout, StructuredError, Error, text, structured, wrapped, no_cause,
  deadline_exceeded,
}
use odh_cli.Errors.Tables.{is_sentinel}
use odh_cli.Errors.Common.{plain_error}
use odh_cli.Output.{ℤ, pos}
use odh_cli.Cmd.{int_ltb, second, max_poll_interval, max_wait_timeout}

-- enumValue; the value that `value` points to is a field.
pub record EnumValue : Type 0 where
  pub allowed : List String
  pub value : String

-- enumValue.Set: the flag after it, and the error.
unfoldable pub enum_set : EnumValue → String → EnumValue × Option Error
unfolding join
enum_set e s =
    if not (has e.allowed s)
    then (e, some (text ("must be one of: " ++ join ", " e.allowed)))
    else (record e { value = s }, none)

-- enumValue.String and enumValue.Type
unfoldable pub enum_string : EnumValue → String
enum_string e = e.value

unfoldable pub enum_type : EnumValue → String
unfolding join
enum_type e = join "|" e.allowed

pub record WaitOptions : Type 0 where
  pub wait_for : String
  pub poll_interval : ℤ

-- HasWaitMode
unfoldable pub has_wait_mode : WaitOptions → Bool
has_wait_mode w = not (w.wait_for == "")

unfoldable pub err_invalid_poll_interval : StructuredError
err_invalid_poll_interval =
    plain_error "INVALID_POLL_INTERVAL" "poll interval must be between 1s and 5m" validation false
      "Use --poll-interval with a duration between 1s and 5m (e.g., 5s, 10s, 30s)"

unfoldable pub err_invalid_wait_timeout : StructuredError
err_invalid_wait_timeout =
    plain_error "INVALID_TIMEOUT" "timeout must be between 0 and 30m (0 means no timeout)"
      validation false "Use --timeout=0 for no timeout, or a duration up to 30m (e.g., 30s, 5m)"

unfoldable pub err_wait_timeout : String → StructuredError
err_wait_timeout condition =
    plain_error "WAIT_TIMEOUT" ("timed out waiting for condition " ++ quote condition) timeout true
      "Increase --timeout or check platform health with: kubectl odh status"

-- `d < time.Second || d > MaxPollInterval`
abbrev pub is_bad_interval : ℤ → Bool
is_bad_interval d = int_ltb d (pos second) || int_ltb (pos max_poll_interval) d

-- ValidateWait
unfoldable pub validate_wait : WaitOptions → ℤ → Option Error
unfolding err_invalid_poll_interval err_invalid_wait_timeout
validate_wait w limit =
    if w.wait_for == ""
    then none
    else if is_bad_interval w.poll_interval
    then some (structured err_invalid_poll_interval no_cause)
    else if int_ltb limit (pos 0) || int_ltb (pos max_wait_timeout) limit
    then some (structured err_invalid_wait_timeout no_cause)
    else none

-- RunWait. `poll` is wait.PollUntilContextCancel with the condition, at a timeout of the context, if
-- one is set, and an interval.
unfoldable pub run_wait : (Option ℤ → ℤ → Option Error) → WaitOptions → ℤ → Option Error
unfolding err_invalid_poll_interval err_invalid_wait_timeout err_wait_timeout
run_wait poll w limit =
    if is_bad_interval w.poll_interval
    then some (structured err_invalid_poll_interval no_cause)
    else if int_ltb limit (pos 0)
    then some (structured err_invalid_wait_timeout no_cause)
    else elim (poll (if int_ltb (pos 0) limit then some limit else none) w.poll_interval) [
      | none ↦ none
      | some err ↦
          if is_sentinel deadline_exceeded err
          then some (structured (err_wait_timeout w.wait_for) no_cause)
          else some (wrapped ("waiting for condition " ++ (quote w.wait_for ++ ": ")) err "")
    ]
