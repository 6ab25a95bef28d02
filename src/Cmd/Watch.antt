-- ===== src/Cmd/Watch.antt =====
-- pkg/cmd/watch.go and watch_errors.go: `--watch`, as a step for each turn of the loop of RunWatch. What
-- a turn meets is data: the environment chooses it.
use odh_cli.Base.{
  ℕ, ◌+◌, ◌*◌, String, Bool, true, false, not, ◌||◌, Option, none, some, List, [], ◌∷◌, ◌++◌,
  if◌then◌else◌, ltb, ◌==◌, has,
}
use Prim.Native.String.{◌++◌ as string_append}
use odh_cli.Errors.{
  validation, connection, StructuredError, Error, structured, no_cause, error_text,
}
use odh_cli.Errors.Tables.{ApiErrors}
use odh_cli.Errors.Common.{plain_error}
use odh_cli.Output.{ℤ, pos}
use odh_cli.Client.{is_unrecoverable_error}
use odh_cli.Cmd.{int_ltb, second, max_wait_timeout}
use odh_cli.Cmd.Wait.{is_bad_interval, err_invalid_poll_interval, err_invalid_wait_timeout}

abbrev pub max_watch_errors : ℕ
max_watch_errors = 5

abbrev pub initial_watch_backoff : ℕ
initial_watch_backoff = second

abbrev pub max_watch_backoff : ℕ
max_watch_backoff = 30 * second

abbrev pub watch_backoff_factor : ℕ
watch_backoff_factor = 2

unfoldable pub err_watch_wait_exclusive : StructuredError
err_watch_wait_exclusive =
    plain_error "WATCH_WAIT_EXCLUSIVE" "cannot use --watch and --wait-for together" validation false
      "Use --watch for streaming output or --wait-for to block until a condition is met, not both"

unfoldable pub err_watch_requires_structured_output : StructuredError
err_watch_requires_structured_output =
    plain_error "WATCH_OUTPUT_FORMAT" "--watch requires structured output (-o json or -o yaml)"
      validation false "Use --watch with -o json or -o yaml for machine-readable streaming output"

unfoldable pub err_watch_max_errors : Error → StructuredError
err_watch_max_errors err =
    plain_error "WATCH_MAX_ERRORS"
      (string_append "watch stopped after 5 consecutive errors: " (error_text err)) connection true
      "Check cluster connectivity and credentials, then retry"

-- ValidateWatch; the first argument is the field Watch.
unfoldable pub validate_watch : Bool → Bool → String → List String → ℤ → ℤ → Option Error
unfolding err_watch_wait_exclusive err_watch_requires_structured_output err_invalid_poll_interval
    err_invalid_wait_timeout
validate_watch watch wait_active output_format structured_formats timeout poll_interval =
    if not watch
    then none
    else if wait_active
    then some (structured err_watch_wait_exclusive no_cause)
    else if not (has structured_formats output_format)
    then some (structured err_watch_requires_structured_output no_cause)
    else if is_bad_interval poll_interval
    then some (structured err_invalid_poll_interval no_cause)
    else if int_ltb timeout (pos 0) || int_ltb (pos max_wait_timeout) timeout
    then some (structured err_invalid_wait_timeout no_cause)
    else none

-- watchState
pub record WatchState : Type 0 where
  pub consecutive_errors : ℕ
  pub backoff : ℕ

-- watchState.reset, which is also how RunWatch starts
unfoldable pub reset : WatchState
reset = record { consecutive_errors = 0; backoff = initial_watch_backoff }

-- min(s.backoff*WatchBackoffFactor, MaxWatchBackoff)
abbrev pub next_backoff : ℕ → ℕ
next_backoff b =
    if ltb (b * watch_backoff_factor) max_watch_backoff
    then b * watch_backoff_factor
    else max_watch_backoff

-- What handleError does: it stops with an error or nil, after no wait or one that the context cuts
-- short, or it has waited and goes on. It leaves the state behind in both cases.
pub data Handled : Type 0 where
  stops : WatchState → Option Error → Handled
  waits : ℕ → WatchState → Handled

-- s.consecutiveErrors++
abbrev pub count_error : WatchState → WatchState
count_error s = record { consecutive_errors = s.consecutive_errors + 1; backoff = s.backoff }

-- watchState.handleError; `cancelled` says that the context is done before the backoff has passed.
unfoldable pub handle_error : ApiErrors → WatchState → Error → Bool → Handled
unfolding is_unrecoverable_error err_watch_max_errors
handle_error api s err cancelled =
    if is_unrecoverable_error api err
    then stops s (some err)
    else if not (ltb (s.consecutive_errors + 1) max_watch_errors)
    then stops (count_error s) (some (structured (err_watch_max_errors err) no_cause))
    else if cancelled
    then stops (count_error s) none
    else waits s.backoff
        (record { consecutive_errors = s.consecutive_errors + 1; backoff = next_backoff s.backoff })

-- What the poller returns: an error, or data with a snapshot, and then the error of the emitter in
-- case it is called with the data.
pub data Poll (D : Type 0) : Type 0 where
  poll_fails : Error → Poll D
  polls : D → String → Option Error → Poll D

-- What a turn of the loop meets: the context is done, or the ticker ticks, with the answer of the
-- poller, and with whether the context is done before a wait of handleError has passed.
pub data Turn (D : Type 0) : Type 0 where
  done : Turn D
  ticks : Poll D → Bool → Turn D

-- The loop's variables, the data that the emitter was called with, the waits of handleError, and the
-- result once the loop has returned.
pub record WatchLoop (D : Type 0) : Type 0 where
  pub prev_snapshot : String
  pub state : WatchState
  pub emitted : List D
  pub waited : List ℕ
  pub returned : Option (Option Error)

-- The rest of a turn after handleError.
abbrev pub after_error : {D : Type 0} → WatchLoop D → Handled → WatchLoop D
after_error l (stops s result) = record l { state = s; returned = some result }
after_error l (waits d s) = record l { state = s; waited = l.waited ++ d ∷ [] }

-- The loop has returned, or goes on.
abbrev pub unless_returned :
    {D : Type 0} → Option (Option Error) → WatchLoop D → WatchLoop D → WatchLoop D
unless_returned (some result) l rest = l
unless_returned none l rest = rest

module _ {D : Type 0} (api : ApiErrors) where
  -- One turn of a loop that has not returned.
  unfoldable pub watch_turn : WatchLoop D → Turn D → WatchLoop D
  unfolding handle_error reset
  watch_turn l done = record l { returned = some none }
  watch_turn l (ticks (poll_fails err) cancelled) =
      after_error l (handle_error api l.state err cancelled)
  watch_turn l (ticks (polls data_ snapshot emit_error) cancelled) =
      if l.prev_snapshot == snapshot then record l { state = reset } else record l {
        prev_snapshot = snapshot;
        state = reset;
        emitted = l.emitted ++ data_ ∷ [];
        returned = elim emit_error [ none ↦ none | some err ↦ some (some err) ];
      }

  -- The loop over the turns that the environment has made so far.
  unfoldable pub watch_loop : WatchLoop D → List (Turn D) → WatchLoop D
  unfolding watch_turn
  watch_loop l [] = l
  watch_loop l (t ∷ ts) = unless_returned l.returned l (watch_loop (watch_turn l t) ts)

  -- RunWatch: the first poll, whose error is not retried, and the loop.
  unfoldable pub run_watch : ℤ → Poll D → List (Turn D) → WatchLoop D
  unfolding watch_loop reset err_invalid_poll_interval
  run_watch poll_interval first ts =
      if is_bad_interval poll_interval
      then not_started (some (structured err_invalid_poll_interval no_cause))
      else elim first [
        | poll_fails err ↦ not_started (some err)
        | polls data_ snapshot emit_error ↦ elim emit_error [
          | some err ↦ record (not_started (some err)) { emitted = data_ ∷ [] }
          | none ↦ watch_loop (started data_ snapshot) ts
        ]
      ]
    where
      not_started : Option Error → WatchLoop D
      not_started result = record {
        prev_snapshot = "";
        state = reset;
        emitted = [];
        waited = [];
        returned = some result;
      }

      started : D → String → WatchLoop D
      started data_ snapshot = record {
        prev_snapshot = snapshot;
        state = reset;
        emitted = data_ ∷ [];
        waited = [];
        returned = none;
      }
