-- ===== src/Cmd/Tests.antt =====
-- The theorems on polling at concrete options and turns.
use odh_cli.Base.{
  ◌≡◌, refl, ◌↔◌, ◌⊎◌, inl, inr, true, false, Option, none, some, List, [], ◌∷◌, String, arith,
}
use odh_cli.Errors.{Error, text, structured, sentinel, no_cause, deadline_exceeded, first_in_chain}
use odh_cli.Errors.Tests.{no_api_errors}
use odh_cli.Output.{ℤ, pos}
use odh_cli.Client.{is_unrecoverable_error}
use odh_cli.Cmd.Wait.{WaitOptions, validate_wait, run_wait, err_wait_timeout}
use odh_cli.Cmd.Watch.{Turn, ticks, poll_fails, polls, run_watch, validate_watch}
use odh_cli.Cmd.Backoff.{IsBounded, run_watch-IsBounded}
use odh_cli.Cmd.Streak.{GaveUp, InARow, run_watch_gives_up}
use odh_cli.Cmd.Changes.{answers, changes, run_watch-emitted}
use odh_cli.Cmd.Bounds.{validate_watch_iff, run_wait-validate_wait}

abbrev ten_seconds : ℤ
ten_seconds = pos 10_000_000_000

abbrev fails : Turn String
fails = ticks (poll_fails (text "connection refused")) false

abbrev answer : String → Turn String
answer s = ticks (polls s s none) false

abbrev some_turns : List (Turn String)
some_turns = answer "a" ∷ fails ∷ answer "a" ∷ answer "b" ∷ fails ∷ fails ∷ []

abbrev five_failures : List (Turn String)
five_failures = answer "b" ∷ fails ∷ fails ∷ fails ∷ fails ∷ fails ∷ []

run_watch-IsBounded_example :
    IsBounded no_api_errors (run_watch no_api_errors ten_seconds (polls "a" "a" none) five_failures)
run_watch-IsBounded_example =
    run_watch-IsBounded no_api_errors ten_seconds (polls "a" "a" none) five_failures

run_watch_gives_up_example :
    let l = run_watch no_api_errors ten_seconds (polls "a" "a" none) five_failures in
    (GaveUp l.returned ↔ InARow no_api_errors 5 five_failures)
    × ((l.returned ≡ none) ⊎ GaveUp l.returned)
unfolding is_unrecoverable_error
run_watch_gives_up_example =
    run_watch_gives_up no_api_errors ten_seconds "a" "a" five_failures refl
      (refl, ((refl, refl), ((refl, refl), ((refl, refl), ((refl, refl), ((refl, refl), tt))))))

run_watch-emitted_example :
    (run_watch no_api_errors ten_seconds (polls "a" "a" none) some_turns).emitted
    ≡ "a" ∷ changes "a" (answers some_turns)
unfolding run_watch
run_watch-emitted_example = run_watch-emitted no_api_errors ten_seconds "a" "a" some_turns refl refl

some_turns_emit : changes "a" (answers some_turns) ≡ "b" ∷ []
some_turns_emit = refl

validate_watch_iff_example :
    validate_watch true false "json" ("json" ∷ "yaml" ∷ []) (pos 0) ten_seconds ≡ none
validate_watch_iff_example =
    (validate_watch_iff true false "json" ("json" ∷ "yaml" ∷ []) (pos 0) ten_seconds).1
      (inr (refl, (inl refl, ((omega arith, omega arith), (omega arith, omega arith)))))

abbrev wait_ready : WaitOptions
wait_ready = record { wait_for = "ready"; poll_interval = ten_seconds }

-- A condition that never holds.
abbrev never : Option ℤ → ℤ → Option Error
never (some limit) interval = some (sentinel deadline_exceeded)
never none interval = some (text "context canceled")

run_wait-validate_wait_example :
    run_wait never wait_ready (pos 60_000_000_000)
    ≡ some (structured (err_wait_timeout "ready") no_cause)
unfolding validate_wait first_in_chain
run_wait-validate_wait_example =
    (run_wait-validate_wait never wait_ready (pos 60_000_000_000) (λ e. cc) refl).1.1 refl
