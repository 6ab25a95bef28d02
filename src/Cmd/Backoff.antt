-- ===== src/Cmd/Backoff.antt =====
-- The backoff of the loop of RunWatch in pkg/cmd/watch.go, over every sequence of turns.
use odh_cli.Base.{
  ℕ, zero, suc, ◌+◌, ◌*◌, ◌≤◌, ◌<◌, ◌≡◌, refl, inl, inr, Bool, Option, none, some, List, [], ◌∷◌,
  All, All-append, arith, Bool-cases, ltb, ◌==◌,
}
use odh_cli.Errors.{Error}
use odh_cli.Errors.Tables.{ApiErrors}
use odh_cli.Output.{ℤ}
use odh_cli.Client.{is_unrecoverable_error}
use odh_cli.Cmd.{second}
use odh_cli.Cmd.Wait.{is_bad_interval}
use odh_cli.Cmd.Watch.{
  WatchState, reset, next_backoff, Handled, stops, waits, count_error, handle_error, after_error,
  unless_returned, Poll, poll_fails, polls, Turn, done, ticks, WatchLoop, watch_turn, watch_loop,
  run_watch,
}

-- A second, doubled n times.
abbrev pub doubled : ℕ → ℕ
doubled zero = second
doubled (suc n) = doubled n * 2

next_backoff-doubled : (n : ℕ) → n + 1 < 5 → next_backoff (doubled n) ≡ doubled (n + 1)
next_backoff-doubled zero h = refl
next_backoff-doubled (suc zero) h = refl
next_backoff-doubled (suc (suc zero)) h = refl
next_backoff-doubled (suc (suc (suc zero))) h = refl
next_backoff-doubled (suc (suc (suc (suc n)))) h = absurd (omega arith)

-- Fewer than five errors in a row, and a backoff that has doubled with each.
abbrev pub HasBackoff : WatchState → Type 0
HasBackoff s = (s.consecutive_errors < 5) × (s.backoff ≡ doubled s.consecutive_errors)

-- From one second to eight.
abbrev pub IsShort : ℕ → Type 0
IsShort d = (second ≤ d) × (d ≤ 8 * second)

doubled-IsShort : (n : ℕ) → n + 1 < 5 → IsShort (doubled n)
doubled-IsShort zero h = (omega arith, omega arith)
doubled-IsShort (suc zero) h = (omega arith, omega arith)
doubled-IsShort (suc (suc zero)) h = (omega arith, omega arith)
doubled-IsShort (suc (suc (suc zero))) h = (omega arith, omega arith)
doubled-IsShort (suc (suc (suc (suc n)))) h = absurd (omega arith)

reset-HasBackoff : HasBackoff reset
unfolding reset
reset-HasBackoff = (omega arith, refl)

-- At most five errors in a row, and a backoff from one second to sixteen.
abbrev pub IsCounted : WatchState → Type 0
IsCounted s = (s.consecutive_errors ≤ 5) × ((second ≤ s.backoff) × (s.backoff ≤ 16 * second))

doubled_bounds : (n : ℕ) → n < 5 → (second ≤ doubled n) × (doubled n ≤ 16 * second)
doubled_bounds zero h = (omega arith, omega arith)
doubled_bounds (suc zero) h = (omega arith, omega arith)
doubled_bounds (suc (suc zero)) h = (omega arith, omega arith)
doubled_bounds (suc (suc (suc zero))) h = (omega arith, omega arith)
doubled_bounds (suc (suc (suc (suc zero)))) h = (omega arith, omega arith)
doubled_bounds (suc (suc (suc (suc (suc n))))) h = absurd (omega arith)

HasBackoff-IsCounted : (s : WatchState) → HasBackoff s → IsCounted s
HasBackoff-IsCounted s (b, e) = (omega arith, rw e (doubled_bounds s.consecutive_errors b))

count_error-IsCounted : (s : WatchState) → HasBackoff s → IsCounted (count_error s)
count_error-IsCounted s (b, e) = (omega arith, rw e (doubled_bounds s.consecutive_errors b))

reset-IsCounted : IsCounted reset
reset-IsCounted = HasBackoff-IsCounted reset reset-HasBackoff

-- handleError stops in a bounded state, or waits a short time and counts the error.
abbrev pub WaitsShortly : Handled → Type 0
WaitsShortly (stops s result) = IsCounted s
WaitsShortly (waits d s) = HasBackoff s × IsShort d

handle_error-WaitsShortly :
    (api : ApiErrors) (s : WatchState) (err : Error) (cancelled : Bool)
    → HasBackoff s
    → WaitsShortly (handle_error api s err cancelled)
unfolding handle_error
handle_error-WaitsShortly api s err cancelled (b, e) =
    elim (Bool-cases (is_unrecoverable_error api err)) [
      | inl u ↦ rw u (HasBackoff-IsCounted s (b, e))
      | inr u ↦ elim (Bool-cases (ltb (s.consecutive_errors + 1) 5)) [
        | inr m ↦ rw (u, m) (count_error-IsCounted s (b, e))
        | inl m ↦ elim (Bool-cases cancelled) [
          | inl c ↦ rw (u, m, c) (count_error-IsCounted s (b, e))
          | inr c ↦
              let h : s.consecutive_errors + 1 < 5 = ground arith in
              rw (u, m, c, e)
                ((h, next_backoff-doubled s.consecutive_errors h), doubled-IsShort _ h)
        ]
      ]
    ]

module _ {D : Type 0} (api : ApiErrors) where
  -- The bounds at any time, and what holds beyond them while the loop goes on.
  abbrev pub IsBounded : WatchLoop D → Type 0
  IsBounded l =
      (l.returned ≡ none → HasBackoff l.state) × (IsCounted l.state × All IsShort l.waited)

  after_error-IsBounded :
      (l : WatchLoop D) (h : Handled)
      → All IsShort l.waited
      → WaitsShortly h
      → IsBounded (after_error l h)
  after_error-IsBounded l (stops s result) ws w = ((λ e. absurd (cc e)), (w, ws))
  after_error-IsBounded l (waits d s) ws (c, w) =
      ((λ e. c), (HasBackoff-IsCounted s c, All-append IsShort l.waited _ ws (w, tt)))

  unless_returned-IsBounded :
      (r : Option (Option Error)) (l rest : WatchLoop D)
      → IsBounded l
      → (r ≡ none → IsBounded rest)
      → IsBounded (unless_returned r l rest)
  unless_returned-IsBounded (some result) l rest h k = h
  unless_returned-IsBounded none l rest h k = k refl

  watch_turn-IsBounded :
      (l : WatchLoop D) (t : Turn D)
      → HasBackoff l.state
      → All IsShort l.waited
      → IsBounded (watch_turn api l t)
  unfolding watch_turn
  watch_turn-IsBounded l done b w = ((λ e. b), (HasBackoff-IsCounted l.state b, w))
  watch_turn-IsBounded l (ticks (poll_fails err) cancelled) b w =
      after_error-IsBounded l _ w (handle_error-WaitsShortly api l.state err cancelled b)
  watch_turn-IsBounded l (ticks (polls data_ snapshot emit_error) cancelled) b w =
      elim (Bool-cases (l.prev_snapshot == snapshot)) [
        | inl same ↦ rw same ((λ e. reset-HasBackoff), (reset-IsCounted, w))
        | inr new ↦ rw new ((λ e. reset-HasBackoff), (reset-IsCounted, w))
      ]

  watch_loop-IsBounded :
      (l : WatchLoop D) (ts : List (Turn D)) → IsBounded l → IsBounded (watch_loop api l ts)
  unfolding watch_loop
  watch_loop-IsBounded l [] h = h
  watch_loop-IsBounded l (t ∷ ts) h =
      unless_returned-IsBounded l.returned l _ h
        (λ e. watch_loop-IsBounded (watch_turn api l t) ts (watch_turn-IsBounded l t (h.0 e) h.1.1))

  -- Whatever the polls of RunWatch return: while it goes on, fewer than five errors in a row are
  -- counted and the backoff is a second doubled once for each of them; when it has returned, no more
  -- than five are counted and the backoff is from one second to sixteen; and no wait is shorter than a
  -- second or longer than eight seconds.
  pub run_watch-IsBounded :
      (interval : ℤ) (first : Poll D) (ts : List (Turn D))
      → IsBounded (run_watch api interval first ts)
  unfolding run_watch
  run_watch-IsBounded interval (poll_fails err) ts = elim (Bool-cases (is_bad_interval interval)) [
    | inl bad ↦ rw bad ((λ e. reset-HasBackoff), (reset-IsCounted, tt))
    | inr good ↦ rw good ((λ e. reset-HasBackoff), (reset-IsCounted, tt))
  ]
  run_watch-IsBounded interval (polls data_ snapshot (some err)) ts =
      elim (Bool-cases (is_bad_interval interval)) [
        | inl bad ↦ rw bad ((λ e. reset-HasBackoff), (reset-IsCounted, tt))
        | inr good ↦ rw good ((λ e. reset-HasBackoff), (reset-IsCounted, tt))
      ]
  run_watch-IsBounded interval (polls data_ snapshot none) ts =
      elim (Bool-cases (is_bad_interval interval)) [
        | inl bad ↦ rw bad ((λ e. reset-HasBackoff), (reset-IsCounted, tt))
        | inr good ↦
            rw good (watch_loop-IsBounded _ ts ((λ e. reset-HasBackoff), (reset-IsCounted, tt)))
      ]
