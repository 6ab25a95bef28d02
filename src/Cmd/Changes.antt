-- ===== src/Cmd/Changes.antt =====
-- What the loop of RunWatch in pkg/cmd/watch.go emits.
use odh_cli.Base.{
  ◌≡◌, refl, sym, ◌∙◌, ap, inl, inr, Bool, false, Option, none, some, List, [], ◌∷◌, ◌++◌,
  Bool-cases, Option-cases, String, ◌==◌, if◌then◌else◌, eq_iff,
}
use odh_cli.Errors.{Error}
use odh_cli.Errors.Tables.{ApiErrors}
use odh_cli.Output.{ℤ}
use odh_cli.Cmd.Wait.{is_bad_interval}
use odh_cli.Cmd.Watch.{
  reset, Handled, stops, waits, handle_error, after_error, poll_fails, polls, Turn, done, ticks,
  WatchLoop, watch_turn, watch_loop, run_watch,
}
use odh_cli.Cmd.Streak.{watch_loop_stays, watch_loop_goes, watch_loop_ends}
use mathlib.Core.Path.{ap₂}
use mathlib.Core.List.{append_assoc, append-nil}

module _ {D : Type 0} where
  -- The data and the snapshots of the polls that succeed.
  abbrev pub answers : List (Turn D) → List (D × String)
  answers [] = []
  answers (done ∷ ts) = answers ts
  answers (ticks (poll_fails err) cancelled ∷ ts) = answers ts
  answers (ticks (polls d s emit_error) cancelled ∷ ts) = (d, s) ∷ answers ts

  -- The data of the answers whose snapshot is not the one of the answer before.
  abbrev pub changes : String → List (D × String) → List D
  changes p [] = []
  changes p ((d, s) ∷ rest) = if p == s then changes s rest else d ∷ changes s rest

module _ {D : Type 0} (api : ApiErrors) where
  after_error-same :
      (l : WatchLoop D) (h : Handled)
      → (after_error l h).returned ≡ none
      → ((after_error l h).emitted ≡ l.emitted)
        × ((after_error l h).prev_snapshot ≡ l.prev_snapshot)
  after_error-same l (stops s result) e = cc
  after_error-same l (waits d s) e = (refl, refl)

  turn_of_failure :
      (l : WatchLoop D) (err : Error) (c : Bool)
      → let l' = watch_turn api l (ticks (poll_fails err) c) in
        l'.returned ≡ none → (l'.emitted ≡ l.emitted) × (l'.prev_snapshot ≡ l.prev_snapshot)
  unfolding watch_turn
  turn_of_failure l err c = after_error-same l (handle_error api l.state err c)

  turn_of_done : (l : WatchLoop D) → (watch_turn api l done).returned ≡ some none
  unfolding watch_turn
  turn_of_done l = refl

  goes_on :
      (l : WatchLoop D) (t : Turn D) (ts : List (Turn D))
      → (watch_loop api (watch_turn api l t) ts).returned ≡ none
      → (watch_turn api l t).returned ≡ none
  goes_on l t ts e = elim (Option-cases (watch_turn api l t).returned) [
    | inl n ↦ n
    | inr (r, h) ↦ absurd (cc (watch_loop_stays api (watch_turn api l t) ts r h, e))
  ]

  turn_of_answer :
      (l : WatchLoop D) (d : D) (s : String) (err : Option Error) (c : Bool)
      → let l' = watch_turn api l (ticks (polls d s err) c) in
        (l'.prev_snapshot ≡ s)
        × (l'.emitted ≡ l.emitted ++ (if l.prev_snapshot == s then [] else d ∷ []))
  unfolding watch_turn
  turn_of_answer l d s err c = elim (Bool-cases (l.prev_snapshot == s)) [
    | inl e ↦ rw e ((eq_iff l.prev_snapshot s).0 e, sym (append-nil l.emitted))
    | inr e ↦ rw e (refl, refl)
  ]

  changes-cons :
      (ds : List D) (p s : String) (d : D) (rest : List (D × String))
      → (ds ++ (if p == s then [] else d ∷ [])) ++ changes s rest ≡ ds ++ changes p ((d, s) ∷ rest)
  changes-cons ds p s d rest = elim (Bool-cases (p == s)) [
    | inl e ↦ rw e (ap (λ m. m ++ changes s rest) (append-nil ds))
    | inr e ↦ rw e (append_assoc ds (d ∷ []) (changes s rest))
  ]

  watch_loop-emitted :
      (ts : List (Turn D)) (l : WatchLoop D)
      → l.returned ≡ none
      → (watch_loop api l ts).returned ≡ none
      → (watch_loop api l ts).emitted ≡ l.emitted ++ changes l.prev_snapshot (answers ts)
  watch_loop-emitted [] l r e =
      ap (λ m. m.emitted) (watch_loop_ends api l) ∙ sym (append-nil l.emitted)
  watch_loop-emitted (done ∷ ts) l r e =
      let n =
        goes_on l done ts (ap (λ m. m.returned) (sym (watch_loop_goes api l done ts r)) ∙ e) in
      absurd (cc (n, turn_of_done l))
  watch_loop-emitted (ticks (poll_fails err) c ∷ ts) l r e =
      let t = ticks (poll_fails err) c in
      let e' = ap (λ m. m.returned) (sym (watch_loop_goes api l t ts r)) ∙ e in
      let n = goes_on l t ts e' in
      let (em, pv) = turn_of_failure l err c n in
      ap (λ m. m.emitted) (watch_loop_goes api l t ts r)
      ∙ watch_loop-emitted ts (watch_turn api l t) n e'
      ∙ ap₂ (λ x p. x ++ changes p (answers ts)) em pv
  watch_loop-emitted (ticks (polls d s err) c ∷ ts) l r e =
      let t = ticks (polls d s err) c in
      let e' = ap (λ m. m.returned) (sym (watch_loop_goes api l t ts r)) ∙ e in
      let n = goes_on l t ts e' in
      let (pv, em) = turn_of_answer l d s err c in
      ap (λ m. m.emitted) (watch_loop_goes api l t ts r)
      ∙ watch_loop-emitted ts (watch_turn api l t) n e'
      ∙ ap₂ (λ x p. x ++ changes p (answers ts)) em pv
      ∙ changes-cons l.emitted l.prev_snapshot s d (answers ts)

  abbrev started : D → String → WatchLoop D
  started d s = record {
    prev_snapshot = s;
    state = reset;
    emitted = d ∷ [];
    waited = [];
    returned = none;
  }

  run_watch_starts :
      (interval : ℤ) (d : D) (s : String) (ts : List (Turn D))
      → is_bad_interval interval ≡ false
      → run_watch api interval (polls d s none) ts ≡ watch_loop api (started d s) ts
  unfolding run_watch
  run_watch_starts interval d s ts good = rw good refl

  -- As long as RunWatch goes on, it has emitted the data of the first poll and of those later polls
  -- whose snapshot is not the one of the last successful poll before them, in their order: failed
  -- polls in between change nothing.
  pub run_watch-emitted :
      (interval : ℤ) (d : D) (s : String) (ts : List (Turn D))
      → is_bad_interval interval ≡ false
      → (run_watch api interval (polls d s none) ts).returned ≡ none
      → (run_watch api interval (polls d s none) ts).emitted ≡ d ∷ changes s (answers ts)
  run_watch-emitted interval d s ts good e =
      let q = run_watch_starts interval d s ts good in
      ap (λ l. l.emitted) q
      ∙ watch_loop-emitted ts (started d s) refl (ap (λ l. l.returned) (sym q) ∙ e)
