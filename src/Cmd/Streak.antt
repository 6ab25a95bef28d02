-- ===== src/Cmd/Streak.antt =====
-- When the loop of RunWatch in pkg/cmd/watch.go gives up, by the order of the errors it meets.
use odh_cli.Base.{
  ℕ, zero, suc, ◌+◌, ◌≤◌, ◌<◌, ◌≡◌, refl, ◌↔◌, ◌⊎◌, inl, inr, Bool, true, false, Option, none, some,
  List, [], ◌∷◌, All, arith, Bool-cases, ltb, String, ◌==◌, ◌∙◌, ap,
}
use odh_cli.Errors.{Error, structured, no_cause}
use odh_cli.Errors.Tables.{ApiErrors}
use odh_cli.Output.{ℤ}
use odh_cli.Client.{is_unrecoverable_error}
use odh_cli.Cmd.Wait.{is_bad_interval}
use odh_cli.Cmd.Watch.{
  reset, handle_error, unless_returned, poll_fails, polls, Turn, done, ticks, WatchLoop, watch_turn,
  watch_loop, run_watch, err_watch_max_errors,
}

-- ErrWatchMaxErrors
abbrev pub GaveUp : Option (Option Error) → Type 0
GaveUp r = (err : Error) × (r ≡ some (some (structured (err_watch_max_errors err) no_cause)))

-- The loop goes on, or it has given up with the error that was due.
abbrev Outcome : Option (Option Error) → Type 0 → Type 0
Outcome r Due = ((r ≡ none) × ¬ Due) ⊎ (GaveUp r × Due)

Outcome_map :
    (r : Option (Option Error)) (P Q : Type 0) → (P → Q) → (Q → P) → Outcome r P → Outcome r Q
Outcome_map r P Q f g (inl (e, n)) = inl (e, λ q. n (g q))
Outcome_map r P Q f g (inr (u, p)) = inr (u, f p)

decided :
    (r : Option (Option Error)) (P : Type 0)
    → Outcome r P
    → (GaveUp r ↔ P) × ((r ≡ none) ⊎ GaveUp r)
decided r P (inl (e, n)) = ((λ (err, g). cc, λ p. absurd (n p)), inl e)
decided r P (inr (g, p)) = ((λ x. p, λ x. g), inr g)

module _ {D : Type 0} (api : ApiErrors) where
  -- A turn that does not end the loop by itself: no cancellation, no error that is not retried, and
  -- no error of the emitter.
  abbrev pub IsRetried : Turn D → Type 0
  IsRetried done = ⊥
  IsRetried (ticks (poll_fails err) cancelled) =
      (is_unrecoverable_error api err ≡ false) × (cancelled ≡ false)
  IsRetried (ticks (polls data_ snapshot emit_error) cancelled) = emit_error ≡ none

  -- The first k turns are polls that fail.
  abbrev pub Fails : ℕ → List (Turn D) → Type 0
  Fails zero ts = Unit
  Fails (suc k) [] = ⊥
  Fails (suc k) (done ∷ ts) = ⊥
  Fails (suc k) (ticks (poll_fails err) cancelled ∷ ts) = Fails k ts
  Fails (suc k) (ticks (polls data_ snapshot emit_error) cancelled ∷ ts) = ⊥

  -- Somewhere k polls in a row fail.
  abbrev pub InARow : ℕ → List (Turn D) → Type 0
  InARow k [] = ⊥
  InARow k (t ∷ ts) = Fails k (t ∷ ts) ⊎ InARow k ts

  Fails-less : (j k : ℕ) (ts : List (Turn D)) → j ≤ k → Fails k ts → Fails j ts
  Fails-less zero k ts h f = tt
  Fails-less (suc j) zero ts h f = absurd (omega arith)
  Fails-less (suc j) (suc k) (ticks (poll_fails err) cancelled ∷ ts) h f =
      Fails-less j k ts (omega arith) f
  Fails-less (suc j) (suc k) [] h f = f
  Fails-less (suc j) (suc k) (done ∷ ts) h f = f
  Fails-less (suc j) (suc k) (ticks (polls a b c) d ∷ ts) h f = f

  Fails-InARow : (k : ℕ) (ts : List (Turn D)) → Fails (suc k) ts → InARow (suc k) ts
  Fails-InARow k [] f = f
  Fails-InARow k (t ∷ ts) f = inl f

  -- One error of a loop that has counted n before it.
  turn_of_error :
      (l : WatchLoop D) (err : Error)
      → is_unrecoverable_error api err ≡ false
      → l.returned ≡ none
      → let l' = watch_turn api l (ticks (poll_fails err) false) in
        ((4 ≤ l.state.consecutive_errors) × GaveUp l'.returned)
        ⊎ ((l.state.consecutive_errors < 4)
            × ((l'.returned ≡ none)
                × (l'.state.consecutive_errors ≡ l.state.consecutive_errors + 1)))
  unfolding watch_turn handle_error
  turn_of_error l err u r = elim (Bool-cases (ltb (l.state.consecutive_errors + 1) 5)) [
    | inl m ↦ inr (ground arith, rw (u, m) (r, refl))
    | inr m ↦ inl (ground arith, rw (u, m) (err, refl))
  ]

  turn_of_poll :
      (l : WatchLoop D) (d : D) (s : String) (c : Bool)
      → l.returned ≡ none
      → let l' = watch_turn api l (ticks (polls d s none) c) in
        (l'.returned ≡ none) × (l'.state.consecutive_errors ≡ 0)
  unfolding watch_turn reset
  turn_of_poll l d s c r = elim (Bool-cases (l.prev_snapshot == s)) [
    | inl e ↦ rw e (r, refl)
    | inr e ↦ rw e (refl, refl)
  ]

  -- A loop that has returned makes no further turn.
  pub watch_loop_stays :
      (l : WatchLoop D) (ts : List (Turn D)) (r : Option Error)
      → l.returned ≡ some r
      → (watch_loop api l ts).returned ≡ some r
  unfolding watch_loop
  watch_loop_stays l [] r e = e
  watch_loop_stays l (t ∷ ts) r e =
      ap (λ o. (unless_returned o l (watch_loop api (watch_turn api l t) ts)).returned) e ∙ e

  pub watch_loop_ends : (l : WatchLoop D) → watch_loop api l [] ≡ l
  unfolding watch_loop
  watch_loop_ends l = refl

  pub watch_loop_goes :
      (l : WatchLoop D) (t : Turn D) (ts : List (Turn D))
      → l.returned ≡ none
      → watch_loop api l (t ∷ ts) ≡ watch_loop api (watch_turn api l t) ts
  unfolding watch_loop
  watch_loop_goes l t ts e =
      ap (λ o. unless_returned o l (watch_loop api (watch_turn api l t) ts)) e

  watch_loop-Outcome :
      (ts : List (Turn D)) (l : WatchLoop D) (k : ℕ)
      → l.returned ≡ none
      → l.state.consecutive_errors + suc k ≡ 5
      → All IsRetried ts
      → Outcome (watch_loop api l ts).returned (Fails (suc k) ts ⊎ InARow 5 ts)
  watch_loop-Outcome [] l k r n h =
      inl (ap (λ m. m.returned) (watch_loop_ends l) ∙ r, λ x. elim x [ inl f ↦ f | inr i ↦ i ])
  watch_loop-Outcome (done ∷ ts) l k r n (h, hs) = absurd h
  watch_loop-Outcome (ticks (poll_fails err) true ∷ ts) l k r n ((u, c), hs) = absurd (cc)
  watch_loop-Outcome (ticks (poll_fails err) false ∷ ts) l zero r n ((u, c), hs) =
      rw (watch_loop_goes l _ ts r) elim (turn_of_error l err u r) [
        | inl (m, (e, g)) ↦ inr ((e, watch_loop_stays _ ts _ g), inl tt)
        | inr (m, g) ↦ absurd (omega arith)
      ]
  watch_loop-Outcome (ticks (poll_fails err) false ∷ ts) l (suc k) r n ((u, c), hs) =
      rw (watch_loop_goes l _ ts r) elim (turn_of_error l err u r) [
        | inl (m, g) ↦ absurd (omega arith)
        | inr (m, (g, n')) ↦
            Outcome_map _ _ _ (λ x. elim x [ inl f ↦ inl f | inr i ↦ inr (inr i) ])
              (λ x. elim x [
                | inl f ↦ inl f
                | inr (inl f) ↦ inl (Fails-less (suc k) 4 ts (omega arith) f)
                | inr (inr i) ↦ inr i
              ])
              (watch_loop-Outcome ts (watch_turn api l (ticks (poll_fails err) false)) k g
                (omega arith) hs)
      ]
  watch_loop-Outcome (ticks (polls d s (some err)) c ∷ ts) l k r n (h, hs) = absurd (cc)
  watch_loop-Outcome (ticks (polls d s none) c ∷ ts) l k r n (h, hs) =
      let (g, n') = turn_of_poll l d s c r in
      rw (watch_loop_goes l _ ts r) (
        Outcome_map _ _ _
          (λ x. elim x [ inl f ↦ inr (inr (Fails-InARow 4 ts f)) | inr i ↦ inr (inr i) ])
          (λ x. elim x [ inl f ↦ absurd f | inr (inl f) ↦ absurd f | inr (inr i) ↦ inr i ])
          (watch_loop-Outcome ts (watch_turn api l (ticks (polls d s none) c)) 4 g (omega arith)
            hs))

  -- Where the interval is allowed, the first poll succeeds, and no later turn is cancelled, has an
  -- error that is not retried or an error of the emitter, RunWatch goes on as long as no five polls
  -- in a row have failed, and then returns the error for too many errors.
  pub run_watch_gives_up :
      (interval : ℤ) (d : D) (s : String) (ts : List (Turn D))
      → is_bad_interval interval ≡ false
      → All IsRetried ts
      → let l = run_watch api interval (polls d s none) ts in
        (GaveUp l.returned ↔ InARow 5 ts) × ((l.returned ≡ none) ⊎ GaveUp l.returned)
  unfolding run_watch reset
  run_watch_gives_up interval d s ts good h = rw good (
      decided _ _ (
        Outcome_map _ _ _ (λ x. elim x [ inl f ↦ Fails-InARow 4 ts f | inr i ↦ i ]) (λ i. inr i)
          (watch_loop-Outcome ts _ 4 refl refl h)))
