-- ===== src/Cmd/Bounds.antt =====
-- The validation of `--wait-for` and `--watch` in pkg/cmd/wait.go and watch.go, and RunWait on what it
-- accepts.
use odh_cli.Base.{
  ℕ, ◌≤◌, ◌≡◌, refl, ◌≢◌, ◌↔◌, ◌⊎◌, inl, inr, Bool, true, false, ◌||◌, Option, none, some, List,
  arith, Bool-cases, Option-cases, String, ◌==◌, In, has, has→In, In→has, eq_iff, if◌then◌else◌,
}
use odh_cli.Errors.{Error, structured, no_cause, deadline_exceeded}
use odh_cli.Errors.Tables.{is_sentinel}
use odh_cli.Output.{ℤ, pos, negsuc}
use odh_cli.Cmd.{int_ltb, second, max_poll_interval, max_wait_timeout}
use odh_cli.Cmd.Wait.{WaitOptions, is_bad_interval, validate_wait, run_wait, err_wait_timeout}
use odh_cli.Cmd.Watch.{validate_watch}

-- A number from lo to hi.
abbrev pub IsBetween : ℕ → ℕ → ℤ → Type 0
IsBetween lo hi (pos n) = (lo ≤ n) × (n ≤ hi)
IsBetween lo hi (negsuc n) = ⊥

abbrev out_of : ℕ → ℕ → ℤ → Bool
out_of lo hi d = int_ltb d (pos lo) || int_ltb (pos hi) d

out_of_iff : (lo hi : ℕ) (d : ℤ) → out_of lo hi d ≡ false ↔ IsBetween lo hi d
out_of_iff lo hi (pos n) = (λ e. (ground arith, ground arith), λ (h, k). ground arith)
out_of_iff lo hi (negsuc n) = (λ e. cc, λ b. absurd b)

-- ValidateWatch accepts every option where `--watch` is not set, and else exactly where `--wait-for` is
-- not set, the output format is one that can be streamed, the poll interval is from one second to
-- five minutes, and the timeout is from zero to thirty minutes.
pub validate_watch_iff :
    (watch wait_active : Bool) (format : String) (formats : List String) (limit interval : ℤ)
    → validate_watch watch wait_active format formats limit interval ≡ none
      ↔ (watch ≡ false)
        ⊎ ((wait_active ≡ false)
            × (In format formats
                × (IsBetween second max_poll_interval interval
                    × IsBetween 0 max_wait_timeout limit)))
unfolding validate_watch
validate_watch_iff false wait_active format formats limit interval = (λ e. inl refl, λ x. refl)
validate_watch_iff true true format formats limit interval =
    (λ e. cc, λ x. elim x [ inl e ↦ cc | inr (e, h) ↦ cc ])
validate_watch_iff true false format formats limit interval =
    elim (Bool-cases (has formats format)) [
      | inr f ↦
          rw f (
            λ e. cc,
            λ x. elim x [ inl e ↦ cc | inr (e, (i, h)) ↦ cc (In→has formats format i, f) ],
          )
      | inl f ↦ elim (Bool-cases (out_of second max_poll_interval interval)) [
        | inr g ↦ elim (Bool-cases (out_of 0 max_wait_timeout limit)) [
          | inr h ↦
              rw (f, g, h)
                (
                  λ e. inr (
                    refl,
                    (
                      has→In formats format f,
                      ((out_of_iff _ _ interval).0 g, (out_of_iff _ _ limit).0 h),
                    ),
                  ),
                  λ x. refl,
                )
          | inl h ↦
              rw (f, g, h)
                (
                  λ e. cc,
                  λ x. elim x [
                    | inl e ↦ cc
                    | inr (e, (i, (a, b))) ↦ cc ((out_of_iff _ _ limit).1 b, h)
                  ],
                )
        ]
        | inl g ↦
            rw (f, g)
              (
                λ e. cc,
                λ x. elim x [
                  | inl e ↦ cc
                  | inr (e, (i, (a, b))) ↦ cc ((out_of_iff _ _ interval).1 a, g)
                ],
              )
      ]
    ]

-- The context's timeout that RunWait sets.
abbrev pub deadline : ℤ → Option ℤ
deadline limit = if int_ltb (pos 0) limit then some limit else none

abbrev pub IsTimeout : Option Error → Type 0
IsTimeout none = ⊥
IsTimeout (some err) = is_sentinel deadline_exceeded err ≡ true

guards_pass :
    (a b c : Bool) (e f : Error)
    → (if a then none else if b then some e else if c then some f else none) ≡ none
    → (a ≡ true) ⊎ ((b ≡ false) × (c ≡ false))
guards_pass true b c e f h = inl refl
guards_pass false true c e f h = absurd (cc)
guards_pass false false true e f h = absurd (cc)
guards_pass false false false e f h = inr (refl, refl)

validate_wait-out_of :
    (w : WaitOptions) (limit : ℤ)
    → validate_wait w limit ≡ none
    → (w.wait_for == "" ≡ true)
      ⊎ ((is_bad_interval w.poll_interval ≡ false) × (out_of 0 max_wait_timeout limit ≡ false))
unfolding validate_wait
validate_wait-out_of w limit e = guards_pass _ _ _ _ _ e

out_of-negative : (hi : ℕ) (d : ℤ) → out_of 0 hi d ≡ false → int_ltb d (pos 0) ≡ false
out_of-negative hi (pos n) e = ground arith
out_of-negative hi (negsuc n) e = e

-- For options that ValidateWait accepts in wait mode, RunWait polls, with the timeout as deadline
-- unless it is zero. It returns nil exactly if the polling does, and the error for a wait that timed out
-- exactly if the polling ended by a deadline.
pub run_wait-validate_wait :
    (poll : Option ℤ → ℤ → Option Error) (w : WaitOptions) (limit : ℤ)
    → w.wait_for ≢ ""
    → validate_wait w limit ≡ none
    → let polled = poll (deadline limit) w.poll_interval in
      (run_wait poll w limit ≡ none ↔ polled ≡ none)
      × (run_wait poll w limit ≡ some (structured (err_wait_timeout w.wait_for) no_cause)
          ↔ IsTimeout polled)
unfolding run_wait
run_wait-validate_wait poll w limit n e = elim (validate_wait-out_of w limit e) [
  | inl f ↦ absurd (n ((eq_iff w.wait_for "").0 f))
  | inr (g, h) ↦
      let k = out_of-negative max_wait_timeout limit h in
      elim (Option-cases (poll (deadline limit) w.poll_interval)) [
        | inl p ↦ rw (g, k, p) ((λ q. refl, λ q. refl), (λ q. cc, λ b. absurd b))
        | inr (err, p) ↦ elim (Bool-cases (is_sentinel deadline_exceeded err)) [
          | inl d ↦ rw (g, k, p, d) ((λ q. cc, λ q. cc), (λ q. refl, λ q. refl))
          | inr d ↦ rw (g, k, p, d) ((λ q. cc, λ q. cc), (λ q. cc, λ q. cc))
        ]
      ]
]
