-- ===== src/Events/Newest.antt =====
-- The order of the events that listEvents of pkg/events/command.go renders.
use mathlib.Core.List.{Permᴰ}
use odh_cli.Base.{
  ℕ, ◌+◌, ◌≤◌, ◌<◌, ◌≡◌, refl, ◌∙◌, ap, ◌⊎◌, inl, inr, String, Bool, false, ◌==◌, List, [], ◌∷◌,
  keep, nat_eq, if◌then◌else◌, All, In-All, All-of_In, arith,
}
use odh_cli.Base.Stable.{IsDescending, sort_stable-IsDescending, keep-sort_stable, All-sort_stable}
use odh_cli.Errors.Tables.{ApiErrors}
use odh_cli.Errors.Returns.{Returns, ok}
use odh_cli.Client.{NotFoundErrors}
use odh_cli.Events.{EventInfo, EventsCommand, get_target_namespaces}
use odh_cli.Events.Labels.{get_component_label_value, LabelReader}
use odh_cli.Events.Keys.{IsPlain}
use odh_cli.Events.Listing.{
  lookup_of, LabelResult, unix_nano, sort_events_by_time, if_ok, fetched, then_sorted, filter_if,
  filter_events_by_component, fetch_events, list_events,
}
use odh_cli.Events.Collected.{IsOk, ok_true}
use odh_cli.Events.Filtered.{answer_for, filter_events_by_component_lem}

-- The zero time, or a time from 1970 on whose nanoseconds since then are below 2^63: up to the year
-- 2262.
abbrev pub IsPlausible : ℕ → Type 0
IsPlausible t = (t ≡ 0) ⊎ ((62_135_596_800_000_000_000 ≤ t) × (t < 71_358_968_836_854_775_808))

unix_nano_late :
    (t : ℕ)
    → 62_135_596_800_000_000_000 ≤ t
    → t < 71_358_968_836_854_775_808
    → unix_nano t + 52_912_224_763_145_224_192 ≡ t
unfolding unix_nano
unix_nano_late t h k = omega arith

unix_nano_zero : unix_nano 0 ≡ 2_428_007_457_983_430_656
unfolding unix_nano
unix_nano_zero = refl

-- The order of the nanoseconds is the order of the times.
le-unix_nano : (s t : ℕ) → IsPlausible s → IsPlausible t → unix_nano s ≤ unix_nano t → s ≤ t
le-unix_nano s t (inl e) ht h = rw e omega arith
le-unix_nano s t (inr (a, b)) (inl e) h =
    absurd (omega (arith, unix_nano_late s a b, unix_nano_zero, ap unix_nano e))
le-unix_nano s t (inr (a, b)) (inr (a', b')) h =
    omega (arith, unix_nano_late s a b, unix_nano_late t a' b')

descending :
    (xs : List EventInfo)
    → All (λ e. IsPlausible e.last_time) xs
    → IsDescending (λ e. unix_nano e.last_time) xs
    → IsDescending (λ e. e.last_time) xs
descending [] h d = tt
descending (x ∷ xs) (p, h) (a, d) = (
  All-of_In _ xs
      (λ y i. le-unix_nano y.last_time x.last_time (In-All _ y xs i h) p (In-All _ y xs i a)),
  descending xs h d,
)

All-keep : {A : Type 0} (P : A → Type 0) (p : A → Bool) (xs : List A) → All P xs → All P (keep p xs)
All-keep P p [] h = tt
All-keep P p (x ∷ xs) (q, h) = ground (arith, All-keep P p xs h)

-- Whether an event is at a time.
abbrev pub at_time : ℕ → EventInfo → Bool
at_time t e = nat_eq e.last_time t

sorted_lem :
    (xs : List EventInfo)
    → All (λ e. IsPlausible e.last_time) xs
    → IsDescending (λ e. e.last_time) (sort_events_by_time xs)
      × ((t : ℕ) → keep (at_time t) (sort_events_by_time xs) ≡ keep (at_time t) xs)
unfolding sort_events_by_time
sorted_lem xs h = (
  descending _ (All-sort_stable _ _ xs h) (sort_stable-IsDescending _ xs),
  λ t. keep-sort_stable _ (at_time t) (unix_nano t) (λ e q. ap unix_nano (ground arith)) xs,
)

module _ (api : ApiErrors) (not_found : NotFoundErrors) (get : LabelReader)
    (arrive : List LabelResult → List LabelResult)
    (arrives : (rs : List LabelResult) → Permᴰ rs (arrive rs))
    (fetch : List String → Returns (List EventInfo)) where
  -- Suppose that the namespaces are found and their events are fetched, that each time is the zero
  -- time or between the years 1970 and 2262, that a component is given, that its label, the
  -- namespaces and the kinds of the events have no slash, and that no lookup of an object fails.
  -- Then listEvents succeeds, with events in descending order of time, and those at any one time are
  -- the fetched events at this time whose object has the label of the component, in their order:
  -- whatever the order in which the workers answer.
  pub list_events_lem :
      (c : EventsCommand) (namespaces : List String) (events : List EventInfo)
      → (c.component == "") ≡ false
      → get_target_namespaces c ≡ ok namespaces
      → fetch namespaces ≡ ok events
      → All (λ e. IsPlausible e.last_time) events
      → All (λ e. IsPlain (get_component_label_value c.component) (lookup_of e)) events
      → All (λ e. IsOk (answer_for not_found get c.component e)) events
      → (shown : List EventInfo) × ((list_events api not_found get arrive fetch c ≡ ok shown)
          × (IsDescending (λ e. e.last_time) shown
              × ((t : ℕ)
                  → keep (at_time t) shown
                    ≡ keep
                        (at_time t)
                        (keep (λ e. ok_true (answer_for not_found get c.component e)) events))))
  unfolding list_events fetch_events
  list_events_lem c namespaces events n ns f times plain answers =
      let kept = keep (λ e. ok_true (answer_for not_found get c.component e)) events in
      let q =
        (filter_events_by_component_lem not_found get arrive arrives c.component events plain).0
          answers in
      let (d, s) = sorted_lem kept (All-keep _ _ events times) in
      let r : fetch_events api fetch c ≡ ok events =
        ap (λ o. if_ok o λ nss. fetched api (fetch nss)) ns ∙ ap (fetched api) f in
      (
        sort_events_by_time kept,
        (
          ap (λ o. if_ok o λ es. then_sorted (filter_if not_found get arrive c.component es)) r
              ∙ ap
                  (λ b. then_sorted (
                    if b
                    then ok events
                    else filter_events_by_component not_found get arrive c.component events))
                  n
              ∙ ap then_sorted q,
          (d, s),
        ),
      )
