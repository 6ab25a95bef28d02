-- ===== src/Events/Attempts.antt =====
-- The loop of watchNamespaceEvents of pkg/events/filter.go over its connections.
use odh_cli.Base.{
  ◌≡◌, ◌≢◌, sym, subst, ◌⊎◌, inl, inr, String, Bool, true, false, ◌==◌, Option, none, some, List,
  [], ◌∷◌, ◌++◌, All, All-left, All-right, In, ℕ, Option-cases, arith, Some-append_left,
  Some-append_right, Some-append_cases,
}
use odh_cli.Client.{NotFoundErrors}
use odh_cli.Errors.{Error}
use odh_cli.Events.Labels.{LabelLookup}
use odh_cli.Events.Cached.{IsTruthful}
use odh_cli.Events.Sent.{IsDue, IsKnown, Sends, IsClear, process_watch_events_lem}
use odh_cli.Events.Watch.{
  Event, Arrival, Attempt, stop, refused, connected, WatchEnd, stopped, NamespaceWatch,
  process_watch_events, unless_ended, watch_refused, watch_connected, watch_attempt, watch_attempts,
  watch_namespace_events,
}

-- The arrivals of all connections.
abbrev pub arrivals_of : List Attempt → List Arrival
arrivals_of [] = []
arrivals_of (stop ∷ rest) = arrivals_of rest
arrivals_of (refused err ∷ rest) = arrivals_of rest
arrivals_of (connected arrivals is_done ∷ rest) = arrivals ++ arrivals_of rest

module _ (not_found : NotFoundErrors) (component : String) (truth : LabelLookup → Bool) (cutoff : ℕ)
    (given : (component == "") ≡ false) where
  abbrev Clear : List Arrival → Type 0
  Clear arrivals = All (IsClear not_found component truth cutoff given) arrivals

  -- What the loop adds to the events that it has sent on.
  abbrev Adds : NamespaceWatch → NamespaceWatch → List Arrival → Type 0
  Adds w w' arrivals =
      ((e : Event)
        → In e w'.sent
        → In e w.sent ⊎ IsDue not_found component truth cutoff given arrivals e)
      × (((e : Event) → In e w.sent → In e w'.sent)
          × (w'.ended ≡ none
              → All (λ a. a.is_delivered ≡ true) arrivals
              → (e : Event) → IsKnown not_found component truth cutoff given arrivals e
              → In e w'.sent))

  refused-same :
      (w : NamespaceWatch) (err : Error)
      → ((watch_refused w err).sent ≡ w.sent) × ((watch_refused w err).cache ≡ w.cache)
  unfolding watch_refused
  refused-same w err = ground arith

  stays_lem : (w : NamespaceWatch) (arrivals : List Arrival) → w.ended ≢ none → Adds w w arrivals
  stays_lem w arrivals n = ((λ e i. inl i), ((λ e i. i), λ q. absurd (n q)))

  -- A turn that sends nothing.
  quiet_lem :
      (w w' w'' : NamespaceWatch) (arrivals : List Arrival)
      → w'.sent ≡ w.sent
      → Adds w' w'' arrivals
      → Adds w w'' arrivals
  quiet_lem w w' w'' arrivals q (f, (g, h)) = (
    λ e i. elim (f e i) [ inl j ↦ inl (subst (In e) q j) | inr d ↦ inr d ],
    (λ e i. g e (subst (In e) (sym q) i), h),
  )

  -- A connection.
  connected_lem :
      (w : NamespaceWatch) (arrivals rest : List Arrival) (is_done : Bool) (w'' : NamespaceWatch)
      → let p = process_watch_events not_found component cutoff arrivals w.cache "" in
        Sends not_found component truth cutoff given arrivals p
        → Adds (watch_connected w p is_done) w'' rest
        → Adds w w'' (arrivals ++ rest)
  unfolding watch_connected
  connected_lem w arrivals rest is_done w'' (t, (i, j)) (f, (g, h)) =
      let p = process_watch_events not_found component cutoff arrivals w.cache "" in
      (
        λ e m. elim (f e m) [
          | inr d ↦ inr (Some-append_right _ arrivals rest d)
          | inl k ↦ elim (Some-append_cases _ w.sent p.sent k) [
            | inl l ↦ inl l
            | inr r ↦ inr (Some-append_left _ arrivals rest (i e r))
          ]
        ],
        (
          λ e m. g e (Some-append_left _ w.sent p.sent m),
          λ n l e k. elim (Some-append_cases _ arrivals rest k) [
            | inl k' ↦ g e (Some-append_right _ w.sent p.sent (j (All-left _ arrivals rest l) e k'))
            | inr k' ↦ h n (All-right _ arrivals rest l) e k'
          ],
        ),
      )

  -- A loop that has ended makes no further turn.
  turn_lem :
      (w : NamespaceWatch) (a : Attempt) (as' : List Attempt) (arrivals : List Arrival)
      → Adds w
          (watch_attempts not_found component cutoff
            (watch_attempt not_found component cutoff w a)
            as')
          arrivals
      → Adds w (watch_attempts not_found component cutoff w (a ∷ as')) arrivals
  unfolding watch_attempts
  turn_lem w a as' arrivals h =
      let rest =
        watch_attempts not_found component cutoff (watch_attempt not_found component cutoff w a)
          as' in
      let goal : Option WatchEnd → Type 0 = λ o. Adds w (unless_ended o w rest) arrivals in
      elim (Option-cases w.ended) [
        | inr (r, q) ↦ subst goal (sym q) (stays_lem w _ (λ n. cc (n, q)))
        | inl q ↦ subst goal (sym q) h
      ]

  watch_attempts_lem :
      (as' : List Attempt) (w : NamespaceWatch)
      → Clear (arrivals_of as')
      → IsTruthful not_found component truth w.cache
      → Adds w (watch_attempts not_found component cutoff w as') (arrivals_of as')
  unfolding watch_attempts watch_attempt
  watch_attempts_lem [] w c t = ((λ e i. inl i), ((λ e i. i), λ n l e k. absurd k))
  watch_attempts_lem (stop ∷ as') w c t =
      turn_lem w stop as' _ (watch_attempts_lem as' (record w { ended = some stopped }) c t)
  watch_attempts_lem (refused err ∷ as') w c t =
      let (s, k) = refused-same w err in
      let t' = subst (IsTruthful not_found component truth) (sym k) t in
      turn_lem w (refused err) as' _ (
        quiet_lem w (watch_refused w err)
          (watch_attempts not_found component cutoff (watch_refused w err) as') _ s
          (watch_attempts_lem as' (watch_refused w err) c t'))
  watch_attempts_lem (connected arrivals is_done ∷ as') w c t =
      let p = process_watch_events not_found component cutoff arrivals w.cache "" in
      let now = All-left _ arrivals (arrivals_of as') c in
      let later = All-right _ arrivals (arrivals_of as') c in
      let s =
        process_watch_events_lem not_found component truth cutoff given arrivals w.cache "" now t in
      turn_lem w (connected arrivals is_done) as' _ (
        connected_lem w arrivals (arrivals_of as') is_done
          (watch_attempts not_found component cutoff (watch_connected w p is_done) as') s
          (watch_attempts_lem as' (watch_connected w p is_done) later s.0))

  -- Suppose that a component is given, that its label and the namespaces and kinds of the objects have
  -- no slash, and that the answers of the cluster for an object, as far as it answers, do not change
  -- during the watch. Then watchNamespaceEvents sends on only new or changed events that are not
  -- before the cutoff and whose object has the label of the component. While the loop goes on and can
  -- send on what it keeps, each such event is sent on whose lookup would not fail when it arrives,
  -- whatever lookups failed before and however often the watch was connected anew.
  pub watch_namespace_events_lem :
      (attempts : List Attempt)
      → Clear (arrivals_of attempts)
      → let w = watch_namespace_events not_found component cutoff attempts in
        ((e : Event)
          → In e w.sent
          → IsDue not_found component truth cutoff given (arrivals_of attempts) e)
        × (w.ended ≡ none
            → All (λ a. a.is_delivered ≡ true) (arrivals_of attempts)
            → (e : Event) → IsKnown not_found component truth cutoff given (arrivals_of attempts) e
            → In e w.sent)
  unfolding watch_namespace_events
  watch_namespace_events_lem attempts c =
      let (f, (g, h)) = watch_attempts_lem attempts _ c (λ l b p q. absurd (cc q)) in
      ((λ e i. elim (f e i) [ inl j ↦ absurd j | inr d ↦ d ]), h)
