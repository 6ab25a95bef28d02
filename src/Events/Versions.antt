-- ===== src/Events/Versions.antt =====
-- The resource versions that watchNamespaceEvents of pkg/events/filter.go asks for.
use mathlib.Core.Path.{ap₂}
use mathlib.Core.List.{append_assoc, append-nil}
use odh_cli.Base.{
  ◌≡◌, refl, sym, ◌∙◌, ap, subst, ◌⊎◌, inl, inr, String, Bool, true, false, ◌==◌, Option, none,
  some, List, [], ◌∷◌, ◌++◌, All, All-left, All-right, ltb, ◌+◌, ℕ, Bool-cases, Option-cases, arith,
  if◌then◌else◌,
}
use odh_cli.Client.{NotFoundErrors}
use odh_cli.Errors.{Error}
use odh_cli.Events.Attempts.{arrivals_of}
use odh_cli.Events.Watch.{
  Event, LabelCache, Arrival, Processed, version_after, send, extract_valid_event,
  process_watch_events, Attempt, stop, refused, connected, WatchEnd, stopped, gave_up,
  NamespaceWatch, unless_ended, watch_refused, watch_connected, watch_attempt, watch_attempts,
  watch_namespace_events,
}

-- The resource version of the last of the events that has one, or the one before.
abbrev pub latest : String → List Arrival → String
latest v [] = v
latest v (a ∷ rest) = latest (version_after v a.event.object) rest

-- Each Watch call asks for the latest resource version that was received before it.
abbrev pub requests : String → List Attempt → List String
requests v [] = []
requests v (stop ∷ rest) = requests v rest
requests v (refused err ∷ rest) = v ∷ requests v rest
requests v (connected arrivals is_done ∷ rest) = v ∷ requests (latest v arrivals) rest

abbrev AllDelivered : List Arrival → Type 0
AllDelivered arrivals = All (λ a. a.is_delivered ≡ true) arrivals

latest-append :
    (v : String) (as' bs : List Arrival) → latest v (as' ++ bs) ≡ latest (latest v as') bs
latest-append v [] bs = refl
latest-append v (a ∷ as') bs = latest-append (version_after v a.event.object) as' bs

-- A version, or the one before if it is empty.
abbrev or_before : String → String → String
or_before v u = if u == "" then v else u

version_after-or_before :
    (v u : String) (o : Option Event)
    → or_before v (version_after u o) ≡ version_after (or_before v u) o
version_after-or_before v u none = refl
version_after-or_before v u (some e) = ground arith

latest-or_before :
    (v u : String) (as' : List Arrival) → or_before v (latest u as') ≡ latest (or_before v u) as'
latest-or_before v u [] = refl
latest-or_before v u (a ∷ rest) =
    latest-or_before v (version_after u a.event.object) rest
    ∙ ap (λ x. latest x rest) (version_after-or_before v u a.event.object)

send_version :
    (cache : LabelCache) (v : String) (o : Option Event) (d : Bool) (p : Processed)
    → d ≡ true
    → (send cache v o d p).last_version ≡ p.last_version
send_version cache v none d p q = refl
send_version cache v (some e) true p q = refl
send_version cache v (some e) false p q = absurd (cc q)

module _ (not_found : NotFoundErrors) (component : String) (cutoff : ℕ) where
  process-latest :
      (arrivals : List Arrival) (cache : LabelCache) (v : String)
      → AllDelivered arrivals
      → (process_watch_events not_found component cutoff arrivals cache v).last_version
        ≡ latest v arrivals
  unfolding process_watch_events
  process-latest [] cache v h = refl
  process-latest (a ∷ rest) cache v (d, h) =
      let x = extract_valid_event not_found component cutoff a.get cache a.event in
      send_version x.0 (version_after v a.event.object) x.1 a.is_delivered _ d
      ∙ process-latest rest x.0 (version_after v a.event.object) h

  stays_lem :
      (w : NamespaceWatch) (as' : List Attempt) (r : WatchEnd)
      → w.ended ≡ some r
      → (watch_attempts not_found component cutoff w as').ended ≡ some r
  unfolding watch_attempts
  stays_lem w [] r e = e
  stays_lem w (a ∷ as') r e =
      ap
        (λ o.
          (unless_ended o w (
            watch_attempts not_found component cutoff (watch_attempt not_found component cutoff w a)
              as')).ended)
        e
      ∙ e

  -- What the loop has asked for, and what it asks for next.
  abbrev Resumes : NamespaceWatch → NamespaceWatch → List Attempt → Type 0
  Resumes w w' attempts =
      w'.ended ≡ none
      → AllDelivered (arrivals_of attempts)
      → (w'.resource_version ≡ latest w.resource_version (arrivals_of attempts))
        × (w'.requested ≡ w.requested ++ requests w.resource_version attempts)

  turn_lem :
      (w : NamespaceWatch) (a : Attempt) (as' : List Attempt)
      → Resumes w
          (watch_attempts not_found component cutoff
            (watch_attempt not_found component cutoff w a)
            as')
          (a ∷ as')
      → Resumes w (watch_attempts not_found component cutoff w (a ∷ as')) (a ∷ as')
  unfolding watch_attempts
  turn_lem w a as' h =
      let rest =
        watch_attempts not_found component cutoff (watch_attempt not_found component cutoff w a)
          as' in
      let goal : Option WatchEnd → Type 0 = λ o. Resumes w (unless_ended o w rest) (a ∷ as') in
      elim (Option-cases w.ended) [
        | inr (r, q) ↦ subst goal (sym q) (λ n. absurd (cc (n, q)))
        | inl q ↦ subst goal (sym q) h
      ]

  refused-cases :
      (w : NamespaceWatch) (err : Error)
      → ((r : WatchEnd) × ((watch_refused w err).ended ≡ some r))
        ⊎ (((watch_refused w err).resource_version ≡ w.resource_version)
            × ((watch_refused w err).requested ≡ w.requested ++ w.resource_version ∷ []))
  unfolding watch_refused
  refused-cases w err = elim (Bool-cases (ltb (w.consecutive_errors + 1) 5)) [
    | inl e ↦ inr (rw e (refl, refl))
    | inr e ↦ inl (gave_up err, rw e refl)
  ]

  ended_lem :
      (w w' : NamespaceWatch) (as' attempts : List Attempt) (r : WatchEnd)
      → w'.ended ≡ some r
      → Resumes w (watch_attempts not_found component cutoff w' as') attempts
  ended_lem w w' as' attempts r e n = absurd (cc (n, stays_lem w' as' r e))

  connected_lem :
      (w : NamespaceWatch) (arrivals : List Arrival) (is_done : Bool) (as' : List Attempt)
      → let p = process_watch_events not_found component cutoff arrivals w.cache "" in
        let w' = watch_connected w p is_done in
        let w'' = watch_attempts not_found component cutoff w' as' in
        Resumes w' w'' as' → Resumes w w'' (connected arrivals is_done ∷ as')
  unfolding watch_connected
  connected_lem w arrivals is_done as' h n d =
      let p = process_watch_events not_found component cutoff arrivals w.cache "" in
      let v : or_before w.resource_version p.last_version ≡ latest w.resource_version arrivals =
        ap (or_before w.resource_version)
          (process-latest arrivals w.cache "" (All-left _ arrivals (arrivals_of as') d))
        ∙ latest-or_before w.resource_version "" arrivals in
      let (e, f) = h n (All-right _ arrivals (arrivals_of as') d) in
      (
        e
            ∙ ap (λ x. latest x (arrivals_of as')) v
            ∙ sym (latest-append w.resource_version arrivals (arrivals_of as')),
        f
            ∙ append_assoc w.requested (w.resource_version ∷ []) _
            ∙ ap (λ x. w.requested ++ w.resource_version ∷ requests x as') v,
      )

  watch_attempts_lem :
      (as' : List Attempt) (w : NamespaceWatch)
      → Resumes w (watch_attempts not_found component cutoff w as') as'
  unfolding watch_attempts watch_attempt
  watch_attempts_lem [] w = λ n d. (refl, sym (append-nil w.requested))
  watch_attempts_lem (stop ∷ as') w =
      turn_lem w stop as'
        (ended_lem w (record w { ended = some stopped }) as' (stop ∷ as') stopped refl)
  watch_attempts_lem (refused err ∷ as') w =
      let w' = watch_refused w err in
      let ih = watch_attempts_lem as' w' in
      turn_lem w (refused err) as' (elim (refused-cases w err) [
        | inl (r, e) ↦ ended_lem w w' as' (refused err ∷ as') r e
        | inr (v, q) ↦ λ n d.
            let (e, f) = ih n d in
            (
              e ∙ ap (λ x. latest x (arrivals_of as')) v,
              f
                  ∙ ap₂ (λ x y. x ++ requests y as') q v
                  ∙ append_assoc w.requested (w.resource_version ∷ []) _,
            )
      ])
  watch_attempts_lem (connected arrivals is_done ∷ as') w =
      let p = process_watch_events not_found component cutoff arrivals w.cache "" in
      turn_lem w (connected arrivals is_done) as' (
        connected_lem w arrivals is_done as' (watch_attempts_lem as' (watch_connected w p is_done)))

  -- While the loop of watchNamespaceEvents goes on and can send on what it keeps, each of its Watch
  -- calls has asked for the resource version of the last event before it that has one, also where
  -- the filters drop that event or calls fail in between, and so will the next one.
  pub watch_namespace_events-requests :
      (attempts : List Attempt)
      → let w = watch_namespace_events not_found component cutoff attempts in
        w.ended ≡ none
        → All (λ a. a.is_delivered ≡ true) (arrivals_of attempts)
        → (w.requested ≡ requests "" attempts)
          × (w.resource_version ≡ latest "" (arrivals_of attempts))
  unfolding watch_namespace_events
  watch_namespace_events-requests attempts n d =
      let (e, f) = watch_attempts_lem attempts _ n d in (f, e)
