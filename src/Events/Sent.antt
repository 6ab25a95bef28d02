-- ===== src/Events/Sent.antt =====
-- The events that the watch of a namespace sends on (pkg/events/filter.go), while lookups of objects may
-- fail from time to time.
use odh_cli.Base.{
  ◌≡◌, refl, sym, ◌∙◌, ap, subst, ◌⊎◌, inl, inr, String, Bool, true, false, not, ◌&&◌, ◌==◌, Option,
  none, some, List, [], ◌∷◌, All, Some, In, ℕ, nat_eq, Bool-cases, Option-cases, arith,
  if◌then◌else◌,
}
use odh_cli.Client.{NotFoundErrors}
use odh_cli.Events.Labels.{LabelLookup}
use odh_cli.Events.Keys.{IsPlain}
use odh_cli.Events.Cached.{IsTruthful, IsHonest, IsAnswered, Judges, check_lem, target}
use odh_cli.Events.Watch.{
  Event, WatchEvent, is_event_before_cutoff, LabelCache, event_if, Arrival, Processed,
  version_after, send, check_event_matches_component_cached, filter_event, filter_object,
  extract_valid_event, process_watch_events,
}

-- A watch event that is new or changed, with an event that the cutoff lets pass.
abbrev pub IsFresh : ℕ → WatchEvent → Event → Type 0
IsFresh cutoff ev e =
    ((ev.change == "ADDED") ≡ true ⊎ (ev.change == "MODIFIED") ≡ true)
    × ((ev.object ≡ some e) × ((not (nat_eq cutoff 0) && is_event_before_cutoff e cutoff) ≡ false))

some_eq : {A : Type 0} {a b : A} → Option.some a ≡ some b → a ≡ b
some_eq {A} {a} e = ap (λ o. elim o [ none ↦ a | some x ↦ x ]) e

module _ (not_found : NotFoundErrors) (component : String) (truth : LabelLookup → Bool) (cutoff : ℕ)
    (given : (component == "") ≡ false) where
  -- What a step on a watch event may do.
  abbrev Extracts : Arrival → LabelCache × Option Event → Type 0
  Extracts a (cache, o) =
      IsTruthful not_found component truth cache
      × (((e : Event) → o ≡ some e → IsFresh cutoff a.event e × (truth e.involved_object ≡ true))
          × ((e : Event)
              → IsFresh cutoff a.event e
              → truth e.involved_object ≡ true
              → IsAnswered not_found component truth a.get e
              → o ≡ some e))

  event_if_lem :
      (a : Arrival) (e : Event) (r : LabelCache × Bool)
      → IsFresh cutoff a.event e
      → Judges not_found component truth a.get e r
      → Extracts a (event_if e r)
  event_if_lem a e (cache, true) f (h, (i, j)) = (
    h,
    (
      λ d q.
          subst (λ x. IsFresh cutoff a.event x × (truth x.involved_object ≡ true)) (some_eq q)
            (f, i refl),
      λ d g t w. sym f.1.0 ∙ g.1.0,
    ),
  )
  event_if_lem a e (cache, false) f (h, (i, j)) = (
    h,
    (
      λ d q. absurd (cc q),
      λ d g t w.
          let same : d ≡ e = some_eq (sym g.1.0 ∙ f.1.0) in
          absurd (
            cc (
              j (subst (λ x. truth x.involved_object ≡ true) same t)
                (subst (IsAnswered not_found component truth a.get) same w))),
    ),
  )

  skip_lem :
      (a : Arrival) (cache : LabelCache)
      → IsTruthful not_found component truth cache
      → ((e : Event) → ¬ IsFresh cutoff a.event e)
      → Extracts a (cache, none)
  skip_lem a cache h n = (h, (λ e q. absurd (cc q), λ e f t w. absurd (n e f)))

  abbrev pub IsClear : Arrival → Type 0
  IsClear a =
      ((e : Event)
        → a.event.object ≡ some e
        → IsPlain (target not_found component truth) e.involved_object)
      × IsHonest not_found component truth a.get

  filter_lem :
      (a : Arrival) (cache : LabelCache) (e : Event)
      → ((a.event.change == "ADDED") ≡ true) ⊎ ((a.event.change == "MODIFIED") ≡ true)
      → a.event.object ≡ some e
      → IsTruthful not_found component truth cache
      → IsClear a
      → Extracts a (filter_event not_found component cutoff a.get cache e)
  unfolding filter_event
  filter_lem a cache e c o h (plain, honest) =
      let r = check_event_matches_component_cached not_found component a.get cache e in
      elim (Bool-cases (not (nat_eq cutoff 0) && is_event_before_cutoff e cutoff)) [
        | inl b ↦
            subst
              (λ t. Extracts a (
                if t
                then (cache, none)
                else if component == ""
                then (cache, some e)
                else event_if e r))
              (sym b)
              (skip_lem a cache h λ d f.
                let same : d ≡ e = some_eq (sym f.1.0 ∙ o) in
                cc (
                  b,
                  subst (λ x. (not (nat_eq cutoff 0) && is_event_before_cutoff x cutoff) ≡ false)
                      same f.1.1,
                ))
        | inr b ↦
            subst
              (λ t. Extracts a (
                if t
                then (cache, none)
                else if component == ""
                then (cache, some e)
                else event_if e r))
              (sym b)
              (subst (λ t. Extracts a (if t then (cache, some e) else event_if e r)) (sym given)
                (event_if_lem a e r (c, (o, b))
                  (check_lem not_found component truth a.get cache e (plain e o) h honest)))
      ]

  extract_lem :
      (a : Arrival) (cache : LabelCache)
      → IsTruthful not_found component truth cache
      → IsClear a
      → Extracts a (extract_valid_event not_found component cutoff a.get cache a.event)
  unfolding extract_valid_event
  extract_lem a cache h clear =
      let step = filter_object not_found component cutoff a.get cache a.event.object in
      let goal : Bool → Type 0 = λ t. Extracts a (if t then (cache, none) else step) in
      elim (Bool-cases (not (a.event.change == "ADDED") && not (a.event.change == "MODIFIED"))) [
        | inl c ↦ subst goal (sym c) (
            skip_lem a cache h
              (λ e f. elim f.0 [ inl y ↦ cc (y, c) | inr y ↦ absurd (ground arith) ]))
        | inr c ↦ subst goal (sym c) (elim (Option-cases a.event.object) [
          | inl n ↦
              subst (λ o. Extracts a (filter_object not_found component cutoff a.get cache o))
                (sym n) (skip_lem a cache h (λ e f. cc (n, f.1.0)))
          | inr (e, o) ↦
              subst (λ x. Extracts a (filter_object not_found component cutoff a.get cache x))
                (sym o) (filter_lem a cache e (changed a c) o h clear)
        ])
      ]
    where
      changed :
          (a : Arrival)
          → (not (a.event.change == "ADDED") && not (a.event.change == "MODIFIED")) ≡ false
          → ((a.event.change == "ADDED") ≡ true) ⊎ ((a.event.change == "MODIFIED") ≡ true)
      changed a c = elim (Bool-cases (a.event.change == "ADDED")) [
        | inl y ↦ inl y
        | inr n ↦ inr (ground arith)
      ]

  -- The event is a fresh one of the arrivals, with the label.
  abbrev pub IsDue : List Arrival → Event → Type 0
  IsDue arrivals e =
      Some (λ a. IsFresh cutoff a.event e × (truth e.involved_object ≡ true)) arrivals

  -- The same, and its lookup does not fail when it arrives.
  abbrev pub IsKnown : List Arrival → Event → Type 0
  IsKnown arrivals e =
      Some
        (λ a.
          IsFresh cutoff a.event e
          × ((truth e.involved_object ≡ true) × IsAnswered not_found component truth a.get e))
        arrivals

  abbrev pub Sends : List Arrival → Processed → Type 0
  Sends arrivals p =
      IsTruthful not_found component truth p.cache
      × (((e : Event) → In e p.sent → IsDue arrivals e)
          × (All (λ a. a.is_delivered ≡ true) arrivals
              → (e : Event) → IsKnown arrivals e
              → In e p.sent))

  send_lem :
      (a : Arrival) (rest : List Arrival) (cache : LabelCache) (v : String) (o : Option Event)
      (d : Bool) (p : Processed)
      → a.is_delivered ≡ d
      → Extracts a (cache, o)
      → Sends rest p
      → Sends (a ∷ rest) (send cache v o d p)
  send_lem a rest cache v none d p q (h, (i, j)) (t, (f, g)) = (
    t,
    (
      λ e m. inr (f e m),
      λ (l, ls) e k. elim k [ inl (w, (x, y)) ↦ absurd (cc (j e w x y)) | inr k' ↦ g ls e k' ],
    ),
  )
  send_lem a rest cache v (some d) true p q (h, (i, j)) (t, (f, g)) = (
    t,
    (
      λ e m. elim m [ inl s ↦ inl (i e (ap some s)) | inr m' ↦ inr (f e m') ],
      λ (l, ls) e k. elim k [
        | inl (w, (x, y)) ↦ inl (some_eq (j e w x y))
        | inr k' ↦ inr (g ls e k')
      ],
    ),
  )
  send_lem a rest cache v (some d) false p q (h, (i, j)) (t, (f, g)) =
      (h, (λ e m. absurd m, λ (l, ls) e k. absurd (cc (q, l))))

  pub process_watch_events_lem :
      (arrivals : List Arrival) (cache : LabelCache) (v : String)
      → All IsClear arrivals
      → IsTruthful not_found component truth cache
      → Sends arrivals (process_watch_events not_found component cutoff arrivals cache v)
  unfolding process_watch_events
  process_watch_events_lem [] cache v c h = (h, (λ e m. absurd m, λ l e k. absurd k))
  process_watch_events_lem (a ∷ rest) cache v (c, cs) h =
      let v' = version_after v a.event.object in
      let x = extract_valid_event not_found component cutoff a.get cache a.event in
      let e = extract_lem a cache h c in
      send_lem a rest x.0 v' x.1 a.is_delivered
        (process_watch_events not_found component cutoff rest x.0 v') refl e
        (process_watch_events_lem rest x.0 v' cs e.0)
