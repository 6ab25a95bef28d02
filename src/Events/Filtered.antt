-- ===== src/Events/Filtered.antt =====
-- What filterEventsByComponent of pkg/events/filter.go keeps, whatever the order of the workers.
use mathlib.Core.List.{Permᴰ}
use odh_cli.Base.{
  ◌≡◌, refl, sym, ◌∙◌, ap, inl, inr, String, Bool, some, List, [], ◌∷◌, map, keep, All, Some, In,
  In-All, All-of_In, lookup,
}
use odh_cli.Base.Perm.{All-perm, Some-perm}
use odh_cli.Errors.Returns.{Returns, ok}
use odh_cli.Client.{NotFoundErrors}
use odh_cli.Events.{EventInfo}
use odh_cli.Events.Labels.{
  get_component_label_value, LabelLookup, component_cache_key, LabelReader,
  check_object_has_component_label,
}
use odh_cli.Events.Keys.{IsPlain, component_cache_key-injective}
use odh_cli.Events.Listing.{
  lookup_of, collect_lookups, LabelResult, or_false, work, fetch_component_labels_parallel,
  filter_by, filter_events_by_component,
}
use odh_cli.Events.Collected.{
  IsOk, IsFailure, ok_true, keep_eq, All-map, Some-map, In-collect_lookups, collected, Settles,
  collect_results-ok, collect_results-fail,
}

module _ (not_found : NotFoundErrors) (get : LabelReader) where
  -- The answer of the cluster for an object.
  abbrev check : String → LabelLookup → Returns Bool
  check target l = check_object_has_component_label not_found get l target

  -- The answer of the cluster for the object of an event.
  abbrev pub answer_for : String → EventInfo → Returns Bool
  answer_for component e = check (get_component_label_value component) (lookup_of e)

module _ (not_found : NotFoundErrors) (get : LabelReader)
    (arrive : List LabelResult → List LabelResult)
    (arrives : (rs : List LabelResult) → Permᴰ rs (arrive rs)) where
  settled :
      (target : String) (ls : List LabelLookup) (l : LabelLookup) (b : Bool)
      → All (IsPlain target) ls
      → In l ls
      → check not_found get target l ≡ ok b
      → Settles
          (arrive (map (work not_found get arrive target) ls))
          []
          (component_cache_key target l)
          b
  unfolding work
  settled target ls l b plain i e =
      let w = work not_found get arrive target in
      let p = In-All (IsPlain target) l ls i plain in
      (
        All-perm _ (arrives (map w ls)) (
            All-map _ w ls (
              All-of_In _ ls λ m j q.
                ap (check not_found get target) (
                  component_cache_key-injective target m l (In-All (IsPlain target) m ls j plain) p
                    q)
                ∙ e)),
        inr (Some-perm _ (arrives (map w ls)) (Some-map _ w l ls refl i)),
      )

  fetch-ok :
      (target : String) (ls : List LabelLookup)
      → All (IsPlain target) ls
      → All (λ l. IsOk (check not_found get target l)) ls
      → (m : List (String × Bool)) × ((fetch_component_labels_parallel not_found get arrive ls
              target
            ≡ ok m)
          × ((l : LabelLookup) (b : Bool)
              → In l ls
              → check not_found get target l ≡ ok b
              → lookup m (component_cache_key target l) ≡ some b))
  unfolding fetch_component_labels_parallel work
  fetch-ok target [] plain h = ([], (refl, λ l b i e. absurd i))
  fetch-ok target (l ∷ ls) plain h =
      let w = work not_found get arrive target in
      let (m, (e, f)) =
        collect_results-ok (arrive (map w (l ∷ ls))) []
          (All-perm _ (arrives (map w (l ∷ ls))) (All-map (λ r. IsOk r.1) w (l ∷ ls) h)) in
      (
        m,
        (
          e,
          λ l' b i q. f (component_cache_key target l') b (settled target (l ∷ ls) l' b plain i q),
        ),
      )

  fetch-fail :
      (target : String) (ls : List LabelLookup) (l : LabelLookup)
      → In l ls
      → IsFailure (check not_found get target l)
      → IsFailure (fetch_component_labels_parallel not_found get arrive ls target)
  unfolding fetch_component_labels_parallel work
  fetch-fail target [] l i h = absurd i
  fetch-fail target (l ∷ ls) l' i h =
      let w = work not_found get arrive target in
      collect_results-fail (arrive (map w (l ∷ ls))) []
        (Some-perm _ (arrives (map w (l ∷ ls))) (Some-map (λ r. IsFailure r.1) w l' (l ∷ ls) h i))

  -- Where the label, the namespaces and the kinds have no slash, and whatever the order in which the
  -- workers answer: if no lookup fails, filterEventsByComponent keeps exactly the events whose object
  -- has the label of the component, in their order; if the lookup of some event's object fails, it
  -- fails.
  pub filter_events_by_component_lem :
      (component : String) (events : List EventInfo)
      → All (λ e. IsPlain (get_component_label_value component) (lookup_of e)) events
      → (All (λ e. IsOk (answer_for not_found get component e)) events
          → filter_events_by_component not_found get arrive component events
            ≡ ok (keep (λ e. ok_true (answer_for not_found get component e)) events))
        × ((e : EventInfo)
            → In e events
            → IsFailure (answer_for not_found get component e)
            → IsFailure (filter_events_by_component not_found get arrive component events))
  unfolding filter_events_by_component
  filter_events_by_component_lem component events plain =
      let target = get_component_label_value component in
      let ls = collect_lookups events [] in
      let member : (e : EventInfo) → In e events → In (lookup_of e) ls =
        λ e i. (In-collect_lookups events [] (lookup_of e)).1 (In-lookup_of e events i) in
      (
        λ h.
            let (m, (q, f)) =
              fetch-ok target ls (collected (IsPlain target) events [] tt plain)
                (collected (λ l. IsOk (check not_found get target l)) events [] tt h) in
            ap (filter_by not_found get arrive target events) q
            ∙ ap ok (
                keep_eq _ _ events (
                  All-of_In _ events λ e i.
                    let (b, r) = In-All _ e events i h in
                    ap or_false (f (lookup_of e) b (member e i) r) ∙ sym (ap ok_true r))),
        λ e i h.
            let (err, q) = fetch-fail target ls (lookup_of e) (member e i) h in
            (err, ap (filter_by not_found get arrive target events) q),
      )
    where
      In-lookup_of :
          (e : EventInfo) (es : List EventInfo) → In e es → Some (λ d. lookup_of d ≡ lookup_of e) es
      In-lookup_of e [] i = i
      In-lookup_of e (d ∷ es) (inl q) = inl (ap lookup_of q)
      In-lookup_of e (d ∷ es) (inr i) = inr (In-lookup_of e es i)
