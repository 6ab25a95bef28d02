-- ===== src/Events/Cached.antt =====
-- The component labels in the cache of the watch (pkg/events/filter.go), and the events that are sent on.
use odh_cli.Base.{
  ◌≡◌, sym, ◌∙◌, ap, subst, inl, inr, String, Bool, true, ◌==◌, none, some, Bool-cases,
  Option-cases, eq_iff, lookup, insert, lookup-insert, if◌then◌else◌,
}
use odh_cli.Errors.Returns.{ok, Returns-cases}
use odh_cli.Client.{NotFoundErrors}
use odh_cli.Events.Labels.{
  get_component_label_value, LabelLookup, component_cache_key, LabelReader,
  check_object_has_component_label,
}
use odh_cli.Events.Keys.{IsPlain, component_cache_key-injective}
use odh_cli.Events.Collected.{IsOk}
use odh_cli.Events.Watch.{
  Event, LabelCache, store_answer, cached_or, check_event_matches_component_cached,
}

module _ (not_found : NotFoundErrors) (component : String) (truth : LabelLookup → Bool) where
  abbrev pub target : String
  target = get_component_label_value component

  -- The cache agrees with the labels on the objects whose key is unambiguous.
  abbrev pub IsTruthful : LabelCache → Type 0
  IsTruthful cache =
      (l : LabelLookup) (b : Bool)
      → IsPlain target l
      → lookup cache (component_cache_key target l) ≡ some b
      → b ≡ truth l

  -- The answers of the cluster agree with the labels, where it answers.
  abbrev pub IsHonest : LabelReader → Type 0
  IsHonest get =
      (l : LabelLookup) (b : Bool)
      → check_object_has_component_label not_found get l target ≡ ok b
      → b ≡ truth l

  abbrev pub IsAnswered : LabelReader → Event → Type 0
  IsAnswered get e = IsOk (check_object_has_component_label not_found get e.involved_object target)

  -- What a step on an event may do: its cache is truthful, and it takes the event exactly if it has
  -- the label, apart from an event whose lookup fails.
  abbrev pub Judges : LabelReader → Event → LabelCache × Bool → Type 0
  Judges get e (cache, b) =
      IsTruthful cache
      × ((b ≡ true → truth e.involved_object ≡ true)
          × (truth e.involved_object ≡ true → IsAnswered get e → b ≡ true))

  insert-IsTruthful :
      (cache : LabelCache) (l : LabelLookup) (b : Bool)
      → IsPlain target l
      → IsTruthful cache
      → b ≡ truth l
      → IsTruthful (insert cache (component_cache_key target l) b)
  insert-IsTruthful cache l b p h e m d q f =
      let k = component_cache_key target l in
      let k' = component_cache_key target m in
      let g = lookup-insert cache k k' b in
      elim (Bool-cases (k == k')) [
        | inl s ↦
            let same = component_cache_key-injective target l m p q ((eq_iff k k').0 s) in
            let v : some d ≡ some b =
              sym f ∙ g ∙ ap (λ t. if t then some b else lookup cache k') s in
            ap (λ o. elim o [ none ↦ d | some x ↦ x ]) v ∙ e ∙ ap truth same
        | inr s ↦ h m d q (sym (ap (λ t. if t then some b else lookup cache k') s) ∙ sym g ∙ f)
      ]

  pub check_lem :
      (get : LabelReader) (cache : LabelCache) (e : Event)
      → IsPlain target e.involved_object
      → IsTruthful cache
      → IsHonest get
      → Judges get e (check_event_matches_component_cached not_found component get cache e)
  unfolding check_event_matches_component_cached
  check_lem get cache e p h honest =
      let key = component_cache_key target e.involved_object in
      let r = check_object_has_component_label not_found get e.involved_object target in
      elim (Option-cases (lookup cache key)) [
        | inr (b, q) ↦
            let v = h e.involved_object b p q in
            subst (λ o. Judges get e (cached_or cache key o r)) (sym q)
              (h, (λ t. sym v ∙ t, λ t i. v ∙ t))
        | inl q ↦
            subst (λ o. Judges get e (cached_or cache key o r)) (sym q)
              (elim (Returns-cases r) [
                | inl (b, s) ↦
                    let v = honest e.involved_object b s in
                    subst (λ o. Judges get e (store_answer cache key o)) (sym s)
                      (
                        insert-IsTruthful cache e.involved_object b p h v,
                        (λ t. sym v ∙ t, λ t i. v ∙ t),
                      )
                | inr (err, s) ↦
                    subst (λ o. Judges get e (store_answer cache key o)) (sym s)
                      (h, (λ t. absurd (cc t), λ t (b, i). absurd (cc (i, s))))
              ])
      ]
