-- ===== src/Migrate/Selection.antt =====
-- resolvePhaseAndMigrations of pkg/migrate/phase.go against the registered actions.
use odh_cli.Base.{
  ◌≡◌, ◌↔◌, ◌⊎◌, inl, inr, refl, sym, subst, String, Bool, true, false, Option, none, some, List,
  [], ◌∷◌, ◌==◌, keep, eq_iff, All, Some, In, str_ltb, Bool-cases,
}
use odh_cli.Base.Sort.{sort_by, HasDistinctKeys, IsAscending, In-sort_by, IsAscending-sort_by}
use odh_cli.Lint.Check.{ok, ok-injective, Returns-cases}
use odh_cli.Migrate.Registry.{Action, list_all}
use odh_cli.Migrate.Phase.{
  phase_pre_upgrade, phase_post_upgrade, migrations_of, detect_phase, filter_by_phase,
  applicable_ids, effective_phase, resolve_phase_and_migrations,
}

Some-In : {A : Type 0} (P : A → Type 0) (xs : List A) → Some P xs ↔ ((a : A) × In a xs × P a)
Some-In P [] = (λ i. absurd i, λ (a, i, p). i)
Some-In P (x ∷ xs) =
    let rest = Some-In P xs in
    (
      λ s. elim s [ inl p ↦ (x, inl refl, p) | inr t ↦ let (a, i, p) = rest.0 t in (a, inr i, p) ],
      λ (a, i, p). elim i [ inl e ↦ inl (subst P (sym e) p) | inr j ↦ inr (rest.1 (a, j, p)) ],
    )

Some-iff :
    {A : Type 0} (P Q : A → Type 0) → ((a : A) → P a ↔ Q a) → (xs : List A) → Some P xs ↔ Some Q xs
Some-iff P Q h [] = (λ i. i, λ i. i)
Some-iff P Q h (x ∷ xs) =
    let rest = Some-iff P Q h xs in
    (
      λ s. elim s [ inl p ↦ inl ((h x).0 p) | inr t ↦ inr (rest.0 t) ],
      λ s. elim s [ inl q ↦ inl ((h x).1 q) | inr t ↦ inr (rest.1 t) ],
    )

module _ {T W : Type 0} where
  abbrev pub key : Action T W → String
  key a = a.id

  Some-list_all :
      (P : Action T W → Type 0) (registry : List (Action T W))
      → Some P (list_all registry) ↔ Some P registry
  unfolding list_all
  Some-list_all P registry =
      let sorted = Some-In P (sort_by key registry) in
      let plain = Some-In P registry in
      (
        λ s. let (a, i, p) = sorted.0 s in plain.1 (a, (In-sort_by key a registry).0 i, p),
        λ s. let (a, i, p) = plain.0 s in sorted.1 (a, (In-sort_by key a registry).1 i, p),
      )

  Some-keep :
      (P : Action T W → Type 0) (p : Action T W → Bool) (xs : List (Action T W))
      → Some P (keep p xs) ↔ Some (λ a. (p a ≡ true) × P a) xs
  Some-keep P p [] = (λ i. i, λ i. i)
  Some-keep P p (x ∷ xs) =
      let rest = Some-keep P p xs in
      elim (Bool-cases (p x)) [
        | inl e ↦ rw e (
          λ i. elim i [ inl q ↦ inl (refl, q) | inr j ↦ inr (rest.0 j) ],
          λ i. elim i [ inl q ↦ inl q.1 | inr j ↦ inr (rest.1 j) ],
        )
        | inr e ↦ (
          λ i. inr (rest.0 (rw e at i)),
          λ i. elim i [ inl q ↦ absurd (dropped x e q.0) | inr j ↦ rw e (rest.1 j) ],
        )
      ]
    where
      dropped : (x : Action T W) → p x ≡ false → p x ≡ true → ⊥
      dropped x e f = cc

  In-applicable_ids :
      (target : T) (w : W) (xs : List (Action T W)) (id : String)
      → In id (applicable_ids target w xs)
        ↔ Some (λ a. (a.can_apply target w ≡ true) × (a.id ≡ id)) xs
  In-applicable_ids target w [] id = (λ i. i, λ i. i)
  In-applicable_ids target w (x ∷ xs) id =
      let rest = In-applicable_ids target w xs id in
      elim (Bool-cases (x.can_apply target w)) [
        | inl e ↦ (
          λ i. elim (applied x xs e i) [ inl q ↦ inl (e, q) | inr j ↦ inr (rest.0 j) ],
          λ i. rw e (elim i [ inl q ↦ inl q.1 | inr j ↦ inr (rest.1 j) ]),
        )
        | inr e ↦ (
          λ i. inr (rest.0 (rw e at i)),
          λ i. rw e (elim i [ inl q ↦ absurd (dropped x e q.0) | inr j ↦ rest.1 j ]),
        )
      ]
    where
      dropped : (x : Action T W) → x.can_apply target w ≡ false → x.can_apply target w ≡ true → ⊥
      dropped x e f = cc

      applied :
          (x : Action T W) (xs : List (Action T W))
          → x.can_apply target w ≡ true
          → In id (applicable_ids target w (x ∷ xs))
          → (x.id ≡ id) ⊎ In id (applicable_ids target w xs)
      applied x xs e i = rw e at i

  All-keep :
      (P : Action T W → Type 0) (p : Action T W → Bool) (xs : List (Action T W))
      → All P xs
      → All P (keep p xs)
  All-keep P p [] h = tt
  All-keep P p (x ∷ xs) (q, h) = elim (Bool-cases (p x)) [
    | inl e ↦ rw e (q, All-keep P p xs h)
    | inr e ↦ rw e (All-keep P p xs h)
  ]

  IsAscending-keep :
      (p : Action T W → Bool) (xs : List (Action T W))
      → IsAscending key xs
      → IsAscending key (keep p xs)
  IsAscending-keep p [] h = tt
  IsAscending-keep p (x ∷ xs) (q, h) = elim (Bool-cases (p x)) [
    | inl e ↦ rw e (All-keep (λ y. str_ltb (key x) (key y) ≡ true) p xs q, IsAscending-keep p xs h)
    | inr e ↦ rw e (IsAscending-keep p xs h)
  ]

  All-applicable_ids :
      (P : String → Type 0) (target : T) (w : W) (xs : List (Action T W))
      → All (λ (a : Action T W). P a.id) xs
      → All P (applicable_ids target w xs)
  All-applicable_ids P target w [] h = tt
  All-applicable_ids P target w (x ∷ xs) (q, h) = elim (Bool-cases (x.can_apply target w)) [
    | inl e ↦ rw e (q, All-applicable_ids P target w xs h)
    | inr e ↦ rw e (All-applicable_ids P target w xs h)
  ]

  IsAscending-applicable_ids :
      (target : T) (w : W) (xs : List (Action T W))
      → IsAscending key xs
      → IsAscending (λ s. s) (applicable_ids target w xs)
  IsAscending-applicable_ids target w [] h = tt
  IsAscending-applicable_ids target w (x ∷ xs) (q, h) = elim (Bool-cases (x.can_apply target w)) [
    | inl e ↦ rw e (
      All-applicable_ids (λ s. str_ltb x.id s ≡ true) target w xs q,
      IsAscending-applicable_ids target w xs h,
    )
    | inr e ↦ rw e (IsAscending-applicable_ids target w xs h)
  ]

given : (p phase : String) → p == "" ≡ false → ok p ≡ ok phase → phase == "" ≡ false
given p phase f e = subst (λ s. s == "" ≡ false) (ok-injective e) f

-- The phase that is detected or given is never the empty one.
effective_phase-ne :
    {V : Type 0} (lt : V → V → Bool) (parsed : String) (current wanted : Option V) (phase : String)
    → effective_phase lt parsed current wanted ≡ ok phase
    → phase == "" ≡ false
unfolding detect_phase
effective_phase-ne lt parsed none wanted phase e = elim (Bool-cases (parsed == "")) [
  | inl f ↦ let g = rw f at e in cc
  | inr f ↦ given parsed phase f (rw f at e)
]
effective_phase-ne lt parsed (some c) none phase e = elim (Bool-cases (parsed == "")) [
  | inl f ↦ let g = rw f at e in cc
  | inr f ↦ given parsed phase f (rw f at e)
]
effective_phase-ne lt parsed (some c) (some t) phase e = elim (Bool-cases (parsed == "")) [
  | inl f ↦ elim (Bool-cases (lt c t)) [
    | inl g ↦ given phase_pre_upgrade phase refl (rw (f, g) at e)
    | inr g ↦ given phase_post_upgrade phase refl (rw (f, g) at e)
  ]
  | inr f ↦ given parsed phase f (rw f at e)
]

-- An action of the phase that applies, by its ID.
abbrev pub IsApplicable : {T W : Type 0} → T → W → String → String → Action T W → Type 0
IsApplicable target w phase id a = (a.phase ≡ phase) × (a.can_apply target w ≡ true) × (a.id ≡ id)

applicable_lem :
    {T W : Type 0} (registry : List (Action T W)) (target : T) (w : W) (phase id : String)
    → HasDistinctKeys (λ (a : Action T W). a.id) registry
    → phase == "" ≡ false
    → (In id (migrations_of registry target w [] phase)
        ↔ Some (IsApplicable target w phase id) registry)
      × IsAscending (λ s. s) (migrations_of registry target w [] phase)
unfolding filter_by_phase list_all
applicable_lem registry target w phase id h f =
    let kept = keep (λ a. a.phase == phase) (list_all registry) in
    let applied = In-applicable_ids target w kept id in
    let of_phase =
      Some-keep (λ a. (a.can_apply target w ≡ true) × (a.id ≡ id)) (λ a. a.phase == phase)
        (list_all registry) in
    let listed =
      Some-list_all (λ a. (a.phase == phase ≡ true) × ((a.can_apply target w ≡ true) × (a.id ≡ id)))
        registry in
    let named =
      Some-iff (λ a. (a.phase == phase ≡ true) × ((a.can_apply target w ≡ true) × (a.id ≡ id)))
        (IsApplicable target w phase id)
        (λ a. (
          λ (p, q). ((eq_iff a.phase phase).0 p, q.0, q.1),
          λ (p, c, i). ((eq_iff a.phase phase).1 p, (c, i)),
        ))
        registry in
    rw f (
      (
        λ i. named.0 (listed.0 (of_phase.0 (applied.0 i))),
        λ s. applied.1 (of_phase.1 (listed.1 (named.1 s))),
      ),
      IsAscending-applicable_ids target w kept (
          IsAscending-keep (λ a. a.phase == phase) (list_all registry)
            (IsAscending-sort_by (λ a. a.id) registry h)),
    )

-- Where no migration is given, a phase is found and the registered IDs are distinct, the migrations are
-- exactly the registered actions of that phase that apply, in strictly ascending order of their IDs.
pub resolve_phase_and_migrations_lem :
    {V T W : Type 0}
    → (lt : V → V → Bool) (registry : List (Action T W)) (target : T) (w : W) (parsed : String)
    → (current wanted : Option V) (phase : String) (ids : List String) (id : String)
    → HasDistinctKeys (λ (a : Action T W). a.id) registry
    → resolve_phase_and_migrations lt registry target w parsed [] current wanted ≡ ok (phase, ids)
    → (In id ids ↔ Some (IsApplicable target w phase id) registry) × IsAscending (λ s. s) ids
unfolding resolve_phase_and_migrations filter_by_phase list_all
resolve_phase_and_migrations_lem {V} {T} {W} lt registry target w parsed current wanted phase ids id
      h e =
    elim (Returns-cases (effective_phase lt parsed current wanted)) [
      | inr (err, q) ↦ let g = rw (q, resolve_phase_and_migrations) at e in cc
      | inl (p, q) ↦
          subst
            (λ (z : String × List String).
              (In id z.1 ↔ Some (IsApplicable target w z.0 id) registry) × IsAscending (λ s. s) z.1)
            (ok-injective (rw (q, resolve_phase_and_migrations) at e))
            (applicable_lem registry target w p id h
              (effective_phase-ne lt parsed current wanted p q))
    ]
