-- ===== src/Lint/Selection.antt =====
-- What the registry of checks stores and selects.
use odh_cli.Base.{
  String, ◌≡◌, ◌≢◌, ◌↔◌, ◌⊎◌, inl, inr, refl, ap, Bool, true, false, none, some, List, [], ◌∷◌,
  ◌++◌, map, arith, All, Some, In, eq_iff, if◌then◌else◌, ◌==◌, Bool-cases, Option-cases,
}
use mathlib.Core.List.{Permᴰ}
use mathlib.Core.List.Permᴰ
use odh_cli.Base.Sort.{HasDistinctKeys, IsAscending, sort_by_perm, IsAscending-sort_by}
use Prim.Native.String as Str
use odh_cli.Errors.{Error, text}
use odh_cli.Lint.Check.{Returns, ok, fail, Check}
use odh_cli.Lint.Registry.{
  get, register, matches_pattern, in_group, matches_any, list_by_patterns, matches_any_check,
  all_check_ids,
}

Returns-cases : (r : Returns Bool) → ((e : Error) × (r ≡ fail e)) ⊎ ((r ≡ ok true) ⊎ (r ≡ ok false))
Returns-cases (fail e) = inl (e, refl)
Returns-cases (ok true) = inr (inl refl)
Returns-cases (ok false) = inr (inr refl)

module _ {T : Type 0} where
  -- The IDs of a registry are distinct.
  abbrev pub HasDistinctIds : List (Check T) → Type 0
  HasDistinctIds cs = HasDistinctKeys (λ (c : Check T). c.id) cs

  get-append :
      (cs : List (Check T)) (c : Check T) (j : String)
      → get cs c.id ≡ none
      → get (cs ++ c ∷ []) j ≡ (if c.id == j then some c else get cs j)
  unfolding get
  get-append [] c j h = refl
  get-append (d ∷ cs) c j h =
      ground (arith, eq_iff d.id c.id, eq_iff d.id j, eq_iff c.id j, get-append cs c j)

  All-ne-append :
      (cs : List (Check T)) (c : Check T) (s : String)
      → s ≢ c.id
      → All (λ d. s ≢ d.id) cs
      → All (λ d. s ≢ d.id) (cs ++ c ∷ [])
  All-ne-append [] c s n h = (n, tt)
  All-ne-append (d ∷ cs) c s n (p, h) = (p, All-ne-append cs c s n h)

  HasDistinctIds-append :
      (cs : List (Check T)) (c : Check T)
      → get cs c.id ≡ none
      → HasDistinctIds cs
      → HasDistinctIds (cs ++ c ∷ [])
  unfolding get
  HasDistinctIds-append [] c g h = (tt, tt)
  HasDistinctIds-append (d ∷ cs) c g (n, h) = elim (Bool-cases (d.id == c.id)) [
    | inl same ↦ cc (rw same at g)
    | inr other ↦ (
      All-ne-append cs c d.id (ground (arith, eq_iff d.id c.id)) n,
      HasDistinctIds-append cs c (ground arith) h,
    )
  ]

  -- Register fails exactly when the ID is taken; else the registry keeps its checks, gains this one under
  -- its ID, and its IDs stay distinct.
  pub register_lem :
      (cs : List (Check T)) (c : Check T) (j : String)
      → HasDistinctIds cs
      → ((d : Check T) × (get cs c.id ≡ some d)
          × (register cs c
              ≡ fail (text (Str.◌++◌ "check with ID " (Str.◌++◌ c.id " already registered")))))
        ⊎ ((cs' : List (Check T)) × (get cs c.id ≡ none)
            × (register cs c ≡ ok cs')
            × (get cs' j ≡ (if c.id == j then some c else get cs j))
            × HasDistinctIds cs')
  unfolding register
  register_lem cs c j h = elim (Option-cases (get cs c.id)) [
    | inr (d, e) ↦ inl (d, e, rw (e, register) refl)
    | inl e ↦ inr (
      cs ++ c ∷ [],
      e,
      rw (e, register) refl,
      get-append cs c j e,
      HasDistinctIds-append cs c e h,
    )
  ]

  -- Some pattern matches the check.
  abbrev pub IsPicked : List String → Check T → Type 0
  IsPicked patterns c = Some (λ p. matches_pattern c p ≡ ok true) patterns

  matches_any-IsPicked :
      (c : Check T) (ps : List String) → matches_any c ps ≡ ok true → IsPicked ps c
  unfolding matches_any
  matches_any-IsPicked c [] h = cc
  matches_any-IsPicked c (p ∷ ps) h = elim (Returns-cases (matches_pattern c p)) [
    | inl (e, q) ↦ ground arith
    | inr (inl q) ↦ inl q
    | inr (inr q) ↦ inr (matches_any-IsPicked c ps (ground arith))
  ]

  not-IsPicked : (c : Check T) (ps : List String) → matches_any c ps ≡ ok false → ¬ IsPicked ps c
  unfolding matches_any
  not-IsPicked c [] h k = k
  not-IsPicked c (p ∷ ps) h (inl q) = ground arith
  not-IsPicked c (p ∷ ps) h (inr k) = not-IsPicked c ps (ground arith) k

  -- The checks that a selection is to hold.
  abbrev pub IsSelected : List (Check T) → List String → String → Check T → Type 0
  IsSelected cs patterns group c = In c cs × (in_group group c ≡ true) × IsPicked patterns c

  List-cases :
      (r : Returns (List (Check T)))
      → ((e : Error) × (r ≡ fail e)) ⊎ ((xs : List (Check T)) × (r ≡ ok xs))
  List-cases (fail e) = inl (e, refl)
  List-cases (ok xs) = inr (xs, refl)

  later :
      (c d : Check T) (cs : List (Check T)) (patterns : List String) (group : String)
      → IsSelected cs patterns group d
      → IsSelected (c ∷ cs) patterns group d
  later c d cs patterns group (i, g, p) = (inr i, g, p)

  list_by_patterns_sound :
      (cs : List (Check T)) (patterns : List String) (group : String) (picked : List (Check T))
      (d : Check T)
      → list_by_patterns cs patterns group ≡ ok picked
      → In d picked
      → IsSelected cs patterns group d
  unfolding list_by_patterns
  list_by_patterns_sound [] patterns group picked d h i =
      let e : picked ≡ [] = ground arith in absurd (rw e at i)
  list_by_patterns_sound (c ∷ cs) patterns group picked d h i =
      elim (Bool-cases (in_group group c)) [
        | inr out ↦
            later c d cs patterns group
              (list_by_patterns_sound cs patterns group picked d (ground arith) i)
        | inl here ↦ elim (Returns-cases (matches_any c patterns)) [
          | inl (e, q) ↦ ground arith
          | inr (inr q) ↦
              later c d cs patterns group
                (list_by_patterns_sound cs patterns group picked d (ground arith) i)
          | inr (inl q) ↦ elim (List-cases (list_by_patterns cs patterns group)) [
            | inl (e, r) ↦ ground arith
            | inr (xs, r) ↦
                let same : picked ≡ c ∷ xs = ground arith in
                elim (let j : In d (c ∷ xs) = rw same at i in j) [
                  | inl e ↦ (inl e, rw (← e) here, rw (← e) (matches_any-IsPicked c patterns q))
                  | inr k ↦
                      later c d cs patterns group
                        (list_by_patterns_sound cs patterns group xs d r k)
                ]
          ]
        ]
      ]

  list_by_patterns_complete :
      (cs : List (Check T)) (patterns : List String) (group : String) (picked : List (Check T))
      (d : Check T)
      → list_by_patterns cs patterns group ≡ ok picked
      → IsSelected cs patterns group d
      → In d picked
  unfolding list_by_patterns
  list_by_patterns_complete [] patterns group picked d h (i, g, p) = absurd i
  list_by_patterns_complete (c ∷ cs) patterns group picked d h (i, g, p) =
      elim (Bool-cases (in_group group c)) [
        | inr out ↦ elim i [
          | inl e ↦ absurd (cc (ap (in_group group) e))
          | inr j ↦ list_by_patterns_complete cs patterns group picked d (ground arith) (j, g, p)
        ]
        | inl here ↦ elim (Returns-cases (matches_any c patterns)) [
          | inl (e, q) ↦ ground arith
          | inr (inr q) ↦ elim i [
            | inl e ↦ absurd (not-IsPicked c patterns q (rw e p))
            | inr j ↦ list_by_patterns_complete cs patterns group picked d (ground arith) (j, g, p)
          ]
          | inr (inl q) ↦ elim (List-cases (list_by_patterns cs patterns group)) [
            | inl (e, r) ↦ ground arith
            | inr (xs, r) ↦
                let same : picked ≡ c ∷ xs = ground arith in
                rw same (elim i [
                  | inl e ↦ inl e
                  | inr j ↦ inr (list_by_patterns_complete cs patterns group xs d r (j, g, p))
                ])
          ]
        ]
      ]

  -- ListByPatterns, where it does not fail, returns exactly the registered checks of the group that some
  -- pattern matches.
  pub list_by_patterns_iff :
      (cs : List (Check T)) (patterns : List String) (group : String) (picked : List (Check T))
      (d : Check T)
      → list_by_patterns cs patterns group ≡ ok picked
      → In d picked ↔ (In d cs × (in_group group d ≡ true) × IsPicked patterns d)
  list_by_patterns_iff cs patterns group picked d h = (
    list_by_patterns_sound cs patterns group picked d h,
    list_by_patterns_complete cs patterns group picked d h,
  )

  -- Where MatchesAnyCheck says that no check matches, ListByPatterns returns no check, in any group.
  pub matches_any_check-list_by_patterns :
      (cs : List (Check T)) (patterns : List String) (group : String)
      → matches_any_check cs patterns ≡ ok false
      → list_by_patterns cs patterns group ≡ ok []
  unfolding matches_any_check list_by_patterns
  matches_any_check-list_by_patterns [] patterns group h = refl
  matches_any_check-list_by_patterns (c ∷ cs) patterns group h =
      ground (arith, matches_any_check-list_by_patterns cs patterns group)

  map_perm :
      {cs ds : List (Check T)}
      → Permᴰ cs ds
      → Permᴰ (map (λ (c : Check T). c.id) cs) (map (λ (c : Check T). c.id) ds)
  map_perm p = Permᴰ.map (λ (c : Check T). c.id) p

  -- On distinct IDs, AllCheckIDs is strictly ascending and does not depend on the order in which the map
  -- is iterated.
  pub all_check_ids_lem :
      (cs ds : List (Check T))
      → HasDistinctKeys (λ s. s) (map (λ (c : Check T). c.id) cs)
      → Permᴰ cs ds
      → (all_check_ids cs ≡ all_check_ids ds) × IsAscending (λ s. s) (all_check_ids cs)
  unfolding all_check_ids
  all_check_ids_lem cs ds h p =
      (sort_by_perm (λ s. s) (map_perm p) h, IsAscending-sort_by (λ s. s) _ h)
