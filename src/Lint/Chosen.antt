-- ===== src/Lint/Chosen.antt =====
-- The checks that the selectors choose (pkg/lint/check/registry.go and selector.go), against the
-- description of the selectors.
use odh_cli.Base.{
  String, ◌≡◌, ◌≢◌, ◌↔◌, ◌⊎◌, inl, inr, refl, sym, ap, subst, Bool, true, false, Option, none, some,
  List, [], ◌∷◌, All-of_In, In-All, Some, In, eq_iff, if◌then◌else◌, ◌==◌, Bool-cases,
}
use odh_cli.Lint.Glob.{path_match}
use odh_cli.Lint.Check.{Returns, ok, fail, Check, ok-injective}
use odh_cli.Lint.Registry.{
  matches_pattern, in_group, glob, matches_any, select_one, list_by_patterns,
}
use odh_cli.Lint.Options.{validate_check_selectors}
use odh_cli.Lint.Selectors.{valid_selectors_lem}
use odh_cli.Lint.Selection.{HasDistinctIds, IsPicked, list_by_patterns_iff}

-- The shortcuts of the selectors, with the groups they stand for.
abbrev pub shortcuts : List (String × String)
shortcuts =
    ("components", "component")
    ∷ ("dependencies", "dependency")
    ∷ ("platform", "platform")
    ∷ ("services", "service")
    ∷ ("workloads", "workload")
    ∷ []

abbrev by_shortcut : List (String × String) → String → String → Returns Bool → Returns Bool
by_shortcut [] p group rest = rest
by_shortcut ((name, g) ∷ m) p group rest =
    if p == name then ok (group == g) else by_shortcut m p group rest

-- A shortcut matches the checks of its group, and what is no shortcut is left to R.
abbrev pub StandsFor : List (String × String) → String → String → Type 0 → Type 0
StandsFor [] p group R = R
StandsFor ((name, g) ∷ m) p group R =
    ((p ≡ name) × (group ≡ g)) ⊎ ((p ≢ name) × StandsFor m p group R)

by_shortcut_iff :
    (m : List (String × String)) (p group : String) (rest : Returns Bool) (R : Type 0)
    → ((rest ≡ ok true) ↔ R)
    → (by_shortcut m p group rest ≡ ok true) ↔ StandsFor m p group R
by_shortcut_iff [] p group rest R h = h
by_shortcut_iff ((name, g) ∷ m) p group rest R h =
    let ih = by_shortcut_iff m p group rest R h in
    elim (Bool-cases (p == name)) [
      | inl e ↦
          let same = (eq_iff p name).0 e in
          rw e (
            (λ q. inl (same, (eq_iff group g).0 (ok-injective q))),
            λ x. elim x [
              | inl (q, r) ↦ ap ok ((eq_iff group g).1 r)
              | inr (n, r) ↦ absurd (n same)
            ],
          )
      | inr e ↦
          let differ : p ≢ name = λ q. cc (e, (eq_iff p name).1 q) in
          rw e (
            (λ q. inr (differ, ih.0 q)),
            λ x. elim x [ inl (q, r) ↦ absurd (differ q) | inr (n, r) ↦ ih.1 r ],
          )
    ]

module _ {T : Type 0} where
  -- The wildcard matches all checks, a shortcut those of its group, and another selector the check
  -- with this ID, and those whose ID it matches as a glob pattern.
  abbrev pub IsMatch : Check T → String → Type 0
  IsMatch c p =
      (p ≡ "*") ⊎ StandsFor shortcuts p c.group ((p ≡ c.id) ⊎ (path_match p c.id ≡ some true))

  -- The part of matchesPattern after the shortcuts.
  abbrev by_id : Check T → String → Returns Bool
  by_id c p = if p == c.id then ok true else glob c p (path_match p c.id)

  glob_iff : (c : Check T) (p : String) (o : Option Bool) → (glob c p o ≡ ok true) ↔ (o ≡ some true)
  glob_iff c p none = ((λ q. absurd (cc q)), λ q. absurd (cc q))
  glob_iff c p (some b) = ((λ q. ap some (ok-injective q)), λ q. ap (glob c p) q)

  by_id_iff :
      (c : Check T) (p : String)
      → (by_id c p ≡ ok true) ↔ (p ≡ c.id) ⊎ (path_match p c.id ≡ some true)
  by_id_iff c p = elim (Bool-cases (p == c.id)) [
    | inl e ↦ rw e ((λ q. inl ((eq_iff p c.id).0 e)), λ x. refl)
    | inr e ↦ rw e (
      (λ q. inr ((glob_iff c p (path_match p c.id)).0 q)),
      λ x. elim x [
        | inl q ↦ absurd (cc (e, (eq_iff p c.id).1 q))
        | inr q ↦ (glob_iff c p (path_match p c.id)).1 q
      ],
    )
  ]

  matches_pattern_iff : (c : Check T) (p : String) → (matches_pattern c p ≡ ok true) ↔ IsMatch c p
  unfolding matches_pattern
  matches_pattern_iff c p =
      let rest = by_shortcut_iff shortcuts p c.group (by_id c p) _ (by_id_iff c p) in
      elim (Bool-cases (p == "*")) [
        | inl e ↦ rw e ((λ q. inl ((eq_iff p "*").0 e)), λ x. refl)
        | inr e ↦ rw e (
          (λ q. inr (rest.0 q)),
          λ x. elim x [ inl q ↦ absurd (cc (e, (eq_iff p "*").1 q)) | inr q ↦ rest.1 q ],
        )
      ]

  in_group_iff :
      (group : String) (c : Check T) → (in_group group c ≡ true) ↔ (group ≡ "") ⊎ (c.group ≡ group)
  in_group_iff group c = elim (Bool-cases (group == "")) [
    | inl e ↦ rw e ((λ q. inl ((eq_iff group "").0 e)), λ x. refl)
    | inr e ↦ elim (Bool-cases (c.group == group)) [
      | inl f ↦ rw (e, f) ((λ q. inr ((eq_iff c.group group).0 f)), λ x. refl)
      | inr f ↦
          rw (e, f)
            (
              (λ q. absurd (cc q)),
              λ x. elim x [
                | inl q ↦ absurd (cc (e, (eq_iff group "").1 q))
                | inr q ↦ absurd (cc (f, (eq_iff c.group group).1 q))
              ],
            )
    ]
  ]

  -- Some selector matches the check.
  abbrev pub IsMatched : List String → Check T → Type 0
  IsMatched patterns c = Some (IsMatch c) patterns

  IsPicked-IsMatched : (ps : List String) (c : Check T) → IsPicked ps c ↔ IsMatched ps c
  IsPicked-IsMatched [] c = ((λ x. x), λ x. x)
  IsPicked-IsMatched (p ∷ ps) c =
      let one = matches_pattern_iff c p in
      let rest = IsPicked-IsMatched ps c in
      (
        λ x. elim x [ inl q ↦ inl (one.0 q) | inr r ↦ inr (rest.0 r) ],
        λ x. elim x [ inl q ↦ inl (one.1 q) | inr r ↦ inr (rest.1 r) ],
      )

  -- The check belongs to the group, where one is given.
  abbrev pub IsIn : String → Check T → Type 0
  IsIn group c = (group ≡ "") ⊎ (c.group ≡ group)

  pub list_by_patterns-selected :
      (cs : List (Check T)) (patterns : List String) (group : String) (picked : List (Check T))
      (d : Check T)
      → list_by_patterns cs patterns group ≡ ok picked
      → In d picked ↔ (In d cs × (IsIn group d × IsMatched patterns d))
  list_by_patterns-selected cs patterns group picked d h =
      let all = list_by_patterns_iff cs patterns group picked d h in
      let g = in_group_iff group d in
      let m = IsPicked-IsMatched patterns d in
      (λ i. let (j, k, l) = all.0 i in (j, (g.0 k, m.0 l)), λ (j, (k, l)). all.1 (j, g.1 k, m.1 l))

  select_one-cases :
      (c : Check T) (r : Returns Bool) (rest : Returns (List (Check T))) (picked : List (Check T))
      → select_one c r rest ≡ ok picked
      → (rest ≡ ok picked) ⊎ ((xs : List (Check T)) × ((rest ≡ ok xs) × (picked ≡ c ∷ xs)))
  select_one-cases c (fail e) rest picked h = absurd (cc h)
  select_one-cases c (ok false) rest picked h = inl h
  select_one-cases c (ok true) (fail e) picked h = absurd (cc h)
  select_one-cases c (ok true) (ok xs) picked h = inr (xs, (refl, sym (ok-injective h)))

  -- A selection holds no check twice.
  list_by_patterns-HasDistinctIds :
      (cs : List (Check T)) (patterns : List String) (group : String) (picked : List (Check T))
      → HasDistinctIds cs
      → list_by_patterns cs patterns group ≡ ok picked
      → HasDistinctIds picked
  unfolding list_by_patterns
  list_by_patterns-HasDistinctIds [] patterns group picked h e =
      subst HasDistinctIds (ok-injective e) tt
  list_by_patterns-HasDistinctIds (c ∷ cs) patterns group picked (n, h) e =
      elim (Bool-cases (in_group group c)) [
        | inr out ↦ list_by_patterns-HasDistinctIds cs patterns group picked h (rw out at e)
        | inl here ↦
            elim (select_one-cases c (matches_any c patterns) (list_by_patterns cs patterns group)
              picked (rw here at e)) [
                | inl f ↦ list_by_patterns-HasDistinctIds cs patterns group picked h f
                | inr (xs, (f, q)) ↦ subst HasDistinctIds (sym q) (
                  All-of_In _ xs (λ d i.
                      In-All _ d cs ((list_by_patterns-selected cs patterns group xs d f).0 i).0 n),
                  list_by_patterns-HasDistinctIds cs patterns group xs h f,
                )
              ]
      ]

  -- Selectors that ValidateCheckSelectors accepts always select: ListByPatterns then returns exactly
  -- the registered checks of the group, or of all groups where none is given, that some selector
  -- matches, as the wildcard, the shortcut of its group, its ID or a glob pattern of its ID; and where
  -- the registered IDs are distinct, it returns none of them twice.
  pub list_by_patterns_lem :
      (cs : List (Check T)) (selectors : List String) (group : String)
      → validate_check_selectors selectors ≡ none
      → HasDistinctIds cs
      → (picked : List (Check T)) × ((list_by_patterns cs selectors group ≡ ok picked)
          × (((d : Check T) → In d picked ↔ (In d cs × (IsIn group d × IsMatched selectors d)))
              × HasDistinctIds picked))
  list_by_patterns_lem cs selectors group v h =
      let (picked, e) = (valid_selectors_lem cs selectors group v).0 in
      (
        picked,
        (
          e,
          (
            λ d. list_by_patterns-selected cs selectors group picked d e,
            list_by_patterns-HasDistinctIds cs selectors group picked h e,
          ),
        ),
      )
