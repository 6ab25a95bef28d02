-- ===== src/Lint/Selectors.antt =====
-- ValidateCheckSelectors of command_options.go and the selection by the registry.
use odh_cli.Base.{
  ◌≡◌, refl, ap, ◌∙◌, inl, inr, String, Bool, true, false, none, some, List, [], ◌∷◌, if◌then◌else◌,
  ◌==◌, All, Bool-cases, Option-cases,
}
use odh_cli.Lint.Glob.{path_match, parse, top, codes, match_items}
use odh_cli.Lint.Check.{Returns, ok, Check}
use odh_cli.Lint.Registry.{
  matches_pattern, matches_any, in_group, list_by_patterns, matches_any_check, glob, select_one,
}
use odh_cli.Lint.Options.{validate_check_selector, validate_each_selector, validate_check_selectors}

abbrev IsOk : {A : Type 0} → Returns A → Type 0
IsOk {A} r = (a : A) × (r ≡ ok a)

if_IsOk : {A : Type 0} (b : Bool) (x y : Returns A) → IsOk x → IsOk y → IsOk (if b then x else y)
if_IsOk true x y h k = h
if_IsOk false x y h k = k

-- A selector that the validation accepts.
abbrev pub IsValidSelector : String → Type 0
IsValidSelector s = validate_check_selector s ≡ none

path_match-total :
    (pattern name other : String) (b : Bool)
    → path_match pattern other ≡ some b
    → (c : Bool) × (path_match pattern name ≡ some c)
unfolding path_match
path_match-total pattern name other b e = elim (Option-cases (parse top (codes pattern))) [
  | inl n ↦ let g = rw (n, path_match) at e in cc
  | inr (items, p) ↦ (match_items items (codes name), rw (p, path_match) refl)
]

valid_path_match : (s name : String) → IsValidSelector s → (c : Bool) × (path_match s name ≡ some c)
unfolding validate_check_selector
valid_path_match s name h = elim (Option-cases (path_match s "test.check")) [
  | inr (b, e) ↦ path_match-total s name "test.check" b e
  | inl n ↦ elim (Bool-cases (s == "")) [
    | inl q ↦ let g = rw (q, validate_check_selector) at h in cc
    | inr q ↦ let g = rw (q, n, validate_check_selector) at h in cc
  ]
]

valid_selectors :
    (selectors : List String)
    → validate_check_selectors selectors ≡ none
    → All IsValidSelector selectors
unfolding validate_check_selectors
valid_selectors [] h = tt
valid_selectors (s ∷ ss) h = each (s ∷ ss) h
  where
    each : (ss : List String) → validate_each_selector ss ≡ none → All IsValidSelector ss
    each [] h = tt
    each (s ∷ ss) h = elim (Option-cases (validate_check_selector s)) [
      | inl e ↦ (e, each ss (rw (e, validate_each_selector) at h))
      | inr (err, e) ↦ let g = rw (e, validate_each_selector) at h in cc
    ]

matches_pattern-total :
    {T : Type 0} (c : Check T) (s : String) → IsValidSelector s → IsOk (matches_pattern c s)
unfolding matches_pattern
matches_pattern-total c s h =
    let (b, e) = valid_path_match s c.id h in
    if_IsOk (s == "*") _ _ (true, refl)
      (if_IsOk (s == "components") _ _ (_, refl)
        (if_IsOk (s == "dependencies") _ _ (_, refl)
          (if_IsOk (s == "platform") _ _ (_, refl)
            (if_IsOk (s == "services") _ _ (_, refl)
              (if_IsOk (s == "workloads") _ _ (_, refl)
                (if_IsOk (s == c.id) _ _ (true, refl) (b, ap (glob c s) e)))))))

matches_any-total :
    {T : Type 0} (c : Check T) (ss : List String) → All IsValidSelector ss → IsOk (matches_any c ss)
unfolding matches_any
matches_any-total c [] h = (false, refl)
matches_any-total c (s ∷ ss) (v, h) =
    let (b, e) = matches_pattern-total c s v in
    elim (Bool-cases b) [
      | inl t ↦ (true, rw (e ∙ ap ok t, matches_any) refl)
      | inr f ↦ rw (e ∙ ap ok f, matches_any) (matches_any-total c ss h)
    ]

select_one-total :
    {T : Type 0} (c : Check T) (b : Bool) (rest : List (Check T))
    → IsOk (select_one c (ok b) (ok rest))
select_one-total c true rest = (c ∷ rest, refl)
select_one-total c false rest = (rest, refl)

list_by_patterns-total :
    {T : Type 0} (cs : List (Check T)) (ss : List String) (group : String)
    → All IsValidSelector ss
    → IsOk (list_by_patterns cs ss group)
unfolding list_by_patterns
list_by_patterns-total [] ss group h = ([], refl)
list_by_patterns-total (c ∷ cs) ss group h =
    let (rest, e) = list_by_patterns-total cs ss group h in
    let (b, f) = matches_any-total c ss h in
    if_IsOk (in_group group c) _ _
      (let (picked, g) = select_one-total c b rest in
        (
          picked,
          ap (λ r. select_one c r (list_by_patterns cs ss group)) f
              ∙ ap (select_one c (ok b)) e
              ∙ g,
        ))
      (rest, e)

matches_any_check-total :
    {T : Type 0} (cs : List (Check T)) (ss : List String)
    → All IsValidSelector ss
    → IsOk (matches_any_check cs ss)
unfolding matches_any_check
matches_any_check-total [] ss h = (false, refl)
matches_any_check-total (c ∷ cs) ss h =
    let (b, f) = matches_any-total c ss h in
    elim (Bool-cases b) [
      | inl t ↦ (true, rw (f ∙ ap ok t, matches_any_check) refl)
      | inr e ↦ rw (f ∙ ap ok e, matches_any_check) (matches_any_check-total cs ss h)
    ]

-- Selectors that ValidateCheckSelectors accepts never make ListByPatterns or MatchesAnyCheck fail,
-- whatever checks are registered and whatever group is asked for.
pub valid_selectors_lem :
    {T : Type 0} (cs : List (Check T)) (selectors : List String) (group : String)
    → validate_check_selectors selectors ≡ none
    → ((picked : List (Check T)) × (list_by_patterns cs selectors group ≡ ok picked))
      × ((b : Bool) × (matches_any_check cs selectors ≡ ok b))
valid_selectors_lem cs selectors group h = (
  list_by_patterns-total cs selectors group (valid_selectors selectors h),
  matches_any_check-total cs selectors (valid_selectors selectors h),
)
