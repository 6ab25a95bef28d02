-- ===== src/Deps/Shown.antt =====
-- buildDepMap of pkg/deps/graph.go: the names that it shows for a dependency.
use odh_cli.Base.{
  ◌≡◌, ◌≢◌, refl, sym, ap, ◌∙◌, ◌↔◌, inl, inr, true, false, not, String, none, some, List, [], ◌∷◌,
  map, keep, ◌==◌, eq_iff, In, In-keep, has→In, In→has, Bool-cases,
}
use odh_cli.Base.Graph.{Reach}
use odh_cli.Deps.{Dependency, to_display_name}
use odh_cli.Deps.Graph.{transitive_names}
use odh_cli.Deps.Closure.{direct_deps, collect_transitive_deps_lem}

In-map_iff :
    (f : String → String) (b : String) (xs : List String)
    → In b (map f xs) ↔ ((a : String) × In a xs × (f a ≡ b))
In-map_iff f b [] = (λ i. absurd i, λ (a, i, e). i)
In-map_iff f b (x ∷ xs) =
    let rest = In-map_iff f b xs in
    (
      λ i. elim i [ inl e ↦ (x, inl refl, e) | inr j ↦ let (a, k, e) = rest.0 j in (a, inr k, e) ],
      λ (a, i, e). elim i [ inl g ↦ inl (ap f g ∙ e) | inr k ↦ inr (rest.1 (a, k, e)) ],
    )

other_iff : (s t : String) → not (s == t) ≡ true ↔ s ≢ t
other_iff s t = elim (Bool-cases (s == t)) [
  | inl e ↦ rw e (λ h. absurd (false_true h), λ h. absurd (h ((eq_iff s t).0 e)))
  | inr e ↦ rw e (λ h q. false_true (sym e ∙ (eq_iff s t).1 q), λ h. refl)
]
  where
    false_true : false ≡ true → ⊥
    false_true f = cc

-- A name other than `name` itself that a path of enabled dependencies leads to, and that is shown as `r`.
abbrev pub IsShown : List (String × Dependency) → String → String → String → Type 0
IsShown deps name r x = Reach (direct_deps deps) name x × (x ≢ name) × (to_display_name x ≡ r)

-- What buildDepMap shows for a dependency always exists, and is exactly the display names of the other
-- names that a path of enabled dependencies leads to.
pub transitive_names_lem :
    (deps : List (String × Dependency)) (name : String)
    → (names : List String) × (transitive_names deps name ≡ some names)
      × ((r : String) → In r names ↔ ((x : String) × IsShown deps name r x))
unfolding transitive_names
transitive_names_lem deps name =
    let (visited, e, reached) = collect_transitive_deps_lem deps name in
    let others = keep (λ s. not (s == name)) visited in
    (
      map to_display_name others,
      ap
          (λ o. elim o [
            | none ↦ none
            | some v ↦ some (map to_display_name (keep (λ s. not (s == name)) v))
          ])
          e,
      λ r. (
        λ i.
            let (x, j, f) = (In-map_iff to_display_name r others).0 i in
            let (k, q) = (In-keep (λ s. not (s == name)) x visited).0 j in
            (x, ((reached x).0 (In→has visited x k), (other_iff x name).0 q, f)),
        λ (x, (p, n, f)). (In-map_iff to_display_name r others).1 (
          x,
          (In-keep (λ s. not (s == name)) x visited).1
              (has→In visited x ((reached x).1 p), (other_iff x name).1 n),
          f,
        ),
      ),
    )
