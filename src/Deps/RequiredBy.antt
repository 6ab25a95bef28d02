-- ===== src/Deps/RequiredBy.antt =====
-- GetDependencies and buildRequiredByMap of pkg/deps/manifest.go against the entries of the manifest.
use odh_cli.Base.{
  ◌≡◌, refl, sym, ap, subst, ◌∙◌, ◌↔◌, ◌≢◌, ◌⊎◌, inl, inr, true, false, String, Bool, Option, some,
  List, [], ◌∷◌, map, if◌then◌else◌, ◌==◌, arith, eq_iff, All, Some, In, chain, nothing, lookup,
  lookup-insert, set_insert, In-set_insert, Bool-cases,
}
use odh_cli.Base.Sort.{sort_by, In-sort_by, IsAscending, HasDistinctKeys, IsAscending-sort_by}
use odh_cli.Deps.{Value, Dependency, Manifest, is_enabled, to_display_name}
use odh_cli.Deps.Closure.{enabled_names}
use odh_cli.Deps.Listing.{
  set_of, entries_of, add_entry, add_enabled, add_components, add_dependencies, sorted_sets,
  build_required_by_map, DependencyInfo, dependency_info, get_dependencies,
}

set_of_if :
    (b : Bool) (set : List String) (o : Option (List String))
    → set_of (if b then some set else o) ≡ (if b then set else set_of o)
set_of_if true set o = refl
set_of_if false set o = refl

entries_of-add_entry :
    (sets : List (String × List String)) (dep owner j : String)
    → entries_of (add_entry sets dep owner) j
      ≡ (if dep == j then set_insert (entries_of sets dep) owner else entries_of sets j)
unfolding entries_of add_entry
entries_of-add_entry sets dep owner j =
    ap set_of (lookup-insert sets dep j (set_insert (entries_of sets dep) owner))
    ∙ set_of_if (dep == j) (set_insert (entries_of sets dep) owner) (lookup sets j)

In-add_entry :
    (sets : List (String × List String)) (dep owner j r : String)
    → In r (entries_of (add_entry sets dep owner) j)
      ↔ In r (entries_of sets j) ⊎ ((owner ≡ r) × (dep ≡ j))
In-add_entry sets dep owner j r = elim (Bool-cases (dep == j)) [
  | inl e ↦
      let q = (eq_iff dep j).0 e in
      let one = In-set_insert (entries_of sets dep) owner r in
      rw (entries_of-add_entry sets dep owner j, e)
        (
          λ i. elim (one.0 i) [
            | inl k ↦ inl (subst (λ x. In r (entries_of sets x)) q k)
            | inr f ↦ inr (f, q)
          ],
          λ i. elim i [
            | inl k ↦ one.1 (inl (subst (λ x. In r (entries_of sets x)) (sym q) k))
            | inr (f, _) ↦ one.1 (inr f)
          ],
        )
  | inr e ↦
      rw (entries_of-add_entry sets dep owner j, e)
        (λ i. inl i, λ i. elim i [ inl k ↦ k | inr (f, q) ↦ absurd (differ e q) ])
]
  where
    differ : dep == j ≡ false → dep ≡ j → ⊥
    differ e q = ground (arith, eq_iff dep j)

In-add_enabled :
    (sets : List (String × List String)) (owner : String) (ps : List (String × Value))
    (j r : String)
    → In r (entries_of (add_enabled sets owner ps) j)
      ↔ In r (entries_of sets j) ⊎ ((owner ≡ r) × In j (enabled_names ps))
unfolding add_enabled
In-add_enabled sets owner [] j r = (λ i. inl i, λ i. elim i [ inl k ↦ k | inr (f, b) ↦ absurd b ])
In-add_enabled sets owner ((dep, val) ∷ ps) j r = elim (Bool-cases (is_enabled val)) [
  | inr off ↦ rw (off, add_enabled) (In-add_enabled sets owner ps j r)
  | inl on ↦
      let both =
        chain (In-add_entry sets dep owner j r)
          (In-add_enabled (add_entry sets dep owner) owner ps j r) in
      rw (on, add_enabled)
        (
          λ i. elim (both.0 i) [
            | inl k ↦ inl k
            | inr (inl (f, q)) ↦ inr (f, inl q)
            | inr (inr (f, k)) ↦ inr (f, inr k)
          ],
          λ i. elim i [
            | inl k ↦ both.1 (inl k)
            | inr (f, inl q) ↦ both.1 (inr (inl (f, q)))
            | inr (f, inr k) ↦ both.1 (inr (inr (f, k)))
          ],
        )
]

-- A component, or a dependency, with the display name `r` that enables the dependency `j`.
abbrev pub ComponentRequires : String → String → String × List (String × Value) → Type 0
ComponentRequires j r (name, deps) = (to_display_name name ≡ r) × In j (enabled_names deps)

abbrev pub DependencyRequires : String → String → String × Dependency → Type 0
DependencyRequires j r (name, dep) =
    (to_display_name name ≡ r) × In j (enabled_names dep.dependencies)

In-add_components :
    (sets : List (String × List String)) (cs : List (String × List (String × Value))) (j r : String)
    → In r (entries_of (add_components sets cs) j)
      ↔ In r (entries_of sets j) ⊎ Some (ComponentRequires j r) cs
unfolding add_components
In-add_components sets [] j r = nothing
In-add_components sets ((name, deps) ∷ cs) j r =
    chain (In-add_enabled sets (to_display_name name) deps j r)
      (In-add_components (add_enabled sets (to_display_name name) deps) cs j r)

In-add_dependencies :
    (sets : List (String × List String)) (ds : List (String × Dependency)) (j r : String)
    → In r (entries_of (add_dependencies sets ds) j)
      ↔ In r (entries_of sets j) ⊎ Some (DependencyRequires j r) ds
unfolding add_dependencies
In-add_dependencies sets [] j r = nothing
In-add_dependencies sets ((name, dep) ∷ ds) j r =
    chain (In-add_enabled sets (to_display_name name) dep.dependencies j r)
      (In-add_dependencies (add_enabled sets (to_display_name name) dep.dependencies) ds j r)

entries_of-sorted :
    (sets : List (String × List String)) (j : String)
    → entries_of (sorted_sets sets) j ≡ sort_by (λ s. s) (entries_of sets j)
unfolding entries_of sort_by
entries_of-sorted [] j = refl
entries_of-sorted ((name, set) ∷ sets) j = elim (Bool-cases (name == j)) [
  | inl e ↦ rw (e, entries_of) refl
  | inr e ↦ rw (e, entries_of) (entries_of-sorted sets j)
]

-- RequiredBy of a dependency names exactly the components and the dependencies that enable it.
pub required_by_iff :
    (m : Manifest) (j r : String)
    → In r (entries_of (build_required_by_map m) j)
      ↔ Some (ComponentRequires j r) m.components ⊎ Some (DependencyRequires j r) m.dependencies
unfolding build_required_by_map entries_of
required_by_iff m j r =
    let both =
      chain (In-add_components [] m.components j r)
        (In-add_dependencies (add_components [] m.components) m.dependencies j r) in
    let sorted =
      In-sort_by (λ s. s) r
        (entries_of (add_dependencies (add_components [] m.components) m.dependencies) j) in
    rw (entries_of-sorted (add_dependencies (add_components [] m.components) m.dependencies) j) (
      λ i. elim (both.0 (sorted.0 i)) [ inl b ↦ absurd b | inr k ↦ k ],
      λ k. sorted.1 (both.1 (inr k)),
    )

pub Some-map_iff :
    {A B : Type 0} (f : A → B) (b : B) (xs : List A) → In b (map f xs) ↔ Some (λ a. f a ≡ b) xs
Some-map_iff f b [] = (λ i. i, λ i. i)
Some-map_iff f b (x ∷ xs) =
    let rest = Some-map_iff f b xs in
    (
      λ i. elim i [ inl e ↦ inl e | inr j ↦ inr (rest.0 j) ],
      λ i. elim i [ inl e ↦ inl e | inr j ↦ inr (rest.1 j) ],
    )

keys_distinct :
    (f : String × Dependency → DependencyInfo) (ds : List (String × Dependency))
    → ((d : String × Dependency) → (f d).name ≡ d.0)
    → HasDistinctKeys (λ (d : String × Dependency). d.0) ds
    → HasDistinctKeys (λ (i : DependencyInfo). i.name) (map f ds)
keys_distinct f [] h k = tt
keys_distinct f (d ∷ ds) h (n, k) = (differ d ds n, keys_distinct f ds h k)
  where
    differ :
        (d : String × Dependency) (es : List (String × Dependency))
        → All (λ e. d.0 ≢ e.0) es
        → All (λ (i : DependencyInfo). (f d).name ≢ i.name) (map f es)
    differ d [] k = tt
    differ d (e ∷ es) (p, k) = (λ q. p (sym (h d) ∙ q ∙ h e), differ d es k)

-- For a manifest whose dependencies have distinct names, GetDependencies lists exactly its entries, in
-- strictly ascending order of their names.
pub get_dependencies_lem :
    (m : Manifest) (i : DependencyInfo)
    → HasDistinctKeys (λ (d : String × Dependency). d.0) m.dependencies
    → (In i (get_dependencies m)
        ↔ Some (λ d. dependency_info (build_required_by_map m) d ≡ i) m.dependencies)
      × IsAscending (λ (x : DependencyInfo). x.name) (get_dependencies m)
unfolding get_dependencies dependency_info
get_dependencies_lem m i h =
    let info = dependency_info (build_required_by_map m) in
    let sorted = In-sort_by (λ (x : DependencyInfo). x.name) i (map info m.dependencies) in
    let listed = Some-map_iff info i m.dependencies in
    (
      (λ j. listed.0 (sorted.0 j), λ j. sorted.1 (listed.1 j)),
      IsAscending-sort_by (λ (x : DependencyInfo). x.name) (map info m.dependencies)
          (keys_distinct info m.dependencies (λ d. refl) h),
    )
