-- ===== src/Deps/Graph.antt =====
-- pkg/deps/graph.go: the transitive dependencies of a dependency.
use odh_cli.Base.{
  ℕ, zero, suc, String, not, Option, none, some, List, [], ◌∷◌, map, keep, if◌then◌else◌, ◌==◌, has,
  lookup, length,
}
use odh_cli.Base.Sort.{sort_by}
use odh_cli.Deps.{Value, Dependency, is_enabled, to_display_name}

-- The loop of collectTransitiveDeps over the dependencies of one entry, with the recursive call `go`.
unfoldable pub collect_each :
    (String → List String → Option (List String))
    → List (String × Value)
    → List String
    → Option (List String)
unfolding is_enabled
collect_each go [] visited = some visited
collect_each go ((name, val) ∷ rest) visited =
    elim (if is_enabled val then go name visited else some visited) [
      | none ↦ none
      | some more ↦ collect_each go rest more
    ]

-- collectTransitiveDeps: it returns the set that the code changes in place; `none` is lack of fuel.
unfoldable pub collect_transitive_deps :
    List (String × Dependency) → ℕ → String → List String → Option (List String)
unfolding collect_each
collect_transitive_deps deps zero name visited = none
collect_transitive_deps deps (suc fuel) name visited =
    let go = collect_transitive_deps deps fuel in
    if has visited name then some visited else elim (lookup deps name) [
      | none ↦ some (name ∷ visited)
      | some dep ↦ collect_each go dep.dependencies (name ∷ visited)
    ]

-- The names that buildDepMap shows for one dependency: each nested call visits a name of the manifest,
-- so one round for each and one more is enough.
unfoldable pub transitive_names : List (String × Dependency) → String → Option (List String)
unfolding collect_transitive_deps
transitive_names deps name = elim (collect_transitive_deps deps (suc (length deps)) name []) [
  | none ↦ none
  | some visited ↦ some (map to_display_name (keep (λ s. not (s == name)) visited))
]

abbrev pub with_entry :
    String
    → Option (List String)
    → Option (List (String × List String))
    → Option (List (String × List String))
with_entry name (some names) (some rest) = some ((name, sort_by (λ s. s) names) ∷ rest)
with_entry name _ _ = none

-- buildDepMap
unfoldable pub build_dep_map_from :
    List (String × Dependency) → List (String × Dependency) → Option (List (String × List String))
unfolding transitive_names
build_dep_map_from deps [] = some []
build_dep_map_from deps ((name, dep) ∷ rest) =
    with_entry name (transitive_names deps name) (build_dep_map_from deps rest)

unfoldable pub build_dep_map : List (String × Dependency) → Option (List (String × List String))
unfolding build_dep_map_from
build_dep_map deps = build_dep_map_from deps deps
