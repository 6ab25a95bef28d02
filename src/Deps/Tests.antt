-- ===== src/Deps/Tests.antt =====
-- The theorems on the dependency manifest at a small manifest with a cycle.
use odh_cli.Base.{
  ◌≡◌, ◌↔◌, ◌⊎◌, true, false, String, none, some, List, [], ◌∷◌, suc, length, ◌==◌, if◌then◌else◌,
  has, All, Some, In, arith, eq_iff,
}
use odh_cli.Base.Graph.{Reach}
use odh_cli.Base.Sort.{HasDistinctKeys}
use odh_cli.Deps.{
  bool_value, string_value, other_value, OlmConfig, Dependency, Manifest, Value, validate,
}
use odh_cli.Deps.Graph.{collect_transitive_deps, transitive_names}
use odh_cli.Deps.Closure.{direct_deps, collect_transitive_deps_lem}
use odh_cli.Deps.Shown.{IsShown, transitive_names_lem}
use odh_cli.Deps.Listing.{entries_of, build_required_by_map, DependencyInfo, dependency_info}
use odh_cli.Deps.RequiredBy.{ComponentRequires, DependencyRequires, required_by_iff}
use odh_cli.Deps.Trusted.{IsTrusted, validate_iff}

abbrev config : String → String → List String → OlmConfig
config name source targets = record {
  channel = "stable";
  name = name;
  namespace = "openshift-";
  source = source;
  target_namespaces = targets;
}

abbrev dependency : OlmConfig → List (String × Value) → Dependency
dependency olm deps = record { enabled = "auto"; olm = olm; dependencies = deps }

abbrev deps : List (String × Dependency)
deps =
    (
      "serviceMesh",
      dependency (config "mesh" "" ("openshift-" ∷ []))
          (("authorino", bool_value true) ∷ ("tempo", other_value) ∷ []),
    )
    ∷ (
      "authorino",
      dependency (config "authorino" "redhat-operators" [])
          (("serviceMesh", string_value "auto") ∷ ("certManager", string_value "true") ∷ []),
    )
    ∷ []

abbrev manifest : Manifest
manifest = record {
  dependencies = deps;
  components = ("kserve", ("serviceMesh", bool_value true) ∷ ("tempo", bool_value false) ∷ []) ∷ [];
}

deps-HasDistinctKeys : HasDistinctKeys (λ (d : String × Dependency). d.0) deps
deps-HasDistinctKeys = ((λ e. ground (arith, eq_iff "serviceMesh" "authorino"), tt), (tt, tt))

collect_transitive_deps_lem_example :
    (visited : List String) × (collect_transitive_deps deps (suc (length deps)) "serviceMesh" []
      ≡ some visited)
    × ((x : String) → has visited x ≡ true ↔ Reach (direct_deps deps) "serviceMesh" x)
collect_transitive_deps_lem_example = collect_transitive_deps_lem deps "serviceMesh"

transitive_names_lem_example :
    (names : List String) × (transitive_names deps "serviceMesh" ≡ some names)
    × ((r : String) → In r names ↔ ((x : String) × IsShown deps "serviceMesh" r x))
transitive_names_lem_example = transitive_names_lem deps "serviceMesh"

required_by_iff_example :
    In "KServe" (entries_of (build_required_by_map manifest) "serviceMesh")
    ↔ Some (ComponentRequires "serviceMesh" "KServe") manifest.components
      ⊎ Some (DependencyRequires "serviceMesh" "KServe") manifest.dependencies
required_by_iff_example = required_by_iff manifest "serviceMesh" "KServe"

abbrev mesh_info : DependencyInfo
unfolding dependency_info
mesh_info = dependency_info (build_required_by_map manifest) (
  "serviceMesh",
  dependency (config "mesh" "" ("openshift-" ∷ []))
      (("authorino", bool_value true) ∷ ("tempo", other_value) ∷ []),
)

-- Stands for validation.IsDNS1123Label: it refuses the empty text.
abbrev label_errors : String → List String
label_errors s = if s == "" then "must not be empty" ∷ [] else []

validate_iff_example :
    validate label_errors deps ≡ none ↔ All (λ d. IsTrusted label_errors d.1.olm) deps
validate_iff_example = validate_iff label_errors deps
