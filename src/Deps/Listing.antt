-- ===== src/Deps/Listing.antt =====
-- pkg/deps/manifest.go: the flat list of dependencies with the components that require each.
use odh_cli.Base.{
  String, Option, none, some, List, [], ◌∷◌, map, if◌then◌else◌, lookup, insert, set_insert,
}
use odh_cli.Base.Sort.{sort_by}
use odh_cli.Deps.{Value, Dependency, Manifest, is_enabled, to_display_name}

-- The set of a name in a map of sets; of a missing key, the empty set.
abbrev pub set_of : Option (List String) → List String
set_of none = []
set_of (some set) = set

unfoldable pub entries_of : List (String × List String) → String → List String
entries_of sets name = set_of (lookup sets name)

-- addEntry
unfoldable pub add_entry :
    List (String × List String) → String → String → List (String × List String)
unfolding entries_of set_insert
add_entry sets dep required_by = insert sets dep (set_insert (entries_of sets dep) required_by)

-- The loop over the dependencies of one component or one entry, whose display name is `owner`.
unfoldable pub add_enabled :
    List (String × List String) → String → List (String × Value) → List (String × List String)
unfolding add_entry is_enabled
add_enabled sets owner [] = sets
add_enabled sets owner ((dep, val) ∷ rest) =
    add_enabled (if is_enabled val then add_entry sets dep owner else sets) owner rest

unfoldable pub add_components :
    List (String × List String)
    → List (String × List (String × Value))
    → List (String × List String)
unfolding add_enabled to_display_name
add_components sets [] = sets
add_components sets ((name, deps) ∷ rest) =
    add_components (add_enabled sets (to_display_name name) deps) rest

unfoldable pub add_dependencies :
    List (String × List String) → List (String × Dependency) → List (String × List String)
unfolding add_enabled to_display_name
add_dependencies sets [] = sets
add_dependencies sets ((name, dep) ∷ rest) =
    add_dependencies (add_enabled sets (to_display_name name) dep.dependencies) rest

-- `for … { result[depName] = sets.List(set) }`
abbrev pub sorted_sets : List (String × List String) → List (String × List String)
unfolding sort_by
sorted_sets [] = []
sorted_sets ((name, set) ∷ sets) = (name, sort_by (λ s. s) set) ∷ sorted_sets sets

-- buildRequiredByMap
unfoldable pub build_required_by_map : Manifest → List (String × List String)
unfolding add_components add_dependencies
build_required_by_map m =
    sorted_sets (add_dependencies (add_components [] m.components) m.dependencies)

pub record DependencyInfo : Type 0 where
  pub name : String
  pub display_name : String
  pub enabled : String
  pub subscription : String
  pub namespace : String
  pub channel : String
  pub source : String
  pub target_namespaces : List String
  pub required_by : List String

unfoldable pub dependency_info : List (String × List String) → String × Dependency → DependencyInfo
unfolding entries_of to_display_name
dependency_info required_by (name, dep) = record {
  name = name;
  display_name = to_display_name name;
  enabled = dep.enabled;
  subscription = dep.olm.name;
  namespace = dep.olm.namespace;
  channel = dep.olm.channel;
  source = dep.olm.source;
  target_namespaces = dep.olm.target_namespaces;
  required_by = entries_of required_by name;
}

-- GetDependencies
unfoldable pub get_dependencies : Manifest → List DependencyInfo
unfolding build_required_by_map dependency_info sort_by
get_dependencies m =
    sort_by (λ (i : DependencyInfo). i.name)
      (map (dependency_info (build_required_by_map m)) m.dependencies)
