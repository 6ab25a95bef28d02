-- ===== src/Kueue/Namespaces.antt =====
-- discovery: the namespaces that Kueue manages and those that hold labelled workloads. A set of names
-- is a list; sets.List is its sorted list without repetitions.
use odh_cli.Base.{String, List, [], ◌∷◌, if◌then◌else◌, set_insert}
use Prim.Native.String.{◌++◌}
use odh_cli.Errors.{wrapped}
use odh_cli.Kube.{ObjectMetadata, ResourceType}
use odh_cli.Lint.Check.{Returns, ok, fail}
use odh_cli.Kueue.{
  with_label_selector, Reader, NotFoundErrors, is_resource_type_not_found, resource_type,
  monitored_workload_types, queue_name_label,
}

-- `for … { set.Insert(ns.GetName()) }`
abbrev pub insert_names : List String → List ObjectMetadata → List String
unfolding set_insert
insert_names set [] = set
insert_names set (item ∷ items) = insert_names (set_insert set item.name) items

-- `for … { set.Insert(item.GetNamespace()) }`
abbrev pub insert_namespaces : List String → List ObjectMetadata → List String
unfolding set_insert
insert_namespaces set [] = set
insert_namespaces set (item ∷ items) = insert_namespaces (set_insert set item.namespace) items

-- a.Union(b)
abbrev pub set_union : List String → List String → List String
unfolding set_insert
set_union a [] = a
set_union a (s ∷ b) = set_union (set_insert a s) b

abbrev pub namespace_type : ResourceType
namespace_type = resource_type "" "v1" "Namespace" "namespaces"

abbrev pub kueue_selectors : List String
kueue_selectors = "kueue-managed=true" ∷ "kueue.openshift.io/managed=true" ∷ []

unfoldable pub enabled_from : Reader → List String → List String → Returns (List String)
enabled_from read [] enabled = ok enabled
enabled_from read (selector ∷ selectors) enabled =
    elim (read namespace_type (with_label_selector selector)) [
      | ok items ↦ enabled_from read selectors (insert_names enabled items)
      | fail err ↦ fail (wrapped "listing kueue-enabled namespaces: " err "")
    ]

-- KueueEnabledNamespaces
unfoldable pub kueue_enabled_namespaces : Reader → Returns (List String)
unfolding enabled_from
kueue_enabled_namespaces read = enabled_from read kueue_selectors []

unfoldable pub labeled_from :
    NotFoundErrors → Reader → List ResourceType → List String → Returns (List String)
unfolding is_resource_type_not_found
labeled_from api read [] namespaces = ok namespaces
labeled_from api read (rt ∷ rts) namespaces =
    elim (read rt (with_label_selector queue_name_label)) [
      | ok items ↦ labeled_from api read rts (insert_namespaces namespaces items)
      | fail err ↦
          if is_resource_type_not_found api err
          then labeled_from api read rts namespaces
          else fail (wrapped ("listing " ++ (rt.kind ++ " with kueue label: ")) err "")
    ]

-- WorkloadLabeledNamespaces
unfoldable pub workload_labeled_namespaces : NotFoundErrors → Reader → Returns (List String)
unfolding labeled_from
workload_labeled_namespaces api read = labeled_from api read monitored_workload_types []
