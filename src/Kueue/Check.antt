-- ===== src/Kueue/Check.antt =====
-- check.go: the invariants of all workloads of a namespace, and the objects that a violation names.
use odh_cli.Base.{
  String, Option, none, some, List, [], ◌∷◌, ◌&&◌, ◌++◌, any, if◌then◌else◌, ◌==◌, Bool,
}
use Prim.Native.String as Str
use odh_cli.Errors.{wrapped}
use odh_cli.Kube.{ObjectMetadata, ResourceType, api_version_of}
use odh_cli.Lint.Check.{Returns, ok, fail}
use odh_cli.Kueue.{
  with_namespace, Reader, NotFoundErrors, is_resource_type_not_found, monitored_workload_types,
}
use odh_cli.Kueue.Graph.{OwnershipGraph, build_graph}
use odh_cli.Kueue.Invariants.{
  Violation, check_namespace_to_workload, check_workload_to_namespace, check_owner_tree_consistency,
}

-- A copy of an item, with the TypeMeta of the type it was listed by.
abbrev pub typed : ResourceType → ObjectMetadata → ObjectMetadata
unfolding api_version_of
typed rt item = record {
  kind = rt.kind;
  api_version = api_version_of rt;
  uid = item.uid;
  namespace = item.namespace;
  name = item.name;
  labels = item.labels;
  annotations = item.annotations;
  owners = item.owners;
}

abbrev pub append_typed :
    ResourceType → List ObjectMetadata → List ObjectMetadata → List ObjectMetadata
append_typed rt all [] = all
append_typed rt all (item ∷ items) = append_typed rt (all ++ typed rt item ∷ []) items

unfoldable pub list_from :
    NotFoundErrors
    → Reader
    → String
    → List ResourceType
    → List ObjectMetadata
    → Returns (List ObjectMetadata)
unfolding is_resource_type_not_found
list_from api read namespace [] all = ok all
list_from api read namespace (rt ∷ rts) all = elim (read rt (with_namespace namespace)) [
  | ok items ↦ list_from api read namespace rts (append_typed rt all items)
  | fail err ↦
      if is_resource_type_not_found api err
      then list_from api read namespace rts all
      else fail (
          wrapped
            (Str.◌++◌ "listing "
              (Str.◌++◌ rt.kind (Str.◌++◌ " in namespace " (Str.◌++◌ namespace ": "))))
            err "")
]

-- listWorkloadsInNamespace
unfoldable pub list_workloads_in_namespace :
    NotFoundErrors → Reader → String → Returns (List ObjectMetadata)
unfolding list_from
list_workloads_in_namespace api read namespace =
    list_from api read namespace monitored_workload_types []

-- The body of the loop of checkNamespace: the first invariant that fails is the one that is reported.
-- The outer `none` is lack of fuel in the walk.
unfoldable pub check_workload :
    List String → OwnershipGraph → ObjectMetadata → Option (Option Violation)
unfolding check_namespace_to_workload check_workload_to_namespace check_owner_tree_consistency
check_workload namespaces graph cr = elim (check_namespace_to_workload cr namespaces) [
  | some v ↦ some (some v)
  | none ↦ elim (check_workload_to_namespace cr namespaces) [
    | some v ↦ some (some v)
    | none ↦ check_owner_tree_consistency cr graph
  ]
]

-- The loop of checkNamespace.
unfoldable pub check_workloads :
    List String → OwnershipGraph → List ObjectMetadata → List Violation → Option (List Violation)
unfolding check_workload
check_workloads namespaces graph [] violations = some violations
check_workloads namespaces graph (cr ∷ crs) violations = elim (check_workload namespaces graph cr) [
  | none ↦ none
  | some none ↦ check_workloads namespaces graph crs violations
  | some (some v) ↦ check_workloads namespaces graph crs (violations ++ v ∷ [])
]

-- checkNamespace
unfoldable pub check_namespace :
    NotFoundErrors → Reader → String → List String → Option (Returns (List Violation))
unfolding check_workloads list_workloads_in_namespace build_graph
check_namespace api read namespace namespaces =
    elim (list_workloads_in_namespace api read namespace) [
      | fail err ↦ some (fail err)
      | ok [] ↦ some (ok [])
      | ok (cr ∷ crs) ↦ elim (build_graph api read namespace) [
        | fail err ↦ some (fail (wrapped "building ownership graph: " err ""))
        | ok graph ↦ elim (check_workloads namespaces graph (cr ∷ crs) []) [
          | none ↦ none
          | some violations ↦ some (ok violations)
        ]
      ]
    ]

-- Two violations with one resourceKey.
abbrev pub same_key : Violation → Violation → Bool
same_key v w =
    v.kind == w.kind
    && (v.api_version == w.api_version
        && (v.resource.namespace == w.resource.namespace && v.resource.name == w.resource.name))

-- uniqueResources: an impactedResource is the violation that it was first seen in.
unfoldable pub unique_from : List Violation → List Violation → List Violation
unique_from unique [] = unique
unique_from unique (v ∷ vs) =
    unique_from (if any (same_key v) unique then unique else unique ++ v ∷ []) vs

unfoldable pub unique_resources : List Violation → List Violation
unfolding unique_from
unique_resources violations = unique_from [] violations
