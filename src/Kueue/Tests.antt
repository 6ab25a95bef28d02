-- ===== src/Kueue/Tests.antt =====
-- The theorems on the Kueue check at a small namespace, whose ownership has a cycle.
use odh_cli.Base.{
  set_insert, ◌≡◌, ◌↔◌, refl, String, List, [], ◌∷◌, Option, none, some, false, ◌==◌, if◌then◌else◌,
  All, Some, In,
}
use odh_cli.Kube.{ObjectMetadata, api_version_of}
use odh_cli.Lint.Check.{ok}
use odh_cli.Kueue.{Reader, NotFoundErrors, intermediate_types, queue_name_label}
use odh_cli.Kueue.Graph.{
  GraphNode, OwnershipGraph, children_of, new_graph_node, add_child, add_owners, add_items,
  build_from, build_graph, walk_subtree,
}
use odh_cli.Kueue.Walk.{IsDescendant, walk_subtree_lem}
use odh_cli.Kueue.Owners.{IsOwnedType, build_graph_iff}
use odh_cli.Kueue.Invariants.{Violation, violation_of, check_owner_tree_consistency}
use odh_cli.Kueue.Agreement.{IsConsistent, check_owner_tree_consistency_iff}
use odh_cli.Kueue.Check.{list_from, list_workloads_in_namespace, check_namespace}
use odh_cli.Kueue.Verdicts.{IsSound, check_namespace_iff}
use odh_cli.Lint.Result.{DiagnosticResult, is_failing}
use odh_cli.Kueue.Namespaces.{
  enabled_from, kueue_enabled_namespaces, labeled_from, workload_labeled_namespaces, set_union,
}
use odh_cli.Kueue.Validate.{validate_kueue}
use odh_cli.Kueue.Diagnosis.{IsSoundNamespace, validate_kueue_iff}

abbrev object : String → String → List (String × String) → List String → ObjectMetadata
object uid name labels owners = record {
  kind = "PartialObjectMetadata";
  api_version = "meta.k8s.io/v1";
  uid = uid;
  namespace = "demo";
  name = name;
  labels = labels;
  annotations = [];
  owners = owners;
}

abbrev queued : List (String × String)
queued = (queue_name_label, "gpu") ∷ []

-- A notebook owns a stateful set, which owns a pod that claims to own the stateful set.
abbrev reader : Reader
reader rt opt =
    if rt.kind == "Notebook"
    then ok (object "u1" "nb" queued [] ∷ [])
    else if rt.kind == "StatefulSet"
    then ok (object "u2" "nb" queued ("u1" ∷ "u3" ∷ []) ∷ [])
    else if rt.kind == "Pod"
    then ok (object "u3" "nb-0" [] ("u2" ∷ []) ∷ [])
    else ok []

abbrev no_errors : NotFoundErrors
no_errors = record { is_no_match_error = λ e. false; is_not_found = λ e. false }

abbrev stateful_set : GraphNode
unfolding new_graph_node
stateful_set = new_graph_node (object "u2" "nb" queued ("u1" ∷ "u3" ∷ [])) "StatefulSet"

abbrev pod : GraphNode
unfolding new_graph_node
pod = new_graph_node (object "u3" "nb-0" [] ("u2" ∷ [])) "Pod"

abbrev demo_graph : OwnershipGraph
demo_graph = ("u1", stateful_set ∷ []) ∷ ("u3", stateful_set ∷ []) ∷ ("u2", pod ∷ []) ∷ []

build_demo : build_graph no_errors reader "demo" ≡ ok demo_graph
unfolding build_graph build_from add_items add_owners add_child new_graph_node
build_demo = refl

walk_subtree_lem_example :
    (r : List GraphNode) × (walk_subtree demo_graph "u1" ≡ some r)
    × ((n : GraphNode) → In n r ↔ IsDescendant demo_graph "u1" n)
walk_subtree_lem_example = walk_subtree_lem demo_graph "u1"

build_graph_iff_example :
    In pod (children_of demo_graph "u2")
    ↔ Some (IsOwnedType reader "demo" "u2" pod) intermediate_types
build_graph_iff_example = build_graph_iff no_errors reader "demo" demo_graph "u2" pod build_demo

abbrev notebook : ObjectMetadata
notebook = record {
  kind = "Notebook";
  api_version = "kubeflow.org/v1";
  uid = "u1";
  namespace = "demo";
  name = "nb";
  labels = queued;
  annotations = [];
  owners = [];
}

check_owner_tree_consistency_iff_example :
    (answer : Option Violation) × (check_owner_tree_consistency notebook demo_graph ≡ some answer)
    × (answer ≡ none ↔ IsConsistent demo_graph notebook)
check_owner_tree_consistency_iff_example = check_owner_tree_consistency_iff notebook demo_graph

list_demo : list_workloads_in_namespace no_errors reader "demo" ≡ ok (notebook ∷ [])
unfolding list_workloads_in_namespace list_from api_version_of
list_demo = refl

check_namespace_iff_example :
    (vs : List Violation) × (check_namespace no_errors reader "demo" ("demo" ∷ []) ≡ some (ok vs))
    × (vs ≡ [] ↔ All (IsSound ("demo" ∷ []) demo_graph) (notebook ∷ []))
check_namespace_iff_example =
    check_namespace_iff no_errors reader "demo" ("demo" ∷ []) (notebook ∷ []) demo_graph list_demo
      build_demo

abbrev twice : List Violation
unfolding violation_of
twice = violation_of notebook "first" ∷ violation_of notebook "second" ∷ []

validate_kueue_iff_example :
    (r : DiagnosticResult) × (validate_kueue no_errors reader (some "3.0.0") ≡ some (ok r))
    × (is_failing r.conditions ≡ false
        ↔ All (IsSoundNamespace no_errors reader []) (set_union [] ("demo" ∷ [])))
unfolding kueue_enabled_namespaces enabled_from workload_labeled_namespaces labeled_from set_insert
validate_kueue_iff_example =
    validate_kueue_iff no_errors reader (some "3.0.0") [] ("demo" ∷ []) refl refl
      ((notebook ∷ [], demo_graph, list_demo, build_demo), tt)
