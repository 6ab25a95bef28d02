-- ===== src/Kueue/Invariants.antt =====
-- invariants.go: the three invariants of a monitored workload, each with the violation that it reports.
use odh_cli.Base.{String, Option, none, some, List, [], ◌∷◌, not, if◌then◌else◌, ◌==◌, has, lookup}
use Prim.Native.String.{◌++◌}
use odh_cli.Errors.{is_some}
use odh_cli.Kube.{ObjectMetadata, NamespacedName}
use odh_cli.Kueue.{queue_name_label}
use odh_cli.Kueue.Graph.{GraphNode, OwnershipGraph, walk_subtree}

pub record Violation : Type 0 where
  pub resource : NamespacedName
  pub kind : String
  pub api_version : String
  pub message : String

unfoldable pub violation_of : ObjectMetadata → String → Violation
violation_of cr message = record {
  resource = record { namespace = cr.namespace; name = cr.name };
  kind = cr.kind;
  api_version = cr.api_version;
  message = message;
}

-- "%s %s/%s"
abbrev pub spelled : String → String → String → String
spelled kind namespace name = kind ++ (" " ++ (namespace ++ ("/" ++ name)))

-- msgInvariant1
abbrev pub message_1 : ObjectMetadata → String
message_1 cr =
    spelled cr.kind cr.namespace cr.name
    ++ (" is in kueue-managed namespace "
        ++ (cr.namespace ++ " but missing kueue.x-k8s.io/queue-name label"))

-- msgInvariant2
abbrev pub message_2 : ObjectMetadata → String → String
message_2 cr queue_name =
    spelled cr.kind cr.namespace cr.name
    ++ (" has kueue.x-k8s.io/queue-name=" ++ (queue_name ++ " but namespace is not kueue-managed"))

-- msgInvariant3Missing
abbrev pub message_3_missing : ObjectMetadata → String → GraphNode → String
message_3_missing cr root_value d =
    spelled cr.kind cr.namespace cr.name
    ++ (" has kueue.x-k8s.io/queue-name="
        ++ (root_value
            ++ (" but descendant "
                ++ (spelled d.kind d.namespace d.name ++ " is missing the label"))))

-- msgInvariant3Unexpected
abbrev pub message_3_unexpected : ObjectMetadata → GraphNode → String → String
message_3_unexpected cr d child_value =
    spelled d.kind d.namespace d.name
    ++ (" has kueue.x-k8s.io/queue-name="
        ++ (child_value
            ++ (" but ancestor "
                ++ (spelled cr.kind cr.namespace cr.name ++ " does not have the label"))))

-- msgInvariant3Mismatch
abbrev pub message_3_mismatch : ObjectMetadata → String → GraphNode → String → String
message_3_mismatch cr root_value d child_value =
    spelled d.kind d.namespace d.name
    ++ (" has kueue.x-k8s.io/queue-name="
        ++ (child_value
            ++ (" but root "
                ++ (spelled cr.kind cr.namespace cr.name
                    ++ (" has kueue.x-k8s.io/queue-name=" ++ root_value)))))

-- checkNamespaceToWorkload
unfoldable pub check_namespace_to_workload : ObjectMetadata → List String → Option Violation
unfolding violation_of
check_namespace_to_workload cr namespaces =
    if not (has namespaces cr.namespace)
    then none
    else if is_some (lookup cr.labels queue_name_label)
    then none
    else some (violation_of cr (message_1 cr))

-- checkWorkloadToNamespace
unfoldable pub check_workload_to_namespace : ObjectMetadata → List String → Option Violation
unfolding violation_of
check_workload_to_namespace cr namespaces = elim (lookup cr.labels queue_name_label) [
  | none ↦ none
  | some queue_name ↦
      if has namespaces cr.namespace then none else some (violation_of cr (message_2 cr queue_name))
]

-- The switch for one descendant, on the label of the root and on its own.
unfoldable pub disagreement :
    ObjectMetadata → Option String → GraphNode → Option String → Option Violation
unfolding violation_of
disagreement cr (some root_value) d none =
    some (violation_of cr (message_3_missing cr root_value d))
disagreement cr none d (some child_value) =
    some (violation_of cr (message_3_unexpected cr d child_value))
disagreement cr (some root_value) d (some child_value) =
    if root_value == child_value
    then none
    else some (violation_of cr (message_3_mismatch cr root_value d child_value))
disagreement cr none d none = none

-- The loop over the descendants.
unfoldable pub first_disagreement : ObjectMetadata → List GraphNode → Option Violation
unfolding disagreement
first_disagreement cr [] = none
first_disagreement cr (d ∷ ds) =
    let rest = first_disagreement cr ds in
    elim (disagreement cr (lookup cr.labels queue_name_label) d
      (lookup d.labels queue_name_label)) [ some v ↦ some v | none ↦ rest ]

-- checkOwnerTreeConsistency; the outer `none` is lack of fuel, which walkSubtree never meets.
unfoldable pub check_owner_tree_consistency :
    ObjectMetadata → OwnershipGraph → Option (Option Violation)
unfolding walk_subtree first_disagreement
check_owner_tree_consistency cr graph = elim (walk_subtree graph cr.uid) [
  | none ↦ none
  | some descendants ↦ some (first_disagreement cr descendants)
]
