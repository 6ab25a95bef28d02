-- ===== src/Events.antt =====
-- pkg/events: the data of the events command, its options, and the namespaces that it queries.
pub mod Labels
pub mod Listing
pub mod Keys
pub mod Collected
pub mod Filtered
pub mod Newest
pub mod Watch
pub mod Cached
pub mod Sent
pub mod Attempts
pub mod Versions
mod Tests
use odh_cli.Base.{
  ℕ, ◌*◌, String, Bool, not, ◌&&◌, ◌||◌, Option, none, some, List, [], ◌∷◌, ◌++◌, if◌then◌else◌,
  ◌==◌, has, quote, join, lookup,
}
use odh_cli.Base.Sort.{sort_by}
use Prim.Native.String.{◌++◌ as string_append}
use odh_cli.Errors.{Error, StructuredError, structured, no_cause, new_validation_error}
use odh_cli.Errors.Common.{err_no_namespaces_discovered}
use odh_cli.Errors.Returns.{Returns, ok, fail}
use odh_cli.Output.{ℤ, pos}
use odh_cli.Kube.{ResourceType}
use odh_cli.Cmd.{int_ltb, second}

-- clusterhealth.EventInfo, as far as the program reads it; the time is given in nanoseconds since
-- the year 1, which are zero for the zero time.
pub record EventInfo : Type 0 where
  pub namespace : String
  pub name : String
  pub kind : String
  pub reason : String
  pub message : String
  pub count : ℕ
  pub event_type : String
  pub last_time : ℕ

-- Command: the flags, with `flag_namespace` for ConfigFlags.Namespace, and the resolved fields.
pub record EventsCommand : Type 0 where
  pub flag_namespace : Option String
  pub event_type : String
  pub since : ℤ
  pub all_namespaces : Bool
  pub output_format : String
  pub component : String
  pub follow : Bool
  pub namespace : String
  pub namespace_explicit : Bool
  pub applications_ns : String
  pub operator_ns : String
  pub monitoring_ns : String

-- The closure `add` of getTargetNamespaces, on the list; `seen` holds the names of the list.
unfoldable pub add_namespace : List String → String → List String
add_namespace namespaces ns =
    if not (ns == "") && not (has namespaces ns) then namespaces ++ ns ∷ [] else namespaces

abbrev pub or_not_discovered : List String → Returns (List String)
or_not_discovered [] = fail (structured err_no_namespaces_discovered no_cause)
or_not_discovered (ns ∷ nss) = ok (ns ∷ nss)

-- getTargetNamespaces
unfoldable pub get_target_namespaces : EventsCommand → Returns (List String)
unfolding add_namespace err_no_namespaces_discovered
get_target_namespaces c =
    if c.namespace_explicit && not (c.namespace == "")
    then ok (c.namespace ∷ [])
    else or_not_discovered (
        add_namespace (add_namespace (add_namespace [] c.applications_ns) c.operator_ns)
          c.monitoring_ns)

-- newComponentCR
unfoldable pub new_component_cr : String → String → ResourceType
new_component_cr resource kind = record {
  group = "components.platform.opendatahub.io";
  version = "v1alpha1";
  kind = kind;
  resource = resource;
}

-- ComponentCRResourceTypes
unfoldable pub component_cr_resource_types : List (String × ResourceType)
unfolding new_component_cr
component_cr_resource_types =
    ("aigateway", new_component_cr "aigateways" "AIGateway")
    ∷ ("aipipelines", new_component_cr "datasciencepipelines" "DataSciencePipelines")
    ∷ ("dashboard", new_component_cr "dashboards" "Dashboard")
    ∷ ("feastoperator", new_component_cr "feastoperators" "FeastOperator")
    ∷ ("kserve", new_component_cr "kserves" "Kserve")
    ∷ ("llamastackoperator", new_component_cr "llamastackoperators" "LlamaStackOperator")
    ∷ ("mlflowoperator", new_component_cr "mlflowoperators" "MLflowOperator")
    ∷ ("modelregistry", new_component_cr "modelregistries" "ModelRegistry")
    ∷ ("ray", new_component_cr "rays" "Ray")
    ∷ ("sparkoperator", new_component_cr "sparkoperators" "SparkOperator")
    ∷ ("trainer", new_component_cr "trainers" "Trainer")
    ∷ ("trainingoperator", new_component_cr "trainingoperators" "TrainingOperator")
    ∷ ("trustyai", new_component_cr "trustyais" "TrustyAI")
    ∷ ("workbenches", new_component_cr "workbenches" "Workbenches")
    ∷ []

-- GetComponentCR
unfoldable pub get_component_cr : String → Option ResourceType
unfolding component_cr_resource_types
get_component_cr name = lookup component_cr_resource_types name

abbrev pub keys : {V : Type 0} → List (String × V) → List String
keys [] = []
keys ((k, v) ∷ m) = k ∷ keys m

-- ValidComponents, which is also ComponentNames
unfoldable pub valid_components : List String
unfolding component_cr_resource_types
valid_components = sort_by (λ s. s) (keys component_cr_resource_types)

abbrev pub is_set : Option String → Bool
is_set none = Bool.false
is_set (some s) = not (s == "")

abbrev pub is_unknown_component : EventsCommand → Option ResourceType → Bool
is_unknown_component c none = not (c.component == "")
is_unknown_component c (some rt) = Bool.false

abbrev pub invalid : String → String → String → Option Error
invalid code message suggestion =
    some (structured (new_validation_error code message suggestion) no_cause)

-- Validate; `print` is `%v` of a duration.
unfoldable pub validate : (ℤ → String) → EventsCommand → Option Error
unfolding get_component_cr valid_components
validate print c =
    if c.all_namespaces && is_set c.flag_namespace
    then invalid "INVALID_FLAGS" "--all-namespaces and --namespace are mutually exclusive"
        "Use either -A or -n <namespace>, not both"
    else if not (has ("table" ∷ "json" ∷ "yaml" ∷ []) c.output_format)
    then invalid "INVALID_OUTPUT_FORMAT"
        (string_append "invalid output format " (quote c.output_format))
        "Use one of: table, json, yaml"
    else if not (c.event_type == "")
        && (not (c.event_type == "Warning") && not (c.event_type == "Normal"))
    then invalid "INVALID_EVENT_TYPE" (string_append "invalid event type " (quote c.event_type))
        "Use --type Warning or --type Normal"
    else if int_ltb c.since (pos 0)
    then invalid "INVALID_DURATION" "--since must be a non-negative duration"
        "Use 0 or a positive value like --since 5m or --since 1h"
    else if int_ltb (pos (86400 * second)) c.since
    then invalid "INVALID_DURATION"
        (string_append "--since duration "
          (string_append (print c.since) " exceeds maximum of 24h"))
        "Use --since with values like 5m, 1h, or 24h"
    else if is_unknown_component c (get_component_cr c.component)
    then invalid "INVALID_COMPONENT" (string_append "invalid component " c.component)
        (string_append "Use one of: " (join ", " valid_components))
    else if c.follow && not (c.output_format == "table")
    then invalid "INVALID_FLAGS" "--follow is only supported with table output"
        "Remove -o json or -o yaml when using -f"
    else none
