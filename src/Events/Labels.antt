-- ===== src/Events/Labels.antt =====
-- The component labels of the objects that events are about (pkg/events/filter.go, and
-- GetComponentLabelValue of pkg/resources/component_crs.go).
use odh_cli.Base.{
  String, Bool, false, Option, none, some, List, [], ◌∷◌, if◌then◌else◌, ◌==◌, lookup,
}
use odh_cli.Base.Strings.{or_text}
use Prim.Native.String.{◌++◌}
use odh_cli.Errors.{wrapped}
use odh_cli.Errors.Returns.{Returns, ok, fail}
use odh_cli.Client.{NotFoundErrors}
use odh_cli.Kube.{ResourceType}

-- schema.GroupVersionResource
pub record GroupVersionResource : Type 0 where
  pub group : String
  pub version : String
  pub resource : String

-- ResourceType.GVR
unfoldable pub gvr_of : ResourceType → GroupVersionResource
gvr_of rt = record { group = rt.group; version = rt.version; resource = rt.resource }

abbrev resource_type : String → String → String → String → ResourceType
resource_type group version kind resource = record {
  group = group;
  version = version;
  kind = kind;
  resource = resource;
}

-- kindToGVRMap
unfoldable pub kind_to_gvr_map : List (String × ResourceType)
kind_to_gvr_map =
    ("Pod", resource_type "" "v1" "Pod" "pods")
    ∷ ("Deployment", resource_type "apps" "v1" "Deployment" "deployments")
    ∷ ("ReplicaSet", resource_type "apps" "v1" "ReplicaSet" "replicasets")
    ∷ ("StatefulSet", resource_type "apps" "v1" "StatefulSet" "statefulsets")
    ∷ ("DaemonSet", resource_type "apps" "v1" "DaemonSet" "daemonsets")
    ∷ ("Service", resource_type "" "v1" "Service" "services")
    ∷ ("ConfigMap", resource_type "" "v1" "ConfigMap" "configmaps")
    ∷ ("Secret", resource_type "" "v1" "Secret" "secrets")
    ∷ ("Job", resource_type "batch" "v1" "Job" "jobs")
    ∷ []

abbrev gvr_or_empty : Option ResourceType → GroupVersionResource
gvr_or_empty none = record { group = ""; version = ""; resource = "" }
gvr_or_empty (some rt) = record { group = rt.group; version = rt.version; resource = rt.resource }

-- kindToGVR
unfoldable pub kind_to_gvr : String → GroupVersionResource
unfolding kind_to_gvr_map gvr_of
kind_to_gvr kind = gvr_or_empty (lookup kind_to_gvr_map kind)

-- componentLabelOverrides
unfoldable pub component_label_overrides : List (String × String)
component_label_overrides =
    ("aipipelines", "data-science-pipelines-operator")
    ∷ ("modelregistry", "model-registry-operator")
    ∷ []

-- GetComponentLabelValue
unfoldable pub get_component_label_value : String → String
unfolding component_label_overrides
get_component_label_value component = or_text (lookup component_label_overrides component) component

-- labelLookup
pub record LabelLookup : Type 0 where
  pub namespace : String
  pub kind : String
  pub name : String

-- componentCacheKey
unfoldable pub component_cache_key : String → LabelLookup → String
component_cache_key target l =
    target ++ ("/" ++ (l.namespace ++ ("/" ++ (l.kind ++ ("/" ++ l.name)))))

-- Get of the dynamic client, in a namespace or, for "", on the cluster: the labels of the object.
abbrev pub LabelReader : Type 0
LabelReader = GroupVersionResource → String → String → Returns (List (String × String))

-- The test on the labels of an object, or what the error of the read means.
abbrev pub by_labels :
    NotFoundErrors
    → GroupVersionResource
    → LabelLookup
    → String
    → Returns (List (String × String))
    → Returns Bool
by_labels api gvr l target (ok labels) =
    ok (or_text (lookup labels "app.kubernetes.io/part-of") "" == target)
by_labels api gvr l target (fail err) =
    if api.is_not_found err
    then ok false
    else fail (
        wrapped
          ("getting " ++ (gvr.resource ++ (" " ++ (l.namespace ++ ("/" ++ (l.name ++ ": ")))))) err
          "")

-- checkObjectHasComponentLabel, with getObject
unfoldable pub check_object_has_component_label :
    NotFoundErrors → LabelReader → LabelLookup → String → Returns Bool
unfolding kind_to_gvr
check_object_has_component_label api get l target =
    let gvr = kind_to_gvr l.kind in
    if gvr.resource == "" then ok false else by_labels api gvr l target (get gvr l.namespace l.name)
