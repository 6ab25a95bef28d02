-- ===== src/Kube.antt =====
-- Kubernetes object metadata, as far as the program reads it, and resource types (pkg/resources/types.go).
use Prim.Native.String.{◌++◌}
use odh_cli.Base.{String, List, ◌==◌, if◌then◌else◌}

-- metav1.PartialObjectMetadata: TypeMeta and the fields of ObjectMeta that the code uses.
pub record ObjectMetadata : Type 0 where
  pub kind : String
  pub api_version : String
  pub uid : String
  pub namespace : String
  pub name : String
  pub labels : List (String × String)
  pub annotations : List (String × String)
  -- the UIDs of its owner references
  pub owners : List String

pub record NamespacedName : Type 0 where
  pub namespace : String
  pub name : String

pub record ResourceType : Type 0 where
  pub group : String
  pub version : String
  pub kind : String
  pub resource : String

-- CRDFQN
unfoldable pub crd_fqn : ResourceType → String
crd_fqn r = if r.group == "" then r.resource else r.resource ++ ("." ++ r.group)

-- APIVersion
unfoldable pub api_version_of : ResourceType → String
api_version_of r = if r.group == "" then r.version else r.group ++ ("/" ++ r.version)
