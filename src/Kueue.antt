-- ===== src/Kueue.antt =====
-- pkg/lint/checks/workloads/kueue: the data integrity check of Kueue labels, and
-- pkg/lint/checks/kueue/discovery: the types of workloads that it looks at.
pub mod Graph
pub mod Walk
pub mod Invariants
pub mod Agreement
pub mod Check
pub mod Owners
pub mod Verdicts
pub mod Unique
pub mod Validate
pub mod Diagnosis
pub mod Namespaces
mod Tests
use odh_cli.Base.{String, List, [], ◌∷◌, Bool, ◌||◌}
use odh_cli.Errors.{Error}
pub use odh_cli.Client.{NotFoundErrors}
unfoldable pub use odh_cli.Client.{is_resource_type_not_found}
use odh_cli.Kube.{ObjectMetadata, ResourceType}
use odh_cli.Lint.Check.{Returns}

-- The options of ListMetadata that the check uses.
pub data ListOption : Type 0 where
  with_namespace with_label_selector : String → ListOption

-- client.Reader, by its ListMetadata.
abbrev pub Reader : Type 0
Reader = ResourceType → ListOption → Returns (List ObjectMetadata)

abbrev pub resource_type : String → String → String → String → ResourceType
resource_type group version kind resource = record {
  group = group;
  version = version;
  kind = kind;
  resource = resource;
}

-- intermediateTypes
abbrev pub intermediate_types : List ResourceType
intermediate_types =
    resource_type "apps" "v1" "Deployment" "deployments"
    ∷ resource_type "apps" "v1" "StatefulSet" "statefulsets"
    ∷ resource_type "apps" "v1" "ReplicaSet" "replicasets"
    ∷ resource_type "apps" "v1" "DaemonSet" "daemonsets"
    ∷ resource_type "batch" "v1" "Job" "jobs"
    ∷ resource_type "batch" "v1" "CronJob" "cronjobs"
    ∷ resource_type "" "v1" "Pod" "pods"
    ∷ []

-- MonitoredWorkloadTypes
abbrev pub monitored_workload_types : List ResourceType
monitored_workload_types =
    resource_type "kubeflow.org" "v1" "Notebook" "notebooks"
    ∷ resource_type "serving.kserve.io" "v1beta1" "InferenceService" "inferenceservices"
    ∷ resource_type "serving.kserve.io" "v1alpha1" "LLMInferenceService" "llminferenceservices"
    ∷ resource_type "ray.io" "v1" "RayCluster" "rayclusters"
    ∷ resource_type "ray.io" "v1" "RayJob" "rayjobs"
    ∷ resource_type "kubeflow.org" "v1" "PyTorchJob" "pytorchjobs"
    ∷ []

abbrev pub queue_name_label : String
queue_name_label = "kueue.x-k8s.io/queue-name"
