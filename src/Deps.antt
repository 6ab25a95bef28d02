-- ===== src/Deps.antt =====
-- pkg/deps/manifest.go: the manifest of operator dependencies and the validation of its entries. A Go
-- map is an association list with distinct keys, in the order in which a loop meets them.
pub mod Graph
pub mod Closure
pub mod Shown
pub mod Listing
pub mod RequiredBy
pub mod Trusted
mod Tests
use odh_cli.Base.{
  String, ℕ, Bool, true, false, ◌&&◌, ◌||◌, Option, none, some, List, [], ◌∷◌, if◌then◌else◌, ◌==◌,
  nat_eq, has, lookup, quote, join,
}
use Prim.Native.String.{◌++◌}
use odh_cli.Base.Strings.{has_prefix}
use odh_cli.Errors.{Error, text}

-- The values of type any that the code tells apart.
pub data Value : Type 0 where
  bool_value : Bool → Value
  string_value : String → Value
  other_value : Value

pub record OlmConfig : Type 0 where
  pub channel : String
  pub name : String
  pub namespace : String
  pub source : String
  pub target_namespaces : List String

pub record Dependency : Type 0 where
  pub enabled : String
  pub olm : OlmConfig
  pub dependencies : List (String × Value)

-- Component, by its only field.
pub record Manifest : Type 0 where
  pub dependencies : List (String × Dependency)
  pub components : List (String × List (String × Value))

-- isEnabled
unfoldable pub is_enabled : Value → Bool
is_enabled (bool_value b) = b
is_enabled (string_value s) = s == "true" || s == "auto"
is_enabled other_value = false

-- displayNames
abbrev pub display_names : List (String × String)
display_names =
    ("certManager", "Cert Manager")
    ∷ ("leaderWorkerSet", "Leader Worker Set")
    ∷ ("jobSet", "Job Set")
    ∷ ("rhcl", "Red Hat Connectivity Link")
    ∷ ("customMetricsAutoscaler", "Custom Metrics Autoscaler")
    ∷ ("serviceMesh", "Service Mesh")
    ∷ ("serverless", "Serverless")
    ∷ ("authorino", "Authorino")
    ∷ ("kueue", "Kueue")
    ∷ ("opentelemetry", "OpenTelemetry")
    ∷ ("tempo", "Tempo")
    ∷ ("clusterObservability", "Cluster Observability")
    ∷ ("nfd", "Node Feature Discovery")
    ∷ ("nvidiaGPUOperator", "NVIDIA GPU Operator")
    ∷ ("aipipelines", "AI Pipelines")
    ∷ ("dashboard", "Dashboard")
    ∷ ("feastoperator", "Feast Operator")
    ∷ ("kserve", "KServe")
    ∷ ("modelregistry", "Model Registry")
    ∷ ("ray", "Ray")
    ∷ ("trainer", "Trainer")
    ∷ ("trainingoperator", "Training Operator")
    ∷ ("trustyai", "TrustyAI")
    ∷ ("workbenches", "Workbenches")
    ∷ ("mlflowoperator", "MLflow Operator")
    ∷ ("llamastackoperator", "LlamaStack Operator")
    ∷ ("sparkoperator", "Spark Operator")
    ∷ []

-- toDisplayName
unfoldable pub to_display_name : String → String
to_display_name name = elim (lookup display_names name) [ some display ↦ display | none ↦ name ]

-- allowedCatalogSources
abbrev pub allowed_catalog_sources : List String
allowed_catalog_sources =
    "" ∷ "redhat-operators" ∷ "community-operators" ∷ "certified-operators" ∷ "redhat-marketplace"
    ∷ []

-- validateTargetNamespace; `label_errors` is validation.IsDNS1123Label.
unfoldable pub validate_target_namespace :
    (String → List String) → String → String → String → Option Error
unfolding has_prefix join
validate_target_namespace label_errors dep ns operator = elim (label_errors ns) [
  | e ∷ es ↦ some (
      text (
        "dependency "
        ++ (quote dep
            ++ (": invalid targetNamespace " ++ (quote ns ++ (": " ++ join ", " (e ∷ es)))))))
  | [] ↦
      if ns == operator
      then none
      else if has_prefix ns "kube-" || has_prefix ns "openshift-"
      then some (
          text (
            "dependency "
            ++ (quote dep
                ++ (": targetNamespace "
                    ++ (quote ns
                        ++ (" is a system namespace; only the operator's own namespace "
                            ++ (quote operator ++ " is allowed")))))))
      else none
]

-- The loop over the target namespaces.
unfoldable pub validate_targets :
    (String → List String) → String → String → List String → Option Error
unfolding validate_target_namespace
validate_targets label_errors dep operator [] = none
validate_targets label_errors dep operator (ns ∷ rest) =
    elim (validate_target_namespace label_errors dep ns operator) [
      | some err ↦ some err
      | none ↦ validate_targets label_errors dep operator rest
    ]

-- validateOLMConfig
unfoldable pub validate_olm_config : (String → List String) → String → OlmConfig → Option Error
unfolding validate_targets
validate_olm_config label_errors dep olm =
    if has allowed_catalog_sources olm.source
    then validate_targets label_errors dep olm.namespace olm.target_namespaces
    else some (
        text (
          "dependency "
          ++ (quote dep
              ++ (": untrusted catalog source "
                  ++ (quote olm.source
                      ++ "; allowed: redhat-operators, community-operators, certified-operators, redhat-marketplace")))))

-- Manifest.validate
unfoldable pub validate : (String → List String) → List (String × Dependency) → Option Error
unfolding validate_olm_config
validate label_errors [] = none
validate label_errors ((name, dep) ∷ deps) = elim (validate_olm_config label_errors name dep.olm) [
  | some err ↦ some err
  | none ↦ validate label_errors deps
]
