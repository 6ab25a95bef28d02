-- ===== src/Install.antt =====
-- pkg/deps: the objects of the Operator Lifecycle Manager that `deps` reads and creates, and the
-- cluster. An object that the code reads by jq queries is the record of their answers.
pub mod Match
pub mod Extensions
pub mod Options
pub mod Select
pub mod Create
pub mod Wait
pub mod Run
pub mod Status
pub mod Unordered
pub mod Names
pub mod Requests
pub mod Found
pub mod Outcome
pub mod Reported
pub mod Patience
mod Tests
use odh_cli.Base.{ℕ, String, Bool, Option, none, some, List}
use odh_cli.Errors.{Error}
use odh_cli.Errors.Tables.{ApiErrors}
use odh_cli.Errors.Returns.{Returns, ok, fail}
use odh_cli.Output.{ℤ}
use odh_cli.Olm.{Mode, v0, v1}

-- jq.Query: a value, jq.ErrNotFound, or another error.
pub data Query (A : Type 0) : Type 0 where
  found : A → Query A
  absent : Query A
  broken : Error → Query A

pub record SubscriptionCondition : Type 0 where
  pub kind : String
  pub status : String
  pub message : String

-- Subscription: metadata, spec, which the API server requires, and status.
pub record Subscription : Type 0 where
  pub name : String
  pub namespace : String
  pub managed_by : String
  pub channel : String
  pub package_name : String
  pub catalog_source : String
  pub catalog_source_namespace : String
  pub install_plan_approval : String
  pub installed_csv : String
  pub conditions : List SubscriptionCondition

-- ClusterServiceVersion, with spec.version as text
pub record Csv : Type 0 where
  pub name : String
  pub phase : String
  pub reason : String
  pub version : String

pub record OperatorGroup : Type 0 where
  pub name : String
  pub namespace : String
  pub managed_by : String
  pub target_namespaces : List String

-- A condition's type, status, reason and message; a value that is missing or no text is empty.
pub record ExtensionCondition : Type 0 where
  pub kind : String
  pub status : String
  pub reason : String
  pub message : String

-- ClusterExtension, by the answers of the queries .spec.namespace, .spec.source.sourceType,
-- .spec.source.catalog.packageName, .spec.source.catalog.channels[0], the label of the catalog's
-- selector, .spec.serviceAccount.name, the watch namespace of .spec.config, .status.conditions, of
-- which one that is no object is `none`, and .status.install.bundle.version.
pub record ClusterExtension : Type 0 where
  pub name : String
  pub managed_by : String
  pub install_namespace : Query String
  pub source_type : Query String
  pub package_name : Query String
  pub channel : Query String
  pub catalog : Query String
  pub service_account : Query String
  pub watch_namespace : Query String
  pub conditions : Query (List (Option ExtensionCondition))
  pub bundle_version : Query String

-- The cluster in a state of type C: what the clients read, and what a creation does to the state,
-- with the error that it returns. Namespaces come before names, as the clients take them.
pub record Cluster (C : Type 0) : Type 0 where
  -- whether the controller-runtime client is there
  pub has_runtime : Bool
  pub get_subscription : C → String → String → Returns Subscription
  pub list_subscriptions : C → String → Returns (List Subscription)
  pub get_csv : C → String → String → Returns Csv
  pub list_csvs : C → String → Returns (List Csv)
  pub list_extensions : C → Returns (List ClusterExtension)
  pub get_extension : C → String → Returns ClusterExtension
  pub list_operator_groups : C → String → Returns (List OperatorGroup)
  pub get_service_account : C → String → String → Option Error
  -- cluster.ClusterExtensionInstallsPackage of odh-platform-utilities, for a package and a namespace
  pub extension_installs_package : C → String → String → Bool × Option Error
  -- a namespace, with its label
  pub create_namespace : C → String → String → C × Option Error
  pub create_operator_group : C → OperatorGroup → C × Option Error
  pub create_subscription : C → Subscription → C × Option Error
  pub create_extension : C → ClusterExtension → C × Option Error

-- InstallCommand; `target_deps` tells a nil slice from an empty one, and `selected` is the field
-- selectedOLMMode, which is empty before Validate.
pub record InstallCommand : Type 0 where
  pub dry_run : Bool
  pub include_optional : Bool
  pub timeout : ℤ
  pub target_dep : String
  pub target_deps : Option (List String)
  pub version : String
  pub refresh : Bool
  pub service_account : String
  pub olm_mode : String
  pub selected : Option Mode
  pub manifest_version : String

abbrev pub default_catalog_source : String
default_catalog_source = "redhat-operators"

abbrev pub managed_by_value : String
managed_by_value = "odh-cli"

-- `if c.selectedOLMMode == utilolm.ModeV1 { … }`, and what is done otherwise.
abbrev pub by_mode {ℓ} : {A : Type ℓ} → Option Mode → A → A → A
by_mode (some v1) in_v1 otherwise = in_v1
by_mode (some v0) in_v1 otherwise = otherwise
by_mode none in_v1 otherwise = otherwise
