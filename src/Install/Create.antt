-- ===== src/Install/Create.antt =====
-- What `deps install` creates for a dependency (pkg/deps/install.go), as steps on the cluster's state.
-- The conversion to unstructured objects, which does not fail on these types, and the warnings about
-- an object that exists with another spec, which are only printed, are left out.
use odh_cli.Base.{
  ℕ, length, quote, String, not, ◌||◌, Option, none, some, List, [], ◌∷◌, if◌then◌else◌, ◌==◌,
}
use Prim.Native.String.{◌++◌}
use odh_cli.Errors.{Error, text, wrapped}
use odh_cli.Errors.Tables.{ApiErrors}
use odh_cli.Errors.Returns.{Returns, ok, fail}
use odh_cli.Deps.Listing.{DependencyInfo}
use odh_cli.Install.{
  Query, found, absent, broken, Subscription, ClusterExtension, Cluster, InstallCommand, by_mode,
  default_catalog_source, managed_by_value,
}
use odh_cli.Install.Match.{slices_equal_unordered}
use odh_cli.Install.Select.{service_account_name}

-- `source := dep.Source; if source == "" { source = defaultCatalogSource }`
abbrev pub source_of : DependencyInfo → String
source_of dep = if dep.source == "" then default_catalog_source else dep.source

-- clusterCatalogName
unfoldable pub cluster_catalog_name : String → String
cluster_catalog_name source =
    if source == "redhat-operators"
      || (source == "community-operators"
          || (source == "certified-operators" || source == "redhat-marketplace"))
    then "openshift-" ++ source
    else source

-- The extension with at most one watch namespace, or the error for more of them.
abbrev pub with_watch_namespace :
    (Query String → ClusterExtension) → Error → List String → Returns ClusterExtension
with_watch_namespace extension err [] = ok (extension absent)
with_watch_namespace extension err (ns ∷ []) = ok (extension (found ns))
with_watch_namespace extension err (ns ∷ ns' ∷ rest) = fail err

-- The result of a creation: an object that exists already is looked at, another error is wrapped.
abbrev pub settle :
    {C : Type 0}
    → ApiErrors
    → (Error → Error)
    → (C → Option Error)
    → C × Option Error
    → C × Option Error
settle api wrap look (c, none) = (c, none)
settle api wrap look (c, some err) =
    if not (api.is_already_exists err) then (c, some (wrap err)) else (c, look c)

-- The error of a read, wrapped, if there is one.
abbrev pub wrap_error : {A : Type 0} → (Error → Error) → Returns A → Option Error
wrap_error wrap (ok a) = none
wrap_error wrap (fail err) = some (wrap err)

-- `if err := …; err != nil { return err }`, and what follows.
abbrev pub and_then : {C : Type 0} → C × Option Error → (C → C × Option Error) → C × Option Error
and_then (c, some err) next = (c, some err)
and_then (c, none) next = next c

-- The extension that clusterExtension builds, with a watch namespace or none.
abbrev pub extension_for : InstallCommand → DependencyInfo → Query String → ClusterExtension
extension_for c dep watch_namespace = record {
  name = dep.subscription;
  managed_by = managed_by_value;
  install_namespace = found dep.namespace;
  source_type = found "Catalog";
  package_name = found dep.subscription;
  channel = if dep.channel == "" then absent else found dep.channel;
  catalog = found (cluster_catalog_name (source_of dep));
  service_account = found (service_account_name c);
  watch_namespace = watch_namespace;
  conditions = absent;
  bundle_version = absent;
}

abbrev pub too_many_targets : (ℕ → String) → DependencyInfo → Error
too_many_targets print dep = text (
    "dependency "
    ++ (quote dep.name
        ++ (" has "
            ++ (print (length dep.target_namespaces)
                ++ " target namespaces; OLM v1 supports only one watch namespace"))))

-- clusterExtension; `print` prints a number.
unfoldable pub cluster_extension :
    (ℕ → String) → InstallCommand → DependencyInfo → Returns ClusterExtension
unfolding cluster_catalog_name service_account_name
cluster_extension print c dep =
    with_watch_namespace (extension_for c dep) (too_many_targets print dep) dep.target_namespaces

-- The Subscription of createSubscription.
abbrev pub subscription_for : DependencyInfo → Subscription
subscription_for dep = record {
  name = dep.subscription;
  namespace = dep.namespace;
  managed_by = managed_by_value;
  channel = dep.channel;
  package_name = dep.subscription;
  catalog_source = source_of dep;
  catalog_source_namespace = "openshift-marketplace";
  install_plan_approval = "Automatic";
  installed_csv = "";
  conditions = [];
}

-- `print` is `%v` of a list of names, `print_number` is `%d`.
module _ {C : Type 0} (api : ApiErrors) (cluster : Cluster C) (print : List String → String)
    (print_number : ℕ → String) where
  -- createNamespace
  unfoldable pub create_namespace : C → String → C × Option Error
  create_namespace c name =
      settle api (λ err. wrapped ("create namespace " ++ (name ++ ": ")) err "") (λ c'. none)
        (cluster.create_namespace c name managed_by_value)

  -- ensureOperatorGroup, without the flag that is only printed
  unfoldable pub ensure_operator_group : C → String → List String → C × Option Error
  unfolding slices_equal_unordered
  ensure_operator_group c namespace targets = elim (cluster.list_operator_groups c namespace) [
    | fail err ↦ (c, some (wrapped "list operatorgroups: " err ""))
    | ok (existing ∷ rest) ↦
        if not (slices_equal_unordered existing.target_namespaces targets)
        then (
          c,
          some (
              text (
                "operatorgroup "
                ++ (namespace
                    ++ ("/"
                        ++ (existing.name
                            ++ (" exists with targetNamespaces "
                                ++ (print existing.target_namespaces
                                    ++ (", but requested " ++ print targets)))))))),
        )
        else (c, none)
    | ok [] ↦
        settle api (λ err. wrapped "create operatorgroup: " err "") (λ c'. none)
          (cluster.create_operator_group c (record {
            name = namespace ++ "-og";
            namespace = namespace;
            managed_by = managed_by_value;
            target_namespaces = targets;
          }))
  ]

  -- verifyExistingSubscription
  unfoldable pub verify_existing_subscription : C → DependencyInfo → Option Error
  verify_existing_subscription c dep =
      wrap_error (λ err. wrapped "get existing subscription: " err "")
        (cluster.get_subscription c dep.namespace dep.subscription)

  -- createSubscription
  unfoldable pub create_subscription : C → DependencyInfo → C × Option Error
  unfolding verify_existing_subscription
  create_subscription c dep =
      settle api (λ err. wrapped "create subscription: " err "")
        (λ c'. verify_existing_subscription c' dep)
        (cluster.create_subscription c (subscription_for dep))

  -- createDepResourcesV0
  unfoldable pub create_dep_resources_v0 : C → DependencyInfo → C × Option Error
  unfolding create_namespace ensure_operator_group create_subscription
  create_dep_resources_v0 c dep = and_then (create_namespace c dep.namespace) λ c₁.
      and_then (ensure_operator_group c₁ dep.namespace dep.target_namespaces)
        λ c₂. create_subscription c₂ dep

  -- verifyExistingClusterExtension
  unfoldable pub verify_existing_cluster_extension : C → DependencyInfo → Option Error
  verify_existing_cluster_extension c dep = elim (cluster.get_extension c dep.subscription) [
    | fail err ↦ some (wrapped "get existing ClusterExtension: " err "")
    | ok existing ↦ elim existing.install_namespace [
      | absent ↦ some (text "query existing ClusterExtension namespace: field not found")
      | broken err ↦ some (wrapped "query existing ClusterExtension namespace: " err "")
      | found namespace ↦ elim existing.package_name [
        | absent ↦ some (text "query existing ClusterExtension package: field not found")
        | broken err ↦ some (wrapped "query existing ClusterExtension package: " err "")
        | found package_name ↦
            if not (namespace == dep.namespace) || not (package_name == dep.subscription)
            then some (
                text (
                  "ClusterExtension "
                  ++ (dep.subscription
                      ++ (" requests package "
                          ++ (quote package_name
                              ++ (" in namespace "
                                  ++ (quote namespace
                                      ++ (", expected package "
                                          ++ (quote dep.subscription
                                              ++ (" in namespace " ++ quote dep.namespace))))))))))
            else none
      ]
    ]
  ]

  -- createClusterExtension
  unfoldable pub create_cluster_extension : C → DependencyInfo → ClusterExtension → C × Option Error
  unfolding verify_existing_cluster_extension
  create_cluster_extension c dep extension =
      settle api (λ err. wrapped "create ClusterExtension: " err "")
        (λ c'. verify_existing_cluster_extension c' dep) (cluster.create_extension c extension)

  -- createDepResourcesV1
  unfoldable pub create_dep_resources_v1 : InstallCommand → C → DependencyInfo → C × Option Error
  unfolding cluster_extension create_namespace create_cluster_extension
  create_dep_resources_v1 command c dep = elim (cluster_extension print_number command dep) [
    | fail err ↦ (c, some err)
    | ok extension ↦
        and_then (create_namespace c dep.namespace) λ c'. create_cluster_extension c' dep extension
  ]

  -- createDepResources
  unfoldable pub create_dep_resources : InstallCommand → C → DependencyInfo → C × Option Error
  unfolding create_dep_resources_v0 create_dep_resources_v1
  create_dep_resources command c dep =
      by_mode command.selected (create_dep_resources_v1 command c dep)
        (create_dep_resources_v0 c dep)
