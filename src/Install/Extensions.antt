-- ===== src/Install/Extensions.antt =====
-- pkg/deps/olm_state.go: requests of a package, and the state of its installation.
use odh_cli.Base.{
  String, Bool, true, false, not, ◌&&◌, ◌||◌, Option, none, some, List, [], ◌∷◌, if◌then◌else◌,
  ◌==◌,
}
use Prim.Native.String.{◌++◌}
use odh_cli.Errors.{Error, text, wrapped}
use odh_cli.Errors.Returns.{Returns, ok, fail}
use odh_cli.Client.{NotFoundErrors}
use odh_cli.Install.{
  Query, found, absent, broken, Subscription, ExtensionCondition, ClusterExtension, Cluster,
}

-- `if meta.IsNoMatchError(err) || apierrors.IsNotFound(err)` on an error that may be nil
abbrev pub is_absent_api : NotFoundErrors → Option Error → Bool
is_absent_api api none = false
is_absent_api api (some err) = api.is_no_match_error err || api.is_not_found err

-- requestedClusterExtension: both results
unfoldable pub requested_cluster_extension :
    {C : Type 0} → NotFoundErrors → Cluster C → C → String → String → Bool × Option Error
requested_cluster_extension api cluster c package_name namespace =
    let (requested, err) = cluster.extension_installs_package c package_name namespace in
    if is_absent_api api err then (false, none) else (requested, err)

-- The loop of requestedV0Subscription.
abbrev pub first_for_package : String → List Subscription → Option Subscription
first_for_package package_name [] = none
first_for_package package_name (s ∷ rest) =
    if s.package_name == package_name then some s else first_for_package package_name rest

-- requestedV0Subscription
unfoldable pub requested_v0_subscription :
    {C : Type 0} → NotFoundErrors → Cluster C → C → String → String → Returns (Option Subscription)
requested_v0_subscription api cluster c package_name namespace =
    elim (cluster.list_subscriptions c namespace) [
      | ok items ↦ ok (first_for_package package_name items)
      | fail err ↦
          if is_absent_api api (some err)
          then ok none
          else fail (wrapped ("list subscriptions in " ++ (namespace ++ ": ")) err "")
    ]

-- `if err != nil && !errors.Is(err, jq.ErrNotFound) { return … }`: the value, or the zero value.
abbrev pub value_or {ℓ} : {A : Type 0} {B : Type ℓ} → A → Query A → (Error → B) → (A → B) → B
value_or zero_value (found a) stop go = go a
value_or zero_value absent stop go = go zero_value
value_or zero_value (broken err) stop go = stop err

abbrev pub reading : ClusterExtension → String → Error → Error
reading e what err =
    wrapped ("read ClusterExtension " ++ (e.name ++ (" " ++ (what ++ ": ")))) err ""

-- clusterExtensionMatches
unfoldable pub cluster_extension_matches : ClusterExtension → String → String → Returns Bool
cluster_extension_matches e package_name namespace =
    value_or "" e.install_namespace (λ err. fail (reading e "namespace" err))
      λ install_namespace.
        if not (namespace == "") && not (install_namespace == namespace)
        then ok false
        else value_or "" e.source_type (λ err. fail (reading e "source type" err))
            λ source_type.
              if not (source_type == "Catalog")
              then ok false
              else value_or "" e.package_name (λ err. fail (reading e "package" err))
                  λ installed_package. ok (installed_package == package_name)

abbrev pub is_blocked : ExtensionCondition → Bool
is_blocked c = c.kind == "Progressing" && (c.status == "False" && c.reason == "Blocked")

-- The loop of clusterExtensionInstalled, with `installed` so far.
unfoldable pub installed_conditions :
    String → Bool → List (Option ExtensionCondition) → Returns Bool
installed_conditions name installed [] = ok installed
installed_conditions name installed (none ∷ rest) =
    fail (text ("ClusterExtension " ++ (name ++ " has malformed condition")))
installed_conditions name installed (some c ∷ rest) =
    let same = installed_conditions name installed rest in
    let next = installed_conditions name (c.status == "True" && c.reason == "Succeeded") rest in
    if is_blocked c
    then fail (text ("ClusterExtension " ++ (name ++ (" progress blocked: " ++ c.message))))
    else if c.kind == "Installed"
    then if c.status == "False" && c.reason == "Failed"
      then fail (
          text (
            "ClusterExtension "
            ++ (name ++ (" installation failed (" ++ (c.reason ++ ("): " ++ c.message))))))
      else next
    else same

-- clusterExtensionInstalled
unfoldable pub cluster_extension_installed : ClusterExtension → Returns Bool
unfolding installed_conditions
cluster_extension_installed e =
    value_or [] e.conditions (λ err. fail (reading e "conditions" err))
      λ conditions. installed_conditions e.name false conditions

-- clusterExtensionInstallState
pub record InstallState : Type 0 where
  pub version : String
  pub requested : Bool
  pub installed : Bool

abbrev pub no_state : InstallState
no_state = record { version = ""; requested = false; installed = false }

-- A test with an error in the loop of findClusterExtensionInstallState: what is returned for an error,
-- where the test fails, and where it passes.
abbrev pub by_answer :
    Returns Bool
    → InstallState
    → InstallState × Option Error
    → InstallState × Option Error
    → InstallState × Option Error
by_answer (fail err) state skip go = (state, some err)
by_answer (ok false) state skip go = skip
by_answer (ok true) state skip go = go

-- The end of the loop, by the version of an installed extension.
abbrev pub found_state : Query String → (Error → Error) → InstallState → InstallState × Option Error
found_state (broken err) wrap state = (record state { requested = true }, some (wrap err))
found_state (found v) wrap state =
    (record { version = v; requested = true; installed = true }, none)
found_state absent wrap state = (record { version = ""; requested = true; installed = true }, none)

-- The loop of findClusterExtensionInstallState: the state, and the error.
unfoldable pub find_in :
    String → String → InstallState → List ClusterExtension → InstallState × Option Error
unfolding cluster_extension_matches cluster_extension_installed
find_in package_name namespace state [] = (state, none)
find_in package_name namespace state (e ∷ rest) =
    by_answer (cluster_extension_matches e package_name namespace) state
      (find_in package_name namespace state rest)
      (by_answer (cluster_extension_installed e) (record state { requested = true })
        (find_in package_name namespace (record state { requested = true }) rest)
        (found_state e.bundle_version (reading e "version") state))

abbrev pub in_list :
    NotFoundErrors
    → Returns (List ClusterExtension)
    → (List ClusterExtension → InstallState × Option Error)
    → InstallState × Option Error
in_list api (ok items) look = look items
in_list api (fail err) look =
    if is_absent_api api (some err)
    then (no_state, none)
    else (no_state, some (wrapped "list ClusterExtensions: " err ""))

-- findClusterExtensionInstallState
unfoldable pub find_install_state :
    {C : Type 0} → NotFoundErrors → Cluster C → C → String → String → InstallState × Option Error
unfolding find_in
find_install_state api cluster c package_name namespace =
    in_list api (cluster.list_extensions c) (find_in package_name namespace no_state)
