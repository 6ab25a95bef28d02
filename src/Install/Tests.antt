-- ===== src/Install/Tests.antt =====
-- The installation of dependencies on a small cluster, of which the state is the list of its
-- Subscriptions.
use mathlib.Core.List.{Permᴰ}
use odh_cli.Base.{
  ◌≡◌, refl, ◌↔◌, inl, String, Bool, true, false, ◌&&◌, Option, none, some, List, [], ◌∷◌,
  if◌then◌else◌, ◌==◌, eq_refl, In, Some,
}
use Prim.Native.String.{◌++◌ as string_append}
use odh_cli.Errors.{Error, text}
use odh_cli.Errors.Tests.{no_api_errors}
use odh_cli.Errors.Returns.{Returns, ok, fail}
use odh_cli.Client.{NotFoundErrors}
use odh_cli.Output.{pos}
use odh_cli.Olm.{v0}
use odh_cli.Deps.Listing.{DependencyInfo}
use odh_cli.Install.{Subscription, Csv, Cluster, ClusterExtension, InstallCommand, found, absent}
use odh_cli.Install.Match.{slices_equal_unordered, matches_subscription}
use odh_cli.Install.Unordered.{slices_equal_unordered_iff}
use odh_cli.Install.Extensions.{cluster_extension_matches, find_install_state}
use odh_cli.Install.Select.{
  get_subscription, is_already_installed, filter_deps_to_install, should_install_dep,
}
use odh_cli.Install.Create.{cluster_extension, create_dep_resources}
use odh_cli.Install.Wait.{Expiry, wait_for_csv}
use odh_cli.Install.Run.{run_install}
use odh_cli.Install.Status.{check_single_dependency_v0}
use odh_cli.Install.Patience.{Arrives, IsCalm, IsVisible, wait_for_csv-Arrives}
use odh_cli.Install.Requests.{
  KeepsSubscriptions, cluster_extension-matches, create_dep_resources-is_already_installed,
}
use odh_cli.Install.Reported.{check_single_dependency_v0-is_already_installed}
use odh_cli.Install.Found.{Requests, Installs, find_install_state_iff}
use odh_cli.Install.Outcome.{Outcome, run_install-Outcome, filter_deps_to_install_iff}

abbrev is_missing : Error → Bool
is_missing (text s) = s == "not found"
is_missing _ = false

abbrev missing_errors : NotFoundErrors
missing_errors = record { is_no_match_error = λ e. false; is_not_found = is_missing }

abbrev find_subscription : List Subscription → String → String → Returns Subscription
find_subscription [] namespace name = fail (text "not found")
find_subscription (s ∷ rest) namespace name =
    if s.namespace == namespace && s.name == name
    then ok s
    else find_subscription rest namespace name

-- The CSV of an operator, which is there once a subscription is.
abbrev csvs : List Subscription → List Csv
csvs [] = []
csvs (s ∷ rest) =
    record {
      name = string_append s.name ".v1.2";
      phase = "Succeeded";
      reason = "";
      version = "1.2";
    }
    ∷ csvs rest

abbrev kueue_extension : ClusterExtension
kueue_extension = record {
  name = "kueue-operator";
  managed_by = "odh-cli";
  install_namespace = found "kueue";
  source_type = found "Catalog";
  package_name = found "kueue-operator";
  channel = absent;
  catalog = absent;
  service_account = absent;
  watch_namespace = absent;
  conditions = absent;
  bundle_version = absent;
}

abbrev small : Cluster (List Subscription)
small = record {
  has_runtime = false;
  get_subscription = find_subscription;
  list_subscriptions = λ c namespace. ok c;
  get_csv = λ c namespace name. fail (text "not found");
  list_csvs = λ c namespace. ok (csvs c);
  list_extensions = λ c. ok (kueue_extension ∷ []);
  get_extension = λ c name. fail (text "not found");
  list_operator_groups = λ c namespace. ok [];
  get_service_account = λ c namespace name. none;
  extension_installs_package = λ c package_name namespace. (false, none);
  create_namespace = λ c name label. (c, none);
  create_operator_group = λ c group. (c, none);
  create_subscription = λ c s. (s ∷ c, none);
  create_extension = λ c e. (c, none);
}

abbrev kueue : DependencyInfo
kueue = record {
  name = "kueue";
  display_name = "Kueue";
  enabled = "true";
  subscription = "kueue-operator";
  namespace = "kueue";
  channel = "stable";
  source = "";
  target_namespaces = [];
  required_by = [];
}

abbrev install : InstallCommand
install = record {
  dry_run = false;
  include_optional = false;
  timeout = pos 300;
  target_dep = "";
  target_deps = none;
  version = "";
  refresh = false;
  service_account = "";
  olm_mode = "auto";
  selected = some v0;
  manifest_version = "3.0";
}

abbrev subscribed : Subscription
subscribed = record {
  name = "kueue-operator";
  namespace = "kueue";
  managed_by = "";
  channel = "stable";
  package_name = "kueue-operator";
  catalog_source = "redhat-operators";
  catalog_source_namespace = "openshift-marketplace";
  install_plan_approval = "Automatic";
  installed_csv = "";
  conditions = [];
}

slices_equal_unordered_iff_example : slices_equal_unordered ("a" ∷ "b" ∷ []) ("b" ∷ "a" ∷ []) ≡ true
slices_equal_unordered_iff_example =
    (slices_equal_unordered_iff ("a" ∷ "b" ∷ []) ("b" ∷ "a" ∷ [])).1 (Permᴰ.swap refl refl)

abbrev expiry : Expiry
expiry = record { elapsed = "5m0s"; context_error = text "context deadline exceeded" }

subscribed-IsVisible : IsVisible missing_errors small "kueue" "kueue-operator" (subscribed ∷ [])
unfolding get_subscription matches_subscription
subscribed-IsVisible =
    ((some subscribed, (refl, (tt, inl refl))), (csvs (subscribed ∷ []), (refl, inl refl)))

empty-IsCalm : IsCalm missing_errors small "kueue" "kueue-operator" []
unfolding get_subscription
empty-IsCalm = ((none, (refl, tt)), ([], refl))

wait_for_csv-Arrives_example : Arrives (
    wait_for_csv missing_errors small expiry "kueue" "kueue-operator" 0
      ([] ∷ (subscribed ∷ []) ∷ (subscribed ∷ []) ∷ (subscribed ∷ []) ∷ []))
wait_for_csv-Arrives_example =
    wait_for_csv-Arrives missing_errors small "kueue" "kueue-operator" expiry 0 ([] ∷ [])
      (subscribed ∷ []) (subscribed ∷ []) (subscribed ∷ []) [] (empty-IsCalm, tt)
      subscribed-IsVisible subscribed-IsVisible subscribed-IsVisible

small-KeepsSubscriptions : KeepsSubscriptions no_api_errors missing_errors small (λ l. "") (λ n. "")
small-KeepsSubscriptions c s e = (s, rw (eq_refl s.namespace, eq_refl s.name) refl)

create_dep_resources-is_already_installed_example :
    is_already_installed no_api_errors missing_errors small
      (create_dep_resources no_api_errors small (λ l. "") (λ n. "") install [] kueue).0
      install
      kueue
    ≡ ok true
unfolding create_dep_resources
create_dep_resources-is_already_installed_example =
    create_dep_resources-is_already_installed no_api_errors missing_errors small (λ l. "") (λ n. "")
      install [] kueue small-KeepsSubscriptions refl (λ e. cc) (λ e. cc) refl

check_single_dependency_v0-is_already_installed_example :
    is_already_installed no_api_errors missing_errors small (subscribed ∷ []) install kueue
    ≡ ok true
unfolding check_single_dependency_v0 matches_subscription
check_single_dependency_v0-is_already_installed_example =
    check_single_dependency_v0-is_already_installed no_api_errors missing_errors small install
      (subscribed ∷ []) kueue refl refl

abbrev built : ClusterExtension
built = record {
  name = "kueue-operator";
  managed_by = "odh-cli";
  install_namespace = found "kueue";
  source_type = found "Catalog";
  package_name = found "kueue-operator";
  channel = found "stable";
  catalog = found "openshift-redhat-operators";
  service_account = found "odh-cli-dependency-installer";
  watch_namespace = absent;
  conditions = absent;
  bundle_version = absent;
}

cluster_extension-matches_example :
    cluster_extension_matches built "kueue-operator" "kueue" ≡ ok true
unfolding cluster_extension
cluster_extension-matches_example = cluster_extension-matches (λ n. "") install kueue built refl

find_install_state_iff_example :
    let r = find_install_state missing_errors small [] "kueue-operator" "kueue" in
    (r.0.requested ≡ true ↔ Some (Requests "kueue-operator" "kueue") (kueue_extension ∷ []))
    × (r.0.installed ≡ true ↔ Some (Installs "kueue-operator" "kueue") (kueue_extension ∷ []))
unfolding find_install_state
find_install_state_iff_example =
    find_install_state_iff "kueue-operator" "kueue" missing_errors small [] (kueue_extension ∷ [])
      refl refl

-- errgroup.Wait returns the first error.
abbrev first_error : List Error → Option Error
first_error [] = none
first_error (e ∷ es) = some e

filter_deps_to_install_iff_example :
    In kueue (kueue ∷ [])
    ↔ In kueue (kueue ∷ [])
      × ((should_install_dep install kueue ≡ true)
          × (is_already_installed no_api_errors missing_errors small [] install kueue ≡ ok false))
unfolding filter_deps_to_install
filter_deps_to_install_iff_example =
    filter_deps_to_install_iff no_api_errors missing_errors small [] install first_error
      (kueue ∷ []) (kueue ∷ []) (refl, λ e es h. cc) refl kueue

run_install-Outcome_example :
    Outcome no_api_errors missing_errors small
      (λ l. "")
      (λ n. "")
      expiry
      (λ d. (subscribed ∷ []) ∷ [])
      install
      []
      (kueue ∷ [])
      (run_install no_api_errors missing_errors small
        (λ l. "")
        (λ n. "")
        expiry
        (λ d. (subscribed ∷ []) ∷ [])
        first_error
        install
        []
        (kueue ∷ []))
unfolding filter_deps_to_install
run_install-Outcome_example =
    run_install-Outcome no_api_errors missing_errors small (λ l. "") (λ n. "") expiry
      (λ d. (subscribed ∷ []) ∷ []) install first_error [] (kueue ∷ []) (kueue ∷ []) refl
