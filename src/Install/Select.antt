-- ===== src/Install/Select.antt =====
-- Which dependencies `deps install` installs (pkg/deps/install.go, with the readers of check.go).
-- errgroup.Wait, which returns one of the errors of its functions, is the parameter `wait`.
use odh_cli.Base.{
  String, Bool, true, false, not, ◌&&◌, ◌||◌, Option, none, some, List, [], ◌∷◌, if◌then◌else◌,
  ◌==◌, has, keep,
}
use Prim.Native.String.{◌++◌}
use odh_cli.Errors.{Error, wrapped, joined}
use odh_cli.Errors.Tables.{ApiErrors}
use odh_cli.Errors.Returns.{Returns, ok, fail}
use odh_cli.Client.{NotFoundErrors}
use odh_cli.Deps.Listing.{DependencyInfo}
use odh_cli.Install.{Subscription, Csv, Cluster, InstallCommand, by_mode}
use odh_cli.Install.Match.{matches_subscription}
use odh_cli.Install.Extensions.{requested_cluster_extension, requested_v0_subscription}

-- isValidDependency
unfoldable pub is_valid_dependency : List DependencyInfo → String → Bool
is_valid_dependency [] name = false
is_valid_dependency (d ∷ deps) name = d.name == name || is_valid_dependency deps name

-- shouldInstallDep
unfoldable pub should_install_dep : InstallCommand → DependencyInfo → Bool
should_install_dep c dep = elim c.target_deps [
  | some names ↦ has names dep.name
  | none ↦ dep.enabled == "true" || (dep.enabled == "auto" && c.include_optional)
]

-- filterDepsForDryRun
unfoldable pub filter_deps_for_dry_run : InstallCommand → List DependencyInfo → List DependencyInfo
unfolding should_install_dep
filter_deps_for_dry_run c deps = keep (should_install_dep c) deps

-- serviceAccountName
unfoldable pub service_account_name : InstallCommand → String
service_account_name c =
    if not (c.service_account == "") then c.service_account else "odh-cli-dependency-installer"

-- errors.Join of two errors that may be nil
abbrev pub join_errors : Option Error → Option Error → Option Error
join_errors none o = o
join_errors (some a) none = some a
join_errors (some a) (some b) = some (joined "\n" a b)

-- The error that goes with a value, if there is one.
abbrev pub error_of {ℓ} : {A : Type ℓ} → Returns A → Option Error
error_of (ok a) = none
error_of (fail err) = some err

-- The first succeeded CSV of a list that matches a subscription.
abbrev pub first_succeeded : String → List Csv → Option Csv
first_succeeded sub_name [] = none
first_succeeded sub_name (csv ∷ rest) =
    if csv.phase == "Succeeded" && matches_subscription csv.name sub_name
    then some csv
    else first_succeeded sub_name rest

module _ {C : Type 0} (not_found : NotFoundErrors) (cluster : Cluster C) (c : C) where
  -- getSubscription of check.go
  unfoldable pub get_subscription : String → String → Returns (Option Subscription)
  get_subscription namespace name =
      if namespace == "" || name == ""
      then ok none
      else elim (cluster.get_subscription c namespace name) [
        | ok sub ↦ ok (some sub)
        | fail err ↦
            if not_found.is_not_found err
            then ok none
            else fail
                (wrapped ("get subscription " ++ (namespace ++ ("/" ++ (name ++ ": ")))) err "")
      ]

  -- hasSucceededCSV
  unfoldable pub has_succeeded_csv : String → String → Returns Bool
  has_succeeded_csv namespace sub_name = elim (cluster.list_csvs c namespace) [
    | ok csvs ↦ ok (elim (first_succeeded sub_name csvs) [ none ↦ false | some csv ↦ true ])
    | fail err ↦
        if not_found.is_no_match_error err
        then ok false
        else fail (wrapped ("list CSVs in " ++ (namespace ++ ": ")) err "")
  ]

  -- isAlreadyInstalled for the mode v1
  unfoldable pub is_requested_v1 : DependencyInfo → Returns Bool
  unfolding requested_cluster_extension requested_v0_subscription
  is_requested_v1 dep =
      let (requested, extension_err) =
        requested_cluster_extension not_found cluster c dep.subscription dep.namespace in
      let sub = requested_v0_subscription not_found cluster c dep.subscription dep.namespace in
      let rest : Returns Bool = elim (join_errors extension_err (error_of sub)) [
        | some err ↦ fail (wrapped ("check if " ++ (dep.name ++ " is requested: ")) err "")
        | none ↦ ok false
      ] in
      if requested
      then ok true
      else elim sub [ ok (some s) ↦ ok true | ok none ↦ rest | fail err ↦ rest ]

-- A subscription that is there, or what is done without one.
abbrev pub installed_if :
    Returns (Option Subscription) → (Error → Error) → Returns Bool → Returns Bool
installed_if (fail err) wrap otherwise = fail (wrap err)
installed_if (ok (some sub)) wrap otherwise = ok true
installed_if (ok none) wrap otherwise = otherwise

-- `if err != nil || installed { return installed, err }`
abbrev pub if_none_succeeded : Returns Bool → Returns Bool → Returns Bool
if_none_succeeded (fail err) otherwise = fail err
if_none_succeeded (ok true) otherwise = ok true
if_none_succeeded (ok false) otherwise = otherwise

abbrev pub cons_error : Returns Bool → List Error → List Error
cons_error (fail err) errors = err ∷ errors
cons_error (ok b) errors = errors

abbrev pub is_installed : Returns Bool → Bool
is_installed (fail err) = false
is_installed (ok b) = b

-- `if err != nil { return err }; return a`
abbrev pub ok_unless : {A : Type 0} → Option Error → (Error → Error) → A → Returns A
ok_unless (some err) wrap a = fail (wrap err)
ok_unless none wrap a = ok a

module _ {C : Type 0} (api : ApiErrors) (not_found : NotFoundErrors) (cluster : Cluster C)
    (c : C) where
  -- The end of isAlreadyInstalled: a request through OLM v1 on a cluster with both.
  unfoldable pub is_requested_beside : DependencyInfo → Returns Bool
  unfolding requested_cluster_extension
  is_requested_beside dep =
      let (requested, err) =
        requested_cluster_extension not_found cluster c dep.subscription dep.namespace in
      if not cluster.has_runtime then ok false else if requested then ok true else elim err [
        | none ↦ ok false
        | some e ↦
            if api.is_forbidden e
            then ok false
            else fail (wrapped ("check if " ++ (dep.name ++ " has an OLM v1 request: ")) e "")
      ]

  -- isAlreadyInstalled for the mode v0
  unfoldable pub is_installed_v0 : DependencyInfo → Returns Bool
  unfolding get_subscription has_succeeded_csv is_requested_beside
  is_installed_v0 dep =
      installed_if (get_subscription not_found cluster c dep.namespace dep.subscription)
        (λ err. wrapped ("check if " ++ (dep.name ++ " is installed: ")) err "")
        (if_none_succeeded (has_succeeded_csv not_found cluster c dep.namespace dep.subscription)
          (is_requested_beside dep))

  -- isAlreadyInstalled; the mode is v0 unless v1 is selected.
  unfoldable pub is_already_installed : InstallCommand → DependencyInfo → Returns Bool
  unfolding is_requested_v1 is_installed_v0
  is_already_installed command dep =
      by_mode command.selected (is_requested_v1 not_found cluster c dep) (is_installed_v0 dep)

  -- The errors of the checks that run at the same time.
  abbrev pub check_errors : InstallCommand → List DependencyInfo → List Error
  check_errors command [] = []
  check_errors command (d ∷ deps) =
      cons_error (is_already_installed command d) (check_errors command deps)

  -- filterDepsToInstall
  unfoldable pub filter_deps_to_install :
      (List Error → Option Error)
      → InstallCommand
      → List DependencyInfo
      → Returns (List DependencyInfo)
  unfolding should_install_dep is_already_installed
  filter_deps_to_install wait command deps =
      let wanted = keep (should_install_dep command) deps in
      ok_unless (wait (check_errors command wanted))
        (λ err. wrapped "check installed operator requests: " err "")
        (keep (λ d. not (is_installed (is_already_installed command d))) wanted)

module _ {C : Type 0} (not_found : NotFoundErrors) (cluster : Cluster C) (c : C) where
  -- The loop of validateServiceAccounts, with the namespaces seen.
  unfoldable pub accounts_of : String → List String → List DependencyInfo → Option Error
  accounts_of account seen [] = none
  accounts_of account seen (d ∷ deps) =
      let rest = accounts_of account seen deps in
      let next = accounts_of account (d.namespace ∷ seen) deps in
      if has seen d.namespace
      then rest
      else elim (cluster.get_service_account c d.namespace account) [
        | none ↦ next
        | some err ↦
            if not_found.is_not_found err
            then some (
                wrapped
                  ("OLM v1 requires ServiceAccount "
                    ++ (account
                        ++ (" in namespace "
                            ++ (d.namespace
                                ++ "; create it with the operator bundle's required permissions or set --service-account: "))))
                  err "")
            else some (
                wrapped
                  ("check OLM v1 ServiceAccount "
                    ++ (account ++ (" in namespace " ++ (d.namespace ++ ": "))))
                  err "")
      ]

  -- validateServiceAccounts
  unfoldable pub validate_service_accounts : InstallCommand → List DependencyInfo → Option Error
  unfolding accounts_of service_account_name
  validate_service_accounts command deps =
      by_mode command.selected (accounts_of (service_account_name command) [] deps) none
