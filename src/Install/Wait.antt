-- ===== src/Install/Wait.antt =====
-- The waits of `deps install` (pkg/deps/install.go). A wait polls the cluster in the states of a list, one
-- for each poll: after the last one the context is done. What is printed in between is left out.
use odh_cli.Base.{
  ℕ, suc, String, Bool, ◌&&◌, Option, none, some, List, [], ◌∷◌, if◌then◌else◌, ◌==◌, nat_eq,
}
use Prim.Native.Nat.{◌%◌}
use Prim.Native.String.{◌++◌}
use odh_cli.Base.Strings.{trim_prefix}
use odh_cli.Errors.{Error, text, wrapped}
use odh_cli.Errors.Returns.{Returns, ok, fail}
use odh_cli.Client.{NotFoundErrors}
use odh_cli.Deps.Listing.{DependencyInfo}
use odh_cli.Install.{SubscriptionCondition, Subscription, Csv, Cluster, InstallCommand, by_mode}
use odh_cli.Install.Extensions.{find_install_state}
use odh_cli.Install.Select.{get_subscription, first_succeeded}

-- csvResult, by its version if it is ready, or its error
pub data CsvResult : Type 0 where
  ready : String → CsvResult
  not_ready : CsvResult
  csv_error : Error → CsvResult

-- The message of the first condition that says that the resolution failed.
abbrev pub resolution_failure : List SubscriptionCondition → Option String
resolution_failure [] = none
resolution_failure (cond ∷ rest) =
    if cond.kind == "ResolutionFailed" && cond.status == "True"
    then some cond.message
    else resolution_failure rest

-- The switch on the phase of the CSV.
abbrev pub result_of_phase : Csv → CsvResult
result_of_phase csv =
    if csv.phase == "Succeeded"
    then ready csv.version
    else if csv.phase == "Failed"
    then csv_error (
        text (
          "CSV "
          ++ (csv.name ++ (" failed: " ++ (if csv.reason == "" then "unknown" else csv.reason)))))
    else not_ready

-- What the read of the installed CSV means.
abbrev pub of_csv : NotFoundErrors → String → Returns Csv → CsvResult
of_csv not_found name (fail err) =
    if not_found.is_not_found err
    then not_ready
    else csv_error (wrapped ("get CSV " ++ (name ++ ": ")) err "")
of_csv not_found name (ok csv) = result_of_phase csv

-- The failure of the resolution comes first.
abbrev pub unless_failed : Option String → CsvResult → CsvResult
unless_failed (some message) r = csv_error (text ("subscription resolution failed: " ++ message))
unless_failed none r = r

-- What the read of the subscription means.
abbrev pub of_subscription : (Subscription → CsvResult) → Returns (Option Subscription) → CsvResult
of_subscription look (fail err) = csv_error (wrapped "get subscription: " err "")
of_subscription look (ok none) = not_ready
of_subscription look (ok (some sub)) = look sub

-- The CSV that was found, or none.
abbrev pub of_found : Option Csv → CsvResult
of_found none = not_ready
of_found (some csv) = ready csv.version

-- What the list of CSVs means.
abbrev pub of_list : String → String → Returns (List Csv) → CsvResult
of_list namespace sub_name (fail err) =
    csv_error (wrapped ("list CSVs in " ++ (namespace ++ ": ")) err "")
of_list namespace sub_name (ok csvs) = of_found (first_succeeded sub_name csvs)

-- The result for the subscription, or if it is not ready, and the poll looks at the namespace, the
-- other one.
abbrev pub either_csv : CsvResult → Bool → CsvResult → CsvResult
either_csv (csv_error err) looks other = csv_error err
either_csv (ready version) looks other = ready version
either_csv not_ready looks other = if looks then other else not_ready

-- The end of the wait, or what comes later.
abbrev pub return_or : CsvResult → Returns String → Returns String
return_or (csv_error err) later = fail err
return_or (ready version) later = ok version
return_or not_ready later = later

-- How a wait that runs out of time ends: the elapsed time, and the error of the context.
pub record Expiry : Type 0 where
  pub elapsed : String
  pub context_error : Error

module _ {C : Type 0} (not_found : NotFoundErrors) (cluster : Cluster C) where
  -- The part of tryCSVFromSubscription on a subscription that is there.
  unfoldable pub csv_of_subscription : C → String → Subscription → CsvResult
  csv_of_subscription c namespace sub = unless_failed (resolution_failure sub.conditions) (
      if sub.installed_csv == ""
      then not_ready
      else of_csv not_found sub.installed_csv (cluster.get_csv c namespace sub.installed_csv))

  -- tryCSVFromSubscription
  unfoldable pub try_csv_from_subscription : C → String → String → CsvResult
  unfolding get_subscription csv_of_subscription
  try_csv_from_subscription c namespace sub_name =
      of_subscription (csv_of_subscription c namespace)
        (get_subscription not_found cluster c namespace sub_name)

  -- findSucceededCSVInNamespace
  unfoldable pub find_succeeded_csv_in_namespace : C → String → String → CsvResult
  find_succeeded_csv_in_namespace c namespace sub_name =
      of_list namespace sub_name (cluster.list_csvs c namespace)

  -- One poll of waitForCSV; every third one also looks at the CSVs of the namespace.
  unfoldable pub poll_csv : ℕ → C → String → String → CsvResult
  unfolding try_csv_from_subscription find_succeeded_csv_in_namespace
  poll_csv poll_count c namespace sub_name =
      either_csv (try_csv_from_subscription c namespace sub_name) (nat_eq (poll_count % 3) 0)
        (find_succeeded_csv_in_namespace c namespace sub_name)

  -- The loop of waitForCSV, after a number of polls.
  unfoldable pub wait_for_csv : Expiry → String → String → ℕ → List C → Returns String
  unfolding poll_csv
  wait_for_csv expiry namespace sub_name poll_count [] = fail (
      wrapped ("timeout waiting for CSV after " ++ (expiry.elapsed ++ ": ")) expiry.context_error
        "")
  wait_for_csv expiry namespace sub_name poll_count (c ∷ states) =
      let later = wait_for_csv expiry namespace sub_name (suc poll_count) states in
      return_or (poll_csv (suc poll_count) c namespace sub_name) later

  -- waitForOperator
  unfoldable pub wait_for_operator : Expiry → String → String → List C → Returns String
  unfolding find_install_state trim_prefix
  wait_for_operator expiry package_name namespace [] = fail (
      wrapped ("timeout waiting for operator after " ++ (expiry.elapsed ++ ": "))
        expiry.context_error "")
  wait_for_operator expiry package_name namespace (c ∷ states) =
      let later = wait_for_operator expiry package_name namespace states in
      let (state, err) = find_install_state not_found cluster c package_name namespace in
      elim err [
        | some e ↦ fail (wrapped ("check operator " ++ (package_name ++ ": ")) e "")
        | none ↦ if state.installed then ok (trim_prefix state.version "v") else later
      ]

  -- waitForDependency
  unfoldable pub wait_for_dependency :
      InstallCommand → DependencyInfo → Expiry → List C → Returns String
  unfolding wait_for_csv wait_for_operator
  wait_for_dependency command dep expiry states =
      by_mode command.selected (wait_for_operator expiry dep.subscription dep.namespace states)
        (wait_for_csv expiry dep.namespace dep.subscription 0 states)
