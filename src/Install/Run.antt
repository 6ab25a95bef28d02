-- ===== src/Install/Run.antt =====
-- runInstall of pkg/deps/install.go: the two phases of an installation, without what is printed.
use odh_cli.Base.{ℕ, String, Option, none, some, List, [], ◌∷◌}
use Prim.Native.String.{◌++◌}
use odh_cli.Errors.{Error, wrapped, joined}
use odh_cli.Errors.Tables.{ApiErrors}
use odh_cli.Errors.Returns.{Returns, ok, fail}
use odh_cli.Client.{NotFoundErrors}
use odh_cli.Deps.Listing.{DependencyInfo}
use odh_cli.Install.{Cluster, InstallCommand}
use odh_cli.Install.Select.{filter_deps_to_install, validate_service_accounts}
use odh_cli.Install.Create.{create_dep_resources}
use odh_cli.Install.Wait.{Expiry, wait_for_dependency}

-- InstallStatus; `pending` is its zero value.
pub data InstallStatus : Type 0 where
  pending installed failed : InstallStatus

-- InstallResult
pub record InstallResult : Type 0 where
  pub name : String
  pub display_name : String
  pub status : InstallStatus
  pub version : String
  pub error : Option Error

abbrev pub new_install_result : DependencyInfo → InstallResult
new_install_result d = record {
  name = d.name;
  display_name = d.display_name;
  status = pending;
  version = "";
  error = none;
}

abbrev pub fail_result : InstallResult → Error → InstallResult
fail_result r err = record r { status = failed; error = some err }

abbrev pub join_with : Error → Option Error → Option Error
join_with e none = some e
join_with e (some rest) = some (joined "\n" e rest)

-- errors.Join
abbrev pub join_all : List Error → Option Error
join_all [] = none
join_all (e ∷ es) = join_with e (join_all es)

-- The loop that collects the errors of the results.
unfoldable pub result_errors : List InstallResult → List Error
result_errors [] = []
result_errors (r ∷ rs) =
    let rest = result_errors rs in
    elim r.status [
      | failed ↦ elim r.error [ none ↦ rest | some err ↦ wrapped (r.name ++ ": ") err "" ∷ rest ]
      | pending ↦ rest
      | installed ↦ rest
    ]

-- The counts and the names of printSummary.
unfoldable pub failed_names : List InstallResult → List String
failed_names [] = []
failed_names (r ∷ rs) =
    let rest = failed_names rs in
    elim r.status [ failed ↦ r.display_name ∷ rest | pending ↦ rest | installed ↦ rest ]

-- The result of phase 1, by the error of the creation.
abbrev pub created_result : DependencyInfo → Option Error → InstallResult
created_result d none = new_install_result d
created_result d (some err) = fail_result (new_install_result d) err

-- What waitForOperatorsParallel makes of a result, by what the wait returns.
abbrev pub waited_result : InstallResult → Returns String → InstallResult
waited_result r (fail err) = fail_result r err
waited_result r (ok version) = record r { status = installed; version = version }

-- Only the dependencies whose resources were created are waited for.
abbrev pub if_pending : InstallStatus → InstallResult → InstallResult → InstallResult
if_pending pending r waited = waited
if_pending installed r waited = r
if_pending failed r waited = r

-- An installation that stops before phase 1, or goes on.
abbrev pub unless_error :
    {C : Type 0}
    → Option Error
    → C
    → C × (List InstallResult × Option Error)
    → C × (List InstallResult × Option Error)
unless_error (some err) c next = (c, ([], some err))
unless_error none c next = next

abbrev pub with_selected :
    {C : Type 0}
    → Returns (List DependencyInfo)
    → C
    → (List DependencyInfo → C × (List InstallResult × Option Error))
    → C × (List InstallResult × Option Error)
with_selected (fail err) c next = (c, ([], some (wrapped "filter dependencies: " err "")))
with_selected (ok []) c next = (c, ([], none))
with_selected (ok (d ∷ deps)) c next = next (d ∷ deps)

-- `states` are the states of the cluster that the wait for a dependency polls.
module _ {C : Type 0} (api : ApiErrors) (not_found : NotFoundErrors) (cluster : Cluster C)
    (print : List String → String) (print_number : ℕ → String) (expiry : Expiry)
    (states : DependencyInfo → List C) where
  -- createDepResources for one dependency
  unfoldable pub create_one : InstallCommand → C → DependencyInfo → C × Option Error
  unfolding create_dep_resources
  create_one command c d = create_dep_resources api cluster print print_number command c d

  -- waitForDependency for one dependency
  unfoldable pub wait_one : InstallCommand → DependencyInfo → Returns String
  unfolding wait_for_dependency
  wait_one command d = wait_for_dependency not_found cluster command d expiry (states d)

  -- Phase 1: the state after it, and the results.
  unfoldable pub create_all :
      InstallCommand → C → List DependencyInfo → C × List (DependencyInfo × InstallResult)
  unfolding create_one
  create_all command c [] = (c, [])
  create_all command c (d ∷ deps) =
      let (c', err) = create_one command c d in
      let (c'', rs) = create_all command c' deps in (c'', (d, created_result d err) ∷ rs)

  -- Phase 2: waitForOperatorsParallel, for each result by itself.
  unfoldable pub wait_all :
      InstallCommand → List (DependencyInfo × InstallResult) → List InstallResult
  unfolding wait_one
  wait_all command [] = []
  wait_all command ((d, r) ∷ rs) =
      if_pending r.status r (waited_result r (wait_one command d)) ∷ wait_all command rs

  -- The two phases, with the results and the error.
  unfoldable pub install_all :
      InstallCommand → C → List DependencyInfo → C × (List InstallResult × Option Error)
  unfolding create_all wait_all result_errors
  install_all command c deps =
      let (c', created) = create_all command c deps in
      let results = wait_all command created in (c', (results, join_all (result_errors results)))

  -- runInstall, with the results that it summarises.
  unfoldable pub run_install :
      (List Error → Option Error)
      → InstallCommand
      → C
      → List DependencyInfo
      → C × (List InstallResult × Option Error)
  unfolding filter_deps_to_install validate_service_accounts install_all
  run_install wait command c deps =
      with_selected (filter_deps_to_install api not_found cluster c wait command deps) c
        λ to_install.
          unless_error (validate_service_accounts not_found cluster c command to_install) c
            (install_all command c to_install)
