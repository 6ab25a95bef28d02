-- ===== src/Install/Reported.antt =====
-- What `deps` reports (pkg/deps/check.go) against what `deps install` looks for (pkg/deps/install.go).
use odh_cli.Base.{◌≡◌, ◌≢◌, refl, Bool, true, false, ◌||◌, ◌==◌, Option, none, some, if◌then◌else◌}
use odh_cli.Errors.Tables.{ApiErrors}
use odh_cli.Errors.Returns.{Returns, ok, fail}
use odh_cli.Client.{NotFoundErrors}
use odh_cli.Olm.{v0}
use odh_cli.Deps.Listing.{DependencyInfo}
use odh_cli.Install.{Subscription, Cluster, InstallCommand}
use odh_cli.Install.Select.{
  get_subscription, is_installed_v0, is_installed_v0, is_already_installed,
}
use odh_cli.Install.Status.{
  v0_subscription_status, installed, missing, optional, DependencyStatus, status_by,
  status_if_absent, check_single_dependency_v0,
}
use odh_cli.Install.Requests.{installed_if-some, is_already_installed-v0}

optional_or_missing : (b : Bool) → (if b then optional else missing) ≢ installed
optional_or_missing true h = cc
optional_or_missing false h = cc

absent_is_not : (dep : DependencyInfo) → status_if_absent dep ≢ installed
absent_is_not dep = optional_or_missing (dep.enabled == "auto" || dep.enabled == "false")

status_by-installed :
    (r : Returns (Option Subscription)) (dep : DependencyInfo) (f : Subscription → DependencyStatus)
    → (status_by r dep f).status ≡ installed
    → (sub : Subscription) × (r ≡ ok (some sub))
status_by-installed (fail err) dep f h = absurd (cc)
status_by-installed (ok none) dep f h = absurd (absent_is_not dep h)
status_by-installed (ok (some sub)) dep f h = (sub, refl)

module _ {C : Type 0} (api : ApiErrors) (not_found : NotFoundErrors) (cluster : Cluster C) where
  is_installed_v0-some :
      (c : C) (dep : DependencyInfo) (sub : Subscription)
      → get_subscription not_found cluster c dep.namespace dep.subscription ≡ ok (some sub)
      → is_installed_v0 api not_found cluster c dep ≡ ok true
  unfolding is_installed_v0
  is_installed_v0-some c dep sub e = installed_if-some _ _ _ sub e

  -- Of a dependency that the check for mode v0 reports as installed, isAlreadyInstalled says the same
  -- in that mode and that state of the cluster.
  pub check_single_dependency_v0-is_already_installed :
      (command : InstallCommand) (c : C) (dep : DependencyInfo)
      → command.selected ≡ some v0
      → (check_single_dependency_v0 not_found cluster c dep).status ≡ installed
      → is_already_installed api not_found cluster c command dep ≡ ok true
  unfolding check_single_dependency_v0
  check_single_dependency_v0-is_already_installed command c dep m h =
      let (sub, e) =
        status_by-installed (get_subscription not_found cluster c dep.namespace dep.subscription)
          dep (v0_subscription_status not_found cluster c dep) h in
      is_already_installed-v0 api not_found cluster command c dep m
        (is_installed_v0-some c dep sub e)
