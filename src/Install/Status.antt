-- ===== src/Install/Status.antt =====
-- pkg/deps/check.go: the installation status of each dependency, and the status of the list.
use odh_cli.Base.{
  ℕ, suc, String, Bool, not, ◌||◌, Option, none, some, List, [], ◌∷◌, map, if◌then◌else◌, ◌==◌,
}
use Prim.Native.String.{◌++◌}
use odh_cli.Base.Sort.{sort_by}
use odh_cli.Base.Strings.{trim_prefix}
use odh_cli.Errors.{Error, text, wrapped, error_text, olm_unavailable}
use odh_cli.Errors.Tables.{is_sentinel}
use odh_cli.Errors.Returns.{Returns, ok, fail}
use odh_cli.Client.{NotFoundErrors}
use odh_cli.Output.{Envelope, set_status, pos}
use odh_cli.Olm.{v0, v1, Discovery, detect_mode}
use odh_cli.Deps.{Manifest}
use odh_cli.Deps.Listing.{DependencyInfo, get_dependencies}
use odh_cli.Install.{Subscription, Csv, Cluster}
use odh_cli.Install.Extensions.{find_install_state, requested_v0_subscription}
use odh_cli.Install.Select.{get_subscription, first_succeeded, join_errors, error_of}

-- Status
pub data DepStatus : Type 0 where
  installed pending missing optional unknown : DepStatus

-- DependencyStatus
pub record DependencyStatus : Type 0 where
  pub name : String
  pub display_name : String
  pub status : DepStatus
  pub version : String
  pub namespace : String
  pub subscription : String
  pub required_by : List String
  pub error : String

abbrev pub status_for : DependencyInfo → DepStatus → DependencyStatus
status_for dep status = record {
  name = dep.name;
  display_name = dep.display_name;
  status = status;
  version = "";
  namespace = dep.namespace;
  subscription = dep.subscription;
  required_by = dep.required_by;
  error = "";
}

-- `if dep.Enabled == enabledAuto || dep.Enabled == "false"`
abbrev pub status_if_absent : DependencyInfo → DepStatus
status_if_absent dep = if dep.enabled == "auto" || dep.enabled == "false" then optional else missing

-- The status by a subscription that is there, or missing, or could not be read.
abbrev pub status_by :
    Returns (Option Subscription)
    → DependencyInfo
    → (Subscription → DependencyStatus)
    → DependencyStatus
status_by (fail err) dep by_subscription = record (status_for dep unknown) {
  error = error_text err;
}
status_by (ok none) dep by_subscription = status_for dep (status_if_absent dep)
status_by (ok (some sub)) dep by_subscription = by_subscription sub

module _ {C : Type 0} (not_found : NotFoundErrors) (cluster : Cluster C) (c : C) where
  -- getCSV
  unfoldable pub get_csv : String → String → Returns (Option Csv)
  get_csv namespace name =
      if namespace == "" || name == "" then ok none else elim (cluster.get_csv c namespace name) [
        | ok csv ↦ ok (some csv)
        | fail err ↦
            if not_found.is_not_found err
            then ok none
            else fail (wrapped ("get csv " ++ (namespace ++ ("/" ++ (name ++ ": ")))) err "")
      ]

  -- getVersionFromCSV
  unfoldable pub get_version_from_csv : String → String → Returns String
  unfolding get_csv
  get_version_from_csv namespace csv_name =
      if csv_name == "" then ok "" else elim (get_csv namespace csv_name) [
        | fail err ↦ fail err
        | ok none ↦ ok ""
        | ok (some csv) ↦ ok csv.version
      ]

  -- findMatchingCSVVersion
  unfoldable pub find_matching_csv_version : String → String → Returns String
  find_matching_csv_version namespace sub_name = elim (cluster.list_csvs c namespace) [
    | fail err ↦ fail (wrapped ("list CSVs in " ++ (namespace ++ ": ")) err "")
    | ok csvs ↦ elim (first_succeeded sub_name csvs) [ none ↦ ok "" | some csv ↦ ok csv.version ]
  ]

  -- v0SubscriptionStatus
  unfoldable pub v0_subscription_status : DependencyInfo → Subscription → DependencyStatus
  unfolding get_version_from_csv find_matching_csv_version
  v0_subscription_status dep sub =
      let status = status_for dep installed in
      let fallback = find_matching_csv_version dep.namespace dep.subscription in
      elim (get_version_from_csv dep.namespace sub.installed_csv) [
        | fail err ↦ record status { error = error_text err }
        | ok version ↦
            if not (version == "") then record status { version = version } else elim fallback [
              | fail err ↦ record status { error = error_text err }
              | ok v ↦ record status { version = v }
            ]
      ]

  -- checkSingleDependencyV0
  unfoldable pub check_single_dependency_v0 : DependencyInfo → DependencyStatus
  unfolding get_subscription v0_subscription_status
  check_single_dependency_v0 dep =
      status_by (get_subscription not_found cluster c dep.namespace dep.subscription) dep
        (v0_subscription_status dep)

  -- checkSingleDependencyV1; `has_olm` says that the OLM reader is there.
  unfoldable pub check_single_dependency_v1 : Bool → DependencyInfo → DependencyStatus
  unfolding find_install_state requested_v0_subscription v0_subscription_status trim_prefix
  check_single_dependency_v1 has_olm dep =
      let (state, extension_err) =
        find_install_state not_found cluster c dep.subscription dep.namespace in
      let sub : Returns (Option Subscription) =
        if has_olm
        then requested_v0_subscription not_found cluster c dep.subscription dep.namespace
        else ok none in
      let rest : DependencyStatus = elim (join_errors extension_err (error_of sub)) [
        | some err ↦ record (status_for dep unknown) { error = error_text err }
        | none ↦
            if state.requested
            then status_for dep pending
            else status_for dep (status_if_absent dep)
      ] in
      if state.installed
      then record (status_for dep installed) { version = trim_prefix state.version "v" }
      else elim sub [
        | ok (some s) ↦ v0_subscription_status dep s
        | ok none ↦ rest
        | fail err ↦ rest
      ]

  -- CheckDependencies; `has_olm` and `available` are OLM() != nil and OLM().Available().
  unfoldable pub check_dependencies :
      Option Discovery → Bool → Bool → Manifest → Returns (List DependencyStatus)
  unfolding check_single_dependency_v0 check_single_dependency_v1 get_dependencies detect_mode
      sort_by
  check_dependencies discovery has_olm available manifest = elim (detect_mode not_found discovery) [
    | fail err ↦
        if is_sentinel olm_unavailable err
        then fail not_available
        else fail (wrapped "detect OLM API: " err "")
    | ok v1 ↦
        if not cluster.has_runtime
        then fail not_available
        else ok (
            sort_by (λ (s : DependencyStatus). s.name)
              (map (check_single_dependency_v1 has_olm) (get_dependencies manifest)))
    | ok v0 ↦
        if not has_olm || not available
        then fail not_available
        else ok (
            sort_by (λ (s : DependencyStatus). s.name)
              (map check_single_dependency_v0 (get_dependencies manifest)))
  ]
    where
      -- ErrOLMNotAvailable
      not_available : Error
      not_available =
          text
            "OLM (Operator Lifecycle Manager) is not available in this cluster; cannot check operator dependencies"

-- The loop of computeStatus: the warnings and the errors.
unfoldable pub count_statuses : List DependencyStatus → ℕ × ℕ
count_statuses [] = (0, 0)
count_statuses (d ∷ ds) =
    let (warnings, errors) = count_statuses ds in
    if not (d.error == "") then (warnings, suc errors) else elim d.status [
      | missing ↦ (warnings, suc errors)
      | unknown ↦ (suc warnings, errors)
      | pending ↦ (suc warnings, errors)
      | installed ↦ (warnings, errors)
      | optional ↦ (warnings, errors)
    ]

-- DependencyList
pub record DependencyList : Type 0 where
  pub envelope : Envelope
  pub dependencies : List DependencyStatus

-- NewDependencyList, with computeStatus
unfoldable pub new_dependency_list : List DependencyStatus → DependencyList
unfolding count_statuses set_status
new_dependency_list statuses =
    let (warnings, errors) = count_statuses statuses in
    record {
      envelope =
          set_status (record { kind = "DependencyList"; command = "deps"; status = none })
            (pos warnings) (pos errors);
      dependencies = statuses;
    }
