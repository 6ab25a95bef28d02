-- ===== src/Olm.antt =====
-- pkg/util/kube/olm/mode.go: which of the two APIs of the Operator Lifecycle Manager is used.
pub mod Modes
pub mod Channel
pub mod Highest
mod Tests
use odh_cli.Base.{
  String, Bool, true, false, ◌||◌, Option, none, some, List, [], ◌∷◌, if◌then◌else◌, has,
}
use Prim.Native.String.{◌++◌}
use odh_cli.Errors.{Error, sentinel, wrapped, olm_unavailable}
use odh_cli.Errors.Returns.{Returns, ok, fail}
use odh_cli.Client.{NotFoundErrors}

pub data Mode : Type 0 where
  v0 v1 : Mode

-- discovery.DiscoveryInterface, by ServerResourcesForGroupVersion: the names of the resources of a
-- group and version, which may be nil, and an error, which may be nil.
abbrev pub Discovery : Type 0
Discovery = String → Option (List String) × Option Error

-- resourceAvailable
unfoldable pub resource_available : NotFoundErrors → Discovery → String → String → Returns Bool
resource_available api discovery version resource =
    let (resources, err) = discovery version in
    if (elim resources [ none ↦ false | some names ↦ has names resource ])
    then ok true
    else elim err [
      | none ↦ ok false
      | some e ↦
          if api.is_not_found e || api.is_no_match_error e
          then ok false
          else fail (
              wrapped ("discovering resource " ++ (resource ++ (" in " ++ (version ++ ": ")))) e "")
    ]

-- Whether the API of a mode is served.
unfoldable pub served : NotFoundErrors → Discovery → Mode → Returns Bool
unfolding resource_available
served api discovery v0 =
    resource_available api discovery "operators.coreos.com/v1alpha1" "subscriptions"
served api discovery v1 =
    resource_available api discovery "olm.operatorframework.io/v1" "clusterextensions"

-- ErrUnavailable
abbrev pub err_unavailable : Error
err_unavailable = sentinel olm_unavailable

abbrev pub mode_text : Mode → String
mode_text v0 = "v0"
mode_text v1 = "v1"

abbrev pub not_served : Mode → Error
not_served m =
    wrapped ("requested OLM " ++ (mode_text m ++ " API is not available: ")) err_unavailable ""

-- DetectMode; `none` is a nil client.
unfoldable pub detect_mode : NotFoundErrors → Option Discovery → Returns Mode
detect_mode api none = fail err_unavailable
detect_mode api (some d) = elim (served api d v1) [
  | fail e ↦ fail (wrapped "discovering OLM v1: " e "")
  | ok true ↦ ok v1
  | ok false ↦ elim (served api d v0) [
    | fail e ↦ fail (wrapped "discovering OLM v0: " e "")
    | ok true ↦ ok v0
    | ok false ↦ fail err_unavailable
  ]
]

-- `if err != nil { return err }; if available { return m }`, and what follows.
abbrev pub use_if : Returns Bool → Mode → Returns Mode → Returns Mode
use_if (fail e) m other = fail e
use_if (ok true) m other = ok m
use_if (ok false) m other = other

-- ResolveInstallMode for a client that is not nil; an empty requested mode is `none`.
unfoldable pub resolve_for : NotFoundErrors → Discovery → Option Mode → Returns Mode
resolve_for api d (some v1) = use_if (served api d v1) v1 (fail (not_served v1))
resolve_for api d (some v0) = use_if (served api d v0) v0 (fail (not_served v0))
resolve_for api d none =
    use_if (served api d v0) v0 (use_if (served api d v1) v1 (fail err_unavailable))

-- ResolveInstallMode
unfoldable pub resolve_install_mode : NotFoundErrors → Option Discovery → Option Mode → Returns Mode
unfolding resolve_for
resolve_install_mode api none requested = fail err_unavailable
resolve_install_mode api (some d) requested = resolve_for api d requested
