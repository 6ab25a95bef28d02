-- ===== src/Olm/Tests.antt =====
-- The choice of an API at a concrete cluster.
use odh_cli.Base.{
  ◌≡◌, refl, inl, ◌↔◌, ℕ, String, Bool, true, false, Option, none, some, List, [], ◌∷◌, ◌==◌, ltb,
  All, In, arith, if◌then◌else◌,
}
use odh_cli.Base.Strings.{trim_space}
use odh_cli.Errors.Returns.{ok}
use odh_cli.Client.{NotFoundErrors}
use odh_cli.Olm.{v0, Discovery, served, resolve_install_mode}
use odh_cli.Olm.Modes.{resolve_install_mode_iff}
use odh_cli.Olm.Channel.{CatalogEntry, read_catalog, version_of, resolve_catalog_channel}
use odh_cli.Olm.Highest.{HasVersion, IsHighest, resolve_catalog_channel_lem}

abbrev no_errors : NotFoundErrors
no_errors = record { is_no_match_error = λ e. false; is_not_found = λ e. false }

-- A cluster that serves both APIs.
abbrev both : Discovery
both version =
    if version == "operators.coreos.com/v1alpha1"
    then (some ("subscriptions" ∷ []), none)
    else (some ("clusterextensions" ∷ []), none)

resolve_install_mode_iff_example : resolve_install_mode no_errors (some both) none ≡ ok v0
unfolding served
resolve_install_mode_iff_example =
    (resolve_install_mode_iff no_errors both none v0).1 (inl (refl, refl))

-- The versions 1.9.0 and 1.10.0, by their order.
abbrev parse : String → Option ℕ
parse s = if s == "1.9.0" then some 1009 else if s == "1.10.0" then some 1010 else none

abbrev above : ℕ → ℕ → Bool
above u v = ltb v u

above_irrefl : (v : ℕ) → above v v ≡ false
above_irrefl v = ground arith

above_trans : (u v w : ℕ) → above u v ≡ true → above v w ≡ true → above u w ≡ true
above_trans u v w h k = ground arith

abbrev channel_entry : String → CatalogEntry
channel_entry name = record {
  schema = "olm.channel";
  name = name;
  package_name = "kueue-operator";
  default_channel = "";
}

abbrev entries : List CatalogEntry
entries =
    channel_entry "stable-v1.9"
    ∷ record {
      schema = "olm.package";
      name = "kueue-operator";
      package_name = "";
      default_channel = "preview";
    }
    ∷ channel_entry "stable-v1.10"
    ∷ channel_entry "preview"
    ∷ []

package_is_found : (read_catalog "kueue-operator" entries).package_found ≡ true
unfolding read_catalog
package_is_found = refl

resolve_catalog_channel_lem_example :
    let k = read_catalog "kueue-operator" entries in
    (HasVersion parse above above_irrefl above_trans k.channels
      → (c : String) × ((resolve_catalog_channel parse above entries none "kueue-operator" ≡ ok c)
          × IsHighest parse above above_irrefl above_trans c k.channels))
    × (All (λ n. version_of parse above n ≡ none) k.channels
        → (c : String)
        → resolve_catalog_channel parse above entries none "kueue-operator" ≡ ok c
          ↔ (c ≡ k.default_channel)
            × (((trim_space k.default_channel == "") ≡ false) × In c k.channels))
resolve_catalog_channel_lem_example =
    resolve_catalog_channel_lem parse above above_irrefl above_trans entries "kueue-operator"
      package_is_found

resolves_highest :
    resolve_catalog_channel parse above entries none "kueue-operator" ≡ ok "stable-v1.10"
unfolding resolve_catalog_channel
resolves_highest = refl
