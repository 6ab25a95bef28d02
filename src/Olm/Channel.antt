-- ===== src/Olm/Channel.antt =====
-- pkg/util/kube/olm/channel.go: the channel of an operator's package. semver.Parse is the parameter
-- `parse`, without its error, and Version.GT is `gt`.
use odh_cli.Base.{
  String, Bool, true, false, not, ◌&&◌, ◌||◌, Option, none, some, List, [], ◌∷◌, ◌++◌,
  if◌then◌else◌, ◌==◌, ltb, nat_eq, has, split, join, quote,
}
use odh_cli.Base.Strings.{cut_prefix, trim_space}
use Prim.Native.Char.{code}
use Prim.Native.String.{◌++◌ as string_append}
use odh_cli.Errors.{Error, text, wrapped}
use odh_cli.Errors.Returns.{Returns, ok, fail}

-- `\d+(?:\.\d+)*` up to the end of the text; the flag says that a digit is before it.
unfoldable pub is_version_text : Bool → String → Bool
is_version_text after_digit String.[] = after_digit
is_version_text after_digit (String.◌∷◌ c s) =
    (ltb 47 (code c) && (ltb (code c) 58 && is_version_text true s))
    || (nat_eq (code c) 46 && (after_digit && is_version_text false s))

-- stableChannelPattern: the group that it captures.
unfoldable pub stable_version : String → Option String
unfolding cut_prefix is_version_text
stable_version name = elim (cut_prefix name "stable-v") [
  | none ↦ none
  | some version ↦ if is_version_text false version then some version else none
]

-- `for len(parts) < 3 { parts = append(parts, "0") }`, and `parts[:3]`
abbrev pub three_parts : List String → List String
three_parts [] = "0" ∷ "0" ∷ "0" ∷ []
three_parts (a ∷ []) = a ∷ "0" ∷ "0" ∷ []
three_parts (a ∷ b ∷ []) = a ∷ b ∷ "0" ∷ []
three_parts (a ∷ b ∷ c ∷ rest) = a ∷ b ∷ c ∷ []

module _ {V : Type 0} (parse : String → Option V) (gt : V → V → Bool) where
  -- parseChannelVersion
  unfoldable pub parse_channel_version : String → Option V
  unfolding split join
  parse_channel_version version = parse (join "." (three_parts (split 46 version)))

  -- The version of a channel that the loop of selectChannel compares.
  unfoldable pub version_of : String → Option V
  unfolding stable_version parse_channel_version
  version_of name =
      if name == ""
      then none
      else elim (stable_version name) [ none ↦ none | some version ↦ parse_channel_version version ]

  -- A channel with a version is taken if there is no best one, or it is greater.
  abbrev pub better : Option (String × V) → String → Option V → Option (String × V)
  better best name none = best
  better none name (some v) = some (name, v)
  better (some (c, w)) name (some v) = if gt v w then some (name, v) else some (c, w)

  -- The loop of selectChannel.
  unfoldable pub best_channel : Option (String × V) → List String → Option (String × V)
  unfolding version_of
  best_channel best [] = best
  best_channel best (name ∷ names) = best_channel (better best name (version_of name)) names

  abbrev pub channel_or_default : Option (String × V) → String → Returns String
  channel_or_default (some (c, v)) default_channel = ok c
  channel_or_default none default_channel =
      if trim_space default_channel == ""
      then fail (text "no stable-v* or defaultChannel found")
      else ok default_channel

  -- selectChannel
  unfoldable pub select_channel : List String → String → Returns String
  unfolding best_channel trim_space
  select_channel channels default_channel =
      channel_or_default (best_channel none channels) default_channel

-- An entry of a ClusterCatalog, as far as it is decoded.
pub record CatalogEntry : Type 0 where
  pub schema : String
  pub name : String
  pub package_name : String
  pub default_channel : String

-- What the loop of ResolveCatalogChannel has read.
pub record Catalog : Type 0 where
  pub channels : List String
  pub default_channel : String
  pub package_found : Bool

-- One round of the loop.
unfoldable pub read_entry : String → Catalog → CatalogEntry → Catalog
read_entry package_name k e =
    if e.schema == "olm.package" && e.name == package_name
    then record k { package_found = true; default_channel = e.default_channel }
    else if e.schema == "olm.channel" && e.package_name == package_name
    then record k { channels = k.channels ++ e.name ∷ [] }
    else k

unfoldable pub read_entries : String → Catalog → List CatalogEntry → Catalog
unfolding read_entry
read_entries package_name k [] = k
read_entries package_name k (e ∷ es) = read_entries package_name (read_entry package_name k e) es

unfoldable pub read_catalog : String → List CatalogEntry → Catalog
unfolding read_entries
read_catalog package_name entries =
    read_entries package_name
      (record { channels = []; default_channel = ""; package_found = false }) entries

-- The channel that is selected has to be one of the catalog.
abbrev pub offered : String → List String → Returns String → Returns String
offered package_name channels (fail err) =
    fail (wrapped (string_append "package " (string_append (quote package_name) ": ")) err "")
offered package_name channels (ok channel) =
    if has channels channel
    then ok channel
    else fail (
        text (
          string_append "channel " (
            string_append (quote channel) (
              string_append " for package "
                (string_append (quote package_name) " not found in ClusterCatalog")))))

abbrev pub missing : String → Error
missing package_name =
    text
      (string_append "package " (string_append (quote package_name) " not found in ClusterCatalog"))

-- ResolveCatalogChannel, on the entries that the decoder reads up to the end of the content, or up to
-- its error.
unfoldable pub resolve_catalog_channel :
    {V : Type 0}
    → (String → Option V)
    → (V → V → Bool)
    → List CatalogEntry
    → Option Error
    → String
    → Returns String
unfolding read_catalog select_channel
resolve_catalog_channel parse gt entries (some err) package_name =
    fail (wrapped "decode ClusterCatalog content: " err "")
resolve_catalog_channel parse gt entries none package_name =
    let k = read_catalog package_name entries in
    if not k.package_found
    then fail (missing package_name)
    else offered package_name k.channels (select_channel parse gt k.channels k.default_channel)
