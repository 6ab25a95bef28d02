-- ===== src/Install/Options.antt =====
-- The options of `deps install` (pkg/deps/install.go): what comes from stdin, and Validate. semver.Parse
-- is the parameter `parse`, by the major and the minor version.
use odh_cli.Base.{
  ℕ, String, Bool, true, false, not, ◌&&◌, ◌||◌, Option, none, some, List, [], ◌∷◌, if◌then◌else◌,
  ◌==◌, nat_eq, quote,
}
use Prim.Native.String.{◌++◌}
use Prim.Native.Nat.{zero, suc}
use odh_cli.Base.Strings.{trim_space, trim_prefix}
use odh_cli.Errors.{
  Error, text, wrapped, structured, no_cause, new_validation_error, exit_code_error,
  olm_unavailable,
}
use odh_cli.Errors.ExitCode.{exit_validation}
use odh_cli.Errors.Tables.{is_sentinel}
use odh_cli.Errors.Returns.{Returns, ok, fail}
use odh_cli.Client.{NotFoundErrors}
use odh_cli.Output.{ℤ, pos, negsuc}
use odh_cli.Olm.{Mode, v0, v1, Discovery, resolve_install_mode}
use odh_cli.Install.{InstallCommand}

-- StdinInput; `deps` tells a nil slice from an empty one.
pub record StdinInput : Type 0 where
  pub deps : Option (List String)
  pub version : String
  pub dry_run : Bool
  pub include_optional : Bool
  pub refresh : Bool
  pub service_account : String
  pub olm_mode : String

-- The loop that trims the names; `index` is printed as a number by `print`.
unfoldable pub trim_names : (ℕ → String) → ℕ → List String → Returns (List String)
unfolding trim_space
trim_names print index [] = ok []
trim_names print index (name ∷ names) =
    let rest = trim_names print (suc index) names in
    if trim_space name == ""
    then fail (text ("empty dep name at index " ++ print index))
    else elim rest [ fail err ↦ fail err | ok trimmed ↦ ok (trim_space name ∷ trimmed) ]

-- applyStdinOptions; `changed` is stdin.FlagChanged for the command's flags.
unfoldable pub apply_stdin_options : (String → Bool) → StdinInput → InstallCommand → InstallCommand
apply_stdin_options changed i c = record c {
  version = if not (i.version == "") && not (changed "version") then i.version else c.version;
  dry_run = if i.dry_run && not (changed "dry-run") then true else c.dry_run;
  include_optional =
      if i.include_optional && not (changed "include-optional") then true else c.include_optional;
  refresh = if i.refresh && not (changed "refresh") then true else c.refresh;
  service_account =
      if not (i.service_account == "") && not (changed "service-account")
      then i.service_account
      else c.service_account;
  olm_mode = if not (i.olm_mode == "") && not (changed "olm-mode") then i.olm_mode else c.olm_mode;
}

-- `c.TargetDep != "" || len(c.TargetDeps) > 0`
abbrev pub has_target : InstallCommand → Bool
has_target c =
    not (c.target_dep == "")
    || (elim c.target_deps [ none ↦ false | some [] ↦ false | some (d ∷ ds) ↦ true ])

-- applyStdinInput
unfoldable pub apply_stdin_input :
    (ℕ → String) → (String → Bool) → StdinInput → InstallCommand → Returns InstallCommand
unfolding trim_names apply_stdin_options
apply_stdin_input print changed i c = elim i.deps [
  | none ↦ ok (apply_stdin_options changed i c)
  | some names ↦ elim (trim_names print 0 names) [
    | fail err ↦ fail err
    | ok trimmed ↦
        if has_target c
        then fail (text "cannot specify both a positional dependency argument and deps in stdin")
        else ok (apply_stdin_options changed i (record c { target_deps = some trimmed }))
  ]
]

-- The rest of Complete: one positional name becomes the list of names.
unfoldable pub normalize_target : InstallCommand → InstallCommand
normalize_target c = elim c.target_deps [
  | some (d ∷ ds) ↦ c
  | some [] ↦ from_target
  | none ↦ from_target
]
  where
    from_target : InstallCommand
    from_target =
        if c.target_dep == ""
        then c
        else record c { target_deps = some (c.target_dep ∷ []); target_dep = "" }

-- The options as Complete leaves them, for an input from stdin, if `--from-stdin` is set.
unfoldable pub complete :
    (ℕ → String) → (String → Bool) → Option StdinInput → InstallCommand → Returns InstallCommand
unfolding apply_stdin_input normalize_target
complete print changed none c = ok (normalize_target c)
complete print changed (some i) c = elim (apply_stdin_input print changed i c) [
  | fail err ↦ fail (exit_code_error exit_validation err)
  | ok d ↦ ok (normalize_target d)
]

-- majorMinorMatch
unfoldable pub major_minor_match : (String → Option (ℕ × ℕ)) → String → String → Bool
unfolding trim_prefix
major_minor_match parse v w =
    if v == "" || w == "" then false else elim (parse (trim_prefix v "v")) [
      | none ↦ false
      | some (major, minor) ↦ elim (parse (trim_prefix w "v")) [
        | none ↦ false
        | some (major', minor') ↦ nat_eq major major' && nat_eq minor minor'
      ]
    ]

-- requestedOLMMode
unfoldable pub requested_olm_mode : InstallCommand → Returns (Option Mode)
requested_olm_mode c =
    if c.olm_mode == "" || c.olm_mode == "auto"
    then ok none
    else if c.olm_mode == "v0"
    then ok (some v0)
    else if c.olm_mode == "v1"
    then ok (some v1)
    else fail (text ("invalid --olm-mode " ++ (quote c.olm_mode ++ ": must be auto, v0, or v1")))

abbrev pub not_available : Error
not_available =
    text "OLM (Operator Lifecycle Manager) is not available; cannot install dependencies"

abbrev pub version_unavailable : InstallCommand → Error
version_unavailable c =
    structured
      (new_validation_error "VERSION_UNAVAILABLE"
        ("dependencies for version "
          ++ (quote c.version
              ++ (" are not available; only version " ++ (c.manifest_version ++ " is supported"))))
        "Use --refresh to fetch the latest manifest, or omit --version to use the embedded version")
      no_cause

-- `if mode == utilolm.ModeV1 && c.client.ControllerRuntime() == nil`
abbrev pub lacks_runtime : Mode → Bool → Bool
lacks_runtime v1 has_runtime = not has_runtime
lacks_runtime v0 has_runtime = false

-- The part of Validate that selects the mode.
unfoldable pub select_mode :
    NotFoundErrors → Option Discovery → Bool → InstallCommand → Returns InstallCommand
unfolding requested_olm_mode
select_mode api discovery has_runtime c = elim (requested_olm_mode c) [
  | fail err ↦ fail err
  | ok requested ↦ if c.dry_run then ok c else elim (resolve_install_mode api discovery requested) [
    | fail err ↦
        if (elim requested [ none ↦ true | some m ↦ false ]) && is_sentinel olm_unavailable err
        then fail not_available
        else fail (wrapped "detect OLM API: " err "")
    | ok mode ↦
        if lacks_runtime mode has_runtime
        then fail not_available
        else ok (record c { selected = some mode })
  ]
]

abbrev pub is_positive : ℤ → Bool
is_positive (pos (suc n)) = true
is_positive (pos zero) = false
is_positive (negsuc n) = false

-- Validate: the command after it, or the error. `embedded` is ManifestVersion, and `print` prints a
-- duration.
unfoldable pub validate :
    (String → Option (ℕ × ℕ))
    → (ℤ → String)
    → Returns String
    → NotFoundErrors
    → Option Discovery
    → Bool
    → InstallCommand
    → Returns InstallCommand
unfolding select_mode major_minor_match
validate parse print embedded api discovery has_runtime c =
    if not (is_positive c.timeout)
    then fail (text ("--timeout must be positive, got " ++ print c.timeout))
    else elim (select_mode api discovery has_runtime c) [
      | fail err ↦ fail err
      | ok d ↦ if d.refresh then ok d else elim embedded [
        | fail err ↦ fail (wrapped "failed to determine manifest version: " err "")
        | ok v ↦
            let e = record d { manifest_version = v } in
            if not (e.version == "") && not (major_minor_match parse e.version v)
            then fail (version_unavailable e)
            else ok e
      ]
    ]
