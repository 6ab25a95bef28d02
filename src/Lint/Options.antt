-- ===== src/Lint/Options.antt =====
-- pkg/lint/command_options.go: the validation of the shared options.
use odh_cli.Base.{
  zero, suc, String, ◌||◌, Option, none, some, List, [], ◌∷◌, if◌then◌else◌, ◌==◌, quote,
}
use Prim.Native.String.{◌++◌}
use odh_cli.Errors.{Error, text, wrapped, or_else}
use odh_cli.Output.{ℤ, pos, negsuc}
use odh_cli.Lint.Glob.{path_match}

-- OutputFormat.Validate
unfoldable pub validate_output_format : String → Option Error
validate_output_format o =
    if o == "table" || (o == "json" || o == "yaml")
    then none
    else some (text ("invalid output format: " ++ (o ++ " (must be one of: table, json, yaml)")))

-- SeverityLevel.Validate
unfoldable pub validate_severity_level : String → Option Error
validate_severity_level s =
    if s == "prohibited" || (s == "critical" || (s == "warning" || s == "info"))
    then none
    else some (
        text (
          "invalid severity level: "
          ++ (s ++ " (must be one of: prohibited, critical, warning, info)")))

-- ValidateCheckSelector
unfoldable pub validate_check_selector : String → Option Error
unfolding path_match
validate_check_selector selector =
    if selector == ""
    then some (text "check selector cannot be empty")
    else elim (path_match selector "test.check") [
      | some matched ↦ none
      | none ↦ some (
          wrapped ("invalid check selector pattern " ++ (quote selector ++ ": "))
            (text "syntax error in pattern") "")
    ]

-- The loop of ValidateCheckSelectors.
unfoldable pub validate_each_selector : List String → Option Error
unfolding validate_check_selector
validate_each_selector [] = none
validate_each_selector (s ∷ selectors) = elim (validate_check_selector s) [
  | some err ↦ some err
  | none ↦ validate_each_selector selectors
]

-- ValidateCheckSelectors
unfoldable pub validate_check_selectors : List String → Option Error
unfolding validate_each_selector
validate_check_selectors [] = some (text "at least one check selector is required")
validate_check_selectors (s ∷ selectors) = validate_each_selector (s ∷ selectors)

abbrev pub timeout_error : ℤ → Option Error
timeout_error (pos zero) = some (text "timeout must be greater than 0")
timeout_error (pos (suc n)) = none
timeout_error (negsuc n) = some (text "timeout must be greater than 0")

-- SharedOptions.Validate: the first error counts.
unfoldable pub validate_shared_options : String → String → List String → ℤ → Option Error
unfolding validate_output_format validate_severity_level validate_check_selectors
validate_shared_options format severity selectors timeout =
    or_else (validate_output_format format) (
      or_else (validate_severity_level severity)
        (or_else (validate_check_selectors selectors) (timeout_error timeout)))
