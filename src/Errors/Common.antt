-- ===== src/Errors/Common.antt =====
-- pkg/util/errors/common.go: errors of the commands, by classification with a context in front.
use Prim.Native.String.{◌++◌}
use odh_cli.Base.{String, Bool, true, false, Option, none, some}
use odh_cli.Errors.{
  ErrorCategory, connection, not_found, validation, internal, StructuredError, Error, Cause,
  no_cause, error_text,
}
use odh_cli.Errors.Tables.{ApiErrors}
use odh_cli.Errors.Classify.{classify}

-- Classify, on any error value: `none` is nil.
unfoldable pub classify? : ApiErrors → Option Error → Option (StructuredError × Cause)
classify? api none = none
classify? api (some err) = some (classify api err)

abbrev pub plain_error : String → String → ErrorCategory → Bool → String → StructuredError
plain_error code message category retriable suggestion = record {
  code = code;
  message = message;
  category = category;
  exit_code = 0;
  retriable = retriable;
  suggestion = suggestion;
}

-- classifyOrWrap; `none` is the panic of `err.Error()` on nil.
unfoldable pub classify_or_wrap :
    ApiErrors
    → Option Error
    → String
    → String
    → String
    → ErrorCategory
    → Bool
    → Option (StructuredError × Cause)
unfolding classify?
classify_or_wrap api err code context suggestion category retriable = elim (classify? api err) [
  | some (s, c) ↦ some (record s { message = context ++ (": " ++ s.message) }, c)
  | none ↦ elim err [
    | none ↦ none
    | some e ↦ some (
      plain_error code (context ++ (": " ++ error_text e)) category retriable suggestion,
      no_cause,
    )
  ]
]

unfoldable pub err_config_failed : ApiErrors → Option Error → Option (StructuredError × Cause)
err_config_failed api err =
    classify_or_wrap api err "CONFIG_FAILED" "failed to create REST config"
      "Verify your kubeconfig is valid and the cluster is reachable" validation false

unfoldable pub err_client_failed : ApiErrors → Option Error → Option (StructuredError × Cause)
err_client_failed api err =
    classify_or_wrap api err "CLIENT_FAILED" "failed to create Kubernetes client"
      "Ensure the cluster is running and accessible" connection true

unfoldable pub err_cr_client_failed : ApiErrors → Option Error → Option (StructuredError × Cause)
err_cr_client_failed api err =
    classify_or_wrap api err "CLIENT_FAILED" "failed to create controller-runtime client"
      "Ensure the cluster is running and accessible" connection true

unfoldable pub err_namespace_failed : ApiErrors → Option Error → Option (StructuredError × Cause)
err_namespace_failed api err =
    classify_or_wrap api err "NAMESPACE_FAILED" "failed to determine namespace from kubeconfig"
      "Verify your kubeconfig is valid and the cluster is reachable" validation false

unfoldable pub err_dsci_failed : ApiErrors → Option Error → Option (StructuredError × Cause)
err_dsci_failed api err =
    classify_or_wrap api err "DSCI_FAILED" "failed to get DSCInitialization"
      "Ensure ODH/RHOAI is properly installed" internal true

unfoldable pub err_no_namespaces_discovered : StructuredError
err_no_namespaces_discovered =
    plain_error "NOT_FOUND" "no ODH namespaces discovered" not_found false
      "Ensure ODH/RHOAI is properly installed"

unfoldable pub err_operator_namespace_not_found : StructuredError
err_operator_namespace_not_found =
    plain_error "NOT_FOUND" "could not discover operator namespace" not_found false
      "Use --operator-namespace to specify the operator namespace"

unfoldable pub err_render_failed : String → Error → StructuredError
err_render_failed format err =
    plain_error "RENDER_FAILED" ("failed to render " ++ (format ++ (" output: " ++ error_text err)))
      internal false "Try again; if the problem persists, check cluster connectivity"

unfoldable pub err_events_fetch_failed : ApiErrors → Option Error → Option (StructuredError × Cause)
err_events_fetch_failed api err =
    classify_or_wrap api err "EVENTS_FETCH_FAILED" "failed to fetch events"
      "Try again; if the problem persists, check cluster connectivity" internal true
