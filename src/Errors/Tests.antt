-- ===== src/Errors/Tests.antt =====
-- The theorems on errors at concrete errors.
use odh_cli.Base.{◌≡◌, ◌≢◌, refl, some, false}
use odh_cli.Errors.{
  StructuredError, Error, text, net_wrapper, dns_error, exit_code_error, structured, wrapped,
  no_cause, validation, first_in_chain,
}
use odh_cli.Errors.ExitCode.{exit_code_from_category, exit_connection}
use odh_cli.Errors.Tables.{
  ApiErrors, api_error_table, local_error_table, is_deadline_exceeded, is_context_canceled,
  is_permission_error, is_filesystem_error, is_config_error, is_tls_error, is_dns_error,
}
use odh_cli.Errors.Classify.{match_entry, classify, exit_code_from_error}
use odh_cli.Errors.Agreement.{classify-exit_code, classify-exit_code_unset}

-- No error is one of the API server.
abbrev pub no_api_errors : ApiErrors
no_api_errors = record {
  is_unauthorized = λ e. false;
  is_forbidden = λ e. false;
  is_not_found = λ e. false;
  is_already_exists = λ e. false;
  is_conflict = λ e. false;
  is_invalid = λ e. false;
  is_bad_request = λ e. false;
  is_method_not_supported = λ e. false;
  is_not_acceptable = λ e. false;
  is_unsupported_media_type = λ e. false;
  is_request_entity_too_large_error = λ e. false;
  is_gone = λ e. false;
  is_resource_expired = λ e. false;
  is_server_timeout = λ e. false;
  is_service_unavailable = λ e. false;
  is_unexpected_server_error = λ e. false;
  is_internal_error = λ e. false;
  is_timeout = λ e. false;
  is_too_many_requests = λ e. false;
  is_unexpected_object_error = λ e. false;
  is_store_read_error = λ e. false;
}

abbrev dns_failure : Error
dns_failure =
    wrapped "list pods: " (net_wrapper false "Get https://api" (dns_error false "no such host")) ""

-- What NewValidationError builds for a bad flag.
abbrev bad_flag : StructuredError
bad_flag = record {
  code = "INVALID_FLAG";
  message = "bad flag";
  category = validation;
  exit_code = 0;
  retriable = false;
  suggestion = "use --help";
}

abbrev silent_failure : Error
silent_failure = wrapped "lint: " (exit_code_error 0 (text "nothing to report")) ""

classify-exit_code_example :
    (classify no_api_errors dns_failure).0.exit_code
    ≡ exit_code_from_error no_api_errors (some dns_failure)
unfolding first_in_chain
classify-exit_code_example = classify-exit_code no_api_errors dns_failure refl refl

classify-exit_code_unset_example :
    ((classify no_api_errors (structured bad_flag no_cause)).0.exit_code ≡ 0)
    × (exit_code_from_error no_api_errors (some (structured bad_flag no_cause))
        ≡ exit_code_from_category validation)
    × (exit_code_from_error no_api_errors (some (structured bad_flag no_cause)) ≢ 0)
unfolding first_in_chain
classify-exit_code_unset_example =
    classify-exit_code_unset no_api_errors (structured bad_flag no_cause) bad_flag no_cause refl
      refl refl

-- A host that is not found makes the process exit with the code of a connection failure.
dns_failure-code : exit_code_from_error no_api_errors (some dns_failure) ≡ exit_connection
unfolding exit_code_from_error classify local_error_table first_in_chain exit_code_from_category
    match_entry api_error_table is_deadline_exceeded is_context_canceled is_permission_error
    is_filesystem_error is_config_error is_tls_error is_dns_error
dns_failure-code = refl
