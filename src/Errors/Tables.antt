-- ===== src/Errors/Tables.antt =====
-- The tables of pkg/util/errors/errors.go: which test gives an error its code, category and suggestion.
use odh_cli.Base.{String, Bool, true, false, Option, none, some, List, [], ◌∷◌}
use odh_cli.Errors.{
  ErrorCategory, authentication, authorization, connection, not_found, validation, conflict, server,
  timeout, internal, Sentinel, lint_blocked, deadline_exceeded, canceled, permission,
  olm_unavailable, Error, sentinel, path_error, net_error, dns_error, tls_error, net_wrapper,
  config_error, first_in_chain, is_some,
}

-- The predicates of k8s.io/apimachinery/pkg/api/errors that the table calls.
pub record ApiErrors : Type 0 where
  pub is_unauthorized : Error → Bool
  pub is_forbidden : Error → Bool
  pub is_not_found : Error → Bool
  pub is_already_exists : Error → Bool
  pub is_conflict : Error → Bool
  pub is_invalid : Error → Bool
  pub is_bad_request : Error → Bool
  pub is_method_not_supported : Error → Bool
  pub is_not_acceptable : Error → Bool
  pub is_unsupported_media_type : Error → Bool
  pub is_request_entity_too_large_error : Error → Bool
  pub is_gone : Error → Bool
  pub is_resource_expired : Error → Bool
  pub is_server_timeout : Error → Bool
  pub is_service_unavailable : Error → Bool
  pub is_unexpected_server_error : Error → Bool
  pub is_internal_error : Error → Bool
  pub is_timeout : Error → Bool
  pub is_too_many_requests : Error → Bool
  pub is_unexpected_object_error : Error → Bool
  pub is_store_read_error : Error → Bool

pub record ErrorEntry : Type 0 where
  pub check : Error → Bool
  pub code : String
  pub category : ErrorCategory
  pub retriable : Bool
  pub suggestion : String

abbrev pub entry : (Error → Bool) → String → ErrorCategory → Bool → String → ErrorEntry
entry check code category retriable suggestion = record {
  check = check;
  code = code;
  category = category;
  retriable = retriable;
  suggestion = suggestion;
}

abbrev pub sentinel_is : Sentinel → Error → Option (Unit {0})
sentinel_is lint_blocked (sentinel lint_blocked) = some tt
sentinel_is deadline_exceeded (sentinel deadline_exceeded) = some tt
sentinel_is canceled (sentinel canceled) = some tt
sentinel_is permission (sentinel permission) = some tt
sentinel_is olm_unavailable (sentinel olm_unavailable) = some tt
sentinel_is _ _ = none

-- `errors.Is(err, target)` for a package-level target.
abbrev pub is_sentinel : Sentinel → Error → Bool
is_sentinel k e = is_some (first_in_chain (sentinel_is k) e)

abbrev pub pick_path : Error → Option (Unit {0})
pick_path (path_error op e) = some tt
pick_path _ = none

abbrev pub pick_config : Error → Option (Unit {0})
pick_config (config_error e) = some tt
pick_config _ = none

abbrev pub pick_tls : Error → Option (Unit {0})
pick_tls (tls_error s) = some tt
pick_tls _ = none

abbrev pub pick_dns : Error → Option (Unit {0})
pick_dns (dns_error t s) = some tt
pick_dns _ = none

-- The first net.Error of the chain, by its Timeout(); context.DeadlineExceeded is one.
abbrev pub pick_net : Error → Option Bool
pick_net (sentinel deadline_exceeded) = some true
pick_net (net_error t s) = some t
pick_net (dns_error t s) = some t
pick_net (net_wrapper t op e) = some t
pick_net _ = none

unfoldable pub is_deadline_exceeded : Error → Bool
is_deadline_exceeded e = is_sentinel deadline_exceeded e

unfoldable pub is_context_canceled : Error → Bool
is_context_canceled e = is_sentinel canceled e

unfoldable pub is_permission_error : Error → Bool
is_permission_error e = is_sentinel permission e

unfoldable pub is_filesystem_error : Error → Bool
is_filesystem_error e = is_some (first_in_chain pick_path e)

unfoldable pub is_config_error : Error → Bool
is_config_error e = is_some (first_in_chain pick_config e)

unfoldable pub is_tls_error : Error → Bool
is_tls_error e = is_some (first_in_chain pick_tls e)

unfoldable pub is_dns_error : Error → Bool
is_dns_error e = is_some (first_in_chain pick_dns e)

unfoldable pub is_network_timeout : Error → Bool
is_network_timeout e = elim (first_in_chain pick_net e) [ none ↦ false | some t ↦ t ]

unfoldable pub is_network_error : Error → Bool
is_network_error e = is_some (first_in_chain pick_net e)

abbrev pub suggestion_validation : String
suggestion_validation = "Check the request parameters and resource spec"

abbrev pub suggestion_gone : String
suggestion_gone = "Resource version expired, retry with a fresh list/watch"

abbrev pub suggestion_server : String
suggestion_server = "API server error, retry later"

abbrev pub suggestion_timeout : String
suggestion_timeout = "Increase --timeout value or retry the operation"

abbrev pub suggestion_connection : String
suggestion_connection = "Check if the API server is reachable"

abbrev pub suggestion_internal : String
suggestion_internal = "Unexpected error, please report a bug"

unfoldable pub api_error_table : ApiErrors → List ErrorEntry
api_error_table api =
    entry api.is_unauthorized "AUTH_FAILED" authentication false
      "Refresh your kubeconfig credentials with 'oc login' or 'kubectl config'"
    ∷ entry api.is_forbidden "AUTHZ_DENIED" authorization false
        "Verify your RBAC permissions for the required resources"
    ∷ entry api.is_not_found "NOT_FOUND" not_found false "Verify the resource exists in the cluster"
    ∷ entry api.is_already_exists "ALREADY_EXISTS" conflict false
        "Resource already exists, use update or delete first"
    ∷ entry api.is_conflict "CONFLICT" conflict true
        "Retry the operation (resource was modified concurrently)"
    ∷ entry api.is_invalid "INVALID" validation false suggestion_validation
    ∷ entry api.is_bad_request "BAD_REQUEST" validation false suggestion_validation
    ∷ entry api.is_method_not_supported "METHOD_NOT_SUPPORTED" validation false
        suggestion_validation
    ∷ entry api.is_not_acceptable "NOT_ACCEPTABLE" validation false suggestion_validation
    ∷ entry api.is_unsupported_media_type "UNSUPPORTED_MEDIA_TYPE" validation false
        suggestion_validation
    ∷ entry api.is_request_entity_too_large_error "REQUEST_TOO_LARGE" validation false
        "Reduce the size of the request payload"
    ∷ entry api.is_gone "GONE" server true suggestion_gone
    ∷ entry api.is_resource_expired "RESOURCE_EXPIRED" server true suggestion_gone
    ∷ entry api.is_server_timeout "SERVER_TIMEOUT" timeout true suggestion_timeout
    ∷ entry api.is_service_unavailable "SERVER_UNAVAILABLE" server true suggestion_server
    ∷ entry api.is_unexpected_server_error "UNEXPECTED_SERVER_ERROR" server true suggestion_server
    ∷ entry api.is_internal_error "SERVER_ERROR" server true suggestion_server
    ∷ entry api.is_timeout "GATEWAY_TIMEOUT" timeout true suggestion_timeout
    ∷ entry api.is_too_many_requests "RATE_LIMITED" server true
        "Too many requests, retry after a brief wait"
    ∷ entry api.is_unexpected_object_error "UNEXPECTED_OBJECT" server false suggestion_server
    ∷ entry api.is_store_read_error "STORE_READ_ERROR" server true suggestion_server
    ∷ []

unfoldable pub local_error_table : List ErrorEntry
local_error_table =
    entry is_deadline_exceeded "TIMEOUT" timeout true suggestion_timeout
    ∷ entry is_context_canceled "CANCELED" internal false "Operation was canceled"
    ∷ entry is_permission_error "PERMISSION_DENIED" validation false
        "Check file and directory permissions for the target path"
    ∷ entry is_filesystem_error "CONFIG_INVALID" validation false
        "Verify the file path exists and is readable (e.g. --kubeconfig)"
    ∷ entry is_config_error "CONFIG_INVALID" validation false
        "Check your kubeconfig: verify the --context, --cluster, and --kubeconfig flags are correct"
    ∷ entry is_tls_error "TLS_CERT_INVALID" authentication false
        "Verify the certificate authority bundle, check the server certificate validity, and ensure the hostname matches the certificate"
    ∷ entry is_dns_error "DNS_FAILED" connection true
        "Verify the server hostname in your kubeconfig is correct and DNS is configured"
    ∷ entry is_network_timeout "NET_TIMEOUT" timeout true suggestion_timeout
    ∷ entry is_network_error "CONN_FAILED" connection true suggestion_connection
    ∷ []
