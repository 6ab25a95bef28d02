-- ===== src/Client.antt =====
-- pkg/util/client/errors.go: which errors of the API server end a retry loop.
use odh_cli.Base.{Bool, ◌||◌}
use odh_cli.Errors.{Error}
use odh_cli.Errors.Tables.{ApiErrors}

-- IsUnrecoverableError
unfoldable pub is_unrecoverable_error : ApiErrors → Error → Bool
is_unrecoverable_error api err =
    api.is_forbidden err
    || (api.is_unauthorized err
        || (api.is_invalid err || (api.is_method_not_supported err || api.is_not_acceptable err)))

-- IsPermissionError
unfoldable pub is_permission_error : ApiErrors → Error → Bool
is_permission_error api err = api.is_forbidden err || api.is_unauthorized err

-- The tests of k8s.io/apimachinery that IsResourceTypeNotFound calls.
pub record NotFoundErrors : Type 0 where
  pub is_no_match_error : Error → Bool
  pub is_not_found : Error → Bool

-- IsResourceTypeNotFound
unfoldable pub is_resource_type_not_found : NotFoundErrors → Error → Bool
is_resource_type_not_found api err = api.is_no_match_error err || api.is_not_found err
