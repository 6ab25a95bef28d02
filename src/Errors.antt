-- ===== src/Errors.antt =====
-- pkg/util/errors/types.go: the error values of the CLI, as a tree, and Go's walk along their chains.
-- `Error` has a constructor for each kind of value that the package's tests tell apart; the rest of
-- Go's and Kubernetes' error types are `text`.
pub mod Returns
pub mod ExitCode
pub mod Tables
pub mod Classify
pub mod Common
pub mod Codes
pub mod Agreement
pub mod Tests
use odh_cli.Base.{ℕ, String, Bool, true, false, Option, none, some, if◌then◌else◌, ◌||◌}
use Prim.Native.String.{◌++◌}

pub data ErrorCategory : Type 0 where
  authentication authorization connection not_found validation conflict server timeout internal :
      ErrorCategory

pub record StructuredError : Type 0 where
  pub code : String
  pub message : String
  pub category : ErrorCategory
  pub exit_code : ℕ
  pub retriable : Bool
  pub suggestion : String

-- The package-level error values, each compared by identity.
pub data Sentinel : Type 0 where
  already_handled lint_blocked lint_advisory deadline_exceeded canceled permission olm_unavailable :
      Sentinel

mutual
  pub data Error : Type 0 where
    -- errors.New, and any type that no test of the package looks for
    text : String → Error
    sentinel : Sentinel → Error
    -- a StatusError of apimachinery: its reason and its message
    api_status : String → String → Error
    -- fs.PathError: the operation with the path, and the error below
    path_error : String → Error → Error
    -- a net.Error with no error below: its Timeout() and its message; net.DNSError; crypto/tls, x509
    net_error : Bool → String → Error
    dns_error : Bool → String → Error
    tls_error : String → Error
    -- a net.Error over another error, such as url.Error
    net_wrapper : Bool → String → Error → Error
    config_error : Error → Error
    exit_code_error : ℕ → Error → Error
    structured : StructuredError → Cause → Error
    -- fmt.Errorf with one %w between two texts; two errors with a text between them, by fmt.Errorf with
    -- two %w or by errors.Join
    wrapped : String → Error → String → Error
    joined : String → Error → Error → Error

  -- the field `cause` of StructuredError
  pub data Cause : Type 0 where
    no_cause : Cause
    cause : Error → Cause

abbrev pub category_text : ErrorCategory → String
category_text authentication = "authentication"
category_text authorization = "authorization"
category_text connection = "connection"
category_text not_found = "not_found"
category_text validation = "validation"
category_text conflict = "conflict"
category_text server = "server"
category_text timeout = "timeout"
category_text internal = "internal"

abbrev pub sentinel_text : Sentinel → String
sentinel_text already_handled = "error already rendered to output"
sentinel_text lint_blocked = "prohibited or blocking findings detected"
sentinel_text lint_advisory = "advisory findings detected"
sentinel_text deadline_exceeded = "context deadline exceeded"
sentinel_text canceled = "context canceled"
sentinel_text permission = "permission denied"
sentinel_text olm_unavailable = "OLM installation API is not available"

-- `err.Error()`.
unfoldable pub error_text : Error → String
error_text (text s) = s
error_text (sentinel k) = sentinel_text k
error_text (api_status reason s) = s
error_text (path_error op e) = op ++ (": " ++ error_text e)
error_text (net_error t s) = s
error_text (dns_error t s) = s
error_text (tls_error s) = s
error_text (net_wrapper t op e) = op ++ (": " ++ error_text e)
error_text (config_error e) = error_text e
error_text (exit_code_error c e) = error_text e
error_text (structured s c) = "[" ++ (category_text s.category ++ ("] " ++ s.message))
error_text (wrapped before e after) = before ++ (error_text e ++ after)
error_text (joined between a b) = error_text a ++ (between ++ error_text b)

abbrev pub or_else {ℓ} : {A : Type ℓ} → Option A → Option A → Option A
or_else (some a) o = some a
or_else none o = o

-- `errors.As` and `errors.Is`: the first error of the chain, before what it wraps, that the test picks.
unfoldable mutual
  pub first_in_chain : {B : Type 0} → (Error → Option B) → Error → Option B
  first_in_chain f (text s) = f (text s)
  first_in_chain f (sentinel k) = f (sentinel k)
  first_in_chain f (api_status r s) = f (api_status r s)
  first_in_chain f (path_error op e) = or_else (f (path_error op e)) (first_in_chain f e)
  first_in_chain f (net_error t s) = f (net_error t s)
  first_in_chain f (dns_error t s) = f (dns_error t s)
  first_in_chain f (tls_error s) = f (tls_error s)
  first_in_chain f (net_wrapper t op e) = or_else (f (net_wrapper t op e)) (first_in_chain f e)
  first_in_chain f (config_error e) = or_else (f (config_error e)) (first_in_chain f e)
  first_in_chain f (exit_code_error c e) = or_else (f (exit_code_error c e)) (first_in_chain f e)
  first_in_chain f (structured s c) = or_else (f (structured s c)) (first_in_cause f c)
  first_in_chain f (wrapped a e b) = or_else (f (wrapped a e b)) (first_in_chain f e)
  first_in_chain f (joined between a b) =
      or_else (f (joined between a b)) (or_else (first_in_chain f a) (first_in_chain f b))

  pub first_in_cause : {B : Type 0} → (Error → Option B) → Cause → Option B
  first_in_cause f no_cause = none
  first_in_cause f (cause e) = first_in_chain f e

abbrev pub is_some {ℓ} : {A : Type ℓ} → Option A → Bool
is_some none = false
is_some (some a) = true

-- var structErr *StructuredError; errors.As(err, &structErr)
abbrev pub pick_structured : Error → Option (StructuredError × Cause)
pick_structured (structured s c) = some (s, c)
pick_structured _ = none

abbrev pub as_structured : Error → Option (StructuredError × Cause)
as_structured e = first_in_chain pick_structured e

-- var exitErr *ExitCodeError; errors.As(err, &exitErr)
abbrev pub pick_exit_code : Error → Option ℕ
pick_exit_code (exit_code_error c e) = some c
pick_exit_code _ = none

abbrev pub as_exit_code : Error → Option ℕ
as_exit_code e = first_in_chain pick_exit_code e

-- NewAlreadyHandledError: fmt.Errorf("%w: %w", ErrAlreadyHandled, err)
unfoldable pub new_already_handled_error : Error → Error
new_already_handled_error e = joined ": " (sentinel already_handled) e

unfoldable pub new_config_error : Error → Error
new_config_error e = config_error e

-- NewExitCodeError; `none` is the nil error.
unfoldable pub new_exit_code_error : ℕ → Option Error → Option Error
new_exit_code_error c none = none
new_exit_code_error c (some e) = some (exit_code_error c e)

unfoldable pub new_validation_error : String → String → String → StructuredError
new_validation_error code message suggestion = record {
  code = code;
  message = message;
  category = validation;
  exit_code = 0;
  retriable = false;
  suggestion = suggestion;
}
