-- ===== src/Output.antt =====
-- pkg/output/envelope.go: the status of an output envelope.
use odh_cli.Base.{ℕ, String, if◌then◌else◌, ltb, Option, some}

-- Go's int, as far as the envelope needs it: `negsuc n` is -(n + 1).
pub data ℤ : Type 0 where
  pos : ℕ → ℤ
  negsuc : ℕ → ℤ

-- `if n < 0 { n = 0 }`
abbrev pub clamp : ℤ → ℕ
clamp (pos n) = n
clamp (negsuc n) = 0

pub record Status : Type 0 where
  pub result : String
  pub warnings : ℕ
  pub errors : ℕ

abbrev pub status_success : String
status_success = "success"

abbrev pub status_warning : String
status_warning = "warning"

abbrev pub status_failure : String
status_failure = "failure"

-- NewStatus
unfoldable pub new_status : ℤ → ℤ → Status
new_status warnings errors = record {
  result =
      if ltb 0 (clamp errors)
      then status_failure
      else if ltb 0 (clamp warnings)
      then status_warning
      else status_success;
  warnings = clamp warnings;
  errors = clamp errors;
}

-- Envelope: the kind, the command, and the status, which is set last.
pub record Envelope : Type 0 where
  pub kind : String
  pub command : String
  pub status : Option Status

-- SetStatus
unfoldable pub set_status : Envelope → ℤ → ℤ → Envelope
unfolding new_status
set_status e warnings errors = record e { status = some (new_status warnings errors) }
