-- ===== src/Errors/Codes.antt =====
-- Which exit codes an error can have, and the order of exit codes by priority.
use odh_cli.Base.{ℕ, ◌≤◌, ◌≡◌, ◌≢◌, ◌↔◌, true, false, some, arith, Option-cases, inl, inr}
use odh_cli.Errors.{ErrorCategory, authentication, Error, as_exit_code, as_structured}
use odh_cli.Errors.ExitCode.{
  exit_success, exit_connection, exit_code_from_category, priority, is_higher_priority,
}
use odh_cli.Errors.Tables.{ApiErrors}
use odh_cli.Errors.Classify.{classify, exit_code_from_error}

pub exit_code_from_category-ne-success :
    (c : ErrorCategory) → exit_code_from_category c ≢ exit_success
unfolding exit_code_from_category
exit_code_from_category-ne-success authentication e = omega arith
exit_code_from_category-ne-success _ e = omega arith

exit_code_from_error-eq-success_only :
    (api : ApiErrors) (err : Error)
    → exit_code_from_error api (some err) ≡ exit_success
    → as_exit_code err ≡ some exit_success
unfolding exit_code_from_error
exit_code_from_error-eq-success_only api err h = elim (Option-cases (as_exit_code err)) [
  | inr (c, e) ↦ ground arith
  | inl e ↦ elim (Option-cases (as_structured err)) [
    | inl f ↦ ground (arith, exit_code_from_category-ne-success (classify api err).0.category)
    | inr ((s, c), f) ↦ ground (arith, exit_code_from_category-ne-success s.category)
  ]
]

exit_code_from_error-explicit :
    (api : ApiErrors) (err : Error)
    → as_exit_code err ≡ some exit_success
    → exit_code_from_error api (some err) ≡ exit_success
unfolding exit_code_from_error
exit_code_from_error-explicit api err h = ground arith

-- An error makes the process exit with success exactly when its chain carries an explicit exit code
-- and the first one is success.
pub exit_code_from_error-eq-success_iff :
    (api : ApiErrors) (err : Error)
    → (exit_code_from_error api (some err) ≡ exit_success) ↔ (as_exit_code err ≡ some exit_success)
exit_code_from_error-eq-success_iff api err =
    (exit_code_from_error-eq-success_only api err, exit_code_from_error-explicit api err)

pub is_higher_priority_irrefl : (a : ℕ) → is_higher_priority a a ≡ false
unfolding is_higher_priority
is_higher_priority_irrefl a = ground arith

pub is_higher_priority_trans :
    (a b c : ℕ)
    → is_higher_priority a b ≡ true
    → is_higher_priority b c ≡ true
    → is_higher_priority a c ≡ true
is_higher_priority_trans a b c h k = unfold is_higher_priority priority in ground arith

-- Not above and above: what is not above `b` is below all that is above `b`.
pub is_higher_priority_mixed :
    (a b c : ℕ)
    → is_higher_priority a b ≡ false
    → is_higher_priority c b ≡ true
    → is_higher_priority c a ≡ true
is_higher_priority_mixed a b c h k = unfold is_higher_priority priority in ground arith

-- Two of the CLI's six exit codes neither of which has the higher priority are the same code.
pub is_higher_priority_connex :
    (a b : ℕ)
    → a ≤ exit_connection
    → b ≤ exit_connection
    → is_higher_priority a b ≡ false
    → is_higher_priority b a ≡ false
    → a ≡ b
unfolding is_higher_priority
is_higher_priority_connex a b h k p q = ground arith
