-- ===== src/Errors/Agreement.antt =====
-- The exit code that a structured error shows against the one that the process exits with, and what
-- classifyOrWrap makes of its arguments.
use odh_cli.Base.{
  String, ◌≡◌, ◌≢◌, refl, Bool, none, some, List, [], ◌∷◌, arith, Option-cases, inl, inr,
}
use Prim.Native.String.{◌++◌}
use odh_cli.Errors.{ErrorCategory, StructuredError, Error, Cause, as_exit_code, as_structured}
use odh_cli.Errors.ExitCode.{exit_code_from_category}
use odh_cli.Errors.Codes.{exit_code_from_category-ne-success}
use odh_cli.Errors.Tables.{ApiErrors, ErrorEntry, api_error_table, local_error_table}
use odh_cli.Errors.Classify.{match_entry, classify, exit_code_from_error}
use odh_cli.Errors.Common.{classify_or_wrap}

match_entry-exit_code :
    (table : List ErrorEntry) (err : Error) (s : StructuredError) (c : Cause)
    → match_entry table err ≡ some (s, c)
    → s.exit_code ≡ exit_code_from_category s.category
unfolding match_entry
match_entry-exit_code [] err s c h = ground arith
match_entry-exit_code (e ∷ table) err s c h = ground (arith, match_entry-exit_code table err s c)

-- Where the chain has neither an explicit exit code nor a structured error, the exit code in the
-- structured error that is rendered is the exit code of the process.
pub classify-exit_code :
    (api : ApiErrors) (err : Error)
    → as_exit_code err ≡ none
    → as_structured err ≡ none
    → (classify api err).0.exit_code ≡ exit_code_from_error api (some err)
unfolding exit_code_from_error classify
classify-exit_code api err h k = elim (Option-cases (match_entry (api_error_table api) err)) [
  | inr ((s, c), e) ↦ ground (arith, match_entry-exit_code (api_error_table api) err s c)
  | inl e ↦ elim (Option-cases (match_entry local_error_table err)) [
    | inr ((s, c), f) ↦ ground (arith, match_entry-exit_code local_error_table err s c)
    | inl f ↦ ground arith
  ]
]

-- Where the chain has a structured error whose exit code is not set, as one by NewValidationError,
-- and no explicit exit code, the error is rendered with exit code 0, and the process exits with the
-- code of the category, which is not 0.
pub classify-exit_code_unset :
    (api : ApiErrors) (err : Error) (s : StructuredError) (c : Cause)
    → as_exit_code err ≡ none
    → as_structured err ≡ some (s, c)
    → s.exit_code ≡ 0
    → ((classify api err).0.exit_code ≡ 0)
      × (exit_code_from_error api (some err) ≡ exit_code_from_category s.category)
      × (exit_code_from_error api (some err) ≢ 0)
unfolding classify exit_code_from_error
classify-exit_code_unset api err s c h k z =
    ground (arith, exit_code_from_category-ne-success s.category)

-- classifyOrWrap on an error returns its classification with the context in front of the message,
-- whatever code, suggestion, category and retriable flag it is given for an error that it cannot
-- classify.
pub classify_or_wrap_lem :
    (api : ApiErrors) (err : Error) (code context suggestion : String) (category : ErrorCategory)
    (retriable : Bool)
    → let (s, c) = classify api err in
      classify_or_wrap api (some err) code context suggestion category retriable
      ≡ some (record s { message = context ++ (": " ++ s.message) }, c)
unfolding classify_or_wrap
classify_or_wrap_lem api err code context suggestion category retriable = refl
