-- ===== src/Lint/Precedence.antt =====
-- The precedence of exit codes in pkg/util/errors/exitcode.go, by the order that its documentation gives.
use odh_cli.Base.{
  ℕ, ◌+◌, ◌≤◌, ◌<◌, ◌≡◌, refl, ◌⊎◌, true, false, List, [], ◌∷◌, All, Some, arith, nat_eq,
  if◌then◌else◌,
}
use odh_cli.Errors.ExitCode.{priority, is_higher_priority}
use odh_cli.Errors.Tables.{ApiErrors}
use odh_cli.Lint.Severity.{CheckExecution}
use odh_cli.Errors.Classify.{exit_code_from_error}

-- Success, warning, error, validation, authentication, connection, the lowest first.
abbrev pub precedence : List ℕ
precedence = 0 ∷ 2 ∷ 1 ∷ 3 ∷ 4 ∷ 5 ∷ []

-- The place of a code in a list, or of an error for a code that is not there.
abbrev place_in : List ℕ → ℕ → ℕ → ℕ
place_in [] n code = 2
place_in (c ∷ cs) n code = if nat_eq code c then n else place_in cs (n + 1) code

abbrev pub place : ℕ → ℕ
place code = place_in precedence 0 code

place-priority : (code : ℕ) → priority code ≡ place code
unfolding priority
place-priority code = refl

pub not_higher : (a b : ℕ) → is_higher_priority a b ≡ false → place a ≤ place b
unfolding is_higher_priority
not_higher a b h = ground (arith, place-priority a, place-priority b)

pub higher : (a b : ℕ) → is_higher_priority a b ≡ true → place b < place a
unfolding is_higher_priority
higher a b h = ground (arith, place-priority a, place-priority b)

-- The code is the one of highest precedence among those of the executions' errors and that of the
-- verdict.
abbrev pub IsTop : ApiErrors → ℕ → List CheckExecution → ℕ → Type 0
IsTop api code es verdict_code =
    All (λ e. place (exit_code_from_error api e.error) ≤ place code) es
    × ((place verdict_code ≤ place code)
        × ((code ≡ verdict_code) ⊎ Some (λ e. exit_code_from_error api e.error ≡ code) es))
