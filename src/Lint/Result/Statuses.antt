-- ===== src/Lint/Result/Statuses.antt =====
-- IsFailing, GetStatusString and Condition.Validate, one against another.
use odh_cli.Base.{◌≡◌, ◌↔◌, ◌⊎◌, true, false, List, [], ◌∷◌, ◌++◌, arith, All, eq_iff}
use odh_cli.Lint.Result.{
  Condition, status_unknown, fails, is_failing, status_from, get_status_string,
}

is_failing-status_from :
    (cs : List Condition)
    → (is_failing cs ≡ true) ↔ ((status_from cs ≡ "Fail") ⊎ (status_from cs ≡ "Error"))
unfolding is_failing status_from
is_failing-status_from [] = ground (arith, eq_iff "Pass" "Fail", eq_iff "Pass" "Error")
is_failing-status_from (c ∷ cs) = ground (arith, eq_iff "Pass" "Fail", is_failing-status_from cs)

-- A result is failing exactly when its status string is "Fail" or "Error".
pub is_failing-get_status_string :
    (cs : List Condition)
    → (is_failing cs ≡ true) ↔ ((get_status_string cs ≡ "Fail") ⊎ (get_status_string cs ≡ "Error"))
unfolding is_failing get_status_string
is_failing-get_status_string [] = ground (arith, eq_iff "Unknown" "Fail", eq_iff "Unknown" "Error")
is_failing-get_status_string (c ∷ cs) = is_failing-status_from (c ∷ cs)

status_from_first_unknown :
    (before after : List Condition) (c : Condition)
    → All (λ d. fails d.status ≡ false) before
    → c.status ≡ status_unknown
    → status_from (before ++ c ∷ after) ≡ "Error"
unfolding status_from
status_from_first_unknown [] after c h u = ground arith
status_from_first_unknown (d ∷ before) after c (p, h) u =
    ground (arith, status_from_first_unknown before after c h u)

-- The first condition that fails decides the status string: behind an Unknown condition the string is
-- "Error", also where a later condition is False.
pub get_status_string_first_unknown :
    (before after : List Condition) (c : Condition)
    → All (λ d. fails d.status ≡ false) before
    → c.status ≡ status_unknown
    → get_status_string (before ++ c ∷ after) ≡ "Error"
unfolding get_status_string
get_status_string_first_unknown [] after c h u = status_from_first_unknown [] after c h u
get_status_string_first_unknown (d ∷ before) after c h u =
    status_from_first_unknown (d ∷ before) after c h u
