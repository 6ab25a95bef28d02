-- ===== src/Lint/Result/Conditions.antt =====
-- SetCondition as an update of a map from condition types to conditions.
use odh_cli.Base.{
  String, ◌≡◌, ◌≢◌, refl, Option, none, some, List, [], ◌∷◌, arith, All, eq_iff, if◌then◌else◌,
  ◌==◌, Bool-cases, inl, inr,
}
use odh_cli.Lint.Result.{Condition, set_condition}

-- The first condition of a type.
abbrev pub find_condition : String → List Condition → Option Condition
find_condition t [] = none
find_condition t (c ∷ cs) = if c.condition_type == t then some c else find_condition t cs

-- No two conditions have the same type.
abbrev pub HasDistinctTypes : List Condition → Type 0
HasDistinctTypes [] = Unit
HasDistinctTypes (c ∷ cs) = All (λ d. c.condition_type ≢ d.condition_type) cs × HasDistinctTypes cs

find_condition-set_condition :
    (t : String) (cs : List Condition) (new : Condition)
    → find_condition t (set_condition cs new)
      ≡ (if new.condition_type == t then some new else find_condition t cs)
unfolding set_condition
find_condition-set_condition t [] new = refl
find_condition-set_condition t (c ∷ cs) new = ground (
  arith,
  eq_iff c.condition_type new.condition_type,
  eq_iff new.condition_type t,
  eq_iff c.condition_type t,
  find_condition-set_condition t cs new,
)

All-set_condition :
    (P : String → Type 0) (cs : List Condition) (new : Condition)
    → All (λ d. P d.condition_type) cs
    → P new.condition_type
    → All (λ d. P d.condition_type) (set_condition cs new)
unfolding set_condition
All-set_condition P [] new h p = (p, tt)
All-set_condition P (c ∷ cs) new (q, h) p =
    elim (Bool-cases (c.condition_type == new.condition_type)) [
      | inl e ↦ rw e (p, h)
      | inr e ↦ rw e (q, All-set_condition P cs new h p)
    ]

set_condition-HasDistinctTypes :
    (cs : List Condition) (new : Condition)
    → HasDistinctTypes cs
    → HasDistinctTypes (set_condition cs new)
unfolding set_condition
set_condition-HasDistinctTypes [] new h = (tt, tt)
set_condition-HasDistinctTypes (c ∷ cs) new (p, h) =
    elim (Bool-cases (c.condition_type == new.condition_type)) [
      | inl e ↦ rw e (rw ((eq_iff _ _).0 e) at p, h)
      | inr e ↦ rw e (
        All-set_condition (λ t. c.condition_type ≢ t) cs new p
            (ground (arith, eq_iff c.condition_type new.condition_type)),
        set_condition-HasDistinctTypes cs new h,
      )
    ]

-- On conditions of distinct types, SetCondition stores the condition under its type, leaves the
-- conditions of the other types as they were, and keeps the types distinct.
pub set_condition_lem :
    (t : String) (cs : List Condition) (new : Condition)
    → HasDistinctTypes cs
    → (find_condition t (set_condition cs new)
        ≡ (if new.condition_type == t then some new else find_condition t cs))
      × HasDistinctTypes (set_condition cs new)
set_condition_lem t cs new h =
    (find_condition-set_condition t cs new, set_condition-HasDistinctTypes cs new h)
