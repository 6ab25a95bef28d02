-- ===== src/Errors/Returns.antt =====
-- Go's pair of a value and an error, for the functions of which callers read one of the two.
use odh_cli.Base.{◌≡◌, refl, ap, ◌⊎◌, inl, inr}
use odh_cli.Errors.{Error}

pub data Returns {ℓ} (A : Type ℓ) : Type ℓ where
  ok : A → Returns A
  fail : Error → Returns A

pub ok-injective : {A : Type 0} {a b : A} → Returns.ok a ≡ ok b → a ≡ b
ok-injective {A} {a} e = ap (λ r. elim r [ ok x ↦ x | fail err ↦ a ]) e

pub Returns-cases :
    {A : Type 0} (r : Returns A) → ((a : A) × (r ≡ ok a)) ⊎ ((err : Error) × (r ≡ fail err))
Returns-cases (ok a) = inl (a, refl)
Returns-cases (fail err) = inr (err, refl)
