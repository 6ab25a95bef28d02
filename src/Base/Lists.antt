-- ===== src/Base/Lists.antt =====
-- Lists: lengths over the native numbers, predicates by recursion, and Boolean loops.
use Prim.Native.Nat.{ℕ, suc, ◌+◌, ◌≤◌}
use mathlib.Core.Path.{◌≡◌, refl, subst}
use mathlib.Core.Logic.{◌↔◌, ◌⊎◌, inl, inr}
use mathlib.Core.Bool.{Bool, true, false, ◌||◌}
use mathlib.Core.List.{List, [], ◌∷◌, ◌++◌}
use native.Mathlib.Omega.{arith}
use odh_cli.Base.Tests.{if◌then◌else◌, Bool-cases}

module _ {ℓ} {A : Type ℓ} where
  abbrev pub length : List A → ℕ
  length [] = 0
  length (x ∷ xs) = suc (length xs)

  -- `for … { if p(x) { return true } }; return false`
  abbrev pub any : (A → Bool) → List A → Bool
  any p [] = false
  any p (x ∷ xs) = p x || any p xs

  -- `for … { if !p(x) { continue }; out = append(out, x) }`
  abbrev pub keep : (A → Bool) → List A → List A
  keep p [] = []
  keep p (x ∷ xs) = if p x then x ∷ keep p xs else keep p xs

module _ {ℓ κ} {A : Type ℓ} (P : A → Type κ) where
  -- P holds of each item.
  abbrev pub All : List A → Type κ
  All [] = Unit
  All (x ∷ xs) = P x × All xs

  pub All-append : (xs ys : List A) → All xs → All ys → All (xs ++ ys)
  All-append [] ys h k = k
  All-append (x ∷ xs) ys (p, h) k = (p, All-append xs ys h k)

  pub All-left : (xs ys : List A) → All (xs ++ ys) → All xs
  All-left [] ys h = tt
  All-left (x ∷ xs) ys (p, h) = (p, All-left xs ys h)

  pub All-right : (xs ys : List A) → All (xs ++ ys) → All ys
  All-right [] ys h = h
  All-right (x ∷ xs) ys (p, h) = All-right xs ys h

module _ {ℓ} {A : Type ℓ} (P : A → Type 0) where
  -- P holds of some item.
  abbrev pub Some : List A → Type 0
  Some [] = ⊥
  Some (x ∷ xs) = P x ⊎ Some xs

  pub Some-append_left : (xs ys : List A) → Some xs → Some (xs ++ ys)
  Some-append_left [] ys h = elim h [ ]
  Some-append_left (x ∷ xs) ys (inl p) = inl p
  Some-append_left (x ∷ xs) ys (inr h) = inr (Some-append_left xs ys h)

  pub Some-append_right : (xs ys : List A) → Some ys → Some (xs ++ ys)
  Some-append_right [] ys h = h
  Some-append_right (x ∷ xs) ys h = inr (Some-append_right xs ys h)

  pub Some-append_cases : (xs ys : List A) → Some (xs ++ ys) → Some xs ⊎ Some ys
  Some-append_cases [] ys h = inr h
  Some-append_cases (x ∷ xs) ys (inl p) = inl (inl p)
  Some-append_cases (x ∷ xs) ys (inr h) = elim (Some-append_cases xs ys h) [
    | inl l ↦ inl (inr l)
    | inr r ↦ inr r
  ]

module _ {A : Type 0} where
  -- An item that is in the list.
  abbrev pub In : A → List A → Type 0
  In a = Some (λ x. x ≡ a)

  pub In-All {κ} : (P : A → Type κ) (a : A) (xs : List A) → In a xs → All P xs → P a
  In-All P a [] i h = elim i [ ]
  In-All P a (x ∷ xs) (inl e) (p, h) = rw (← e) p
  In-All P a (x ∷ xs) (inr i) (p, h) = In-All P a xs i h

  pub All-of_In {κ} : (P : A → Type κ) (xs : List A) → ((a : A) → In a xs → P a) → All P xs
  All-of_In P [] h = tt
  All-of_In P (x ∷ xs) h = (h x (inl refl), All-of_In P xs (λ a i. h a (inr i)))

  pub In-keep : (p : A → Bool) (a : A) (xs : List A) → In a (keep p xs) ↔ In a xs × (p a ≡ true)
  In-keep p a [] = (λ i. absurd i, λ i. absurd i.0)
  In-keep p a (x ∷ xs) = elim (Bool-cases (p x)) [
    | inl e ↦ rw e (
      λ i. elim i [
        | inl f ↦ (inl f, subst (λ y. p y ≡ true) f e)
        | inr j ↦ let (k, h) = (In-keep p a xs).0 j in (inr k, h)
      ],
      λ (i, h). elim i [ inl f ↦ inl f | inr j ↦ inr ((In-keep p a xs).1 (j, h)) ],
    )
    | inr e ↦ rw e (
      λ i. let (k, h) = (In-keep p a xs).0 i in (inr k, h),
      λ (i, h). elim i [
        | inl f ↦ absurd (cc (h, subst (λ y. p y ≡ false) f e))
        | inr j ↦ (In-keep p a xs).1 (j, h)
      ],
    )
  ]

  pub length-append : (xs ys : List A) → length (xs ++ ys) ≡ length xs + length ys
  length-append [] ys = omega arith
  length-append (x ∷ xs) ys = omega (arith, length-append xs ys)

  pub length-keep : (p : A → Bool) (xs : List A) → length (keep p xs) ≤ length xs
  length-keep p [] = omega arith
  length-keep p (x ∷ xs) = ground (arith, length-keep p xs)

-- One more step of a loop adds its own disjunct to what the rest adds.
pub chain {ℓ} : {S T U V X : Type ℓ} → (T ↔ S ⊎ U) → (X ↔ T ⊎ V) → X ↔ S ⊎ (U ⊎ V)
chain f g = (
  λ x. elim (g.0 x) [
    | inr v ↦ inr (inr v)
    | inl t ↦ elim (f.0 t) [ inl s ↦ inl s | inr u ↦ inr (inl u) ]
  ],
  λ y. elim y [
    | inl s ↦ g.1 (inl (f.1 (inl s)))
    | inr (inl u) ↦ g.1 (inl (f.1 (inr u)))
    | inr (inr v) ↦ g.1 (inr v)
  ],
)

pub nothing : {S : Type 0} → S ↔ S ⊎ ⊥
nothing = (λ s. inl s, λ x. elim x [ inl s ↦ s | inr b ↦ absurd b ])
