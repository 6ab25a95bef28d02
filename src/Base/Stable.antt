-- ===== src/Base/Stable.antt =====
-- Stable sorting by a number, largest first, as slices.SortStableFunc does it. An insertion sort stands
-- for the library's: every stable sort has the same result.
use odh_cli.Base.Tests.{if◌then◌else◌, Bool-cases, ltb}
use mathlib.Core.Bool.{Bool, true}
use odh_cli.Base.Lists.{All, keep}
use Prim.Native.Nat.{ℕ, ◌≤◌}
use mathlib.Core.Path.{◌≡◌, refl}
use mathlib.Core.Logic.{inl, inr}
use mathlib.Core.List.{List, [], ◌∷◌}
use native.Mathlib.Omega.{arith}

module _ {A : Type 0} (key : A → ℕ) where
  unfoldable pub insert_stable : A → List A → List A
  insert_stable x [] = x ∷ []
  insert_stable x (y ∷ ys) = if ltb (key x) (key y) then y ∷ insert_stable x ys else x ∷ y ∷ ys

  unfoldable pub sort_stable : List A → List A
  unfolding insert_stable
  sort_stable [] = []
  sort_stable (x ∷ xs) = insert_stable x (sort_stable xs)

  -- No key is below a later one.
  abbrev pub IsDescending : List A → Type 0
  IsDescending [] = Unit
  IsDescending (x ∷ xs) = All (λ y. key y ≤ key x) xs × IsDescending xs

  All-insert_stable :
      (P : A → Type 0) (x : A) (ys : List A) → P x → All P ys → All P (insert_stable x ys)
  unfolding insert_stable
  All-insert_stable P x [] p h = (p, tt)
  All-insert_stable P x (y ∷ ys) p (q, h) = ground (arith, All-insert_stable P x ys p h)

  All-below :
      (x y : A) (zs : List A)
      → key y ≤ key x
      → All (λ z. key z ≤ key y) zs
      → All (λ z. key z ≤ key x) zs
  All-below x y [] h k = tt
  All-below x y (z ∷ zs) h (p, k) = (omega arith, All-below x y zs h k)

  insert_stable-IsDescending :
      (x : A) (ys : List A) → IsDescending ys → IsDescending (insert_stable x ys)
  unfolding insert_stable
  insert_stable-IsDescending x [] h = (tt, tt)
  insert_stable-IsDescending x (y ∷ ys) (a, h) = elim (Bool-cases (ltb (key x) (key y))) [
    | inl lt ↦ rw lt (All-insert_stable _ x ys (ground arith) a, insert_stable-IsDescending x ys h)
    | inr ge ↦ let le : key y ≤ key x = ground arith in rw ge ((le, All-below x y ys le a), (a, h))
  ]

  pub sort_stable-IsDescending : (xs : List A) → IsDescending (sort_stable xs)
  unfolding sort_stable
  sort_stable-IsDescending [] = tt
  sort_stable-IsDescending (x ∷ xs) =
      insert_stable-IsDescending x (sort_stable xs) (sort_stable-IsDescending xs)

  keep-insert_stable :
      (p : A → Bool) (n : ℕ)
      → ((x : A) → p x ≡ true → key x ≡ n)
      → (x : A) (ys : List A) → keep p (insert_stable x ys) ≡ keep p (x ∷ ys)
  unfolding insert_stable
  keep-insert_stable p n f x [] = refl
  keep-insert_stable p n f x (y ∷ ys) = ground (arith, keep-insert_stable p n f x ys, f x, f y)

  -- Items that have the same key stay in their order.
  pub keep-sort_stable :
      (p : A → Bool) (n : ℕ)
      → ((x : A) → p x ≡ true → key x ≡ n)
      → (xs : List A) → keep p (sort_stable xs) ≡ keep p xs
  unfolding sort_stable
  keep-sort_stable p n f [] = refl
  keep-sort_stable p n f (x ∷ xs) =
      ground (arith, keep-sort_stable p n f xs, keep-insert_stable p n f x (sort_stable xs))

  pub All-sort_stable : (P : A → Type 0) (xs : List A) → All P xs → All P (sort_stable xs)
  unfolding sort_stable
  All-sort_stable P [] h = tt
  All-sort_stable P (x ∷ xs) (p, h) =
      All-insert_stable P x (sort_stable xs) p (All-sort_stable P xs h)
