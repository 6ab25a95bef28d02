-- ===== src/Base/Sort.antt =====
-- Sorting by a string key, as `sort.Strings` and `sort.Slice` by a key do. An insertion sort stands
-- for the library's: on distinct keys every sort has the same result.
use mathlib.Core.List.{Permᴰ}
use odh_cli.Base.Tests.{if◌then◌else◌, Bool-cases}
use odh_cli.Base.Lists.{All, In}
use odh_cli.Base.Perm.{All-perm}
use odh_cli.Base.Text.{str_ltb, str_ltb_irrefl, str_ltb_trans, str_ltb_connex}
use Prim.Native.String.{String}
use mathlib.Core.Path.{◌≡◌, refl, sym, ap, ap₂, ◌∙◌, subst}
use mathlib.Core.Logic.{◌≢◌, ◌↔◌, ◌⊎◌, inl, inr}
use mathlib.Core.Bool.{true, false}
use mathlib.Core.List.{List, [], ◌∷◌}
use native.Mathlib.Omega.{arith}

lt_of_ne_not-lt : (s t : String) → s ≢ t → str_ltb t s ≡ false → str_ltb s t ≡ true
lt_of_ne_not-lt s t n h = ground (arith, str_ltb_connex s t)

module _ {A : Type 0} (key : A → String) where
  pub insert_by : A → List A → List A
  insert_by x [] = x ∷ []
  insert_by x (y ∷ ys) = if str_ltb (key y) (key x) then y ∷ insert_by x ys else x ∷ y ∷ ys

  unfoldable pub sort_by : List A → List A
  unfolding insert_by
  sort_by [] = []
  sort_by (x ∷ xs) = insert_by x (sort_by xs)

  -- No two items have the same key.
  abbrev pub HasDistinctKeys : List A → Type 0
  HasDistinctKeys [] = Unit
  HasDistinctKeys (x ∷ xs) = All (λ y. key x ≢ key y) xs × HasDistinctKeys xs

  -- Each key is below all later ones.
  abbrev pub IsAscending : List A → Type 0
  IsAscending [] = Unit
  IsAscending (x ∷ xs) = All (λ y. str_ltb (key x) (key y) ≡ true) xs × IsAscending xs

  insert_by_comm :
      (x y : A) (zs : List A)
      → key x ≢ key y
      → insert_by x (insert_by y zs) ≡ insert_by y (insert_by x zs)
  unfolding insert_by
  insert_by_comm x y [] ne = ground (
    arith,
    str_ltb_connex (key x) (key y),
    str_ltb_trans (key x) (key y) (key x),
    str_ltb_irrefl (key x),
  )
  insert_by_comm x y (z ∷ zs) ne = ground (
    arith,
    insert_by_comm x y zs,
    str_ltb_connex (key x) (key y),
    str_ltb_trans (key x) (key y) (key x),
    str_ltb_irrefl (key x),
    str_ltb_trans (key x) (key z) (key y),
    str_ltb_trans (key y) (key z) (key x),
    str_ltb_trans (key z) (key x) (key y),
    str_ltb_trans (key z) (key y) (key x),
  )

  HasDistinctKeys-perm : {xs ys : List A} → Permᴰ xs ys → HasDistinctKeys xs → HasDistinctKeys ys
  HasDistinctKeys-perm Permᴰ.nil h = h
  HasDistinctKeys-perm (Permᴰ.cons {b} {l₂} e p) (h, hs) =
      (subst (λ z. All (λ y. key z ≢ key y) l₂) e (All-perm _ p h), HasDistinctKeys-perm p hs)
  HasDistinctKeys-perm (Permᴰ.swap {a'} {b'} {l} e f) ((n, h), (k, hs)) = (
    ((λ q. n (ap key e ∙ sym q ∙ ap key (sym f))), subst (λ z. All (λ y. key z ≢ key y) l) f k),
    (subst (λ z. All (λ y. key z ≢ key y) l) e h, hs),
  )
  HasDistinctKeys-perm (Permᴰ.trans p q) h = HasDistinctKeys-perm q (HasDistinctKeys-perm p h)

  -- With distinct keys the result does not depend on the order of the input.
  pub sort_by_perm : {xs ys : List A} → Permᴰ xs ys → HasDistinctKeys xs → sort_by xs ≡ sort_by ys
  unfolding sort_by
  sort_by_perm Permᴰ.nil h = refl
  sort_by_perm (Permᴰ.cons e p) (h, hs) = ap₂ insert_by e (sort_by_perm p hs)
  sort_by_perm (Permᴰ.swap {a} {b} {l} e f) ((n, h), (k, hs)) =
      insert_by_comm a b (sort_by l) n ∙ ap₂ (λ x y. insert_by x (insert_by y (sort_by l))) f e
  sort_by_perm (Permᴰ.trans p q) h = sort_by_perm p h ∙ sort_by_perm q (HasDistinctKeys-perm p h)

  All-insert_by : (P : A → Type 0) (x : A) (ys : List A) → P x → All P ys → All P (insert_by x ys)
  unfolding insert_by
  All-insert_by P x [] p h = (p, tt)
  All-insert_by P x (y ∷ ys) p (q, h) = ground (arith, All-insert_by P x ys p h)

  pub All-sort_by : (P : A → Type 0) (xs : List A) → All P xs → All P (sort_by xs)
  unfolding sort_by
  All-sort_by P [] h = tt
  All-sort_by P (x ∷ xs) (p, h) = All-insert_by P x (sort_by xs) p (All-sort_by P xs h)

  All-trans :
      (x y : A) (zs : List A)
      → str_ltb (key x) (key y) ≡ true
      → All (λ z. str_ltb (key y) (key z) ≡ true) zs
      → All (λ z. str_ltb (key x) (key z) ≡ true) zs
  All-trans x y [] h k = tt
  All-trans x y (z ∷ zs) h (p, k) = (str_ltb_trans _ _ _ h p, All-trans x y zs h k)

  IsAscending-insert_by :
      (x : A) (ys : List A)
      → All (λ y. key x ≢ key y) ys
      → IsAscending ys
      → IsAscending (insert_by x ys)
  unfolding insert_by
  IsAscending-insert_by x [] n h = (tt, tt)
  IsAscending-insert_by x (y ∷ ys) (n, ns) (a, h) = elim (Bool-cases (str_ltb (key y) (key x))) [
    | inl lt ↦ rw lt (All-insert_by _ x ys lt a, IsAscending-insert_by x ys ns h)
    | inr ge ↦
        let lt = lt_of_ne_not-lt (key x) (key y) n ge in rw ge ((lt, All-trans x y ys lt a), (a, h))
  ]

  -- The result is strictly ascending.
  pub IsAscending-sort_by : (xs : List A) → HasDistinctKeys xs → IsAscending (sort_by xs)
  unfolding sort_by
  IsAscending-sort_by [] h = tt
  IsAscending-sort_by (x ∷ xs) (n, h) =
      IsAscending-insert_by x (sort_by xs) (All-sort_by _ xs n) (IsAscending-sort_by xs h)

  In-insert_by : (x a : A) (ys : List A) → In a (insert_by x ys) ↔ (x ≡ a) ⊎ In a ys
  unfolding insert_by
  In-insert_by x a [] = (λ i. i, λ i. i)
  In-insert_by x a (y ∷ ys) = elim (Bool-cases (str_ltb (key y) (key x))) [
    | inr e ↦ rw e (λ i. i, λ i. i)
    | inl e ↦ rw e (
      λ i. elim i [
        | inl f ↦ inr (inl f)
        | inr j ↦ elim ((In-insert_by x a ys).0 j) [ inl f ↦ inl f | inr k ↦ inr (inr k) ]
      ],
      λ i. elim i [
        | inl f ↦ inr ((In-insert_by x a ys).1 (inl f))
        | inr (inl f) ↦ inl f
        | inr (inr k) ↦ inr ((In-insert_by x a ys).1 (inr k))
      ],
    )
  ]

  pub In-sort_by : (a : A) (xs : List A) → In a (sort_by xs) ↔ In a xs
  unfolding sort_by
  In-sort_by a [] = (λ i. i, λ i. i)
  In-sort_by a (x ∷ xs) =
      let one = In-insert_by x a (sort_by xs) in
      let rest = In-sort_by a xs in
      (
        λ i. elim (one.0 i) [ inl f ↦ inl f | inr j ↦ inr (rest.0 j) ],
        λ i. elim i [ inl f ↦ one.1 (inl f) | inr j ↦ one.1 (inr (rest.1 j)) ],
      )
