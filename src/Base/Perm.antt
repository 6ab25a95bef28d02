-- ===== src/Base/Perm.antt =====
-- What holds of all or of some items of a list holds after a permutation.
use mathlib.Core.List.{Permᴰ}
use mathlib.Core.Path.{subst}
use mathlib.Core.Logic.{inl, inr}
use mathlib.Core.List.{List}
use odh_cli.Base.Lists.{All, Some}

module _ {A : Type 0} (P : A → Type 0) where
  pub All-perm : {xs ys : List A} → Permᴰ xs ys → All P xs → All P ys
  All-perm Permᴰ.nil h = h
  All-perm (Permᴰ.cons e p) (h, hs) = (subst P e h, All-perm p hs)
  All-perm (Permᴰ.swap e f) (h, (k, hs)) = (subst P f k, (subst P e h, hs))
  All-perm (Permᴰ.trans p q) h = All-perm q (All-perm p h)

  pub Some-perm : {xs ys : List A} → Permᴰ xs ys → Some P xs → Some P ys
  Some-perm Permᴰ.nil h = h
  Some-perm (Permᴰ.cons e p) (inl h) = inl (subst P e h)
  Some-perm (Permᴰ.cons e p) (inr h) = inr (Some-perm p h)
  Some-perm (Permᴰ.swap e f) (inl h) = inr (inl (subst P e h))
  Some-perm (Permᴰ.swap e f) (inr (inl h)) = inl (subst P f h)
  Some-perm (Permᴰ.swap e f) (inr (inr h)) = inr (inr h)
  Some-perm (Permᴰ.trans p q) h = Some-perm q (Some-perm p h)
