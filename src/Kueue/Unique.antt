-- ===== src/Kueue/Unique.antt =====
-- uniqueResources of check.go: the objects that it lists for violations.
use odh_cli.Base.{
  ◌≡◌, refl, subst, inl, inr, true, false, List, [], ◌∷◌, ◌++◌, any, arith, eq_refl, All,
  All-append, All-of_In, In, Bool-cases,
}
use odh_cli.Kueue.Invariants.{Violation}
use odh_cli.Kueue.Check.{same_key, unique_from, unique_resources}

-- No violation has the key of an earlier one.
abbrev pub HasDistinctObjects : List Violation → Type 0
HasDistinctObjects [] = Unit
HasDistinctObjects (v ∷ vs) = All (λ w. same_key w v ≡ false) vs × HasDistinctObjects vs

same_key_refl : (v : Violation) → same_key v v ≡ true
same_key_refl v = ground (
  arith,
  eq_refl v.kind,
  eq_refl v.api_version,
  eq_refl v.resource.namespace,
  eq_refl v.resource.name,
)

HasDistinctObjects-append :
    (u : List Violation) (v : Violation)
    → HasDistinctObjects u
    → any (same_key v) u ≡ false
    → HasDistinctObjects (u ++ v ∷ [])
HasDistinctObjects-append [] v h e = (tt, tt)
HasDistinctObjects-append (x ∷ u) v (h, hs) e = elim (Bool-cases (same_key v x)) [
  | inl f ↦ absurd (clash f)
  | inr f ↦ (
    All-append (λ w. same_key w x ≡ false) u (v ∷ []) h (f, tt),
    HasDistinctObjects-append u v hs (rw f at e),
  )
]
  where
    clash : same_key v x ≡ true → ⊥
    clash f = let g = rw f at e in cc

any-append_left :
    (w : Violation) (u vs : List Violation)
    → any (same_key w) u ≡ true
    → any (same_key w) (u ++ vs) ≡ true
any-append_left w [] vs e = absurd (cc)
any-append_left w (x ∷ u) vs e = elim (Bool-cases (same_key w x)) [
  | inl f ↦ rw f refl
  | inr f ↦ rw f (any-append_left w u vs (rw f at e))
]

any-append_last : (w : Violation) (u : List Violation) → any (same_key w) (u ++ w ∷ []) ≡ true
any-append_last w [] = rw (same_key_refl w) refl
any-append_last w (x ∷ u) = elim (Bool-cases (same_key w x)) [
  | inl f ↦ rw f refl
  | inr f ↦ rw f (any-append_last w u)
]

unique_from-HasDistinctObjects :
    (u vs : List Violation) → HasDistinctObjects u → HasDistinctObjects (unique_from u vs)
unfolding unique_from
unique_from-HasDistinctObjects u [] h = h
unique_from-HasDistinctObjects u (v ∷ vs) h = elim (Bool-cases (any (same_key v) u)) [
  | inl e ↦ rw e (unique_from-HasDistinctObjects u vs h)
  | inr e ↦
      rw e (unique_from-HasDistinctObjects (u ++ v ∷ []) vs (HasDistinctObjects-append u v h e))
]

unique_from-keeps :
    (w : Violation) (u vs : List Violation)
    → any (same_key w) u ≡ true
    → any (same_key w) (unique_from u vs) ≡ true
unfolding unique_from
unique_from-keeps w u [] e = e
unique_from-keeps w u (v ∷ vs) e = elim (Bool-cases (any (same_key v) u)) [
  | inl f ↦ rw f (unique_from-keeps w u vs e)
  | inr f ↦ rw f (unique_from-keeps w (u ++ v ∷ []) vs (any-append_left w u (v ∷ []) e))
]

unique_from-covers :
    (w : Violation) (u vs : List Violation) → In w vs → any (same_key w) (unique_from u vs) ≡ true
unfolding unique_from
unique_from-covers w u [] i = elim i [ ]
unique_from-covers w u (v ∷ vs) (inl e) = elim (Bool-cases (any (same_key v) u)) [
  | inl f ↦
      subst (λ x. any (same_key x) (unique_from u (v ∷ vs)) ≡ true) e
        (rw f (unique_from-keeps v u vs f))
  | inr f ↦
      subst (λ x. any (same_key x) (unique_from u (v ∷ vs)) ≡ true) e
        (rw f (unique_from-keeps v (u ++ v ∷ []) vs (any-append_last v u)))
]
unique_from-covers w u (v ∷ vs) (inr i) = elim (Bool-cases (any (same_key v) u)) [
  | inl f ↦ rw f (unique_from-covers w u vs i)
  | inr f ↦ rw f (unique_from-covers w (u ++ v ∷ []) vs i)
]

unique_from-All :
    (P : Violation → Type 0) (u vs : List Violation) → All P u → All P vs → All P (unique_from u vs)
unfolding unique_from
unique_from-All P u [] h k = h
unique_from-All P u (v ∷ vs) h (p, k) = elim (Bool-cases (any (same_key v) u)) [
  | inl f ↦ rw f (unique_from-All P u vs h k)
  | inr f ↦ rw f (unique_from-All P (u ++ v ∷ []) vs (All-append P u (v ∷ []) h (p, tt)) k)
]

-- uniqueResources lists no object twice, lists the object of every violation, and lists nothing but
-- given violations.
pub unique_resources_lem :
    (vs : List Violation)
    → HasDistinctObjects (unique_resources vs)
      × All (λ w. any (same_key w) (unique_resources vs) ≡ true) vs
      × All (λ w. In w vs) (unique_resources vs)
unfolding unique_resources
unique_resources_lem vs = (
  unique_from-HasDistinctObjects [] vs tt,
  All-of_In (λ w. any (same_key w) (unique_from [] vs) ≡ true) vs
      (λ w i. unique_from-covers w [] vs i),
  unique_from-All (λ w. In w vs) [] vs tt (All-of_In (λ w. In w vs) vs (λ w i. i)),
)
