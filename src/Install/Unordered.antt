-- ===== src/Install/Unordered.antt =====
-- slicesEqualUnordered of pkg/deps/install.go against permutations.
use mathlib.Core.Path.{ap₂}
use mathlib.Core.List.{Permᴰ}
use mathlib.Core.List.Permᴰ
use odh_cli.Base.{
  ℕ, suc, ◌+◌, ◌-◌, ◌≤◌, ◌≡◌, refl, ◌∙◌, ap, subst, ◌↔◌, inl, inr, String, true, false, List, [],
  ◌∷◌, length, nat_eq, ◌==◌, if◌then◌else◌, arith, eq_iff, eq_refl, Bool-cases, insert,
  lookup-insert,
}
use odh_cli.Install.Match.{or_zero, count_of, count_all, take_all, slices_equal_unordered}

-- How often a text is in a list.
abbrev pub occurrences : String → List String → ℕ
occurrences x [] = 0
occurrences x (y ∷ ys) = if y == x then suc (occurrences x ys) else occurrences x ys

count_of-insert :
    (m : List (String × ℕ)) (k x : String) (n : ℕ)
    → count_of (insert m k n) x ≡ (if k == x then n else count_of m x)
count_of-insert m k x n =
    ap or_zero (lookup-insert m k x n)
    ∙ elim (Bool-cases (k == x)) [ inl e ↦ rw e refl | inr e ↦ rw e refl ]

count_of-count_all :
    (m : List (String × ℕ)) (a : List String) (x : String)
    → count_of (count_all m a) x ≡ count_of m x + occurrences x a
unfolding count_all
count_of-count_all m [] x = omega arith
count_of-count_all m (v ∷ vs) x =
    count_of-count_all (insert m v (count_of m v + 1)) vs x ∙ elim (Bool-cases (v == x)) [
      | inl e ↦
          rw (count_of-insert m v x (count_of m v + 1), e)
            (ap (λ y. count_of m y + 1 + occurrences x vs) ((eq_iff v x).0 e) ∙ omega arith)
      | inr e ↦ rw (count_of-insert m v x (count_of m v + 1), e) refl
    ]

-- One text more in the list is one more of its count.
count_step :
    (m : List (String × ℕ)) (v x : String) (vs : List String)
    → nat_eq (count_of m v) 0 ≡ false
    → occurrences x vs ≤ count_of (insert m v (count_of m v - 1)) x
      ↔ occurrences x (v ∷ vs) ≤ count_of m x
count_step m v x vs p = elim (Bool-cases (v == x)) [
  | inr e ↦ rw (count_of-insert m v x (count_of m v - 1), e) (λ h. h, λ h. h)
  | inl e ↦
      let q : count_of m v ≡ count_of m x = ap (λ y. count_of m y) ((eq_iff v x).0 e) in
      rw (count_of-insert m v x (count_of m v - 1), e) (λ h. ground arith, λ h. ground arith)
]

le_trans : {a b c : ℕ} → a ≤ b → b ≤ c → a ≤ c
le_trans h k = omega arith

occurrences_self : (v : String) (vs : List String) → 1 ≤ occurrences v (v ∷ vs)
occurrences_self v vs = rw (eq_refl v) (omega arith)

nat_eq_iff : (n : ℕ) → nat_eq n 0 ≡ true ↔ n ≡ 0
nat_eq_iff n = (λ h. ground arith, λ h. ground arith)

none_left : (v : String) (vs : List String) {n : ℕ} → occurrences v (v ∷ vs) ≤ n → n ≡ 0 → ⊥
none_left v vs {n} h z =
    let k : 1 ≤ occurrences v (v ∷ vs) = occurrences_self v vs in
    let l : 1 ≤ n = le_trans k h in omega arith

take_all_iff :
    (b : List String) (m : List (String × ℕ))
    → take_all m b ≡ true ↔ ((x : String) → occurrences x b ≤ count_of m x)
unfolding take_all
take_all_iff [] m = (λ e x. omega arith, λ h. refl)
take_all_iff (v ∷ vs) m = elim (Bool-cases (nat_eq (count_of m v) 0)) [
  | inl z ↦ rw z (λ e. cc, λ h. absurd (none_left v vs (h v) ((nat_eq_iff _).0 z)))
  | inr p ↦
      let rest = take_all_iff vs (insert m v (count_of m v - 1)) in
      rw p (
        λ e x. (count_step m v x vs p).0 (rest.0 e x),
        λ h. rest.1 (λ x. (count_step m v x vs p).1 (h x)),
      )
]

-- A text that occurs can be moved to the front.
to_front :
    (v : String) (a : List String) → 1 ≤ occurrences v a → (r : List String) × Permᴰ a (v ∷ r)
to_front v [] h = absurd (omega arith)
to_front v (y ∷ ys) h = elim (Bool-cases (y == v)) [
  | inl e ↦ (ys, Permᴰ.cons ((eq_iff y v).0 e) (Permᴰ.refl ys))
  | inr e ↦
      let (r, p) = to_front v ys (ground arith) in
      (y ∷ r, Permᴰ.trans (Permᴰ.cons refl p) (Permᴰ.swap refl refl))
]

abbrev one_more : String → String → ℕ → ℕ
one_more x y n = if y == x then suc n else n

one_more_comm :
    (x y z : String) (n : ℕ) → one_more x y (one_more x z n) ≡ one_more x z (one_more x y n)
one_more_comm x y z n = ground arith

le_of_one_more : (x y : String) (m n : ℕ) → one_more x y m ≤ one_more x y n → m ≤ n
le_of_one_more x y m n h = ground arith

Permᴰ-occurrences : {a b : List String} (x : String) → Permᴰ a b → occurrences x a ≡ occurrences x b
Permᴰ-occurrences x Permᴰ.nil = refl
Permᴰ-occurrences x (Permᴰ.cons e p) = ap₂ (one_more x) e (Permᴰ-occurrences x p)
Permᴰ-occurrences x (Permᴰ.swap {a} {b} {l = l} e f) =
    one_more_comm x a b (occurrences x l)
    ∙ ap₂ (λ y z. one_more x y (one_more x z (occurrences x l))) f e
Permᴰ-occurrences x (Permᴰ.trans p q) = Permᴰ-occurrences x p ∙ Permᴰ-occurrences x q

Permᴰ-length : {a b : List String} → Permᴰ a b → length a ≡ length b
Permᴰ-length Permᴰ.nil = refl
Permᴰ-length (Permᴰ.cons e p) = ap suc (Permᴰ-length p)
Permᴰ-length (Permᴰ.swap e f) = refl
Permᴰ-length (Permᴰ.trans p q) = Permᴰ-length p ∙ Permᴰ-length q

Permᴰ-of_occurrences :
    (b a : List String)
    → length a ≡ length b
    → ((x : String) → occurrences x b ≤ occurrences x a)
    → Permᴰ a b
Permᴰ-of_occurrences [] [] l h = Permᴰ.nil
Permᴰ-of_occurrences [] (y ∷ ys) l h = absurd (omega arith)
Permᴰ-of_occurrences (v ∷ vs) a l h =
    let (r, p) = to_front v a (le_trans (occurrences_self v vs) (h v)) in
    let n : length a ≡ suc (length r) = Permᴰ-length p in
    Permᴰ.trans p (
      Permᴰ.cons refl (
        Permᴰ-of_occurrences vs r (omega arith) λ x.
          le_of_one_more x v _ _
            (subst (λ k. occurrences x (v ∷ vs) ≤ k) (Permᴰ-occurrences x p) (h x))))

le_of_zero_add : {k m n : ℕ} → m ≡ 0 + n → k ≤ m → k ≤ n
le_of_zero_add e h = omega (arith, e, h)

lengths_differ :
    (a b : List String) → nat_eq (length a) (length b) ≡ false → length a ≡ length b → ⊥
lengths_differ a b e h = ground arith

-- slicesEqualUnordered says true exactly for two lists of which one is a permutation of the other.
pub slices_equal_unordered_iff : (a b : List String) → slices_equal_unordered a b ≡ true ↔ Permᴰ a b
unfolding slices_equal_unordered
slices_equal_unordered_iff a b = elim (Bool-cases (nat_eq (length a) (length b))) [
  | inr e ↦ rw e (λ h. cc, λ p. absurd (lengths_differ a b e (Permᴰ-length p)))
  | inl e ↦
      let counts : (x : String) → count_of (count_all [] a) x ≡ 0 + occurrences x a =
        count_of-count_all [] a in
      rw e (
        λ h.
            Permᴰ-of_occurrences b a (ground arith)
              (λ x. le_of_zero_add {n = occurrences x a} (counts x) ((take_all_iff b _).0 h x)),
        λ p. (take_all_iff b _).1 λ x. omega (arith, Permᴰ-occurrences x p, counts x),
      )
]
