-- ===== src/Lint/Result/Keys.antt =====
-- Which annotation keys isValidAnnotationKey accepts.
use Prim.Native.Char.{Char, code}
use Prim.Native.String.{String as Text}
use Prim.Native.String as Str
use text.Mathlib.TextEquality.{Char-path}
use text.Mathlib.TextLemmas.{nil-append, cons-append}
use odh_cli.Base.{
  ℕ, String, ◌≡◌, ◌≢◌, refl, true, false, List, [], ◌∷◌, arith, ◌⊎◌, eq_iff, nat_eq, split,
  contains_char, Bool-cases, inl, inr, ◌↔◌,
}
use odh_cli.Lint.Result.{key_parts, is_valid_annotation_key}

abbrev slash : Char
slash = "/"

-- A text with no separator is its own only part.
split_none : (sep : ℕ) (s : String) → contains_char sep s ≡ false → split sep s ≡ s ∷ []
unfolding split
split_none sep String.[] h = refl
split_none sep (String.◌∷◌ c s) h = ground (arith, split_none sep s)

split_at :
    (d n : String)
    → contains_char 47 d ≡ false
    → split 47 (Str.◌++◌ d (String.◌∷◌ slash n)) ≡ d ∷ split 47 n
unfolding split
split_at String.[] n h = rw nil-append refl
split_at (String.◌∷◌ c d) n h = rw cons-append (ground (arith, split_at d n))

cons_cases : (xs : List String) → (xs ≡ []) ⊎ ((p : String) × (ps : List String) × (xs ≡ p ∷ ps))
cons_cases [] = inl refl
cons_cases (p ∷ ps) = inr (p, ps, refl)

split-ne-nil : (s : String) → split 47 s ≢ []
unfolding split
split-ne-nil String.[] e = cc
split-ne-nil (String.◌∷◌ c s) e = elim (Bool-cases (nat_eq (code c) 47)) [
  | inl t ↦ cc (rw t at e)
  | inr f ↦ elim (cons_cases (split 47 s)) [
    | inl empty ↦ split-ne-nil s empty
    | inr (p, ps, q) ↦ ground arith
  ]
]

no_slash_of_nil : (a : String) → "" ≡ a → contains_char 47 a ≡ false
no_slash_of_nil a e = rw (← e) refl

no_slash_of_cons :
    (c : Char) (s t : String)
    → nat_eq (code c) 47 ≡ false
    → contains_char 47 s ≡ false
    → String.◌∷◌ c s ≡ t
    → contains_char 47 t ≡ false
no_slash_of_cons c s t h k e = rw (← e) (rw (h, k) refl)

split_one : (s b : String) → split 47 s ≡ b ∷ [] → (s ≡ b) × (contains_char 47 b ≡ false)
unfolding split
split_one String.[] b e = ground (arith, no_slash_of_nil b)
split_one (String.◌∷◌ c s) b e = elim (cons_cases (split 47 s)) [
  | inl empty ↦ absurd (split-ne-nil s empty)
  | inr (p, ps, q) ↦ elim (Bool-cases (nat_eq (code c) 47)) [
    | inl t ↦ ground arith
    | inr f ↦ ground (arith, split_one s p, no_slash_of_cons c p b f)
  ]
]

slash_lem : (c : Char) → nat_eq (code c) 47 ≡ true → c ≡ slash
slash_lem c h = Char-path c slash (ground arith)

split_two :
    (s a b : String)
    → split 47 s ≡ a ∷ b ∷ []
    → (s ≡ Str.◌++◌ a (String.◌∷◌ slash b))
      × (contains_char 47 a ≡ false)
      × (contains_char 47 b ≡ false)
unfolding split
split_two String.[] a b e = ground arith
split_two (String.◌∷◌ c s) a b e = elim (Bool-cases (nat_eq (code c) 47)) [
  | inl t ↦
      ground
        (arith, no_slash_of_nil a, slash_lem c t, split_one s b, nil-append (String.◌∷◌ slash b))
  | inr f ↦ elim (cons_cases (split 47 s)) [
    | inl empty ↦ absurd (split-ne-nil s empty)
    | inr (p, ps, q) ↦
        ground
          (arith, split_two s p b, no_slash_of_cons c p a f, cons-append c p (String.◌∷◌ slash b))
  ]
]

-- A key of the form `domain/name`, as the comment on isValidAnnotationKey has it.
pub record IsDomainKey (key : String) : Type 0 where
  pub domain : String
  pub name : String
  pub form : key ≡ Str.◌++◌ domain (String.◌∷◌ slash name)
  pub domain_no_slash : contains_char 47 domain ≡ false
  pub name_no_slash : contains_char 47 name ≡ false
  pub domain_ne_nil : domain ≢ ""
  pub name_ne_nil : name ≢ ""
  pub domain_has_dot : contains_char 46 domain ≡ true

key_parts_form :
    (key : String) (parts : List String)
    → split 47 key ≡ parts
    → key_parts parts ≡ true
    → IsDomainKey key
key_parts_form key [] e h = cc
key_parts_form key (d ∷ []) e h = cc
key_parts_form key (d ∷ n ∷ []) e h =
    let (form, p, q) = split_two key d n e in
    record {
      domain = d;
      name = n;
      form = form;
      domain_no_slash = p;
      name_no_slash = q;
      domain_ne_nil = ground (arith, eq_iff d "", eq_iff n "");
      name_ne_nil = ground (arith, eq_iff d "", eq_iff n "");
      domain_has_dot = ground arith;
    }
key_parts_form key (d ∷ n ∷ x ∷ ps) e h = cc

domain_key_valid : (key : String) → IsDomainKey key → is_valid_annotation_key key ≡ true
unfolding is_valid_annotation_key
domain_key_valid key k = rw k.form (
    rw (split_at k.domain k.name k.domain_no_slash, split_none 47 k.name k.name_no_slash)
      (ground (arith, eq_iff k.domain "", eq_iff k.name "")))

-- isValidAnnotationKey accepts exactly the keys `domain/name` with one slash, both parts not empty,
-- and a dot in the domain.
pub is_valid_annotation_key_iff :
    (key : String) → (is_valid_annotation_key key ≡ true) ↔ IsDomainKey key
unfolding is_valid_annotation_key
is_valid_annotation_key_iff key = (key_parts_form key (split 47 key) refl, domain_key_valid key)
