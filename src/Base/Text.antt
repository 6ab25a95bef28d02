-- ===== src/Base/Text.antt =====
-- Texts: equality, Go's order of strings, sets of strings, and maps with strings for keys.
use Prim.Native.Nat.{ℕ}
use Prim.Native.Char.{Char, code}
use Prim.Native.String.{String, ◌++◌ as string_append}
use mathlib.Core.Path.{◌≡◌, refl, subst, ap₂}
use mathlib.Core.Logic.{◌↔◌, ◌⊎◌, inl, inr}
use mathlib.Core.Bool.{Bool, true, false, ◌||◌}
use mathlib.Core.Option.{Option, none, some}
use mathlib.Core.List.{List, [], ◌∷◌}
use native.Mathlib.Omega.{arith}
use text.Mathlib.Text.{◌==◌ as str_eq}
use text.Mathlib.TextEquality.{eq_iff, Char-path}
use odh_cli.Base.Tests.{Bool-cases, ltb, nat_eq, if◌then◌else◌}
use odh_cli.Base.Lists.{In}

infix 50 ◌==◌
abbrev pub ◌==◌ : String → String → Bool
s == t = str_eq s t

-- `s < t`: by the characters' numbers, which is the order of the bytes of their UTF-8.
unfoldable pub str_ltb : String → String → Bool
str_ltb String.[] String.[] = false
str_ltb String.[] (String.◌∷◌ d t) = true
str_ltb (String.◌∷◌ c s) String.[] = false
str_ltb (String.◌∷◌ c s) (String.◌∷◌ d t) =
    if ltb (code c) (code d) then true else if nat_eq (code c) (code d) then str_ltb s t else false

pub str_ltb_irrefl : (s : String) → str_ltb s s ≡ false
unfolding str_ltb
str_ltb_irrefl String.[] = refl
str_ltb_irrefl (String.◌∷◌ c s) = ground (arith, str_ltb_irrefl s)

pub str_ltb_trans : (s t u : String) → str_ltb s t ≡ true → str_ltb t u ≡ true → str_ltb s u ≡ true
unfolding str_ltb
str_ltb_trans String.[] String.[] u h k = cc
str_ltb_trans String.[] (String.◌∷◌ d t) String.[] h k = cc
str_ltb_trans String.[] (String.◌∷◌ d t) (String.◌∷◌ e u) h k = refl
str_ltb_trans (String.◌∷◌ c s) String.[] u h k = cc
str_ltb_trans (String.◌∷◌ c s) (String.◌∷◌ d t) String.[] h k = cc
str_ltb_trans (String.◌∷◌ c s) (String.◌∷◌ d t) (String.◌∷◌ e u) h k =
    ground (arith, str_ltb_trans s t u)

cons_eq : (c d : Char) (s t : String) → code c ≡ code d → s ≡ t → String.◌∷◌ c s ≡ String.◌∷◌ d t
cons_eq c d s t h k = ap₂ String.◌∷◌ (Char-path c d h) k

-- Two texts neither of which is below the other are equal.
pub str_ltb_connex : (s t : String) → str_ltb s t ≡ false → str_ltb t s ≡ false → s ≡ t
unfolding str_ltb
str_ltb_connex String.[] String.[] h k = refl
str_ltb_connex String.[] (String.◌∷◌ d t) h k = cc
str_ltb_connex (String.◌∷◌ c s) String.[] h k = cc
str_ltb_connex (String.◌∷◌ c s) (String.◌∷◌ d t) h k =
    let same : code c ≡ code d = ground arith in
    cons_eq c d s t same (str_ltb_connex s t (ground arith) (ground arith))

-- Whether a text is in a list of texts: a set's `Has`.
abbrev pub has : List String → String → Bool
has [] s = false
has (x ∷ xs) s = x == s || has xs s

-- `set.Insert(s)`
unfoldable pub set_insert : List String → String → List String
set_insert set s = if has set s then set else s ∷ set

pub has→In : (xs : List String) (s : String) → has xs s ≡ true → In s xs
has→In [] s h = cc
has→In (x ∷ xs) s h = ground (arith, eq_iff x s, has→In xs s)

pub In→has : (xs : List String) (s : String) → In s xs → has xs s ≡ true
In→has [] s h = elim h [ ]
In→has (x ∷ xs) s h = ground (arith, eq_iff x s, In→has xs s)

pub In-set_insert :
    (set : List String) (s r : String) → In r (set_insert set s) ↔ In r set ⊎ (s ≡ r)
unfolding set_insert
In-set_insert set s r = elim (Bool-cases (has set s)) [
  | inl e ↦
      rw e
        (λ i. inl i, λ i. elim i [ inl j ↦ j | inr f ↦ subst (λ x. In x set) f (has→In set s e) ])
  | inr e ↦
      rw e (
        λ i. elim i [ inl f ↦ inr f | inr j ↦ inl j ],
        λ i. elim i [ inl j ↦ inr j | inr f ↦ inl f ],
      )
]

module _ {ℓ} {V : Type ℓ} where
  -- `v, ok := m[k]`
  abbrev pub lookup : List (String × V) → String → Option V
  lookup [] k = none
  lookup ((j, v) ∷ m) k = if j == k then some v else lookup m k

  -- `m[k] = v`
  abbrev pub insert : List (String × V) → String → V → List (String × V)
  insert [] k v = (k, v) ∷ []
  insert ((j, w) ∷ m) k v = if j == k then (k, v) ∷ m else (j, w) ∷ insert m k v

  pub lookup-insert :
      (m : List (String × V)) (k j : String) (v : V)
      → lookup (insert m k v) j ≡ (if k == j then some v else lookup m j)
  lookup-insert [] k j v = refl
  lookup-insert ((i, w) ∷ m) k j v =
      ground (arith, eq_iff k j, eq_iff i k, eq_iff i j, lookup-insert m k j v)

-- `strings.Split(s, sep)` for a separator of one character, given by its number.
abbrev pub before_first : Char → List String → List String
before_first c [] = (String.◌∷◌ c String.[]) ∷ []
before_first c (p ∷ ps) = (String.◌∷◌ c p) ∷ ps

unfoldable pub split : ℕ → String → List String
split sep String.[] = "" ∷ []
split sep (String.◌∷◌ c s) =
    if nat_eq (code c) sep then "" ∷ split sep s else before_first c (split sep s)

-- `strings.Contains(s, c)` for a text of one character.
abbrev pub contains_char : ℕ → String → Bool
contains_char n String.[] = false
contains_char n (String.◌∷◌ c s) = nat_eq (code c) n || contains_char n s

abbrev pub quote_mark : Char
quote_mark = "\""

abbrev pub backslash : Char
backslash = "\\"

abbrev pub quote_body : String → String
quote_body String.[] = String.◌∷◌ quote_mark String.[]
quote_body (String.◌∷◌ c s) =
    if nat_eq (code c) 34 || nat_eq (code c) 92
    then String.◌∷◌ backslash (String.◌∷◌ c (quote_body s))
    else String.◌∷◌ c (quote_body s)

-- `%q` of package fmt, for texts whose characters are printable.
unfoldable pub quote : String → String
quote s = String.◌∷◌ quote_mark (quote_body s)

-- `strings.Join`
unfoldable pub join : String → List String → String
join sep [] = ""
join sep (s ∷ []) = s
join sep (s ∷ t ∷ ss) = string_append s (string_append sep (join sep (t ∷ ss)))
