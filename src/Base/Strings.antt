-- ===== src/Base/Strings.antt =====
-- Functions of Go's package strings, on texts as lists of characters.
use Prim.Native.Nat.{ℕ, zero, suc, ◌-◌}
use Prim.Native.Char.{Char, code}
use Prim.Native.String.{String, ◌++◌ as string_append}
use mathlib.Core.Path.{◌≡◌, refl, ap}
use mathlib.Core.Bool.{Bool, true, false, ◌&&◌, ◌||◌}
use mathlib.Core.Option.{Option, none, some}
use native.Mathlib.Omega.{arith}
use text.Mathlib.TextLemmas.{nil-append, cons-append}
use odh_cli.Base.Tests.{ltb, nat_eq, if◌then◌else◌}

-- strings.HasPrefix
unfoldable pub has_prefix : String → String → Bool
has_prefix s String.[] = true
has_prefix String.[] (String.◌∷◌ d p) = false
has_prefix (String.◌∷◌ c s) (String.◌∷◌ d p) = nat_eq (code c) (code d) && has_prefix s p

-- The text after a prefix, if it has the prefix.
unfoldable pub cut_prefix : String → String → Option String
cut_prefix s String.[] = some s
cut_prefix String.[] (String.◌∷◌ d p) = none
cut_prefix (String.◌∷◌ c s) (String.◌∷◌ d p) =
    if nat_eq (code c) (code d) then cut_prefix s p else none

abbrev pub or_text : Option String → String → String
or_text (some rest) s = rest
or_text none s = s

-- strings.TrimPrefix
unfoldable pub trim_prefix : String → String → String
unfolding cut_prefix
trim_prefix s p = or_text (cut_prefix s p) s

-- strings.CutSuffix: the text before a suffix, if it has the suffix.
unfoldable pub cut_suffix : String → String → Option String
cut_suffix String.[] String.[] = some String.[]
cut_suffix String.[] (String.◌∷◌ d p) = none
cut_suffix (String.◌∷◌ c s) p =
    let rest = cut_suffix s p in
    if same (String.◌∷◌ c s) p
    then some String.[]
    else elim rest [ some before ↦ some (String.◌∷◌ c before) | none ↦ none ]
  where
    same : String → String → Bool
    same String.[] String.[] = true
    same String.[] (String.◌∷◌ d q) = false
    same (String.◌∷◌ e r) String.[] = false
    same (String.◌∷◌ e r) (String.◌∷◌ d q) = nat_eq (code e) (code d) && same r q

-- strings.HasSuffix
unfoldable pub has_suffix : String → String → Bool
unfolding cut_suffix
has_suffix s p = elim (cut_suffix s p) [ some before ↦ true | none ↦ false ]

-- strings.ReplaceAll(s, c, "") for a text of one character, given by its number.
unfoldable pub remove_char : ℕ → String → String
remove_char n String.[] = String.[]
remove_char n (String.◌∷◌ c s) =
    if nat_eq (code c) n then remove_char n s else String.◌∷◌ c (remove_char n s)

-- `s[:strings.Index(s, sep)]`: the text before the first place where `sep` begins, if there is one.
unfoldable pub before : String → String → Option String
unfolding has_prefix
before String.[] sep = if has_prefix String.[] sep then some String.[] else none
before (String.◌∷◌ c s) sep =
    let rest = before s sep in
    if has_prefix (String.◌∷◌ c s) sep
    then some String.[]
    else elim rest [ some r ↦ some (String.◌∷◌ c r) | none ↦ none ]

-- The character at a place.
unfoldable pub char_at : String → ℕ → Option Char
char_at String.[] n = none
char_at (String.◌∷◌ c s) zero = some c
char_at (String.◌∷◌ c s) (suc n) = char_at s n

-- unicode.ToLower on ASCII; the names of Kubernetes objects have no other letters.
unfoldable pub lower_char : Char → Char
unfolding char_at
lower_char c =
    if ltb (code c) 65
    then c
    else elim (char_at "abcdefghijklmnopqrstuvwxyz" (code c - 65)) [ some d ↦ d | none ↦ c ]

-- strings.Map, of which strings.ToLower is a case.
unfoldable pub map_chars : (Char → Char) → String → String
map_chars f String.[] = String.[]
map_chars f (String.◌∷◌ c s) = String.◌∷◌ (f c) (map_chars f s)

pub map_chars-append :
    (f : Char → Char) (s t : String)
    → map_chars f (string_append s t) ≡ string_append (map_chars f s) (map_chars f t)
unfolding map_chars
map_chars-append f String.[] t = rw (nil-append t, nil-append (map_chars f t)) refl
map_chars-append f (String.◌∷◌ c s) t =
    rw (cons-append c s t, cons-append (f c) (map_chars f s) (map_chars f t))
      (ap (String.◌∷◌ (f c)) (map_chars-append f s t))

pub has_prefix-append : (s t : String) → has_prefix (string_append s t) s ≡ true
unfolding has_prefix
has_prefix-append String.[] t = refl
has_prefix-append (String.◌∷◌ c s) t = rw (cons-append c s t) ground (arith, has_prefix-append s t)

unfoldable pub to_lower : String → String
unfolding map_chars lower_char
to_lower s = map_chars lower_char s

to_lower_runs : to_lower "Kueue-Operator.v1" ≡ "kueue-operator.v1"
unfolding to_lower
to_lower_runs = refl

-- unicode.IsSpace
abbrev is_space : ℕ → Bool
is_space n =
    (ltb 8 n && ltb n 14)
    || (nat_eq n 32
        || (nat_eq n 133
            || (nat_eq n 160
                || (nat_eq n 5760
                    || ((ltb 8191 n && ltb n 8203)
                        || (nat_eq n 8232
                            || (nat_eq n 8233
                                || (nat_eq n 8239 || (nat_eq n 8287 || nat_eq n 12288)))))))))

unfoldable trim_left : String → String
trim_left String.[] = String.[]
trim_left (String.◌∷◌ c s) = if is_space (code c) then trim_left s else String.◌∷◌ c s

unfoldable trim_right : String → String
trim_right String.[] = String.[]
trim_right (String.◌∷◌ c s) = add (trim_right s)
  where
    add : String → String
    add String.[] = if is_space (code c) then String.[] else String.◌∷◌ c String.[]
    add (String.◌∷◌ d r) = String.◌∷◌ c (String.◌∷◌ d r)

-- strings.TrimSpace
unfoldable pub trim_space : String → String
unfolding trim_left trim_right
trim_space s = trim_right (trim_left s)
