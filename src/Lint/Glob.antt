-- ===== src/Lint/Glob.antt =====
-- Go's `path.Match`, which the selectors call: `*` and `?` match no slash, `[…]` is a class of ranges with
-- `^` for its complement, a backslash takes the next character as it is. A pattern that is not
-- well formed is an error, whatever the text. Patterns and texts are lists of character numbers.
use odh_cli.Base.{
  ℕ, String, Bool, true, false, not, ◌&&◌, ◌||◌, Option, none, some, List, [], ◌∷◌, if◌then◌else◌,
  ltb, nat_eq, ◌≡◌, refl,
}
use Prim.Native.Char.{code}

abbrev pub codes : String → List ℕ
codes String.[] = []
codes (String.◌∷◌ c s) = code c ∷ codes s

pub data Item : Type 0 where
  star any_one : Item
  one : ℕ → Item
  class : Bool → List (ℕ × ℕ) → Item

-- Where the reader of a pattern stands: outside of a class; behind a backslash; behind `[`; before the
-- first or a later range; behind a backslash there; behind the lower end of a range; before its
-- upper end; behind a backslash there.
pub data Mode : Type 0 where
  top escaped opened : Mode
  range escaped_low : Bool → List (ℕ × ℕ) → Mode
  low : Bool → List (ℕ × ℕ) → ℕ → Mode
  high escaped_high : Bool → List (ℕ × ℕ) → ℕ → Mode

abbrev then_item : Item → Option (List Item) → Option (List Item)
then_item i none = none
then_item i (some is) = some (i ∷ is)

-- What one character does to the mode: `none` is a bad pattern; an item may be finished by it.
pub data Move : Type 0 where
  bad : Move
  goto : Mode → Move
  finish : Item → Move

abbrev move_range : Bool → List (ℕ × ℕ) → ℕ → Move
move_range neg [] c =
    if nat_eq c b'-' || nat_eq c b']'
    then bad
    else if nat_eq c b'\\'
    then goto (escaped_low neg [])
    else goto (low neg [] c)
move_range neg (r ∷ rs) c =
    if nat_eq c b']'
    then finish (class neg (r ∷ rs))
    else if nat_eq c b'-'
    then bad
    else if nat_eq c b'\\'
    then goto (escaped_low neg (r ∷ rs))
    else goto (low neg (r ∷ rs) c)

unfoldable pub move : Mode → ℕ → Move
move top c =
    if nat_eq c b'*'
    then finish star
    else if nat_eq c b'?'
    then finish any_one
    else if nat_eq c b'['
    then goto opened
    else if nat_eq c b'\\'
    then goto escaped
    else finish (one c)
move escaped c = finish (one c)
move opened c = if nat_eq c b'^' then goto (range true []) else move_range false [] c
move (range neg rs) c = move_range neg rs c
move (escaped_low neg rs) c = goto (low neg rs c)
move (low neg rs lo) c =
    if nat_eq c b'-' then goto (high neg rs lo) else move_range neg ((lo, lo) ∷ rs) c
move (high neg rs lo) c =
    if nat_eq c b'-' || nat_eq c b']'
    then bad
    else if nat_eq c b'\\'
    then goto (escaped_high neg rs lo)
    else goto (range neg ((lo, c) ∷ rs))
move (escaped_high neg rs lo) c = goto (range neg ((lo, c) ∷ rs))

unfoldable pub parse : Mode → List ℕ → Option (List Item)
unfolding move
parse top [] = some []
parse _ [] = none
parse m (c ∷ cs) = elim (move m c) [
  | bad ↦ none
  | goto m' ↦ parse m' cs
  | finish i ↦ then_item i (parse top cs)
]

abbrev in_ranges : ℕ → List (ℕ × ℕ) → Bool
in_ranges c [] = false
in_ranges c ((lo, hi) ∷ rs) = not (ltb c lo) && not (ltb hi c) || in_ranges c rs

-- matchChunk, on items that are no stars: the rest of the text behind the chunk.
unfoldable pub match_chunk : List Item → List ℕ → Option (List ℕ)
match_chunk [] s = some s
match_chunk (i ∷ p) [] = none
match_chunk (star ∷ p) (c ∷ s) = none
match_chunk (any_one ∷ p) (c ∷ s) = if nat_eq c b'/' then none else match_chunk p s
match_chunk (one d ∷ p) (c ∷ s) = if nat_eq c d then match_chunk p s else none
match_chunk (class neg rs ∷ p) (c ∷ s) =
    if (if neg then not (in_ranges c rs) else in_ranges c rs) then match_chunk p s else none

-- A chunk, with whether a star stands before it.
abbrev pub Chunk : Type 0
Chunk = Bool × List Item

-- scanChunk for the whole pattern: what is read so far of a chunk is not empty or has a star before it.
abbrev pub add_item : Item → List Chunk → List Chunk
add_item i [] = (false, i ∷ []) ∷ []
add_item i ((true, p) ∷ chunks) = (false, i ∷ []) ∷ (true, p) ∷ chunks
add_item i ((false, p) ∷ chunks) = (false, i ∷ p) ∷ chunks

-- Several stars in a row count as one.
abbrev pub add_star : List Chunk → List Chunk
add_star [] = (true, []) ∷ []
add_star ((true, p) ∷ chunks) = (true, p) ∷ chunks
add_star ((false, p) ∷ chunks) = (true, p) ∷ chunks

unfoldable pub chunks_of : List Item → List Chunk
chunks_of [] = []
chunks_of (star ∷ p) = add_star (chunks_of p)
chunks_of (any_one ∷ p) = add_item any_one (chunks_of p)
chunks_of (one d ∷ p) = add_item (one d) (chunks_of p)
chunks_of (class neg rs ∷ p) = add_item (class neg rs) (chunks_of p)

-- The last chunk has to take all of the text.
abbrev pub unless_left : Bool → Option (List ℕ) → Option (List ℕ)
unless_left last none = none
unless_left last (some []) = some []
unless_left true (some (c ∷ s)) = none
unless_left false (some (c ∷ s)) = some (c ∷ s)

abbrev pub or_else : Option (List ℕ) → Option (List ℕ) → Option (List ℕ)
or_else (some t) later = some t
or_else none later = later

-- The loop that skips characters, none of them a slash, up to the first place where the chunk matches.
unfoldable pub skip_to : Bool → List Item → List ℕ → Option (List ℕ)
unfolding match_chunk
skip_to last chunk [] = none
skip_to last chunk (c ∷ s) =
    let later = skip_to last chunk s in
    if nat_eq c b'/' then none else or_else (unless_left last (match_chunk chunk s)) later

-- One chunk: at this place, or behind a star at a later one.
unfoldable pub match_next : Bool → Bool → List Item → List ℕ → Option (List ℕ)
unfolding match_chunk skip_to
match_next last starred chunk s =
    or_else (unless_left last (match_chunk chunk s))
      (if starred then skip_to last chunk s else none)

abbrev pub is_nil : {A : Type 0} → List A → Bool
is_nil [] = true
is_nil (x ∷ xs) = false

abbrev pub has_slash : List ℕ → Bool
has_slash [] = false
has_slash (c ∷ s) = nat_eq c b'/' || has_slash s

-- The loop over the chunks, which never goes back behind the first place where a chunk matches.
unfoldable pub match_chunks : List Chunk → List ℕ → Bool
unfolding match_next
match_chunks [] s = is_nil s
match_chunks ((starred, chunk) ∷ chunks) s =
    if starred && is_nil chunk
    then not (has_slash s)
    else elim (match_next (is_nil chunks) starred chunk s) [
      | none ↦ false
      | some t ↦ match_chunks chunks t
    ]

unfoldable pub match_items : List Item → List ℕ → Bool
unfolding chunks_of match_chunks
match_items p s = match_chunks (chunks_of p) s

-- `path.Match`; `none` is ErrBadPattern.
unfoldable pub path_match : String → String → Option Bool
unfolding parse match_items
path_match pattern name = elim (parse top (codes pattern)) [
  | none ↦ none
  | some items ↦ some (match_items items (codes name))
]

glob_tests :
    (path_match "components.*" "components.kserve.removal" ≡ some true)
    × (path_match "*dashboard*" "components.dashboard.x" ≡ some true)
    × (path_match "a[b-d]?" "acz" ≡ some true)
    × (path_match "a[b-d]?" "aez" ≡ some false)
    × (path_match "*.kserve" "a/b.kserve" ≡ some false)
    × (path_match "[]a]" "]" ≡ none)
    × (path_match "[" "a" ≡ none)
    × (path_match "*[^a]*" "x/" ≡ some false)
    × (path_match "*a*b?" "xaaxbbc" ≡ some true)
    × (path_match "a*b" "acbb" ≡ some true)
unfolding path_match
glob_tests = (refl, refl, refl, refl, refl, refl, refl, refl, refl, refl)
