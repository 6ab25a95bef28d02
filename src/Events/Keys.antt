-- ===== src/Events/Keys.antt =====
-- The keys of the label caches of pkg/events/filter.go, which join names by slashes.
use Prim.Native.Char.{code}
use Prim.Native.String.{◌++◌}
use text.Mathlib.TextLemmas.{nil-append, cons-append}
use odh_cli.Base.{
  ◌≡◌, refl, sym, ◌∙◌, ap, String, false, arith, contains_char, inl, inr, Bool-cases, nat_eq,
  if◌then◌else◌,
}
use odh_cli.Events.Labels.{LabelLookup, component_cache_key}

-- The texts before and after the first slash.
unfoldable cut : String → String × String
cut String.[] = ("", "")
cut (String.◌∷◌ c s) =
    let (before, after) = cut s in
    if nat_eq (code c) 47 then ("", s) else (String.◌∷◌ c before, after)

cut-append : (s t : String) → contains_char 47 s ≡ false → cut (s ++ ("/" ++ t)) ≡ (s, t)
unfolding cut
cut-append String.[] t h =
    ap cut
      (nil-append ("/" ++ t) ∙ cons-append "/" String.[] t ∙ ap (String.◌∷◌ "/") (nil-append t))
cut-append (String.◌∷◌ c s) t h = elim (Bool-cases (nat_eq (code c) 47)) [
  | inl e ↦ absurd (ground arith)
  | inr e ↦
      let ih : cut (s ++ ("/" ++ t)) ≡ (s, t) = cut-append s t (ground arith) in
      rw (cons-append c s ("/" ++ t), e, ih) refl
]

-- The parts of the key but the last one have no slash.
abbrev pub IsPlain : String → LabelLookup → Type 0
IsPlain target l =
    (contains_char 47 target ≡ false)
    × ((contains_char 47 l.namespace ≡ false) × (contains_char 47 l.kind ≡ false))

cut_both :
    (s t s' t' : String)
    → contains_char 47 s ≡ false
    → contains_char 47 s' ≡ false
    → s ++ ("/" ++ t) ≡ s' ++ ("/" ++ t')
    → (s ≡ s') × (t ≡ t')
cut_both s t s' t' h h' e =
    let q = sym (cut-append s t h) ∙ ap cut e ∙ cut-append s' t' h' in
    (ap (λ p. p.0) q, ap (λ p. p.1) q)

-- Two objects with the same key are the same object.
pub component_cache_key-injective :
    (target : String) (l m : LabelLookup)
    → IsPlain target l
    → IsPlain target m
    → component_cache_key target l ≡ component_cache_key target m
    → l ≡ m
unfolding component_cache_key
component_cache_key-injective target l m (ht, (hn, hk)) (ht', (hn', hk')) e =
    let (e₀, rest) = cut_both target _ target _ ht ht' e in
    let (e₁, rest') = cut_both l.namespace _ m.namespace _ hn hn' rest in
    let (e₂, e₃) = cut_both l.kind l.name m.kind m.name hk hk' rest' in
    λ i. record { namespace = e₁ i; kind = e₂ i; name = e₃ i }
