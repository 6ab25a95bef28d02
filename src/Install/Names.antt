-- ===== src/Install/Names.antt =====
-- MatchesSubscription of pkg/deps/install.go on the names that catalogs give to CSVs.
use Prim.Native.String.{◌++◌}
use text.Mathlib.TextLemmas.{append_assoc, nil-append, cons-append}
use odh_cli.Base.{
  eq_iff, some, ◌≡◌, refl, sym, ◌∙◌, ap, inl, inr, String, Bool, true, false, not, ◌&&◌, ◌||◌, ◌==◌,
  arith, Bool-cases,
}
use odh_cli.Base.Strings.{
  has_prefix, has_prefix-append, to_lower, map_chars-append, lower_char, trim_prefix, cut_prefix,
  or_text,
}
use odh_cli.Install.Match.{matches_suffix, matches_subscription}

to_lower-append : (s t : String) → to_lower (s ++ t) ≡ to_lower s ++ to_lower t
unfolding to_lower
to_lower-append s t = map_chars-append lower_char s t

-- A name in front of a version, in lower case.
lower_versioned :
    (name version : String)
    → to_lower (name ++ (".v" ++ version)) ≡ (to_lower name ++ ".v") ++ to_lower version
unfolding to_lower
lower_versioned name version =
    rw
      (
        to_lower-append name (".v" ++ version),
        to_lower-append ".v" version,
        append_assoc (to_lower name) ".v" (to_lower version),
      )
      refl

cut_prefix-append : (p s : String) → cut_prefix (p ++ s) p ≡ some s
unfolding cut_prefix
cut_prefix-append String.[] s = rw (nil-append s) refl
cut_prefix-append (String.◌∷◌ c p) s = rw (cons-append c p s) ground (arith, cut_prefix-append p s)

trim_prefix-append : (p s : String) → trim_prefix (p ++ s) p ≡ s
unfolding trim_prefix
trim_prefix-append p s = ap (λ o. or_text o (p ++ s)) (cut_prefix-append p s)

versioned_prefix :
    (name version : String)
    → has_prefix (to_lower (name ++ (".v" ++ version))) (to_lower name ++ ".v") ≡ true
versioned_prefix name version =
    rw (lower_versioned name version) (has_prefix-append (to_lower name ++ ".v") (to_lower version))

or_true : (b : Bool) → b || true ≡ true
or_true true = refl
or_true false = refl

second_prefix :
    (csv sub lower : String) (rest : Bool)
    → has_prefix csv (sub ++ ".v") ≡ true
    → has_prefix csv (lower ++ ".v")
        || ((not (sub == lower) && has_prefix csv (sub ++ ".v")) || rest)
      ≡ true
second_prefix csv sub lower rest h = elim (Bool-cases (sub == lower)) [
  | inr e ↦ rw (e, h) (or_true (has_prefix csv (lower ++ ".v")))
  | inl e ↦
      let k = ap (λ s. has_prefix csv (s ++ ".v")) (sym ((eq_iff sub lower).0 e)) ∙ h in rw k refl
]

lower_openshift :
    (name : String) → trim_prefix (to_lower ("openshift-" ++ name)) "openshift-" ≡ to_lower name
unfolding to_lower
lower_openshift name =
    rw (to_lower-append "openshift-" name) (trim_prefix-append "openshift-" (to_lower name))

-- For every name and every version, the CSV `name.vversion` matches the subscription of that name, and
-- also the subscription `openshift-name`.
pub matches_subscription-versioned :
    (name version : String)
    → (matches_subscription (name ++ (".v" ++ version)) name ≡ true)
      × (matches_subscription (name ++ (".v" ++ version)) ("openshift-" ++ name) ≡ true)
unfolding matches_subscription
matches_subscription-versioned name version = (
  rw (versioned_prefix name version) refl,
  second_prefix (to_lower (name ++ (".v" ++ version)))
      (trim_prefix (to_lower ("openshift-" ++ name)) "openshift-") (to_lower ("openshift-" ++ name))
      (matches_suffix (to_lower (name ++ (".v" ++ version)))
        (trim_prefix (to_lower ("openshift-" ++ name)) "openshift-"))
      (ap (λ s. has_prefix (to_lower (name ++ (".v" ++ version))) (s ++ ".v"))
          (lower_openshift name)
        ∙ versioned_prefix name version),
)
