-- ===== src/Install/Match.antt =====
-- MatchesSubscription and slicesEqualUnordered of pkg/deps/install.go.
use odh_cli.Base.{
  ℕ, ◌-◌, String, Bool, true, false, not, ◌&&◌, ◌||◌, Option, none, some, List, [], ◌∷◌,
  if◌then◌else◌, ◌==◌, nat_eq, length, lookup, insert, ◌+◌,
}
use Prim.Native.String.{◌++◌}
use odh_cli.Base.Strings.{
  has_prefix, trim_prefix, cut_suffix, has_suffix, remove_char, before, to_lower,
}

-- The rest of MatchesSubscription: the names before `.v` without hyphens.
unfoldable pub matches_normalized : String → String → Bool
unfolding before remove_char
matches_normalized csv_lower sub_without_prefix = elim (before csv_lower ".v") [
  | none ↦ false
  | some csv_package ↦
      not (csv_package == "") && remove_char 45 csv_package == remove_char 45 sub_without_prefix
]

-- The middle of MatchesSubscription: the suffix "-operator" that a subscription lacks, or that stands for
-- "-product".
unfoldable pub matches_suffix : String → String → Bool
unfolding has_prefix has_suffix cut_suffix matches_normalized
matches_suffix csv_lower sub_without_prefix =
    (not (has_suffix sub_without_prefix "-operator")
      && (not (has_suffix sub_without_prefix "operator")
          && has_prefix csv_lower (sub_without_prefix ++ "-operator.v")))
    || (elim (cut_suffix sub_without_prefix "-product") [
      | none ↦ false
      | some base ↦ has_prefix csv_lower (base ++ "-operator.v")
    ]
        || matches_normalized csv_lower sub_without_prefix)

-- MatchesSubscription
unfoldable pub matches_subscription : String → String → Bool
unfolding to_lower has_prefix trim_prefix matches_suffix
matches_subscription csv_name sub_name =
    let csv_lower = to_lower csv_name in
    let sub_lower = to_lower sub_name in
    let sub_without_prefix = trim_prefix sub_lower "openshift-" in
    has_prefix csv_lower (sub_lower ++ ".v")
    || ((not (sub_without_prefix == sub_lower) && has_prefix csv_lower (sub_without_prefix ++ ".v"))
        || matches_suffix csv_lower sub_without_prefix)

-- `counts[v]++` over a list; a missing count is zero.
abbrev pub or_zero : Option ℕ → ℕ
or_zero none = 0
or_zero (some n) = n

abbrev pub count_of : List (String × ℕ) → String → ℕ
count_of counts v = or_zero (lookup counts v)

unfoldable pub count_all : List (String × ℕ) → List String → List (String × ℕ)
count_all counts [] = counts
count_all counts (v ∷ vs) = count_all (insert counts v (count_of counts v + 1)) vs

-- The second loop: `counts[v]--`, and false below zero, before the count is read again.
unfoldable pub take_all : List (String × ℕ) → List String → Bool
take_all counts [] = true
take_all counts (v ∷ vs) =
    let rest = take_all (insert counts v (count_of counts v - 1)) vs in
    if nat_eq (count_of counts v) 0 then false else rest

-- slicesEqualUnordered
unfoldable pub slices_equal_unordered : List String → List String → Bool
unfolding count_all take_all
slices_equal_unordered a b =
    if not (nat_eq (length a) (length b)) then false else take_all (count_all [] a) b
