-- ===== src/Lint/Result/Impacts.antt =====
-- GetImpact against the order of impacts by severity, and the counts of ComputeStatus.
use odh_cli.Base.{ℕ, ◌≤◌, ◌≡◌, ◌⊎◌, inl, inr, refl, none, some, List, [], ◌∷◌, arith, All, Some}
use odh_cli.Lint.Result.{
  Impact, prohibited, blocking, advisory, no_impact, unknown_impact, Condition, raise_impact,
  get_impact_from, get_impact,
}

-- How severe an impact is; an unknown one counts as none.
abbrev pub severity : Impact → ℕ
severity prohibited = 3
severity blocking = 2
severity advisory = 1
severity no_impact = 0
severity (unknown_impact s) = 0

-- The maxima that the loop goes on with.
abbrev IsKept : Impact → Type 0
IsKept blocking = Unit
IsKept advisory = Unit
IsKept no_impact = Unit
IsKept _ = ⊥

-- One round of the loop, with the rounds that follow.
abbrev round : Impact → Impact → List Condition → Impact
round most i cs = elim (raise_impact most i) [
  | none ↦ prohibited
  | some next ↦ get_impact_from next cs
]

round-ge :
    (most i : Impact) (cs : List Condition)
    → IsKept most
    → ((m : Impact) → IsKept m → severity m ≤ severity (get_impact_from m cs))
    → (severity most ≤ severity (round most i cs)) × (severity i ≤ severity (round most i cs))
round-ge blocking prohibited cs k ih = omega arith
round-ge blocking blocking cs k ih = omega (arith, ih blocking tt)
round-ge blocking _ cs k ih = omega (arith, ih blocking tt)
round-ge advisory prohibited cs k ih = omega arith
round-ge advisory blocking cs k ih = omega (arith, ih blocking tt)
round-ge advisory _ cs k ih = omega (arith, ih advisory tt)
round-ge no_impact prohibited cs k ih = omega arith
round-ge no_impact blocking cs k ih = omega (arith, ih blocking tt)
round-ge no_impact advisory cs k ih = omega (arith, ih advisory tt)
round-ge no_impact _ cs k ih = omega arith
round-ge _ i cs k ih = elim k [ ]

get_impact_from-ge :
    (cs : List Condition) (most : Impact)
    → IsKept most
    → severity most ≤ severity (get_impact_from most cs)
unfolding get_impact_from
get_impact_from-ge [] most k = omega arith
get_impact_from-ge (c ∷ cs) most k = (round-ge most c.impact cs k (get_impact_from-ge cs)).0

pub severity-le : (i : Impact) → severity i ≤ 3
severity-le prohibited = omega arith
severity-le _ = omega arith

severity-le-All : (cs : List Condition) → All (λ c. severity c.impact ≤ 3) cs
severity-le-All [] = tt
severity-le-All (c ∷ cs) = (severity-le c.impact, severity-le-All cs)

round-All :
    (most i : Impact) (cs : List Condition)
    → IsKept most
    → ((m : Impact) → IsKept m → All (λ c. severity c.impact ≤ severity (get_impact_from m cs)) cs)
    → All (λ c. severity c.impact ≤ severity (round most i cs)) cs
round-All blocking prohibited cs k ih = severity-le-All cs
round-All blocking _ cs k ih = ih blocking tt
round-All advisory prohibited cs k ih = severity-le-All cs
round-All advisory blocking cs k ih = ih blocking tt
round-All advisory _ cs k ih = ih advisory tt
round-All no_impact prohibited cs k ih = severity-le-All cs
round-All no_impact blocking cs k ih = ih blocking tt
round-All no_impact advisory cs k ih = ih advisory tt
round-All no_impact _ cs k ih = ih no_impact tt
round-All _ i cs k ih = elim k [ ]

get_impact_from-All :
    (cs : List Condition) (most : Impact)
    → IsKept most
    → All (λ c. severity c.impact ≤ severity (get_impact_from most cs)) cs
unfolding get_impact_from
get_impact_from-All [] most k = tt
get_impact_from-All (c ∷ cs) most k = (
  (round-ge most c.impact cs k (get_impact_from-ge cs)).1,
  round-All most c.impact cs k (get_impact_from-All cs),
)

-- Where the maximum of a loop comes from: its start, or a condition.
abbrev HasSource : Impact → List Condition → Impact → Type 0
HasSource most cs i = (i ≡ most) ⊎ Some (λ c. c.impact ≡ i) cs

round_source :
    (most : Impact) (c : Condition) (cs : List Condition) (i : Impact)
    → c.impact ≡ i
    → IsKept most
    → ((m : Impact) → IsKept m → HasSource m cs (get_impact_from m cs))
    → HasSource most (c ∷ cs) (round most i cs)
round_source most c cs prohibited e k ih = inr (inl e)
round_source blocking c cs blocking e k ih = ground (arith, ih blocking tt)
round_source blocking c cs _ e k ih = ground (arith, ih blocking tt)
round_source advisory c cs blocking e k ih = ground (arith, ih blocking tt)
round_source advisory c cs _ e k ih = ground (arith, ih advisory tt)
round_source no_impact c cs blocking e k ih = ground (arith, ih blocking tt)
round_source no_impact c cs advisory e k ih = ground (arith, ih advisory tt)
round_source no_impact c cs _ e k ih = ground (arith, ih no_impact tt)
round_source _ c cs i e k ih = elim k [ ]

get_impact_from_source :
    (cs : List Condition) (most : Impact)
    → IsKept most
    → HasSource most cs (get_impact_from most cs)
unfolding get_impact_from
get_impact_from_source [] most k = inl refl
get_impact_from_source (c ∷ cs) most k =
    round_source most c cs c.impact refl k (get_impact_from_source cs)

-- GetImpact returns the most severe impact: no condition has a more severe one, and it is the impact
-- of some condition or none.
pub get_impact_max :
    (cs : List Condition)
    → All (λ c. severity c.impact ≤ severity (get_impact cs)) cs
      × ((get_impact cs ≡ no_impact) ⊎ Some (λ c. c.impact ≡ get_impact cs) cs)
unfolding get_impact
get_impact_max cs = (get_impact_from-All cs no_impact tt, get_impact_from_source cs no_impact tt)
