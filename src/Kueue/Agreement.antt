-- ===== src/Kueue/Agreement.antt =====
-- checkOwnerTreeConsistency of invariants.go against agreement along an ownership tree.
use odh_cli.Base.{
  ◌≡◌, refl, ap, ◌↔◌, inl, inr, String, Option, none, some, List, [], ◌∷◌, ◌==◌, lookup, arith,
  eq_iff, All, In-All, All-of_In, Bool-cases, Option-cases,
}
use odh_cli.Kube.{ObjectMetadata}
use odh_cli.Kueue.{queue_name_label}
use odh_cli.Kueue.Graph.{GraphNode, OwnershipGraph}
use odh_cli.Kueue.Walk.{IsDescendant, walk_subtree_lem}
use odh_cli.Kueue.Invariants.{
  Violation, disagreement, first_disagreement, check_owner_tree_consistency,
}

-- The queue name of an object, from its labels; `none` if it has no such label.
abbrev pub queue_name : List (String × String) → Option String
queue_name labels = lookup labels queue_name_label

-- An object whose whole ownership tree has its queue name, or has none if it has none.
abbrev pub IsConsistent : OwnershipGraph → ObjectMetadata → Type 0
IsConsistent graph cr =
    (n : GraphNode) → IsDescendant graph cr.uid n → queue_name n.labels ≡ queue_name cr.labels

disagreement_iff :
    (cr : ObjectMetadata) (d : GraphNode) (root child : Option String)
    → disagreement cr root d child ≡ none ↔ child ≡ root
unfolding disagreement
disagreement_iff cr d none none = (λ h. refl, λ h. refl)
disagreement_iff cr d (some r) none = (λ h. cc, λ h. cc)
disagreement_iff cr d none (some c) = (λ h. cc, λ h. cc)
disagreement_iff cr d (some r) (some c) = elim (Bool-cases (r == c)) [
  | inl e ↦ rw e (λ h. ground (arith, eq_iff r c), λ h. refl)
  | inr e ↦ rw e (λ h. cc, λ h. ground (arith, eq_iff r c))
]

first_disagreement_iff :
    (cr : ObjectMetadata) (ds : List GraphNode)
    → first_disagreement cr ds ≡ none
      ↔ All (λ (n : GraphNode). queue_name n.labels ≡ queue_name cr.labels) ds
unfolding first_disagreement
first_disagreement_iff cr [] = (λ h. tt, λ h. refl)
first_disagreement_iff cr (d ∷ ds) =
    let step = disagreement_iff cr d (queue_name cr.labels) (queue_name d.labels) in
    let rest = first_disagreement_iff cr ds in
    elim (Option-cases (disagreement cr (queue_name cr.labels) d (queue_name d.labels))) [
      | inl e ↦ rw (e, first_disagreement) (λ h. (step.0 e, rest.0 h), λ h. rest.1 h.1)
      | inr (v, e) ↦ rw (e, first_disagreement) (λ h. cc, λ h. absurd (conflict v e (step.1 h.0)))
    ]
  where
    conflict : (v : Violation) {o : Option Violation} → o ≡ some v → o ≡ none → ⊥
    conflict v e f = cc

-- checkOwnerTreeConsistency always ends with an answer. It is nil exactly when every object that an
-- ownership path leads to from the workload has the same queue name label, or like it has none.
pub check_owner_tree_consistency_iff :
    (cr : ObjectMetadata) (graph : OwnershipGraph)
    → (answer : Option Violation) × (check_owner_tree_consistency cr graph ≡ some answer)
      × (answer ≡ none ↔ IsConsistent graph cr)
unfolding check_owner_tree_consistency
check_owner_tree_consistency_iff cr graph =
    let (r, e, same) = walk_subtree_lem graph cr.uid in
    let both = first_disagreement_iff cr r in
    (
      first_disagreement cr r,
      ap (λ o. elim o [ none ↦ none | some ds ↦ some (first_disagreement cr ds) ]) e,
      (
        λ h n d.
            In-All (λ (m : GraphNode). queue_name m.labels ≡ queue_name cr.labels) n r
              ((same n).1 d) (both.0 h),
        λ c. both.1 (
            All-of_In (λ (m : GraphNode). queue_name m.labels ≡ queue_name cr.labels) r
              (λ n i. c n ((same n).0 i))),
      ),
    )
