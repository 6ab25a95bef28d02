-- ===== src/Kueue/Verdicts.antt =====
-- checkNamespace of check.go against the three invariants of its workloads.
use odh_cli.Base.{
  ◌≡◌, refl, sym, ap, ◌∙◌, ◌↔◌, inl, inr, String, Option, none, some, List, [], ◌∷◌, ◌++◌, has, All,
  Bool-cases, Option-cases,
}
use mathlib.Core.List.{append_assoc, append-nil}
use odh_cli.Errors.{is_some}
use odh_cli.Kube.{ObjectMetadata}
use odh_cli.Lint.Check.{ok}
use odh_cli.Kueue.{Reader, NotFoundErrors}
use odh_cli.Kueue.Graph.{OwnershipGraph, build_graph}
use odh_cli.Kueue.Invariants.{
  Violation, check_namespace_to_workload, check_workload_to_namespace, check_owner_tree_consistency,
}
use odh_cli.Kueue.Agreement.{queue_name, IsConsistent, check_owner_tree_consistency_iff}
use odh_cli.Kueue.Check.{
  list_workloads_in_namespace, check_workload, check_workloads, check_namespace,
}

-- A workload that has a queue name exactly if Kueue manages its namespace, and whose ownership tree
-- agrees with it.
abbrev pub IsSound : List String → OwnershipGraph → ObjectMetadata → Type 0
IsSound namespaces graph cr =
    (is_some (queue_name cr.labels) ≡ has namespaces cr.namespace) × IsConsistent graph cr

labels_iff :
    (namespaces : List String) (cr : ObjectMetadata)
    → (check_namespace_to_workload cr namespaces ≡ none)
        × (check_workload_to_namespace cr namespaces ≡ none)
      ↔ is_some (queue_name cr.labels) ≡ has namespaces cr.namespace
unfolding check_namespace_to_workload check_workload_to_namespace
labels_iff namespaces cr = elim (Bool-cases (has namespaces cr.namespace)) [
  | inl m ↦ elim (Option-cases (queue_name cr.labels)) [
    | inl e ↦ rw (e, check_workload_to_namespace, m) (λ h. cc, λ h. cc)
    | inr (v, e) ↦ rw (e, check_workload_to_namespace, m) (λ h. refl, λ h. (refl, refl))
  ]
  | inr m ↦ elim (Option-cases (queue_name cr.labels)) [
    | inl e ↦ rw (e, check_workload_to_namespace, m) (λ h. refl, λ h. (refl, refl))
    | inr (v, e) ↦ rw (e, check_workload_to_namespace, m) (λ h. cc, λ h. cc)
  ]
]

-- Of three tests in order, none answers exactly if no one does.
abbrev first_of : {V : Type 0} → Option V → Option V → Option (Option V) → Option (Option V)
first_of (some v) b rest = some (some v)
first_of none (some v) rest = some (some v)
first_of none none rest = rest

first_of_iff :
    {V : Type 0} (a b r : Option V)
    → (answer : Option V) × (first_of a b (some r) ≡ some answer)
      × (answer ≡ none ↔ ((a ≡ none) × (b ≡ none)) × (r ≡ none))
first_of_iff (some v) b r = (some v, refl, (λ h. cc, λ h. cc))
first_of_iff none (some v) r = (some v, refl, (λ h. cc, λ h. cc))
first_of_iff none none r = (r, refl, (λ h. ((refl, refl), h), λ h. h.1))

check_workload-first_of :
    (namespaces : List String) (graph : OwnershipGraph) (cr : ObjectMetadata)
    → check_workload namespaces graph cr
      ≡ first_of
          (check_namespace_to_workload cr namespaces)
          (check_workload_to_namespace cr namespaces)
          (check_owner_tree_consistency cr graph)
unfolding check_workload
check_workload-first_of namespaces graph cr =
    elim (Option-cases (check_namespace_to_workload cr namespaces)) [
      | inr (v, e) ↦ rw (e, check_workload) refl
      | inl e ↦ elim (Option-cases (check_workload_to_namespace cr namespaces)) [
        | inr (v, f) ↦ rw (e, f, check_workload) refl
        | inl f ↦ rw (e, f, check_workload) refl
      ]
    ]

check_workload_iff :
    (namespaces : List String) (graph : OwnershipGraph) (cr : ObjectMetadata)
    → (answer : Option Violation) × (check_workload namespaces graph cr ≡ some answer)
      × (answer ≡ none ↔ IsSound namespaces graph cr)
check_workload_iff namespaces graph cr =
    let (r, e, tree) = check_owner_tree_consistency_iff cr graph in
    let labels = labels_iff namespaces cr in
    let (answer, f, both) =
      first_of_iff (check_namespace_to_workload cr namespaces)
        (check_workload_to_namespace cr namespaces) r in
    (
      answer,
      check_workload-first_of namespaces graph cr ∙ ap (first_of _ _) e ∙ f,
      (
        λ h. let (l, t) = both.0 h in (labels.0 l, tree.0 t),
        λ (l, t). both.1 (labels.1 l, tree.1 t),
      ),
    )

check_workloads_iff :
    (namespaces : List String) (graph : OwnershipGraph) (crs : List ObjectMetadata)
    (acc : List Violation)
    → (vs : List Violation) × (check_workloads namespaces graph crs acc ≡ some (acc ++ vs))
      × (vs ≡ [] ↔ All (IsSound namespaces graph) crs)
unfolding check_workloads
check_workloads_iff namespaces graph [] acc =
    ([], ap some (sym (append-nil acc)), (λ h. tt, λ h. refl))
check_workloads_iff namespaces graph (cr ∷ crs) acc =
    let (answer, e, sound) = check_workload_iff namespaces graph cr in
    elim (Option-cases answer) [
      | inl n ↦
          let (vs, f, rest) = check_workloads_iff namespaces graph crs acc in
          (
            vs,
            rw (e ∙ ap some n, check_workloads) f,
            (λ h. (sound.0 n, rest.0 h), λ (h, t). rest.1 t),
          )
      | inr (v, s) ↦
          let (vs, f, rest) = check_workloads_iff namespaces graph crs (acc ++ v ∷ []) in
          (
            v ∷ vs,
            rw (e ∙ ap some s, check_workloads) (f ∙ ap some (append_assoc acc (v ∷ []) vs)),
            (λ h. cc, λ h. absurd (clash v s (sound.1 h.0))),
          )
    ]
  where
    clash : (v : Violation) {o : Option Violation} → o ≡ some v → o ≡ none → ⊥
    clash v e f = cc

-- For a namespace whose workloads can be listed and whose ownership graph can be built without an
-- error, checkNamespace returns violations without an error, and returns none exactly when each workload
-- has a queue name if and only if Kueue manages its namespace, and agrees on it with its ownership tree.
pub check_namespace_iff :
    (api : NotFoundErrors) (read : Reader) (namespace : String) (namespaces : List String)
    → (crs : List ObjectMetadata) (graph : OwnershipGraph)
    → list_workloads_in_namespace api read namespace ≡ ok crs
    → build_graph api read namespace ≡ ok graph
    → (vs : List Violation) × (check_namespace api read namespace namespaces ≡ some (ok vs))
      × (vs ≡ [] ↔ All (IsSound namespaces graph) crs)
unfolding check_namespace
check_namespace_iff api read namespace namespaces [] graph e f =
    ([], rw (e, check_namespace) refl, (λ h. tt, λ h. refl))
check_namespace_iff api read namespace namespaces (cr ∷ crs) graph e f =
    let (vs, g, sound) = check_workloads_iff namespaces graph (cr ∷ crs) [] in
    (vs, rw (e, f, g, check_namespace) refl, sound)
