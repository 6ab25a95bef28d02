-- ===== src/Kueue/Diagnosis.antt =====
-- Validate of check.go on a cluster that can be read.
use odh_cli.Base.{
  ◌≡◌, ◌↔◌, refl, sym, ap, ◌∙◌, subst, String, false, Option, none, some, List, [], ◌∷◌, ◌++◌, All,
  In-All, All-of_In,
}
use mathlib.Core.List.{append_assoc, append-nil}
use odh_cli.Base.Sort.{sort_by, In-sort_by, All-sort_by}
use odh_cli.Kube.{ObjectMetadata}
use odh_cli.Lint.Result.{
  DiagnosticResult, new_result, is_failing, set_condition, condition_validate,
}
use odh_cli.Lint.Condition.{new_condition, derive_impact}
use odh_cli.Lint.Check.{ok, ok-injective}
use odh_cli.Kueue.{Reader, NotFoundErrors}
use odh_cli.Kueue.Graph.{OwnershipGraph, build_graph}
use odh_cli.Kueue.Invariants.{Violation}
use odh_cli.Kueue.Namespaces.{set_union, kueue_enabled_namespaces, workload_labeled_namespaces}
use odh_cli.Kueue.Check.{list_workloads_in_namespace, check_namespace}
use odh_cli.Kueue.Verdicts.{IsSound, check_namespace_iff}
use odh_cli.Kueue.Validate.{
  check_namespaces, emit, emit_result, populate_impacted_objects, base_result, validate_relevant,
  validate_kueue,
}

module _ (api : NotFoundErrors) (read : Reader) where
  -- A namespace whose workloads can be listed and whose ownership graph can be built.
  abbrev pub IsReadable : String → Type 0
  IsReadable ns =
      (crs : List ObjectMetadata) × (graph : OwnershipGraph) × (list_workloads_in_namespace api read
          ns
        ≡ ok crs)
      × (build_graph api read ns ≡ ok graph)

  -- One whose workloads all have a queue name exactly if Kueue manages the namespace, and agree on it
  -- with their ownership trees.
  abbrev pub IsSoundNamespace : List String → String → Type 0
  IsSoundNamespace kueue ns =
      (crs : List ObjectMetadata) × (graph : OwnershipGraph) × (list_workloads_in_namespace api read
          ns
        ≡ ok crs)
      × (build_graph api read ns ≡ ok graph)
      × All (IsSound kueue graph) crs

  append_nil_iff : (vs ws : List Violation) → vs ++ ws ≡ [] ↔ (vs ≡ []) × (ws ≡ [])
  append_nil_iff [] ws = (λ h. (refl, h), λ h. h.1)
  append_nil_iff (v ∷ vs) ws = (λ h. cc, λ h. cc)

  check_namespace-IsSoundNamespace :
      (kueue : List String) (ns : String)
      → IsReadable ns
      → (vs : List Violation) × (check_namespace api read ns kueue ≡ some (ok vs))
        × (vs ≡ [] ↔ IsSoundNamespace kueue ns)
  check_namespace-IsSoundNamespace kueue ns (crs, graph, e, f) =
      let (vs, g, both) = check_namespace_iff api read ns kueue crs graph e f in
      (
        vs,
        g,
        (
          λ h. (crs, graph, e, f, both.0 h),
          λ (crs', graph', e', f', h). both.1 (
              subst (λ c. All (IsSound kueue graph) c) (ok-injective (sym e' ∙ e))
                (subst (λ x. All (IsSound kueue x) crs') (ok-injective (sym f' ∙ f)) h)),
        ),
      )

  check_namespaces_iff :
      (kueue nss : List String) (acc : List Violation)
      → All IsReadable nss
      → (vs : List Violation) × (check_namespaces api read kueue nss acc ≡ some (ok (acc ++ vs)))
        × (vs ≡ [] ↔ All (IsSoundNamespace kueue) nss)
  unfolding check_namespaces
  check_namespaces_iff kueue [] acc h =
      ([], ap (λ l. some (ok l)) (sym (append-nil acc)), (λ q. tt, λ q. refl))
  check_namespaces_iff kueue (ns ∷ nss) acc (r, h) =
      let (vs, e, one) = check_namespace-IsSoundNamespace kueue ns r in
      let (ws, f, rest) = check_namespaces_iff kueue nss (acc ++ vs) h in
      let none_iff = append_nil_iff vs ws in
      (
        vs ++ ws,
        rw (e, check_namespaces) (f ∙ ap (λ l. some (ok l)) (append_assoc acc vs ws)),
        (
          λ q. (one.0 (none_iff.0 q).0, rest.0 (none_iff.0 q).1),
          λ (s, t). none_iff.1 (one.1 s, rest.1 t),
        ),
      )

IsVerdict : DiagnosticResult → List Violation → Type 0
IsVerdict r vs = is_failing r.conditions ≡ false ↔ vs ≡ []

emit_result_lem :
    (version : Option String) (vs : List Violation)
    → (r : DiagnosticResult) × (emit_result (base_result version) vs ≡ some r) × IsVerdict r vs
unfolding emit_result new_condition condition_validate derive_impact set_condition is_failing
    populate_impacted_objects IsVerdict new_result
emit_result_lem none [] = (_, refl, (λ h. refl, λ h. refl))
emit_result_lem (some v) [] = (_, refl, (λ h. refl, λ h. refl))
emit_result_lem none (v ∷ vs) = (_, refl, (λ h. cc, λ h. cc))
emit_result_lem (some s) (v ∷ vs) = (_, refl, (λ h. cc, λ h. cc))

nothing_relevant_lem :
    (api : NotFoundErrors) (read : Reader) (version : Option String) (kueue : List String)
    → (r : DiagnosticResult) × (validate_relevant api read (base_result version) kueue []
        ≡ some (ok r))
      × (is_failing r.conditions ≡ false)
unfolding validate_relevant new_condition condition_validate derive_impact set_condition is_failing
    new_result
nothing_relevant_lem api read none kueue = (_, refl, refl)
nothing_relevant_lem api read (some v) kueue = (_, refl, refl)

All-sorted_iff : (P : String → Type 0) (xs : List String) → All P (sort_by (λ s. s) xs) ↔ All P xs
All-sorted_iff P xs = (
  λ h. All-of_In P xs (λ a i. In-All P a (sort_by (λ s. s) xs) ((In-sort_by (λ s. s) a xs).1 i) h),
  λ h. All-sort_by (λ s. s) P xs h,
)

relevant_lem :
    (api : NotFoundErrors) (read : Reader) (version : Option String) (kueue relevant : List String)
    → All (IsReadable api read) relevant
    → (r : DiagnosticResult) × (validate_relevant api read (base_result version) kueue relevant
        ≡ some (ok r))
      × (is_failing r.conditions ≡ false ↔ All (IsSoundNamespace api read kueue) relevant)
unfolding validate_relevant IsVerdict
relevant_lem api read version kueue [] h =
    let (r, e, f) = nothing_relevant_lem api read version kueue in (r, e, (λ q. tt, λ q. f))
relevant_lem api read version kueue (ns ∷ nss) h =
    let (vs, e, sound) =
      check_namespaces_iff api read kueue (sort_by (λ s. s) (ns ∷ nss)) []
        ((All-sorted_iff (IsReadable api read) (ns ∷ nss)).1 h) in
    let (r, f, verdict) = emit_result_lem version vs in
    let sorted = All-sorted_iff (IsSoundNamespace api read kueue) (ns ∷ nss) in
    (
      r,
      ap (emit (base_result version)) e ∙ ap (λ o. elim o [ none ↦ none | some x ↦ some (ok x) ]) f,
      (λ q. sorted.0 (sound.0 (verdict.0 q)), λ q. verdict.1 (sound.1 (sorted.1 q))),
    )

-- Where the namespaces can be determined and every relevant one can be read, Validate returns a result
-- without an error and without a panic, and the result is failing unless every relevant namespace, one
-- that Kueue manages or that holds a labelled workload, is sound.
pub validate_kueue_iff :
    (api : NotFoundErrors) (read : Reader) (version : Option String) (kueue workloads : List String)
    → kueue_enabled_namespaces read ≡ ok kueue
    → workload_labeled_namespaces api read ≡ ok workloads
    → All (IsReadable api read) (set_union kueue workloads)
    → (r : DiagnosticResult) × (validate_kueue api read version ≡ some (ok r))
      × (is_failing r.conditions ≡ false
          ↔ All (IsSoundNamespace api read kueue) (set_union kueue workloads))
unfolding validate_kueue
validate_kueue_iff api read version kueue workloads e f h =
    let (r, g, both) = relevant_lem api read version kueue (set_union kueue workloads) h in
    (r, rw (e, f, validate_kueue) g, both)
