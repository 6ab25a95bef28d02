-- ===== src/Kueue/Validate.antt =====
-- check.go: DataIntegrityCheck.Validate, from the namespaces to the diagnostic result.
use odh_cli.Base.{
  ℕ, zero, suc, String, Option, none, some, List, [], ◌∷◌, if◌then◌else◌, ◌==◌, ltb, nat_eq, length,
  lookup, insert,
}
use Prim.Native.Nat.{◌/◌, ◌%◌}
use Prim.Native.String as Str
use mathlib.Core.List.{◌++◌, map}
use odh_cli.Base.Sort.{sort_by}
use odh_cli.Errors.{wrapped}
use odh_cli.Kube.{ObjectMetadata, ResourceType, api_version_of, crd_fqn}
use odh_cli.Lint.Result.{
  status_true, status_false, advisory, Condition, DiagnosticResult, new_result, set_condition,
}
use odh_cli.Lint.Condition.{with_reason, with_message, with_impact, with_remediation, new_condition}
use odh_cli.Lint.Check.{Returns, ok, fail}
use odh_cli.Kueue.{Reader, NotFoundErrors, monitored_workload_types}
use odh_cli.Kueue.Invariants.{Violation}
use odh_cli.Kueue.Namespaces.{set_union, kueue_enabled_namespaces, workload_labeled_namespaces}
use odh_cli.Kueue.Check.{check_namespace, unique_resources}

abbrev digit : ℕ → String
digit d =
    if nat_eq d 0
    then "0"
    else if nat_eq d 1
    then "1"
    else if nat_eq d 2
    then "2"
    else if nat_eq d 3
    then "3"
    else if nat_eq d 4
    then "4"
    else if nat_eq d 5
    then "5"
    else if nat_eq d 6
    then "6"
    else if nat_eq d 7
    then "7"
    else if nat_eq d 8
    then "8"
    else "9"

-- The decimal digits of a number, from fuel: a number has at most as many digits as its value plus one.
unfoldable pub digits : ℕ → ℕ → String
digits zero n = ""
digits (suc fuel) n =
    let front = digits fuel (n / 10) in
    if ltb n 10 then digit n else Str.◌++◌ front (digit (n % 10))

-- strconv.Itoa
unfoldable pub itoa : ℕ → String
unfolding digits
itoa n = digits (suc n) n

abbrev pub condition_type_kueue_consistency : String
condition_type_kueue_consistency = "KueueConsistency"

abbrev pub remediation_consistency : String
remediation_consistency =
    "Ensure kueue-managed namespaces and workload kueue.x-k8s.io/queue-name labels are consistent. Add the kueue-managed or kueue.openshift.io/managed label to namespaces with kueue workloads, or add the kueue.x-k8s.io/queue-name label to all workloads in kueue-enabled namespaces"

abbrev pub impacted_count_key : String
impacted_count_key = "workload.opendatahub.io/impacted-count"

-- buildCRDFQNLookup
unfoldable pub build_crdfqn_lookup :
    List ResourceType → List (String × String) → List (String × String)
unfolding api_version_of crd_fqn
build_crdfqn_lookup [] table = table
build_crdfqn_lookup (rt ∷ rts) table =
    build_crdfqn_lookup rts
      (insert table (Str.◌++◌ (api_version_of rt) (Str.◌++◌ "/" rt.kind)) (crd_fqn rt))

abbrev pub context_annotation : String → List (String × String)
context_annotation message =
    if message == "" then [] else ("result.opendatahub.io/context", message) ∷ []

abbrev pub impacted_annotations : List (String × String) → Violation → List (String × String)
impacted_annotations table v = elim (lookup table (Str.◌++◌ v.api_version (Str.◌++◌ "/" v.kind))) [
  | none ↦ context_annotation v.message
  | some fqn ↦ insert (context_annotation v.message) "result.opendatahub.io/crd-name" fqn
]

abbrev pub impacted_workload : List (String × String) → Violation → ObjectMetadata
impacted_workload table v = record {
  kind = v.kind;
  api_version = v.api_version;
  uid = "";
  namespace = v.resource.namespace;
  name = v.resource.name;
  labels = [];
  annotations = impacted_annotations table v;
  owners = [];
}

-- populateImpactedObjects
unfoldable pub populate_impacted_objects : DiagnosticResult → List Violation → DiagnosticResult
unfolding build_crdfqn_lookup
populate_impacted_objects dr impacted = record dr {
  impacted_objects =
      map (impacted_workload (build_crdfqn_lookup monitored_workload_types [])) impacted;
}

-- The loop over the namespaces, with the violations so far; the outer `none` is lack of fuel in a walk.
unfoldable pub check_namespaces :
    NotFoundErrors
    → Reader
    → List String
    → List String
    → List Violation
    → Option (Returns (List Violation))
unfolding check_namespace
check_namespaces api read kueue [] violations = some (ok violations)
check_namespaces api read kueue (ns ∷ nss) violations = elim (check_namespace api read ns kueue) [
  | none ↦ none
  | some (fail err) ↦
      some (fail (wrapped (Str.◌++◌ "checking namespace " (Str.◌++◌ ns ": ")) err ""))
  | some (ok vs) ↦ check_namespaces api read kueue nss (violations ++ vs)
]

-- `dr.SetCondition(check.NewCondition(…))`, and `none` for the panic of NewCondition.
abbrev pub with_condition : DiagnosticResult → Option Condition → Option DiagnosticResult
with_condition dr none = none
with_condition dr (some c) = some (record dr { conditions = set_condition dr.conditions c })

abbrev pub with_count : DiagnosticResult → String → DiagnosticResult
with_count dr count = record dr { annotations = insert dr.annotations impacted_count_key count }

abbrev pub met : String → Option Condition
unfolding new_condition
met message =
    new_condition condition_type_kueue_consistency status_true
      (with_reason "RequirementsMet" ∷ with_message message ∷ [])

abbrev pub violated : ℕ → Option Condition
unfolding new_condition itoa
violated n = new_condition condition_type_kueue_consistency status_false (
    with_reason "ConfigurationInvalid"
    ∷ with_message (
        Str.◌++◌ "Found "
          (Str.◌++◌ (itoa n) " kueue consistency violation(s) across monitored workloads"))
    ∷ with_impact advisory
    ∷ with_remediation remediation_consistency
    ∷ [])

-- Phase 4: the result for the violations.
unfoldable pub emit_result : DiagnosticResult → List Violation → Option DiagnosticResult
unfolding new_condition set_condition itoa unique_resources populate_impacted_objects
emit_result dr [] =
    with_condition (with_count dr (itoa (length (unique_resources []))))
      (met "All monitored workloads are consistent with kueue namespace configuration")
emit_result dr (v ∷ vs) =
    let impacted = unique_resources (v ∷ vs) in
    elim (with_condition (with_count dr (itoa (length impacted))) (violated (length (v ∷ vs)))) [
      | none ↦ none
      | some r ↦ some (populate_impacted_objects r impacted)
    ]

-- c.NewResult()
abbrev pub kueue_result : DiagnosticResult
unfolding new_result
kueue_result =
    new_result "workload" "kueue" "data-integrity"
      "Verifies that kueue namespace labels and workload queue-name labels are consistent across the cluster"

abbrev pub base_result : Option String → DiagnosticResult
base_result none = kueue_result
base_result (some version) = record kueue_result {
  annotations = insert kueue_result.annotations "check.opendatahub.io/target-version" version;
}

abbrev pub emit :
    DiagnosticResult → Option (Returns (List Violation)) → Option (Returns DiagnosticResult)
unfolding emit_result
emit dr none = none
emit dr (some (fail err)) = some (fail err)
emit dr (some (ok vs)) = elim (emit_result dr vs) [ none ↦ none | some r ↦ some (ok r) ]

-- The check of the relevant namespaces, in the order of sets.List.
unfoldable pub validate_relevant :
    NotFoundErrors
    → Reader
    → DiagnosticResult
    → List String
    → List String
    → Option (Returns DiagnosticResult)
unfolding check_namespaces sort_by new_condition set_condition emit_result
validate_relevant api read dr kueue [] =
    elim (with_condition dr (met "No kueue-managed namespaces or kueue-labeled workloads found")) [
      | none ↦ none
      | some r ↦ some (ok (with_count r "0"))
    ]
validate_relevant api read dr kueue (ns ∷ nss) =
    emit dr (check_namespaces api read kueue (sort_by (λ s. s) (ns ∷ nss)) [])

-- Validate, with the target version as text; the outer `none` is a panic or lack of fuel.
unfoldable pub validate_kueue :
    NotFoundErrors → Reader → Option String → Option (Returns DiagnosticResult)
unfolding kueue_enabled_namespaces workload_labeled_namespaces validate_relevant new_result
validate_kueue api read version = elim (kueue_enabled_namespaces read) [
  | fail err ↦ some (fail (wrapped "finding kueue-enabled namespaces: " err ""))
  | ok kueue ↦ elim (workload_labeled_namespaces api read) [
    | fail err ↦ some (fail (wrapped "finding workload-labeled namespaces: " err ""))
    | ok workloads ↦
        validate_relevant api read (base_result version) kueue (set_union kueue workloads)
  ]
]
