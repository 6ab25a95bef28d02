-- ===== src/Lint/Result.antt =====
-- pkg/lint/check/result/result.go: conditions, diagnostic results and their operations.
pub mod Impacts
pub mod Statuses
pub mod Conditions
pub mod Keys
use Prim.Native.String.{◌++◌}
use odh_cli.Base.{
  ℕ, suc, String, Bool, true, false, not, ◌&&◌, ◌||◌, Option, none, some, List, [], ◌∷◌, map,
  if◌then◌else◌, ◌==◌, nat_eq, split, contains_char, quote, lookup, insert,
}
use mathlib.Core.List.{◌++◌ as ◌+++◌}
use odh_cli.Kube.{ObjectMetadata, NamespacedName, ResourceType, crd_fqn, api_version_of}
use odh_cli.Errors.{Error, text}
use odh_cli.Output.{Envelope, pos, set_status}

-- Impact is a string; `unknown_impact` is any that is none of the constants.
pub data Impact : Type 0 where
  prohibited blocking advisory no_impact : Impact
  unknown_impact : String → Impact

-- metav1.ConditionStatus is a string; `status_other` is any that is none of the constants.
pub data ConditionStatus : Type 0 where
  status_true status_false status_unknown : ConditionStatus
  status_other : String → ConditionStatus

pub record Condition : Type 0 where
  pub condition_type : String
  pub status : ConditionStatus
  pub reason : String
  pub message : String
  pub impact : Impact
  pub remediation : String

pub record DiagnosticResult : Type 0 where
  pub group : String
  pub kind : String
  pub name : String
  pub annotations : List (String × String)
  pub description : String
  pub conditions : List Condition
  pub impacted_objects : List ObjectMetadata

abbrev pub impact_text : Impact → String
impact_text prohibited = "prohibited"
impact_text blocking = "blocking"
impact_text advisory = "advisory"
impact_text no_impact = ""
impact_text (unknown_impact s) = s

abbrev pub status_text : ConditionStatus → String
status_text status_true = "True"
status_text status_false = "False"
status_text status_unknown = "Unknown"
status_text (status_other s) = s

abbrev pub bad_true : Impact → Option Error
bad_true i = some (
    text (
      "condition with Status=True must have Impact=None, got Impact="
      ++ (quote (impact_text i) ++ " (if there's an impact, the condition is not met)")))

-- The cases False and Unknown of Condition.Validate.
abbrev pub check_impact : String → Impact → Option Error
check_impact status prohibited = none
check_impact status blocking = none
check_impact status advisory = none
check_impact status no_impact = some (
    text (
      "condition with Status="
      ++ (quote status
          ++ " must have Impact specified (Prohibited, Blocking, or Advisory), got Impact=\"\"")))
check_impact status (unknown_impact s) = some (
    text
      ("invalid Impact=" ++ (quote s ++ ", must be \"prohibited\", \"blocking\", or \"advisory\"")))

-- Condition.Validate; `none` is the nil error.
abbrev pub check_status : ConditionStatus → Impact → Option Error
check_status status_true no_impact = none
check_status status_true i = bad_true i
check_status status_false i = check_impact "False" i
check_status status_unknown i = check_impact "Unknown" i
check_status (status_other s) i = some (text ("invalid Status: " ++ quote s))

unfoldable pub condition_validate : Condition → Option Error
condition_validate c = check_status c.status c.impact

abbrev pub key_parts : List String → Bool
key_parts (domain ∷ name ∷ []) =
    if domain == "" || name == "" then false else contains_char 46 domain
key_parts _ = false

-- isValidAnnotationKey: 47 is '/', 46 is '.'.
unfoldable pub is_valid_annotation_key : String → Bool
unfolding split
is_valid_annotation_key key = key_parts (split 47 key)

abbrev pub is_standard : ConditionStatus → Bool
is_standard (status_other s) = false
is_standard _ = true

-- validateCondition
unfoldable pub validate_condition : Condition → Option Error
validate_condition c =
    if c.condition_type == ""
    then some (text "condition with empty type found")
    else if not (is_standard c.status)
    then some (
        text (
          "condition "
          ++ (quote c.condition_type ++ " has invalid status (must be True, False, or Unknown)")))
    else if c.reason == ""
    then some (text ("condition " ++ (quote c.condition_type ++ " has empty reason")))
    else none

abbrev pub validate_keys : List (String × String) → Option Error
validate_keys [] = none
validate_keys ((k, v) ∷ m) =
    if not (is_valid_annotation_key k)
    then some (
        text (
          "annotation key "
          ++ (quote k ++ " must be in domain/key format (e.g., openshiftai.io/version)")))
    else validate_keys m

abbrev pub validate_conditions : List Condition → Option Error
validate_conditions [] = none
validate_conditions (c ∷ cs) = elim (validate_condition c) [
  | some e ↦ some e
  | none ↦ validate_conditions cs
]

abbrev pub validate_parts : Option Error → List Condition → Option Error
validate_parts (some e) cs = some e
validate_parts none [] = some (text "status.conditions must contain at least one condition")
validate_parts none (c ∷ cs) = validate_conditions (c ∷ cs)

-- DiagnosticResult.Validate; the annotations are met in the order of the list.
unfoldable pub result_validate : DiagnosticResult → Option Error
unfolding is_valid_annotation_key validate_condition
result_validate r =
    if r.group == ""
    then some (text "group must not be empty")
    else if r.kind == ""
    then some (text "kind must not be empty")
    else if r.name == ""
    then some (text "name must not be empty")
    else validate_parts (validate_keys r.annotations) r.conditions

-- New
unfoldable pub new_result : String → String → String → String → DiagnosticResult
new_result group kind name description = record {
  group = group;
  kind = kind;
  name = name;
  annotations = [];
  description = description;
  conditions = [];
  impacted_objects = [];
}

abbrev pub fails : ConditionStatus → Bool
fails status_false = true
fails status_unknown = true
fails _ = false

-- IsFailing
unfoldable pub is_failing : List Condition → Bool
is_failing [] = false
is_failing (c ∷ cs) = if fails c.status then true else is_failing cs

-- GetMessage
unfoldable pub get_message : List Condition → String
get_message [] = ""
get_message (c ∷ cs) = c.message

-- The switch of GetImpact on one condition: the new maximum, or `none` to return Prohibited at once.
abbrev pub raise_impact : Impact → Impact → Option Impact
raise_impact most prohibited = none
raise_impact most blocking = some blocking
raise_impact no_impact advisory = some advisory
raise_impact most _ = some most

unfoldable pub get_impact_from : Impact → List Condition → Impact
get_impact_from most [] = most
get_impact_from most (c ∷ cs) = elim (raise_impact most c.impact) [
  | none ↦ prohibited
  | some next ↦ get_impact_from next cs
]

-- GetImpact
unfoldable pub get_impact : List Condition → Impact
unfolding get_impact_from
get_impact cs = get_impact_from no_impact cs

-- GetRemediation
unfoldable pub get_remediation : List Condition → String
get_remediation [] = ""
get_remediation (c ∷ cs) = if not (c.remediation == "") then c.remediation else get_remediation cs

-- The loop of GetStatusString.
unfoldable pub status_from : List Condition → String
status_from [] = "Pass"
status_from (c ∷ cs) = elim c.status [
  | status_false ↦ "Fail"
  | status_unknown ↦ "Error"
  | _ ↦ status_from cs
]

-- GetStatusString
unfoldable pub get_status_string : List Condition → String
unfolding status_from
get_status_string [] = "Unknown"
get_status_string (c ∷ cs) = status_from (c ∷ cs)

-- SetCondition, on the list of conditions.
unfoldable pub set_condition : List Condition → Condition → List Condition
set_condition [] new = new ∷ []
set_condition (c ∷ cs) new =
    if c.condition_type == new.condition_type then new ∷ cs else c ∷ set_condition cs new

abbrev pub crd_name_key : String
crd_name_key = "resource.opendatahub.io/crd-name"

abbrev pub impacted_object : ResourceType → NamespacedName → ObjectMetadata
impacted_object rt n = record {
  kind = rt.kind;
  api_version = api_version_of rt;
  uid = "";
  namespace = n.namespace;
  name = n.name;
  labels = [];
  annotations = [];
  owners = [];
}

-- SetImpactedObjects
unfoldable pub set_impacted_objects :
    DiagnosticResult → ResourceType → List NamespacedName → DiagnosticResult
set_impacted_objects r rt names = record r {
  annotations = insert r.annotations crd_name_key (crd_fqn rt);
  impacted_objects = map (impacted_object rt) names;
}

-- AddImpactedObjects: an annotation that is there stays.
unfoldable pub add_impacted_objects :
    DiagnosticResult → ResourceType → List NamespacedName → DiagnosticResult
add_impacted_objects r rt names = record r {
  annotations = elim (lookup r.annotations crd_name_key) [
    | some v ↦ r.annotations
    | none ↦ insert r.annotations crd_name_key (crd_fqn rt)
  ];
  impacted_objects = r.impacted_objects +++ map (impacted_object rt) names;
}

-- The counters of ComputeStatus, over results that are not nil.
abbrev pub count_impact : Impact → ℕ × ℕ → ℕ × ℕ
count_impact prohibited (warnings, errs) = (warnings, suc errs)
count_impact blocking (warnings, errs) = (warnings, suc errs)
count_impact advisory (warnings, errs) = (suc warnings, errs)
count_impact _ counts = counts

unfoldable pub count_impacts : ℕ × ℕ → List (Option DiagnosticResult) → ℕ × ℕ
count_impacts counts [] = counts
count_impacts counts (none ∷ rs) = count_impacts counts rs
count_impacts counts (some r ∷ rs) =
    count_impacts (count_impact (get_impact r.conditions) counts) rs

-- ComputeStatus: a nil result is passed over.
unfoldable pub compute_status : Envelope → List (Option DiagnosticResult) → Envelope
unfolding set_status count_impacts
compute_status l results =
    let (warnings, errs) = count_impacts (0, 0) results in set_status l (pos warnings) (pos errs)
