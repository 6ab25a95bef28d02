-- ===== src/Lint/Condition.antt =====
-- pkg/lint/check/condition.go: NewCondition and its options. The formatting of WithMessage is done where
-- the message is given, and the transition time is left out.
use odh_cli.Base.{true, ◌≡◌, refl, String, Option, none, some, List, [], ◌∷◌, arith}
use odh_cli.Lint.Result.{
  Impact, advisory, no_impact, ConditionStatus, status_true, status_false, status_unknown,
  status_other, Condition, check_status, condition_validate, is_standard,
}

pub data ConditionOption : Type 0 where
  with_reason with_message with_remediation : String → ConditionOption
  with_impact : Impact → ConditionOption

abbrev pub apply_option : ConditionOption → Condition → Condition
apply_option (with_reason s) c = record c { reason = s }
apply_option (with_message s) c = record c { message = s }
apply_option (with_remediation s) c = record c { remediation = s }
apply_option (with_impact i) c = record c { impact = i }

abbrev pub apply_options : List ConditionOption → Condition → Condition
apply_options [] c = c
apply_options (o ∷ os) c = apply_options os (apply_option o c)

-- deriveImpact
unfoldable pub derive_impact : ConditionStatus → Impact
derive_impact status_true = no_impact
derive_impact _ = advisory

-- NewCondition; `none` is its panic on a condition that is not valid.
unfoldable pub new_condition : String → ConditionStatus → List ConditionOption → Option Condition
unfolding derive_impact condition_validate
new_condition condition_type status opts =
    let c = apply_options opts (record {
      condition_type = condition_type;
      status = status;
      reason = "";
      message = "";
      impact = derive_impact status;
      remediation = "";
    }) in
    elim (condition_validate c) [ none ↦ some c | some e ↦ none ]

-- The impact after the options: that of the last WithImpact, or the one from before.
abbrev pub last_impact : List ConditionOption → Impact → Impact
last_impact [] i = i
last_impact (with_impact j ∷ os) i = last_impact os j
last_impact (_ ∷ os) i = last_impact os i

apply_options-fields :
    (os : List ConditionOption) (c : Condition)
    → ((apply_options os c).condition_type ≡ c.condition_type)
      × ((apply_options os c).status ≡ c.status)
      × ((apply_options os c).impact ≡ last_impact os c.impact)
apply_options-fields [] c = (refl, refl, refl)
apply_options-fields (with_reason s ∷ os) c = apply_options-fields os _
apply_options-fields (with_message s ∷ os) c = apply_options-fields os _
apply_options-fields (with_remediation s ∷ os) c = apply_options-fields os _
apply_options-fields (with_impact i ∷ os) c = apply_options-fields os _

abbrev initial : String → ConditionStatus → Condition
initial t status = record {
  condition_type = t;
  status = status;
  reason = "";
  message = "";
  impact = derive_impact status;
  remediation = "";
}

check_status-derive_impact :
    (status : ConditionStatus)
    → is_standard status ≡ true
    → check_status status (derive_impact status) ≡ none
unfolding derive_impact
check_status-derive_impact status_true h = refl
check_status-derive_impact status_false h = refl
check_status-derive_impact status_unknown h = refl
check_status-derive_impact (status_other s) h = cc

-- A condition that NewCondition returns has the type and the status it was given, the impact of the
-- last WithImpact, or else that derived from the status, and passes Condition.Validate.
pub new_condition-some :
    (t : String) (status : ConditionStatus) (opts : List ConditionOption) (c : Condition)
    → new_condition t status opts ≡ some c
    → (c.condition_type ≡ t)
      × (c.status ≡ status)
      × (c.impact ≡ last_impact opts (derive_impact status))
      × (condition_validate c ≡ none)
unfolding new_condition
new_condition-some t status opts c h = ground (arith, apply_options-fields opts (initial t status))

-- NewCondition does not panic on True, False or Unknown unless WithImpact overrides the derived
-- impact by another one.
pub new_condition_total :
    (t : String) (status : ConditionStatus) (opts : List ConditionOption)
    → is_standard status ≡ true
    → last_impact opts (derive_impact status) ≡ derive_impact status
    → (c : Condition) × (new_condition t status opts ≡ some c)
unfolding new_condition
new_condition_total t status opts h k = (
  apply_options opts (initial t status),
  ground (arith, apply_options-fields opts (initial t status), check_status-derive_impact status),
)
