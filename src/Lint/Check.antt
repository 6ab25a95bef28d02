-- ===== src/Lint/Check.antt =====
-- pkg/lint/check/check.go: the interface of a check, and the groups.
use odh_cli.Base.{String, Bool, Option, List, [], ◌∷◌}
pub use odh_cli.Errors.Returns.{Returns, ok, fail, ok-injective, Returns-cases}
use odh_cli.Errors.{Error}
use odh_cli.Lint.Result.{DiagnosticResult}

-- Check, over the type of targets. `validate` returns a result that may be nil and an error that may
-- be nil.
pub record Check (Target : Type 0) : Type 0 where
  pub id : String
  pub name : String
  pub description : String
  pub group : String
  pub check_kind : String
  pub check_type : String
  pub can_apply : Target → Returns Bool
  pub validate : Target → Option DiagnosticResult × Option Error

abbrev pub group_component : String
group_component = "component"

abbrev pub group_dependency : String
group_dependency = "dependency"

abbrev pub group_platform : String
group_platform = "platform"

abbrev pub group_service : String
group_service = "service"

abbrev pub group_workload : String
group_workload = "workload"

-- CanonicalGroupOrder
abbrev pub canonical_group_order : List String
canonical_group_order =
    group_dependency ∷ group_service ∷ group_platform ∷ group_component ∷ group_workload ∷ []
