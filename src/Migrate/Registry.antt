-- ===== src/Migrate/Registry.antt =====
-- pkg/migrate/action/action.go and registry.go: actions and their registry, a list in the order in which
-- the loops over the map meet its entries.
use odh_cli.Base.{
  String, Bool, not, ◌&&◌, Option, none, some, List, [], ◌∷◌, map, keep, if◌then◌else◌, ◌==◌, quote,
}
use odh_cli.Base.Sort.{sort_by}
use Prim.Native.String.{◌++◌}
use mathlib.Core.List.{◌++◌ as ◌+++◌}
use odh_cli.Errors.{Error, text, wrapped}
use odh_cli.Lint.Check.{Returns, ok, fail}
use odh_cli.Lint.Glob.{path_match}
use odh_cli.Migrate.Result.{ActionResult}

-- What Execute of a task returns: a result that may be nil, and an error that may be nil.
abbrev pub Answer : Type 0
Answer = Option ActionResult × Option Error

-- Action, over the type of targets and the state of the cluster, which CanApply reads and a task changes;
-- `run` is nil or the Execute of the task. Prepare is left out.
pub record Action (Target World : Type 0) : Type 0 where
  pub id : String
  pub name : String
  pub description : String
  pub group : String
  pub phase : String
  pub can_apply : Target → World → Bool
  pub run : Option (Target → World → Answer × World)

module _ {T W : Type 0} where
  -- Get
  unfoldable pub get : List (Action T W) → String → Option (Action T W)
  get [] id = none
  get (a ∷ actions) id = if a.id == id then some a else get actions id

  -- Register
  unfoldable pub register : List (Action T W) → Action T W → Returns (List (Action T W))
  unfolding get
  register actions action = elim (get actions action.id) [
    | some old ↦ fail (text ("action with ID " ++ (quote action.id ++ " already registered")))
    | none ↦ ok (actions +++ action ∷ [])
  ]

  -- ListAll
  unfoldable pub list_all : List (Action T W) → List (Action T W)
  unfolding sort_by
  list_all actions = sort_by (λ (a : Action T W). a.id) actions

  -- ActionIDs
  unfoldable pub action_ids : List (Action T W) → List String
  unfolding list_all
  action_ids actions = map (λ (a : Action T W). a.id) (list_all actions)

  -- ListByPhase
  unfoldable pub list_by_phase : List (Action T W) → String → List (Action T W)
  unfolding sort_by
  list_by_phase actions phase =
      sort_by (λ (a : Action T W). a.id) (keep (λ (a : Action T W). a.phase == phase) actions)

  -- The two guards of the loop of ListByFilter.
  abbrev pub passes : String → String → Action T W → Bool
  passes group phase a =
      not (not (group == "") && not (a.group == group))
      && not (not (phase == "") && not (a.phase == phase))

  abbrev pub add_match :
      Action T W → Bool → Returns (List (Action T W)) → Returns (List (Action T W))
  add_match a matched (fail e) = fail e
  add_match a matched (ok rest) = ok (if matched then a ∷ rest else rest)

  -- The loop of ListByFilter; filepath.Match is path.Match where the separator is a slash.
  unfoldable pub filter_from :
      List (Action T W) → String → String → String → Returns (List (Action T W))
  unfolding path_match
  filter_from [] pattern group phase = ok []
  filter_from (a ∷ actions) pattern group phase =
      let rest = filter_from actions pattern group phase in
      if passes group phase a
      then elim (path_match pattern a.id) [
        | none ↦ fail (
            wrapped ("invalid pattern " ++ (quote pattern ++ ": ")) (text "syntax error in pattern")
              "")
        | some matched ↦ add_match a matched rest
      ]
      else rest

  -- ListByFilter
  unfoldable pub list_by_filter :
      List (Action T W) → String → String → String → Returns (List (Action T W))
  unfolding filter_from sort_by
  list_by_filter actions pattern group phase = elim (filter_from actions pattern group phase) [
    | fail e ↦ fail e
    | ok matched ↦ ok (sort_by (λ (a : Action T W). a.id) matched)
  ]

  -- ListByPattern
  unfoldable pub list_by_pattern : List (Action T W) → String → String → Returns (List (Action T W))
  unfolding list_by_filter
  list_by_pattern actions pattern group = list_by_filter actions pattern group ""
