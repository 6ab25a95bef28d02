-- ===== src/Lint/Registry.antt =====
-- pkg/lint/check/registry.go and selector.go: the registry of checks by ID, and selection by patterns.
-- The Go map is a list of checks with distinct IDs, in the order in which an iteration meets them.
use Prim.Native.String.{◌++◌}
use odh_cli.Base.{
  String, Bool, true, false, not, ◌&&◌, ◌||◌, Option, none, some, List, [], ◌∷◌, map, if◌then◌else◌,
  ◌==◌, keep,
}
use mathlib.Core.List.{◌++◌ as ◌+++◌}
use odh_cli.Base.Sort.{sort_by}
use odh_cli.Errors.{Error, text, wrapped}
use odh_cli.Lint.Glob.{path_match}
use odh_cli.Lint.Check.{
  Returns, ok, fail, Check, group_component, group_dependency, group_platform, group_service,
  group_workload,
}

module _ {T : Type 0} where
  -- Get
  unfoldable pub get : List (Check T) → String → Option (Check T)
  get [] id = none
  get (c ∷ cs) id = if c.id == id then some c else get cs id

  -- Register
  unfoldable pub register : List (Check T) → Check T → Returns (List (Check T))
  unfolding get
  register checks check = elim (get checks check.id) [
    | some old ↦ fail (text ("check with ID " ++ (check.id ++ " already registered")))
    | none ↦ ok (checks +++ check ∷ [])
  ]

  -- The result of path.Match, wrapped as matchesPattern does.
  abbrev pub glob : Check T → String → Option Bool → Returns Bool
  glob check pattern (some matched) = ok matched
  glob check pattern none = fail (
      wrapped ("invalid pattern " ++ (odh_cli.Base.quote pattern ++ ": "))
        (text "syntax error in pattern") "")

  -- matchesPattern
  unfoldable pub matches_pattern : Check T → String → Returns Bool
  unfolding path_match
  matches_pattern check pattern =
      if pattern == "*"
      then ok true
      else if pattern == "components"
      then ok (check.group == group_component)
      else if pattern == "dependencies"
      then ok (check.group == group_dependency)
      else if pattern == "platform"
      then ok (check.group == group_platform)
      else if pattern == "services"
      then ok (check.group == group_service)
      else if pattern == "workloads"
      then ok (check.group == group_workload)
      else if pattern == check.id
      then ok true
      else glob check pattern (path_match pattern check.id)

  abbrev pub in_group : String → Check T → Bool
  in_group group check = not (not (group == "") && not (check.group == group))

  -- ListByGroup
  unfoldable pub list_by_group : List (Check T) → String → List (Check T)
  list_by_group checks group = keep (λ c. c.group == group) checks

  -- ListBySelector
  unfoldable pub list_by_selector : List (Check T) → String → List (Check T)
  list_by_selector checks group = keep (in_group group) checks

  -- ListAll
  unfoldable pub list_all : List (Check T) → List (Check T)
  list_all checks = checks

  -- The error of ListByPatterns and MatchesAnyCheck around that of matchesPattern.
  abbrev pub pattern_error : Check T → Error → Error
  pattern_error check err = wrapped ("pattern matching for check " ++ (check.id ++ ": ")) err ""

  -- The loop over the patterns: it ends at the first match or error.
  unfoldable pub matches_any : Check T → List String → Returns Bool
  matches_any check [] = ok false
  matches_any check (p ∷ ps) = elim (matches_pattern check p) [
    | fail e ↦ fail (pattern_error check e)
    | ok true ↦ ok true
    | ok false ↦ matches_any check ps
  ]

  abbrev pub select_one :
      Check T → Returns Bool → Returns (List (Check T)) → Returns (List (Check T))
  select_one check (fail e) rest = fail e
  select_one check (ok false) rest = rest
  select_one check (ok true) (ok cs) = ok (check ∷ cs)
  select_one check (ok true) (fail e) = fail e

  -- ListByPatterns
  unfoldable pub list_by_patterns : List (Check T) → List String → String → Returns (List (Check T))
  unfolding matches_any
  list_by_patterns [] patterns group = ok []
  list_by_patterns (c ∷ cs) patterns group =
      if in_group group c
      then select_one c (matches_any c patterns) (list_by_patterns cs patterns group)
      else list_by_patterns cs patterns group

  -- ListByPattern
  unfoldable pub list_by_pattern : List (Check T) → String → String → Returns (List (Check T))
  unfolding list_by_patterns
  list_by_pattern checks pattern group = list_by_patterns checks (pattern ∷ []) group

  -- MatchesAnyCheck
  unfoldable pub matches_any_check : List (Check T) → List String → Returns Bool
  unfolding matches_any
  matches_any_check [] patterns = ok false
  matches_any_check (c ∷ cs) patterns = elim (matches_any c patterns) [
    | fail e ↦ fail e
    | ok true ↦ ok true
    | ok false ↦ matches_any_check cs patterns
  ]

  -- AllCheckIDs
  unfoldable pub all_check_ids : List (Check T) → List String
  unfolding sort_by
  all_check_ids checks = sort_by (λ s. s) (map (λ (c : Check T). c.id) checks)
