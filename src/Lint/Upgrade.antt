-- ===== src/Lint/Upgrade.antt =====
-- pkg/lint/command.go: Command.runUpgradeMode, from the selectors to the error that it returns, and
-- FlattenResults of command_options.go. The output is left out but for the error of writing it.
use odh_cli.Base.{
  ℕ, String, Bool, true, false, Option, none, some, List, [], ◌∷◌, if◌then◌else◌, ◌==◌, str_ltb,
  join,
}
use mathlib.Core.List.{◌++◌}
use Prim.Native.String as Str
use odh_cli.Errors.{Error, text, wrapped}
use odh_cli.Errors.Tables.{ApiErrors}
use odh_cli.Lint.Check.{Returns, ok, fail, Check, canonical_group_order}
use odh_cli.Lint.Registry.{matches_any_check, all_check_ids}
use odh_cli.Lint.Executor.{execute_selective}
use odh_cli.Lint.Severity.{CheckExecution, SeverityLevel}
use odh_cli.Lint.Verdict.{exit_error_of_results}

-- The kind and the name of a result: executeChecks returns no execution without one.
abbrev pub kind_of : CheckExecution → String
kind_of e = elim (e.result) [ none ↦ "" | some r ↦ r.kind ]

abbrev pub name_of : CheckExecution → String
name_of e = elim (e.result) [ none ↦ "" | some r ↦ r.name ]

-- The comparison by the kind and then by the name.
abbrev pub is_before : CheckExecution → CheckExecution → Bool
is_before a b =
    if kind_of a == kind_of b
    then str_ltb (name_of a) (name_of b)
    else str_ltb (kind_of a) (kind_of b)

unfoldable pub insert_result : CheckExecution → List CheckExecution → List CheckExecution
insert_result e [] = e ∷ []
insert_result e (x ∷ xs) = if is_before x e then x ∷ insert_result e xs else e ∷ x ∷ xs

-- The sort.Slice of FlattenResults, for one group; that of Go leaves the order of equal keys open, this
-- one takes one of the possible orders.
unfoldable pub sort_results : List CheckExecution → List CheckExecution
unfolding insert_result
sort_results [] = []
sort_results (e ∷ es) = insert_result e (sort_results es)

-- FlattenResults, on the results of the groups in their canonical order.
unfoldable pub flatten_results : List (List CheckExecution) → List CheckExecution
unfolding sort_results
flatten_results [] = []
flatten_results (es ∷ groups) = sort_results es ++ flatten_results groups

-- isDefaultSelector
unfoldable pub is_default_selector : List String → Bool
is_default_selector (s ∷ []) = s == "*"
is_default_selector _ = false

-- `noun` of the message.
abbrev pub selector_noun : List String → String
selector_noun (s ∷ t ∷ ss) = "selectors"
selector_noun _ = "selector"

abbrev pub no_match_error : List String → List String → Error
unfolding join
no_match_error selectors ids = text (
    Str.◌++◌ "no registered checks match " (
      Str.◌++◌ (selector_noun selectors) (
        Str.◌++◌ ": [" (
          Str.◌++◌ (join " " selectors)
            (Str.◌++◌ "]\n\nAvailable check IDs:\n  " (join "\n  " ids))))))

abbrev pub add_group :
    String
    → Returns (List CheckExecution)
    → Returns (List (List CheckExecution))
    → Returns (List (List CheckExecution))
add_group group (fail err) rest =
    fail (wrapped (Str.◌++◌ "executing " (Str.◌++◌ group " checks: ")) err "")
add_group group (ok es) (fail err) = fail err
add_group group (ok es) (ok rest) = ok (es ∷ rest)

-- The part after the loop over the groups; `written` is the error of the output.
abbrev pub finish_upgrade :
    ApiErrors
    → SeverityLevel
    → Bool
    → Option Error
    → Returns (List (List CheckExecution))
    → Option Error
finish_upgrade api level table written (fail err) = some err
finish_upgrade api level table (some err) (ok groups) = some err
finish_upgrade api level table none (ok groups) =
    exit_error_of_results api (flatten_results groups) level table

module _ {T : Type 0} where
  -- The loop over the groups; `poll group n` is the answer of CheckContextError before the check number
  -- `n` of the group.
  unfoldable pub execute_groups :
      ApiErrors
      → (String → ℕ → Option Error)
      → T
      → List (Check T)
      → List String
      → List String
      → Returns (List (List CheckExecution))
  unfolding execute_selective
  execute_groups api poll target registry selectors [] = ok []
  execute_groups api poll target registry selectors (group ∷ groups) =
      add_group group (execute_selective api (poll group) target registry selectors group)
        (execute_groups api poll target registry selectors groups)

  -- The guard on the selectors.
  unfoldable pub check_selectors : List (Check T) → List String → Option Error
  unfolding matches_any_check is_default_selector all_check_ids
  check_selectors registry selectors =
      if is_default_selector selectors then none else elim (matches_any_check registry selectors) [
        | fail err ↦ some (wrapped "validating check selectors: " err "")
        | ok true ↦ none
        | ok false ↦ some (no_match_error selectors (all_check_ids registry))
      ]

  -- runUpgradeMode
  unfoldable pub run_upgrade_mode :
      ApiErrors
      → (String → ℕ → Option Error)
      → T
      → List (Check T)
      → List String
      → SeverityLevel
      → Bool
      → Option Error
      → Option Error
  unfolding check_selectors execute_groups flatten_results exit_error_of_results
  run_upgrade_mode api poll target registry selectors level table written =
      elim (check_selectors registry selectors) [
        | some err ↦ some err
        | none ↦
            finish_upgrade api level table written
              (execute_groups api poll target registry selectors canonical_group_order)
      ]
