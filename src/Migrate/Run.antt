-- ===== src/Migrate/Run.antt =====
-- pkg/migrate/command_run.go: the run of the migrations and the error that the command returns.
use odh_cli.Base.{
  ℕ, suc, String, Bool, true, false, not, ◌||◌, Option, none, some, List, [], ◌∷◌, if◌then◌else◌,
  ◌==◌, ltb, quote,
}
use Prim.Native.String.{◌++◌}
use mathlib.Core.List.{◌++◌ as ◌+++◌}
use odh_cli.Output.{pos, Status, new_status}
use odh_cli.Errors.{Error, text, wrapped, exit_code_error}
use odh_cli.Errors.ExitCode.{exit_validation}
use odh_cli.Migrate.Result.{ActionResult, has_failed_steps, has_skipped_steps}
use odh_cli.Migrate.Registry.{Answer, Action, get}

-- MigrationResultItem
pub record MigrationResultItem : Type 0 where
  pub id : String
  pub completed : Bool
  pub skipped : Bool
  pub has_skipped : Bool
  pub has_failed : Bool
  pub phase_mismatch : Bool

-- How one round of the loop ends: with an item, with the command, or with the panic on a nil result.
pub data RoundOutcome : Type 0 where
  round_done : MigrationResultItem → RoundOutcome
  round_stopped : Error → RoundOutcome
  round_panicked : RoundOutcome

abbrev pub validation_failure : Error → Error
validation_failure err = exit_code_error exit_validation err

abbrev pub item_of : String → ActionResult → Bool → MigrationResultItem
item_of id r mismatch = record {
  id = id;
  completed = r.completed;
  skipped = false;
  has_skipped = has_skipped_steps r;
  has_failed = has_failed_steps r;
  phase_mismatch = mismatch;
}

-- The rest of a round after Execute.
abbrev pub round_of : String → Bool → Answer → RoundOutcome
round_of id mismatch (r, some err) =
    round_stopped (validation_failure (wrapped "migration failed: " err ""))
round_of id mismatch (none, none) = round_panicked
round_of id mismatch (some r, none) =
    if r.completed
    then round_done (item_of id r mismatch)
    else round_stopped (validation_failure (text ("migration halted: " ++ id)))

-- How the loop ends: with hasSkips, hasFailures and the items, with an error, or with a panic.
pub data LoopOutcome : Type 0 where
  loop_done : Bool → Bool → List MigrationResultItem → LoopOutcome
  loop_stopped : Error → LoopOutcome
  loop_panicked : LoopOutcome

module _ {T W : Type 0} where
  -- A round of the loop.
  unfoldable pub run_round : List (Action T W) → T → String → W → String → RoundOutcome × W
  unfolding get
  run_round registry target phase w id = elim (get registry id) [
    | none ↦
        (round_stopped (validation_failure (text ("migration " ++ (quote id ++ " not found")))), w)
    | some a ↦ elim (a.run) [
      | none ↦ (
        round_stopped
            (validation_failure (text ("migration " ++ (quote id ++ " has no run task")))),
        w,
      )
      | some execute ↦
          let (answer, w') = execute target w in (round_of id (not (a.phase == phase)) answer, w')
    ]
  ]

  -- The loop over the migration IDs.
  unfoldable pub run_migrations :
      List (Action T W)
      → T
      → String
      → W
      → List String
      → Bool
      → Bool
      → List MigrationResultItem
      → LoopOutcome × W
  unfolding run_round
  run_migrations registry target phase w [] skips failures items =
      (loop_done skips failures items, w)
  run_migrations registry target phase w (id ∷ ids) skips failures items =
      let (outcome, w') = run_round registry target phase w id in
      elim outcome [
        | round_stopped err ↦ (loop_stopped err, w')
        | round_panicked ↦ (loop_panicked, w')
        | round_done item ↦
            run_migrations registry target phase w' ids (if item.has_skipped then true else skips)
              (if item.has_failed then true else failures) (items +++ item ∷ [])
      ]

-- countWarnings
unfoldable pub count_warnings : List MigrationResultItem → ℕ
count_warnings [] = 0
count_warnings (m ∷ ms) =
    if m.skipped || (m.has_skipped || m.phase_mismatch)
    then suc (count_warnings ms)
    else count_warnings ms

-- countErrors
unfoldable pub count_errors : List MigrationResultItem → ℕ
count_errors [] = 0
count_errors (m ∷ ms) = if m.has_failed then suc (count_errors ms) else count_errors ms

abbrev pub failures_error : Error
failures_error = text "one or more migrations completed with failures"

-- The status that writeRunResult sets.
unfoldable pub run_status : List MigrationResultItem → Status
unfolding count_warnings count_errors new_status
run_status items = new_status (pos (count_warnings items)) (pos (count_errors items))

-- writeRunResult, where `written` is the error of writing the structured output.
unfoldable pub write_run_result : Option Error → List MigrationResultItem → Option Error
unfolding count_errors
write_run_result written items =
    if ltb 0 (count_errors items)
    then elim written [ some err ↦ some err | none ↦ some failures_error ]
    else written

-- reportRunSummary, without its messages.
unfoldable pub report_run_summary : Bool → Bool → Option Error
report_run_summary failures skips = if failures then some failures_error else none

-- The end of runMigrationMode: the error that it returns, or `none` for a panic.
abbrev pub finish_run : Bool → Option Error → LoopOutcome → Option (Option Error)
finish_run structured written loop_panicked = none
finish_run structured written (loop_stopped err) = some (some err)
finish_run structured written (loop_done skips failures items) =
    some (if structured then write_run_result written items else report_run_summary failures skips)

-- runMigrationMode, with the state of the cluster after it.
unfoldable pub run_migration_mode :
    {T W : Type 0}
    → List (Action T W)
    → T
    → Bool
    → Option Error
    → W
    → List String
    → String
    → Option (Option Error) × W
unfolding run_migrations
run_migration_mode registry target structured written w ids phase =
    let (outcome, w') = run_migrations registry target phase w ids false false [] in
    (finish_run structured written outcome, w')
