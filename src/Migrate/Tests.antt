-- ===== src/Migrate/Tests.antt =====
-- The theorems on migrations at two actions, over a cluster whose state is a number.
use odh_cli.Base.{
  ◌||◌, str_ltb, ℕ, suc, ◌≡◌, ◌↔◌, refl, String, true, false, none, some, List, [], ◌∷◌, ltb, Some,
  In, arith, eq_iff,
}
use odh_cli.Base.Sort.{sort_by, HasDistinctKeys, IsAscending}
use odh_cli.Migrate.Result.{
  running, has_status, completed, failed, skipped, step, no_steps, steps, Steps, StepStatus,
  ActionResult, has_failed_steps, is_failed,
}
use odh_cli.Migrate.Registry.{Action, list_all}
use odh_cli.Migrate.Phase.{
  detect_phase, filter_by_phase, resolve_phase_and_migrations, phase_pre_upgrade,
}
use odh_cli.Migrate.Run.{run_migration_mode}
use odh_cli.Migrate.Steps.{Occurs, has_failed_steps_iff}
use odh_cli.Migrate.Selection.{IsApplicable, resolve_phase_and_migrations_lem}
use odh_cli.Migrate.Recorder.{recorder, recorders, Recorders, no_recorders, recordf, build_steps}
use odh_cli.Migrate.Recorded.{recordf-has_status}
use odh_cli.Migrate.Outcome.{CleanRun, run_migration_mode_iff}

abbrev tree : StepStatus → Steps
tree status =
    steps (step "backup" "" completed "" (steps (step "copy" "" status "" no_steps) no_steps))
      no_steps

abbrev result_of : StepStatus → ActionResult
result_of status = record {
  group = "migration";
  kind = "ray.backup";
  name = "Backup";
  description = "";
  steps = tree status;
  completed = true;
  error = "";
}

abbrev action : String → String → StepStatus → Action ℕ ℕ
action id phase status = record {
  id = id;
  name = id;
  description = "";
  group = "migration";
  phase = phase;
  can_apply = λ target w. ltb w target;
  run = some (λ target w. ((some (result_of status), none), suc w));
}

abbrev actions : List (Action ℕ ℕ)
actions =
    action "ray.backup" phase_pre_upgrade skipped
    ∷ action "kserve.raw" phase_pre_upgrade completed
    ∷ []

has_failed_steps_iff_example :
    has_failed_steps (result_of failed) ≡ true ↔ Occurs is_failed (tree failed)
has_failed_steps_iff_example = has_failed_steps_iff (result_of failed)

run_migration_mode_iff_example :
    (run_migration_mode actions 3 false none 0
        ("ray.backup" ∷ "kserve.raw" ∷ [])
        phase_pre_upgrade).0
      ≡ some none
    ↔ CleanRun actions 3 phase_pre_upgrade 0 ("ray.backup" ∷ "kserve.raw" ∷ [])
run_migration_mode_iff_example =
    run_migration_mode_iff actions 3 false 0 ("ray.backup" ∷ "kserve.raw" ∷ []) phase_pre_upgrade

actions-HasDistinctKeys : HasDistinctKeys (λ (a : Action ℕ ℕ). a.id) actions
actions-HasDistinctKeys = ((λ e. ground (arith, eq_iff "ray.backup" "kserve.raw"), tt), (tt, tt))

resolve_phase_and_migrations_lem_example :
    (In {A = String} "ray.backup" ("kserve.raw" ∷ "ray.backup" ∷ [])
      ↔ Some (IsApplicable 3 0 phase_pre_upgrade "ray.backup") actions)
    × IsAscending (λ s. s) ("kserve.raw" ∷ "ray.backup" ∷ [])
unfolding resolve_phase_and_migrations filter_by_phase list_all detect_phase sort_by str_ltb
resolve_phase_and_migrations_lem_example =
    resolve_phase_and_migrations_lem ltb actions 3 0 "" (some 2) (some 3) phase_pre_upgrade
      ("kserve.raw" ∷ "ray.backup" ∷ []) "ray.backup" actions-HasDistinctKeys refl

-- A root with one child, which has no children yet.
abbrev one_child : Recorders
one_child = recorders (recorder "backup" "Back up" running "" no_recorders) no_recorders

recordf-has_status_example :
    has_status is_failed (build_steps (recordf (0 ∷ []) "copy" "cannot copy" failed one_child))
    ≡ is_failed failed || has_status is_failed (build_steps one_child)
recordf-has_status_example =
    recordf-has_status is_failed (0 ∷ []) one_child "copy" "cannot copy" failed tt
