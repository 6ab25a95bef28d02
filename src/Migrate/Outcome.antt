-- ===== src/Migrate/Outcome.antt =====
-- RunCommand of pkg/migrate/command_run.go: the error that it returns against its migrations.
use odh_cli.Base.{
  ◌≡◌, ◌↔◌, ◌⊎◌, inl, inr, refl, sym, ap, ◌∙◌, String, Bool, true, false, not, Option, none, some,
  List, [], ◌∷◌, ◌≢◌, if◌then◌else◌, ◌==◌, quote, ltb, Option-cases,
}
use Prim.Native.String.{◌++◌}
use mathlib.Core.List.{◌++◌ as ◌+++◌}
use odh_cli.Errors.{Error, text}
use odh_cli.Migrate.Result.{ActionResult, has_failed_steps}
use odh_cli.Migrate.Registry.{Answer, Action, get}
use odh_cli.Migrate.Run.{
  MigrationResultItem, RoundOutcome, round_done, round_stopped, round_panicked, LoopOutcome,
  loop_done, loop_stopped, loop_panicked, item_of, validation_failure, round_of, run_round,
  run_migrations, count_errors, write_run_result, failures_error, report_run_summary, finish_run,
  run_migration_mode,
}
use odh_cli.Migrate.Rounds.{
  count_errors-append, completed_round, stopped_no_item, answer-cases, no_failures, both_false,
}

module _ {T W : Type 0} (registry : List (Action T W)) (target : T) (phase : String) where
  -- The migration `id` is registered and has a run task, which leads without an error to a completed result.
  abbrev pub Ran : W → String → ActionResult → W → Type 0
  Ran w id r w' =
      (a : Action T W) × (execute : T → W → Answer × W) × (get registry id ≡ some a)
      × (a.run ≡ some execute)
      × (execute target w ≡ ((some r, none), w'))
      × (r.completed ≡ true)

  -- All migrations run, each in the state that the one before left, and none has a failed step.
  abbrev pub CleanRun : W → List String → Type 0
  CleanRun w [] = Unit
  CleanRun w (id ∷ ids) =
      (r : ActionResult) × (w' : W) × Ran w id r w' × (has_failed_steps r ≡ false) × CleanRun w' ids

  -- A round that ends with an item.
  abbrev IsDone : W → String → ActionResult → W → Type 0
  IsDone w id r w' =
      (item : MigrationResultItem) × (run_round registry target phase w id ≡ (round_done item, w'))
      × (item.has_failed ≡ has_failed_steps r)

  Ran-IsDone : (w : W) (id : String) (r : ActionResult) (w' : W) → Ran w id r w' → IsDone w id r w'
  unfolding run_round
  Ran-IsDone w id r w' (a, execute, e, f, g, c) = (
    item_of id r (not (a.phase == phase)),
    rw (e, run_round, f, g) (ap (λ o. (o, w')) (completed_round id (not (a.phase == phase)) r c)),
    refl,
  )

  -- A round that does not end the command comes from a run of its migration.
  round-cases :
      (w : W) (id : String)
      → ((r : ActionResult) × (w' : W) × Ran w id r w')
        ⊎ ((o : RoundOutcome) × (w' : W) × (run_round registry target phase w id ≡ (o, w'))
            × ((item : MigrationResultItem) → o ≢ round_done item))
  unfolding run_round
  round-cases w id = elim (Option-cases (get registry id)) [
    | inl e ↦ inr (
      round_stopped (validation_failure (text ("migration " ++ (quote id ++ " not found")))),
      w,
      rw (e, run_round) refl,
      stopped_no_item _,
    )
    | inr (a, e) ↦ elim (Option-cases a.run) [
      | inl f ↦ inr (
        round_stopped
            (validation_failure (text ("migration " ++ (quote id ++ " has no run task")))),
        w,
        rw (e, run_round, f) refl,
        stopped_no_item _,
      )
      | inr (execute, f) ↦ elim (answer-cases (execute target w)) [
        | inl (r, w', g, c) ↦ inl (r, w', (a, execute, e, f, g, c))
        | inr (answer, w', g, h) ↦ inr (
          round_of id (not (a.phase == phase)) answer,
          w',
          rw (e, run_round, f, g) refl,
          h id (not (a.phase == phase)),
        )
      ]
    ]
  ]

  finish_lem :
      (structured failures skips : Bool) (items : List MigrationResultItem)
      → failures ≡ ltb 0 (count_errors items)
      → finish_run structured none (loop_done skips failures items)
        ≡ some (if failures then some failures_error else none)
  unfolding write_run_result report_run_summary
  finish_lem true failures skips items h = rw h refl
  finish_lem false failures skips items h = refl

  -- The answer of the command after the loop has reached `w` with `ids` to go.
  abbrev answer :
      Bool → W → List String → Bool → Bool → List MigrationResultItem → Option (Option Error)
  answer structured w ids skips failures items =
      finish_run structured none (run_migrations registry target phase w ids skips failures items).0

  -- The answer by the outcome of a round.
  abbrev after_round :
      Bool
      → List String
      → Bool
      → Bool
      → List MigrationResultItem
      → RoundOutcome × W
      → Option (Option Error)
  after_round structured ids skips failures items (round_stopped err, w') = some (some err)
  after_round structured ids skips failures items (round_panicked, w') = none
  after_round structured ids skips failures items (round_done item, w') =
      answer structured w' ids (if item.has_skipped then true else skips)
        (if item.has_failed then true else failures) (items +++ item ∷ [])

  -- The rest of the loop by the outcome of a round, as its code has it.
  abbrev loop_after :
      List String → Bool → Bool → List MigrationResultItem → RoundOutcome × W → LoopOutcome × W
  loop_after ids skips failures items p = elim (p.0) [
    | round_stopped err ↦ (loop_stopped err, p.1)
    | round_panicked ↦ (loop_panicked, p.1)
    | round_done item ↦
        run_migrations registry target phase p.1 ids (if item.has_skipped then true else skips)
          (if item.has_failed then true else failures) (items +++ item ∷ [])
  ]

  finish-loop_after :
      (structured : Bool) (ids : List String) (skips failures : Bool)
      (items : List MigrationResultItem)
      → (p : RoundOutcome × W)
      → finish_run structured none (loop_after ids skips failures items p).0
        ≡ after_round structured ids skips failures items p
  finish-loop_after structured ids skips failures items (round_done item, w') = refl
  finish-loop_after structured ids skips failures items (round_stopped err, w') = refl
  finish-loop_after structured ids skips failures items (round_panicked, w') = refl

  answer-after_round :
      (structured : Bool) (w : W) (id : String) (ids : List String)
      → (skips failures : Bool) (items : List MigrationResultItem) → (p : RoundOutcome × W)
      → run_round registry target phase w id ≡ p
      → answer structured w (id ∷ ids) skips failures items
        ≡ after_round structured ids skips failures items p
  unfolding run_migrations
  answer-after_round structured w id ids skips failures items p e =
      ap (λ q. finish_run structured none (loop_after ids skips failures items q).0) e
      ∙ finish-loop_after structured ids skips failures items p

  round_ends :
      (structured : Bool) (w w' : W) (id : String) (ids : List String) (o : RoundOutcome)
      → (skips failures : Bool) (items : List MigrationResultItem)
      → run_round registry target phase w id ≡ (o, w')
      → ((item : MigrationResultItem) → o ≢ round_done item)
      → answer structured w (id ∷ ids) skips failures items ≡ some none
      → ⊥
  round_ends structured w w' id ids (round_done item) skips failures items e other h =
      other item refl
  round_ends structured w w' id ids (round_stopped err) skips failures items e other h =
      let g =
        sym (answer-after_round structured w id ids skips failures items (round_stopped err, w') e)
        ∙ h in
      cc
  round_ends structured w w' id ids round_panicked skips failures items e other h =
      let g =
        sym (answer-after_round structured w id ids skips failures items (round_panicked, w') e)
        ∙ h in
      cc

  next_count :
      (failures : Bool) (items : List MigrationResultItem) (item : MigrationResultItem)
      → failures ≡ ltb 0 (count_errors items)
      → (if item.has_failed then true else failures) ≡ ltb 0 (count_errors (items +++ item ∷ []))
  next_count failures items item h =
      ap (λ b. if item.has_failed then true else b) h ∙ sym (count_errors-append items item)

  answer_sound :
      (structured : Bool) (w : W) (ids : List String) (skips failures : Bool)
      (items : List MigrationResultItem)
      → failures ≡ ltb 0 (count_errors items)
      → answer structured w ids skips failures items ≡ some none
      → (failures ≡ false) × CleanRun w ids
  unfolding run_migrations
  answer_sound structured w [] skips failures items inv h =
      (no_failures failures (sym (finish_lem structured failures skips items inv) ∙ h), tt)
  answer_sound structured w (id ∷ ids) skips failures items inv h = elim (round-cases w id) [
    | inr (o, w', e, other) ↦
        absurd (round_ends structured w w' id ids o skips failures items e other h)
    | inl (r, w', ran) ↦
        let (item, e, same) = Ran-IsDone w id r w' ran in
        let (none_failed, clean) =
          answer_sound structured w' ids _ _ (items +++ item ∷ [])
            (next_count failures items item inv)
            (sym (
                answer-after_round structured w id ids skips failures items (round_done item, w') e)
              ∙ h) in
        let (item_ok, rest_ok) = both_false item.has_failed failures none_failed in
        (rest_ok, (r, w', ran, sym same ∙ item_ok, clean))
  ]

  answer_complete :
      (structured : Bool) (w : W) (ids : List String) (skips failures : Bool)
      (items : List MigrationResultItem)
      → failures ≡ ltb 0 (count_errors items)
      → failures ≡ false
      → CleanRun w ids
      → answer structured w ids skips failures items ≡ some none
  unfolding run_migrations
  answer_complete structured w [] skips failures items inv ok clean =
      finish_lem structured failures skips items inv
      ∙ ap (λ b. some (if b then some failures_error else none)) ok
  answer_complete structured w (id ∷ ids) skips failures items inv ok (r, w', ran, fine, clean) =
      let (item, e, same) = Ran-IsDone w id r w' ran in
      answer-after_round structured w id ids skips failures items (round_done item, w') e
      ∙ answer_complete structured w' ids _ _ (items +++ item ∷ [])
          (next_count failures items item inv)
          (ap (λ b. if b then true else failures) (same ∙ fine) ∙ ok) clean

-- The run command, in table mode and where the structured output can be written, returns no error
-- exactly when every migration is registered, has a run task, and is executed without an error to a
-- completed result with no failed step, one after the other.
pub run_migration_mode_iff :
    {T W : Type 0}
    → (registry : List (Action T W)) (target : T) (structured : Bool) (w : W) (ids : List String)
      (phase : String)
    → (run_migration_mode registry target structured none w ids phase).0 ≡ some none
      ↔ CleanRun registry target phase w ids
unfolding run_migration_mode count_errors
run_migration_mode_iff registry target structured w ids phase = (
  λ h. (answer_sound registry target phase structured w ids false false [] refl h).1,
  λ clean. answer_complete registry target phase structured w ids false false [] refl refl clean,
)
