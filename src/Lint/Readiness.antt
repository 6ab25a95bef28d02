-- ===== src/Lint/Readiness.antt =====
-- pkg/lint/command.go: the exit code of a whole upgrade check.
use odh_cli.Base.{
  ◌≡◌, refl, sym, subst, map, Some, Some-append_left, Some-append_right, In, ap, ◌∙◌, inl, inr, ◌⊎◌,
  ℕ, String, Bool, true, Option, none, some, List, [], ◌∷◌, Bool-cases,
}
use odh_cli.Errors.{Error}
use odh_cli.Errors.Tables.{ApiErrors}
use odh_cli.Errors.Classify.{exit_code_from_error}
use odh_cli.Lint.Check.{ok, Check, canonical_group_order}
use odh_cli.Lint.Severity.{CheckExecution, SeverityLevel}
use odh_cli.Lint.Verdict.{exit_error_of_results}
use odh_cli.Lint.Precedence.{IsTop}
use odh_cli.Lint.Covered.{IsDue, execute_checks-Some}
use odh_cli.Lint.Chosen.{IsMatched, list_by_patterns-selected}
use odh_cli.Lint.Worst.{worst_execution, at_least}
use odh_cli.Lint.Findings.{code_of_severity}
use odh_cli.Lint.Exit.{exit_error_of_results-code}
use odh_cli.Lint.Registry.{matches_any_check}
use odh_cli.Lint.Executor.{execute_selective, execute_checks}
use odh_cli.Lint.Options.{validate_check_selectors}
use odh_cli.Lint.Selectors.{valid_selectors_lem}
use odh_cli.Lint.Upgrade.{
  flatten_results, is_default_selector, add_group, execute_groups, check_selectors,
  run_upgrade_mode,
}
use odh_cli.Lint.Flattened.{concat, All-flatten_results, Some-flatten_results, worst-concat}

-- The groups of checks.
abbrev pub all_groups : List String
all_groups = "dependency" ∷ "service" ∷ "platform" ∷ "component" ∷ "workload" ∷ []

module _ {T : Type 0} (api : ApiErrors) (poll : String → ℕ → Option Error) (target : T) where
  execute_selective-total :
      (registry : List (Check T)) (selectors : List String) (group : String)
      → (v : validate_check_selectors selectors ≡ none)
      → execute_selective api (poll group) target registry selectors group
        ≡ ok (
            execute_checks api
              (poll group)
              target
              0
              (valid_selectors_lem registry selectors group v).0.0)
  unfolding execute_selective
  execute_selective-total registry selectors group v =
      rw ((valid_selectors_lem registry selectors group v).0.1, execute_selective) refl

  execute_groups-total :
      (registry : List (Check T)) (selectors groups : List String)
      (run : String → List CheckExecution)
      → ((g : String) → execute_selective api (poll g) target registry selectors g ≡ ok (run g))
      → execute_groups api poll target registry selectors groups ≡ ok (map run groups)
  unfolding execute_groups
  execute_groups-total registry selectors [] run h = refl
  execute_groups-total registry selectors (g ∷ gs) run h =
      ap (λ r. add_group g r (execute_groups api poll target registry selectors gs)) (h g)
      ∙ ap (add_group g (ok (run g))) (execute_groups-total registry selectors gs run h)

  check_selectors-passes :
      (registry : List (Check T)) (selectors : List String)
      → (is_default_selector selectors ≡ true) ⊎ (matches_any_check registry selectors ≡ ok true)
      → check_selectors registry selectors ≡ none
  unfolding check_selectors
  check_selectors-passes registry selectors (inl d) = rw (d, check_selectors) refl
  check_selectors-passes registry selectors (inr m) =
      elim (Bool-cases (is_default_selector selectors)) [
        | inl d ↦ rw (d, check_selectors) refl
        | inr d ↦ rw (d, m, check_selectors) refl
      ]

  run_upgrade_mode-exit :
      (registry : List (Check T)) (selectors : List String) (level : SeverityLevel) (table : Bool)
      (ess : List (List CheckExecution))
      → check_selectors registry selectors ≡ none
      → execute_groups api poll target registry selectors canonical_group_order ≡ ok ess
      → run_upgrade_mode api poll target registry selectors level table none
        ≡ exit_error_of_results api (flatten_results ess) level table
  unfolding run_upgrade_mode
  run_upgrade_mode-exit registry selectors level table ess c e = rw (c, e, run_upgrade_mode) refl

  IsTop-concat :
      (code : ℕ) (level : SeverityLevel) (groups : List (List CheckExecution))
      → IsTop api code
          (flatten_results groups)
          (code_of_severity (at_least level (worst_execution (flatten_results groups))))
      → IsTop api code
          (concat groups)
          (code_of_severity (at_least level (worst_execution (concat groups))))
  IsTop-concat code level groups h =
      let v = ap (λ n. code_of_severity (at_least level n)) (worst-concat groups) in
      let k = subst (IsTop api code (flatten_results groups)) v h in
      (
        All-flatten_results _ groups k.0,
        (k.1.0, elim k.1.1 [ inl q ↦ inl q | inr s ↦ inr (Some-flatten_results _ groups s) ]),
      )

  -- The executions of a group that are among those of all groups.
  member :
      (P : CheckExecution → Type 0) (run : String → List CheckExecution) (g : String)
      (groups : List String)
      → In g groups
      → Some P (run g)
      → Some P (concat (map run groups))
  member P run g [] i s = absurd i
  member P run g (h ∷ hs) (inl e) s =
      Some-append_left P (run h) (concat (map run hs)) (subst (λ x. Some P (run x)) (sym e) s)
  member P run g (h ∷ hs) (inr i) s =
      Some-append_right P (run h) (concat (map run hs)) (member P run g hs i s)

  -- The context is cancelled at some point of the executions of a group.
  abbrev pub IsCancelled : String → Type 0
  IsCancelled group = (n : ℕ) × ((err : Error) × (poll group n ≡ some err))

  -- Each selected check that is due is among the executions, unless its group has been cancelled.
  abbrev pub Covers : List (Check T) → List String → List CheckExecution → Type 0
  Covers registry selectors es =
      (c : Check T)
      → In c registry
      → In c.group all_groups
      → IsMatched selectors c
      → IsDue api target c
      → IsCancelled c.group ⊎ Some (λ e. e.check_id ≡ c.id) es

  -- Suppose that the validation accepts the selectors, and that they are the default one or match some
  -- check, and that the output can be written. Then the upgrade check executes the selected checks of
  -- each of the five groups. Unless the context is cancelled in its group, each registered check of a
  -- group has an execution with its ID, if a selector matches it and it applies and returns a result or
  -- an error, or its applicability fails. The exit code is the one of highest precedence, in the
  -- documented order, among the exit codes of the errors of all these executions and the code of the
  -- verdict on their worst finding, if that reaches the severity level; it is one of these codes.
  pub run_upgrade_mode-code :
      (registry : List (Check T)) (selectors : List String) (level : SeverityLevel) (table : Bool)
      → validate_check_selectors selectors ≡ none
      → (is_default_selector selectors ≡ true) ⊎ (matches_any_check registry selectors ≡ ok true)
      → (run : String → List CheckExecution) × (((g : String)
            → execute_selective api (poll g) target registry selectors g ≡ ok (run g))
          × (Covers registry selectors (concat (map run all_groups))
              × IsTop api
                  (exit_code_from_error api
                    (run_upgrade_mode api poll target registry selectors level table none))
                  (concat (map run all_groups))
                  (code_of_severity
                    (at_least level (worst_execution (concat (map run all_groups)))))))
  run_upgrade_mode-code registry selectors level table v m =
      let run : String → List CheckExecution = λ g.
        execute_checks api (poll g) target 0 (valid_selectors_lem registry selectors g v).0.0 in
      let runs = λ (g : String). execute_selective-total registry selectors g v in
      let ess = map run all_groups in
      let e =
        run_upgrade_mode-exit registry selectors level table ess
          (check_selectors-passes registry selectors m)
          (execute_groups-total registry selectors all_groups run runs) in
      (
        run,
        (
          runs,
          (
            λ c i j matched due.
                let (picked, p) = (valid_selectors_lem registry selectors c.group v).0 in
                elim (execute_checks-Some api target (poll c.group) 0 picked c
                  ((list_by_patterns-selected registry selectors c.group picked c p).1
                    (i, (inr refl, matched)))
                  due) [
                    | inl stopped ↦ inl stopped
                    | inr s ↦ inr (member _ run c.group all_groups j s)
                  ],
            subst
                (λ o.
                  IsTop api (exit_code_from_error api o) (concat ess)
                    (code_of_severity (at_least level (worst_execution (concat ess)))))
                (sym e)
                (IsTop-concat _ level ess
                  (exit_error_of_results-code api (flatten_results ess) level table)),
          ),
        ),
      )
