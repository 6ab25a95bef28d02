-- ===== src/Lint/Executions.antt =====
-- What holds of every list of executions that the executor returns.
use odh_cli.Base.{
  ℕ, suc, ◌+◌, String, ◌≡◌, ◌≢◌, ◌⊎◌, inl, inr, refl, Bool, true, false, Option, none, some, List,
  [], ◌∷◌, ◌++◌, arith, All, eq_iff, Option-cases, length,
}
use odh_cli.Errors.{Error}
use odh_cli.Errors.Tables.{ApiErrors}
use odh_cli.Lint.Result.{
  DiagnosticResult, advisory, status_unknown, is_failing, get_impact, result_validate, new_result,
}
use odh_cli.Lint.Condition.{new_condition, with_reason, with_message}
use odh_cli.Lint.Severity.{CheckExecution}
use odh_cli.Lint.Check.{Returns, ok, fail, Check}
use odh_cli.Lint.Executor.{
  unknown_condition, reason_failed, reason_denied, error_reason, error_result, build_validate_error,
  checked_result, executed, add_execution, run_one, execute_checks,
}

-- The condition that the executor builds is what NewCondition returns for the options that it gives.
new_condition-unknown :
    (reason message : String)
    → new_condition "Validated" status_unknown (with_reason reason ∷ with_message message ∷ [])
      ≡ some (unknown_condition reason message)
unfolding new_condition
new_condition-unknown reason message = refl

-- An execution that can be reported: it has a valid result, and if it has an error the result is
-- failing, with advisory impact.
pub record IsReported (e : CheckExecution) : Type 0 where
  pub result : DiagnosticResult
  pub has_result : e.result ≡ some result
  pub valid : result_validate result ≡ none
  pub fails :
      (e.error ≡ none)
      ⊎ ((is_failing result.conditions ≡ true) × (get_impact result.conditions ≡ advisory))

reason_failed-ne : reason_failed ≢ ""
reason_failed-ne = ground (arith, eq_iff reason_failed "")

error_reason-ne : (api : ApiErrors) (e : Error) → (error_reason api e).0 ≢ ""
error_reason-ne api e = ground (arith, eq_iff reason_failed "", eq_iff reason_denied "")

add_execution-All :
    (e : CheckExecution) (o : Option DiagnosticResult) (rest : List CheckExecution)
    → e.result ≡ o
    → (e.result ≡ none) ⊎ IsReported e
    → All IsReported rest
    → All IsReported (add_execution e o rest)
add_execution-All e none rest q h k = k
add_execution-All e (some r) rest q (inl h) k = cc
add_execution-All e (some r) rest q (inr h) k = (h, k)

module _ {T : Type 0} where
  -- A check that can name its results.
  pub record IsNamed (c : Check T) : Type 0 where
    pub has_group : c.group ≢ ""
    pub has_kind : c.check_kind ≢ ""
    pub has_type : c.check_type ≢ ""

  error_result-valid :
      (c : Check T) (reason message : String)
      → IsNamed c
      → reason ≢ ""
      → result_validate (error_result c (unknown_condition reason message)) ≡ none
  unfolding result_validate new_result
  error_result-valid c reason message n r =
      ground
        (arith, eq_iff c.group "", eq_iff c.check_kind "", eq_iff c.check_type "", eq_iff reason "")

  error_IsReported :
      (c : Check T) (id reason message : String) (e : Error)
      → IsNamed c
      → reason ≢ ""
      → IsReported (record {
        check_id = id;
        result = some (error_result c (unknown_condition reason message));
        error = some e;
      })
  unfolding is_failing get_impact new_result
  error_IsReported c id reason message e n r = record {
    result = error_result c (unknown_condition reason message);
    has_result = refl;
    valid = error_result-valid c reason message n r;
    fails = inr (refl, refl);
  }

  checked_result-IsReported :
      (c : Check T) (r : DiagnosticResult) (o : Option Error)
      → result_validate r ≡ o
      → IsNamed c
      → IsReported (checked_result c r o)
  checked_result-IsReported c r none v n = record {
    result = r;
    has_result = refl;
    valid = v;
    fails = inl refl;
  }
  checked_result-IsReported c r (some e) v n =
      error_IsReported c c.id reason_failed _ _ n reason_failed-ne

  executed-IsReported :
      (api : ApiErrors) (c : Check T) (r : Option DiagnosticResult) (o : Option Error)
      → IsNamed c
      → ((executed api c r o).result ≡ none) ⊎ IsReported (executed api c r o)
  unfolding build_validate_error
  executed-IsReported api c none none n = inl refl
  executed-IsReported api c (some r) none n =
      inr (checked_result-IsReported c r (result_validate r) refl n)
  executed-IsReported api c r (some e) n =
      inr (error_IsReported c c.id (error_reason api e).0 _ e n (error_reason-ne api e))

  run_one-All :
      (api : ApiErrors) (target : T) (c : Check T) (a : Returns Bool) (rest : List CheckExecution)
      → IsNamed c
      → All IsReported rest
      → All IsReported (run_one api target c a rest)
  unfolding run_one
  run_one-All api target c (fail e) rest n k =
      (error_IsReported c c.id reason_failed _ _ n reason_failed-ne, k)
  run_one-All api target c (ok false) rest n k = k
  run_one-All api target c (ok true) rest n k =
      let (r, o) = c.validate target in
      add_execution-All (executed api c r o) (executed api c r o).result rest refl
        (executed-IsReported api c r o n) k

  -- Every execution of executeChecks has a valid result, and one with an error has a failing result of
  -- advisory impact, if the checks have a group, a kind and a type.
  pub execute_checks-IsReported :
      (api : ApiErrors) (poll : ℕ → Option Error) (target : T) (n : ℕ) (cs : List (Check T))
      → All IsNamed cs
      → All IsReported (execute_checks api poll target n cs)
  unfolding execute_checks
  execute_checks-IsReported api poll target n [] h = tt
  execute_checks-IsReported api poll target n (c ∷ cs) (h, hs) =
      let rest = execute_checks-IsReported api poll target (suc n) cs hs in
      elim (Option-cases (poll n)) [
        | inr (e, stop) ↦ rw (stop, execute_checks) tt
        | inl on ↦ rw (on, execute_checks) (run_one-All api target c (c.can_apply target) _ h rest)
      ]

  -- From the check before which the context is found cancelled no check is run: the executions are
  -- those of the checks before it.
  pub execute_checks_cancelled :
      (api : ApiErrors) (poll : ℕ → Option Error) (target : T) (n : ℕ)
      (before after : List (Check T)) (err : Error)
      → poll (n + length before) ≡ some err
      → execute_checks api poll target n (before ++ after) ≡ execute_checks api poll target n before
  unfolding execute_checks
  execute_checks_cancelled api poll target n [] [] err h = refl
  execute_checks_cancelled api poll target n [] (c ∷ cs) err h =
      let e : n + 0 ≡ n = omega arith in rw (rw e at h, execute_checks) refl
  execute_checks_cancelled api poll target n (c ∷ before) after err h =
      let e : n + suc (length before) ≡ suc n + length before = omega arith in
      let ih = execute_checks_cancelled api poll target (suc n) before after err (rw e at h) in
      ground (arith, ih)
