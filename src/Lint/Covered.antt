-- ===== src/Lint/Covered.antt =====
-- executeChecks of pkg/lint/check/executor.go reports on every check that it is given.
use odh_cli.Base.{
  ◌≡◌, refl, sym, subst, ◌⊎◌, inl, inr, ℕ, suc, String, Bool, true, false, Option, none, some, List,
  [], ◌∷◌, Some, In, Option-cases,
}
use odh_cli.Errors.{Error}
use odh_cli.Errors.Tables.{ApiErrors}
use odh_cli.Lint.Result.{DiagnosticResult, result_validate}
use odh_cli.Lint.Severity.{CheckExecution}
use odh_cli.Lint.Check.{Returns, ok, fail, Check}
use odh_cli.Lint.Executor.{
  add_execution, checked_result, executed, build_can_apply_error, build_validate_error,
  execute_check, run_one, execute_checks,
}

module _ {T : Type 0} (api : ApiErrors) (target : T) where
  -- CanApply fails, or it says that the check applies, and Validate returns a result or an error.
  abbrev pub IsDue : Check T → Type 0
  IsDue c =
      ((err : Error) × (c.can_apply target ≡ fail err))
      ⊎ ((c.can_apply target ≡ ok true)
          × (((r : DiagnosticResult) × ((c.validate target).0 ≡ some r))
              ⊎ ((err : Error) × ((c.validate target).1 ≡ some err))))

  -- The execution is one of the check and has a result.
  abbrev Reports : Check T → CheckExecution → Type 0
  Reports c e = (e.check_id ≡ c.id) × ((r : DiagnosticResult) × (e.result ≡ some r))

  checked_result-Reports :
      (c : Check T) (r : DiagnosticResult) (o : Option Error) → Reports c (checked_result c r o)
  checked_result-Reports c r none = (refl, (_, refl))
  checked_result-Reports c r (some err) = (refl, (_, refl))

  executed-Reports :
      (c : Check T) (r : Option DiagnosticResult) (o : Option Error)
      → ((x : DiagnosticResult) × (r ≡ some x)) ⊎ ((err : Error) × (o ≡ some err))
      → Reports c (executed api c r o)
  unfolding build_validate_error
  executed-Reports c r (some err) h = (refl, (_, refl))
  executed-Reports c (some r) none h = checked_result-Reports c r (result_validate r)
  executed-Reports c none none h = elim h [
    | inl (x, e) ↦ absurd (cc e)
    | inr (x, e) ↦ absurd (cc e)
  ]

  add_execution-Some :
      (e : CheckExecution) (o : Option DiagnosticResult) (rest : List CheckExecution) (id : String)
      → e.check_id ≡ id
      → (r : DiagnosticResult) × (o ≡ some r)
      → Some (λ x. x.check_id ≡ id) (add_execution e o rest)
  add_execution-Some e none rest id q (r, f) = absurd (cc f)
  add_execution-Some e (some x) rest id q (r, f) = inl q

  run_one-first :
      (c : Check T) (a : Returns Bool) (rest : List CheckExecution)
      → ((err : Error) × (a ≡ fail err))
        ⊎ ((a ≡ ok true)
            × (((r : DiagnosticResult) × ((c.validate target).0 ≡ some r))
                ⊎ ((err : Error) × ((c.validate target).1 ≡ some err))))
      → Some (λ x. x.check_id ≡ c.id) (run_one api target c a rest)
  unfolding run_one build_can_apply_error execute_check
  run_one-first c (fail err) rest h = inl refl
  run_one-first c (ok false) rest h = elim h [
    | inl (err, e) ↦ absurd (cc e)
    | inr (e, k) ↦ absurd (cc e)
  ]
  run_one-first c (ok true) rest h = elim h [
    | inl (err, e) ↦ absurd (cc e)
    | inr (e, k) ↦
        let x = executed api c (c.validate target).0 (c.validate target).1 in
        let (q, r) = executed-Reports c (c.validate target).0 (c.validate target).1 k in
        add_execution-Some x x.result rest c.id q r
  ]

  add_execution-rest :
      (P : CheckExecution → Type 0) (e : CheckExecution) (o : Option DiagnosticResult)
      (rest : List CheckExecution)
      → Some P rest
      → Some P (add_execution e o rest)
  add_execution-rest P e none rest h = h
  add_execution-rest P e (some r) rest h = inr h

  run_one-rest :
      (P : CheckExecution → Type 0) (c : Check T) (a : Returns Bool) (rest : List CheckExecution)
      → Some P rest
      → Some P (run_one api target c a rest)
  unfolding run_one
  run_one-rest P c (fail err) rest h = inr h
  run_one-rest P c (ok false) rest h = h
  run_one-rest P c (ok true) rest h =
      add_execution-rest P (execute_check api target c) (execute_check api target c).result rest h

  -- Either the context is cancelled at some point, or the check has an execution.
  pub execute_checks-Some :
      (poll : ℕ → Option Error) (n : ℕ) (cs : List (Check T)) (c : Check T)
      → In c cs
      → IsDue c
      → ((k : ℕ) × ((err : Error) × (poll k ≡ some err)))
        ⊎ Some (λ e. e.check_id ≡ c.id) (execute_checks api poll target n cs)
  unfolding execute_checks
  execute_checks-Some poll n [] c i due = absurd i
  execute_checks-Some poll n (d ∷ ds) c i due =
      let rest = execute_checks api poll target (suc n) ds in
      let one = run_one api target d (d.can_apply target) rest in
      elim (Option-cases (poll n)) [
        | inr (err, q) ↦ inl (n, (err, q))
        | inl q ↦
            subst
              (λ o.
                ((k : ℕ) × ((err : Error) × (poll k ≡ some err)))
                ⊎ Some (λ y. y.check_id ≡ c.id) (elim o [ some err ↦ [] | none ↦ one ]))
              (sym q)
              (elim i [
                | inl e ↦ inr (
                    subst (λ x. Some (λ y. y.check_id ≡ x.id) one) e
                      (run_one-first d (d.can_apply target) rest (subst IsDue (sym e) due)))
                | inr j ↦ elim (execute_checks-Some poll (suc n) ds c j due) [
                  | inl stopped ↦ inl stopped
                  | inr s ↦
                      inr (run_one-rest (λ y. y.check_id ≡ c.id) d (d.can_apply target) rest s)
                ]
              ])
      ]
