-- ===== src/Lint/Flattened.antt =====
-- FlattenResults of pkg/lint/command_options.go neither loses nor makes up executions.
use odh_cli.Base.{
  ◌≡◌, refl, sym, subst, All, All-append, All-left, All-right, Some, Some-append_left,
  Some-append_right, Some-append_cases, if◌then◌else◌, ap, ◌∙◌, inl, inr, ◌⊎◌, ℕ, List, [], ◌∷◌,
  ◌++◌, arith, Bool-cases,
}
use Prim.Native.Nat.{max}
use odh_cli.Lint.Severity.{CheckExecution}
use odh_cli.Lint.Worst.{worst_execution, worst_result}
use odh_cli.Lint.Upgrade.{is_before, insert_result, sort_results, flatten_results}

-- The worst severity of the executions of all groups.
abbrev pub worst_of_groups : List (List CheckExecution) → ℕ
worst_of_groups [] = 0
worst_of_groups (es ∷ groups) = max (worst_execution es) (worst_of_groups groups)

-- The executions of all groups.
abbrev pub concat : List (List CheckExecution) → List CheckExecution
concat [] = []
concat (es ∷ groups) = es ++ concat groups

worst-insert_result :
    (e : CheckExecution) (es : List CheckExecution)
    → worst_execution (insert_result e es) ≡ max (worst_result e.result) (worst_execution es)
unfolding insert_result
worst-insert_result e [] = refl
worst-insert_result e (x ∷ xs) = elim (Bool-cases (is_before x e)) [
  | inr f ↦ rw f refl
  | inl f ↦ rw f (ap (max (worst_result x.result)) (worst-insert_result e xs) ∙ omega arith)
]

worst-sort_results :
    (es : List CheckExecution) → worst_execution (sort_results es) ≡ worst_execution es
unfolding sort_results
worst-sort_results [] = refl
worst-sort_results (e ∷ es) =
    worst-insert_result e (sort_results es)
    ∙ ap (max (worst_result e.result)) (worst-sort_results es)

worst-append :
    (xs ys : List CheckExecution)
    → worst_execution (xs ++ ys) ≡ max (worst_execution xs) (worst_execution ys)
worst-append [] ys = omega arith
worst-append (x ∷ xs) ys = ap (max (worst_result x.result)) (worst-append xs ys) ∙ omega arith

worst-flatten_results :
    (groups : List (List CheckExecution))
    → worst_execution (flatten_results groups) ≡ worst_of_groups groups
unfolding flatten_results
worst-flatten_results [] = refl
worst-flatten_results (es ∷ groups) =
    worst-append (sort_results es) (flatten_results groups)
    ∙ ap (λ n. max n (worst_execution (flatten_results groups))) (worst-sort_results es)
    ∙ ap (max (worst_execution es)) (worst-flatten_results groups)

module _ (P : CheckExecution → Type 0) where
  All-insert_result :
      (e : CheckExecution) (es : List CheckExecution) → All P (insert_result e es) → P e × All P es
  unfolding insert_result
  All-insert_result e [] h = h
  All-insert_result e (x ∷ xs) h = elim (Bool-cases (is_before x e)) [
    | inr f ↦
        let k : All P (e ∷ x ∷ xs) =
          subst (λ b. All P (if b then x ∷ insert_result e xs else e ∷ x ∷ xs)) f h in
        k
    | inl f ↦
        let k : All P (x ∷ insert_result e xs) =
          subst (λ b. All P (if b then x ∷ insert_result e xs else e ∷ x ∷ xs)) f h in
        let (q, r) = All-insert_result e xs k.1 in (q, (k.0, r))
  ]

  Some-insert_result :
      (e : CheckExecution) (es : List CheckExecution)
      → Some P (insert_result e es)
      → P e ⊎ Some P es
  unfolding insert_result
  Some-insert_result e [] h = h
  Some-insert_result e (x ∷ xs) h = elim (Bool-cases (is_before x e)) [
    | inr f ↦ subst (λ b. Some P (if b then x ∷ insert_result e xs else e ∷ x ∷ xs)) f h
    | inl f ↦
        let k : Some P (x ∷ insert_result e xs) =
          subst (λ b. Some P (if b then x ∷ insert_result e xs else e ∷ x ∷ xs)) f h in
        elim k [
          | inl q ↦ inr (inl q)
          | inr r ↦ elim (Some-insert_result e xs r) [ inl q ↦ inl q | inr t ↦ inr (inr t) ]
        ]
  ]

  All-sort_results : (es : List CheckExecution) → All P (sort_results es) → All P es
  unfolding sort_results
  All-sort_results [] h = h
  All-sort_results (e ∷ es) h =
      let (q, r) = All-insert_result e (sort_results es) h in (q, All-sort_results es r)

  Some-sort_results : (es : List CheckExecution) → Some P (sort_results es) → Some P es
  unfolding sort_results
  Some-sort_results [] h = h
  Some-sort_results (e ∷ es) h = elim (Some-insert_result e (sort_results es) h) [
    | inl q ↦ inl q
    | inr r ↦ inr (Some-sort_results es r)
  ]

  pub All-flatten_results :
      (groups : List (List CheckExecution)) → All P (flatten_results groups) → All P (concat groups)
  unfolding flatten_results
  All-flatten_results [] h = h
  All-flatten_results (es ∷ groups) h =
      All-append P es (concat groups)
        (All-sort_results es (All-left P (sort_results es) (flatten_results groups) h))
        (All-flatten_results groups (All-right P (sort_results es) (flatten_results groups) h))

  pub Some-flatten_results :
      (groups : List (List CheckExecution))
      → Some P (flatten_results groups)
      → Some P (concat groups)
  unfolding flatten_results
  Some-flatten_results [] h = h
  Some-flatten_results (es ∷ groups) h =
      elim (Some-append_cases P (sort_results es) (flatten_results groups) h) [
        | inl q ↦ Some-append_left P es (concat groups) (Some-sort_results es q)
        | inr r ↦ Some-append_right P es (concat groups) (Some-flatten_results groups r)
      ]

pub worst-concat :
    (groups : List (List CheckExecution))
    → worst_execution (flatten_results groups) ≡ worst_execution (concat groups)
worst-concat groups = worst-flatten_results groups ∙ sym (same groups)
  where
    same : (gs : List (List CheckExecution)) → worst_execution (concat gs) ≡ worst_of_groups gs
    same [] = refl
    same (es ∷ gs) = worst-append es (concat gs) ∙ ap (max (worst_execution es)) (same gs)
