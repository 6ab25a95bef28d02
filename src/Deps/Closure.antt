-- ===== src/Deps/Closure.antt =====
-- collectTransitiveDeps of pkg/deps/graph.go against reachability by enabled dependencies.
use odh_cli.Base.{
  ℕ, zero, suc, ◌+◌, ◌≤◌, ◌<◌, ◌≡◌, ◌⊎◌, inl, inr, refl, sym, subst, ◌↔◌, String, true, false,
  Option, none, some, List, [], ◌∷◌, if◌then◌else◌, ◌==◌, has, lookup, length, arith, eq_iff, In,
  In→has, Bool-cases, Option-cases,
}
use odh_cli.Base.Graph.{Reach, here, step, Reach-closed}
use odh_cli.Deps.{Value, Dependency, is_enabled}
use odh_cli.Deps.Graph.{collect_each, collect_transitive_deps}

-- The names of the enabled entries.
abbrev pub enabled_names : List (String × Value) → List String
enabled_names [] = []
enabled_names ((name, val) ∷ rest) =
    if is_enabled val then name ∷ enabled_names rest else enabled_names rest

-- The enabled dependencies of a name; of a name without an entry, none.
abbrev pub direct_deps : List (String × Dependency) → String → List String
direct_deps deps name = elim (lookup deps name) [
  | none ↦ []
  | some dep ↦ enabled_names dep.dependencies
]

-- The entries that are not visited yet.
abbrev unvisited : List (String × Dependency) → List String → ℕ
unvisited [] visited = 0
unvisited ((k, dep) ∷ deps) visited = (if has visited k then 0 else 1) + unvisited deps visited

abbrev IsLarger : List String → List String → Type 0
IsLarger more visited = (x : String) → has visited x ≡ true → has more x ≡ true

unvisited_mono :
    (deps : List (String × Dependency)) (visited more : List String)
    → IsLarger more visited
    → unvisited deps more ≤ unvisited deps visited
unvisited_mono [] visited more h = omega arith
unvisited_mono ((k, dep) ∷ deps) visited more h =
    ground (arith, h k, unvisited_mono deps visited more h)

unvisited-length : (deps : List (String × Dependency)) → unvisited deps [] ≤ length deps
unvisited-length [] = omega arith
unvisited-length ((k, dep) ∷ deps) = ground (arith, unvisited-length deps)

cons-IsLarger : (name : String) (visited : List String) → IsLarger (name ∷ visited) visited
cons-IsLarger name visited x h = ground arith

unvisited-visit :
    (deps : List (String × Dependency)) (name : String) (visited : List String) (dep : Dependency)
    → lookup deps name ≡ some dep
    → has visited name ≡ false
    → unvisited deps (name ∷ visited) < unvisited deps visited
unvisited-visit [] name visited dep e h = absurd (cc)
unvisited-visit ((k, d) ∷ deps) name visited dep e h = elim (Bool-cases (k == name)) [
  | inl f ↦ ground (
    arith,
    eq_iff k name,
    eq_iff name k,
    unvisited_mono deps visited (name ∷ visited) (cons-IsLarger name visited),
  )
  | inr f ↦
      let ih = unvisited-visit deps name visited dep (rw f at e) h in
      ground (arith, eq_iff k name, eq_iff name k, ih)
]

module _ (deps : List (String × Dependency)) where
  -- What a call for the names `from` adds to the visited set: everything that these lead to, and nothing else.
  record Explored (from visited more : List String) : Type 0 where
    larger : IsLarger more visited
    starts : (x : String) → In x from → has more x ≡ true
    closed :
        (x y : String)
        → has more x ≡ true
        → In y (direct_deps deps x)
        → (has visited x ≡ true) ⊎ (has more y ≡ true)
    sound :
        (x : String)
        → has more x ≡ true
        → (has visited x ≡ true) ⊎ ((p : String) × In p from × Reach (direct_deps deps) p x)

  nothing-Explored : (visited : List String) → Explored [] visited visited
  nothing-Explored visited = record {
    larger = λ x h. h;
    starts = λ x i. elim i [ ];
    closed = λ x y h i. inl h;
    sound = λ x h. inl h;
  }

  then-Explored :
      (name : String) (from visited middle more : List String)
      → Explored (name ∷ []) visited middle
      → Explored from middle more
      → Explored (name ∷ from) visited more
  then-Explored name from visited middle more a b = record {
    larger = λ x h. b.larger x (a.larger x h);
    starts = λ x i. elim i [ inl e ↦ b.larger x (a.starts x (inl e)) | inr j ↦ b.starts x j ];
    closed = λ x y h i. elim (b.closed x y h i) [
      | inr k ↦ inr k
      | inl m ↦ elim (a.closed x y m i) [ inl v ↦ inl v | inr k ↦ inr (b.larger y k) ]
    ];
    sound = λ x h. elim (b.sound x h) [
      | inr (p, i, r) ↦ inr (p, inr i, r)
      | inl m ↦ elim (a.sound x m) [
        | inl v ↦ inl v
        | inr (p, inl e, r) ↦ inr (p, inl e, r)
        | inr (p, inr i, r) ↦ absurd i
      ]
    ];
  }

  visited-Explored :
      (name : String) (visited : List String)
      → has visited name ≡ true
      → Explored (name ∷ []) visited visited
  visited-Explored name visited old = record {
    larger = λ x h. h;
    starts = λ x i. elim i [ inl e ↦ subst (λ z. has visited z ≡ true) e old | inr j ↦ absurd j ];
    closed = λ x y h i. inl h;
    sound = λ x h. inl h;
  }

  head_cases :
      (name x : String) (visited : List String)
      → has (name ∷ visited) x ≡ true
      → (has visited x ≡ true) ⊎ (name ≡ x)
  head_cases name x visited h = elim (Bool-cases (name == x)) [
    | inl e ↦ inr ((eq_iff name x).0 e)
    | inr e ↦ inl (rw e at h)
  ]

  prepend :
      {a b c : String}
      → In b (direct_deps deps a)
      → Reach (direct_deps deps) b c
      → Reach (direct_deps deps) a c
  prepend {a} {b} {c} i r =
      Reach-closed (direct_deps deps) (λ z. Reach (direct_deps deps) a z) (step here i)
        (λ x y v j. step v j) r

  visit-Explored :
      (name : String) (visited more : List String)
      → Explored (direct_deps deps name) (name ∷ visited) more
      → Explored (name ∷ []) visited more
  visit-Explored name visited more a = record {
    larger = λ x h. a.larger x (cons-IsLarger name visited x h);
    starts =
        λ x i. elim i [ inl e ↦ a.larger x (In→has (name ∷ visited) x (inl e)) | inr j ↦ absurd j ];
    closed = λ x y h i. elim (a.closed x y h i) [
      | inr k ↦ inr k
      | inl m ↦ elim (head_cases name x visited m) [
        | inl v ↦ inl v
        | inr e ↦ inr (a.starts y (subst (λ z. In y (direct_deps deps z)) (sym e) i))
      ]
    ];
    sound = λ x h. elim (a.sound x h) [
      | inr (p, i, r) ↦ inr (name, inl refl, prepend i r)
      | inl m ↦ elim (head_cases name x visited m) [
        | inl v ↦ inl v
        | inr e ↦ inr (name, inl refl, subst (λ z. Reach (direct_deps deps) name z) e here)
      ]
    ];
  }

  -- A call that ends with what is to be explored.
  abbrev Explores : List String → List String → Option (List String) → Type 0
  Explores from visited o = (more : List String) × (o ≡ some more) × Explored from visited more

  each-Explores :
      (go : String → List String → Option (List String)) (n : ℕ)
      → ((t : String) (w : List String) → unvisited deps w < n → Explores (t ∷ []) w (go t w))
      → (ps : List (String × Value)) (visited : List String) → unvisited deps visited < n
      → Explores (enabled_names ps) visited (collect_each go ps visited)
  unfolding collect_each
  each-Explores go n h [] visited b = (visited, refl, nothing-Explored visited)
  each-Explores go n h ((t, val) ∷ ps) visited b = elim (Bool-cases (is_enabled val)) [
    | inr off ↦ rw (off, collect_each) (each-Explores go n h ps visited b)
    | inl on ↦
        let (middle, e, a) = h t visited b in
        let (more, f, c) =
          each-Explores go n h ps middle
            (omega (arith, unvisited_mono deps visited middle a.larger)) in
        rw (on, e, collect_each)
          (more, f, then-Explored t (enabled_names ps) visited middle more a c)
  ]

  collect-Explores :
      (fuel : ℕ) (name : String) (visited : List String)
      → unvisited deps visited < fuel
      → Explores (name ∷ []) visited (collect_transitive_deps deps fuel name visited)
  unfolding collect_transitive_deps
  collect-Explores zero name visited b = absurd (omega arith)
  collect-Explores (suc fuel) name visited b = elim (Bool-cases (has visited name)) [
    | inl old ↦ rw old (visited, refl, visited-Explored name visited old)
    | inr new ↦ elim (Option-cases (lookup deps name)) [
      | inl e ↦ (
        name ∷ visited,
        rw (new, e, collect_transitive_deps) refl,
        visit-Explored name visited (name ∷ visited)
            (rw (e, direct_deps) (nothing-Explored (name ∷ visited))),
      )
      | inr (dep, e) ↦
          let (more, f, a) =
            each-Explores (collect_transitive_deps deps fuel) fuel (collect-Explores fuel)
              dep.dependencies (name ∷ visited)
              (omega (arith, unvisited-visit deps name visited dep e new)) in
          (
            more,
            rw (new, e, collect_transitive_deps) f,
            visit-Explored name visited more (rw (e, direct_deps) a),
          )
    ]
  ]

-- collectTransitiveDeps on a fresh visited set ends, also where dependencies form a cycle, and has
-- visited exactly the names that a path of enabled dependencies leads to, its start included.
pub collect_transitive_deps_lem :
    (deps : List (String × Dependency)) (name : String)
    → (visited : List String) × (collect_transitive_deps deps (suc (length deps)) name []
        ≡ some visited)
      × ((x : String) → has visited x ≡ true ↔ Reach (direct_deps deps) name x)
collect_transitive_deps_lem deps name =
    let (visited, e, a) =
      collect-Explores deps (suc (length deps)) name [] (omega (arith, unvisited-length deps)) in
    (
      visited,
      e,
      λ x. (
        λ h. elim (a.sound x h) [
          | inl f ↦ absurd (false_true f)
          | inr (p, inl q, r) ↦ subst (λ z. Reach (direct_deps deps) z x) (sym q) r
          | inr (p, inr i, r) ↦ absurd i
        ],
        λ r.
            Reach-closed (direct_deps deps) (λ z. has visited z ≡ true) (a.starts name (inl refl))
              (λ u v h i. elim (a.closed u v h i) [ inl f ↦ absurd (false_true f) | inr k ↦ k ]) r,
      ),
    )
  where
    false_true : false ≡ true → ⊥
    false_true f = cc
