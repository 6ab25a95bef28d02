-- ===== src/Install/Outcome.antt =====
-- When runInstall of pkg/deps/install.go succeeds, and which dependencies it installs.
use odh_cli.Base.{
  ℕ, ◌≡◌, refl, sym, ap, subst, ◌≢◌, ◌↔◌, ◌⊎◌, inl, inr, String, Bool, true, false, not, Option,
  none, some, List, [], ◌∷◌, keep, In, In-keep,
}
use odh_cli.Errors.{Error}
use odh_cli.Errors.Tables.{ApiErrors}
use odh_cli.Errors.Returns.{Returns, ok, fail, ok-injective}
use odh_cli.Client.{NotFoundErrors}
use odh_cli.Olm.{Mode, v0, v1}
use odh_cli.Deps.Listing.{DependencyInfo}
use odh_cli.Install.{Cluster, InstallCommand, by_mode}
use odh_cli.Install.Select.{
  should_install_dep, is_already_installed, check_errors, cons_error, ok_unless, is_installed,
  filter_deps_to_install, validate_service_accounts, accounts_of,
}
use odh_cli.Install.Wait.{Expiry}
use odh_cli.Install.Run.{
  InstallResult, created_result, waited_result, if_pending, join_with, join_all, result_errors,
  unless_error, with_selected, create_one, wait_one, create_all, wait_all, install_all, run_install,
}

abbrev pub Arrives : Returns String → Type 0
Arrives r = (v : String) × (r ≡ ok v)

join_with-ne-none : (e : Error) (o : Option Error) → join_with e o ≢ none
join_with-ne-none e none h = cc
join_with-ne-none e (some rest) h = cc

join_all_iff : (es : List Error) → join_all es ≡ none ↔ es ≡ []
join_all_iff [] = (λ h. refl, λ h. refl)
join_all_iff (e ∷ es) = (λ h. absurd (join_with-ne-none e (join_all es) h), λ h. cc)

one_iff :
    (d : DependencyInfo) (o : Option Error) (w : Returns String) (rs : List InstallResult)
    → result_errors (
          if_pending
            (created_result d o).status
            (created_result d o)
            (waited_result (created_result d o) w)
          ∷ rs)
        ≡ []
      ↔ ((o ≡ none) × Arrives w) × (result_errors rs ≡ [])
unfolding result_errors
one_iff d none (ok v) rs = (λ h. ((refl, (v, refl)), h), λ h. h.1)
one_iff d none (fail err) rs = (λ h. cc, λ h. absurd (cc (h.0.1.1)))
one_iff d (some e) w rs = (λ h. cc, λ h. absurd (cc (h.0.0)))

nothing_failed : result_errors [] ≡ []
unfolding result_errors
nothing_failed = refl

unless_error_iff :
    {C : Type 0} (o : Option Error) (c : C) (next : C × (List InstallResult × Option Error))
    (P : Type 0)
    → (next.1.1 ≡ none ↔ P)
    → ((unless_error o c next).1.1 ≡ none ↔ (o ≡ none) × P)
      × (((unless_error o c next).0 ≡ c) ⊎ (o ≡ none))
unless_error_iff none c next P h = ((λ e. (refl, h.0 e), λ (e, p). h.1 p), inr refl)
unless_error_iff (some err) c next P h = ((λ e. cc, λ (e, p). cc), inl refl)

by_mode_same : {A : Type 0} (m : Option Mode) (x y a : A) → x ≡ a → y ≡ a → by_mode m x y ≡ a
by_mode_same (some v1) x y a p q = p
by_mode_same (some v0) x y a p q = q
by_mode_same none x y a p q = q

module _ {C : Type 0} (api : ApiErrors) (not_found : NotFoundErrors) (cluster : Cluster C)
    (print : List String → String) (print_number : ℕ → String) (expiry : Expiry)
    (states : DependencyInfo → List C) (command : InstallCommand) where
  abbrev created : C → DependencyInfo → C × Option Error
  created c d = create_one api not_found cluster print print_number expiry states command c d

  abbrev arrived : DependencyInfo → Returns String
  arrived d = wait_one api not_found cluster print print_number expiry states command d

  -- For each dependency, one after the other, the resources are created without an error, and its
  -- operator arrives.
  abbrev pub AllInstalled : C → List DependencyInfo → Type 0
  AllInstalled c [] = Unit
  AllInstalled c (d ∷ deps) =
      (((created c d).1 ≡ none) × Arrives (arrived d)) × AllInstalled (created c d).0 deps

  phases_iff :
      (c : C) (deps : List DependencyInfo)
      → result_errors (
            wait_all api not_found cluster print print_number expiry states command
              (create_all api not_found cluster print print_number expiry states command c deps).1)
          ≡ []
        ↔ AllInstalled c deps
  unfolding wait_all create_all
  phases_iff c [] = (λ h. tt, λ h. nothing_failed)
  phases_iff c (d ∷ deps) =
      let here = one_iff d (created c d).1 (arrived d) (
        wait_all api not_found cluster print print_number expiry states command
          (create_all api not_found cluster print print_number expiry states command (created c d).0
            deps).1) in
      let rest = phases_iff (created c d).0 deps in
      (
        λ h. let (one, more) = here.0 h in (one, rest.0 more),
        λ (one, more). here.1 (one, rest.1 more),
      )

  -- No error, exactly if the accounts are there and all is installed; and no step before that.
  abbrev pub Outcome : C → List DependencyInfo → C × (List InstallResult × Option Error) → Type 0
  Outcome c deps r =
      (r.1.1 ≡ none
        ↔ (validate_service_accounts not_found cluster c command deps ≡ none) × AllInstalled c deps)
      × ((r.0 ≡ c) ⊎ (validate_service_accounts not_found cluster c command deps ≡ none))

  no_accounts : (c : C) → validate_service_accounts not_found cluster c command [] ≡ none
  unfolding validate_service_accounts accounts_of
  no_accounts c = by_mode_same command.selected _ _ none refl refl

  install_all_iff :
      (c : C) (deps : List DependencyInfo)
      → (install_all api not_found cluster print print_number expiry states command c deps).1.1
          ≡ none
        ↔ AllInstalled c deps
  unfolding install_all
  install_all_iff c deps =
      let errors = join_all_iff (
        result_errors (
          wait_all api not_found cluster print print_number expiry states command
            (create_all api not_found cluster print print_number expiry states command c
              deps).1)) in
      let phases = phases_iff c deps in (λ h. phases.0 (errors.0 h), λ h. errors.1 (phases.1 h))

  selected-Outcome :
      (c : C) (deps : List DependencyInfo)
      → Outcome c deps (
          with_selected (ok deps) c λ to_install.
            unless_error (validate_service_accounts not_found cluster c command to_install) c (
              install_all api not_found cluster print print_number expiry states command c
                to_install))
  selected-Outcome c [] = ((λ h. (no_accounts c, tt), λ h. refl), inl refl)
  selected-Outcome c (d ∷ deps) =
      unless_error_iff (validate_service_accounts not_found cluster c command (d ∷ deps)) c _
        (AllInstalled c (d ∷ deps)) (install_all_iff c (d ∷ deps))

  -- For the dependencies that filterDepsToInstall selects, runInstall returns no error exactly if the
  -- service accounts that the mode needs are there, and for each of them, one after the other, the
  -- resources are created without an error and the operator arrives before the timeout. Unless the
  -- accounts are there, it changes nothing in the cluster.
  pub run_install-Outcome :
      (wait : List Error → Option Error) (c : C) (deps to_install : List DependencyInfo)
      → filter_deps_to_install api not_found cluster c wait command deps ≡ ok to_install
      → Outcome c to_install
          (run_install api not_found cluster print print_number expiry states wait command c deps)
  unfolding run_install
  run_install-Outcome wait c deps to_install e =
      subst (Outcome c to_install)
        (sym (
          ap
            (λ r. with_selected r c λ ds.
              unless_error (validate_service_accounts not_found cluster c command ds) c
                (install_all api not_found cluster print print_number expiry states command c ds))
            e))
        (selected-Outcome c to_install)

ok_unless-ok :
    {A : Type 0} (o : Option Error) (wrap : Error → Error) (a b : A)
    → ok_unless o wrap a ≡ ok b
    → (o ≡ none) × (a ≡ b)
ok_unless-ok (some err) wrap a b e = absurd (cc)
ok_unless-ok none wrap a b e = (refl, ok-injective e)

cons_error-nil :
    (r : Returns Bool) (errors : List Error)
    → cons_error r errors ≡ []
    → ((b : Bool) × (r ≡ ok b)) × (errors ≡ [])
cons_error-nil (fail err) errors e = absurd (cc)
cons_error-nil (ok b) errors e = ((b, refl), e)

not_installed :
    (r : Returns Bool) (b : Bool) → r ≡ ok b → not (is_installed r) ≡ true → r ≡ ok false
not_installed (fail err) b e m = absurd (cc)
not_installed (ok true) b e m = absurd (cc)
not_installed (ok false) b e m = refl

-- errgroup.Wait: nil if no function has failed, and else the error of one of them.
abbrev pub IsWait : (List Error → Option Error) → Type 0
IsWait wait = (wait [] ≡ none) × ((e : Error) (es : List Error) → wait (e ∷ es) ≢ none)

module _ {C : Type 0} (api : ApiErrors) (not_found : NotFoundErrors) (cluster : Cluster C) (c : C)
    (command : InstallCommand) where
  wait-none :
      (wait : List Error → Option Error) (es : List Error) → IsWait wait → wait es ≡ none → es ≡ []
  wait-none wait [] h e = refl
  wait-none wait (x ∷ es) h e = absurd (h.1 x es e)

  In-checked :
      (deps : List DependencyInfo)
      → check_errors api not_found cluster c command deps ≡ []
      → (d : DependencyInfo) → In d deps
      → (b : Bool) × (is_already_installed api not_found cluster c command d ≡ ok b)
  In-checked (x ∷ deps) e d i =
      let (r, rest) = cons_error-nil (is_already_installed api not_found cluster c command x) _ e in
      elim i [
        | inl f ↦
            subst
              (λ y. (b : Bool) × (is_already_installed api not_found cluster c command y ≡ ok b)) f
              r
        | inr j ↦ In-checked deps rest d j
      ]
  In-checked [] e d i = absurd i

  -- filterDepsToInstall returns exactly the dependencies that shouldInstallDep wants and that
  -- isAlreadyInstalled says are not installed, if it returns any list.
  pub filter_deps_to_install_iff :
      (wait : List Error → Option Error) (deps to_install : List DependencyInfo)
      → IsWait wait
      → filter_deps_to_install api not_found cluster c wait command deps ≡ ok to_install
      → (d : DependencyInfo)
      → In d to_install
        ↔ In d deps
          × ((should_install_dep command d ≡ true)
              × (is_already_installed api not_found cluster c command d ≡ ok false))
  unfolding filter_deps_to_install
  filter_deps_to_install_iff wait deps to_install h e d =
      let wanted = keep (should_install_dep command) deps in
      let (n, k) = ok_unless-ok _ _ _ to_install e in
      let found = wait-none wait (check_errors api not_found cluster c command wanted) h n in
      subst
        (λ xs.
          In d xs
          ↔ In d deps
            × ((should_install_dep command d ≡ true)
                × (is_already_installed api not_found cluster c command d ≡ ok false)))
        k
        (
          λ i.
              let (j, m) = (In-keep _ d wanted).0 i in
              let (b, r) = In-checked wanted found d j in
              let (l, w) = (In-keep _ d deps).0 j in (l, (w, not_installed _ b r m)),
          λ (i, (w, r)).
              (In-keep _ d wanted).1
                ((In-keep _ d deps).1 (i, w), ap (λ x. not (is_installed x)) r),
        )
