-- ===== src/Install/Found.antt =====
-- findClusterExtensionInstallState of pkg/deps/olm_state.go.
use odh_cli.Base.{
  ◌≡◌, refl, sym, ◌∙◌, ap, subst, ◌↔◌, ◌⊎◌, inl, inr, String, Bool, true, false, Option, none, some,
  List, [], ◌∷◌, Some,
}
use odh_cli.Errors.{Error}
use odh_cli.Errors.Returns.{Returns, ok, fail, ok-injective}
use odh_cli.Client.{NotFoundErrors}
use odh_cli.Install.{Query, found, absent, broken, ClusterExtension, Cluster}
use odh_cli.Install.Extensions.{
  InstallState, no_state, cluster_extension_matches, cluster_extension_installed, by_answer,
  reading, in_list, found_state, find_in, find_install_state,
}

by_answer_cases :
    (r : Returns Bool) (state : InstallState) (skip go : InstallState × Option Error)
    (P : InstallState × Option Error → Type 0)
    → ((err : Error) → P (state, some err))
    → (r ≡ ok false → P skip)
    → (r ≡ ok true → P go)
    → P (by_answer r state skip go)
by_answer_cases (fail err) state skip go P f g h = f err
by_answer_cases (ok false) state skip go P f g h = g refl
by_answer_cases (ok true) state skip go P f g h = h refl

-- Both answers, for a version that can be read or is missing.
versions :
    (q : Query String) (wrap : Error → Error) (state : InstallState)
    → (found_state q wrap state).1 ≡ none
    → ((found_state q wrap state).0.requested ≡ true)
      × ((found_state q wrap state).0.installed ≡ true)
versions (found v) wrap state h = (refl, refl)
versions absent wrap state h = (refl, refl)
versions (broken err) wrap state h = absurd (cc)

module _ (package_name namespace : String) where
  -- An extension that requests the package in the namespace, and one that is installed.
  abbrev pub Requests : ClusterExtension → Type 0
  Requests e = cluster_extension_matches e package_name namespace ≡ ok true

  abbrev pub Installs : ClusterExtension → Type 0
  Installs e = Requests e × (cluster_extension_installed e ≡ ok true)

  -- What a result without an error says of a list of extensions, after some were skipped.
  abbrev Says : (P : Type 0) → InstallState × Option Error → List ClusterExtension → Type 0
  Says P r items =
      (r.1 ≡ none)
      → ((r.0.requested ≡ true ↔ P ⊎ Some Requests items)
          × (r.0.installed ≡ true ↔ Some Installs items))

  found_state-Says :
      (P : Type 0) (e : ClusterExtension) (state : InstallState) (rest : List ClusterExtension)
      → Requests e
      → cluster_extension_installed e ≡ ok true
      → Says P (found_state e.bundle_version (reading e "version") state) (e ∷ rest)
  found_state-Says P e state rest m i h =
      let (r, j) = versions e.bundle_version (reading e "version") state h in
      ((λ x. inr (inl m), λ x. r), (λ x. inl (m, i), λ x. j))

  other_answer : {r : Returns Bool} → r ≡ ok true → r ≡ ok false → ⊥
  other_answer p q = let e : true ≡ false = ok-injective (sym p ∙ q) in cc e

  skips :
      (P : Type 0) (e : ClusterExtension) (r : InstallState × Option Error)
      (rest : List ClusterExtension)
      → cluster_extension_matches e package_name namespace ≡ ok false
      → Says P r rest
      → Says P r (e ∷ rest)
  skips P e r rest m says h =
      let ((a, b), (c, d)) = says h in
      (
        (
          λ x. elim (a x) [ inl q ↦ inl q | inr i ↦ inr (inr i) ],
          λ x. elim x [
            | inl q ↦ b (inl q)
            | inr (inl k) ↦ absurd (other_answer k m)
            | inr (inr i) ↦ b (inr i)
          ],
        ),
        (λ x. inr (c x), λ x. elim x [ inl (k, l) ↦ absurd (other_answer k m) | inr i ↦ d i ]),
      )

  asks :
      (P : Type 0) (e : ClusterExtension) (r : InstallState × Option Error)
      (rest : List ClusterExtension)
      → Requests e
      → cluster_extension_installed e ≡ ok false
      → Says (P ⊎ Requests e) r rest
      → Says P r (e ∷ rest)
  asks P e r rest m i says h =
      let ((a, b), (c, d)) = says h in
      (
        (λ x. inr (inl m), λ x. b (inl (inr m))),
        (λ x. inr (c x), λ x. elim x [ inl (k, l) ↦ absurd (other_answer l i) | inr j ↦ d j ]),
      )

  find_in-Says :
      (items : List ClusterExtension) (state : InstallState) (P : Type 0)
      → state.installed ≡ false
      → (state.requested ≡ true ↔ P)
      → Says P (find_in package_name namespace state items) items
  unfolding find_in
  find_in-Says [] state P s p = λ h. (
    (λ e. inl (p.0 e), λ x. elim x [ inl q ↦ p.1 q | inr b ↦ absurd b ]),
    (λ e. absurd (cc (e, s)), λ b. absurd b),
  )
  find_in-Says (e ∷ rest) state P s p =
      by_answer_cases (cluster_extension_matches e package_name namespace) state _ _
        (λ r. Says P r (e ∷ rest)) (λ err h. absurd (cc))
        (λ m.
          skips P e (find_in package_name namespace state rest) rest m
            (find_in-Says rest state P s p))
        (λ m.
          by_answer_cases (cluster_extension_installed e) (record state { requested = true }) _ _
            (λ r. Says P r (e ∷ rest)) (λ err h. absurd (cc))
            (λ i.
              asks P e (find_in package_name namespace (record state { requested = true }) rest)
                rest m i
                (find_in-Says rest (record state { requested = true }) (P ⊎ Requests e) s
                  (λ x. inr m, λ x. refl)))
            (λ i. found_state-Says P e state rest m i))

  -- If findClusterExtensionInstallState returns no error, the package is requested exactly if some
  -- listed ClusterExtension matches the package and the namespace, and it is installed exactly if
  -- some such ClusterExtension is installed.
  pub find_install_state_iff :
      {C : Type 0} (api : NotFoundErrors) (cluster : Cluster C) (c : C)
      (items : List ClusterExtension)
      → cluster.list_extensions c ≡ ok items
      → let r = find_install_state api cluster c package_name namespace in
        r.1 ≡ none
        → (r.0.requested ≡ true ↔ Some Requests items)
          × (r.0.installed ≡ true ↔ Some Installs items)
  unfolding find_install_state
  find_install_state_iff api cluster c items e h =
      let q : find_install_state api cluster c package_name namespace
          ≡ find_in package_name namespace no_state items =
        ap (λ r. in_list api r (find_in package_name namespace no_state)) e in
      let ((a, b), d) =
        subst (λ r. Says ⊥ r items) (sym q)
          (find_in-Says items no_state ⊥ refl (λ x. cc, λ x. absurd x)) h in
      ((λ x. elim (a x) [ inl y ↦ absurd y | inr i ↦ i ], λ x. b (inr x)), d)
