-- ===== src/Deps/Trusted.antt =====
-- Manifest.validate of pkg/deps/manifest.go against what makes a manifest trusted.
use odh_cli.Base.{
  ◌≡◌, refl, ◌↔◌, ◌⊎◌, inl, inr, true, false, Bool, String, Option, none, some, List, [], ◌∷◌, ◌||◌,
  if◌then◌else◌, ◌==◌, arith, eq_iff, All, In, has, has→In, In→has, Bool-cases, Option-cases,
}
use odh_cli.Errors.{Error}
use odh_cli.Base.Strings.{has_prefix}
use odh_cli.Deps.{
  Dependency, OlmConfig, allowed_catalog_sources, validate_target_namespace, validate_targets,
  validate_olm_config, validate,
}

refused_iff :
    (a b : Bool) (err : Error)
    → (if a || b then some err else none) ≡ none ↔ (a ≡ false) × (b ≡ false)
refused_iff true b err = (λ h. cc, λ h. cc)
refused_iff false true err = (λ h. cc, λ h. cc)
refused_iff false false err = (λ h. (refl, refl), λ h. refl)

not_equal : (s t : String) → s == t ≡ false → s ≡ t → ⊥
not_equal s t e q = ground (arith, eq_iff s t)

module _ (label_errors : String → List String) where
  -- A DNS label that is the operator's own namespace or no namespace of the system.
  abbrev pub IsTarget : String → String → Type 0
  IsTarget operator ns =
      (label_errors ns ≡ [])
      × ((ns ≡ operator) ⊎ ((has_prefix ns "kube-" ≡ false) × (has_prefix ns "openshift-" ≡ false)))

  -- A source of the allow-list, and such target namespaces only.
  abbrev pub IsTrusted : OlmConfig → Type 0
  IsTrusted olm =
      In olm.source allowed_catalog_sources × All (IsTarget olm.namespace) olm.target_namespaces

  List-cases : (es : List String) → (es ≡ []) ⊎ ((x : String) × (xs : List String) × (es ≡ x ∷ xs))
  List-cases [] = inl refl
  List-cases (x ∷ xs) = inr (x, xs, refl)

  validate_target_namespace_iff :
      (dep ns operator : String)
      → validate_target_namespace label_errors dep ns operator ≡ none ↔ IsTarget operator ns
  unfolding validate_target_namespace
  validate_target_namespace_iff dep ns operator = elim (List-cases (label_errors ns)) [
    | inr (x, xs, e) ↦ rw (e, validate_target_namespace) (λ h. cc, λ h. cc)
    | inl e ↦ elim (Bool-cases (ns == operator)) [
      | inl f ↦
          rw (e, f, validate_target_namespace)
            (λ h. (refl, inl ((eq_iff ns operator).0 f)), λ h. refl)
      | inr f ↦
          rw (e, f, validate_target_namespace)
            (
              λ h. (refl, inr ((refused_iff _ _ _).0 h)),
              λ h. elim h.1 [
                | inl q ↦ absurd (not_equal ns operator f q)
                | inr k ↦ (refused_iff _ _ _).1 k
              ],
            )
    ]
  ]

  validate_targets_iff :
      (dep operator : String) (nss : List String)
      → validate_targets label_errors dep operator nss ≡ none ↔ All (IsTarget operator) nss
  unfolding validate_targets
  validate_targets_iff dep operator [] = (λ h. tt, λ h. refl)
  validate_targets_iff dep operator (ns ∷ nss) =
      let one = validate_target_namespace_iff dep ns operator in
      let rest = validate_targets_iff dep operator nss in
      elim (Option-cases (validate_target_namespace label_errors dep ns operator)) [
        | inl e ↦ rw (e, validate_targets) (λ h. (one.0 e, rest.0 h), λ h. rest.1 h.1)
        | inr (err, e) ↦ rw (e, validate_targets) (λ h. cc, λ h. absurd (failed err e (one.1 h.0)))
      ]
    where
      failed : (err : Error) {o : Option Error} → o ≡ some err → o ≡ none → ⊥
      failed err e f = cc

  validate_olm_config_iff :
      (dep : String) (olm : OlmConfig)
      → validate_olm_config label_errors dep olm ≡ none ↔ IsTrusted olm
  unfolding validate_olm_config
  validate_olm_config_iff dep olm = elim (Bool-cases (has allowed_catalog_sources olm.source)) [
    | inl e ↦
        let rest = validate_targets_iff dep olm.namespace olm.target_namespaces in
        (
          λ h. (
            has→In allowed_catalog_sources olm.source e,
            rest.0 (rw (e, validate_olm_config) at h),
          ),
          λ h. rw (e, validate_olm_config) (rest.1 h.1),
        )
    | inr e ↦ (
      λ h. let g = rw (e, validate_olm_config) at h in cc,
      λ h. absurd (unlisted e (In→has allowed_catalog_sources olm.source h.0)),
    )
  ]
    where
      unlisted : {b : Bool} → b ≡ false → b ≡ true → ⊥
      unlisted e f = cc

-- Manifest.validate accepts exactly the manifests in which every dependency has a catalog source of the
-- allow-list and only target namespaces that are DNS labels and no namespaces of the system, its own
-- operator namespace excepted.
pub validate_iff :
    (label_errors : String → List String) (deps : List (String × Dependency))
    → validate label_errors deps ≡ none ↔ All (λ d. IsTrusted label_errors d.1.olm) deps
unfolding validate
validate_iff label_errors [] = (λ h. tt, λ h. refl)
validate_iff label_errors ((name, dep) ∷ deps) =
    let one = validate_olm_config_iff label_errors name dep.olm in
    let rest = validate_iff label_errors deps in
    elim (Option-cases (validate_olm_config label_errors name dep.olm)) [
      | inl e ↦ rw (e, validate) (λ h. (one.0 e, rest.0 h), λ h. rest.1 h.1)
      | inr (err, e) ↦ rw (e, validate) (λ h. cc, λ h. absurd (failed err e (one.1 h.0)))
    ]
  where
    failed : (err : Error) {o : Option Error} → o ≡ some err → o ≡ none → ⊥
    failed err e f = cc
