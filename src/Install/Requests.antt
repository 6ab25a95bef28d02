-- ===== src/Install/Requests.antt =====
-- What `deps install` creates (pkg/deps/install.go) against what `deps` looks for before it installs and
-- when it checks (install.go, check.go, olm_state.go).
use odh_cli.Base.{
  ℕ, ◌≡◌, ◌≢◌, refl, sym, ◌∙◌, ap, subst, inl, inr, String, Bool, true, false, not, Option, none,
  some, List, [], ◌∷◌, if◌then◌else◌, ◌==◌, arith, eq_iff, eq_refl, Bool-cases,
}
use odh_cli.Errors.{Error}
use odh_cli.Errors.Tables.{ApiErrors}
use odh_cli.Errors.Returns.{Returns, ok, fail, ok-injective}
use odh_cli.Client.{NotFoundErrors}
use odh_cli.Olm.{v0}
use odh_cli.Deps.Listing.{DependencyInfo}
use odh_cli.Install.{
  Query, found, absent, Subscription, ClusterExtension, Cluster, InstallCommand, by_mode,
}
use odh_cli.Install.Extensions.{cluster_extension_matches}
use odh_cli.Install.Select.{
  get_subscription, is_installed_v0, installed_if, is_requested_v1, is_already_installed,
}
use odh_cli.Install.Create.{
  settle, and_then, wrap_error, with_watch_namespace, extension_for, too_many_targets,
  subscription_for, cluster_extension, create_namespace, ensure_operator_group, create_subscription,
  verify_existing_subscription, create_dep_resources_v0, create_dep_resources_v1,
  create_dep_resources,
}

with_watch_namespace_cases :
    (f : Query String → ClusterExtension) (err : Error) (targets : List String)
    (e : ClusterExtension) (P : ClusterExtension → Type 0)
    → ((q : Query String) → P (f q))
    → with_watch_namespace f err targets ≡ ok e
    → P e
with_watch_namespace_cases f err [] e P p h = subst P (ok-injective h) (p absent)
with_watch_namespace_cases f err (ns ∷ []) e P p h = subst P (ok-injective h) (p (found ns))
with_watch_namespace_cases f err (ns ∷ ns' ∷ rest) e P p h = absurd (cc)

pub installed_if-some :
    (r : Returns (Option Subscription)) (wrap : Error → Error) (otherwise : Returns Bool)
    (sub : Subscription)
    → r ≡ ok (some sub)
    → installed_if r wrap otherwise ≡ ok true
installed_if-some (fail err) wrap otherwise sub e = absurd (cc)
installed_if-some (ok none) wrap otherwise sub e = absurd (cc (ok-injective e))
installed_if-some (ok (some s)) wrap otherwise sub e = refl

matches_found :
    (e : ClusterExtension) (package_name namespace : String)
    → e.install_namespace ≡ found namespace
    → e.source_type ≡ found "Catalog"
    → e.package_name ≡ found package_name
    → cluster_extension_matches e package_name namespace ≡ ok true
unfolding cluster_extension_matches
matches_found e package_name namespace a b c = elim (Bool-cases (namespace == "")) [
  | inl k ↦ rw (a, b, c, k, eq_refl package_name) refl
  | inr k ↦ rw (a, b, c, k, eq_refl namespace, eq_refl package_name) refl
]

if_cases :
    {C : Type 0} (b : Bool) (P : C → Type 0) (x y : C × Option Error)
    → (x.1 ≡ none → P x.0)
    → (y.1 ≡ none → P y.0)
    → (if b then x else y).1 ≡ none
    → P (if b then x else y).0
if_cases true P x y f g h = f h
if_cases false P x y f g h = g h

wrap_error-none :
    {A : Type 0} (wrap : Error → Error) (r : Returns A)
    → wrap_error wrap r ≡ none
    → (a : A) × (r ≡ ok a)
wrap_error-none wrap (ok a) h = (a, refl)
wrap_error-none wrap (fail err) h = absurd (cc)

-- A creation that ends well has created the object or found it.
settle_cases :
    {C : Type 0} (api : ApiErrors) (wrap : Error → Error) (look : C → Option Error) (P : C → Type 0)
    (r : C × Option Error)
    → (r.1 ≡ none → P r.0)
    → ((c : C) → look c ≡ none → P c)
    → (settle api wrap look r).1 ≡ none
    → P (settle api wrap look r).0
settle_cases api wrap look P (c, none) f g h = f refl
settle_cases api wrap look P (c, some err) f g h =
    if_cases (not (api.is_already_exists err)) P _ _ (λ e. absurd (cc)) (g c) h

and_then_cases :
    {C : Type 0} (P : C → Type 0) (r : C × Option Error) (next : C → C × Option Error)
    → ((c : C) → (next c).1 ≡ none → P (next c).0)
    → (and_then r next).1 ≡ none
    → P (and_then r next).0
and_then_cases P (c, none) next f h = f c h
and_then_cases P (c, some err) next f h = absurd (cc)

-- A ClusterExtension that clusterExtension returns for a dependency matches the package and the
-- namespace of that dependency.
pub cluster_extension-matches :
    (print : ℕ → String) (c : InstallCommand) (dep : DependencyInfo) (e : ClusterExtension)
    → cluster_extension print c dep ≡ ok e
    → cluster_extension_matches e dep.subscription dep.namespace ≡ ok true
unfolding cluster_extension
cluster_extension-matches print c dep e h =
    with_watch_namespace_cases (extension_for c dep) (too_many_targets print dep)
      dep.target_namespaces e
      (λ x. cluster_extension_matches x dep.subscription dep.namespace ≡ ok true)
      (λ q. matches_found (extension_for c dep q) dep.subscription dep.namespace refl refl refl) h

module _ {C : Type 0} (api : ApiErrors) (not_found : NotFoundErrors) (cluster : Cluster C) where
  pub is_already_installed-v0 :
      (command : InstallCommand) (c : C) (dep : DependencyInfo)
      → command.selected ≡ some v0
      → is_installed_v0 api not_found cluster c dep ≡ ok true
      → is_already_installed api not_found cluster c command dep ≡ ok true
  unfolding is_already_installed
  is_already_installed-v0 command c dep m h =
      ap
        (λ o.
          by_mode o (is_requested_v1 not_found cluster c dep)
            (is_installed_v0 api not_found cluster c dep))
        m
      ∙ h

module _ {C : Type 0} (api : ApiErrors) (not_found : NotFoundErrors) (cluster : Cluster C)
    (print : List String → String) (print_number : ℕ → String) where
  -- What the API server promises: a Subscription that was created can be read.
  abbrev pub KeepsSubscriptions : Type 0
  KeepsSubscriptions =
      (c : C) (s : Subscription)
      → (cluster.create_subscription c s).1 ≡ none
      → (r : Subscription) × (cluster.get_subscription (cluster.create_subscription c s).0
            s.namespace s.name
          ≡ ok r)

  abbrev IsReadable : C → DependencyInfo → Type 0
  IsReadable c dep =
      (r : Subscription) × (cluster.get_subscription c dep.namespace dep.subscription ≡ ok r)

  IsReadable-verified :
      (c : C) (dep : DependencyInfo)
      → verify_existing_subscription api cluster print print_number c dep ≡ none
      → IsReadable c dep
  unfolding verify_existing_subscription
  IsReadable-verified c dep h = wrap_error-none _ _ h

  create_subscription-IsReadable :
      (c : C) (dep : DependencyInfo)
      → KeepsSubscriptions
      → (create_subscription api cluster print print_number c dep).1 ≡ none
      → IsReadable (create_subscription api cluster print print_number c dep).0 dep
  unfolding create_subscription
  create_subscription-IsReadable c dep k h =
      settle_cases api _ _ (λ c'. IsReadable c' dep)
        (cluster.create_subscription c (subscription_for dep)) (k c (subscription_for dep))
        (λ c'. IsReadable-verified c' dep) h

  create_dep_resources_v0-IsReadable :
      (c : C) (dep : DependencyInfo)
      → KeepsSubscriptions
      → (create_dep_resources_v0 api cluster print print_number c dep).1 ≡ none
      → IsReadable (create_dep_resources_v0 api cluster print print_number c dep).0 dep
  unfolding create_dep_resources_v0
  create_dep_resources_v0-IsReadable c dep k h =
      and_then_cases (λ c'. IsReadable c' dep)
        (create_namespace api cluster print print_number c dep.namespace) _
        (λ c₁.
          and_then_cases (λ c'. IsReadable c' dep)
            (ensure_operator_group api cluster print print_number c₁ dep.namespace
              dep.target_namespaces)
            _ (λ c₂. create_subscription-IsReadable c₂ dep k))
        h

  get_subscription-IsReadable :
      (c : C) (dep : DependencyInfo)
      → dep.namespace == "" ≡ false
      → dep.subscription == "" ≡ false
      → IsReadable c dep
      → (sub : Subscription) × (get_subscription not_found cluster c dep.namespace dep.subscription
          ≡ ok (some sub))
  unfolding get_subscription
  get_subscription-IsReadable c dep n s (r, e) = (r, rw (n, s, e) refl)

  is_installed_v0-IsReadable :
      (c : C) (dep : DependencyInfo)
      → dep.namespace == "" ≡ false
      → dep.subscription == "" ≡ false
      → IsReadable c dep
      → is_installed_v0 api not_found cluster c dep ≡ ok true
  unfolding is_installed_v0
  is_installed_v0-IsReadable c dep n s r =
      let (sub, e) = get_subscription-IsReadable c dep n s r in installed_if-some _ _ _ sub e

  not_empty : (s : String) → s ≢ "" → s == "" ≡ false
  not_empty s n = ground (arith, eq_iff s "")

  -- If the API server keeps the Subscriptions that it creates, and createDepResources succeeds in mode
  -- v0 for a dependency with a namespace and a subscription, then isAlreadyInstalled finds the
  -- dependency in the state after it, so that a second run does not install it again.
  pub create_dep_resources-is_already_installed :
      (command : InstallCommand) (c : C) (dep : DependencyInfo)
      → KeepsSubscriptions
      → command.selected ≡ some v0
      → dep.namespace ≢ ""
      → dep.subscription ≢ ""
      → (create_dep_resources api cluster print print_number command c dep).1 ≡ none
      → is_already_installed api not_found cluster
          (create_dep_resources api cluster print print_number command c dep).0
          command
          dep
        ≡ ok true
  unfolding create_dep_resources
  create_dep_resources-is_already_installed command c dep k m n s h =
      let q : create_dep_resources api cluster print print_number command c dep
          ≡ create_dep_resources_v0 api cluster print print_number c dep =
        ap
          (λ o.
            by_mode o (create_dep_resources_v1 api cluster print print_number command c dep)
              (create_dep_resources_v0 api cluster print print_number c dep))
          m in
      let r = create_dep_resources_v0-IsReadable c dep k (ap (λ x. x.1) (sym q) ∙ h) in
      is_already_installed-v0 api not_found cluster command
        (create_dep_resources api cluster print print_number command c dep).0 dep m
        (is_installed_v0-IsReadable _ dep (not_empty dep.namespace n) (not_empty dep.subscription s)
          (subst (λ x. IsReadable x.0 dep) (sym q) r))
