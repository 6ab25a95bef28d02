-- ===== src/Olm/Modes.antt =====
-- The choice of an API in pkg/util/kube/olm/mode.go, for every answer of the discovery.
use odh_cli.Base.{
  ◌≡◌, refl, sym, ◌∙◌, ap, ◌↔◌, ◌⊎◌, inl, inr, Bool, true, false, Option, none, some,
}
use odh_cli.Errors.{Error}
use odh_cli.Errors.Returns.{Returns, ok, fail}
use odh_cli.Client.{NotFoundErrors}
use odh_cli.Olm.{
  Mode, v0, v1, Discovery, served, use_if, resolve_for, resolve_install_mode, err_unavailable,
}

-- The requested mode, or without a request v0 where it is served, and v1 where only v1 is.
abbrev pub IsChosen : NotFoundErrors → Discovery → Option Mode → Mode → Type 0
IsChosen api d (some r) m = (m ≡ r) × (served api d m ≡ ok true)
IsChosen api d none m =
    ((m ≡ v0) × (served api d v0 ≡ ok true))
    ⊎ ((m ≡ v1) × ((served api d v0 ≡ ok false) × (served api d v1 ≡ ok true)))

mode_of : Returns Mode → Mode
mode_of (ok m) = m
mode_of (fail e) = v0

ok-Mode : {a b : Mode} → Returns.ok a ≡ ok b → a ≡ b
unfolding mode_of
ok-Mode e = ap mode_of e

use_if_iff :
    (r : Returns Bool) (m n : Mode) (other : Returns Mode)
    → use_if r m other ≡ ok n ↔ ((n ≡ m) × (r ≡ ok true)) ⊎ ((r ≡ ok false) × (other ≡ ok n))
use_if_iff (fail e) m n other = (λ h. cc, λ x. elim x [ inl (h, k) ↦ cc | inr (h, k) ↦ cc ])
use_if_iff (ok true) m n other = (
  λ h. inl (sym (ok-Mode h), refl),
  λ x. elim x [ inl (h, k) ↦ ap (λ y. ok y) (sym h) | inr (h, k) ↦ cc ],
)
use_if_iff (ok false) m n other =
    (λ h. inr (refl, h), λ x. elim x [ inl (h, k) ↦ cc | inr (h, k) ↦ k ])

-- The mode r, if it is served, and else an error.
abbrev IsServed : NotFoundErrors → Discovery → Mode → Mode → Type 0
IsServed api d r m = (m ≡ r) × (served api d m ≡ ok true)

use_only :
    (api : NotFoundErrors) (d : Discovery) (r m : Mode) (err : Error)
    → use_if (served api d r) r (fail err) ≡ ok m ↔ IsServed api d r m
use_only api d r m err = (
  λ h. elim ((use_if_iff (served api d r) r m (fail err)).0 h) [
    | inl (p, q) ↦ (p, ap (served api d) p ∙ q)
    | inr (p, q) ↦ cc
  ],
  λ (p, q). (use_if_iff (served api d r) r m (fail err)).1 (inl (p, ap (served api d) (sym p) ∙ q)),
)

-- With a discovery client, ResolveInstallMode returns a mode exactly if it is the chosen one: a
-- requested mode that is served, or without a request v0 where it is served, and v1 where the
-- discovery finds v1 and no v0. A request is never answered with the other mode.
pub resolve_install_mode_iff :
    (api : NotFoundErrors) (d : Discovery) (requested : Option Mode) (m : Mode)
    → resolve_install_mode api (some d) requested ≡ ok m ↔ IsChosen api d requested m
unfolding resolve_install_mode resolve_for
resolve_install_mode_iff api d (some v0) m = use_only api d v0 m _
resolve_install_mode_iff api d (some v1) m = use_only api d v1 m _
resolve_install_mode_iff api d none m =
    let first = use_if_iff (served api d v0) v0 m _ in
    let second = use_only api d v1 m err_unavailable in
    (
      λ h. elim (first.0 h) [
        | inl x ↦ inl x
        | inr (e, k) ↦ let (p, q) = second.0 k in inr (p, (e, ap (served api d) (sym p) ∙ q))
      ],
      λ x. elim x [
        | inl y ↦ first.1 (inl y)
        | inr (p, (e, q)) ↦ first.1 (inr (e, second.1 (p, ap (served api d) p ∙ q)))
      ],
    )
