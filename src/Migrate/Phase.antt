-- ===== src/Migrate/Phase.antt =====
-- pkg/migrate/phase.go: the phase of a migration, and the migrations of a phase.
use odh_cli.Base.{String, Bool, Option, none, some, List, [], ◌∷◌, keep, if◌then◌else◌, ◌==◌, quote}
use Prim.Native.String.{◌++◌}
use odh_cli.Errors.{Error, text, wrapped}
use odh_cli.Lint.Check.{Returns, ok, fail}
use odh_cli.Migrate.Registry.{Action, list_all}

abbrev pub phase_pre_upgrade : String
phase_pre_upgrade = "pre-upgrade"

abbrev pub phase_post_upgrade : String
phase_post_upgrade = "post-upgrade"

abbrev pub phase_pre_enablement : String
phase_pre_enablement = "pre-enablement"

-- ActionPhase.Validate
unfoldable pub validate_phase : String → Option Error
validate_phase p =
    if p == phase_pre_upgrade
    then none
    else if p == phase_post_upgrade
    then none
    else if p == phase_pre_enablement
    then none
    else if p == ""
    then none
    else some (
        text (
          "invalid phase "
          ++ (quote p ++ ": must be one of: pre-upgrade, post-upgrade, pre-enablement")))

-- DetectPhase, over the versions of the semver package with their LT.
unfoldable pub detect_phase : {V : Type 0} → (V → V → Bool) → Option V → Option V → Returns String
detect_phase lt none target = fail (text "current version is required for phase detection")
detect_phase lt (some current) none = fail (text "target version is required for phase detection")
detect_phase lt (some current) (some target) =
    ok (if lt current target then phase_pre_upgrade else phase_post_upgrade)

module _ {T W : Type 0} where
  -- filterByPhase
  unfoldable pub filter_by_phase : List (Action T W) → String → List (Action T W)
  filter_by_phase actions phase =
      if phase == "" then actions else keep (λ (a : Action T W). a.phase == phase) actions

  -- The loop over the actions of the phase.
  abbrev pub applicable_ids : T → W → List (Action T W) → List String
  applicable_ids target w [] = []
  applicable_ids target w (a ∷ actions) =
      if a.can_apply target w
      then a.id ∷ applicable_ids target w actions
      else applicable_ids target w actions

  -- The migrations: the given ones, or else those of the phase that apply.
  abbrev pub migrations_of : List (Action T W) → T → W → List String → String → List String
  unfolding filter_by_phase list_all
  migrations_of registry target w (id ∷ ids) phase = id ∷ ids
  migrations_of registry target w [] phase =
      applicable_ids target w (filter_by_phase (list_all registry) phase)

-- The phase: the given one, or else the detected one.
abbrev pub effective_phase :
    {V : Type 0} → (V → V → Bool) → String → Option V → Option V → Returns String
unfolding detect_phase
effective_phase lt parsed current target =
    if parsed == ""
    then elim (detect_phase lt current target) [
      | ok p ↦ ok p
      | fail e ↦ fail (wrapped "detecting phase: " e "")
    ]
    else ok parsed

-- resolvePhaseAndMigrations
unfoldable pub resolve_phase_and_migrations :
    {V T W : Type 0}
    → (V → V → Bool)
    → List (Action T W)
    → T
    → W
    → String
    → List String
    → Option V
    → Option V
    → Returns (String × List String)
unfolding filter_by_phase list_all
resolve_phase_and_migrations lt registry target w parsed ids current wanted =
    elim (effective_phase lt parsed current wanted) [
      | fail e ↦ fail e
      | ok phase ↦ ok (phase, migrations_of registry target w ids phase)
    ]
