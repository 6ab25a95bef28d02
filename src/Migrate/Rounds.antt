-- ===== src/Migrate/Rounds.antt =====
-- One round of the run command: its item, its end, and the count of the failures.
use odh_cli.Base.{
  ◌≡◌, ◌⊎◌, inl, inr, refl, ap, String, Bool, true, false, none, some, List, [], ◌∷◌, ◌≢◌,
  if◌then◌else◌, ltb, arith, Bool-cases,
}
use Prim.Native.String.{◌++◌}
use mathlib.Core.List.{◌++◌ as ◌+++◌}
use odh_cli.Errors.{Error, text}
use odh_cli.Migrate.Result.{ActionResult}
use odh_cli.Migrate.Registry.{Answer}
use odh_cli.Migrate.Run.{
  MigrationResultItem, round_done, round_stopped, item_of, validation_failure, round_of,
  count_errors, failures_error,
}

pub count_errors-append :
    (items : List MigrationResultItem) (item : MigrationResultItem)
    → ltb 0 (count_errors (items +++ item ∷ []))
      ≡ (if item.has_failed then true else ltb 0 (count_errors items))
unfolding count_errors
count_errors-append [] item = elim (Bool-cases item.has_failed) [
  | inl e ↦ rw e refl
  | inr e ↦ rw e refl
]
count_errors-append (m ∷ ms) item = ground (arith, count_errors-append ms item)

pub completed_round :
    (id : String) (mismatch : Bool) (r : ActionResult)
    → r.completed ≡ true
    → round_of id mismatch (some r, none) ≡ round_done (item_of id r mismatch)
completed_round id mismatch r c =
    ap
      (λ b.
        if b
        then round_done (item_of id r mismatch)
        else round_stopped (validation_failure (text ("migration halted: " ++ id))))
      c

pub stopped_no_item :
    (err : Error) (item : MigrationResultItem) → round_stopped err ≢ round_done item
stopped_no_item err item h = cc

-- An answer that ends its round with no item.
abbrev pub IsNoItem : Answer → Type 0
IsNoItem answer =
    (id : String) (mismatch : Bool) (item : MigrationResultItem)
    → round_of id mismatch answer ≢ round_done item

pub answer-cases :
    {W : Type 0} (p : Answer × W)
    → ((r : ActionResult) × (w' : W) × (p ≡ ((some r, none), w')) × (r.completed ≡ true))
      ⊎ ((answer : Answer) × (w' : W) × (p ≡ (answer, w')) × IsNoItem answer)
answer-cases ((r, some err), w') = inr ((r, some err), w', refl, λ id mismatch item h. cc)
answer-cases ((none, none), w') = inr ((none, none), w', refl, λ id mismatch item h. cc)
answer-cases ((some r, none), w') = elim (Bool-cases r.completed) [
  | inl c ↦ inl (r, w', refl, c)
  | inr c ↦ inr ((some r, none), w', refl, λ id mismatch item h. halted r id mismatch item c h)
]
  where
    halted :
        (r : ActionResult) (id : String) (mismatch : Bool) (item : MigrationResultItem)
        → r.completed ≡ false
        → round_of id mismatch (some r, none) ≡ round_done item
        → ⊥
    halted r id mismatch item c h = ground arith

pub no_failures :
    (failures : Bool)
    → some (if failures then some failures_error else none) ≡ some none
    → failures ≡ false
no_failures true h = cc
no_failures false h = refl

pub both_false : (a b : Bool) → (if a then true else b) ≡ false → (a ≡ false) × (b ≡ false)
both_false true b h = absurd (cc)
both_false false b h = (refl, h)
