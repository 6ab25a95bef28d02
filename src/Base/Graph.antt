-- ===== src/Base/Graph.antt =====
-- Reachability in a finite graph given by its successor lists.
use odh_cli.Base.Lists.{In}
use mathlib.Core.List.{List}

module _ {A : Type 0} (next : A → List A) where
  -- `Reach a b`: a path of any length, also none, leads from a to b.
  pub data Reach (a : A) : A → Type 0 where
    here : Reach a a
    step : {b c : A} → Reach a b → In c (next b) → Reach a c

  -- What holds at the start and passes along each edge holds of all that is reached.
  pub Reach-closed :
      (V : A → Type 0) {a b : A} → V a → ((x y : A) → V x → In y (next x) → V y) → Reach a b → V b
  Reach-closed V start keeps here = start
  Reach-closed V start keeps (step {b} {c} r i) = keeps b c (Reach-closed V start keeps r) i
