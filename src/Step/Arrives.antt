-- ===== src/Step/Arrives.antt =====
-- Where `step` ends: on another line, behind the end of the process, or with an error.
use godbg.Common.{ℕ, ◌≡◌, ◌⊎◌, Bool, false, none, some, List, [], ◌∷◌, ◌++◌}
use godbg.Common.Result.{Error, Result, ok, err, panic}
use godbg.Output.{Message, error}
use godbg.Target.{Os, Target}
use godbg.Bi.{Bi}
use godbg.Step.{Place, Run}
use godbg.Step.Elsewhere.{HasLeft}
use godbg.Step.Stays.{Stays}

module _ (os : Os) where
  open os use {World, wait4, single_step}

  module _ (bi : Bi) (old : Place) where
    -- An outcome without an error.
    abbrev Comes : Run World → Type 0
    Comes none = Unit
    Comes (some (ok x, u)) = HasLeft os bi old u
    Comes (some (err e, u)) = Unit
    Comes (some (panic, u)) = Unit

    -- A step that does not go on has seen the end of the process.
    abbrev EndsIt : Result Bool × Target World → Type 0
    EndsIt p = p.0 ≡ ok false → p.1.process ≡ none

  module _ (bi : Bi) where
    -- How `step` ends: with another line, with a panic of the debugger, or with an error that it prints last.
    abbrev pub EndsWell : Place → Result (Unit {0}) × Target World → Type 0
    EndsWell old p =
        HasLeft os bi old p.1
        ⊎ ((p.0 ≡ panic)
            ⊎ ((e : Error) × (printed : List Message) × (p.1.out ≡ printed ++ (error e ∷ []))))

    -- What a run on `fuel` comes to.
    abbrev pub Outcome : ℕ → ℕ → Place → Target World → Run World → Type 0
    Outcome pid fuel old t o =
        ((o ≡ none) × Stays os bi pid old fuel t)
        ⊎ ((p : Result (Unit {0}) × Target World) × (o ≡ some p) × EndsWell old p)
