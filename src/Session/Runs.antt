-- ===== src/Session/Runs.antt =====
-- `step`, `next` and `continue` lead from a safe state to a safe one.
use godbg.Common.{ℕ, ◌≡◌, refl, sym, ap, ◌⊎◌, inl, inr, Option, none, some}
use godbg.Common.Bytes.{Bytes}
use godbg.Common.Result.{Result}
use godbg.Target.{Os, Target}
use godbg.Bi.{Bi}
use godbg.Asm.{Inst}
use godbg.Breakpoint.Memory.{IsPatched}
use godbg.Listing.Keeps.{SameButOut}
use godbg.Executor.{continue_command}
use godbg.Executor.StepOver.{StepsOver}
use godbg.Executor.Continue.{continue_command-IsPatched}
use godbg.Step.{Run, get_cur_file_line_by_ptrace_pc, step_command}
use godbg.Step.Patched.{step_command-IsPatched}
use godbg.Next.{next_command}
use godbg.Next.Patched.{next_command-IsPatched}
use godbg.Session.{SystemLaws, IsSafe}
use godbg.Session.Views.{IsSameRun}
use mathlib.Core.Path.{subst}

module _ (os : Os) (pid : ℕ) (code : ℕ → Option ℕ) where
  open os use {World}

  abbrev pub Safe : Target World → Type 0
  Safe = IsSafe os pid code

  pub Safe-SameButOut : (t u : Target World) → SameButOut t u → Safe t → Safe u
  Safe-SameButOut t u s h = record {
    unique = rw (s.table) h.unique;
    users = rw (s.table) h.users;
    memory = rw (s.table) (rw (s.world) (rw (s.process) h.memory));
  }

  -- The outcomes of a run.
  abbrev pub SafeRun : Run World → Type 0
  SafeRun none = Unit
  SafeRun (some (r, u)) = Safe u

  pub SafeRun-IsSameRun : (t : Target World) (o : Run World) → IsSameRun t o → Safe t → SafeRun o
  SafeRun-IsSameRun t none s h = tt
  SafeRun-IsSameRun t (some (r, u)) s h = Safe-SameButOut t u s h

  -- A state whose table is that of a safe one.
  pub Safe-table :
      (t u : Target World)
      → Safe t
      → u.infos ≡ t.infos
      → (u.process ≡ none) ⊎ ((u.process ≡ some pid) × IsPatched os pid code t.infos u.world)
      → Safe u
  Safe-table t u h table memory = record {
    unique = rw table h.unique;
    users = rw table h.users;
    memory = rw table memory;
  }

  -- What holds of the states with no process holds of one that has none.
  pub gone_state :
      (P : Target World → Type 0) (t : Target World)
      → t.process ≡ none
      → P (record t { process = none })
      → P t
  gone_state P t gone h = subst P (ap (λ p. record t { process = p }) (sym gone)) h

  module _ (laws : SystemLaws os pid code) (bi : Bi) where
    step_gone :
        (fuel : ℕ) (t : Target World) → t.process ≡ none → IsSameRun t (step_command os bi fuel t)
    unfolding step_command get_cur_file_line_by_ptrace_pc
    step_gone fuel t gone =
        gone_state (λ t. IsSameRun t (step_command os bi fuel t)) t gone
          (record { world = refl; table = refl; process = refl })

    pub step_command-Safe :
        (fuel : ℕ) (t : Target World) → Safe t → SafeRun (step_command os bi fuel t)
    step_command-Safe fuel t h = elim h.memory [
      | inl gone ↦ SafeRun-IsSameRun t _ (step_gone fuel t gone) h
      | inr (runs, patched) ↦ cases (step_command os bi fuel t) refl runs patched
    ]
      where
        cases :
            (o : Run World)
            → step_command os bi fuel t ≡ o
            → t.process ≡ some pid
            → IsPatched os pid code t.infos t.world
            → SafeRun o
        cases none e runs patched = tt
        cases (some (r, u)) e runs patched =
            let (table, memory) =
              step_command-IsPatched os pid code t.infos laws.memory_laws laws.writable laws.text bi
                fuel t r u runs refl patched e in
            Safe-table t u h table memory

    next_gone :
        (decode : Bytes → Result Inst) (fuel : ℕ) (t : Target World)
        → t.process ≡ none
        → IsSameRun t (next_command os decode bi fuel t)
    unfolding next_command
    next_gone decode fuel t gone =
        gone_state (λ t. IsSameRun t (next_command os decode bi fuel t)) t gone
          (record { world = refl; table = refl; process = refl })

    pub next_command-Safe :
        (decode : Bytes → Result Inst) (fuel : ℕ) (t : Target World)
        → Safe t
        → SafeRun (next_command os decode bi fuel t)
    next_command-Safe decode fuel t h = elim h.memory [
      | inl gone ↦ SafeRun-IsSameRun t _ (next_gone decode fuel t gone) h
      | inr (runs, patched) ↦ cases (next_command os decode bi fuel t) refl runs patched
    ]
      where
        cases :
            (o : Run World)
            → next_command os decode bi fuel t ≡ o
            → t.process ≡ some pid
            → IsPatched os pid code t.infos t.world
            → SafeRun o
        cases none e runs patched = tt
        cases (some (r, u)) e runs patched =
            let (table, memory) =
              next_command-IsPatched os pid code t.infos laws.memory_laws laws.writable laws.text
                decode bi fuel t r u runs refl patched e in
            Safe-table t u h table memory

    continue_gone :
        (t : Target World) → t.process ≡ none → SameButOut t (continue_command os bi t).1
    unfolding continue_command
    continue_gone t gone =
        gone_state (λ t. SameButOut t (continue_command os bi t).1) t gone
          (record { world = refl; table = refl; process = refl })

    pub continue_command-Safe :
        StepsOver os pid code → (t : Target World) → Safe t → Safe (continue_command os bi t).1
    continue_command-Safe over t h = elim h.memory [
      | inl gone ↦ Safe-SameButOut t _ (continue_gone t gone) h
      | inr (runs, patched) ↦
          let (table, memory) =
            continue_command-IsPatched os pid code t.infos laws.memory_laws laws.writable laws.text
              over bi t runs refl patched in
          Safe-table t _ h table memory
    ]
