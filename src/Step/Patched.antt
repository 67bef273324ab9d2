-- ===== src/Step/Patched.antt =====
-- The command `step` as a whole, on a process whose memory carries the breakpoints of the table.
use godbg.Common.{ℕ, ◌≡◌, refl, ap, ◌⊎◌, inl, inr, Option, none, some, List, []}
use godbg.Common.Result.{Result, ok, err, panic}
use godbg.Target.{BInfo, Os, Target, get_ptrace_pc}
use godbg.Breakpoint.Memory.{MemoryLaws, IsWritable, IsPatched}
use godbg.Breakpoint.Loose.{TextLaws, IsLoose-IsPatched, IsPatched-IsLoose}
use godbg.Listing.Keeps.{SameButOut, get_ptrace_pc_state}
use godbg.Step.{
  Place, Run, get_cur_file_line_by_ptrace_pc, reported_run, step_command, place_after, step_from,
}
use godbg.Step.Rounds.{Ends-Running}
use godbg.Step.Loop.{Runs, Running-SameButOut, Leaves, step_loop-Leaves}
use godbg.Bi.{Bi}
use godbg.Executor.{pid_of}
use mathlib.Core.Path.{subst}

module _ (os : Os) (bi : Bi) where
  open os use {World}

  pub get_cur_file_line_by_ptrace_pc_same :
      (t : Target World) → SameButOut t (get_cur_file_line_by_ptrace_pc os bi t).1
  unfolding get_cur_file_line_by_ptrace_pc
  get_cur_file_line_by_ptrace_pc_same t =
      rw (get_ptrace_pc_state os t) (by_pc (get_ptrace_pc os t).0)
    where
      by_pc : (r : Result ℕ) → SameButOut t (place_after os bi r t).1
      by_pc (ok pc) = record { world = refl; table = refl; process = refl }
      by_pc (err e) = record { world = refl; table = refl; process = refl }
      by_pc panic = record { world = refl; table = refl; process = refl }

module _ (os : Os) (pid : ℕ) (code : ℕ → Option ℕ) (infos : List BInfo) (laws : MemoryLaws os pid)
    (writable : IsWritable os pid) (text : TextLaws os pid code) (bi : Bi) where
  open os use {World}

  pub reported_run-Leaves :
      (o : Run World)
      → Leaves os pid code infos laws writable text [] o
      → Leaves os pid code infos laws writable text [] (reported_run os bi o)
  reported_run-Leaves none h = tt
  reported_run-Leaves (some (ok x, u)) h = h
  reported_run-Leaves (some (err e, u)) h = record {
    table = h.table;
    process = elim (h.process) [
      | inl gone ↦ inl gone
      | inr k ↦ inr (record { runs = k.runs; table = k.table; loose = k.loose })
    ];
  }
  reported_run-Leaves (some (panic, u)) h = h

  step_command-Leaves :
      (fuel : ℕ) (t : Target World)
      → Runs os pid code infos laws writable text [] t
      → Leaves os pid code infos laws writable text [] (step_command os bi fuel t)
  unfolding step_command
  step_command-Leaves fuel t h =
      cases (get_cur_file_line_by_ptrace_pc os bi t).0 (get_cur_file_line_by_ptrace_pc os bi t).1 (
        Running-SameButOut os pid code infos laws writable text [] t _
          (get_cur_file_line_by_ptrace_pc_same os bi t) h)
    where
      cases :
          (r : Result Place) (u : Target World)
          → Runs os pid code infos laws writable text [] u
          → Leaves os pid code infos laws writable text []
              (reported_run os bi (step_from os bi fuel (pid_of t.process) r u))
      cases (ok old) u k = reported_run-Leaves _ (
          rw (ap pid_of h.runs)
            (step_loop-Leaves os pid code infos laws writable text bi fuel old [] u k))
      cases (err e) u k =
          reported_run-Leaves (some (err e, u))
            (Ends-Running os pid code infos laws writable text k)
      cases panic u k = Ends-Running os pid code infos laws writable text k

  -- What is left of a command that found the memory patched.
  pub Leaves-IsPatched :
      (o : Run World) (r : Result (Unit {0})) (u : Target World)
      → o ≡ some (r, u)
      → Leaves os pid code infos laws writable text [] o
      → (u.infos ≡ infos)
        × ((u.process ≡ none) ⊎ ((u.process ≡ some pid) × IsPatched os pid code infos u.world))
  Leaves-IsPatched o r u e h =
      let ended = subst (Leaves os pid code infos laws writable text []) e h in
      (
        ended.table,
        elim (ended.process) [
          | inl gone ↦ inl gone
          | inr k ↦ inr (k.runs, IsPatched-IsLoose os pid code infos u.world k.loose)
        ],
      )

  pub Running-IsPatched :
      (t : Target World)
      → t.process ≡ some pid
      → t.infos ≡ infos
      → IsPatched os pid code infos t.world
      → Runs os pid code infos laws writable text [] t
  Running-IsPatched t runs table patched = record {
    runs = runs;
    table = table;
    loose = IsLoose-IsPatched os pid code infos t.world patched;
  }

  -- Where the process runs, its memory is the text with the breakpoints of the table in it, the text
  -- can be written, and running the process changes no byte of its text: whatever `step` returns, the
  -- table is as it was, and there is no process any more, or the process runs and its memory is the
  -- text with the same breakpoints in it, so that each breakpoint that was taken out is back.
  pub step_command-IsPatched :
      (fuel : ℕ) (t : Target World) (r : Result (Unit {0})) (u : Target World)
      → t.process ≡ some pid
      → t.infos ≡ infos
      → IsPatched os pid code infos t.world
      → step_command os bi fuel t ≡ some (r, u)
      → (u.infos ≡ infos)
        × ((u.process ≡ none) ⊎ ((u.process ≡ some pid) × IsPatched os pid code infos u.world))
  step_command-IsPatched fuel t r u runs table patched e =
      Leaves-IsPatched _ r u e (step_command-Leaves fuel t (Running-IsPatched t runs table patched))
