-- ===== src/Next/Patched.antt =====
-- The command `next` as a whole, on a process whose memory carries the breakpoints of the table.
use godbg.Common.{ℕ, zero, suc, ◌≡◌, refl, sym, ap, ◌∙◌, ◌⊎◌, Option, none, some, List, [], ◌∷◌}
use godbg.Common.Bytes.{Bytes}
use godbg.Common.Result.{Result, ok, err, panic}
use godbg.Target.{BInfo, Os, Target, after, before, get_ptrace_pc, set_pc_register}
use godbg.Breakpoint.{find_break_point, disable_break_point}
use godbg.Breakpoint.Memory.{MemoryLaws, IsWritable, IsPatched}
use godbg.Breakpoint.Loose.{TextLaws, find_break_point_at, disable_break_point-IsLoose}
use godbg.Executor.{pid_of}
use godbg.Bi.{Bi, pc_to_file_line}
use godbg.Asm.{Inst}
use godbg.Step.{Place, Run}
use godbg.Step.Rounds.{Ends-Running, get_ptrace_pc-Running, set_pc_register-Running}
use godbg.Step.Loop.{Runs, Leaves, put_back-Leaves}
use godbg.Step.Patched.{reported_run-Leaves, Leaves-IsPatched, Running-IsPatched}
use godbg.Next.{
  Round, over, again, after_round, next_loop, next_from, next_without, next_at, next_with_pc,
  next_command,
}
use godbg.Next.Rounds.{RoundKeeps, next_round-RoundKeeps}

module _ (os : Os) (pid : ℕ) (code : ℕ → Option ℕ) (infos : List BInfo) (laws : MemoryLaws os pid)
    (writable : IsWritable os pid) (text : TextLaws os pid code) (decode : Bytes → Result Inst)
    (bi : Bi) where
  open os use {World}

  abbrev Here : List ℕ → Target World → Type 0
  Here = Runs os pid code infos laws writable text

  abbrev Left : List ℕ → Run World → Type 0
  Left = Leaves os pid code infos laws writable text

  after_round-Left :
      (away : List ℕ) (later : Option ℕ → Target World → Run World) (r : Result Round)
      (t : Target World)
      → RoundKeeps os pid code infos laws writable text decode bi away (r, t)
      → ((c : Option ℕ) (u : Target World) → Here away u → Left away (later c u))
      → Left away (after_round os decode bi later r t)
  after_round-Left away later (ok over) t h k = h.0
  after_round-Left away later (ok (again c)) t h k = k c t (h.1 c refl)
  after_round-Left away later (err e) t h k = h.0
  after_round-Left away later panic t h k = h.0

  next_loop-Left :
      (fuel : ℕ) (away : List ℕ) (old : Place) (calling : Option ℕ) (t : Target World)
      → Here away t
      → Left away (next_loop os decode bi fuel pid old calling t)
  unfolding next_loop
  next_loop-Left zero away old calling t h = tt
  next_loop-Left (suc fuel) away old calling t h =
      after_round-Left away (λ c u. next_loop os decode bi fuel pid old c u) _ _
        (next_round-RoundKeeps os pid code infos laws writable text decode bi away old calling t h)
        (λ c u k. next_loop-Left fuel away old c u k)

  next_from-Left :
      (fuel : ℕ) (away : List ℕ) (r : Result Place) (t : Target World)
      → Here away t
      → Left away (next_from os decode bi fuel pid r t)
  next_from-Left fuel away (ok old) t h = next_loop-Left fuel away old none t h
  next_from-Left fuel away (err e) t h = Ends-Running os pid code infos laws writable text h
  next_from-Left fuel away panic t h = Ends-Running os pid code infos laws writable text h

  -- Behind the breakpoint that is taken out first.
  next_at-Left :
      (fuel pc : ℕ) (o : Option BInfo) (t : Target World)
      → find_break_point infos (before pc) ≡ o
      → Here [] t
      → Left [] (next_at os decode bi fuel pid pc o t)
  next_at-Left fuel pc none t found h = next_from-Left fuel [] (pc_to_file_line bi pc) t h
  next_at-Left fuel pc (some v) t found h =
      behind_set (set_pc_register os (before pc) t).0 (set_pc_register os (before pc) t).1
        (set_pc_register-Running os pid code infos laws writable text [] (before pc) t h)
    where
      found_at : find_break_point infos v.pc ≡ some v
      found_at = ap (find_break_point infos) (find_break_point_at infos (before pc) v found) ∙ found

      disabled :
          (u : Target World)
          → Here [] u
          → Left [] (
              next_without os decode bi fuel pid v
                (before pc)
                (disable_break_point os pid (some v) u).0
                (disable_break_point os pid (some v) u).1)
      disabled u k =
          let (w, done, loose') =
            disable_break_point-IsLoose os pid code infos laws writable [] v u found_at k.loose in
          rw done (
            put_back-Leaves os pid code infos laws writable text [] v _ found_at (
              next_from-Left fuel (v.pc ∷ []) (pc_to_file_line bi (before pc)) _
                (record { runs = k.runs; table = k.table; loose = loose' })))

      behind_set :
          (r : Result (Unit {0})) (u : Target World)
          → Here [] u
          → Left [] (
              let p = after (λ _. disable_break_point os pid (some v)) r u in
              next_without os decode bi fuel pid v (before pc) p.0 p.1)
      behind_set (ok x) u k = disabled u k
      behind_set (err e) u k = Ends-Running os pid code infos laws writable text k
      behind_set panic u k = Ends-Running os pid code infos laws writable text k

  next_command-Left :
      (fuel : ℕ) (t : Target World) → Here [] t → Left [] (next_command os decode bi fuel t)
  unfolding next_command
  next_command-Left fuel t h = reported_run-Leaves os pid code infos laws writable text bi _ (
      rw (ap pid_of h.runs) (
        at_pc (get_ptrace_pc os t).0 (get_ptrace_pc os t).1
          (rw (get_ptrace_pc-Running os pid code infos laws writable text [] t h) h)))
    where
      at_pc :
          (r : Result ℕ) (u : Target World)
          → Here [] u
          → Left [] (next_with_pc os decode bi fuel pid r u)
      at_pc (ok pc) u k =
          next_at-Left fuel pc _ u (sym (ap (λ l. find_break_point l (before pc)) k.table)) k
      at_pc (err e) u k = Ends-Running os pid code infos laws writable text k
      at_pc panic u k = Ends-Running os pid code infos laws writable text k

  -- Where the process runs, its memory is the text with the breakpoints of the table in it, the text can
  -- be written, and running the process changes no byte of its text: whatever `next` returns, the table
  -- is as it was, and there is no process any more, or the process runs and its memory is the text with
  -- the same breakpoints in it, so that the breakpoint that was taken out is back.
  pub next_command-IsPatched :
      (fuel : ℕ) (t : Target World) (r : Result (Unit {0})) (u : Target World)
      → t.process ≡ some pid
      → t.infos ≡ infos
      → IsPatched os pid code infos t.world
      → next_command os decode bi fuel t ≡ some (r, u)
      → (u.infos ≡ infos)
        × ((u.process ≡ none) ⊎ ((u.process ≡ some pid) × IsPatched os pid code infos u.world))
  next_command-IsPatched fuel t r u runs table patched e =
      Leaves-IsPatched os pid code infos laws writable text bi _ r u e (
        next_command-Left fuel t
          (Running-IsPatched os pid code infos laws writable text bi t runs table patched))
