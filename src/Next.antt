-- ===== src/Next.antt =====
-- The command `next` of prompt.go: single steps until the source line changes, where a call is run
-- through to the instruction behind it.
pub mod Rounds
pub mod Patched
use godbg.Common.{◌==◌, if◌then◌else◌, ℕ, zero, suc, Bool, true, false, Option, none, some}
use godbg.Common.Bytes.{Bytes}
use godbg.Common.Int.{pos}
use godbg.Common.Result.{Result, ok, err, panic}
use godbg.Bi.{Bi, pc_to_file_line}
use godbg.Target.{
  BInfo, Os, Target, M, ◌>>=◌, ◌>>◌, pure, lift, before, get_ptrace_pc, set_pc_register,
}
use godbg.Breakpoint.{find_break_point, is_some, disable_break_point}
use godbg.Listing.{list_file_line_by_ptrace_pc}
use godbg.Executor.{pid_of}
use godbg.Step.{Place, same_place, Run, step_once, put_back, reported_run}
use godbg.Asm.{Inst, get_single_mem_inst, behind_inst}

-- What a round returns: the command is over, or the loop goes on, within a call that returns to the
-- address, or outside one.
pub data Round : Type 0 where
  over : Round
  again : Option ℕ → Round

module _ (os : Os) (decode : Bytes → Result Inst) (bi : Bi) where
  open os use {World}

  abbrev pub list_here : M World Round
  list_here = do list_file_line_by_ptrace_pc os bi (pos 6); pure over

  -- A round that ends with the look at the line.
  abbrev pub on_line : Place → Place → M World Round
  on_line old place = if same_place place old then pure (again none) else list_here

  -- A step within a call.
  abbrev pub in_call : ℕ → Option ℕ → Bool → M World Round
  in_call pid calling true = pure (again calling)
  in_call pid calling false = pure over

  abbrev pub behind_step : ℕ → Place → Bool → M World Round
  behind_step next old true = lift (pc_to_file_line bi next) >>= on_line old
  behind_step next old false = pure over

  abbrev pub outside_call : ℕ → Place → ℕ → Inst → M World Round
  outside_call pid old pc inst =
      if inst.is_call
      then pure (again (some (behind_inst pc inst)))
      else step_once os pid >>= behind_step (behind_inst pc inst) old

  abbrev pub by_calling : ℕ → Place → ℕ → Option ℕ → M World Round
  by_calling pid old pc none = get_single_mem_inst os decode pid pc >>= outside_call pid old pc
  by_calling pid old pc (some fpc) =
      if pc == fpc
      then lift (pc_to_file_line bi pc) >>= on_line old
      else step_once os pid >>= in_call pid (some fpc)

  unfoldable pub next_round : ℕ → Place → Option ℕ → M World Round
  next_round pid old calling = do
    pc ← get_ptrace_pc os
    λ t.
        (if is_some (find_break_point t.infos (before pc))
            then list_here
            else by_calling pid old pc calling)
          t

  abbrev pub after_round :
      (Option ℕ → Target World → Run World) → Result Round → Target World → Run World
  after_round later (ok over) t = some (ok tt, t)
  after_round later (ok (again calling)) t = later calling t
  after_round later (err e) t = some (err e, t)
  after_round later panic t = some (panic, t)

  unfoldable pub next_loop : ℕ → ℕ → Place → Option ℕ → Target World → Run World
  next_loop zero pid old calling t = none
  next_loop (suc fuel) pid old calling t =
      let later = λ (c : Option ℕ) (u : Target World). next_loop fuel pid old c u in
      let (r, t') = next_round pid old calling t in after_round later r t'

  abbrev pub next_from : ℕ → ℕ → Result Place → Target World → Run World
  next_from fuel pid (ok old) t = next_loop fuel pid old none t
  next_from fuel pid (err e) t = some (err e, t)
  next_from fuel pid panic t = some (panic, t)

  -- Behind a breakpoint, the pc is set back to it, and the breakpoint is taken out until the end.
  abbrev pub taken_out : ℕ → BInfo → ℕ → M World (Unit {0})
  taken_out pid info pc = do set_pc_register os pc; disable_break_point os pid (some info)

  abbrev pub next_without : ℕ → ℕ → BInfo → ℕ → Result (Unit {0}) → Target World → Run World
  next_without fuel pid info pc (ok x) t =
      put_back os pid (some info) (next_from fuel pid (pc_to_file_line bi pc) t)
  next_without fuel pid info pc (err e) t = some (err e, t)
  next_without fuel pid info pc panic t = some (panic, t)

  abbrev pub next_at : ℕ → ℕ → ℕ → Option BInfo → Target World → Run World
  next_at fuel pid pc none t = next_from fuel pid (pc_to_file_line bi pc) t
  next_at fuel pid pc (some info) t =
      let (r, t') = taken_out pid info (before pc) t in next_without fuel pid info (before pc) r t'

  abbrev pub next_with_pc : ℕ → ℕ → Result ℕ → Target World → Run World
  next_with_pc fuel pid (ok pc) t = next_at fuel pid pc (find_break_point t.infos (before pc)) t
  next_with_pc fuel pid (err e) t = some (err e, t)
  next_with_pc fuel pid panic t = some (panic, t)

  -- `n`
  unfoldable pub next_command : ℕ → Target World → Run World
  unfolding next_loop
  next_command fuel t =
      let (r, t') = get_ptrace_pc os t in
      reported_run os bi (next_with_pc fuel (pid_of t.process) r t')
