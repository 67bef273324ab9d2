-- ===== src/Step.antt =====
-- The command `step` of prompt.go: single steps until the source line changes. A breakpoint that the
-- process stands behind is taken out for its instruction, and `defer` puts each one back at the end.
pub mod Rounds
pub mod Loop
pub mod Patched
pub mod Elsewhere
pub mod Stays
pub mod Arrives
use godbg.Common.{if◌then◌else◌, ℕ, zero, suc, Bool, true, false, ◌&&◌, Option, none, some}
use godbg.Common.Bytes.{Bytes, equal}
use godbg.Common.Int.{ℤ, pos, int_eq}
use godbg.Common.Result.{unknown_waitstatus, no_pc_register, Result, ok, err, panic}
use godbg.Output.{error, exited, current_pc}
use godbg.Bi.{Bi, pc_to_file_line}
use godbg.Target.{
  BInfo, WaitStatus, Os, Target, M, ◌>>=◌, ◌>>◌, pure, fail, lift, print, before,
  ptrace_single_step, wait_4, get_ptrace_pc, set_pc_register,
}
use godbg.Breakpoint.{find_break_point, enable_break_point, disable_break_point}
use godbg.Listing.{list_file_line_by_ptrace_pc}
use godbg.Executor.{pid_of, report, end_process, stops_here}

abbrev pub Place : Type 0
Place = Bytes × ℤ

abbrev pub same_place : Place → Place → Bool
same_place p q = equal p.0 q.0 && int_eq p.1 q.1

-- What a round finds before its step: another line, or the pc with the breakpoint that was taken out.
pub data Look : Type 0 where
  arrived : Look
  stay : ℕ → Option BInfo → Look

-- A run on fuel: `none` means that the fuel ran out.
abbrev pub Run : Type 0 → Type 0
Run W = Option (Result (Unit {0}) × Target W)

module _ (os : Os) where
  open os use {World}

  -- What `step` and `next` make of the status behind a single step: whether the command goes on.
  abbrev pub step_status : ℕ → WaitStatus → M World Bool
  step_status pid s =
      if s.exited
      then (do print (exited pid); end_process os; pure false)
      else if stops_here os s
      then pure true
      else fail unknown_waitstatus

  unfoldable pub step_once : ℕ → M World Bool
  step_once pid = do ptrace_single_step os pid; r ← wait_4 os pid; step_status pid r.1

  abbrev pub disarm_found : ℕ → ℕ → Option BInfo → M World Look
  disarm_found pid pc none = pure (stay pc none)
  disarm_found pid pc (some info) = do
    disable_break_point os pid (some info)
    pure (stay pc (some info))

  -- The breakpoint behind which the process stands.
  abbrev pub disarm : ℕ → ℕ → M World Look
  disarm pid pc t = disarm_found pid pc (find_break_point t.infos (before pc)) t

  unfoldable pub advance_over : ℕ → ℕ → Option BInfo → M World Bool
  advance_over pid pc none = step_once pid
  advance_over pid pc (some info) = do set_pc_register os (before pc); step_once pid

  -- `defer bp.enableBreakPoint(pid, info)`, if a breakpoint was taken out.
  unfoldable pub put_back : ℕ → Option BInfo → Run World → Run World
  put_back pid none o = o
  put_back pid (some info) none = none
  put_back pid (some info) (some (r, t)) = some (r, (enable_break_point os pid (some info) t).1)

  -- The rest of a loop behind a step.
  abbrev pub go_on : (Target World → Run World) → Result Bool → Target World → Run World
  go_on later (ok true) t = later t
  go_on later (ok false) t = some (ok tt, t)
  go_on later (err e) t = some (err e, t)
  go_on later panic t = some (panic, t)

  module _ (bi : Bi) where
    abbrev pub arrive : ℕ → M World Look
    arrive pc = do print (current_pc pc); list_file_line_by_ptrace_pc os bi (pos 6); pure arrived

    unfoldable pub look : ℕ → Place → M World Look
    look pid old = do
      pc ← get_ptrace_pc os
      place ← lift (pc_to_file_line bi pc)
      if same_place place old then disarm pid pc else arrive pc

    abbrev pub after_look : ℕ → (Target World → Run World) → Result Look → Target World → Run World
    after_look pid later (ok arrived) t = some (ok tt, t)
    after_look pid later (ok (stay pc info)) t =
        put_back pid info (let (r, t') = advance_over pid pc info t in go_on later r t')
    after_look pid later (err e) t = some (err e, t)
    after_look pid later panic t = some (panic, t)

    unfoldable pub step_loop : ℕ → ℕ → Place → Target World → Run World
    step_loop zero pid old t = none
    step_loop (suc fuel) pid old t =
        let later = λ (u : Target World). step_loop fuel pid old u in
        let (r, t') = look pid old t in after_look pid later r t'

    -- `getCurFileLineByPtracePc`: an error of the registers is printed, and another returned.
    abbrev place_after : Result ℕ → M World Place
    place_after (ok pc) = lift (pc_to_file_line bi pc)
    place_after (err e) = do print (error e); fail no_pc_register
    place_after panic = lift panic

    unfoldable pub get_cur_file_line_by_ptrace_pc : M World Place
    get_cur_file_line_by_ptrace_pc t = let (r, t') = get_ptrace_pc os t in place_after r t'

    abbrev pub reported_run : Run World → Run World
    reported_run none = none
    reported_run (some (r, t)) = some (report r t)

    abbrev step_from : ℕ → ℕ → Result Place → Target World → Run World
    step_from fuel pid (ok old) t = step_loop fuel pid old t
    step_from fuel pid (err e) t = some (err e, t)
    step_from fuel pid panic t = some (panic, t)

    -- `s`
    unfoldable pub step_command : ℕ → Target World → Run World
    unfolding step_loop get_cur_file_line_by_ptrace_pc
    step_command fuel t =
        let (r, t') = get_cur_file_line_by_ptrace_pc t in
        reported_run (step_from fuel (pid_of t.process) r t')
