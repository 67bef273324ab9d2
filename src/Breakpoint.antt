-- ===== src/Breakpoint.antt =====
-- breakpoint.go: the table of breakpoints and the bytes that they patch.
pub mod Table
pub mod Memory
pub mod Patched
pub mod FileLine
pub mod Loose
use godbg.Common.{
  ℕ, Bool, true, false, not, ◌&&◌, Option, none, some, List, [], ◌∷◌, ◌++◌, ◌==◌, if◌then◌else◌,
}
use godbg.Common.Bytes.{Bytes}
use godbg.Common.Int.{ℤ, pos}
use godbg.Common.Result.{
  Result, ok, err, panic, Error, has_existed_break_point, null_breakpoint, unknown_waitstatus,
}
use godbg.Bi.{Bi, file_line_to_pc_for_break_point}
use godbg.Target.{
  lift, Os, BInfo, BpKind, user, internal, Target, M, ◌>>=◌, ◌>>◌, pure, fail, deferred, before,
  peek_data, poke_data, ptrace_single_step, wait_4, get_ptrace_pc, set_pc_register, call,
  WaitStatus,
}

abbrev pub is_user : BpKind → Bool
is_user user = true
is_user internal = false

-- `for _, v := range bp.infos { if v.pc == pc { return v, true } }`
unfoldable pub find_break_point : List BInfo → ℕ → Option BInfo
find_break_point [] pc = none
find_break_point (v ∷ vs) pc = if v.pc == pc then some v else find_break_point vs pc

abbrev pub is_some {ℓ} : {A : Type ℓ} → Option A → Bool
is_some none = false
is_some (some a) = true

-- `infos` without the internal breakpoint at `pc`.
abbrev pub keeps : ℕ → BInfo → Bool
keeps pc v = not (not (is_user v.kind) && v.pc == pc)

unfoldable pub cleared : ℕ → List BInfo → List BInfo
cleared pc [] = []
cleared pc (v ∷ vs) = let rest = cleared pc vs in if keeps pc v then v ∷ rest else rest

abbrev pub sigtrap : ℕ
sigtrap = 5

module _ (os : Os) where
  open os use {World, cont}

  -- The byte that the breakpoint replaces, which is saved before 0xCC is written.
  unfoldable pub set_pc_break_point : ℕ → ℕ → M World Bytes
  unfolding find_break_point
  set_pc_break_point pid pc t =
      if is_some (find_break_point t.infos pc)
      then (err has_existed_break_point, t)
      else (do original ← peek_data os pid pc 1; poke_data os pid pc (0xCC ∷ []); pure original) t

  abbrev pub append_info : BInfo → M World BInfo
  append_info info t = (ok info, record t { infos = t.infos ++ (info ∷ []) })

  unfoldable pub set_internal_break_point : ℕ → ℕ → M World BInfo
  unfolding set_pc_break_point
  set_internal_break_point pid pc = do
    original ← set_pc_break_point pid pc
    append_info
        (record { original = original; filename = []; lineno = pos 0; pc = pc; kind = internal })

  -- The part of `SetFileLineBreakPoint` behind the lookup of the pc.
  unfoldable pub set_user_break_point : ℕ → Bytes → ℤ → ℕ → M World BInfo
  unfolding set_pc_break_point
  set_user_break_point pid filename lineno pc = do
    original ← set_pc_break_point pid pc
    append_info
        (record { original = original; filename = filename; lineno = lineno; pc = pc; kind = user })

  -- `SetFileLineBreakPoint`: `cwd` is what `os.Getwd` returns, `join` is `path.Join`.
  unfoldable pub set_file_line_break_point :
      Result Bytes → (Bytes → Bytes → Bytes) → Bi → ℕ → Bytes → ℤ → M World BInfo
  unfolding set_user_break_point file_line_to_pc_for_break_point
  set_file_line_break_point cwd join bi pid filename lineno = do
    dir ← lift cwd
    pc ← lift (file_line_to_pc_for_break_point bi (join dir filename) lineno)
    set_user_break_point pid filename lineno pc

  unfoldable pub continue : ℕ → M World (Unit {0})
  continue pid = call os λ w. cont w pid

  -- A nil breakpoint is `none`.
  unfoldable pub enable_break_point : ℕ → Option BInfo → M World (Unit {0})
  enable_break_point pid none = fail null_breakpoint
  enable_break_point pid (some info) = poke_data os pid info.pc (0xCC ∷ [])

  unfoldable pub disable_break_point : ℕ → Option BInfo → M World (Unit {0})
  disable_break_point pid none = fail null_breakpoint
  disable_break_point pid (some info) = poke_data os pid info.pc info.original

  abbrev pub is_signal : Option ℕ → ℕ → Bool
  is_signal none n = false
  is_signal (some m) n = m == n

  -- What the step over a breakpoint makes of the status that it waits for.
  abbrev pub check_status : WaitStatus → M World (Unit {0})
  check_status s =
      if s.exited
      then pure tt
      else if is_signal s.stop_signal sigtrap
      then pure tt
      else fail unknown_waitstatus

  -- The step over the breakpoint `info` at `pc`, with its byte put back for that one instruction.
  unfoldable pub step_over : ℕ → ℕ → BInfo → M World (Unit {0})
  unfolding enable_break_point disable_break_point
  step_over pid pc info = do
    disable_break_point pid (some info)
    deferred (enable_break_point pid (some info))
        (do set_pc_register os pc; ptrace_single_step os pid; r ← wait_4 os pid; check_status r.1)

  abbrev pub step_found : ℕ → ℕ → Option BInfo → M World (Unit {0})
  step_found pid pc none = pure tt
  step_found pid pc (some info) = step_over pid pc info

  unfoldable pub single_step_instruction_with_breakpoint_check : ℕ → M World (Unit {0})
  unfolding step_over find_break_point
  single_step_instruction_with_breakpoint_check pid = do
    pc ← get_ptrace_pc os
    λ t. step_found pid (before pc) (find_break_point t.infos (before pc)) t

  unfoldable pub clear_internal_break_point : ℕ → Target World → Target World
  unfolding cleared
  clear_internal_break_point pc t = record t { infos = cleared pc t.infos }

  -- `for _, v := range bp.infos` goes over the table as it stood at the start.
  unfoldable pub restart_loop : ℕ → List BInfo → M World (Unit {0})
  unfolding clear_internal_break_point enable_break_point
  restart_loop pid [] = pure tt
  restart_loop pid (v ∷ vs) =
      let rest = restart_loop pid vs in
      if is_user v.kind then (do enable_break_point pid (some v); rest) else λ t.
      rest (clear_internal_break_point v.pc t)

  unfoldable pub set_bp_when_restart : ℕ → M World (Unit {0})
  unfolding restart_loop
  set_bp_when_restart pid t = restart_loop pid t.infos t
