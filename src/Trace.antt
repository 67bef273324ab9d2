-- ===== src/Trace.antt =====
-- The command `bt` of prompt.go: the chain of the frame pointers.
pub mod Chain
use godbg.Common.{◌==◌, if◌then◌else◌, take, drop, ℕ, zero, suc, none, some, [], ◌∷◌, ◌++◌}
use godbg.Common.Bytes.{from_little_endian}
use godbg.Common.Result.{Result, ok, err, panic}
use godbg.Output.{error, trace_error, at_line, caller}
use godbg.Target.{
  Os, Target, M, ◌>>=◌, ◌>>◌, pure, lift, print, before, peek_data, get_ptrace_pc, get_ptrace_bp,
}
use godbg.Bi.{Bi, pc_to_file_line, find_function_include_pc}
use godbg.Breakpoint.{find_break_point, is_some}
use godbg.Executor.{pid_of}
use godbg.Step.{Run, reported_run}

module _ (os : Os) (bi : Bi) where
  open os use {World}

  -- The line of one caller.
  abbrev pub show_caller : ℕ → M World (Unit {0})
  show_caller ret = do
    place ← lift (pc_to_file_line bi (before ret))
    f ← lift (find_function_include_pc bi (before ret))
    print (caller place.0 place.1 f.name)

  -- One round: the frame pointer of the caller.
  abbrev pub trace_round : ℕ → ℕ → M World ℕ
  trace_round pid rbp = do
    original ← peek_data os pid rbp 16
    show_caller (from_little_endian (drop 8 original))
    pure (from_little_endian (take 8 original))

  abbrev pub after_frame : (ℕ → Target World → Run World) → Result ℕ → Target World → Run World
  after_frame later (ok rbp) t = later rbp t
  after_frame later (err e) t = some (err e, t)
  after_frame later panic t = some (panic, t)

  unfoldable pub trace_loop : ℕ → ℕ → ℕ → Target World → Run World
  trace_loop zero pid rbp t = none
  trace_loop (suc fuel) pid rbp t =
      let later = λ (r : ℕ) (u : Target World). trace_loop fuel pid r u in
      let (r, t') = trace_round pid rbp t in
      if rbp == 0 then some (ok tt, t) else after_frame later r t'

  -- An error of the first part is printed twice, the second time with the number of its place.
  abbrev pub marked : {A : Type 0} → ℕ → M World A → M World A
  marked n m t =
      let (r, t') = m t in
      elim r [
        | ok a ↦ (ok a, t')
        | err e ↦ (err e, record t' { out = t'.out ++ (error e ∷ trace_error n e ∷ []) })
        | panic ↦ (panic, t')
      ]

  abbrev pub at_break_point : ℕ → M World ℕ
  at_break_point pc t =
      (ok (if is_some (find_break_point t.infos (before pc)) then before pc else pc), t)

  abbrev pub trace_start : M World ℕ
  trace_start = do
    rbp ← marked 1 (get_ptrace_bp os)
    pc ← marked 2 (get_ptrace_pc os)
    pc ← at_break_point pc
    place ← marked 3 (lift (pc_to_file_line bi pc))
    print (at_line place.0 place.1)
    pure rbp

  abbrev pub trace_from : ℕ → Result ℕ → Target World → Run World
  trace_from fuel (ok rbp) t = reported_run os bi (trace_loop fuel (pid_of t.process) rbp t)
  trace_from fuel (err e) t = some (ok tt, t)
  trace_from fuel panic t = some (panic, t)

  -- `bt`
  unfoldable pub trace_command : ℕ → Target World → Run World
  unfolding trace_loop find_function_include_pc
  trace_command fuel t = let (r, t') = trace_start t in trace_from fuel r t'
