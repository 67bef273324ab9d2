-- ===== src/Trace/Chain.antt =====
-- The call stack that `bt` prints.
use godbg.Common.{
  if◌then◌else◌, length, ℕ, zero, suc, ◌^◌, ◌<◌, ◌≡◌, refl, sym, ap, ◌∙◌, ◌≢◌, Option, some, List,
  [], ◌∷◌, ◌++◌, map, arith,
}
use godbg.Common.Bytes.{Bytes, from_little_endian, to_little_endian}
use godbg.Common.Int.{ℤ}
use godbg.Common.Result.{Result, ok}
use godbg.Output.{Message, caller, at_line}
use godbg.Target.{
  BInfo, PtraceRegs, Os, Target, M, ◌>>=◌, pure, lift, print, before, peek_data, process_regs,
  get_registers, get_ptrace_pc, get_ptrace_bp, >>=_ok,
}
use godbg.Bi.{Function, Bi, pc_to_file_line, find_function_include_pc}
use godbg.Breakpoint.{find_break_point, is_some}
use godbg.Executor.{pid_of}
use godbg.Step.{reported_run}
use godbg.Trace.{
  show_caller, trace_round, after_frame, trace_loop, trace_command, marked, trace_start, trace_from,
}
use mathlib.Core.List.{append_assoc, append-nil}

-- A caller on the stack: the frame pointer of its own caller, the address that is returned to, and what
-- the tables say of the address before it.
pub record Caller : Type 0 where
  pub next : ℕ
  pub ret : ℕ
  pub filename : Bytes
  pub lineno : ℤ
  pub function : Function

abbrev pub caller_line : Caller → Message
caller_line c = caller c.filename c.lineno c.function.name

module _ (os : Os) (bi : Bi) (pid : ℕ) where
  open os use {World, peek}

  pub record IsCaller (w : World) (rbp : ℕ) (c : Caller) : Type 0 where
    pub not_null : rbp ≢ 0
    pub next_small : c.next < 2 ^ 64
    pub ret_small : c.ret < 2 ^ 64
    pub saved : peek w pid rbp 16 ≡ ok (to_little_endian 8 c.next ++ to_little_endian 8 c.ret)
    pub at_line : pc_to_file_line bi (before c.ret) ≡ ok (c.filename, c.lineno)
    pub in_function : find_function_include_pc bi (before c.ret) ≡ ok c.function

  -- The frame pointers chain the callers, up to a null pointer.
  abbrev pub IsChain : World → ℕ → List Caller → Type 0
  IsChain w rbp [] = rbp ≡ 0
  IsChain w rbp (c ∷ cs) = IsCaller w rbp c × IsChain w c.next cs

  little_endian : (v : ℕ) → v < 2 ^ 64 → from_little_endian (to_little_endian 8 v) ≡ v
  little_endian v h = omega arith

  read :
      (rbp : ℕ) (c : Caller) (t : Target World)
      → IsCaller t.world rbp c
      → peek_data os pid rbp 16 t ≡ (ok (to_little_endian 8 c.next ++ to_little_endian 8 c.ret), t)
  read rbp c t h = rw (peek_data, h.saved) refl

  shown :
      (rbp : ℕ) (c : Caller) (t : Target World)
      → IsCaller t.world rbp c
      → show_caller os bi c.ret t ≡ (ok tt, record t { out = t.out ++ (caller_line c ∷ []) })
  shown rbp c t h = ground (arith, h.at_line, h.in_function)

  trace_round_caller :
      (rbp : ℕ) (c : Caller) (t : Target World)
      → IsCaller t.world rbp c
      → trace_round os bi pid rbp t ≡ (ok c.next, record t { out = t.out ++ (caller_line c ∷ []) })
  trace_round_caller rbp c t h =
      >>=_ok (peek_data os pid rbp 16) _ (read rbp c t h)
      ∙ ap
          (λ (v : ℕ).
            (show_caller os bi v >>= λ _. pure (from_little_endian (to_little_endian 8 c.next))) t)
          (little_endian c.ret h.ret_small)
      ∙ ap (λ (v : ℕ). (show_caller os bi c.ret >>= λ _. pure v) t)
          (little_endian c.next h.next_small)
      ∙ >>=_ok (show_caller os bi c.ret) (λ _. pure c.next) (shown rbp c t h)

  trace_loop-IsChain :
      (cs : List Caller) (fuel rbp : ℕ) (t : Target World)
      → length cs < fuel
      → IsChain t.world rbp cs
      → trace_loop os bi fuel pid rbp t
        ≡ some (ok tt, record t { out = t.out ++ map caller_line cs })
  unfolding trace_loop
  trace_loop-IsChain [] zero rbp t h chain = absurd (omega arith)
  trace_loop-IsChain (c ∷ cs) zero rbp t h chain = absurd (omega arith)
  trace_loop-IsChain [] (suc fuel) rbp t h chain =
      rw chain
        (ap (λ (o : List Message). some (ok tt, record t { out = o })) (sym (append-nil t.out)))
  trace_loop-IsChain (c ∷ cs) (suc fuel) rbp t h chain =
      ground (arith, chain.0.not_null)
      ∙ ap
          (λ (p : Result ℕ × Target World).
            after_frame os bi (λ r u. trace_loop os bi fuel pid r u) p.0 p.1)
          (trace_round_caller rbp c t (chain.0))
      ∙ trace_loop-IsChain cs fuel c.next (record t { out = t.out ++ (caller_line c ∷ []) })
          (omega arith) (chain.1)
      ∙ ap (λ (o : List Message). some (ok tt, record t { out = o }))
          (append_assoc t.out (caller_line c ∷ []) (map caller_line cs))

  -- The pc that `bt` looks up: a process behind a breakpoint stands on it.
  abbrev pub current : List BInfo → ℕ → ℕ
  current infos pc = if is_some (find_break_point infos (before pc)) then before pc else pc

  marked_ok :
      {A : Type 0} (n : ℕ) (m : M World A) (t : Target World) {a : A}
      → m t ≡ (ok a, t)
      → marked os bi n m t ≡ (ok a, t)
  marked_ok n m t e = ap (λ p. marked os bi n (λ _. p) t) e

  trace_start_lem :
      (t : Target World) (regs : PtraceRegs) (filename : Bytes) (lineno : ℤ)
      → t.process ≡ some pid
      → os.get_regs t.world pid ≡ ok regs
      → pc_to_file_line bi (current t.infos regs.rip) ≡ ok (filename, lineno)
      → trace_start os bi t
        ≡ (ok regs.rbp, record t { out = t.out ++ (at_line filename lineno ∷ []) })
  trace_start_lem t regs filename lineno runs read_regs found =
      >>=_ok (marked os bi 1 (get_ptrace_bp os)) _ (marked_ok 1 (get_ptrace_bp os) t bp)
      ∙ >>=_ok (marked os bi 2 (get_ptrace_pc os)) _ (marked_ok 2 (get_ptrace_pc os) t pc)
      ∙ ap
          (λ (p : Result (Bytes × ℤ)).
            (marked os bi 3 (lift p) >>= λ place.
            print (at_line place.0 place.1) >>= λ _. pure regs.rbp)
              t)
          found
    where
      here : get_registers os t ≡ (ok regs, t)
      here = ap (λ p. process_regs os p t) runs ∙ ap (λ r. (r, t)) read_regs

      bp : get_ptrace_bp os t ≡ (ok regs.rbp, t)
      bp = >>=_ok (get_registers os) (λ prs. pure prs.rbp) here

      pc : get_ptrace_pc os t ≡ (ok regs.rip, t)
      pc = >>=_ok (get_registers os) (λ prs. pure prs.rip) here

  -- In a process that runs, whose registers can be read, and where the frame pointers chain the callers
  -- up to a null pointer, with a line and a function in the tables for each: with fuel above the number
  -- of the callers, `bt` ends, and prints the line of the pc, set back where the process stands behind
  -- a breakpoint, and then one line for each caller, from the innermost on; it changes nothing else.
  pub trace_command-IsChain :
      (fuel : ℕ) (cs : List Caller) (t : Target World) (regs : PtraceRegs) (filename : Bytes)
      (lineno : ℤ)
      → length cs < fuel
      → t.process ≡ some pid
      → os.get_regs t.world pid ≡ ok regs
      → pc_to_file_line bi (current t.infos regs.rip) ≡ ok (filename, lineno)
      → IsChain t.world regs.rbp cs
      → trace_command os bi fuel t
        ≡ some (ok tt, record t { out = t.out ++ (at_line filename lineno ∷ map caller_line cs) })
  unfolding trace_command
  trace_command-IsChain fuel cs t regs filename lineno enough runs read_regs found chain =
      ap (λ (p : Result ℕ × Target World). trace_from os bi fuel p.0 p.1)
        (trace_start_lem t regs filename lineno runs read_regs found)
      ∙ ap
          (λ (p : Option ℕ). reported_run os bi (trace_loop os bi fuel (pid_of p) regs.rbp started))
          runs
      ∙ ap (reported_run os bi) (trace_loop-IsChain cs fuel regs.rbp started enough chain)
      ∙ ap (λ (o : List Message). some (ok tt, record t { out = o }))
          (append_assoc t.out (at_line filename lineno ∷ []) (map caller_line cs))
    where
      started : Target World
      started = record t { out = t.out ++ (at_line filename lineno ∷ []) }
