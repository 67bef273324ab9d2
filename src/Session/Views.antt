-- ===== src/Session/Views.antt =====
-- `bt`, `disass` and the listings change what has been printed, and nothing else.
use godbg.Common.{
  ltb, ◌==◌, Bool-cases, take, drop, ℕ, zero, suc, ◌^◌, inl, inr, Option, none, some, [], ◌∷◌, ◌++◌,
}
use godbg.Common.Bytes.{Bytes, from_little_endian}
use godbg.Common.Result.{invalid_range, Result, ok, err, panic}
use godbg.Output.{error, current_pc, trace_error, at_line, caller, disassembly}
use godbg.Target.{
  Os, Target, M, lift, print, before, peek_data, get_registers, get_ptrace_pc, get_ptrace_bp,
}
use godbg.Bi.{Bi, pc_to_file_line, find_function_include_pc}
use godbg.Asm.{Inst}
use godbg.Listing.Keeps.{SameButOut}
use godbg.Executor.{pid_of, reported}
use godbg.Step.{Run, reported_run}
use godbg.Trace.{
  show_caller, trace_round, after_frame, trace_loop, marked, at_break_point, trace_start,
  trace_from, trace_command,
}
use godbg.Disassemble.{
  sub_word, rows_of, read_range, disassemble, list_disassemble_by_ptrace_pc, at_process,
  disassemble_command,
}
use godbg.Session.Quiet.{
  SameButOut-refl, SameButOut-trans, IsQuiet, IsQuiet-bind, IsQuiet-lift, IsQuiet-fail,
  IsQuiet-pure, IsQuiet-of_state, IsQuiet-if, IsQuiet-print, IsQuiet-reported,
  IsQuiet-get_ptrace_pc, IsQuiet-get_registers, IsQuiet-peek_data,
}

-- An outcome of a run, if it has one, leaves the state as it was.
abbrev pub IsSameRun : {W : Type 0} → Target W → Run W → Type 0
IsSameRun t none = Unit
IsSameRun t (some (r, u)) = SameButOut t u

module _ (os : Os) (bi : Bi) where
  open os use {World, peek}

  IsQuiet-show_caller : (ret : ℕ) → IsQuiet (show_caller os bi ret)
  IsQuiet-show_caller ret =
      IsQuiet-bind (lift (pc_to_file_line bi (before ret))) _ (IsQuiet-lift _) λ place.
        IsQuiet-bind (lift (find_function_include_pc bi (before ret))) _ (IsQuiet-lift _)
          λ f. IsQuiet-print (caller place.0 place.1 f.name)

  IsQuiet-trace_round : (pid rbp : ℕ) → IsQuiet (trace_round os bi pid rbp)
  IsQuiet-trace_round pid rbp =
      IsQuiet-bind (peek_data os pid rbp 16) _ (IsQuiet-peek_data os pid rbp 16) λ original.
        let ret = from_little_endian (drop 8 original) in
        IsQuiet-bind (show_caller os bi ret) _ (IsQuiet-show_caller ret)
          λ _. IsQuiet-pure (from_little_endian (take 8 original))

  after_frame-IsSameRun :
      (later : ℕ → Target World → Run World) (t : Target World) (r : Result ℕ) (u : Target World)
      → ((rbp : ℕ) (u : Target World) → SameButOut t u → IsSameRun t (later rbp u))
      → SameButOut t u
      → IsSameRun t (after_frame os bi later r u)
  after_frame-IsSameRun later t (ok rbp) u h s = h rbp u s
  after_frame-IsSameRun later t (err e) u h s = s
  after_frame-IsSameRun later t panic u h s = s

  trace_loop-IsSameRun :
      (fuel pid rbp : ℕ) (t u : Target World)
      → SameButOut t u
      → IsSameRun t (trace_loop os bi fuel pid rbp u)
  unfolding trace_loop
  trace_loop-IsSameRun zero pid rbp t u s = tt
  trace_loop-IsSameRun (suc fuel) pid rbp t u s = elim (Bool-cases (rbp == 0)) [
    | inl null ↦ rw null s
    | inr more ↦ rw more (
        after_frame-IsSameRun (λ r v. trace_loop os bi fuel pid r v) t
          (trace_round os bi pid rbp u).0 (trace_round os bi pid rbp u).1
          (λ r v. trace_loop-IsSameRun fuel pid r t v)
          (SameButOut-trans s ((IsQuiet-trace_round pid rbp).same u)))
  ]

  IsQuiet-marked : {A : Type 0} (n : ℕ) (m : M World A) → IsQuiet m → IsQuiet (marked os bi n m)
  IsQuiet-marked {A = A} n m h = record { same = λ t. cases t (m t).0 (m t).1 (h.same t) }
    where
      cases :
          (t : Target World) (r : Result A) (u : Target World)
          → SameButOut t u
          → SameButOut t
              (elim r as (λ _. Result A × Target World) [
                | ok a ↦ (ok a, u)
                | err e ↦ (err e, record u { out = u.out ++ (error e ∷ trace_error n e ∷ []) })
                | panic ↦ (panic, u)
              ]).1
      cases t (ok a) u s = s
      cases t (err e) u s = record { world = s.world; table = s.table; process = s.process }
      cases t panic u s = s

  IsQuiet-trace_start : IsQuiet (trace_start os bi)
  IsQuiet-trace_start =
      IsQuiet-bind (marked os bi 1 (get_ptrace_bp os)) _
        (IsQuiet-marked 1 _ (
          IsQuiet-bind (get_registers os) _ (IsQuiet-get_registers os) λ prs. IsQuiet-pure prs.rbp))
        λ rbp.
          IsQuiet-bind (marked os bi 2 (get_ptrace_pc os)) _
            (IsQuiet-marked 2 _ (IsQuiet-get_ptrace_pc os))
            λ pc.
              IsQuiet-bind (at_break_point os bi pc) _ (record { same = SameButOut-refl })
                λ at.
                  IsQuiet-bind (marked os bi 3 (lift (pc_to_file_line bi at))) _
                    (IsQuiet-marked 3 _ (IsQuiet-lift (pc_to_file_line bi at)))
                    λ place.
                      IsQuiet-bind (print (at_line place.0 place.1)) _
                        (IsQuiet-print (at_line place.0 place.1)) λ _. IsQuiet-pure rbp

  pub reported_run-IsSameRun :
      (t : Target World) (o : Run World) → IsSameRun t o → IsSameRun t (reported_run os bi o)
  reported_run-IsSameRun t none h = tt
  reported_run-IsSameRun t (some (ok x, u)) h = h
  reported_run-IsSameRun t (some (err e, u)) h = record {
    world = h.world;
    table = h.table;
    process = h.process;
  }
  reported_run-IsSameRun t (some (panic, u)) h = h

  -- `bt`
  pub trace_command-IsSameRun :
      (fuel : ℕ) (t : Target World) → IsSameRun t (trace_command os bi fuel t)
  unfolding trace_command
  trace_command-IsSameRun fuel t =
      cases (trace_start os bi t).0 (trace_start os bi t).1 (IsQuiet-trace_start.same t)
    where
      cases :
          (r : Result ℕ) (u : Target World)
          → SameButOut t u
          → IsSameRun t (trace_from os bi fuel r u)
      cases (ok rbp) u s =
          reported_run-IsSameRun t _ (trace_loop-IsSameRun fuel (pid_of u.process) rbp t u s)
      cases (err e) u s = s
      cases panic u s = s

  IsQuiet-disassemble :
      (decode : Bytes → Result Inst) (pid low high : ℕ)
      → IsQuiet (disassemble os decode pid low high)
  unfolding disassemble
  IsQuiet-disassemble decode pid low high =
      let n = sub_word high low in
      IsQuiet-if (n == 0) _ _ (IsQuiet-fail (invalid_range low high)) (
        IsQuiet-if (ltb (2 ^ 48) n) _ _ (IsQuiet-lift panic) (
          IsQuiet-bind (read_range os decode pid low n) _ (record { same = SameButOut-refl })
            λ mem. record { same = SameButOut-refl }))

  -- `disass`
  pub IsQuiet-disassemble_command :
      (decode : Bytes → Result Inst) (base : Bytes → Bytes)
      → IsQuiet (disassemble_command os decode base bi)
  unfolding disassemble_command list_disassemble_by_ptrace_pc
  IsQuiet-disassemble_command decode base =
      IsQuiet-of_state (λ t. reported (at_process os decode base bi t.process))
        λ t. IsQuiet-reported (at_process os decode base bi t.process) (at t.process)
    where
      at : (p : Option ℕ) → IsQuiet (at_process os decode base bi p)
      at none = IsQuiet-lift panic
      at (some pid) = IsQuiet-bind (get_ptrace_pc os) _ (IsQuiet-get_ptrace_pc os) λ pc.
          IsQuiet-bind (lift (find_function_include_pc bi pc)) _ (IsQuiet-lift _) λ f.
            IsQuiet-bind (disassemble os decode pid f.lowpc f.highpc) _
              (IsQuiet-disassemble decode pid f.lowpc f.highpc)
              λ ds. IsQuiet-bind (print (current_pc pc)) _ (IsQuiet-print (current_pc pc)) λ _.
                IsQuiet-bind (λ t. (rows_of base bi t.infos pc ds, t)) _
                  (record { same = SameButOut-refl }) λ rows. IsQuiet-print (disassembly rows)
