-- ===== src/Executor/StepOver.antt =====
-- The step over the breakpoint that the process stands behind keeps the memory in step with the table.
use godbg.Common.{
  Bool-cases, set, ℕ, ◌≡◌, refl, sym, ap, ◌∙◌, inl, inr, false, Option, none, some, List, [], ◌∷◌,
}
use godbg.Common.Result.{Error, Result, ok, err, panic}
use godbg.Target.{
  BInfo, PtraceRegs, WaitStatus, Os, Target, M, after, ◌>>=◌, ◌>>◌, deferred, before, result_of,
  ptrace_single_step, wait_4, get_ptrace_pc, write_regs, set_pc_register, >>=_ok, >>=_keeps,
}
use godbg.Breakpoint.{
  find_break_point, sigtrap, enable_break_point, disable_break_point, is_signal, check_status,
  step_over, step_found, single_step_instruction_with_breakpoint_check,
}
use godbg.Breakpoint.Memory.{MemoryLaws, IsWritable}
use godbg.Breakpoint.Loose.{
  TextLaws, find_break_point_at, IsLoose-SameText, disable_break_point-IsLoose,
  enable_break_point-IsLoose,
}
use godbg.Listing.Keeps.{get_ptrace_pc_state}
use godbg.Step.Rounds.{get_registers_eq, set_pc_register-Running}
use godbg.Step.Loop.{Runs}

-- No instruction of the text ends the process, where it is stepped over from a pc that the debugger has
-- set: the instruction under a breakpoint.
abbrev pub StepsOver : (os : Os) → ℕ → (ℕ → Option ℕ) → Type 0
StepsOver os pid code =
    (w : os.World) (regs : PtraceRegs) (b p : ℕ) (s : WaitStatus)
    → code regs.rip ≡ some b
    → (os.wait4 (os.single_step (os.set_regs w pid regs).0 pid).0 pid).1 ≡ ok (p, s)
    → s.exited ≡ false

module _ (os : Os) (pid : ℕ) (code : ℕ → Option ℕ) (infos : List BInfo) (laws : MemoryLaws os pid)
    (writable : IsWritable os pid) (text : TextLaws os pid code)
    (alive : StepsOver os pid code) where
  open os use {World, wait4, cont, single_step}

  abbrev On : List ℕ → Target World → Type 0
  On = Runs os pid code infos laws writable text

  -- The text stays what it is when the world changes to one with the same text.
  pub moved :
      (away : List ℕ) (t : Target World) (w : World)
      → On away t
      → ((a b : ℕ) → code a ≡ some b → os.peek w pid a 1 ≡ os.peek t.world pid a 1)
      → On away (record t { world = w })
  moved away t w h same = record {
    runs = h.runs;
    table = h.table;
    loose = IsLoose-SameText os pid code infos away t.world w same h.loose;
  }

  check_status-On :
      (away : List ℕ) (s : WaitStatus) (t : Target World)
      → On away t
      → On away (check_status os s t).1
  check_status-On away s t h = elim (Bool-cases s.exited) [
    | inl gone ↦ rw gone h
    | inr here ↦ rw here (elim (Bool-cases (is_signal os s.stop_signal sigtrap)) [
      | inl trapped ↦ rw trapped h
      | inr no_trap ↦ rw no_trap h
    ])
  ]

  -- The debugger has set the pc.
  abbrev WasSet : ℕ → Target World → Type 0
  WasSet pc u =
      (w : World) × (regs : PtraceRegs) × (regs.rip ≡ pc) × (u.world ≡ (os.set_regs w pid regs).0)

  set_pc_register-WasSet :
      (away : List ℕ) (pc : ℕ) (t u : Target World) (x : Unit {0})
      → On away t
      → set_pc_register os pc t ≡ (ok x, u)
      → WasSet pc u
  set_pc_register-WasSet away pc t u x h e = by_regs (os.get_regs t.world pid) (
      sym (
        ap (λ p. after written p.0 p.1)
          (get_registers_eq os pid code infos laws writable text away t h))
      ∙ e)
    where
      written : PtraceRegs → M World (Unit {0})
      written prs t' = write_regs os t'.process (record prs { rip = pc }) t'

      by_regs : (r : Result PtraceRegs) → after written r t ≡ (ok x, u) → WasSet pc u
      by_regs (ok prs) e =
          let done = rw (h.runs) at e in
          (
            t.world,
            record prs { rip = pc },
            refl,
            sym (ap (λ (p : Result (Unit {0}) × Target World). p.1.world) done),
          )
      by_regs (err y) e = cc
      by_regs panic e = cc

  -- The step over the breakpoint, while its byte is out.
  stepped-On :
      (away : List ℕ) (pc under : ℕ) (t : Target World)
      → code pc ≡ some under
      → On away t
      → On away
          ((set_pc_register os pc
              >> (ptrace_single_step os pid >> (wait_4 os pid >>= λ r. check_status os r.1)))
            t).1
  stepped-On away pc under t in_text h =
      >>=_keeps (On away) (set_pc_register os pc) _ t
        (set_pc_register-Running os pid code infos laws writable text away pc t h)
        (λ x u e k. step u (set_pc_register-WasSet away pc t u x h e) k)
    where
      waited :
          (u : Target World)
          → WasSet pc u
          → On away u
          → On away
              ((wait_4 os pid >>= λ r. check_status os r.1)
                (record u { world = (single_step u.world pid).0 })).1
      waited u (w, regs, at_pc, same) k =
          >>=_keeps (On away) (wait_4 os pid) (λ r. check_status os r.1) v
            (moved away v _ (moved away u _ k (λ a b at_b. text.step_keeps u.world a b at_b))
              (λ a b at_b. text.wait_keeps v.world a b at_b (λ p s e.
                alive w regs under p s (ap code at_pc ∙ in_text)
                  (sym (ap (λ x. (wait4 (single_step x pid).0 pid).1) same) ∙ e))))
            (λ r t' e m. check_status-On away r.1 t' m)
        where
          v : Target World
          v = record u { world = (single_step u.world pid).0 }

      step :
          (u : Target World)
          → WasSet pc u
          → On away u
          → On away
              ((ptrace_single_step os pid >> (wait_4 os pid >>= λ r. check_status os r.1)) u).1
      step u set k = by_error (single_step u.world pid).1
        where
          by_error :
              (o : Option Error)
              → On away
                  (after
                    (λ (_ : Unit {0}). wait_4 os pid >>= λ r. check_status os r.1)
                    (result_of o)
                    (record u { world = (single_step u.world pid).0 })).1
          by_error none = waited u set k
          by_error (some e) = moved away u _ k (λ a b at_b. text.step_keeps u.world a b at_b)

  put_back-On :
      (v : BInfo) (u : Target World)
      → find_break_point infos v.pc ≡ some v
      → On (v.pc ∷ []) u
      → On [] (enable_break_point os pid (some v) u).1
  put_back-On v u at_v k =
      let (w, done, loose') =
        enable_break_point-IsLoose os pid code infos laws writable [] v u at_v k.loose in
      rw done (record { runs = k.runs; table = k.table; loose = loose' })

  step_over-On :
      (pc : ℕ) (v : BInfo) (t : Target World)
      → find_break_point infos v.pc ≡ some v
      → pc ≡ v.pc
      → On [] t
      → On [] (step_over os pid pc v t).1
  unfolding step_over
  step_over-On pc v t at_v at_pc h =
      let (b, in_text, _, _) = h.loose.armed v.pc v at_v in
      let (w, done, out) =
        disable_break_point-IsLoose os pid code infos laws writable [] v t at_v h.loose in
      rw (>>=_ok (disable_break_point os pid (some v)) (λ _. rest) done) (
        put_back-On v (rest_body (record t { world = w })).1 at_v (
          stepped-On (v.pc ∷ []) pc b (record t { world = w }) (ap code at_pc ∙ in_text)
            (record { runs = h.runs; table = h.table; loose = out })))
    where
      rest_body : M World (Unit {0})
      rest_body =
          set_pc_register os pc
          >> (ptrace_single_step os pid >> (wait_4 os pid >>= λ r. check_status os r.1))

      rest : M World (Unit {0})
      rest = deferred (enable_break_point os pid (some v)) rest_body

  pub check-On :
      (t : Target World)
      → On [] t
      → On [] (single_step_instruction_with_breakpoint_check os pid t).1
  unfolding single_step_instruction_with_breakpoint_check
  check-On t h =
      >>=_keeps (On []) (get_ptrace_pc os) _ t (rw (get_ptrace_pc_state os t) h) (λ pc u e k.
        found_at pc (find_break_point u.infos (before pc)) u k
          (sym (ap (λ l. find_break_point l (before pc)) k.table)))
    where
      found_at :
          (pc : ℕ) (o : Option BInfo) (u : Target World)
          → On [] u
          → find_break_point infos (before pc) ≡ o
          → On [] (step_found os pid (before pc) o u).1
      found_at pc none u k e = k
      found_at pc (some v) u k e =
          step_over-On (before pc) v u
            (ap (find_break_point infos) (find_break_point_at infos (before pc) v e) ∙ e)
            (sym (find_break_point_at infos (before pc) v e)) k
