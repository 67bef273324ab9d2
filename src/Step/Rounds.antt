-- ===== src/Step/Rounds.antt =====
-- What the rounds of `step` keep: the table, and the bytes of the text, while the process runs.
use godbg.Common.{
  Bool-cases, ℕ, ◌≡◌, refl, ap, ◌∙◌, ◌⊎◌, inl, inr, Bool, true, false, Option, none, some, List,
  ◌∷◌,
}
use godbg.Common.Result.{Error, Result, ok, err, panic}
use godbg.Target.{
  BInfo, PtraceRegs, WaitStatus, Os, Target, after, ◌>>=◌, pure, before, result_of, wait_4,
  process_regs, get_registers, get_ptrace_pc, write_regs, set_pc_register, >>=_keeps,
}
use godbg.Breakpoint.{find_break_point}
use godbg.Breakpoint.Memory.{MemoryLaws, IsWritable}
use godbg.Breakpoint.Loose.{
  TextLaws, IsLoose, find_break_point_at, IsLoose-SameText, disable_break_point-IsLoose,
}
use godbg.Executor.{stops_here}
use godbg.Step.{Look, arrived, stay, step_status, step_once, disarm_found, disarm, advance_over}

module _ (os : Os) (pid : ℕ) (code : ℕ → Option ℕ) (infos : List BInfo) (laws : MemoryLaws os pid)
    (writable : IsWritable os pid) (text : TextLaws os pid code) where
  open os use {World, get_regs, wait4}

  abbrev Loose : List ℕ → World → Type 0
  Loose away w = IsLoose os pid code away infos w

  -- The process runs, and behind a command it runs or has ended.
  pub record Running (away : List ℕ) (t : Target World) : Type 0 where
    pub runs : t.process ≡ some pid
    pub table : t.infos ≡ infos
    pub loose : Loose away t.world

  pub record Ends (away : List ℕ) (t : Target World) : Type 0 where
    pub table : t.infos ≡ infos
    pub process : (t.process ≡ none) ⊎ Running away t

  pub Ends-Running : {away : List ℕ} {t : Target World} → Running away t → Ends away t
  Ends-Running h = record { table = h.table; process = inr h }

  module _ (away : List ℕ) where
    pub get_registers_eq :
        (t : Target World) → Running away t → get_registers os t ≡ (get_regs t.world pid, t)
    get_registers_eq t h = ap (λ p. process_regs os p t) h.runs

    pub get_ptrace_pc-Running : (t : Target World) → Running away t → (get_ptrace_pc os t).1 ≡ t
    get_ptrace_pc-Running t h =
        ap (λ (p : Result PtraceRegs × Target World). (after (λ prs. pure prs.rip) p.0 p.1).1)
          (get_registers_eq t h)
        ∙ same (get_regs t.world pid)
      where
        same : (r : Result PtraceRegs) → (after {B = ℕ} (λ prs. pure prs.rip) r t).1 ≡ t
        same (ok prs) = refl
        same (err e) = refl
        same panic = refl

    pub set_pc_register-Running :
        (pc : ℕ) (t : Target World) → Running away t → Running away (set_pc_register os pc t).1
    set_pc_register-Running pc t h =
        >>=_keeps (Running away) (get_registers os)
          (λ prs t'. write_regs os t'.process (record prs { rip = pc }) t') t
          (rw (get_registers_eq t h) h) (λ prs t' _ k. written (record prs { rip = pc }) t' k)
      where
        written :
            (prs : PtraceRegs) (t' : Target World)
            → Running away t'
            → Running away (write_regs os t'.process prs t').1
        written prs t' k = rw (ap (λ p. write_regs os p prs t') k.runs) (record {
          runs = k.runs;
          table = k.table;
          loose =
              IsLoose-SameText os pid code infos away t'.world (os.set_regs t'.world pid prs).0
                (λ a b at_b. laws.peek_set_regs t'.world prs a) k.loose;
        })

    -- A step that goes on leaves the process running.
    abbrev pub GoesOn : Result Bool × Target World → Type 0
    GoesOn p = Ends away p.1 × (p.0 ≡ ok true → Running away p.1)

    step_status-GoesOn :
        (s : WaitStatus) (t : Target World)
        → t.infos ≡ infos
        → (s.exited ≡ false → Running away t)
        → GoesOn (step_status os pid s t)
    step_status-GoesOn s t table h = elim (Bool-cases s.exited) [
      | inl gone ↦ rw gone (record { table = table; process = inl refl }, λ e. cc)
      | inr here ↦ rw here (elim (Bool-cases (stops_here os s)) [
        | inl stopped_ ↦ rw stopped_ (Ends-Running (h here), λ e. h here)
        | inr other ↦ rw other (Ends-Running (h here), λ e. cc)
      ])
    ]

    pub step_once-GoesOn : (t : Target World) → Running away t → GoesOn (step_once os pid t)
    unfolding step_once
    step_once-GoesOn t h = after_single (os.single_step t.world pid).1
      where
        w1 : World
        w1 = (os.single_step t.world pid).0

        loose1 : Loose away w1
        loose1 =
            IsLoose-SameText os pid code infos away t.world w1
              (λ a b at_b. text.step_keeps t.world a b at_b) h.loose

        stepped : Target World
        stepped = record t { world = w1 }

        waited : Target World
        waited = record t { world = (wait4 w1 pid).0 }

        loose2 :
            ((p : ℕ) (s : WaitStatus) → (wait4 w1 pid).1 ≡ ok (p, s) → s.exited ≡ false)
            → Running away waited
        loose2 alive = record {
          runs = h.runs;
          table = h.table;
          loose =
              IsLoose-SameText os pid code infos away w1 waited.world
                (λ a b at_b. text.wait_keeps w1 a b at_b alive) loose1;
        }

        after_waited :
            (r : Result (ℕ × WaitStatus))
            → (wait4 w1 pid).1 ≡ r
            → GoesOn (after (λ (r : ℕ × WaitStatus). step_status os pid r.1) r waited)
        after_waited (ok (p, s)) e =
            step_status-GoesOn s waited h.table
              (λ alive. loose2 (λ p' s' e'. let same : s ≡ s' = cc (e, e') in rw (← same) alive))
        after_waited (err x) e = (Ends-Running (loose2 (λ p' s' e'. cc)), λ k. cc)
        after_waited panic e = (Ends-Running (loose2 (λ p' s' e'. cc)), λ k. cc)

        after_single :
            (o : Option Error)
            → GoesOn (
                after
                  (λ (_ : Unit {0}). wait_4 os pid >>= λ r. step_status os pid r.1)
                  (result_of o)
                  stepped)
        after_single none = after_waited (wait4 w1 pid).1 refl
        after_single (some e) =
            (Ends-Running (record { runs = h.runs; table = h.table; loose = loose1 }), λ k. cc)

    pub advance_over-GoesOn :
        (pc : ℕ) (info : Option BInfo) (t : Target World)
        → Running away t
        → GoesOn (advance_over os pid pc info t)
    unfolding advance_over
    advance_over-GoesOn pc none t h = step_once-GoesOn t h
    advance_over-GoesOn pc (some info) t h =
        cases (set_pc_register os (before pc) t).0 (set_pc_register os (before pc) t).1
          (set_pc_register-Running (before pc) t h)
      where
        cases :
            (r : Result (Unit {0})) (t' : Target World)
            → Running away t'
            → GoesOn (after (λ _. step_once os pid) r t')
        cases (ok x) t' k = step_once-GoesOn t' k
        cases (err e) t' k = (Ends-Running k, λ e. cc)
        cases panic t' k = (Ends-Running k, λ e. cc)

    -- What a look leaves: the breakpoint of the table that it took out is away.
    abbrev pub Looked : Result Look × Target World → Type 0
    Looked (ok arrived, t) = Ends away t
    Looked (ok (stay pc none), t) = Running away t
    Looked (ok (stay pc (some v)), t) =
        (find_break_point infos v.pc ≡ some v) × Running (v.pc ∷ away) t
    Looked (err e, t) = Ends away t
    Looked (panic, t) = Ends away t

    pub disarm-Looked : (pc : ℕ) (t : Target World) → Running away t → Looked (disarm os pid pc t)
    disarm-Looked pc t h =
        rw (ap (λ l. find_break_point l (before pc)) h.table)
          (cases (find_break_point infos (before pc)) refl)
      where
        cases :
            (o : Option BInfo)
            → find_break_point infos (before pc) ≡ o
            → Looked (disarm_found os pid pc o t)
        cases none e = h
        cases (some v) e =
            let found : find_break_point infos v.pc ≡ some v =
              ap (find_break_point infos) (find_break_point_at infos (before pc) v e) ∙ e in
            let (w, done, loose') =
              disable_break_point-IsLoose os pid code infos laws writable away v t found h.loose in
            rw done (found, record { runs = h.runs; table = h.table; loose = loose' })
