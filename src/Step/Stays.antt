-- ===== src/Step/Stays.antt =====
-- What `step` has done where its fuel ends: one instruction after the other, each from the same line.
use godbg.Common.{
  sym, if◌then◌else◌, Bool-cases, set, ℕ, zero, suc, ◌≡◌, refl, ap, ◌∙◌, ◌⊎◌, inl, inr, Bool, true,
  false, Option, none, some,
}
use godbg.Common.Int.{pos}
use godbg.Common.Result.{Error, Result, ok, err, panic}
use godbg.Output.{current_pc}
use godbg.Target.{
  BInfo, PtraceRegs, WaitStatus, Os, Target, after, ◌>>=◌, pure, lift, print, before, result_of,
  wait_4, process_regs, get_ptrace_pc, write_regs, set_pc_register,
}
use godbg.Bi.{Bi, pc_to_file_line}
use godbg.Breakpoint.{find_break_point, disable_break_point}
use godbg.Executor.{stops_here}
use godbg.Step.{
  Place, same_place, Look, arrived, stay, Run, step_status, step_once, disarm_found, disarm,
  advance_over, put_back, go_on, arrive, look, after_look, step_loop,
}
use godbg.Listing.{list_file_line_by_ptrace_pc}
use godbg.Listing.Keeps.{get_ptrace_pc_state}
use mathlib.Core.Path.{subst}

module _ (os : Os) (bi : Bi) (pid : ℕ) (old : Place) where
  open os use {World, get_regs, set_regs, poke, wait4, single_step}

  -- The process is at `pc`, on the line `old`.
  abbrev pub StillOn : ℕ → Target World → Type 0
  StillOn pc t =
      (place : Place) × ((get_ptrace_pc os t).0 ≡ ok pc)
      × (pc_to_file_line bi pc ≡ ok place)
      × (same_place place old ≡ true)

  -- From where the instruction is run: the state `t`, or, where the process stands behind a breakpoint,
  -- the state with the byte of the text put back and the pc set to the breakpoint.
  abbrev pub IsPoised : ℕ → Target World → World → Type 0
  IsPoised pc t w =
      (w ≡ t.world)
      ⊎ ((v : BInfo) × (regs : PtraceRegs) × (find_break_point t.infos (before pc) ≡ some v)
          × (regs.rip ≡ before pc)
          × (w ≡ (set_regs (poke t.world pid v.pc v.original).0 pid regs).0))

  -- The process has run one instruction, and it is still there.
  abbrev pub Ran : World → World → Type 0
  Ran w w' =
      (p : ℕ) × (s : WaitStatus) × ((single_step w pid).1 ≡ none)
      × ((wait4 (single_step w pid).0 pid).1 ≡ ok (p, s))
      × (s.exited ≡ false)
      × (w' ≡ (wait4 (single_step w pid).0 pid).0)

  -- `n` instructions one after the other, each from the line `old`.
  pub data Stays : ℕ → Target World → Type 0 where
    so_far : (t : Target World) → Stays zero t
    one_more :
        (n pc : ℕ) (w : World) (t u : Target World)
        → StillOn pc t
        → IsPoised pc t w
        → Ran w u.world
        → u.process ≡ t.process
        → Stays n u
        → Stays (suc n) t

  -- A step that goes on.
  abbrev GoesOn : Target World → Result Bool × Target World → Type 0
  GoesOn t p = p.0 ≡ ok true → Ran t.world p.1.world × (p.1.process ≡ t.process)

  status_alive :
      (s : WaitStatus) (t : Target World) → (step_status os pid s t).0 ≡ ok true → s.exited ≡ false
  status_alive s t = elim (Bool-cases s.exited) [
    | inl gone ↦ rw gone (λ e. cc)
    | inr here ↦ λ e. here
  ]

  abbrev Same : Target World → Result Bool × Target World → Type 0
  Same t p = p.0 ≡ ok true → p.1 ≡ t

  status-Same : (s : WaitStatus) (t : Target World) → Same t (step_status os pid s t)
  status-Same s t = elim (Bool-cases s.exited) [
    | inl gone ↦ rw gone (λ e. cc)
    | inr here ↦ rw here (elim (Bool-cases (stops_here os s)) [
      | inl stops ↦ rw stops (λ e. refl)
      | inr other ↦ rw other (λ e. cc)
    ])
  ]

  step_once-GoesOn : (t : Target World) → GoesOn t (step_once os pid t)
  unfolding step_once
  step_once-GoesOn t = after_single (single_step t.world pid).1 refl
    where
      waited : Target World
      waited = record t { world = (wait4 (single_step t.world pid).0 pid).0 }

      after_waited :
          (r : Result (ℕ × WaitStatus))
          → (single_step t.world pid).1 ≡ none
          → (wait4 (single_step t.world pid).0 pid).1 ≡ r
          → GoesOn t (after (λ (r : ℕ × WaitStatus). step_status os pid r.1) r waited)
      after_waited (ok (p, s)) single wait = λ e.
          let same = status-Same s waited e in
          (
            (p, s, single, wait, status_alive s waited e, ap (λ (u : Target World). u.world) same),
            ap (λ (u : Target World). u.process) same,
          )
      after_waited (err x) single wait = λ e. cc
      after_waited panic single wait = λ e. cc

      after_single :
          (o : Option Error)
          → (single_step t.world pid).1 ≡ o
          → GoesOn t (
              after
                (λ (_ : Unit {0}). wait_4 os pid >>= λ r. step_status os pid r.1)
                (result_of o)
                (record t { world = (single_step t.world pid).0 }))
      after_single none single = after_waited (wait4 (single_step t.world pid).0 pid).1 single refl
      after_single (some e) single = λ k. cc

  -- What a look has found that does not stop the loop.
  abbrev Found : Target World → Result Look × Target World → Type 0
  Found t (ok arrived, u) = Unit
  Found t (ok (stay pc none), u) = StillOn pc t × (u.world ≡ t.world) × (u.process ≡ t.process)
  Found t (ok (stay pc (some v)), u) =
      StillOn pc t
      × (find_break_point t.infos (before pc) ≡ some v)
      × (u.world ≡ (poke t.world pid v.pc v.original).0)
      × (u.process ≡ t.process)
  Found t (err e, u) = Unit
  Found t (panic, u) = Unit

  disarm-Found : (pc : ℕ) (t : Target World) → StillOn pc t → Found t (disarm os pid pc t)
  unfolding disable_break_point
  disarm-Found pc t on = cases (find_break_point t.infos (before pc)) refl
    where
      poked :
          (v : BInfo)
          → find_break_point t.infos (before pc) ≡ some v
          → (o : Option Error)
          → Found t (
              after
                (λ _. pure (stay pc (some v)))
                (result_of o)
                (record t { world = (poke t.world pid v.pc v.original).0 }))
      poked v finds none = (on, finds, refl, refl)
      poked v finds (some e) = tt

      cases :
          (o : Option BInfo)
          → find_break_point t.infos (before pc) ≡ o
          → Found t (disarm_found os pid pc o t)
      cases none finds = (on, refl, refl)
      cases (some v) finds = poked v finds (poke t.world pid v.pc v.original).1

  arrive-Found : (pc : ℕ) (t u : Target World) → Found t (arrive os bi pc u)
  arrive-Found pc t u =
      behind_list (list_file_line_by_ptrace_pc os bi (pos 6) (print (current_pc pc) u).1).0 _
    where
      behind_list :
          (r : Result (Unit {0})) (v : Target World) → Found t (after (λ _. pure arrived) r v)
      behind_list (ok x) v = tt
      behind_list (err x) v = tt
      behind_list panic v = tt

  look-Found : (t : Target World) → Found t (look os bi pid old t)
  unfolding look
  look-Found t = by_pc (get_ptrace_pc os t).0 _ refl (get_ptrace_pc_state os t)
    where
      by_line :
          (pc : ℕ) (place : Place) (b : Bool)
          → (get_ptrace_pc os t).0 ≡ ok pc
          → pc_to_file_line bi pc ≡ ok place
          → same_place place old ≡ b
          → Found t ((if b then disarm os pid pc else arrive os bi pc) t)
      by_line pc place true at in_line same = disarm-Found pc t (place, at, in_line, same)
      by_line pc place false at in_line other = arrive-Found pc t t

      by_place :
          (pc : ℕ) (r : Result Place)
          → (get_ptrace_pc os t).0 ≡ ok pc
          → pc_to_file_line bi pc ≡ r
          → Found t (
              after
                (λ place. if same_place place old then disarm os pid pc else arrive os bi pc)
                r
                t)
      by_place pc (ok place) at e = by_line pc place (same_place place old) at e refl
      by_place pc (err x) at e = tt
      by_place pc panic at e = tt

      by_pc :
          (r : Result ℕ) (u : Target World)
          → (get_ptrace_pc os t).0 ≡ r
          → u ≡ t
          → Found t (
              after
                (λ pc. lift (pc_to_file_line bi pc) >>= λ place.
                  if same_place place old then disarm os pid pc else arrive os bi pc)
                r
                u)
      by_pc (ok pc) u at same = rw same (by_place pc (pc_to_file_line bi pc) at refl)
      by_pc (err x) u at same = tt
      by_pc panic u at same = tt

  -- What a write of the pc leaves, where it succeeds.
  abbrev PcIsSet : ℕ → Target World → Result (Unit {0}) × Target World → Type 0
  PcIsSet pc t (ok x, u) =
      (regs : PtraceRegs) × (regs.rip ≡ pc)
      × (u.world ≡ (set_regs t.world pid regs).0)
      × (u.process ≡ t.process)
  PcIsSet pc t (err e, u) = Unit
  PcIsSet pc t (panic, u) = Unit

  set_pc_register-PcIsSet :
      (pc : ℕ) (t : Target World) → t.process ≡ some pid → PcIsSet pc t (set_pc_register os pc t)
  set_pc_register-PcIsSet pc t runs = rw (ap read runs) (by_regs (get_regs t.world pid))
    where
      written : PtraceRegs → Target World → Result (Unit {0}) × Target World
      written prs u = write_regs os u.process (record prs { rip = pc }) u

      read : Option ℕ → Result (Unit {0}) × Target World
      read o = after written (process_regs os o t).0 (process_regs os o t).1

      by_error :
          (prs : PtraceRegs) (o : Option Error)
          → prs.rip ≡ pc
          → PcIsSet pc t (result_of o, record t { world = (set_regs t.world pid prs).0 })
      by_error prs none at = (prs, at, refl, refl)
      by_error prs (some e) at = tt

      by_regs : (r : Result PtraceRegs) → PcIsSet pc t (after written r t)
      by_regs (ok prs) =
          subst (λ o. PcIsSet pc t (write_regs os o (record prs { rip = pc }) t)) (sym runs)
            (by_error (record prs { rip = pc }) (set_regs t.world pid (record prs { rip = pc })).1
              refl)
      by_regs (err e) = tt
      by_regs panic = tt

  -- A round that goes on.
  abbrev Rounds : ℕ → Target World → Result Bool × Target World → Type 0
  Rounds pc t p =
      p.0 ≡ ok true → (w : World) × IsPoised pc t w × Ran w p.1.world × (p.1.process ≡ t.process)

  advance_over-Rounds :
      (pc : ℕ) (info : Option BInfo) (t u : Target World)
      → t.process ≡ some pid
      → Found t (ok (stay pc info), u)
      → Rounds pc t (advance_over os pid pc info u)
  unfolding advance_over
  advance_over-Rounds pc none t u runs (on, world, process) =
      λ e. let (ran, still) = step_once-GoesOn u e in (u.world, inl world, ran, still ∙ process)
  advance_over-Rounds pc (some v) t u runs (on, finds, world, process) =
      cases (set_pc_register os (before pc) u).0 (set_pc_register os (before pc) u).1
        (set_pc_register-PcIsSet (before pc) u (process ∙ runs))
    where
      cases :
          (r : Result (Unit {0})) (q : Target World)
          → PcIsSet (before pc) u (r, q)
          → Rounds pc t (after (λ _. step_once os pid) r q)
      cases (ok x) q (regs, at, set, same) = λ e.
          let (ran, still) = step_once-GoesOn q e in
          (
            q.world,
            inr (v, regs, finds, at, set ∙ ap (λ w. (set_regs w pid regs).0) world),
            ran,
            still ∙ same ∙ process,
          )
      cases (err x) q set = λ e. cc
      cases panic q set = λ e. cc

  put_back-none : (info : Option BInfo) (o : Run World) → put_back os pid info o ≡ none → o ≡ none
  unfolding put_back
  put_back-none none o e = e
  put_back-none (some v) none e = refl
  put_back-none (some v) (some (r, u)) e = cc

  on_of :
      (pc : ℕ) (info : Option BInfo) (t u : Target World)
      → Found t (ok (stay pc info), u)
      → StillOn pc t
  on_of pc none t u h = h.0
  on_of pc (some v) t u h = h.0

  go_on-Stays :
      (n pc : ℕ) (later : Target World → Run World) (t : Target World) (r : Result Bool)
      (u : Target World)
      → ((v : Target World) → v.process ≡ some pid → later v ≡ none → Stays n v)
      → t.process ≡ some pid
      → StillOn pc t
      → Rounds pc t (r, u)
      → go_on os later r u ≡ none
      → Stays (suc n) t
  go_on-Stays n pc later t (ok true) u ih runs on h e =
      let (w, poised, ran, process) = h refl in
      one_more n pc w t u on poised ran process (ih u (process ∙ runs) e)
  go_on-Stays n pc later t (ok false) u ih runs on h e = absurd cc
  go_on-Stays n pc later t (err x) u ih runs on h e = absurd cc
  go_on-Stays n pc later t panic u ih runs on h e = absurd cc

  after_look-Stays :
      (n : ℕ) (later : Target World → Run World) (t : Target World) (r : Result Look)
      (u : Target World)
      → ((v : Target World) → v.process ≡ some pid → later v ≡ none → Stays n v)
      → t.process ≡ some pid
      → Found t (r, u)
      → after_look os bi pid later r u ≡ none
      → Stays (suc n) t
  after_look-Stays n later t (ok arrived) u ih runs h e = absurd cc
  after_look-Stays n later t (ok (stay pc info)) u ih runs h e =
      go_on-Stays n pc later t (advance_over os pid pc info u).0 (advance_over os pid pc info u).1
        ih runs (on_of pc info t u h) (advance_over-Rounds pc info t u runs h)
        (put_back-none info _ e)
  after_look-Stays n later t (err x) u ih runs h e = absurd cc
  after_look-Stays n later t panic u ih runs h e = absurd cc

  pub step_loop-Stays :
      (fuel : ℕ) (t : Target World)
      → t.process ≡ some pid
      → step_loop os bi fuel pid old t ≡ none
      → Stays fuel t
  unfolding step_loop
  step_loop-Stays zero t runs e = so_far t
  step_loop-Stays (suc fuel) t runs e =
      after_look-Stays fuel (λ u. step_loop os bi fuel pid old u) t (look os bi pid old t).0
        (look os bi pid old t).1 (step_loop-Stays fuel) runs (look-Found t) e
