-- ===== src/Executor/Continue.antt =====
-- The command `continue` keeps the memory in step with the table.
use godbg.Common.{Bool-cases, ℕ, ◌≡◌, refl, ap, ◌⊎◌, inl, inr, false, Option, none, some, List, []}
use godbg.Common.Int.{pos}
use godbg.Common.Result.{Result, ok, err, panic}
use godbg.Output.{current_pc}
use godbg.Target.{
  BInfo, WaitStatus, Os, Target, M, after, ◌>>=◌, ◌>>◌, print, wait_4, get_ptrace_pc, >>=_keeps,
}
use godbg.Bi.{Bi}
use godbg.Breakpoint.{continue, single_step_instruction_with_breakpoint_check}
use godbg.Breakpoint.Memory.{MemoryLaws, IsWritable, IsPatched}
use godbg.Breakpoint.Loose.{TextLaws}
use godbg.Listing.{list_file_line_by_ptrace_pc}
use godbg.Listing.Keeps.{get_ptrace_pc_state, list_file_line_by_ptrace_pc_same}
use godbg.Executor.{stops_here, after_wait, resume, continue_command, continue_process}
use godbg.Step.Rounds.{Ends-Running}
use godbg.Step.Loop.{Runs, Ended, Running-SameButOut}
use godbg.Step.Patched.{reported_run-Leaves, Leaves-IsPatched, Running-IsPatched}
use godbg.Executor.StepOver.{StepsOver, moved, check-On}

module _ (os : Os) (pid : ℕ) (code : ℕ → Option ℕ) (infos : List BInfo) (laws : MemoryLaws os pid)
    (writable : IsWritable os pid) (text : TextLaws os pid code)
    (alive : StepsOver os pid code) where
  open os use {World, wait4, cont, single_step}

  abbrev On : List ℕ → Target World → Type 0
  On = Runs os pid code infos laws writable text

  continue-On : (t : Target World) → On [] t → On [] (continue os pid t).1
  unfolding continue
  continue-On t h =
      moved os pid code infos laws writable text alive [] t _ h
        (λ a b at_b. text.cont_keeps t.world a b at_b)

  abbrev Off : Target World → Type 0
  Off = Ended os pid code infos laws writable text []

  On-Off : (t : Target World) → On [] t → Off t
  On-Off t h = Ends-Running os pid code infos laws writable text h

  module _ (bi : Bi) where
    show_stop : M World (Unit {0})
    show_stop = do
      pc ← get_ptrace_pc os
      print (current_pc pc)
      list_file_line_by_ptrace_pc os bi (pos 6)

    show_stop-On : (t : Target World) → On [] t → On [] (show_stop t).1
    unfolding show_stop
    show_stop-On t h =
        >>=_keeps (On []) (get_ptrace_pc os) _ t (rw (get_ptrace_pc_state os t) h) (λ pc u e k.
          Running-SameButOut os pid code infos laws writable text [] _ _
            (list_file_line_by_ptrace_pc_same os bi (pos 6) (print (current_pc pc) u).1)
            (record { runs = k.runs; table = k.table; loose = k.loose }))

    after_wait-Off :
        (wpid : ℕ) (s : WaitStatus) (t : Target World)
        → t.infos ≡ infos
        → (s.exited ≡ false → On [] t)
        → Off (after_wait os bi wpid s t).1
    unfolding show_stop
    after_wait-Off wpid s t table h = elim (Bool-cases s.exited) [
      | inl gone ↦ rw gone (record { table = table; process = inl refl })
      | inr here ↦ rw here (elim (Bool-cases (stops_here os s)) [
        | inl stopped_ ↦ rw stopped_ (On-Off _ (show_stop-On t (h here)))
        | inr other ↦ rw other (record { table = table; process = inl refl })
      ])
    ]

    resume-Off : (t : Target World) → On [] t → Off (resume os bi pid t).1
    resume-Off t h =
        >>=_keeps Off (single_step_instruction_with_breakpoint_check os pid) _ t
          (On-Off _ (check-On os pid code infos laws writable text alive t h))
          (λ _ u e _. behind_check u (
            rw (← ap (λ (p : Result (Unit {0}) × Target World). p.1) e)
              (check-On os pid code infos laws writable text alive t h)))
      where
        waited : (u : Target World) → Target World
        waited u = record u { world = (wait4 u.world pid).0 }

        behind_wait :
            (u : Target World) (r : Result (ℕ × WaitStatus))
            → On [] u
            → (wait4 u.world pid).1 ≡ r
            → Off (after (λ (r : ℕ × WaitStatus). after_wait os bi r.0 r.1) r (waited u)).1
        behind_wait u (ok (p, s)) k e = after_wait-Off p s (waited u) k.table (λ here.
            moved os pid code infos laws writable text alive [] u _ k (λ a b at_b.
              text.wait_keeps u.world a b at_b
                (λ p' s' e'. let same : s ≡ s' = cc (e, e') in rw (← same) here)))
        behind_wait u (err x) k e = On-Off _ (
            moved os pid code infos laws writable text alive [] u _ k
              (λ a b at_b. text.wait_keeps u.world a b at_b (λ p s e'. cc)))
        behind_wait u panic k e = On-Off _ (
            moved os pid code infos laws writable text alive [] u _ k
              (λ a b at_b. text.wait_keeps u.world a b at_b (λ p s e'. cc)))

        behind_check :
            (u : Target World)
            → On [] u
            → Off ((continue os pid >> (wait_4 os pid >>= λ r. after_wait os bi r.0 r.1)) u).1
        behind_check u k =
            >>=_keeps Off (continue os pid) _ u (On-Off _ (continue-On u k)) (λ _ v e _.
              behind_wait v (wait4 v.world pid).1
                (rw (← ap (λ (p : Result (Unit {0}) × Target World). p.1) e) (continue-On u k))
                refl)

    -- Where the process runs, its memory is the text with the breakpoints of the table in it, the text
    -- can be written, running the process changes no byte of its text, and no instruction of the text
    -- ends the process where it is stepped over from a pc that the debugger has set:
    -- behind `continue`, whatever it returns, the table is as it was, and there is no process any more,
    -- or the process runs and its memory is the text with the same breakpoints in it.
    pub continue_command-IsPatched :
        (t : Target World)
        → t.process ≡ some pid
        → t.infos ≡ infos
        → IsPatched os pid code infos t.world
        → ((continue_command os bi t).1.infos ≡ infos)
          × (((continue_command os bi t).1.process ≡ none)
              ⊎ (((continue_command os bi t).1.process ≡ some pid)
                  × IsPatched os pid code infos (continue_command os bi t).1.world))
    unfolding continue_command
    continue_command-IsPatched t runs table patched =
        Leaves-IsPatched os pid code infos laws writable text bi (some (continue_command os bi t)) _
          _ refl
          (rw (ap (λ p. continue_process os bi p t) runs) (
            reported_run-Leaves os pid code infos laws writable text bi (some (resume os bi pid t))
              (resume-Off t
                (Running-IsPatched os pid code infos laws writable text bi t runs table patched))))
