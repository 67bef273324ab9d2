-- ===== src/Session/Safe.antt =====
-- Every line leads from a safe state to a safe one, and so does every session.
use godbg.Common.{◌==◌, if◌then◌else◌, ℕ, ◌≡◌, Bool, false, Option, List, [], ◌∷◌}
use godbg.Common.Bytes.{Bytes, codes}
use godbg.Output.{help}
use godbg.Target.{Os, Target, M, print, before}
use godbg.Bi.{Bi}
use godbg.Executor.{continue_command}
use godbg.Location.{split}
use godbg.Step.{Run, step_command}
use godbg.Next.{next_command}
use godbg.Restart.{restart_command}
use godbg.Disassemble.{disassemble_command}
use godbg.Prompt.{
  Replies, Setting, is_either, space, stays, runs, refuse, of_word, switch, executor,
}
use godbg.Session.{SystemLaws, IsInText, IsSafe, Reaches, here, line}
use godbg.Session.Quiet.{IsQuiet, IsQuiet-print}
use godbg.Session.Views.{IsQuiet-disassemble_command}
use godbg.Session.Runs.{SafeRun, step_command-Safe, next_command-Safe, continue_command-Safe}
use godbg.Executor.StepOver.{StepsOver}
use godbg.Session.Restarts.{restart_command-Safe}
use godbg.Session.Lines.{
  SafeReplies, IsSafeReply, either, stays-Safe, runs-Safe, quiet-Safe, quit-Safe, refused,
  of_b-Safe, of_word-Safe, of_l-Safe, of_p-Safe,
}
use mathlib.Core.Path.{subst}

module _ (os : Os) (pid : ℕ) (code : ℕ → Option ℕ) (setting : Setting) (bi : Bi)
    (laws : SystemLaws os pid code) (in_text : IsInText bi code) (no_test : setting.is_test ≡ false)
    (over : StepsOver os pid code) where
  open os use {World}
  open setting use {decode, base, execfile, fuel}

  abbrev SafeReply : Replies World → Type 0
  SafeReply = IsSafeReply os pid code setting bi laws in_text no_test

  switch-Safe :
      (fs : ℕ) (input : Bytes) (ws : List Bytes) (t : Target World)
      → IsSafe os pid code t
      → SafeReply (switch os setting bi fs input ws t)
  switch-Safe fs input ws t h =
      choose (fs == b'q') _ _
        (choose (is_either input (codes "q") (codes "quit")) _ _
          (record { holds = quit-Safe os pid code setting bi laws in_text no_test t }) no)
        (choose (fs == b'b') _ _
          (of_b-Safe os pid code setting bi laws in_text no_test input t h ws)
          (choose (fs == b'c') _ _
            (word (codes "c") (codes "continue")
              (λ u. runs os setting bi (continue_command os bi) u)
              (plain (continue_command os bi) (continue_command-Safe os pid code laws bi over t h)))
            (choose (fs == b's') _ _
              (word (codes "s") (codes "step")
                (λ u. stays os setting bi (step_command os bi fuel u))
                (run (step_command os bi fuel t) (step_command-Safe os pid code laws bi fuel t h)))
              (choose (fs == b'n') _ _
                (word (codes "n") (codes "next")
                  (λ u. stays os setting bi (next_command os decode bi fuel u))
                  (run (next_command os decode bi fuel t)
                    (next_command-Safe os pid code laws bi decode fuel t h)))
                (choose (fs == b'l') _ _
                  (of_l-Safe os pid code setting bi laws in_text no_test input t h ws)
                  (choose (fs == b'r') _ _
                    (word (codes "r") (codes "restart")
                      (λ u. runs os setting bi (restart_command os execfile) u)
                      (plain (restart_command os execfile)
                        (restart_command-Safe os pid code laws execfile t h)))
                    (choose (fs == b'd') _ _
                      (word (codes "disass") (codes "disassemble")
                        (λ u. runs os setting bi (disassemble_command os decode base bi) u)
                        (quiet (disassemble_command os decode base bi)
                          (IsQuiet-disassemble_command os bi decode base)))
                      (choose (fs == b'p') _ _
                        (of_p-Safe os pid code setting bi laws in_text no_test input t h ws)
                        (choose (fs == b'h') _ _
                          (word (codes "h") (codes "help") (λ u. runs os setting bi (print help) u)
                            (quiet (print help) (IsQuiet-print help)))
                          no)))))))))
    where
      choose :
          (b : Bool) (x y : Replies World)
          → SafeReply x
          → SafeReply y
          → SafeReply (if b then x else y)
      choose = either os pid code setting bi laws in_text no_test

      no : SafeReply (refuse os setting bi input t)
      no = refused os pid code setting bi laws in_text no_test input t h

      word :
          (short long : Bytes) (command : Target World → Replies World)
          → SafeReplies os pid code setting bi laws in_text no_test (command t)
          → SafeReply (of_word os setting bi short long command input ws t)
      word short long command k =
          of_word-Safe os pid code setting bi laws in_text no_test input t h short long command ws k

      plain :
          (m : M World (Unit {0}))
          → IsSafe os pid code (m t).1
          → SafeReplies os pid code setting bi laws in_text no_test (runs os setting bi m t)
      plain m k = runs-Safe os pid code setting bi laws in_text no_test m t k

      quiet :
          (m : M World (Unit {0}))
          → IsQuiet m
          → SafeReplies os pid code setting bi laws in_text no_test (runs os setting bi m t)
      quiet m q = quiet-Safe os pid code setting bi laws in_text no_test m t q h

      run :
          (o : Run World)
          → SafeRun os pid code o
          → SafeReplies os pid code setting bi laws in_text no_test (stays os setting bi o)
      run o k = stays-Safe os pid code setting bi laws in_text no_test o k

  executor-Safe :
      (input : Bytes) (t : Target World)
      → IsSafe os pid code t
      → SafeReply (executor os setting bi input t)
  unfolding executor
  executor-Safe [] t h = record { holds = h }
  executor-Safe (fs ∷ rest) t h = switch-Safe fs (fs ∷ rest) (split space (fs ∷ rest)) t h

  -- Where the system calls keep their promises, the addresses of the table of lines are in the text,
  -- GODBG_TEST is not set, and no instruction of the text ends the process where it is stepped over from
  -- a pc that the debugger has set, as `c` does at a breakpoint (where one does, `c` keeps the pid of a
  -- process that has ended): every state that a session reaches from a safe one is safe. There is one
  -- breakpoint at most for a pc, and there is no process any more, or it runs and its memory is the text
  -- with 0xCC at the breakpoints of the table, each of which holds the byte that it replaces.
  pub Reaches-IsSafe :
      (t u : Target World) → IsSafe os pid code t → Reaches os setting bi t u → IsSafe os pid code u
  Reaches-IsSafe t _ h here = h
  Reaches-IsSafe t _ h (line {u = u} {v = v} input before runs) =
      subst (SafeReplies os pid code setting bi laws in_text no_test) runs
        (executor-Safe input u (Reaches-IsSafe t u h before)).holds
