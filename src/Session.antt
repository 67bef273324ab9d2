-- ===== src/Session.antt =====
-- A session of the debugger: the lines that `executor` of prompt.go is given one after the other, and
-- what holds of the state between them.
pub mod Quiet
pub mod Views
pub mod Runs
pub mod Breaks
pub mod Clears
pub mod Restarts
pub mod Rearms
pub mod Lines
pub mod Safe
use godbg.Common.{All, ℕ, ◌≡◌, ◌⊎◌, true, false, Option, none, some, List}
use godbg.Common.Bytes.{Bytes}
use godbg.Common.Int.{ℤ}
use godbg.Common.Result.{ok}
use godbg.Target.{BInfo, WaitStatus, Os, Target}
use godbg.Bi.{Bi, file_line_to_pc_for_break_point}
use godbg.Breakpoint.{is_user}
use godbg.Breakpoint.Table.{HasUniquePcs}
use godbg.Breakpoint.Memory.{MemoryLaws, IsWritable, IsPatched}
use godbg.Breakpoint.Loose.{TextLaws}
use godbg.Prompt.{goes_on, Setting, executor}
use godbg.Restart.{sigstop}

abbrev pub AllUsers : List BInfo → Type 0
AllUsers infos = All (λ v. is_user v.kind ≡ true) infos

-- What the system calls promise of the process `pid` and of its text: PTRACE_PEEKDATA and
-- PTRACE_POKEDATA as documented, a text that no process changes as it runs, that a stop signal leaves
-- alone, and that the start of another process leaves alone.
pub record SystemLaws (os : Os) (pid : ℕ) (code : ℕ → Option ℕ) : Type 0 where
  pub memory_laws : MemoryLaws os pid
  pub writable : IsWritable os pid
  pub text : TextLaws os pid code
  pub stop_keeps :
      (w : os.World) (to : ℤ) (a b : ℕ)
      → code a ≡ some b
      → os.peek (os.kill w to sigstop).0 pid a 1 ≡ os.peek w pid a 1
  pub start_keeps :
      (w : os.World) (file : Bytes) (a b : ℕ)
      → code a ≡ some b
      → os.peek (os.start w file).0 pid a 1 ≡ os.peek w pid a 1
  pub wait_started_keeps :
      (w : os.World) (new a b : ℕ)
      → code a ≡ some b
      → os.peek (os.wait_started w new).0 pid a 1 ≡ os.peek w pid a 1

-- The addresses that the table of lines gives are in the text.
abbrev pub IsInText : Bi → (ℕ → Option ℕ) → Type 0
IsInText bi code =
    (f : Bytes) (l : ℤ) (pc : ℕ)
    → file_line_to_pc_for_break_point bi f l ≡ ok pc
    → (b : ℕ) × (code pc ≡ some b)

-- Between two lines: one breakpoint at most for a pc, all of them the user's, and there is no process
-- any more, or it runs, and its memory is the text with 0xCC at the breakpoints of the table, each of
-- which holds the byte that it replaces.
pub record IsSafe (os : Os) (pid : ℕ) (code : ℕ → Option ℕ) (t : Target os.World) : Type 0 where
  pub unique : HasUniquePcs t.infos
  pub users : AllUsers t.infos
  pub memory : (t.process ≡ none) ⊎ ((t.process ≡ some pid) × IsPatched os pid code t.infos t.world)

-- The states that a session reaches: each line is given to `executor`, as long as it returns and the
-- program goes on.
pub data Reaches (os : Os) (setting : Setting) (bi : Bi) (t : Target os.World)
    : Target os.World → Type 0 where
  here : Reaches os setting bi t t
  line :
      {u v : Target os.World} (input : Bytes)
      → Reaches os setting bi t u
      → executor os setting bi input u ≡ some (ok goes_on, v)
      → Reaches os setting bi t v
