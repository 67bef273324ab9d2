-- ===== src/Prompt.antt =====
-- `executor` of prompt.go: the dispatch of a line over the commands.
pub mod Unknown
use godbg.Common.{◌==◌, if◌then◌else◌, ℕ, Bool, ◌&&◌, ◌||◌, Option, none, some, List, [], ◌∷◌}
use godbg.Common.Bytes.{Bytes, codes, equal}
use godbg.Common.Int.{ℤ, pos}
use godbg.Common.Result.{Result, ok, err, panic}
use godbg.Output.{unsupported, help}
use godbg.Target.{Os, Target, M, print}
use godbg.Bi.{Bi}
use godbg.Asm.{Inst}
use godbg.Location.{split, atoi, parse_loc}
use godbg.Listing.{list_file_line, list_file_line_by_ptrace_pc}
use godbg.Executor.{
  print_messages, reported, list_break_points, list_all_break_points, break_command, with_pc,
  clear_all, clear_index, continue_command,
}
use godbg.Step.{Run, step_command}
use godbg.Next.{next_command}
use godbg.Trace.{trace_command}
use godbg.Restart.{restart, restart_command}
use godbg.Print.{print_command}
use godbg.Disassemble.{disassemble, disassemble_command}

-- Whether the program goes on behind a command.
pub data Reply : Type 0 where
  goes_on : Reply
  exits : Reply

abbrev pub Replies : Type 0 → Type 0
Replies W = Option (Result Reply × Target W)

-- What surrounds the debugger: the decoder, `path.Base`, the answer of `os.Getwd`, `path.Join`, whether
-- GODBG_TEST is set, the debugged file, and the fuel of the loops.
pub record Setting : Type 0 where
  pub decode : Bytes → Result Inst
  pub base : Bytes → Bytes
  pub cwd : Result Bytes
  pub join : Bytes → Bytes → Bytes
  pub is_test : Bool
  pub execfile : Bytes
  pub fuel : ℕ

-- The signal SIGKILL.
abbrev pub sigkill : ℕ
sigkill = 9

-- One of two names of a command.
abbrev pub is_either : Bytes → Bytes → Bytes → Bool
is_either w short long = equal w short || equal w long

abbrev pub space : ℕ
space = 32

module _ (os : Os) (setting : Setting) (bi : Bi) where
  open os use {World, kill}
  open setting use {decode, base, cwd, join, is_test, execfile, fuel}

  abbrev pub reply : {A : Type 0} → Reply → Result A → Result Reply
  reply r (ok a) = ok r
  reply r (err e) = err e
  reply r panic = panic

  abbrev pub stays : Run World → Replies World
  stays none = none
  stays (some (r, t)) = some (reply goes_on r, t)

  abbrev pub runs : M World (Unit {0}) → Target World → Replies World
  runs m t = let (r, t') = m t in some (reply goes_on r, t')

  -- `printUnsupportCmd(input)`
  abbrev pub refuse : Bytes → Target World → Replies World
  refuse input = runs (print (unsupported input))

  abbrev pub kill_process : Option ℕ → Target World → Target World
  kill_process none t = t
  kill_process (some pid) t = record t { world = (kill t.world (pos pid) sigkill).0 }

  -- `q`
  abbrev pub quit : Target World → Replies World
  quit t = some (ok (if is_test then goes_on else exits), kill_process t.process t)

  abbrev pub break_at : Bytes → Bytes → Result (Bytes × ℤ) → Target World → Replies World
  break_at input place (ok (filename, line)) =
      runs (break_command os cwd join bi place filename line)
  break_at input place (err e) = refuse input
  break_at input place panic = refuse input

  -- `bc`: the pc is looked up before the word behind it is read.
  abbrev pub clear_number : Bytes → Option ℤ → M World (Unit {0})
  clear_number input none = with_pc os λ _. print (unsupported input)
  clear_number input (some n) = clear_index os n

  abbrev pub clear_words : Bytes → Bytes → Target World → Replies World
  clear_words input word =
      runs (if equal word (codes "all") then clear_all os else clear_number input (atoi word))

  abbrev pub of_b : Bytes → List Bytes → Target World → Replies World
  of_b input (w ∷ []) t =
      if equal w (codes "bl")
      then runs (print_messages (list_break_points t.infos)) t
      else if equal w (codes "bt")
      then stays (trace_command os bi fuel t)
      else refuse input t
  of_b input (w ∷ v ∷ []) t =
      if is_either w (codes "b") (codes "break")
      then break_at input v (parse_loc v) t
      else if is_either w (codes "bc") (codes "bclear")
      then clear_words input v t
      else if equal w (codes "bl") && equal v (codes "all")
      then runs (print_messages (list_all_break_points t.infos)) t
      else refuse input t
  of_b input _ t = refuse input t

  -- A command of one word, under two names.
  abbrev pub of_word :
      Bytes
      → Bytes
      → (Target World → Replies World)
      → Bytes
      → List Bytes
      → Target World
      → Replies World
  of_word short long command input (w ∷ []) t =
      if is_either w short long then command t else refuse input t
  of_word short long command input _ t = refuse input t

  abbrev pub list_at : Bytes → Result (Bytes × ℤ) → Option ℤ → Target World → Replies World
  list_at input (ok (filename, line)) (some range) =
      runs (reported (list_file_line os filename line range))
  list_at input _ _ = refuse input

  abbrev pub of_l : Bytes → List Bytes → Target World → Replies World
  of_l input (w ∷ []) t =
      if is_either w (codes "l") (codes "list")
      then runs (reported (list_file_line_by_ptrace_pc os bi (pos 6))) t
      else refuse input t
  of_l input (w ∷ place ∷ []) t =
      if is_either w (codes "l") (codes "list")
      then list_at input (parse_loc place) (some (pos 6)) t
      else refuse input t
  of_l input (w ∷ place ∷ range ∷ []) t =
      if is_either w (codes "l") (codes "list")
      then list_at input (parse_loc place) (atoi range) t
      else refuse input t
  of_l input _ t = refuse input t

  abbrev pub of_p : Bytes → List Bytes → Target World → Replies World
  of_p input (w ∷ name ∷ []) t =
      if is_either w (codes "p") (codes "print")
      then runs (print_command os bi name) t
      else refuse input t
  of_p input _ t = refuse input t

  -- The switch over the first byte.
  abbrev pub switch : ℕ → Bytes → List Bytes → Target World → Replies World
  switch fs input ws t =
      if fs == b'q'
      then (if is_either input (codes "q") (codes "quit") then quit t else refuse input t)
      else if fs == b'b'
      then of_b input ws t
      else if fs == b'c'
      then of_word (codes "c") (codes "continue") (runs (continue_command os bi)) input ws t
      else if fs == b's'
      then of_word (codes "s") (codes "step") (λ u. stays (step_command os bi fuel u)) input ws t
      else if fs == b'n'
      then of_word (codes "n") (codes "next") (λ u. stays (next_command os decode bi fuel u)) input
          ws t
      else if fs == b'l'
      then of_l input ws t
      else if fs == b'r'
      then of_word (codes "r") (codes "restart") (runs (restart_command os execfile)) input ws t
      else if fs == b'd'
      then of_word (codes "disass") (codes "disassemble")
          (runs (disassemble_command os decode base bi)) input ws t
      else if fs == b'p'
      then of_p input ws t
      else if fs == b'h'
      then of_word (codes "h") (codes "help") (runs (print help)) input ws t
      else refuse input t

  unfoldable pub executor : Bytes → Target World → Replies World
  executor [] t = some (ok goes_on, t)
  executor (fs ∷ rest) t = switch fs (fs ∷ rest) (split space (fs ∷ rest)) t
