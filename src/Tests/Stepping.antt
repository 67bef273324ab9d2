-- ===== src/Tests/Stepping.antt =====
-- Listings, breakpoints at source lines, and `step` on the machine of `Tests.Debugging`.
use godbg.Common.{ℕ, ◌≡◌, refl, ◌⊎◌, true, false, Option, none, some, List, [], ◌∷◌, ◌++◌, arith}
use godbg.Common.Result.{Result, ok, panic}
use godbg.Common.Bytes.{Bytes, codes, equal}
use godbg.Common.Int.{pos}
use godbg.Output.{listing}
use godbg.Target.{user, BInfo, Target}
use godbg.Breakpoint.{
  find_break_point, is_some, set_file_line_break_point, enable_break_point, disable_break_point,
}
use godbg.Breakpoint.Memory.{IsPatched}
use godbg.Breakpoint.FileLine.{set_file_line_break_point-IsPatched}
use godbg.Bi.{Bi, lines_of, entries_of, file_line_to_pc_for_break_point, pc_to_file_line}
use godbg.Listing.{read_slice, list_file_line, list_file_line_by_ptrace_pc}
use godbg.Listing.Command.{rows_around, list_file_line_window}
use godbg.Step.{step_once, advance_over, put_back, look, step_command}
use godbg.Step.Patched.{step_command-IsPatched}
use godbg.Tests.Machine.{Machine, os, machine-MemoryLaws, machine-IsWritable, machine-TextLaws}
use godbg.Tests.Debugging.{code, info, armed, armed-IsPatched}
use godbg.Tests.Tables.{at, bi, regs}

abbrev three : List Bytes
three = codes "a" ∷ codes "b" ∷ codes "c" ∷ []

abbrev four : List Bytes
four = three ++ ([] ∷ [])

list_file_line_window_example :
    list_file_line os (codes "t.go") (pos 2) (pos 2) armed
    ≡ (ok tt, record armed { out = listing (codes "t.go") (pos 2) (rows_around 2 2 four) ∷ [] })
list_file_line_window_example =
    list_file_line_window os (codes "t.go") 2 2 armed (omega arith) (omega arith) (omega arith) four
      (codes "e") refl (ground arith) (ground arith)

no_dir_join : Bytes → Bytes → Bytes
no_dir_join dir name = dir ++ name

set_file_line_break_point-IsPatched_example :
    (i : BInfo) × (u : Target Machine) × (set_file_line_break_point os
        (ok (codes "/"))
        no_dir_join
        bi
        42
        (codes "t.go")
        (pos 3)
        armed
      ≡ (ok i, u))
    × (i ≡ record {
      original = 0x08 ∷ [];
      filename = codes "t.go";
      lineno = pos 3;
      pc = 0x1008;
      kind = user;
    })
    × (u.infos ≡ armed.infos ++ (i ∷ []))
    × IsPatched os 42 code u.infos u.world
unfolding file_line_to_pc_for_break_point no_dir_join lines_of entries_of equal find_break_point
set_file_line_break_point-IsPatched_example =
    set_file_line_break_point-IsPatched os 42 (ok (codes "/")) no_dir_join bi (codes "t.go") (pos 3)
      armed (machine-MemoryLaws 42) (machine-IsWritable 42) code (codes "/") 0x1008 8 refl refl refl
      refl armed-IsPatched

-- Behind the breakpoint of the table, on the line 4; the line 5 starts six bytes on.
abbrev pub lines_on : Bi
lines_on = record bi {
  sources =
      some
        ((codes "/t.go", (pos 4, at 0x1010 false ∷ []) ∷ (pos 5, at 0x1016 false ∷ []) ∷ []) ∷ []);
}

abbrev pub behind : ℕ → Target Machine
behind pc = record armed { world = record (armed.world) { regs = record regs { rip = pc } } }

abbrev pub outcome :
    Option (Result (Unit {0}) × Target Machine) → Result (Unit {0}) × Target Machine
outcome none = (panic, armed)
outcome (some o) = o

-- The line is left behind four steps.
abbrev left_line : Option (Result (Unit {0}) × Target Machine)
left_line = step_command os lines_on 10 (behind 0x1012)

left_line_pc : (outcome left_line).1.world.regs.rip ≡ 0x1016
unfolding step_command pc_to_file_line look equal find_break_point disable_break_point
    enable_break_point put_back advance_over step_once list_file_line_by_ptrace_pc read_slice
left_line_pc = refl

-- The instruction under the breakpoint is one byte long here, so that the process stands behind the
-- breakpoint again: each round runs the same instruction, until the process ends.
abbrev repeated : Option (Result (Unit {0}) × Target Machine)
repeated = step_command os lines_on 10 (behind 0x1011)

repeated_pc : (outcome repeated).1.world.regs.rip ≡ 0x1011
unfolding step_command pc_to_file_line look equal find_break_point disable_break_point
    enable_break_point put_back advance_over step_once
repeated_pc = refl

repeated_ends : (outcome repeated).1.process ≡ none
unfolding step_command pc_to_file_line look equal find_break_point disable_break_point
    enable_break_point put_back advance_over step_once
repeated_ends = refl

left_line_returns : is_some left_line ≡ true
unfolding step_command pc_to_file_line look equal find_break_point disable_break_point
    enable_break_point put_back advance_over step_once list_file_line_by_ptrace_pc read_slice
left_line_returns = refl

pub outcome_lem :
    (o : Option (Result (Unit {0}) × Target Machine)) → is_some o ≡ true → o ≡ some (outcome o)
outcome_lem none h = cc
outcome_lem (some o) h = refl

step_command-IsPatched_example :
    ((outcome left_line).1.infos ≡ info ∷ [])
    × (((outcome left_line).1.process ≡ none)
        ⊎ (((outcome left_line).1.process ≡ some 42)
            × IsPatched os 42 code (info ∷ []) (outcome left_line).1.world))
step_command-IsPatched_example =
    step_command-IsPatched os 42 code (info ∷ []) (machine-MemoryLaws 42) (machine-IsWritable 42)
      (machine-TextLaws 42 code) lines_on 10 (behind 0x1012) (outcome left_line).0
      (outcome left_line).1 refl refl
      (record { plain = armed-IsPatched.plain; armed = armed-IsPatched.armed })
      (outcome_lem left_line left_line_returns)
