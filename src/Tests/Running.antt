-- ===== src/Tests/Running.antt =====
-- `next`, `bt`, `p`, `disass` and `r` on the machine of `Tests.Machine`.
use godbg.Common.{◌==◌, ◌≡◌, refl, ◌⊎◌, true, Option, none, some, [], ◌∷◌, ◌++◌, arith}
use godbg.Common.Bytes.{Bytes, codes, equal, to_little_endian}
use godbg.Common.Int.{pos}
use godbg.Common.Result.{system, Result, ok, err}
use godbg.Output.{at_line, caller}
use godbg.Target.{Target}
use godbg.Asm.{Inst, get_single_mem_inst}
use godbg.Bi.{Variable, Bi, pc_to_file_line, find_function_include_pc}
use godbg.Breakpoint.{find_break_point, is_some}
use godbg.Breakpoint.Memory.{IsPatched}
use godbg.Breakpoint.Table.{HasUniquePcs}
use godbg.Step.{step_once}
use godbg.Next.{next_round, next_command}
use godbg.Next.Patched.{next_command-IsPatched}
use godbg.Trace.{trace_command}
use godbg.Trace.Chain.{Caller, trace_command-IsChain}
use godbg.Restart.{restart_command}
use godbg.Restart.Keeps.{restart_command_keeps}
use godbg.Disassemble.{try_cutting_filename}
use godbg.Complete.{has_prefix}
use godbg.Print.{dw_op_fbreg}
use godbg.Tests.Machine.{
  Machine, write, os, machine-MemoryLaws, machine-IsWritable, machine-TextLaws,
}
use godbg.Tests.Debugging.{code, info, armed, armed-IsPatched, armed-HasUniquePcs}
use godbg.Tests.Tables.{function, bi, infos, target}
use godbg.Tests.Stepping.{lines_on, behind, outcome, outcome_lem}
use godbg.Listing.{read_slice, list_file_line_by_ptrace_pc}

-- Every instruction is one byte long, and 0xE8 calls.
abbrev pub decode : Bytes → Result Inst
decode [] = err (system 1)
decode (b ∷ bs) = ok (record { len = 1; is_call = b == 0xE8; text = [] })

abbrev after_next : Option (Result (Unit {0}) × Target Machine)
after_next = next_command os decode lines_on 10 (behind 0x1015)

after_next_returns : is_some after_next ≡ true
unfolding next_command find_break_point pc_to_file_line next_round get_single_mem_inst step_once
    equal list_file_line_by_ptrace_pc read_slice
after_next_returns = refl

next_command-IsPatched_example :
    ((outcome after_next).1.infos ≡ info ∷ [])
    × (((outcome after_next).1.process ≡ none)
        ⊎ (((outcome after_next).1.process ≡ some 42)
            × IsPatched os 42 code (info ∷ []) (outcome after_next).1.world))
next_command-IsPatched_example =
    next_command-IsPatched os 42 code (info ∷ []) (machine-MemoryLaws 42) (machine-IsWritable 42)
      (machine-TextLaws 42 code) decode lines_on 10 (behind 0x1015) (outcome after_next).0
      (outcome after_next).1 refl refl
      (record { plain = armed-IsPatched.plain; armed = armed-IsPatched.armed })
      (outcome_lem after_next after_next_returns)

restart_command_keeps_example :
    HasUniquePcs (restart_command os (codes "/tmp/__t.go__") armed).1.infos
    × ((restart_command os (codes "/tmp/__t.go__") armed).1.process ≡ some 42)
restart_command_keeps_example =
    restart_command_keeps os (codes "/tmp/__t.go__") armed armed-HasUniquePcs

try_cutting_filename_inside :
    try_cutting_filename (ok (codes "/w")) (codes "/w/main.go") ≡ codes "main.go"
unfolding try_cutting_filename has_prefix
try_cutting_filename_inside = refl

try_cutting_filename_outside :
    try_cutting_filename (ok (codes "/w")) (codes "/web/main.go") ≡ codes "/web/main.go"
unfolding try_cutting_filename has_prefix
try_cutting_filename_outside = refl

-- A stack of one frame, whose caller is the function itself.
abbrev on_stack : Target Machine
on_stack = record armed {
  world = record (armed.world) {
    mem = write armed.world.mem 0x7100 (to_little_endian 8 0 ++ to_little_endian 8 0x1009);
  };
}

abbrev main_caller : Caller
main_caller = record {
  next = 0;
  ret = 0x1009;
  filename = codes "/t.go";
  lineno = pos 3;
  function = function;
}

trace_command-IsChain_example :
    trace_command os bi 2 on_stack
    ≡ some (
      ok tt,
      record on_stack {
        out =
            at_line (codes "/t.go") (pos 3)
            ∷ caller (codes "/t.go") (pos 3) (codes "main.main")
            ∷ [];
      },
    )
unfolding pc_to_file_line find_function_include_pc find_break_point
trace_command-IsChain_example =
    trace_command-IsChain os bi 42 2 (main_caller ∷ []) on_stack on_stack.world.regs (codes "/t.go")
      (pos 3) (omega arith) refl refl refl
      (
        record {
          not_null = omega arith;
          next_small = omega arith;
          ret_small = omega arith;
          saved = refl;
          at_line = refl;
          in_function = refl;
        },
        refl,
      )

-- A string on the stack, at an offset of 16 from the frame base.
abbrev greeting : Bytes
greeting = codes "hello"

abbrev with_string : Target Machine
with_string = record target {
  world = record (target.world) {
    mem =
        write (write target.world.mem 0x7018 (to_little_endian 8 0x9000 ++ to_little_endian 8 5))
          0x9000 greeting;
  };
}

abbrev text_variable : Variable
text_variable = record { name = some (codes "s"); location = some (dw_op_fbreg ∷ 16 ∷ []) }

abbrev with_variables : Bi
with_variables = record bi {
  functions = record function { variables = text_variable ∷ [] } ∷ [];
  frames_information = infos;
}
