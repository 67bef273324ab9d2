-- ===== src/Tests/Sessions.antt =====
-- Sessions on a machine whose process never ends.
use godbg.Common.{length, ℕ, ◌%◌, ◌≡◌, refl, ◌⊎◌, inr, false, none, some, [], ◌∷◌, ◌++◌}
use godbg.Common.Bytes.{codes, equal}
use godbg.Common.Result.{ok}
use godbg.Target.{Os, Target}
use godbg.Bi.{lines_of, entries_of, file_line_to_pc_for_break_point}
use godbg.Breakpoint.{find_break_point}
use godbg.Breakpoint.Memory.{IsPatched}
use godbg.Executor.{break_command, continue_command}
use godbg.Executor.StepOver.{StepsOver}
use godbg.Executor.Continue.{continue_command-IsPatched}
use godbg.Prompt.{Replies, Setting, executor}
use godbg.Location.{split, atoi, parse_loc}
use godbg.Session.{SystemLaws, IsSafe, Reaches, here, line}
use godbg.Session.Safe.{Reaches-IsSafe}
use godbg.Tests.Machine.{Machine, os, machine-MemoryLaws, machine-IsWritable}
use godbg.Tests.Debugging.{code, info, armed, armed-IsPatched, armed-HasUniquePcs}
use godbg.Tests.Stepping.{lines_on, behind}
use godbg.Tests.Tables.{bi}
use godbg.Tests.Running.{decode}
use godbg.Listing.{read_slice}

-- The machine whose process never ends.
abbrev pub endless : Os
endless = record os {
  wait4 = λ w pid. (w, ok (pid, record { exited = false; stop_signal = some 5 }));
}

pub endless-SystemLaws : (pid : ℕ) → SystemLaws endless pid code
endless-SystemLaws pid = record {
  memory_laws = record {
    peek_one = (machine-MemoryLaws pid).peek_one;
    peek_poke = (machine-MemoryLaws pid).peek_poke;
    peek_poke_other = (machine-MemoryLaws pid).peek_poke_other;
    peek_set_regs = (machine-MemoryLaws pid).peek_set_regs;
  };
  writable = record { writes = (machine-IsWritable pid).writes };
  text = record {
    step_keeps = λ w a b at. refl;
    cont_keeps = λ w a b at. refl;
    wait_keeps = λ w a b at alive. refl;
  };
  stop_keeps = λ w to a b at. refl;
  start_keeps = λ w file a b at. refl;
  wait_started_keeps = λ w new a b at. refl;
}

pub endless-StepsOver : (pid : ℕ) → StepsOver endless pid code
endless-StepsOver pid = λ w regs b p s at e.
    let same : record { exited = false; stop_signal = some 5 } ≡ s = cc in rw (← same) refl

continue_command-IsPatched_example :
    ((continue_command endless lines_on (behind 0x1011)).1.infos ≡ info ∷ [])
    × (((continue_command endless lines_on (behind 0x1011)).1.process ≡ none)
        ⊎ (((continue_command endless lines_on (behind 0x1011)).1.process ≡ some 42)
            × IsPatched endless 42 code
                (info ∷ [])
                (continue_command endless lines_on (behind 0x1011)).1.world))
continue_command-IsPatched_example =
    continue_command-IsPatched endless 42 code (info ∷ []) (endless-SystemLaws 42).memory_laws
      (endless-SystemLaws 42).writable (endless-SystemLaws 42).text (endless-StepsOver 42) lines_on
      (behind 0x1011) refl refl
      (record { plain = armed-IsPatched.plain; armed = armed-IsPatched.armed })

abbrev pub prompt : Setting
prompt = record {
  decode = decode;
  base = λ name. name;
  cwd = ok (codes "/");
  join = λ dir name. dir ++ name;
  is_test = false;
  execfile = codes "t";
  fuel = 10;
}

abbrev reached : Replies Machine → Target Machine
reached none = armed
reached (some (r, u)) = u

-- A second breakpoint is set, and the process goes on.
abbrev with_second : Target Machine
with_second = reached (executor endless prompt bi (codes "b t.go:3") armed)

abbrev gone_on : Target Machine
gone_on = reached (executor endless prompt bi (codes "c") with_second)

second_set : length with_second.infos ≡ 2
unfolding executor break_command file_line_to_pc_for_break_point lines_of entries_of equal
    find_break_point parse_loc split atoi
second_set = refl

session : Reaches endless prompt bi armed gone_on
unfolding executor break_command file_line_to_pc_for_break_point lines_of entries_of equal
    find_break_point parse_loc split atoi continue_command read_slice
session = line (codes "c") (line (codes "b t.go:3") here refl) refl

armed-IsSafe : IsSafe endless 42 code armed
armed-IsSafe = record {
  unique = armed-HasUniquePcs;
  users = (refl, tt);
  memory = inr (refl, record { plain = armed-IsPatched.plain; armed = armed-IsPatched.armed });
}

Reaches-IsSafe_example : IsSafe endless 42 code gone_on
Reaches-IsSafe_example =
    Reaches-IsSafe endless 42 code prompt bi (endless-SystemLaws 42) (λ f l pc e. (pc % 256, refl))
      refl (endless-StepsOver 42) armed gone_on armed-IsSafe session
