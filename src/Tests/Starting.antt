-- ===== src/Tests/Starting.antt =====
-- The program, from its arguments to a session, on the executable file of `Tests.Executable`.
use godbg.Common.{◌%◌, ◌≡◌, refl, ◌⊎◌, false, Option, none, some, [], ◌∷◌, ◌++◌}
use godbg.Common.Bytes.{Bytes, codes, equal}
use godbg.Common.Result.{Result, ok}
use godbg.Target.{Target}
use godbg.Bi.{Bi}
use godbg.Analysis.Spec.{body_dies, type_dies, function_dies, unit_dies}
use godbg.Sections.{empty_bi, analyze}
use godbg.Output.{tracing, help}
use godbg.Restart.{runexec}
use godbg.Prompt.{Reply, goes_on, exits}
use godbg.Start.{
  Environment, prompted, check_args, absolute_filename, execfile_of, new_target, first_target, main,
}
use godbg.Start.Order.{IsPrompted, main-IsPrompted, main_removes}
use godbg.Tests.Machine.{Machine}
use godbg.Tests.Executable.{stored, open_file}
use godbg.Tests.Sessions.{endless}
use godbg.Frame.{
  parse_common_information_entry_byte, parse_frame_description_entry_byte, parse_frame_information,
}
use godbg.Buffer.{read_string}
use godbg.Leb.{decode_uleb128, decode_sleb128}

-- The machine before the program is started, and what surrounds it.
abbrev unstarted : Machine
unstarted = record {
  mem = λ a. a % 256;
  regs = record { rip = 0; rsp = 0; rbp = 0; others = [] };
  steps = 9;
}

abbrev surroundings : Environment endless
surroundings = record {
  args = codes "godbg" ∷ codes "debug" ∷ codes "t.go" ∷ [];
  ext = λ name. codes ".go";
  is_abs = λ name. false;
  join = λ dir name. dir ++ name;
  base = λ name. name;
  temp_dir = codes "/tmp/";
  getwd = ok (codes "/");
  stat = λ w name. none;
  go_build = λ w execfile name. (w, none);
  remove = λ w name. record w { steps = 0 };
  new_reader = stored;
  open_elf = λ w name. open_file name;
}

-- The end of the input behind no line, and the command `q`.
abbrev no_lines : Bi → Target Machine → Option Reply × Target Machine
no_lines bi t = (some goes_on, t)

abbrev at_once : Bi → Target Machine → Option Reply × Target Machine
at_once bi t = (some exits, t)

-- With `q`, the executable file is left where it is.
file_is_left : main endless surroundings at_once unstarted ≡ (prompted exits, unstarted)
unfolding main analyze equal unit_dies type_dies function_dies body_dies parse_frame_information
    parse_common_information_entry_byte read_string decode_uleb128 decode_sleb128
    parse_frame_description_entry_byte
file_is_left = refl

comes_to_prompt :
    main endless surroundings no_lines unstarted
    ≡ (prompted goes_on, record unstarted { steps = 0 })
unfolding main analyze equal unit_dies type_dies function_dies body_dies parse_frame_information
    parse_common_information_entry_byte read_string decode_uleb128 decode_sleb128
    parse_frame_description_entry_byte
comes_to_prompt = refl

main-IsPrompted_example :
    IsPrompted endless surroundings no_lines unstarted (record unstarted { steps = 0 }) goes_on
main-IsPrompted_example =
    main-IsPrompted endless surroundings no_lines unstarted (record unstarted { steps = 0 }) goes_on
      comes_to_prompt

arguments_pass : check_args surroundings.ext surroundings.args ≡ none
unfolding check_args equal
arguments_pass = refl

file_found : absolute_filename endless surroundings unstarted (codes "t.go") ≡ ok (codes "/t.go")
unfolding absolute_filename
file_found = refl

main_removes_example :
    ((main endless surroundings no_lines unstarted).0 ≡ prompted exits)
    ⊎ ((v : Machine) × ((main endless surroundings no_lines unstarted).1
          ≡ surroundings.remove v (execfile_of endless surroundings (codes "/t.go"))))
main_removes_example =
    main_removes endless surroundings no_lines unstarted unstarted (codes "/t.go") arguments_pass
      file_found refl

-- The tables of the executable file.
abbrev bi_of : Result Bi → Bi
bi_of (ok bi) = bi
bi_of _ = empty_bi

analyzed_now :
    analyze stored open_file (execfile_of endless surroundings (codes "/t.go"))
    ≡ ok (bi_of (analyze stored open_file (execfile_of endless surroundings (codes "/t.go"))))
unfolding analyze equal unit_dies type_dies function_dies body_dies parse_frame_information
    parse_common_information_entry_byte read_string decode_uleb128 decode_sleb128
    parse_frame_description_entry_byte execfile_of
analyzed_now = refl

started_now :
    (execfile : Bytes)
    → runexec endless execfile (new_target endless surroundings unstarted)
      ≡ (ok 43, new_target endless surroundings unstarted)
unfolding runexec
started_now execfile = refl

abbrev at_prompt :
    IsPrompted endless surroundings no_lines unstarted (record unstarted { steps = 0 }) goes_on
at_prompt = record {
  program = codes "godbg";
  file = codes "t.go";
  filename = codes "/t.go";
  built_in = unstarted;
  bi = bi_of (analyze stored open_file (execfile_of endless surroundings (codes "/t.go")));
  started_in = new_target endless surroundings unstarted;
  pid = 43;
  args_are = refl;
  go_file = refl;
  found = file_found;
  built = refl;
  analyzed = analyzed_now;
  started = started_now (execfile_of endless surroundings (codes "/t.go"));
  replied = refl;
  ended = refl;
}

-- The state behind the command `h`.
abbrev helped : Target Machine
helped = record (first_target endless surroundings unstarted 43) { out = tracing 43 ∷ help ∷ [] }
