-- ===== src/Tests/Tables.antt =====
-- Source lines, functions and frames.
use godbg.Common.{
  ℕ, ◌+◌, ◌%◌, ◌^◌, ◌<◌, ◌≡◌, refl, arith, Bool, true, false, none, some, List, [], ◌∷◌, ◌⊎◌, All,
}
use godbg.Bi.{
  LineEntry, Function, Bi, Sources, lines_of, entries_of, entries_in, pc_to_file_line,
  file_line_to_pc_for_break_point,
}
use godbg.Bi.Lookup.{Chooses, file_line_to_pc_for_break_point-Chooses}
use godbg.Bi.Nearest.{IsNearest, rows, pc_to_file_line_nearest}
use godbg.Cfa.{Frame}
use godbg.Cfa.Instructions.{Instruction, apply_all, def_cfa_register, encode_all}
use godbg.Common.Bytes.{Bytes, codes, equal}
use godbg.Common.Int.{ℤ, pos}
use godbg.Common.Result.{ok, err, duplicate_fde, invalid_cfa_rule}
use godbg.Frame.{CommonInformationEntry, FrameDescriptionEntry, VirtualUnwindFrameInformation}
use godbg.Frame.Print.{cie, cie_of, fde_of, info_of}
use godbg.Target.{Target, PtraceRegs}
use godbg.Tests.Decoding.{
  go_cie, go_fde, go_instructions, go_instructions-All, body_instructions, body_instructions-All,
}
use godbg.Tests.Machine.{Machine, os}
use godbg.Leb.Numbers.{last}
use godbg.Unwind.{new_frame, find_fde, find_frame_information}
use godbg.Unwind.Base.{
  Describes, table_row, find_frame_information_base, find_frame_information_register,
}
use godbg.Unwind.Cover.{IsOnly, find_fde-IsOnly, find_fde_adjacent}

abbrev pub at : ℕ → Bool → LineEntry
at address ends = record {
  file = some (codes "/t.go");
  line = pos 1;
  address = address;
  prologue_end = ends;
}

abbrev pub sources : Sources
sources =
    (
      codes "/t.go",
      (pos 3, at 0x1000 false ∷ at 0x1008 true ∷ []) ∷ (pos 4, at 0x1010 false ∷ []) ∷ [],
    )
    ∷ []

abbrev pub function : Function
function = record {
  name = codes "main.main";
  lowpc = 0x1000;
  highpc = 0x1020;
  frame_base = [];
  decl_file = pos 1;
  external = true;
  variables = [];
  cu = 0;
}

abbrev pub bi : Bi
bi = record {
  sources = some sources;
  functions = function ∷ [];
  compile_units = [];
  frames_information = [];
}

nearest_line : pc_to_file_line bi 0x100c ≡ ok (codes "/t.go", pos 3)
unfolding pc_to_file_line
nearest_line = refl

no_line : pc_to_file_line bi 0xfff ≡ ok ([], pos 0)
unfolding pc_to_file_line
no_line = refl

pc_to_file_line_nearest_example :
    (r : Bytes × ℤ) × (pc_to_file_line bi 0x100c ≡ ok r)
    × (IsNearest 0x100c (rows sources) r
        ⊎ ((r ≡ ([], pos 0)) × All (λ row. 0x100c < row.2.address) (rows sources)))
pc_to_file_line_nearest_example = pc_to_file_line_nearest bi sources 0x100c refl

break_point_line : file_line_to_pc_for_break_point bi (codes "/t.go") (pos 3) ≡ ok 0x1008
unfolding file_line_to_pc_for_break_point equal lines_of entries_of
break_point_line = refl

file_line_to_pc_for_break_point-Chooses_example :
    Chooses
      (entries_in bi.sources (codes "/t.go") (pos 3))
      (file_line_to_pc_for_break_point bi (codes "/t.go") (pos 3))
file_line_to_pc_for_break_point-Chooses_example =
    file_line_to_pc_for_break_point-Chooses bi (codes "/t.go") (pos 3)

abbrev pub entry_cie : CommonInformationEntry
entry_cie = cie_of go_cie

abbrev pub entry_fde : FrameDescriptionEntry
entry_fde = fde_of (some entry_cie) go_fde

abbrev next_fde : FrameDescriptionEntry
next_fde = record entry_fde { begin = 0x1020; size = 8 }

abbrev as_info : FrameDescriptionEntry → VirtualUnwindFrameInformation
as_info f = record { len = 0; cie = none; fde = some f }

abbrev pub infos : List VirtualUnwindFrameInformation
infos = info_of none (cie go_cie) ∷ as_info entry_fde ∷ as_info next_fde ∷ []

find_fde-IsOnly_example : IsOnly infos 0x1010 (find_fde infos 0x1010)
find_fde-IsOnly_example = find_fde-IsOnly infos 0x1010

find_fde_adjacent_example : find_fde infos 0x1020 ≡ err duplicate_fde
find_fde_adjacent_example =
    find_fde_adjacent infos 1 2 (as_info entry_fde) (as_info next_fde) entry_fde next_fde
      (omega arith) refl refl refl refl refl (omega arith)

abbrev pub regs : PtraceRegs
regs = record { rip = 0x1010; rsp = 0x7000; rbp = 0x7100; others = [] }

abbrev pub target : Target Machine
target = record {
  world = record { mem = λ a. a % 256; regs = regs; steps = 9 };
  infos = [];
  process = some 42;
  out = [];
}

found_fde : find_fde infos 0x1010 ≡ ok entry_fde
unfolding find_fde
found_fde = refl

pub described : Describes infos 0x1010 entry_cie entry_fde go_instructions body_instructions
described = record {
  only = found_fde;
  owner = refl;
  initial = refl;
  body = refl;
  is_valid = go_instructions-All;
  js_valid = body_instructions-All;
}

abbrev pub here : Frame
here = table_row entry_cie 0x1000 0x1010 go_instructions body_instructions

find_frame_information_base_example :
    (f : Frame) × (find_frame_information os infos 0x1010 target ≡ (ok f, target))
    × (f.framebase ≡ (regs.rsp + here.cfa.offset) % 2 ^ 64)
find_frame_information_base_example =
    find_frame_information_base os target infos 0x1010 42 regs.rsp entry_cie entry_fde
      go_instructions body_instructions regs described refl refl refl refl (omega arith)

-- A row whose only instruction of the FDE is `DW_CFA_def_cfa_register`.
abbrev register_instructions : List Instruction
register_instructions = def_cfa_register (6 ∷ []) ∷ []

abbrev register_fde : FrameDescriptionEntry
register_fde = record entry_fde { instructions = encode_all register_instructions }

abbrev register_infos : List VirtualUnwindFrameInformation
register_infos = info_of none (cie go_cie) ∷ as_info register_fde ∷ []

register_found : find_fde register_infos 0x1010 ≡ ok register_fde
unfolding find_fde
register_found = refl

register_described :
    Describes register_infos 0x1010 entry_cie register_fde go_instructions register_instructions
register_described = record {
  only = register_found;
  owner = refl;
  initial = refl;
  body = refl;
  is_valid = go_instructions-All;
  js_valid = ((last (omega arith), omega arith), tt);
}

abbrev before_register : Frame
before_register = record (apply_all go_instructions (new_frame entry_cie)) {
  loc = 0x1000;
  address = 0x1010;
}

find_frame_information_register_example :
    find_frame_information os register_infos 0x1010 target ≡ (err invalid_cfa_rule, target)
find_frame_information_register_example =
    find_frame_information_register os target register_infos 0x1010 42 entry_cie register_fde
      go_instructions register_instructions regs (6 ∷ []) before_register register_described refl
      refl refl
