-- ===== src/Tests/Decoding.antt =====
-- Numbers, entries of .debug_frame and call-frame instructions.
use godbg.Common.{ℕ, ◌≡◌, refl, arith, none, some, List, [], ◌∷◌, ◌++◌}
use godbg.Common.Bytes.{Bytes}
use godbg.Common.Int.{negsuc, signed64, wrap64}
use godbg.Common.Result.{Result, ok}
use godbg.Common.{◌<◌, All}
use godbg.Common.Bytes.{equal}
use godbg.Buffer.{read_string}
use godbg.Frame.{
  VirtualUnwindFrameInformation, parse_frames, parse_frame_information,
  parse_common_information_entry_byte, parse_frame_description_entry_byte,
}
use godbg.Frame.Print.{
  CieLayout, FdeLayout, Layout, cie, fde, IsCie, IsFde, print_all, info_of, infos_of, cie_of,
  IsEntry,
}
use godbg.Frame.Section.{parse_frames-print_all, parse_frames_total}
use godbg.Cfa.{Frame, exec_fde_instructions}
use godbg.Cfa.Instructions.{
  Instruction, nop, advance_loc, advance_loc1, def_cfa, def_cfa_offset_sf, encode_all,
  IsInstruction, IsOperand, row,
}
use godbg.Cfa.Run.{exec_fde_instructions_total}
use godbg.Cfa.Table.{exec_fde_instructions-encode_all}
use godbg.Unwind.{new_frame}
use godbg.Leb.{decode_uleb128, decode_sleb128}
use godbg.Leb.Numbers.{IsLeb, last, more}
use godbg.Leb.Signed.{decode_sleb128_lem, signed64-decode_sleb128}
use godbg.Leb.Unsigned.{decode_uleb128_lem}

-- 624485, and its negation, from the encyclopedia article that the source cites.
abbrev number : Bytes
number = 0xe5 ∷ 0x8e ∷ 0x26 ∷ []

abbrev negative : Bytes
negative = 0xc0 ∷ 0xbb ∷ 0x78 ∷ []

number-IsLeb : IsLeb number
number-IsLeb =
    more (omega arith) (omega arith) (more (omega arith) (omega arith) (last (omega arith)))

negative-IsLeb : IsLeb negative
negative-IsLeb =
    more (omega arith) (omega arith) (more (omega arith) (omega arith) (last (omega arith)))

decode_number : decode_uleb128 (number ++ (7 ∷ [])) ≡ (ok (624485, 3), 7 ∷ [])
unfolding decode_uleb128
decode_number = refl

decode_negative : decode_sleb128 negative ≡ (ok (wrap64 (negsuc 123455), 3), [])
unfolding decode_sleb128
decode_negative = refl

decode_uleb128_lem_example : decode_uleb128 (number ++ (7 ∷ [])) ≡ (ok (624485, 3), 7 ∷ [])
decode_uleb128_lem_example = decode_uleb128_lem number (7 ∷ []) number-IsLeb (omega arith)

decode_sleb128_lem_example : decode_sleb128 (negative ++ []) ≡ (ok (wrap64 (negsuc 123455), 3), [])
decode_sleb128_lem_example = decode_sleb128_lem negative [] negative-IsLeb (omega arith)

signed64-decode_sleb128_example :
    (w : ℕ) × (decode_sleb128 (negative ++ []) ≡ (ok (w, 3), [])) × (signed64 w ≡ negsuc 123455)
signed64-decode_sleb128_example =
    signed64-decode_sleb128 negative [] negative-IsLeb (omega arith) (omega arith)

-- The CIE that the Go linker writes, and an FDE of 32 bytes.
abbrev pub go_instructions : List Instruction
go_instructions = def_cfa (7 ∷ []) (8 ∷ []) ∷ nop ∷ []

abbrev pub go_cie : CieLayout
go_cie = record {
  version = 3;
  augmentation = [];
  code = 1 ∷ [];
  factor = 0x7c ∷ [];
  register = 16 ∷ [];
  instructions = encode_all go_instructions;
}

abbrev pub body_instructions : List Instruction
body_instructions = advance_loc 4 ∷ def_cfa_offset_sf (0x7e ∷ []) ∷ advance_loc1 20 ∷ nop ∷ []

abbrev pub go_fde : FdeLayout
go_fde = record {
  mark = 0;
  begin = 0x1000;
  size = 0x20;
  instructions = encode_all body_instructions;
}

go_cie-IsCie : IsCie go_cie
go_cie-IsCie = record {
  text = tt;
  code_IsLeb = last (omega arith);
  factor_IsLeb = last (omega arith);
  register_IsLeb = last (omega arith);
  fits = omega arith;
}

go_fde-IsFde : IsFde go_fde
go_fde-IsFde = omega arith

abbrev pub section : List Layout
section = cie go_cie ∷ fde go_fde ∷ []

pub section-IsEntry : All IsEntry section
section-IsEntry = (go_cie-IsCie, (go_fde-IsFde, tt))

-- -4 and 16, and the FDE with its CIE.
parse_section :
    parse_frames (print_all section) []
    ≡ some (ok (info_of none (cie go_cie) ∷ info_of (some (cie_of go_cie)) (fde go_fde) ∷ []))
unfolding parse_frames parse_frame_information parse_common_information_entry_byte
    parse_frame_description_entry_byte read_string decode_uleb128 decode_sleb128 equal
parse_section = refl

parse_frames-print_all_example :
    parse_frames (print_all section) [] ≡ some (ok ([] ++ infos_of none section))
parse_frames-print_all_example = parse_frames-print_all section [] section-IsEntry

parse_frames_total_example :
    (r : Result (List VirtualUnwindFrameInformation)) × (parse_frames (9 ∷ 9 ∷ []) [] ≡ some r)
parse_frames_total_example = parse_frames_total (9 ∷ 9 ∷ []) []

abbrev pub frame : Frame
frame = new_frame (cie_of go_cie)

operand : (b : ℕ) → b < 128 → IsOperand (b ∷ [])
operand b h = (last h, omega arith)

pub go_instructions-All : All IsInstruction go_instructions
go_instructions-All = ((operand 7 (omega arith), operand 8 (omega arith)), (tt, tt))

pub body_instructions-All : All IsInstruction body_instructions
body_instructions-All = (omega arith, (operand 0x7e (omega arith), (omega arith, (tt, tt))))

exec_fde_instructions-encode_all_example :
    exec_fde_instructions frame (encode_all body_instructions)
    ≡ some (ok (row body_instructions frame))
exec_fde_instructions-encode_all_example =
    exec_fde_instructions-encode_all body_instructions frame body_instructions-All

exec_fde_instructions_total_example :
    (r : Result Frame) × (exec_fde_instructions frame (0x05 ∷ []) ≡ some r)
exec_fde_instructions_total_example = exec_fde_instructions_total frame (0x05 ∷ [])
