-- ===== src/Cfa/Step.antt =====
-- One instruction.
use godbg.Common.{◌+◌, ◌≡◌, refl, arith, ◌++◌}
use godbg.Common.Bits.{high_two, low_six}
use godbg.Common.Bytes.{Bytes}
use godbg.Common.Result.{ok}
use godbg.Cfa.{Frame, exec_single_instruction}
use godbg.Cfa.Instructions.{
  Instruction, nop, advance_loc, advance_loc1, advance_loc2, offset_extended, restore, def_cfa,
  def_cfa_register, def_cfa_offset_sf, encode, IsInstruction, apply,
}
use godbg.Leb.Unsigned.{decode_uleb128_lem}
use godbg.Leb.Signed.{decode_sleb128_lem}
use mathlib.Core.List.{append_assoc}

-- On an instruction as the standard lays it out the interpreter does what `apply` says, and leaves
-- whatever follows the instruction.
pub exec_single_instruction-encode :
    (i : Instruction) (f : Frame) (rest : Bytes)
    → IsInstruction i
    → exec_single_instruction f (encode i ++ rest) ≡ (ok (apply i f), rest)
unfolding exec_single_instruction
exec_single_instruction-encode nop f rest h = refl
exec_single_instruction-encode (advance_loc d) f rest h =
    ground (arith, high_two (64 + d), low_six (64 + d))
exec_single_instruction-encode (advance_loc1 d) f rest h = refl
exec_single_instruction-encode (advance_loc2 d) f rest h = ground arith
exec_single_instruction-encode (offset_extended reg amount) f rest h = ground (
  arith,
  append_assoc reg amount rest,
  decode_uleb128_lem reg (amount ++ rest) h.0.0 h.0.1,
  decode_uleb128_lem amount rest h.1.0 h.1.1,
)
exec_single_instruction-encode (restore r) f rest h =
    ground (arith, high_two (192 + r), low_six (192 + r))
exec_single_instruction-encode (def_cfa reg amount) f rest h = ground (
  arith,
  append_assoc reg amount rest,
  decode_uleb128_lem reg (amount ++ rest) h.0.0 h.0.1,
  decode_uleb128_lem amount rest h.1.0 h.1.1,
)
exec_single_instruction-encode (def_cfa_register reg) f rest h =
    ground (arith, decode_uleb128_lem reg rest h.0 h.1)
exec_single_instruction-encode (def_cfa_offset_sf amount) f rest h =
    ground (arith, decode_sleb128_lem amount rest h.0 h.1)
