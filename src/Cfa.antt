-- ===== src/Cfa.antt =====
-- cfa.go: the instructions that compute the canonical frame address. `Frame` is that of frame.go.
-- An int64 is its 64-bit pattern; the map `regsRule` is a function. Every error leaves the frame as
-- it was, and its callers drop it, so an error carries no frame.
pub mod Opcodes
pub mod Instructions
pub mod Step
pub mod Run
pub mod Table
use godbg.Common.{
  ℕ, zero, suc, ◌+◌, ◌*◌, ◌%◌, ◌^◌, Bool, true, false, ◌&&◌, Option, none, some, List, [], ◌∷◌,
  length, leb, ltb, ◌==◌, if◌then◌else◌, bit_and,
}
use godbg.Common.Bytes.{Bytes}
use godbg.Common.Result.{Result, ok, err, panic, unknown_byte, eof}
use godbg.Buffer.{Read, ◌>>=◌, pure, read_byte, read_number}
use godbg.Cfa.Opcodes.{
  low_6_offset, high_2_bits, dw_cfa_offset_extended, dw_cfa_def_cfa, dw_cfa_def_cfa_register,
  dw_cfa_def_cfa_offset_sf, dw_cfa_advance_loc, dw_cfa_advance_loc1, dw_cfa_advance_loc2,
  dw_cfa_restore, dw_cfa_nop, dw_cfa_offset,
}
use godbg.Frame.{CommonInformationEntry}
use godbg.Leb.{Decoded, decode_uleb128, decode_sleb128}

pub data Rule : Type 0 where
  undefined same_val offset val_offset register expression val_expression : Rule
  architectural cfa frame_pointer : Rule

pub record DwRule : Type 0 where
  pub offset : ℕ
  pub reg : ℕ
  pub rule : Rule

pub record Frame : Type 0 where
  pub instructions : Bytes
  pub address : ℕ
  pub cie : CommonInformationEntry
  pub offset : ℕ
  pub cfa : DwRule
  pub regs_rule : ℕ → Option DwRule
  pub regs : List ℕ
  pub framebase : ℕ
  pub loc : ℕ

-- `frame.regsRule[reg] = rule`
abbrev pub set_rule : Frame → ℕ → DwRule → Frame
set_rule f reg rule = record f { regs_rule = λ k. if k == reg then some rule else f.regs_rule k }

-- `frame.loc += uint64(delta) * frame.cie.code_alignment_factor`
abbrev pub advance : Frame → ℕ → Frame
advance f delta = record f { loc = (f.loc + delta * f.cie.code_alignment_factor % 2 ^ 64) % 2 ^ 64 }

-- `int64(a) * int64(b)`
abbrev pub times : ℕ → ℕ → ℕ
times a b = a * b % 2 ^ 64

-- `v, _, _ := DecodeULEB128(buf)`: 0 where the buffer ends inside the number.
abbrev pub value_or_zero : Decoded → Result ℕ × Bytes
value_or_zero (ok (v, len), rest) = (ok v, rest)
value_or_zero (err e, rest) = (ok 0, rest)
value_or_zero (panic, rest) = (panic, rest)

abbrev pub uleb : Read ℕ
uleb buf = value_or_zero (decode_uleb128 buf)

abbrev pub sleb : Read ℕ
sleb buf = value_or_zero (decode_sleb128 buf)

abbrev pub u16 : Read ℕ
u16 buf = let (v, rest) = read_number 2 buf in (ok v, rest)

-- The first switch: an instruction that holds an operand is put back, and named by its high bits.
abbrev pub has_operand : ℕ → Bool
has_operand b =
    let high = bit_and b high_2_bits in
    if high == dw_cfa_advance_loc
    then true
    else if high == dw_cfa_offset
    then true
    else high == dw_cfa_restore

abbrev pub opcode : ℕ → ℕ
opcode b = if has_operand b then bit_and b high_2_bits else b

-- The second switch.
pub exec_opcode : ℕ → Frame → Read Frame
exec_opcode op f =
    if op == dw_cfa_offset_extended
    then (do
      reg ← uleb
      amount ← uleb
      pure (
          set_rule f reg (record {
            offset = times amount f.cie.data_alignment_factor;
            reg = 0;
            rule = Rule.offset;
          })))
    else if op == dw_cfa_def_cfa
    then (do
      reg ← uleb
      amount ← uleb
      pure (record f { cfa = record { offset = amount; reg = reg; rule = Rule.cfa } }))
    else if op == dw_cfa_def_cfa_register
    then (do
      reg ← uleb
      pure (record f { cfa = record (f.cfa) { reg = reg; rule = Rule.undefined } }))
    else if op == dw_cfa_def_cfa_offset_sf
    then (do
      amount ← sleb
      pure
          (record f { cfa = record (f.cfa) { offset = times amount f.cie.data_alignment_factor } }))
    else if op == dw_cfa_advance_loc
    then (do b ← read_byte; pure (advance f (bit_and b low_6_offset)))
    else if op == dw_cfa_advance_loc1
    then (do delta ← read_byte; pure (advance f delta))
    else if op == dw_cfa_advance_loc2
    then (do delta ← u16; pure (advance f delta))
    else if op == dw_cfa_restore
    then (do
      b ← read_byte
      pure (
          set_rule f (bit_and b low_6_offset)
            (record { offset = 0; reg = 0; rule = Rule.undefined })))
    else if op == dw_cfa_nop
    then pure f
    else λ buf. (err (unknown_byte op), buf)

unfoldable pub exec_single_instruction : Frame → Read Frame
unfolding exec_opcode
exec_single_instruction f [] = (err eof, [])
exec_single_instruction f (b ∷ rest) =
    exec_opcode (opcode b) f (if has_operand b then b ∷ rest else rest)

-- Both loops take fuel; `none` means that it ran out.
pub cie_loop : ℕ → Frame → Bytes → Option (Result Frame)
cie_loop fuel f [] = some (ok f)
cie_loop zero f (b ∷ bs) = none
cie_loop (suc fuel) f (b ∷ bs) =
    let (r, rest) = exec_single_instruction f (b ∷ bs) in
    elim r [ ok f' ↦ cie_loop fuel f' rest | err e ↦ some (err e) | panic ↦ some panic ]

pub fde_loop : ℕ → Frame → Bytes → Option (Result Frame)
fde_loop fuel f [] = some (ok f)
fde_loop zero f (b ∷ bs) = none
fde_loop (suc fuel) f (b ∷ bs) =
    let (r, rest) = exec_single_instruction f (b ∷ bs) in
    let more : Option (Result Frame) = elim r [
      | ok f' ↦ fde_loop fuel f' rest
      | err e ↦ some (err e)
      | panic ↦ some panic
    ] in
    if leb f.loc f.address then more else some (ok f)

-- A round takes a byte at least, so one round for each byte is enough.
unfoldable pub exec_cie_instructions : Frame → Bytes → Option (Result Frame)
unfolding cie_loop
exec_cie_instructions f buf = cie_loop (length buf) f buf

unfoldable pub exec_fde_instructions : Frame → Bytes → Option (Result Frame)
unfolding fde_loop
exec_fde_instructions f buf = fde_loop (length buf) f buf
