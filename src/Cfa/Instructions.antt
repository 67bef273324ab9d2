-- ===== src/Cfa/Instructions.antt =====
-- Call-frame instructions as the DWARF standard lays them out, and what each does to a row: the
-- reference that the interpreter is held to. The operands are LEB128 byte strings or plain numbers.
use godbg.Common.{
  ℕ, ◌+◌, ◌*◌, ◌==◌, some, ◌%◌, ◌^◌, ◌<◌, List, [], ◌∷◌, ◌++◌, length, leb, if◌then◌else◌,
}
use godbg.Common.Bytes.{Bytes, to_little_endian}
use godbg.Common.Int.{wrap64}
use godbg.Cfa.{Frame, Rule, DwRule}
use godbg.Leb.Numbers.{IsLeb, uleb_value, sleb_value}

pub data Instruction : Type 0 where
  nop : Instruction
  advance_loc : ℕ → Instruction
  advance_loc1 : ℕ → Instruction
  advance_loc2 : ℕ → Instruction
  offset_extended : Bytes → Bytes → Instruction
  restore : ℕ → Instruction
  def_cfa : Bytes → Bytes → Instruction
  def_cfa_register : Bytes → Instruction
  def_cfa_offset_sf : Bytes → Instruction

abbrev pub encode : Instruction → Bytes
encode nop = 0x00 ∷ []
encode (advance_loc delta) = (0x40 + delta) ∷ []
encode (advance_loc1 delta) = 0x02 ∷ delta ∷ []
encode (advance_loc2 delta) = 0x03 ∷ to_little_endian 2 delta
encode (offset_extended reg amount) = 0x05 ∷ (reg ++ amount)
encode (restore reg) = (0xc0 + reg) ∷ []
encode (def_cfa reg amount) = 0x0c ∷ (reg ++ amount)
encode (def_cfa_register reg) = 0x0d ∷ reg
encode (def_cfa_offset_sf amount) = 0x13 ∷ amount

abbrev pub encode_all : List Instruction → Bytes
encode_all [] = []
encode_all (i ∷ is) = encode i ++ encode_all is

-- One number of less than 2^32 bytes.
abbrev pub IsOperand : Bytes → Type 0
IsOperand cs = IsLeb cs × (length cs < 2 ^ 32)

abbrev pub IsInstruction : Instruction → Type 0
IsInstruction nop = Unit
IsInstruction (advance_loc delta) = delta < 64
IsInstruction (advance_loc1 delta) = delta < 256
IsInstruction (advance_loc2 delta) = delta < 2 ^ 16
IsInstruction (offset_extended reg amount) = IsOperand reg × IsOperand amount
IsInstruction (restore reg) = reg < 64
IsInstruction (def_cfa reg amount) = IsOperand reg × IsOperand amount
IsInstruction (def_cfa_register reg) = IsOperand reg
IsInstruction (def_cfa_offset_sf amount) = IsOperand amount

-- The location moves by `delta` units of code, modulo 2^64.
abbrev moved : ℕ → Frame → Frame
moved delta f = record f { loc = (f.loc + delta * f.cie.code_alignment_factor % 2 ^ 64) % 2 ^ 64 }

-- An operand that is factored by the alignment of the data, modulo 2^64.
abbrev factored : ℕ → Frame → ℕ
factored n f = n * f.cie.data_alignment_factor % 2 ^ 64

abbrev with_rule : ℕ → DwRule → Frame → Frame
with_rule reg rule f = record f { regs_rule = λ k. if k == reg then some rule else f.regs_rule k }

-- Two instructions mean what this interpreter makes of them and not what the standard says: `restore`
-- leaves the register undefined, and `def_cfa_register` drops the rule of the frame address.
abbrev pub apply : Instruction → Frame → Frame
apply nop f = f
apply (advance_loc delta) f = moved delta f
apply (advance_loc1 delta) f = moved delta f
apply (advance_loc2 delta) f = moved delta f
apply (offset_extended reg amount) f =
    with_rule (uleb_value reg % 2 ^ 64)
      (record { offset = factored (uleb_value amount % 2 ^ 64) f; reg = 0; rule = Rule.offset }) f
apply (restore reg) f = with_rule reg (record { offset = 0; reg = 0; rule = Rule.undefined }) f
apply (def_cfa reg amount) f = record f {
  cfa = record {
    offset = uleb_value amount % 2 ^ 64;
    reg = uleb_value reg % 2 ^ 64;
    rule = Rule.cfa;
  };
}
apply (def_cfa_register reg) f = record f {
  cfa = record (f.cfa) { reg = uleb_value reg % 2 ^ 64; rule = Rule.undefined };
}
apply (def_cfa_offset_sf amount) f = record f {
  cfa = record (f.cfa) { offset = factored (wrap64 (sleb_value amount)) f };
}

abbrev pub apply_all : List Instruction → Frame → Frame
apply_all [] f = f
apply_all (i ∷ is) f = apply_all is (apply i f)

-- The row of the table for `f.address`: the instructions up to the first that moves past it.
abbrev pub row : List Instruction → Frame → Frame
row [] f = f
row (i ∷ is) f = let rest = row is (apply i f) in if leb f.loc f.address then rest else f
