-- ===== src/Cfa/Opcodes.antt =====
-- cfa.go, the masks and the opcodes that the interpreter names.
use godbg.Common.{ℕ}

abbrev pub low_6_offset : ℕ
low_6_offset = 0x3f

abbrev pub high_2_bits : ℕ
high_2_bits = 0xc0

abbrev pub dw_cfa_offset_extended : ℕ
dw_cfa_offset_extended = 0x05

abbrev pub dw_cfa_def_cfa : ℕ
dw_cfa_def_cfa = 0x0c

abbrev pub dw_cfa_def_cfa_register : ℕ
dw_cfa_def_cfa_register = 0x0d

abbrev pub dw_cfa_def_cfa_offset_sf : ℕ
dw_cfa_def_cfa_offset_sf = 0x13

abbrev pub dw_cfa_advance_loc : ℕ
dw_cfa_advance_loc = 0x40

abbrev pub dw_cfa_advance_loc1 : ℕ
dw_cfa_advance_loc1 = 0x02

abbrev pub dw_cfa_advance_loc2 : ℕ
dw_cfa_advance_loc2 = 0x03

abbrev pub dw_cfa_restore : ℕ
dw_cfa_restore = 0xc0

abbrev pub dw_cfa_nop : ℕ
dw_cfa_nop = 0x00

abbrev pub dw_cfa_offset : ℕ
dw_cfa_offset = 0x80
