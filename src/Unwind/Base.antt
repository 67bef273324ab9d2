-- ===== src/Unwind/Base.antt =====
-- The frame base of a pc, from the table of the standard: the initial rules of the CIE, then the row
-- of the FDE.
use godbg.Common.{
  Bool-cases, inl, inr, ℕ, ◌==◌, if◌then◌else◌, Option, none, sym, ◌+◌, ◌%◌, ◌^◌, ◌<◌, ◌≡◌, ◌≢◌,
  refl, ap, ◌∙◌, arith, some, List, All, get_or,
}
use godbg.Common.Bytes.{Bytes}
use godbg.Common.Result.{ok, err, invalid_cfa_rule}
use godbg.Cfa.{Frame, Rule, exec_cie_instructions, exec_fde_instructions}
use godbg.Cfa.Instructions.{
  Instruction, IsInstruction, encode_all, apply, apply_all, row, def_cfa_register,
}
use godbg.Cfa.Table.{exec_cie_instructions-encode_all, exec_fde_instructions-encode_all}
use godbg.Frame.{CommonInformationEntry, FrameDescriptionEntry, VirtualUnwindFrameInformation}
use godbg.Target.{Os, Target, PtraceRegs}
use godbg.Unwind.{new_frame, find_fde, row_of, dwarf_regs, frame_with_base, find_frame_information}

-- The row of the table for `pc`: the instructions `is` of the CIE, then those of the FDE, `js`, up to
-- the first that moves past `pc`.
abbrev pub table_row : CommonInformationEntry → ℕ → ℕ → List Instruction → List Instruction → Frame
table_row cie begin pc is js =
    row js (record (apply_all is (new_frame cie)) { loc = begin; address = pc })

-- The entries that hold the pc, with instructions as the standard lays them out.
pub record Describes (infos : List VirtualUnwindFrameInformation) (pc : ℕ)
    (cie : CommonInformationEntry) (fde : FrameDescriptionEntry) (is js : List Instruction)
    : Type 0 where
  pub only : find_fde infos pc ≡ ok fde
  pub owner : fde.cie ≡ some cie
  pub initial : cie.initial_instructions ≡ encode_all is
  pub body : fde.instructions ≡ encode_all js
  pub is_valid : All IsInstruction is
  pub js_valid : All IsInstruction js

module _ {infos : List VirtualUnwindFrameInformation} {pc : ℕ} {cie : CommonInformationEntry}
    {fde : FrameDescriptionEntry} {is js : List Instruction}
    (d : Describes infos pc cie fde is js) where
  row_of-table_row : row_of fde pc (some cie) ≡ ok (table_row cie fde.begin pc is js)
  row_of-table_row =
      let start : Frame = record (apply_all is (new_frame cie)) { loc = fde.begin; address = pc } in
      let from_cie : exec_cie_instructions (new_frame cie) cie.initial_instructions
          ≡ some (ok (apply_all is (new_frame cie))) =
        ap (exec_cie_instructions (new_frame cie)) d.initial
        ∙ exec_cie_instructions-encode_all is (new_frame cie) d.is_valid in
      let from_fde : exec_fde_instructions start fde.instructions ≡ some (ok (row js start)) =
        ap (exec_fde_instructions start) d.body
        ∙ exec_fde_instructions-encode_all js start d.js_valid in
      rw from_cie (rw from_fde)

  module _ (os : Os) (t : Target os.World) {regs : PtraceRegs} {pid : ℕ}
      (runs : t.process ≡ some pid) (read : os.get_regs t.world pid ≡ ok regs) where
    find_frame_information-row :
        find_frame_information os infos pc t
        ≡ (frame_with_base (table_row cie fde.begin pc is js) regs, t)
    unfolding find_frame_information
    find_frame_information-row = ground (arith, d.only, d.owner, row_of-table_row, runs, read)

-- The registers of x86-64 by their DWARF numbers (System V ABI, figure 3.36), of which the program
-- knows the frame pointer, the stack pointer and the return address.
abbrev pub dwarf_register : ℕ → PtraceRegs → Option ℕ
dwarf_register n regs =
    if n == 6
    then some regs.rbp
    else if n == 7
    then some regs.rsp
    else if n == 16
    then some regs.rip
    else none

some_inj : {A : Type 0} {x y : A} → some x ≡ some y → x ≡ y
some_inj e = cc

dwarf_regs-dwarf_register :
    (n v : ℕ) (regs : PtraceRegs)
    → dwarf_register n regs ≡ some v
    → (n < 17) × (get_or (dwarf_regs regs) n 0 ≡ v)
dwarf_regs-dwarf_register n v regs e = elim (Bool-cases (n == 6)) [
  | inl six ↦ let at : n ≡ 6 = ground arith in rw at (omega arith, some_inj (rw six at e))
  | inr not_six ↦ elim (Bool-cases (n == 7)) [
    | inl seven ↦
        let at : n ≡ 7 = ground arith in rw at (omega arith, some_inj (rw (not_six, seven) at e))
    | inr not_seven ↦ elim (Bool-cases (n == 16)) [
      | inl sixteen ↦
          let at : n ≡ 16 = ground arith in
          rw at (omega arith, some_inj (rw (not_six, not_seven, sixteen) at e))
      | inr not_sixteen ↦
          absurd (let no : none ≡ some v = rw (not_six, not_seven, not_sixteen) at e in cc)
    ]
  ]
]

frame_with_base_cfa :
    (f : Frame) (regs : PtraceRegs)
    → f.cfa.rule ≡ Rule.cfa
    → f.cfa.reg < 17
    → get_or (dwarf_regs regs) f.cfa.reg 0 ≢ 0
    → frame_with_base f regs
      ≡ ok (record f {
        regs = dwarf_regs regs;
        framebase = (get_or (dwarf_regs regs) f.cfa.reg 0 + f.cfa.offset) % 2 ^ 64;
      })
unfolding frame_with_base
frame_with_base_cfa f regs is_cfa small nonzero = ground arith

frame_with_base_register :
    (f : Frame) (reg : Bytes) (regs : PtraceRegs)
    → frame_with_base (apply (def_cfa_register reg) f) regs ≡ err invalid_cfa_rule
unfolding frame_with_base
frame_with_base_register f reg regs = refl

-- In a process that runs and whose registers can be read, where the section has one FDE for the pc and
-- the row for the pc says that the frame address is the frame pointer (6), the stack pointer (7) or the
-- return address (16) plus an offset, and that register is not 0: the lookup gives that sum, modulo
-- 2^64, as the frame base, and leaves the debugger and the machine as they were. The row is that of the
-- instructions of the CIE and then of the FDE, up to the first that moves past the pc.
pub find_frame_information_base :
    (os : Os) (t : Target os.World) (infos : List VirtualUnwindFrameInformation) (pc pid v : ℕ)
    (cie : CommonInformationEntry) (fde : FrameDescriptionEntry) (is js : List Instruction)
    (regs : PtraceRegs)
    → Describes infos pc cie fde is js
    → t.process ≡ some pid
    → os.get_regs t.world pid ≡ ok regs
    → (table_row cie fde.begin pc is js).cfa.rule ≡ Rule.cfa
    → dwarf_register (table_row cie fde.begin pc is js).cfa.reg regs ≡ some v
    → v ≢ 0
    → (frame : Frame) × (find_frame_information os infos pc t ≡ (ok frame, t))
      × (frame.framebase ≡ (v + (table_row cie fde.begin pc is js).cfa.offset) % 2 ^ 64)
find_frame_information_base os t infos pc pid v cie fde is js regs d runs read rule_is holds
      nonzero =
    let f = table_row cie fde.begin pc is js in
    let (small, here) = dwarf_regs-dwarf_register f.cfa.reg v regs holds in
    (
      record f {
        regs = dwarf_regs regs;
        framebase = (get_or (dwarf_regs regs) f.cfa.reg 0 + f.cfa.offset) % 2 ^ 64;
      },
      find_frame_information-row d os t runs read
          ∙ ap (λ r. (r, t))
              (frame_with_base_cfa f regs rule_is small (λ z. nonzero (sym here ∙ z))),
      ap (λ x. (x + f.cfa.offset) % 2 ^ 64) here,
    )

-- In a process that runs and whose registers can be read, where the section has one FDE for the pc: if
-- `DW_CFA_def_cfa_register` is the last instruction that the row for the pc executes, the lookup
-- fails, whatever the registers hold, since the instruction drops the rule of the frame address.
pub find_frame_information_register :
    (os : Os) (t : Target os.World) (infos : List VirtualUnwindFrameInformation) (pc pid : ℕ)
    (cie : CommonInformationEntry) (fde : FrameDescriptionEntry) (is js : List Instruction)
    (regs : PtraceRegs) (reg : Bytes) (f : Frame)
    → Describes infos pc cie fde is js
    → t.process ≡ some pid
    → os.get_regs t.world pid ≡ ok regs
    → table_row cie fde.begin pc is js ≡ apply (def_cfa_register reg) f
    → find_frame_information os infos pc t ≡ (err invalid_cfa_rule, t)
find_frame_information_register os t infos pc pid cie fde is js regs reg f d runs read last =
    find_frame_information-row d os t runs read
    ∙ ap (λ r. (r, t)) (ap (λ x. frame_with_base x regs) last ∙ frame_with_base_register f reg regs)
