-- ===== src/Unwind.antt =====
-- `findFrameInformation` of bininfo.go: the frame of a pc from the entries of .debug_frame.
pub mod Cover
pub mod Base
use godbg.Common.{
  ℕ, ◌+◌, ◌%◌, ◌^◌, Bool, true, false, ◌&&◌, Option, none, some, List, [], ◌∷◌, leb, ◌==◌,
  if◌then◌else◌, replicate, set, get_or,
}
use godbg.Common.Bytes.{Bytes}
use godbg.Common.Result.{
  Result, ok, err, panic, duplicate_fde, not_covered, no_cie, reg_out_of_range, reg_is_null,
  invalid_cfa_rule,
}
use godbg.Cfa.{Frame, DwRule, Rule, exec_cie_instructions, exec_fde_instructions}
use godbg.Frame.{CommonInformationEntry, FrameDescriptionEntry, VirtualUnwindFrameInformation}
use godbg.Target.{lift, Os, Target, M, ◌>>=◌, pure, fail, PtraceRegs, get_registers}

-- `begin <= pc && pc <= begin + size`, on uint64.
abbrev pub in_range : ℕ → FrameDescriptionEntry → Bool
in_range pc f = leb f.begin pc && leb pc ((f.begin + f.size) % 2 ^ 64)

-- One round: the FDE that is found so far, and an entry of the table.
pub cover_round :
    ℕ → Option FrameDescriptionEntry → FrameDescriptionEntry → Result (Option FrameDescriptionEntry)
cover_round pc none f = ok (if in_range pc f then some f else none)
cover_round pc (some g) f = if in_range pc f then err duplicate_fde else ok (some g)

pub cover_loop :
    ℕ
    → List VirtualUnwindFrameInformation
    → Option FrameDescriptionEntry
    → Result (Option FrameDescriptionEntry)
cover_loop pc [] fde = ok fde
cover_loop pc (info ∷ infos) fde = elim info.fde [
  | none ↦ cover_loop pc infos fde
  | some f ↦ elim (cover_round pc fde f) [
    | ok fde' ↦ cover_loop pc infos fde'
    | err e ↦ err e
    | panic ↦ panic
  ]
]

abbrev pub covering : ℕ → Result (Option FrameDescriptionEntry) → Result FrameDescriptionEntry
covering pc (ok none) = err (not_covered pc)
covering pc (ok (some f)) = ok f
covering pc (err e) = err e
covering pc panic = panic

unfoldable pub find_fde : List VirtualUnwindFrameInformation → ℕ → Result FrameDescriptionEntry
unfolding cover_loop cover_round
find_fde infos pc = covering pc (cover_loop pc infos none)

-- `&Frame{cie: cie, cfa: &DWRule{}, regsRule: make(map[uint64]DWRule)}`
abbrev pub new_frame : CommonInformationEntry → Frame
new_frame cie = record {
  instructions = [];
  address = 0;
  cie = cie;
  offset = 0;
  cfa = record { offset = 0; reg = 0; rule = Rule.undefined };
  regs_rule = λ _. none;
  regs = [];
  framebase = 0;
  loc = 0;
}

-- The loops of the instructions never run out of their fuel, which would be a panic here.
abbrev pub finished : Option (Result Frame) → Result Frame
finished none = panic
finished (some r) = r

abbrev pub bind {ℓ κ} : {A : Type ℓ} {B : Type κ} → Result A → (A → Result B) → Result B
bind (ok a) f = f a
bind (err e) f = err e
bind panic f = panic

-- The frame before its registers are read.
abbrev pub row_of : FrameDescriptionEntry → ℕ → Option CommonInformationEntry → Result Frame
row_of fde pc none = err no_cie
row_of fde pc (some cie) =
    bind (finished (exec_cie_instructions (new_frame cie) cie.initial_instructions)) λ frame.
      finished
        (exec_fde_instructions (record frame { loc = fde.begin; address = pc }) fde.instructions)

-- `make([]uint64, 17)` with the registers 16, 7 and 6.
abbrev pub dwarf_regs : PtraceRegs → List ℕ
dwarf_regs regs = set (set (set (replicate 17 0) 16 regs.rip) 7 regs.rsp) 6 regs.rbp

-- The switch on the rule for the canonical frame address.
frame_base : List ℕ → DwRule → Rule → Result ℕ
frame_base regs cfa Rule.cfa =
    if leb 17 cfa.reg
    then err reg_out_of_range
    else if get_or regs cfa.reg 0 == 0
    then err reg_is_null
    else ok ((get_or regs cfa.reg 0 + cfa.offset) % 2 ^ 64)
frame_base regs cfa _ = err invalid_cfa_rule

unfoldable pub frame_with_base : Frame → PtraceRegs → Result Frame
unfolding frame_base
frame_with_base frame regs =
    bind (frame_base (dwarf_regs regs) frame.cfa frame.cfa.rule)
      λ framebase. ok (record frame { regs = dwarf_regs regs; framebase = framebase })

module _ (os : Os) where
  open os use {World}

  unfoldable pub find_frame_information : List VirtualUnwindFrameInformation → ℕ → M World Frame
  unfolding find_fde frame_with_base
  find_frame_information infos pc = do
    fde ← lift (find_fde infos pc)
    frame ← lift (row_of fde pc fde.cie)
    regs ← get_registers os
    lift (frame_with_base frame regs)
