-- ===== src/Cfa/Table.antt =====
-- Whole instruction streams: the table row of a pc.
use godbg.Common.{
  ℕ, zero, suc, ◌<◌, ◌≤◌, ◌≡◌, refl, ◌∙◌, arith, some, List, [], ◌∷◌, ◌++◌, length, length-append,
  All, leb, if◌then◌else◌,
}
use godbg.Common.Bytes.{Bytes}
use godbg.Common.Result.{ok}
use godbg.Cfa.{Frame, cie_loop, fde_loop, exec_cie_instructions, exec_fde_instructions}
use godbg.Cfa.Instructions.{
  Instruction, encode, encode_all, IsInstruction, apply, apply_all, row, nop, advance_loc,
  advance_loc1, advance_loc2, offset_extended, restore, def_cfa, def_cfa_register,
  def_cfa_offset_sf,
}
use godbg.Cfa.Step.{exec_single_instruction-encode}
use godbg.Cfa.Run.{cie_loop_step, fde_loop_step}

-- The bytes of an instruction, the first apart.
encode-cons : (i : Instruction) → (b : ℕ) × (bs : Bytes) × (encode i ≡ b ∷ bs)
encode-cons nop = (_, _, refl)
encode-cons (advance_loc d) = (_, _, refl)
encode-cons (advance_loc1 d) = (_, _, refl)
encode-cons (advance_loc2 d) = (_, _, refl)
encode-cons (offset_extended reg amount) = (_, _, refl)
encode-cons (restore r) = (_, _, refl)
encode-cons (def_cfa reg amount) = (_, _, refl)
encode-cons (def_cfa_register reg) = (_, _, refl)
encode-cons (def_cfa_offset_sf amount) = (_, _, refl)

module _ (fuel : ℕ) (f : Frame) (i : Instruction) (rest : Bytes) (h : IsInstruction i) where
  cie_loop-encode : cie_loop (suc fuel) f (encode i ++ rest) ≡ cie_loop fuel (apply i f) rest
  cie_loop-encode =
      let (b, bs, e) = encode-cons i in
      rw e (
        cie_loop_step fuel f (apply i f) b (bs ++ rest) rest
          (rw e at (exec_single_instruction-encode i f rest h)))

  fde_loop-encode :
      fde_loop (suc fuel) f (encode i ++ rest)
      ≡ (if leb f.loc f.address then fde_loop fuel (apply i f) rest else some (ok f))
  fde_loop-encode =
      let (b, bs, e) = encode-cons i in
      rw e (
        fde_loop_step fuel f (apply i f) b (bs ++ rest) rest
          (rw e at (exec_single_instruction-encode i f rest h)))

  encode_short : length rest < length (encode i ++ rest)
  encode_short = let (b, bs, e) = encode-cons i in rw e (omega (arith, length-append bs rest))

cie_loop-encode_all :
    (is : List Instruction) (fuel : ℕ) (f : Frame)
    → All IsInstruction is
    → length (encode_all is) ≤ fuel
    → cie_loop fuel f (encode_all is) ≡ some (ok (apply_all is f))
cie_loop-encode_all [] fuel f h k = unfold cie_loop in refl
cie_loop-encode_all (i ∷ is) zero f h k =
    absurd (omega (arith, encode_short zero f i (encode_all is) h.0))
cie_loop-encode_all (i ∷ is) (suc fuel) f h k =
    cie_loop-encode fuel f i (encode_all is) h.0
    ∙ cie_loop-encode_all is fuel (apply i f) h.1
        (omega (arith, encode_short fuel f i (encode_all is) h.0))

-- The initial instructions of a CIE, as the standard lays them out, are all executed, in order.
pub exec_cie_instructions-encode_all :
    (is : List Instruction) (f : Frame)
    → All IsInstruction is
    → exec_cie_instructions f (encode_all is) ≡ some (ok (apply_all is f))
unfolding exec_cie_instructions
exec_cie_instructions-encode_all is f h =
    cie_loop-encode_all is (length (encode_all is)) f h (omega arith)

fde_loop-encode_all :
    (is : List Instruction) (fuel : ℕ) (f : Frame)
    → All IsInstruction is
    → length (encode_all is) ≤ fuel
    → fde_loop fuel f (encode_all is) ≡ some (ok (row is f))
fde_loop-encode_all [] fuel f h k = unfold fde_loop in refl
fde_loop-encode_all (i ∷ is) zero f h k =
    absurd (omega (arith, encode_short zero f i (encode_all is) h.0))
fde_loop-encode_all (i ∷ is) (suc fuel) f h k =
    let later =
      fde_loop-encode_all is fuel (apply i f) h.1
        (omega (arith, encode_short fuel f i (encode_all is) h.0)) in
    fde_loop-encode fuel f i (encode_all is) h.0 ∙ ground (arith, later)

-- On instructions as the standard lays them out: they are executed in order while the location is at
-- or below the pc, and the last row that was reached is the result. An advance moves the location by
-- its operand times the alignment of the code, and offsets are factored by the alignment of the data;
-- but `restore` leaves the register undefined, and `def_cfa_register` drops the rule of the frame
-- address, as this interpreter has them and the standard has not.
pub exec_fde_instructions-encode_all :
    (is : List Instruction) (f : Frame)
    → All IsInstruction is
    → exec_fde_instructions f (encode_all is) ≡ some (ok (row is f))
unfolding exec_fde_instructions
exec_fde_instructions-encode_all is f h =
    fde_loop-encode_all is (length (encode_all is)) f h (omega arith)
