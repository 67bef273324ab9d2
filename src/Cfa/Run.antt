-- ===== src/Cfa/Run.antt =====
-- The two loops, on any bytes and on instructions as the standard lays them out.
use godbg.Common.{
  ℕ, zero, suc, ◌≤◌, ◌≡◌, ◌≢◌, ◌↔◌, refl, ap, arith, Bool, true, false, none, some, [], ◌∷◌, length,
  length-drop, leb, ◌==◌, ◌||◌, if◌then◌else◌, Option-cases, Bool-cases, inl, inr,
}
use godbg.Common.Bytes.{Bytes}
use godbg.Common.Result.{Result, ok, err, panic, unknown_byte}
use godbg.Cfa.{
  Frame, opcode, has_operand, exec_opcode, exec_single_instruction, cie_loop, fde_loop,
  exec_cie_instructions, exec_fde_instructions, uleb, sleb,
}
use godbg.Cfa.Opcodes.{
  dw_cfa_offset_extended, dw_cfa_def_cfa, dw_cfa_def_cfa_register, dw_cfa_def_cfa_offset_sf,
  dw_cfa_advance_loc, dw_cfa_advance_loc1, dw_cfa_advance_loc2, dw_cfa_restore, dw_cfa_nop,
  dw_cfa_offset,
}
use godbg.Leb.Left.{decode_uleb128_left, decode_sleb128_left}

uleb_left : (buf : Bytes) → length (uleb buf).1 ≤ length buf
uleb_left buf = ground (arith, decode_uleb128_left buf)

sleb_left : (buf : Bytes) → length (sleb buf).1 ≤ length buf
sleb_left buf = ground (arith, decode_sleb128_left buf)

exec_opcode_left : (op : ℕ) (f : Frame) (buf : Bytes) → length (exec_opcode op f buf).1 ≤ length buf
unfolding exec_opcode
exec_opcode_left op f buf =
    ground (arith, uleb_left buf, uleb_left (uleb buf).1, sleb_left buf, length-drop 2 buf)

-- An instruction that holds its operand was put back, and is read once more.
exec_opcode_operand :
    (op b : ℕ) (f f' : Frame) (bs rest : Bytes)
    → (op == dw_cfa_advance_loc || op == dw_cfa_offset || op == dw_cfa_restore) ≡ true
    → exec_opcode op f (b ∷ bs) ≡ (ok f', rest)
    → rest ≡ bs
unfolding exec_opcode
exec_opcode_operand op b f f' bs rest h e = ground arith

opcode_operand :
    (b : ℕ)
    → has_operand b ≡ true
    → (opcode b == dw_cfa_advance_loc || opcode b == dw_cfa_offset || opcode b == dw_cfa_restore)
      ≡ true
opcode_operand b h = ground arith

exec_opcode_takes :
    (put_back : Bool) (op b : ℕ) (f f' : Frame) (bs rest : Bytes)
    → (put_back ≡ true
        → (op == dw_cfa_advance_loc || op == dw_cfa_offset || op == dw_cfa_restore) ≡ true)
    → exec_opcode op f (if put_back then b ∷ bs else bs) ≡ (ok f', rest)
    → length rest ≤ length bs
exec_opcode_takes true op b f f' bs rest h e =
    omega (arith, ap length (exec_opcode_operand op b f f' bs rest (h refl) e))
exec_opcode_takes false op b f f' bs rest h e =
    omega (arith, exec_opcode_left op f bs, ap (λ (r : Result Frame × Bytes). length r.1) e)

-- A round that succeeds takes a byte at least.
exec_single_instruction-shorter :
    (f f' : Frame) (b : ℕ) (bs rest : Bytes)
    → exec_single_instruction f (b ∷ bs) ≡ (ok f', rest)
    → length rest ≤ length bs
unfolding exec_single_instruction
exec_single_instruction-shorter f f' b bs rest e =
    exec_opcode_takes (has_operand b) (opcode b) b f f' bs rest (opcode_operand b) e

-- The interpreter refuses a byte exactly as its opcode is none of the nine that it has, and names
-- that opcode; `DW_CFA_offset` is among those it refuses.
abbrev pub is_known : ℕ → Bool
is_known op =
    op == dw_cfa_offset_extended
    || op == dw_cfa_def_cfa
    || op == dw_cfa_def_cfa_register
    || op == dw_cfa_def_cfa_offset_sf
    || op == dw_cfa_advance_loc
    || op == dw_cfa_advance_loc1
    || op == dw_cfa_advance_loc2
    || op == dw_cfa_restore
    || op == dw_cfa_nop

exec_opcode-unknown :
    (op : ℕ) (f : Frame) (buf : Bytes)
    → is_known op ≡ false
    → (exec_opcode op f buf).0 ≡ err (unknown_byte op)
unfolding exec_opcode
exec_opcode-unknown op f buf h = ground arith

exec_opcode-known :
    (op : ℕ) (f : Frame) (buf : Bytes)
    → is_known op ≡ true
    → (o : ℕ) → (exec_opcode op f buf).0 ≢ err (unknown_byte o)
unfolding exec_opcode
exec_opcode-known op f buf h o = ground arith

-- The interpreter refuses an instruction as unknown, with its opcode, exactly where the opcode is none
-- of those that the code tests for, whatever follows it and whatever the row holds.
pub exec_single_instruction-unknown :
    (f : Frame) (b : ℕ) (bs : Bytes)
    → (is_known (opcode b) ≡ false)
      ↔ ((exec_single_instruction f (b ∷ bs)).0 ≡ err (unknown_byte (opcode b)))
unfolding exec_single_instruction
exec_single_instruction-unknown f b bs = (
  exec_opcode-unknown (opcode b) f _,
  λ e. elim (Bool-cases (is_known (opcode b))) [
    | inl known ↦ absurd (exec_opcode-known (opcode b) f _ known (opcode b) e)
    | inr unknown ↦ unknown
  ],
)

module _ (fuel : ℕ) (f f' : Frame) (b : ℕ) (bs rest : Bytes)
    (e : exec_single_instruction f (b ∷ bs) ≡ (ok f', rest)) where
  pub cie_loop_step : cie_loop (suc fuel) f (b ∷ bs) ≡ cie_loop fuel f' rest
  unfolding cie_loop
  cie_loop_step = ground (arith, e)

  pub fde_loop_step :
      fde_loop (suc fuel) f (b ∷ bs)
      ≡ (if leb f.loc f.address then fde_loop fuel f' rest else some (ok f))
  unfolding fde_loop
  fde_loop_step = ground (arith, e)

-- A loop whose later rounds end ends.
module _ (fuel : ℕ) (f : Frame) (b : ℕ) (bs : Bytes) where
  cie_loop_ends :
      ((f' : Frame) (rest : Bytes)
        → exec_single_instruction f (b ∷ bs) ≡ (ok f', rest)
        → cie_loop fuel f' rest ≢ none)
      → cie_loop (suc fuel) f (b ∷ bs) ≢ none
  unfolding cie_loop
  cie_loop_ends h = ends (exec_single_instruction f (b ∷ bs)) refl
    where
      ends :
          (r : Result Frame × Bytes)
          → exec_single_instruction f (b ∷ bs) ≡ r
          → cie_loop (suc fuel) f (b ∷ bs) ≢ none
      ends (ok f', rest) e = ground (arith, h f' rest e, e)
      ends (err x, rest) e = ground (arith, e)
      ends (panic, rest) e = ground (arith, e)

  fde_loop_ends :
      ((f' : Frame) (rest : Bytes)
        → exec_single_instruction f (b ∷ bs) ≡ (ok f', rest)
        → fde_loop fuel f' rest ≢ none)
      → fde_loop (suc fuel) f (b ∷ bs) ≢ none
  unfolding fde_loop
  fde_loop_ends h = ends (exec_single_instruction f (b ∷ bs)) refl
    where
      ends :
          (r : Result Frame × Bytes)
          → exec_single_instruction f (b ∷ bs) ≡ r
          → fde_loop (suc fuel) f (b ∷ bs) ≢ none
      ends (ok f', rest) e = ground (arith, h f' rest e, e)
      ends (err x, rest) e = ground (arith, e)
      ends (panic, rest) e = ground (arith, e)

cie_loop_total :
    (fuel : ℕ) (f : Frame) (buf : Bytes) → length buf ≤ fuel → cie_loop fuel f buf ≢ none
cie_loop_total fuel f [] h = unfold cie_loop in λ e. cc
cie_loop_total zero f (b ∷ bs) h = absurd (omega arith)
cie_loop_total (suc fuel) f (b ∷ bs) h = cie_loop_ends fuel f b bs λ f' rest e.
    cie_loop_total fuel f' rest (omega (arith, exec_single_instruction-shorter f f' b bs rest e))

fde_loop_total :
    (fuel : ℕ) (f : Frame) (buf : Bytes) → length buf ≤ fuel → fde_loop fuel f buf ≢ none
fde_loop_total fuel f [] h = unfold fde_loop in λ e. cc
fde_loop_total zero f (b ∷ bs) h = absurd (omega arith)
fde_loop_total (suc fuel) f (b ∷ bs) h = fde_loop_ends fuel f b bs λ f' rest e.
    fde_loop_total fuel f' rest (omega (arith, exec_single_instruction-shorter f f' b bs rest e))

-- The loop over the initial instructions of a CIE ends on every buffer: it has a result, or it panics.
pub exec_cie_instructions_total :
    (f : Frame) (buf : Bytes) → (r : Result Frame) × (exec_cie_instructions f buf ≡ some r)
unfolding exec_cie_instructions
exec_cie_instructions_total f buf = elim (Option-cases (cie_loop (length buf) f buf)) [
  | inl e ↦ absurd (cie_loop_total (length buf) f buf (omega arith) e)
  | inr found ↦ found
]

-- The loop over the instructions of an FDE ends on every buffer, from every row: it has a result, or
-- it panics.
pub exec_fde_instructions_total :
    (f : Frame) (buf : Bytes) → (r : Result Frame) × (exec_fde_instructions f buf ≡ some r)
unfolding exec_fde_instructions
exec_fde_instructions_total f buf = elim (Option-cases (fde_loop (length buf) f buf)) [
  | inl e ↦ absurd (fde_loop_total (length buf) f buf (omega arith) e)
  | inr found ↦ found
]
