-- ===== src/Disassemble/Tiles.antt =====
-- The instructions of a disassembly tile the memory.
use godbg.Common.{length, take, drop, ℕ, ◌≤◌, ◌≡◌, ◌≢◌, Option, none, some, List, [], ◌∷◌}
use godbg.Common.Bytes.{Bytes}
use godbg.Common.Result.{Error, Result, ok, err, panic}
use godbg.Target.{BInfo}
use godbg.Asm.{Inst, behind_inst}
use godbg.Disassemble.{Decoded, restored}

-- The documented contract of the decoder: it returns an error, or an instruction that has a byte at
-- least and is within the bytes.
pub record DecodeLaws (decode : Bytes → Result Inst) : Type 0 where
  pub within :
      (mem : Bytes) (inst : Inst) → decode mem ≡ ok inst → (1 ≤ inst.len) × (inst.len ≤ length mem)
  pub total : (mem : Bytes) → decode mem ≢ panic

module _ (decode : Bytes → Result Inst) (laws : DecodeLaws decode) (infos : List BInfo) where
  -- The instructions stand one behind the other, each decoded from the memory with the bytes of the
  -- breakpoint at its address put back, and end where the memory does.
  abbrev pub Tiles : ℕ → Bytes → List Decoded → Type 0
  Tiles pc mem [] = mem ≡ []
  Tiles pc mem (d ∷ ds) =
      (d.pc ≡ pc)
      × (decode (restored infos pc mem) ≡ ok d.inst)
      × (d.mem ≡ take d.inst.len (restored infos pc mem))
      × Tiles (behind_inst pc d.inst) (drop d.inst.len (restored infos pc mem)) ds

  -- The decoder fails at an instruction in the memory, behind instructions that stand one behind the
  -- other.
  pub data Fails (e : Error) : ℕ → Bytes → Type 0 where
    here :
        (pc b : ℕ) (bs : Bytes) → decode (restored infos pc (b ∷ bs)) ≡ err e → Fails e pc (b ∷ bs)
    behind :
        (pc b : ℕ) (bs : Bytes) (inst : Inst)
        → decode (restored infos pc (b ∷ bs)) ≡ ok inst
        → Fails e (behind_inst pc inst) (drop inst.len (restored infos pc (b ∷ bs)))
        → Fails e pc (b ∷ bs)

  -- What the loop may return: a tiling, or an error of the decoder; it never panics.
  abbrev pub IsTiling : ℕ → Bytes → Option (Result (List Decoded)) → Type 0
  IsTiling pc mem none = ⊥
  IsTiling pc mem (some (ok ds)) = Tiles pc mem ds
  IsTiling pc mem (some (err e)) = Fails e pc mem
  IsTiling pc mem (some panic) = ⊥
