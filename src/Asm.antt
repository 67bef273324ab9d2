-- ===== src/Asm.antt =====
-- x86asm.Inst, and getSingleMemInst of bininfo.go. The decoder of golang.org/x/arch/x86 is the parameter
-- `decode`: an instruction at the start of the bytes, or an error.
use godbg.Common.{ℕ, ◌+◌, ◌%◌, ◌^◌, Bool}
use godbg.Common.Bytes.{Bytes}
use godbg.Common.Result.{Result}
use godbg.Target.{Os, M, ◌>>=◌, lift, peek_data}

-- `is_call` is `inst.Op == x86asm.CALL || inst.Op == x86asm.LCALL`.
pub record Inst : Type 0 where
  pub len : ℕ
  pub is_call : Bool
  pub text : Bytes

module _ (os : Os) (decode : Bytes → Result Inst) where
  open os use {World}

  unfoldable pub get_single_mem_inst : ℕ → ℕ → M World Inst
  get_single_mem_inst pid pc = do mem ← peek_data os pid pc 100; lift (decode mem)

-- `pc + uint64(inst.Len)`
abbrev pub behind_inst : ℕ → Inst → ℕ
behind_inst pc inst = (pc + inst.len) % 2 ^ 64
