-- ===== src/Breakpoint/Memory.antt =====
-- What the breakpoints ask of the memory of a traced process, and what they keep of it.
use godbg.Common.{ℕ, ◌≡◌, ◌≢◌, Option, none, some, List, [], ◌∷◌}
use godbg.Common.Bytes.{Bytes}
use godbg.Common.Result.{ok}
use godbg.Target.{Os, BInfo, PtraceRegs}
use godbg.Breakpoint.{find_break_point}
use godbg.Breakpoint.Table.{IsFree}

-- The documented behaviour of PTRACE_PEEKDATA and PTRACE_POKEDATA on one byte: a read gives one byte,
-- a write is read back, and it changes no other address; and PTRACE_SETREGS changes no memory.
pub record MemoryLaws (os : Os) (pid : ℕ) : Type 0 where
  pub peek_one :
      (w : os.World) (a : ℕ) (bs : Bytes) → os.peek w pid a 1 ≡ ok bs → (x : ℕ) × (bs ≡ x ∷ [])
  pub peek_poke :
      (w w' : os.World) (a x : ℕ)
      → os.poke w pid a (x ∷ []) ≡ (w', none)
      → os.peek w' pid a 1 ≡ ok (x ∷ [])
  pub peek_poke_other :
      (w w' : os.World) (a b x : ℕ)
      → a ≢ b
      → os.poke w pid a (x ∷ []) ≡ (w', none)
      → os.peek w' pid b 1 ≡ os.peek w pid b 1
  pub peek_set_regs :
      (w : os.World) (regs : PtraceRegs) (a : ℕ)
      → os.peek (os.set_regs w pid regs).0 pid a 1 ≡ os.peek w pid a 1

-- PTRACE_POKEDATA of one byte succeeds where PTRACE_PEEKDATA does.
pub record IsWritable (os : Os) (pid : ℕ) : Type 0 where
  pub writes :
      (w : os.World) (a x : ℕ) (bs : Bytes)
      → os.peek w pid a 1 ≡ ok bs
      → (os.poke w pid a (x ∷ [])).1 ≡ none

-- The memory `w` is the program text `code`, with 0xCC at the breakpoints of the table, and each
-- breakpoint holds the byte of the text that it replaces.
pub record IsPatched (os : Os) (pid : ℕ) (code : ℕ → Option ℕ) (infos : List BInfo) (w : os.World)
    : Type 0 where
  pub plain : (a b : ℕ) → code a ≡ some b → IsFree a infos → os.peek w pid a 1 ≡ ok (b ∷ [])
  pub armed :
      (a : ℕ) (v : BInfo)
      → find_break_point infos a ≡ some v
      → (os.peek w pid a 1 ≡ ok (0xCC ∷ [])) × (b : ℕ) × (code a ≡ some b) × (v.original ≡ b ∷ [])
