-- ===== src/Disassemble.antt =====
-- disassemble.go: the instructions of a function, with the bytes under the breakpoints put back in the
-- copy of the memory. The decoder of golang.org/x/arch/x86, `path.Base` and the working directory are
-- parameters.
pub mod Tiles
use godbg.Common.{
  ltb, leb, ◌==◌, if◌then◌else◌, length, take, drop, ℕ, zero, suc, ◌+◌, ◌-◌, ◌%◌, ◌^◌, Bool, false,
  ◌&&◌, Option, none, some, List, [], ◌∷◌, ◌++◌,
}
use godbg.Common.Bytes.{Bytes, codes}
use godbg.Common.Int.{ℤ}
use godbg.Common.Result.{invalid_range, Result, ok, err, panic}
use godbg.Output.{AsmRow, current_pc, disassembly}
use godbg.Target.{BInfo, Os, M, ◌>>=◌, ◌>>◌, fail, lift, print, get_ptrace_pc}
use godbg.Bi.{Bi, pc_to_file_line, find_function_include_pc}
use godbg.Breakpoint.{is_some}
use godbg.Executor.{reported}
use godbg.Asm.{Inst, behind_inst}
use godbg.Complete.{has_prefix}

-- `tryCuttingFilename`, where `os.Getwd` returns `getwd`.
abbrev cut : Bytes → Bytes → Bytes
cut dir filename = if has_prefix filename dir then drop (length dir) filename else filename

unfoldable pub try_cutting_filename : Result Bytes → Bytes → Bytes
try_cutting_filename (ok dir) filename = cut (dir ++ codes "/") filename
try_cutting_filename (err e) filename = filename
try_cutting_filename panic filename = filename

-- An instruction, with its address and its bytes.
pub record Decoded : Type 0 where
  pub pc : ℕ
  pub mem : Bytes
  pub inst : Inst

-- The breakpoint that `bpMap` has at an address is the last one of the table.
unfoldable pub last_at : List BInfo → ℕ → Option BInfo
last_at [] pc = none
last_at (v ∷ vs) pc = elim (last_at vs pc) [
  | some x ↦ some x
  | none ↦ if v.pc == pc then some v else none
]

-- `copy(mem, original)`
abbrev pub copy : Bytes → Bytes → Bytes
copy [] original = []
copy (b ∷ mem) [] = b ∷ mem
copy (b ∷ mem) (o ∷ original) = o ∷ copy mem original

abbrev pub restored : List BInfo → ℕ → Bytes → Bytes
restored infos pc mem = elim (last_at infos pc) [ none ↦ mem | some v ↦ copy mem v.original ]

module _ (decode : Bytes → Result Inst) where
  abbrev pub with_first : Decoded → Option (Result (List Decoded)) → Option (Result (List Decoded))
  with_first d none = none
  with_first d (some (ok ds)) = some (ok (d ∷ ds))
  with_first d (some (err e)) = some (err e)
  with_first d (some panic) = some panic

  -- `mem[:inst.Len]` panics where the instruction is longer than the memory.
  abbrev pub after_decode :
      ℕ
      → Bytes
      → (Inst → Option (Result (List Decoded)))
      → Result Inst
      → Option (Result (List Decoded))
  after_decode pc mem later (ok inst) =
      if leb inst.len (length mem)
      then with_first (record { pc = pc; mem = take inst.len mem; inst = inst }) (later inst)
      else some panic
  after_decode pc mem later (err e) = some (err e)
  after_decode pc mem later panic = some panic

  -- The loop over the memory.
  unfoldable pub disassemble_loop : ℕ → List BInfo → ℕ → Bytes → Option (Result (List Decoded))
  disassemble_loop fuel infos pc [] = some (ok [])
  disassemble_loop zero infos pc (b ∷ bs) = none
  disassemble_loop (suc fuel) infos pc (b ∷ bs) =
      let mem = restored infos pc (b ∷ bs) in
      let later =
        λ (inst : Inst). disassemble_loop fuel infos (behind_inst pc inst) (drop inst.len mem) in
      after_decode pc mem later (decode mem)

-- `x - y` on uint64.
abbrev pub sub_word : ℕ → ℕ → ℕ
sub_word x y = (x + 2 ^ 64 - y) % 2 ^ 64

-- Whether the pc is at the instruction and before the one behind it; the last instruction never is.
abbrev is_at : ℕ → ℕ → List Decoded → Bool
is_at pc at [] = false
is_at pc at (d ∷ ds) = leb at pc && ltb pc d.pc

abbrev with_row : AsmRow → Result (List AsmRow) → Result (List AsmRow)
with_row row (ok rows) = ok (row ∷ rows)
with_row row (err e) = err e
with_row row panic = panic

module _ (base : Bytes → Bytes) (bi : Bi) (infos : List BInfo) (pc : ℕ) where
  abbrev row_at : Decoded → List Decoded → Bytes × ℤ → AsmRow
  row_at d ds place = record {
    is_break_point = is_some (last_at infos d.pc);
    is_current = is_at pc d.pc ds;
    filename = base place.0;
    lineno = place.1;
    pc = d.pc;
    mem = d.mem;
    text = d.inst.text;
  }

  unfoldable pub rows_of : List Decoded → Result (List AsmRow)
  unfolding last_at
  rows_of [] = ok []
  rows_of (d ∷ ds) =
      let rest = rows_of ds in
      elim (pc_to_file_line bi d.pc) [
        | ok place ↦ with_row (row_at d ds place) rest
        | err e ↦ err e
        | panic ↦ panic
      ]

module _ (os : Os) (decode : Bytes → Result Inst) where
  open os use {World, peek}

  -- A loop that does not end has no result here; every round of one that ends takes a byte at least.
  abbrev pub ended : Option (Result (List Decoded)) → Result (List Decoded)
  ended none = panic
  ended (some r) = r

  abbrev pub read_range : ℕ → ℕ → ℕ → M World Bytes
  read_range pid lowpc n t = (peek t.world pid lowpc n, t)

  unfoldable pub disassemble : ℕ → ℕ → ℕ → M World (List Decoded)
  unfolding disassemble_loop last_at
  disassemble pid lowpc highpc =
      if sub_word highpc lowpc == 0
      then fail (invalid_range lowpc highpc)
      else if ltb (2 ^ 48) (sub_word highpc lowpc)
      then lift panic
      else (do
        mem ← read_range pid lowpc (sub_word highpc lowpc)
        λ t. (ended (disassemble_loop decode (length mem) t.infos lowpc mem), t))

  unfoldable pub list_disassemble_by_ptrace_pc : (Bytes → Bytes) → Bi → ℕ → M World (Unit {0})
  unfolding disassemble rows_of
  list_disassemble_by_ptrace_pc base bi pid = do
    pc ← get_ptrace_pc os
    f ← lift (find_function_include_pc bi pc)
    ds ← disassemble pid f.lowpc f.highpc
    print (current_pc pc)
    rows ← λ t. (rows_of base bi t.infos pc ds, t)
    print (disassembly rows)

  -- `disass`: `target.cmd.Process.Pid` of a process that has ended is a nil pointer.
  abbrev pub at_process : (Bytes → Bytes) → Bi → Option ℕ → M World (Unit {0})
  at_process base bi none = lift panic
  at_process base bi (some pid) = list_disassemble_by_ptrace_pc base bi pid

  unfoldable pub disassemble_command : (Bytes → Bytes) → Bi → M World (Unit {0})
  disassemble_command base bi t = reported (at_process base bi t.process) t
