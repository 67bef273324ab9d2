-- ===== src/Tests/Commands.antt =====
-- Commands of the prompt on the machine of `Tests.Debugging`, and an auxiliary vector.
use godbg.Common.{ℕ, ◌≡◌, refl, some, List, [], ◌∷◌, arith}
use godbg.Common.Int.{pos}
use godbg.Output.{no_index, cleared_index}
use godbg.Target.{internal, BInfo}
use godbg.Breakpoint.Memory.{IsPatched}
use godbg.Breakpoint.Table.{HasUniquePcs}
use godbg.Auxv.{entry_point_from_auxv_amd64}
use godbg.Auxv.Vector.{vector, entry_point_from_auxv_amd64-vector}
use godbg.Executor.{find_index, internals, clear_all, clear_index}
use godbg.Executor.Memory.{clear_all-IsPatched, clear_index-IsPatched}
use godbg.Tests.Debugging.{regs, code, info, armed, armed-IsPatched, armed-HasUniquePcs}
use godbg.Tests.Machine.{os, machine-MemoryLaws, machine-IsWritable}

-- The tag 33 is passed over.
abbrev pairs : List (ℕ × ℕ)
pairs = (33, 7) ∷ (9, 0x45d700) ∷ (0, 0) ∷ []

entry_point : entry_point_from_auxv_amd64 (vector pairs) ≡ some 0x45d700
unfolding entry_point_from_auxv_amd64
entry_point = refl

entry_point_from_auxv_amd64-vector_example :
    entry_point_from_auxv_amd64 (vector pairs) ≡ some 0x45d700
entry_point_from_auxv_amd64-vector_example =
    entry_point_from_auxv_amd64-vector pairs
      ((omega arith, omega arith), ((omega arith, omega arith), ((omega arith, omega arith), tt)))

abbrev hidden : BInfo
hidden = record info { pc = 0x1008; kind = internal }

-- An index above the length of the table is reported twice.
reported_twice : (clear_index os (pos 2) armed).1.out ≡ no_index (pos 2) ∷ no_index (pos 2) ∷ []
unfolding clear_index
reported_twice = refl

cleared : (clear_index os (pos 1) armed).1.out ≡ cleared_index (pos 1) ∷ []
unfolding clear_index
cleared = refl

clear_all-IsPatched_example :
    ((clear_all os armed).1.infos ≡ internals (info ∷ []))
    × IsPatched os 42 code (internals (info ∷ [])) (clear_all os armed).1.world
clear_all-IsPatched_example =
    clear_all-IsPatched os 42 (machine-MemoryLaws 42) (machine-IsWritable 42) code armed regs refl
      refl armed-HasUniquePcs armed-IsPatched

clear_index-IsPatched_example :
    ((clear_index os (pos 1) armed).1.infos ≡ [])
    × HasUniquePcs (clear_index os (pos 1) armed).1.infos
    × IsPatched os 42 code
        (clear_index os (pos 1) armed).1.infos
        (clear_index os (pos 1) armed).1.world
unfolding find_index
clear_index-IsPatched_example =
    clear_index-IsPatched os 42 (machine-MemoryLaws 42) (machine-IsWritable 42) code armed regs refl
      refl armed-HasUniquePcs armed-IsPatched (pos 1)
