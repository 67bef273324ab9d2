-- ===== src/Auxv.antt =====
-- `entryPointFromAuxvAMD64` of prompt.go: the entry point in an auxiliary vector.
pub mod Vector
use godbg.Common.{
  ℕ, zero, suc, Option, none, some, List, [], ◌∷◌, length, take, drop, leb, ◌==◌, if◌then◌else◌,
}
use godbg.Common.Bytes.{Bytes, from_little_endian}

abbrev pub at_null_amd64 : ℕ
at_null_amd64 = 0

abbrev pub at_entry_amd64 : ℕ
at_entry_amd64 = 9

-- `binary.Read` of a uint64 whose error is tested.
abbrev pub read_u64 : Bytes → Option (ℕ × Bytes)
read_u64 rd = if leb 8 (length rd) then some (from_little_endian (take 8 rd), drop 8 rd) else none

-- The loop; `none` means that the fuel ran out.
pub auxv_loop : ℕ → Bytes → Option ℕ
auxv_loop zero rd = none
auxv_loop (suc fuel) rd = elim (read_u64 rd) [
  | none ↦ some 0
  | some (tag, rd') ↦ elim (read_u64 rd') [
    | none ↦ some 0
    | some (val, rd'') ↦
        let rest = auxv_loop fuel rd'' in
        if tag == at_null_amd64 then some 0 else if tag == at_entry_amd64 then some val else rest
  ]
]

-- A round that goes on takes 16 bytes.
unfoldable pub entry_point_from_auxv_amd64 : Bytes → Option ℕ
unfolding auxv_loop
entry_point_from_auxv_amd64 auxv = auxv_loop (suc (length auxv)) auxv
