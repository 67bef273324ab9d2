-- ===== src/Auxv/Vector.antt =====
-- The entry point of a vector of tags and values.
use godbg.Common.{
  ℕ, zero, suc, ◌^◌, ◌<◌, ◌≡◌, refl, arith, some, List, [], ◌∷◌, ◌++◌, length, All, ◌==◌,
  if◌then◌else◌,
}
use godbg.Common.Bytes.{Bytes, to_little_endian}
use godbg.Auxv.{read_u64, at_null_amd64, at_entry_amd64, auxv_loop, entry_point_from_auxv_amd64}

abbrev pub IsPair : ℕ × ℕ → Type 0
IsPair p = (p.0 < 2 ^ 64) × (p.1 < 2 ^ 64)

-- The vector that the kernel lays out.
abbrev pub vector : List (ℕ × ℕ) → Bytes
vector [] = []
vector ((tag, val) ∷ ps) = to_little_endian 8 tag ++ (to_little_endian 8 val ++ vector ps)

-- The value of the first entry tag, if no null tag stands before it; else 0.
abbrev pub entry_of : List (ℕ × ℕ) → ℕ
entry_of [] = 0
entry_of ((tag, val) ∷ ps) =
    if tag == at_null_amd64 then 0 else if tag == at_entry_amd64 then val else entry_of ps

read_u64_lem :
    (v : ℕ) (rest : Bytes) → v < 2 ^ 64 → read_u64 (to_little_endian 8 v ++ rest) ≡ some (v, rest)
read_u64_lem v rest h = ground arith

auxv_loop-vector :
    (ps : List (ℕ × ℕ)) (fuel : ℕ)
    → All IsPair ps
    → length (vector ps) < fuel
    → auxv_loop fuel (vector ps) ≡ some (entry_of ps)
unfolding auxv_loop
auxv_loop-vector [] zero h lt = elim lt [ ]
auxv_loop-vector ((tag, val) ∷ ps) zero h lt = elim lt [ ]
auxv_loop-vector [] (suc fuel) h lt = refl
auxv_loop-vector ((tag, val) ∷ ps) (suc fuel) h lt = ground (
  arith,
  read_u64_lem tag (to_little_endian 8 val ++ vector ps) h.0.0,
  read_u64_lem val (vector ps) h.0.1,
  auxv_loop-vector ps fuel h.1,
)

-- On a vector of pairs of 64-bit numbers, as the kernel lays them out: the loop ends, with the value of
-- the first pair tagged AT_ENTRY if no pair tagged AT_NULL stands before it, and with 0 otherwise.
pub entry_point_from_auxv_amd64-vector :
    (ps : List (ℕ × ℕ))
    → All IsPair ps
    → entry_point_from_auxv_amd64 (vector ps) ≡ some (entry_of ps)
unfolding entry_point_from_auxv_amd64
entry_point_from_auxv_amd64-vector ps h =
    auxv_loop-vector ps (suc (length (vector ps))) h (omega arith)
