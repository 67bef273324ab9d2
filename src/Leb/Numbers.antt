-- ===== src/Leb/Numbers.antt =====
-- The numbers that LEB128 byte strings stand for, as the DWARF standard defines them.
use godbg.Common.{
  ℕ, ◌+◌, ◌*◌, ◌%◌, ◌^◌, ◌≤◌, ◌<◌, ◌≡◌, arith, Bool, false, [], ◌∷◌, length, leb, if◌then◌else◌,
}
use godbg.Common.Bytes.{Bytes}
use godbg.Common.Int.{ℤ, sub_ℕ}
use native.Mathlib.Numerals.{towards_suc}

-- One number: every byte but the last has the top bit.
pub data IsLeb : Bytes → Type 0 where
  last : {b : ℕ} → b < 128 → IsLeb (b ∷ [])
  more : {b : ℕ} {bs : Bytes} → 128 ≤ b → b < 256 → IsLeb bs → IsLeb (b ∷ bs)

abbrev pub uleb_value : Bytes → ℕ
uleb_value [] = 0
uleb_value (b ∷ bs) = b % 128 + 128 * uleb_value bs

-- The sign is bit 6 of the last byte.
abbrev pub is_negative : Bytes → Bool
is_negative [] = false
is_negative (b ∷ []) = leb 64 (b % 128)
is_negative (b ∷ c ∷ bs) = is_negative (c ∷ bs)

abbrev pub sleb_value : Bytes → ℤ
sleb_value bs = sub_ℕ (uleb_value bs) (if is_negative bs then 2 ^ (7 * length bs) else 0)

pub two_pow-add_seven : (s : ℕ) → 2 ^ (s + 7) ≡ 128 * 2 ^ s
two_pow-add_seven s = simp towards_suc (omega arith)
