-- ===== src/Leb/Unsigned.antt =====
-- `DecodeULEB128` against the standard's reading.
use godbg.Common.{
  ℕ, suc, ◌+◌, ◌*◌, ◌%◌, ◌^◌, ◌≤◌, ◌<◌, ◌≡◌, refl, ap, ◌∙◌, arith, [], ◌∷◌, ◌++◌, length, All,
  bit_and, bit_or,
}
use godbg.Common.Bits.{low_seven, top_bit, bit_or-shift}
use godbg.Common.Bytes.{Bytes}
use godbg.Common.Result.{ok, err, eof}
use godbg.Leb.{uleb_loop, decode_uleb128}
use godbg.Leb.Numbers.{IsLeb, last, more, uleb_value, two_pow-add_seven}
use native.Mathlib.Nat.{mod-add-mod}

-- One group of seven bits joins what was read: `v` is read without wrapping.
pub join_group :
    (b v k : ℕ)
    → b < 256
    → v < 2 ^ (7 * k)
    → bit_or (v % 2 ^ 64) (bit_and b 0x7f * 2 ^ (7 * k) % 2 ^ 64)
      ≡ (v + b % 128 * 2 ^ (7 * k)) % 2 ^ 64
join_group b v k hb hv =
    rw (low_seven b hb, bit_or-shift 64 (7 * k) (v % 2 ^ 64) (b % 128) (omega arith) (omega arith))
      (mod-add-mod v (2 ^ 64) (b % 128 * 2 ^ (7 * k)))

pub two_pow_next : (k : ℕ) → 2 ^ (7 * suc k) ≡ 128 * 2 ^ (7 * k)
two_pow_next k = ap (λ (e : ℕ). 2 ^ e) (omega arith) ∙ two_pow-add_seven (7 * k)

pub join_fits : (b v k : ℕ) → v < 2 ^ (7 * k) → v + b % 128 * 2 ^ (7 * k) < 2 ^ (7 * suc k)
join_fits b v k h = rw two_pow_next (grind arith)

pub join_value :
    (b v k u : ℕ)
    → v + b % 128 * 2 ^ (7 * k) + u * 2 ^ (7 * suc k) ≡ v + (b % 128 + 128 * u) * 2 ^ (7 * k)
join_value b v k u = rw two_pow_next (omega arith)

module _ (b v k : ℕ) (rest : Bytes) (fits : v < 2 ^ (7 * k)) (short : k + 1 < 2 ^ 32) where
  uleb_loop_last :
      b < 128
      → uleb_loop (b ∷ rest) (v % 2 ^ 64) k (7 * k)
        ≡ (ok ((v + b % 128 * 2 ^ (7 * k)) % 2 ^ 64, suc k), rest)
  unfolding uleb_loop
  uleb_loop_last h = ground (arith, top_bit b, join_group b v k)

  uleb_loop_more :
      128 ≤ b
      → b < 256
      → uleb_loop (b ∷ rest) (v % 2 ^ 64) k (7 * k)
        ≡ uleb_loop rest ((v + b % 128 * 2 ^ (7 * k)) % 2 ^ 64) (suc k) (7 * suc k)
  unfolding uleb_loop
  uleb_loop_more lo hi = ground (arith, top_bit b, join_group b v k)

uleb_loop_lem :
    {cs : Bytes} (v k : ℕ) (rest : Bytes)
    → IsLeb cs
    → v < 2 ^ (7 * k)
    → k + length cs < 2 ^ 32
    → uleb_loop (cs ++ rest) (v % 2 ^ 64) k (7 * k)
      ≡ (ok ((v + uleb_value cs * 2 ^ (7 * k)) % 2 ^ 64, k + length cs), rest)
uleb_loop_lem v k rest (last {b} h) hv hk = uleb_loop_last b v k rest hv hk h ∙ ground arith
uleb_loop_lem v k rest (more {b} {bs} lo hi h) hv hk =
    uleb_loop_more b v k (bs ++ rest) hv (omega arith) lo hi
    ∙ uleb_loop_lem (v + b % 128 * 2 ^ (7 * k)) (suc k) rest h (join_fits b v k hv) (omega arith)
    ∙ ground (arith, join_value b v k (uleb_value bs))

-- On the bytes of one number, at most 2^32 - 1 of them, with anything behind: the value that the
-- standard gives modulo 2^64, the number of bytes, and what follows them.
pub decode_uleb128_lem :
    (cs rest : Bytes)
    → IsLeb cs
    → length cs < 2 ^ 32
    → decode_uleb128 (cs ++ rest) ≡ (ok (uleb_value cs % 2 ^ 64, length cs), rest)
unfolding decode_uleb128
decode_uleb128_lem cs rest h hk =
    uleb_loop_lem 0 0 rest h (omega arith) (omega arith) ∙ ground arith

uleb_loop_eof :
    (cs : Bytes) (res len shift : ℕ)
    → All (λ b. (128 ≤ b) × (b < 256)) cs
    → uleb_loop cs res len shift ≡ (err eof, [])
unfolding uleb_loop
uleb_loop_eof [] res len shift h = refl
uleb_loop_eof (b ∷ bs) res len shift h = ground (
  arith,
  top_bit b,
  uleb_loop_eof bs (bit_or res (bit_and b 0x7f * 2 ^ shift % 2 ^ 64)) ((len + 1) % 2 ^ 32)
      ((shift + 7) % 2 ^ 64) h.1,
)

-- A buffer that holds only bytes of a number that go on is read to its end, and the answer is
-- `io.EOF`.
pub decode_uleb128_eof :
    (cs : Bytes) → All (λ b. (128 ≤ b) × (b < 256)) cs → decode_uleb128 cs ≡ (err eof, [])
unfolding decode_uleb128
decode_uleb128_eof cs h = uleb_loop_eof cs 0 0 0 h
