-- ===== src/Leb/Signed.antt =====
-- `DecodeSLEB128` against the standard's reading.
use godbg.Common.{
  ℕ, zero, suc, ◌+◌, ◌-◌, ◌*◌, ◌%◌, ◌^◌, ◌≤◌, ◌<◌, ◌≡◌, ap, ◌∙◌, arith, [], ◌∷◌, ◌++◌, length, leb,
  if◌then◌else◌, bit_or,
}
use godbg.Common.Bits.{sign_bit, top_bit, bit_or-shift}
use godbg.Common.Bytes.{Bytes}
use godbg.Common.Int.{ℤ, sub_ℕ, wrap64, signed64, FitsInt64, signed64-wrap64}
use godbg.Common.Result.{ok}
use godbg.Leb.{sign_extend, sleb_loop, decode_sleb128}
use godbg.Leb.Numbers.{IsLeb, last, more, uleb_value, is_negative, sleb_value}
use godbg.Leb.Unsigned.{join_group, join_fits, join_value}
use native.Mathlib.Nat.{pow-suc, one-le-pow}
use native.Mathlib.Decide.{dec_le}

two_pow-add : (m n : ℕ) → 2 ^ (m + n) ≡ 2 ^ m * 2 ^ n
two_pow-add zero n = ap (λ (e : ℕ). 2 ^ e) {y = n} (omega arith) ∙ omega arith
two_pow-add (suc m) n =
    ap (λ (e : ℕ). 2 ^ e) {y = suc (m + n)} (omega arith)
    ∙ pow-suc 2 (m + n)
    ∙ omega
        (arith, ap (λ (t : ℕ). t * 2) (two_pow-add m n), ap (λ (t : ℕ). t * 2 ^ n) (pow-suc 2 m))

-- 2^64 and a power of two below it, or above it.
low_power : (s : ℕ) → s < 64 → 2 ^ 64 ≡ 2 * (2 ^ (63 - s) * 2 ^ s)
low_power s h =
    let whole : 63 - s + s ≡ 63 = omega arith in
    omega (arith, two_pow-add (63 - s) s, ap (λ (e : ℕ). 2 ^ e) whole)

high_power : (s : ℕ) → 64 ≤ s → 2 ^ s ≡ 2 ^ (s - 64) * 2 ^ 64
high_power s h = ap (λ (e : ℕ). 2 ^ e) {y = s - 64 + 64} (omega arith) ∙ two_pow-add (s - 64) 64

-- The mask -(1 << s), in 64 bits.
abbrev mask : ℕ → ℕ
mask s = (2 ^ 64 - 2 ^ s % 2 ^ 64) % 2 ^ 64

-- Subtraction of a power `p` in 64 bits, for `p` below the modulus and for a multiple of it.
low_sum : (p v : ℕ) → v < p → p < 2 ^ 64 → (v % 2 ^ 64 + (2 ^ 64 - p)) % 2 ^ 64 ≡ wrap64 (sub_ℕ v p)
low_sum p v h k = ground arith

high_sum : (q p v : ℕ) → p ≡ q * 2 ^ 64 → v < p → v % 2 ^ 64 ≡ wrap64 (sub_ℕ v p)
high_sum q p v e h = ground arith

-- For a shift below 64 the mask is a field at bit `s`.
mask_low : (s : ℕ) → s < 64 → (2 ^ 64 - 2 ^ s ≡ (2 * 2 ^ (63 - s) - 1) * 2 ^ s) × (2 ^ s < 2 ^ 64)
mask_low s h =
    let q = 2 ^ (63 - s) in
    let p = 2 ^ s in
    let product : 2 ^ 64 ≡ 2 * (q * p) = low_power s h in
    let q_pos : 1 ≤ q = one-le-pow (63 - s) 2 (omega arith) in
    let p_pos : 1 ≤ p = one-le-pow s 2 (omega arith) in
    let bound : p ≤ q * p = grind arith in
    let pred_q : 2 * q - 1 + 1 ≡ 2 * q = omega arith in
    (omega (arith, ap (λ (t : ℕ). t * p) pred_q), omega arith)

mask_high : (s : ℕ) → 64 ≤ s → mask s ≡ 0
mask_high s h = omega (arith, high_power s h)

bit_or-mask_low :
    (s v : ℕ) → s < 64 → v < 2 ^ s → bit_or (v % 2 ^ 64) (mask s) ≡ wrap64 (sub_ℕ v (2 ^ s))
bit_or-mask_low s v p h =
    let g = 2 * 2 ^ (63 - s) - 1 in
    let (field, small) = mask_low s p in
    let wrapped : mask s ≡ g * 2 ^ s % 2 ^ 64 = omega (arith, one-le-pow s 2 (omega arith)) in
    rw wrapped (
      bit_or-shift 64 s (v % 2 ^ 64) g (omega arith) (omega arith)
      ∙ rw (← field) (low_sum (2 ^ s) v h small))

-- `|` with the mask subtracts 2^s in 64 bits.
bit_or-mask : (s v : ℕ) → v < 2 ^ s → bit_or (v % 2 ^ 64) (mask s) ≡ wrap64 (sub_ℕ v (2 ^ s))
bit_or-mask s v h = elim (dec_le 64 s) [
  | yes p ↦ rw (mask_high s p) (
      bit_or-shift 64 64 (v % 2 ^ 64) 0 (omega arith) (omega arith)
      ∙ omega arith
      ∙ high_sum (2 ^ (s - 64)) (2 ^ s) v (high_power s p) h)
  | no p ↦ bit_or-mask_low s v (omega arith) h
]

-- The step after the loop, on the last byte.
sign_extend_lem :
    (v n b : ℕ)
    → v < 2 ^ (7 * n)
    → 0 < n
    → n < 2 ^ 32
    → b < 256
    → sign_extend (v % 2 ^ 64) n (7 * n) b
      ≡ wrap64 (sub_ℕ v (if leb 64 (b % 128) then 2 ^ (7 * n) else 0))
unfolding sign_extend
sign_extend_lem v n b hv pos_n hn hb = ground (arith, sign_bit b, bit_or-mask (7 * n) v)

module _ (b v k : ℕ) (rest : Bytes) (fits : v < 2 ^ (7 * k)) (short : k + 1 < 2 ^ 32) where
  sleb_loop_last :
      b < 128
      → sleb_loop (b ∷ rest) (v % 2 ^ 64) k (7 * k) ≡ (
        ok (sign_extend ((v + b % 128 * 2 ^ (7 * k)) % 2 ^ 64) (suc k) (7 * suc k) b, suc k),
        rest,
      )
  unfolding sleb_loop
  sleb_loop_last h = ground (arith, top_bit b, join_group b v k)

  sleb_loop_more :
      128 ≤ b
      → b < 256
      → sleb_loop (b ∷ rest) (v % 2 ^ 64) k (7 * k)
        ≡ sleb_loop rest ((v + b % 128 * 2 ^ (7 * k)) % 2 ^ 64) (suc k) (7 * suc k)
  unfolding sleb_loop
  sleb_loop_more lo hi = ground (arith, top_bit b, join_group b v k)

-- What the loop started on the value `v` of `k` bytes reads, as an integer.
abbrev joined : ℕ → ℕ → Bytes → ℤ
joined v k cs =
    sub_ℕ (v + uleb_value cs * 2 ^ (7 * k))
      (if is_negative cs then 2 ^ (7 * (k + length cs)) else 0)

joined_next :
    (v k b c : ℕ) (bs : Bytes)
    → joined v k (b ∷ c ∷ bs) ≡ joined (v + b % 128 * 2 ^ (7 * k)) (suc k) (c ∷ bs)
joined_next v k b c bs = cc (join_value b v k (uleb_value (c ∷ bs)), lens)
  where
    lens : 7 * (k + suc (suc (length bs))) ≡ 7 * (suc k + suc (length bs))
    lens = omega arith

joined-cons :
    (v k b : ℕ) {bs : Bytes}
    → IsLeb bs
    → joined v k (b ∷ bs) ≡ joined (v + b % 128 * 2 ^ (7 * k)) (suc k) bs
joined-cons v k b (last {b = c} h) = joined_next v k b c []
joined-cons v k b (more {b = c} {bs} _ _ h) = joined_next v k b c bs

sleb_loop_lem :
    {cs : Bytes} (v k : ℕ) (rest : Bytes)
    → IsLeb cs
    → v < 2 ^ (7 * k)
    → k + length cs < 2 ^ 32
    → sleb_loop (cs ++ rest) (v % 2 ^ 64) k (7 * k)
      ≡ (ok (wrap64 (joined v k cs), k + length cs), rest)
sleb_loop_lem v k rest (last {b} h) hv hk =
    sleb_loop_last b v k rest hv hk h
    ∙ ground (arith, sign_extend_lem (v + b % 128 * 2 ^ (7 * k)) (suc k) b (join_fits b v k hv))
sleb_loop_lem v k rest (more {b} {bs} lo hi h) hv hk =
    sleb_loop_more b v k (bs ++ rest) hv (omega arith) lo hi
    ∙ sleb_loop_lem (v + b % 128 * 2 ^ (7 * k)) (suc k) rest h (join_fits b v k hv) (omega arith)
    ∙ cc (joined-cons v k b h, lens)
  where
    lens : suc k + length bs ≡ k + suc (length bs)
    lens = omega arith

-- On the bytes of one number, at most 2^32 - 1 of them, with anything behind: the integer that the
-- standard gives, as a 64-bit pattern, the number of bytes, and what follows them.
pub decode_sleb128_lem :
    (cs rest : Bytes)
    → IsLeb cs
    → length cs < 2 ^ 32
    → decode_sleb128 (cs ++ rest) ≡ (ok (wrap64 (sleb_value cs), length cs), rest)
unfolding decode_sleb128
decode_sleb128_lem cs rest h hk =
    sleb_loop_lem 0 0 rest h (omega arith) (omega arith) ∙ cc (whole, value, zero_len)
  where
    zero_len : 0 + length cs ≡ length cs
    zero_len = omega arith

    value : 0 + uleb_value cs * 2 ^ (7 * 0) ≡ uleb_value cs
    value = omega arith

    whole : 7 * (0 + length cs) ≡ 7 * length cs
    whole = omega arith

-- Read back as an int64, the result is the integer itself if that fits.
pub signed64-decode_sleb128 :
    (cs rest : Bytes)
    → IsLeb cs
    → length cs < 2 ^ 32
    → FitsInt64 (sleb_value cs)
    → (w : ℕ) × (decode_sleb128 (cs ++ rest) ≡ (ok (w, length cs), rest))
      × (signed64 w ≡ sleb_value cs)
signed64-decode_sleb128 cs rest h hk fits =
    (wrap64 (sleb_value cs), decode_sleb128_lem cs rest h hk, signed64-wrap64 (sleb_value cs) fits)
