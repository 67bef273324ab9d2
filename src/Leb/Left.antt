-- ===== src/Leb/Left.antt =====
-- The decoders take from the front of the buffer: what they leave is no longer than what they got.
use godbg.Common.{ℕ, ◌+◌, ◌*◌, ◌%◌, ◌^◌, ◌≤◌, arith, [], ◌∷◌, length, bit_and, bit_or}
use godbg.Common.Bytes.{Bytes}
use godbg.Leb.{uleb_loop, decode_uleb128, sleb_loop, decode_sleb128}

uleb_loop_left :
    (buf : Bytes) (res len shift : ℕ) → length (uleb_loop buf res len shift).1 ≤ length buf
unfolding uleb_loop
uleb_loop_left [] res len shift = omega arith
uleb_loop_left (b ∷ bs) res len shift = ground (
  arith,
  uleb_loop_left bs (bit_or res (bit_and b 0x7f * 2 ^ shift % 2 ^ 64)) ((len + 1) % 2 ^ 32)
      ((shift + 7) % 2 ^ 64),
)

pub decode_uleb128_left : (buf : Bytes) → length (decode_uleb128 buf).1 ≤ length buf
unfolding decode_uleb128
decode_uleb128_left buf = uleb_loop_left buf 0 0 0

sleb_loop_left :
    (buf : Bytes) (res len shift : ℕ) → length (sleb_loop buf res len shift).1 ≤ length buf
unfolding sleb_loop
sleb_loop_left [] res len shift = omega arith
sleb_loop_left (b ∷ bs) res len shift = ground (
  arith,
  sleb_loop_left bs (bit_or res (bit_and b 0x7f * 2 ^ shift % 2 ^ 64)) ((len + 1) % 2 ^ 32)
      ((shift + 7) % 2 ^ 64),
)

pub decode_sleb128_left : (buf : Bytes) → length (decode_sleb128 buf).1 ≤ length buf
unfolding decode_sleb128
decode_sleb128_left buf = sleb_loop_left buf 0 0 0
