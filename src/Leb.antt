-- ===== src/Leb.antt =====
-- frame.go, `DecodeULEB128` and `DecodeSLEB128`: numbers of seven bits a byte.
-- A `*bytes.Buffer` is the list of its unread bytes; what a call leaves unread is returned beside its
-- result, also on an error. An int64 is its 64-bit pattern.
pub mod Numbers
pub mod Unsigned
pub mod Signed
pub mod Left
use godbg.Common.{
  ℕ, ◌+◌, ◌-◌, ◌*◌, ◌%◌, ◌^◌, [], ◌∷◌, ltb, ◌==◌, ◌&&◌, if◌then◌else◌, bit_and, bit_or,
}
use godbg.Common.Bytes.{Bytes}
use godbg.Common.Result.{Result, ok, err, eof}

-- The value and the number of bytes read, with the bytes that are left.
abbrev pub Decoded : Type 0
Decoded = Result (ℕ × ℕ) × Bytes

pub uleb_loop : Bytes → ℕ → ℕ → ℕ → Decoded
uleb_loop [] res len shift = (err eof, [])
uleb_loop (b ∷ rest) res len shift =
    let len' = (len + 1) % 2 ^ 32 in
    let res' = bit_or res (bit_and b 0x7f * 2 ^ shift % 2 ^ 64) in
    let more = uleb_loop rest res' len' ((shift + 7) % 2 ^ 64) in
    if bit_and b 0x80 == 0 then (ok (res', len'), rest) else more

unfoldable pub decode_uleb128 : Bytes → Decoded
unfolding uleb_loop
decode_uleb128 buf = uleb_loop buf 0 0 0

-- `res |= -(1 << shift)`, where the last byte `b` has its sign bit and the shift is below 8 * len.
pub sign_extend : ℕ → ℕ → ℕ → ℕ → ℕ
sign_extend res len shift b =
    if ltb shift (8 * len) && ltb 0 (bit_and b 0x40)
    then bit_or res ((2 ^ 64 - 2 ^ shift % 2 ^ 64) % 2 ^ 64)
    else res

pub sleb_loop : Bytes → ℕ → ℕ → ℕ → Decoded
sleb_loop [] res len shift = (err eof, [])
sleb_loop (b ∷ rest) res len shift =
    let len' = (len + 1) % 2 ^ 32 in
    let res' = bit_or res (bit_and b 0x7f * 2 ^ shift % 2 ^ 64) in
    let shift' = (shift + 7) % 2 ^ 64 in
    let more = sleb_loop rest res' len' shift' in
    if bit_and b 0x80 == 0 then (ok (sign_extend res' len' shift' b, len'), rest) else more

unfoldable pub decode_sleb128 : Bytes → Decoded
unfolding sleb_loop sign_extend
decode_sleb128 buf = sleb_loop buf 0 0 0
