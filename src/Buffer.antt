-- ===== src/Buffer.antt =====
-- What the program uses of Go's `bytes.Buffer` and `encoding/binary`: a buffer is the list of its
-- unread bytes, and a read returns its result beside the bytes that it leaves, also on an error.
use godbg.Common.{
  ℕ, ◌≡◌, refl, arith, [], ◌∷◌, ◌++◌, length, take, drop, leb, ◌==◌, if◌then◌else◌, All, ◌≢◌,
}
use godbg.Common.Bytes.{Bytes, from_little_endian}
use godbg.Common.Result.{Result, ok, err, panic, eof}

abbrev pub Read {ℓ} : Type ℓ → Type ℓ
Read A = Bytes → Result A × Bytes

infixl 5 ◌>>=◌
abbrev pub ◌>>=◌ {ℓ κ} : {A : Type ℓ} {B : Type κ} → Read A → (A → Read B) → Read B
◌>>=◌ m f buf =
    let (r, rest) = m buf in
    elim r [ ok a ↦ f a rest | err e ↦ (err e, rest) | panic ↦ (panic, rest) ]

abbrev pub pure {ℓ} : {A : Type ℓ} → A → Read A
pure a buf = (ok a, buf)

-- `buf.ReadByte()`
abbrev pub read_byte : Read ℕ
read_byte [] = (err eof, [])
read_byte (b ∷ rest) = (ok b, rest)

-- `buf.Next(n)`: at most `n` bytes.
abbrev pub next : ℕ → Bytes → Bytes × Bytes
next n buf = (take n buf, drop n buf)

-- `buf.Next(1)[0]` panics at the end of the buffer.
abbrev pub next_one : Read ℕ
next_one [] = (panic, [])
next_one (b ∷ rest) = (ok b, rest)

-- `buf.Bytes()`
abbrev pub unread : Read Bytes
unread buf = (ok buf, buf)

abbrev put_front : ℕ → Result Bytes × Bytes → Result Bytes × Bytes
put_front b (ok s, rest) = (ok (b ∷ s), rest)
put_front b (err e, rest) = (err e, rest)
put_front b (panic, rest) = (panic, rest)

-- `buf.ReadString(0)`: the text with its zero byte, or `io.EOF` at the end.
unfoldable pub read_string : Read Bytes
read_string [] = (err eof, [])
read_string (b ∷ bs) = if b == 0 then (ok (b ∷ []), bs) else put_front b (read_string bs)

-- `binary.Read(buf, binary.LittleEndian, &x)` of an `n`-byte number whose error is dropped: on a short
-- buffer `x` stays 0 and the buffer is used up.
abbrev pub read_number : ℕ → Bytes → ℕ × Bytes
read_number n buf =
    if leb n (length buf) then (from_little_endian (take n buf), drop n buf) else (0, [])

-- A text with no zero byte, and its end.
pub read_string_lem :
    (s rest : Bytes)
    → All (λ b. b ≢ 0) s
    → read_string (s ++ (0 ∷ rest)) ≡ (ok (s ++ (0 ∷ [])), rest)
unfolding read_string
read_string_lem [] rest h = refl
read_string_lem (b ∷ s) rest h = ground (arith, read_string_lem s rest h.1)
