-- ===== src/Frame.antt =====
-- frame.go and `ParseFrameSection` of bininfo.go: the entries of the section .debug_frame.
-- A pointer that may be nil is an option. The uint32 lengths wrap at 2^32.
pub mod Print
pub mod Parse
pub mod Section
use godbg.Common.{
  ℕ, zero, suc, ◌+◌, ◌-◌, ◌%◌, ◌^◌, Option, none, some, List, [], ◌∷◌, ◌++◌, length as count, take,
  drop, ltb, if◌then◌else◌,
}
use godbg.Common.Bytes.{Bytes, equal, from_little_endian}
use godbg.Common.Result.{Result, ok, err, panic, eof, is_eof}
use godbg.Buffer.{Read, ◌>>=◌, pure, read_byte, next, next_one, unread, read_string, read_number}
use godbg.Leb.{decode_uleb128, decode_sleb128}

pub record CommonInformationEntry : Type 0 where
  pub length : ℕ
  pub cie_id : ℕ
  pub version : ℕ
  pub augmentation : Bytes
  pub code_alignment_factor : ℕ
  pub data_alignment_factor : ℕ
  pub return_address_register : ℕ
  pub initial_instructions : Bytes

pub record FrameDescriptionEntry : Type 0 where
  pub length : ℕ
  pub cie : Option CommonInformationEntry
  pub instructions : Bytes
  pub begin : ℕ
  pub size : ℕ

pub record VirtualUnwindFrameInformation : Type 0 where
  pub len : ℕ
  pub cie : Option CommonInformationEntry
  pub fde : Option FrameDescriptionEntry

-- The value of a number, without the count of its bytes.
abbrev value_of : Read (ℕ × ℕ) → Read ℕ
value_of m = m >>= λ r. pure r.0

cie_fields : ℕ → Read CommonInformationEntry
cie_fields len = do
  version ← next_one
  augmentation ← read_string
  code ← value_of decode_uleb128
  factor ← value_of decode_sleb128
  register ← value_of decode_uleb128
  instructions ← unread
  pure (record {
    length = len;
    cie_id = 0xffffffff;
    version = version;
    augmentation = augmentation;
    code_alignment_factor = code;
    data_alignment_factor = factor;
    return_address_register = register;
    initial_instructions = instructions;
  })

unfoldable pub parse_common_information_entry_byte : ℕ → Bytes → Result CommonInformationEntry
unfolding cie_fields
parse_common_information_entry_byte len buf = (cie_fields len buf).0

-- `data[16:]` panics below 16 bytes, if `data[:8]` has not.
unfoldable pub parse_frame_description_entry_byte : ℕ → Bytes → Result FrameDescriptionEntry
parse_frame_description_entry_byte len bytes =
    if ltb (count bytes) 16
    then panic
    else ok (record {
      length = len;
      cie = none;
      instructions = drop 16 bytes;
      begin = from_little_endian (take 8 bytes);
      size = from_little_endian (take 8 (drop 8 bytes));
    })

abbrev pub as_cie : ℕ → Result CommonInformationEntry → Result VirtualUnwindFrameInformation
as_cie len (ok c) = ok (record { len = len; cie = some c; fde = none })
as_cie len (err e) = err e
as_cie len panic = panic

abbrev pub as_fde : ℕ → Result FrameDescriptionEntry → Result VirtualUnwindFrameInformation
as_fde len (ok f) = ok (record { len = len; cie = none; fde = some f })
as_fde len (err e) = err e
as_fde len panic = panic

abbrev pub cie_mark : Bytes
cie_mark = 0xff ∷ 0xff ∷ 0xff ∷ 0xff ∷ []

-- On a non-empty buffer: the length, the mark and the body of one entry.
parse_entry : Read VirtualUnwindFrameInformation
parse_entry buffer =
    let (read, after_len) = read_number 4 buffer in
    let (tbytes, after_mark) = next 4 after_len in
    let len = (read + 2 ^ 32 - 4) % 2 ^ 32 in
    let (input, rest) = next len after_mark in
    if equal tbytes cie_mark
    then (as_cie len (parse_common_information_entry_byte len input), rest)
    else (as_fde len (parse_frame_description_entry_byte len input), rest)

unfoldable pub parse_frame_information : Read VirtualUnwindFrameInformation
unfolding parse_entry
parse_frame_information [] = (err eof, [])
parse_frame_information (b ∷ bs) = parse_entry (b ∷ bs)

-- The entry that is appended, and the CIE that the next FDEs belong to.
link : Option CommonInformationEntry → VirtualUnwindFrameInformation → VirtualUnwindFrameInformation
link cur info = elim info.fde [
  | none ↦ info
  | some f ↦ record info { fde = some (record f { cie = cur }) }
]

latest :
    Option CommonInformationEntry → VirtualUnwindFrameInformation → Option CommonInformationEntry
latest cur info = elim info.cie [ none ↦ cur | some c ↦ some c ]

-- The loop of `ParseFrameSection`; `none` means that the fuel ran out. An error other than `io.EOF`
-- leaves the entry nil, and the loop follows it.
pub frames_loop :
    ℕ
    → Bytes
    → Option CommonInformationEntry
    → List VirtualUnwindFrameInformation
    → Option (Result (List VirtualUnwindFrameInformation))
unfolding link latest
frames_loop zero buffer cur out = none
frames_loop (suc fuel) buffer cur out =
    let (read, rest) = parse_frame_information buffer in
    elim read [
      | ok info ↦
          let cur' = latest cur info in frames_loop fuel rest cur' (out ++ (link cur' info ∷ []))
      | err e ↦ if is_eof e then some (ok out) else some panic
      | panic ↦ some panic
    ]

-- The loop on a whole section: every round but the last takes a byte at least.
unfoldable pub parse_frames :
    Bytes
    → List VirtualUnwindFrameInformation
    → Option (Result (List VirtualUnwindFrameInformation))
unfolding frames_loop
parse_frames buffer out = frames_loop (suc (count buffer)) buffer none out
