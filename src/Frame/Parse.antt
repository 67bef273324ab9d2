-- ===== src/Frame/Parse.antt =====
-- One entry: `parseFrameInformation` reads back what the standard lays out.
use godbg.Common.{
  ℕ, ◌+◌, ◌-◌, ◌%◌, ◌^◌, ◌<◌, ◌≡◌, ◌≢◌, ap, ◌∙◌, arith, none, ◌∷◌, ◌++◌, length, length-append,
  take_front, drop_front,
}
use godbg.Common.Bytes.{Bytes, to_little_endian, from_little_endian, equal}
use godbg.Common.Result.{ok}
use godbg.Buffer.{read_string_lem}
use godbg.Leb.Unsigned.{decode_uleb128_lem}
use godbg.Leb.Signed.{decode_sleb128_lem}
use godbg.Frame.{
  cie_mark, parse_common_information_entry_byte, parse_frame_description_entry_byte, parse_entry,
  parse_frame_information, as_cie, as_fde,
}
use godbg.Frame.Print.{
  CieLayout, FdeLayout, Layout, cie, fde, cie_body, fde_body, print, IsCie, IsFde, IsEntry, cie_of,
  fde_of, info_of,
}

-- `parseCommonInformationEntryByte` on the body of a CIE.
parse_cie_lem :
    (c : CieLayout)
    → IsCie c
    → parse_common_information_entry_byte (length (cie_body c)) (cie_body c) ≡ ok (cie_of c)
unfolding parse_common_information_entry_byte
parse_cie_lem c h =
    let after_code = c.factor ++ (c.register ++ c.instructions) in
    ground (
      arith,
      read_string_lem c.augmentation (c.code ++ after_code) h.text,
      decode_uleb128_lem c.code after_code h.code_IsLeb,
      decode_sleb128_lem c.factor (c.register ++ c.instructions) h.factor_IsLeb,
      decode_uleb128_lem c.register c.instructions h.register_IsLeb,
      h.fits,
      length-append c.augmentation (0 ∷ (c.code ++ after_code)),
      length-append c.code after_code,
      length-append c.factor (c.register ++ c.instructions),
      length-append c.register c.instructions,
    )

parse_fde_lem :
    (f : FdeLayout)
    → IsFde f
    → parse_frame_description_entry_byte (length (fde_body f)) (fde_body f) ≡ ok (fde_of none f)
unfolding parse_frame_description_entry_byte
parse_fde_lem f h = ground (arith, h.begin_lt, h.size_lt)

-- One round on a length, a mark and a body, whatever the body holds.
module _ (body rest : Bytes) (fits : 4 + length body < 2 ^ 32) where
  -- The length field, read back, without the four bytes of the mark.
  entry_length :
      (from_little_endian (to_little_endian 4 (4 + length body)) + 2 ^ 32 - 4) % 2 ^ 32
      ≡ length body
  entry_length = omega arith

  parse_entry-cie :
      parse_entry ((to_little_endian 4 (4 + length body) ++ (cie_mark ++ body)) ++ rest)
      ≡ (as_cie (length body) (parse_common_information_entry_byte (length body) body), rest)
  unfolding parse_entry equal
  parse_entry-cie = ground (arith, entry_length, take_front body rest, drop_front body rest)

  parse_entry-fde :
      (mark : ℕ)
      → mark < 2 ^ 32
      → mark ≢ 0xffffffff
      → parse_entry
          ((to_little_endian 4 (4 + length body) ++ (to_little_endian 4 mark ++ body)) ++ rest)
        ≡ (as_fde (length body) (parse_frame_description_entry_byte (length body) body), rest)
  unfolding parse_entry equal
  parse_entry-fde mark h ne =
      ground (arith, entry_length, take_front body rest, drop_front body rest)

-- The parser reads back one entry that the standard lays out, and leaves whatever follows it.
pub parse_frame_information-print :
    (l : Layout) (rest : Bytes)
    → IsEntry l
    → parse_frame_information (print l ++ rest) ≡ (ok (info_of none l), rest)
unfolding parse_frame_information
parse_frame_information-print (cie c) rest h =
    parse_entry-cie (cie_body c) rest h.fits
    ∙ ap (λ r. (as_cie (length (cie_body c)) r, rest)) (parse_cie_lem c h)
parse_frame_information-print (fde f) rest h =
    parse_entry-fde (fde_body f) rest h.fits f.mark h.mark_lt h.no_cie_mark
    ∙ ap (λ r. (as_fde (length (fde_body f)) r, rest)) (parse_fde_lem f h)
