-- ===== src/Sections/Executable.antt =====
-- An executable file with debug information, from its sections to the tables of the debugger.
use godbg.Common.{
  leb, length, All, ℕ, zero, suc, ◌/◌, ◌%◌, ◌^◌, ◌≤◌, ◌≡◌, refl, true, none, some, List, [], ◌∷◌,
  ◌++◌, map, arith,
}
use godbg.Common.Bytes.{Bytes, codes, equal}
use godbg.Common.Int.{ℤ}
use godbg.Common.Result.{Result, ok}
use godbg.Bi.{Sources, Bi, lines_of, entries_of, entries_in, file_line_to_pc_for_break_point}
use godbg.Dwarf.{DwarfData, Section, ElfFile, ZlibReader}
use godbg.Analysis.Rows.{rows_of}
use godbg.Analysis.Spec.{UnitEntry, unit_dies, functions_of, units_of, all_rows, HasRows}
use godbg.Analysis.Spec.Tables.{parse_line_and_info_section_lem}
use godbg.Frame.Print.{Layout, print_all, IsEntry, infos_of}
use godbg.Frame.Section.{parse_frames-print_all}
use godbg.Sections.{
  from_big_endian, open_info_section, open_line_section, empty_bi, inflate, frame_data,
  parse_frame_section, analyze,
}
use godbg.Bi.Lookup.{Chooses, file_line_to_pc_for_break_point-Chooses}
use mathlib.Core.Path.{subst}

abbrev pub to_big_endian : ℕ → ℕ → Bytes
to_big_endian zero n = []
to_big_endian (suc k) n = (n / 256 ^ k) % 256 ∷ to_big_endian k n

-- The frames are in a plain section, or in a compressed one: a mark, the length and the compressed bytes.
pub data HoldsFrames (new_reader : Bytes → Result ZlibReader) (file : ElfFile) (bytes : Bytes)
    : Type 0 where
  plain :
      (s : Section)
      → file.section (codes ".debug_frame") ≡ some s
      → s.data_bytes ≡ bytes
      → s.data_error ≡ none
      → HoldsFrames new_reader file bytes
  compressed :
      (s : Section) (packed : Bytes) (r : ZlibReader)
      → file.section (codes ".debug_frame") ≡ none
      → file.section (codes ".zdebug_frame") ≡ some s
      → s.data_bytes ≡ codes "ZLIB" ++ (to_big_endian 8 (length bytes) ++ packed)
      → s.data_error ≡ none
      → length bytes ≤ 2 ^ 48
      → new_reader packed ≡ ok r
      → r.read_full (length bytes) ≡ ok bytes
      → r.close ≡ none
      → HoldsFrames new_reader file bytes

-- An executable file whose debug information lists `units` and whose frames are laid out as `ls`.
pub record IsExecutable (new_reader : Bytes → Result ZlibReader) (open_elf : Bytes → Result ElfFile)
    (execfile : Bytes) (units : List UnitEntry) (ls : List Layout) : Type 0 where
  pub file : ElfFile
  pub info : Bytes
  pub line : Bytes
  pub dwarf : DwarfData
  pub opened : open_elf execfile ≡ ok file
  pub has_info : open_info_section file ≡ ok info
  pub has_line : open_line_section file ≡ ok line
  pub has_dwarf : file.dwarf ≡ ok dwarf
  pub has_units : dwarf.dies ≡ map ok (unit_dies units)
  pub has_rows : HasRows dwarf units
  pub has_frames : HoldsFrames new_reader file (print_all ls)
  pub frames_IsEntry : All IsEntry ls

big_endian_back : (n : ℕ) → n ≤ 2 ^ 48 → from_big_endian 0 (to_big_endian 8 n) ≡ n
big_endian_back n h = omega arith

inflate_lem :
    (new_reader : Bytes → Result ZlibReader) (bytes packed : Bytes) (r : ZlibReader)
    → length bytes ≤ 2 ^ 48
    → new_reader packed ≡ ok r
    → r.read_full (length bytes) ≡ ok bytes
    → r.close ≡ none
    → inflate new_reader (codes "ZLIB" ++ (to_big_endian 8 (length bytes) ++ packed)) ≡ ok bytes
unfolding inflate equal
inflate_lem new_reader bytes packed r h opens reads closes =
    let fits : leb (length bytes) (2 ^ 48) ≡ true = ground arith in
    let long : leb 12 (length (codes "ZLIB" ++ (to_big_endian 8 (length bytes) ++ packed))) ≡ true =
      ground arith in
    rw (big_endian_back (length bytes) h) (rw long (rw fits (rw opens (rw reads (rw closes refl)))))

frame_data-HoldsFrames :
    (new_reader : Bytes → Result ZlibReader) (file : ElfFile) (bytes : Bytes)
    → HoldsFrames new_reader file bytes
    → frame_data new_reader
        (file.section (codes ".debug_frame"))
        (file.section (codes ".zdebug_frame"))
      ≡ ok bytes
frame_data-HoldsFrames new_reader file bytes (plain s found same no_error) =
    rw found (rw no_error (rw same refl))
frame_data-HoldsFrames new_reader file bytes
      (compressed s packed r missing found same no_error h opens reads closes) =
    rw missing (
      rw found (rw no_error (rw same (inflate_lem new_reader bytes packed r h opens reads closes))))

parse_frame_section_lem :
    (new_reader : Bytes → Result ZlibReader) (file : ElfFile) (ls : List Layout) (bi : Bi)
    → HoldsFrames new_reader file (print_all ls)
    → All IsEntry ls
    → parse_frame_section new_reader file bi
      ≡ ok (record bi { frames_information = bi.frames_information ++ infos_of none ls })
unfolding parse_frame_section
parse_frame_section_lem new_reader file ls bi holds entries =
    rw (frame_data-HoldsFrames new_reader file (print_all ls) holds)
      (rw (parse_frames-print_all ls bi.frames_information entries) refl)

-- On an executable file with debug information and frames, `analyze` succeeds: the functions and the
-- units are those that the debug information lists, each in its order and with its number, and each
-- function with what its entry says of each attribute and with its variables; every lookup of a file and
-- a line finds the rows of that file and line; and the frames are those of the section, plain or
-- compressed, each FDE with the nearest CIE before it.
pub analyze-IsExecutable :
    (new_reader : Bytes → Result ZlibReader) (open_elf : Bytes → Result ElfFile) (execfile : Bytes)
    (units : List UnitEntry) (ls : List Layout)
    → IsExecutable new_reader open_elf execfile units ls
    → (sources : Sources) × (analyze new_reader open_elf execfile
        ≡ ok (record {
          sources = some sources;
          functions = functions_of 0 units;
          compile_units = units_of 0 units;
          frames_information = infos_of none ls;
        }))
      × ((f : Bytes) (l : ℤ) → entries_in (some sources) f l ≡ rows_of f l (all_rows units))
unfolding analyze lines_of entries_of
analyze-IsExecutable new_reader open_elf execfile units ls h =
    let (sources, runs, finds) =
      parse_line_and_info_section_lem h.dwarf units empty_bi [] h.has_units h.has_rows refl in
    (
      sources,
      rw h.opened (
          rw h.has_info (
            rw h.has_line (
              rw h.has_dwarf (
                rw runs (
                  parse_frame_section_lem new_reader h.file ls
                    (record empty_bi {
                      sources = some sources;
                      functions = functions_of 0 units;
                      compile_units = units_of 0 units;
                    })
                    h.has_frames h.frames_IsEntry))))),
      finds,
    )

-- On such a file, the address that a breakpoint at a file and a line is given is chosen from the rows
-- of that file and line: the first that ends a prologue, or else the least address of them.
pub analyze-Chooses :
    (new_reader : Bytes → Result ZlibReader) (open_elf : Bytes → Result ElfFile) (execfile : Bytes)
    (units : List UnitEntry) (ls : List Layout)
    → IsExecutable new_reader open_elf execfile units ls
    → (bi : Bi) × (analyze new_reader open_elf execfile ≡ ok bi)
      × ((f : Bytes) (l : ℤ)
          → Chooses (rows_of f l (all_rows units)) (file_line_to_pc_for_break_point bi f l))
analyze-Chooses new_reader open_elf execfile units ls h =
    let (sources, runs, finds) = analyze-IsExecutable new_reader open_elf execfile units ls h in
    let bi : Bi = record {
      sources = some sources;
      functions = functions_of 0 units;
      compile_units = units_of 0 units;
      frames_information = infos_of none ls;
    } in
    (
      bi,
      runs,
      λ f l.
          subst (λ es. Chooses es (file_line_to_pc_for_break_point bi f l)) (finds f l)
            (file_line_to_pc_for_break_point-Chooses bi f l),
    )
