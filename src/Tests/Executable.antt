-- ===== src/Tests/Executable.antt =====
-- An executable file of one unit and two functions, with compressed frames.
use godbg.Common.{
  if◌then◌else◌, length, take, ℕ, ◌≡◌, refl, Bool, true, false, Option, none, some, List, [], ◌∷◌,
  ◌++◌, map, arith,
}
use godbg.Common.Bytes.{Bytes, codes, equal}
use godbg.Common.Int.{ℤ, pos}
use godbg.Common.Result.{Result, ok, ◌>>=◌}
use godbg.Bi.{LineEntry, Sources, Function, Bi, entries_in, file_line_to_pc_for_break_point}
use godbg.Dwarf.{
  attr_name, attr_lowpc, attr_highpc, attr_decl_file, attr_location, val_string, val_uint64,
  val_int64, val_bytes, Field, DwarfData, Section, ElfFile, ZlibReader,
}
use godbg.Analysis.{parse_line_and_info_section}
use godbg.Analysis.Rows.{rows_of, entries_at}
use godbg.Analysis.Spec.{
  local, skipped, UnitEntry, body_dies, type_dies, function_dies, unit_dies, functions_of, units_of,
  all_rows,
}
use godbg.Analysis.Spec.Tables.{parse_line_and_info_section_lem}
use godbg.Frame.Print.{print_all, infos_of}
use godbg.Sections.{open_info_section, open_line_section, analyze}
use godbg.Sections.Executable.{
  to_big_endian, HoldsFrames, compressed, IsExecutable, analyze-IsExecutable, analyze-Chooses,
}
use godbg.Bi.Lookup.{Chooses}
use godbg.Tests.Decoding.{section, section-IsEntry}

abbrev main_fields : List Field
main_fields =
    record { attr = attr_name; val = val_string (codes "main.main") }
    ∷ record { attr = attr_lowpc; val = val_uint64 0x1000 }
    ∷ record { attr = attr_highpc; val = val_uint64 0x1020 }
    ∷ record { attr = attr_decl_file; val = val_int64 (pos 1) }
    ∷ []

abbrev local_fields : List Field
local_fields =
    record { attr = attr_name; val = val_string (codes "s") }
    ∷ record { attr = attr_location; val = val_bytes (0x91 ∷ 0x70 ∷ []) }
    ∷ []

abbrev row : ℕ → Bool → LineEntry
row address ends = record {
  file = some (codes "/t.go");
  line = pos 3;
  address = address;
  prologue_end = ends;
}

abbrev pub main_unit : UnitEntry
main_unit = record {
  fields = [];
  rows = row 0x1000 false ∷ row 0x1008 true ∷ [];
  types = [] ∷ [];
  functions =
      record { fields = main_fields; body = skipped [] ∷ local local_fields ∷ [] }
      ∷ record { fields = []; body = [] }
      ∷ [];
}

abbrev pub dwarf_data : DwarfData
dwarf_data = record {
  dies = map ok (unit_dies (main_unit ∷ []));
  line_reader = λ _. ok (some (map ok main_unit.rows));
}

abbrev empty_bi_with_sources : Bi
empty_bi_with_sources = record {
  sources = some [];
  functions = [];
  compile_units = [];
  frames_information = [];
}

-- The main function has its variable, and the unit both functions.
main_tables :
    (parse_line_and_info_section dwarf_data empty_bi_with_sources >>= λ bi.
    ok (map {B = Bytes × ℕ} (λ (f : Function). (f.name, length f.variables)) bi.functions))
    ≡ ok ((codes "main.main", 1) ∷ ([], 0) ∷ [])
unfolding parse_line_and_info_section unit_dies function_dies body_dies type_dies equal
main_tables = refl

parse_line_and_info_section_lem_example :
    (ss' : Sources) × (parse_line_and_info_section dwarf_data empty_bi_with_sources
      ≡ ok (record empty_bi_with_sources {
        sources = some ss';
        functions = [] ++ functions_of 0 (main_unit ∷ []);
        compile_units = [] ++ units_of 0 (main_unit ∷ []);
      }))
    × ((f : Bytes) (l : ℤ)
        → entries_at ss' f l ≡ entries_at [] f l ++ rows_of f l (all_rows (main_unit ∷ [])))
parse_line_and_info_section_lem_example =
    parse_line_and_info_section_lem dwarf_data (main_unit ∷ []) empty_bi_with_sources [] refl
      (refl, tt) refl

abbrev packed_frames : Section
packed_frames = record {
  data_bytes = codes "ZLIB" ++ (to_big_endian 8 (length (print_all section)) ++ print_all section);
  data_error = none;
  size = 0;
}

abbrev plain_section : Section
plain_section = record { data_bytes = []; data_error = none; size = 0 }

abbrev section_named : Bytes → Option Section
section_named name =
    if equal name (codes ".debug_frame")
    then none
    else if equal name (codes ".zdebug_frame")
    then some packed_frames
    else some plain_section

abbrev elf_file : ElfFile
elf_file = record { section = section_named; dwarf = ok dwarf_data }

-- A compression that leaves the bytes as they are.
abbrev pub stored : Bytes → Result ZlibReader
stored packed = ok (record { read_full = λ n. ok (take n packed); close = none })

abbrev pub open_file : Bytes → Result ElfFile
open_file name = ok elf_file

holds_frames : HoldsFrames stored elf_file (print_all section)
unfolding equal
holds_frames =
    compressed packed_frames (print_all section)
      (record { read_full = λ n. ok (take n (print_all section)); close = none }) refl refl refl
      refl (omega arith) refl refl refl

main-IsExecutable : IsExecutable stored open_file (codes "a.out") (main_unit ∷ []) section
unfolding equal open_info_section open_line_section
main-IsExecutable = record {
  file = elf_file;
  info = [];
  line = [];
  dwarf = dwarf_data;
  opened = refl;
  has_info = refl;
  has_line = refl;
  has_dwarf = refl;
  has_units = refl;
  has_rows = (refl, tt);
  has_frames = holds_frames;
  frames_IsEntry = section-IsEntry;
}

analyze-IsExecutable_example :
    (sources : Sources) × (analyze stored open_file (codes "a.out")
      ≡ ok (record {
        sources = some sources;
        functions = functions_of 0 (main_unit ∷ []);
        compile_units = units_of 0 (main_unit ∷ []);
        frames_information = infos_of none section;
      }))
    × ((f : Bytes) (l : ℤ)
        → entries_in (some sources) f l ≡ rows_of f l (all_rows (main_unit ∷ [])))
analyze-IsExecutable_example =
    analyze-IsExecutable stored open_file (codes "a.out") (main_unit ∷ []) section main-IsExecutable

analyze-Chooses_example :
    (bi : Bi) × (analyze stored open_file (codes "a.out") ≡ ok bi)
    × ((f : Bytes) (l : ℤ)
        → Chooses
            (rows_of f l (all_rows (main_unit ∷ [])))
            (file_line_to_pc_for_break_point bi f l))
analyze-Chooses_example =
    analyze-Chooses stored open_file (codes "a.out") (main_unit ∷ []) section main-IsExecutable
