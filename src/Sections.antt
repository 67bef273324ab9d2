-- ===== src/Sections.antt =====
-- analyze, openInfoSection, openLineSection and ParseFrameSection of bininfo.go: the sections of the
-- executable file. debug/elf, debug/dwarf and compress/zlib are parameters.
pub mod Executable
use godbg.Common.{
  ltb, leb, if◌then◌else◌, length, take, drop, ℕ, ◌+◌, ◌*◌, ◌^◌, ◌&&◌, Option, none, some, List, [],
  ◌∷◌,
}
use godbg.Common.Bytes.{Bytes, codes, equal}
use godbg.Common.Result.{Error, no_section, Result, ok, err, panic, ◌>>=◌, ◌>>◌}
use godbg.Bi.{Bi}
use godbg.Dwarf.{Section, ElfFile, ZlibReader}
use godbg.Analysis.{parse_line_and_info_section}
use godbg.Frame.{VirtualUnwindFrameInformation, parse_frames}

-- `binary.BigEndian.Uint64`
abbrev pub from_big_endian : ℕ → Bytes → ℕ
from_big_endian n [] = n
from_big_endian n (b ∷ bs) = from_big_endian (256 * n + b) bs

-- `b, err := s.Data(); err != nil`
abbrev pub checked : Bytes → Option Error → Result Bytes
checked bs none = ok bs
checked bs (some e) = err e

abbrev pub data_of : Section → Result Bytes
data_of s = checked s.data_bytes s.data_error

-- The section of a name, or the one of its compressed form.
abbrev pub section_or : Option Section → Option Section → Option Section
section_or (some s) z = some s
section_or none z = z

abbrev pub data_or_missing : Option Section → Result Bytes
data_or_missing none = err no_section
data_or_missing (some s) = data_of s

module _ (file : ElfFile) where
  open file use {section}

  unfoldable pub open_info_section : Result Bytes
  open_info_section =
      data_or_missing (section_or (section (codes ".debug_info")) (section (codes ".zdebug_info")))

  unfoldable pub open_line_section : Result Bytes
  open_line_section =
      data_or_missing (section_or (section (codes ".debug_line")) (section (codes ".zdebug_line")))

-- `&BI{Sources: make(…)}`
abbrev pub empty_bi : Bi
empty_bi = record { sources = some []; functions = []; compile_units = []; frames_information = [] }

-- `make` of more than 2^48 bytes panics.
abbrev pub inflated : ℕ → ZlibReader → Result Bytes
inflated dlen r = r.read_full dlen >>= λ dbuf. checked dbuf r.close

-- An error of `Data` behind as many bytes as the section has is passed over.
abbrev pub tolerated : Bytes → ℕ → Option Error → Result Bytes
tolerated b size none = ok b
tolerated b size (some e) = if ltb (length b) size then err e else ok b

-- The loop over the entries always has a result.
abbrev pub parsed :
    Option (Result (List VirtualUnwindFrameInformation))
    → Result (List VirtualUnwindFrameInformation)
parsed none = panic
parsed (some r) = r

module _ (new_reader : Bytes → Result ZlibReader) where
  unfoldable pub inflate : Bytes → Result Bytes
  inflate b =
      if leb 12 (length b) && equal (take 4 b) (codes "ZLIB")
      then (if leb (from_big_endian 0 (take 8 (drop 4 b))) (2 ^ 48)
          then new_reader (drop 12 b) >>= inflated (from_big_endian 0 (take 8 (drop 4 b)))
          else panic)
      else ok b

  -- `Data` of a nil section follows it.
  abbrev pub section_data : Option Section → Result Bytes
  section_data none = panic
  section_data (some s) = tolerated s.data_bytes s.size s.data_error >>= λ b. inflate b

  abbrev pub frame_data : Option Section → Option Section → Result Bytes
  frame_data (some s) z = data_of s
  frame_data none z = section_data z

  unfoldable pub parse_frame_section : ElfFile → Bi → Result Bi
  unfolding inflate parse_frames
  parse_frame_section file bi =
      frame_data (file.section (codes ".debug_frame")) (file.section (codes ".zdebug_frame"))
      >>= λ buffer. parsed (parse_frames buffer bi.frames_information) >>= λ infos.
          ok (record bi { frames_information = infos })

  abbrev pub analyze_file : ElfFile → Result Bi
  analyze_file file = open_info_section file >> open_line_section file >> file.dwarf >>= λ dwarf.
      parse_line_and_info_section dwarf empty_bi >>= λ bi. parse_frame_section file bi

  -- `elf.Open` is the parameter `open_elf`. What is written to the log is left out.
  unfoldable pub analyze : (Bytes → Result ElfFile) → Bytes → Result Bi
  unfolding open_info_section open_line_section parse_line_and_info_section parse_frame_section
  analyze open_elf execfile = open_elf execfile >>= analyze_file
