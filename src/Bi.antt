-- ===== src/Bi.antt =====
-- bininfo.go: the tables of the program that is debugged, and the lookups in them.
-- A Go map is the list of its entries in the order in which `range` meets them, which is any order.
-- The nil map of sources is `none`.
pub mod Nearest
pub mod Lookup
use godbg.Common.{
  ℕ, ◌+◌, ◌-◌, Bool, true, false, not, ◌&&◌, ◌||◌, Option, none, some, List, [], ◌∷◌, ◌++◌, ltb,
  leb, ◌==◌, if◌then◌else◌,
}
use godbg.Common.Bytes.{Bytes, equal}
use godbg.Common.Int.{ℤ, pos, int_eq}
use godbg.Common.Result.{Result, ok, err, panic, not_found_source_line, not_found_func, no_sources}
use godbg.Frame.{VirtualUnwindFrameInformation}

-- A row of the line table; `file` is nil where the table names none.
pub record LineEntry : Type 0 where
  pub file : Option Bytes
  pub line : ℤ
  pub address : ℕ
  pub prologue_end : Bool

abbrev pub Lines : Type 0
Lines = List (ℤ × List LineEntry)

abbrev pub Sources : Type 0
Sources = List (Bytes × Lines)

-- A field of a debug entry of tag `TagVariable` that the program reads: the name or the location.
pub record Variable : Type 0 where
  pub name : Option Bytes
  pub location : Option Bytes

-- `cu` is the number of the compile unit in the list of the units.
pub record Function : Type 0 where
  pub name : Bytes
  pub lowpc : ℕ
  pub highpc : ℕ
  pub frame_base : Bytes
  pub decl_file : ℤ
  pub external : Bool
  pub variables : List Variable
  pub cu : ℕ

-- The numbers of its functions in `bi.Functions`: the two lists share the functions.
pub record CompileUnit : Type 0 where
  pub functions : List ℕ

pub record Bi : Type 0 where
  pub sources : Option Sources
  pub functions : List Function
  pub compile_units : List CompileUnit
  pub frames_information : List VirtualUnwindFrameInformation

-- `bi.Sources[filename]`, with an empty map for a nil one.
unfoldable pub lines_of : Sources → Bytes → Lines
lines_of [] filename = []
lines_of ((f, ls) ∷ sources) filename = if equal f filename then ls else lines_of sources filename

-- `…[lineno]`, with an empty slice for a nil one.
unfoldable pub entries_of : Lines → ℤ → List LineEntry
entries_of [] lineno = []
entries_of ((l, es) ∷ ls) lineno = if int_eq l lineno then es else entries_of ls lineno

abbrev pub entries_in : Option Sources → Bytes → ℤ → List LineEntry
entries_in none filename lineno = []
entries_in (some sources) filename lineno = entries_of (lines_of sources filename) lineno

first_address : List LineEntry → Result ℕ
first_address [] = err not_found_source_line
first_address (e ∷ es) = ok e.address

unfoldable pub file_line_to_pc : Bi → Bytes → ℤ → Result ℕ
unfolding first_address
file_line_to_pc bi filename lineno = first_address (entries_in bi.sources filename lineno)

-- `for _, v := range lineEntryArray { if v.PrologueEnd { return v.Address, nil } }`
pub prologue_address : List LineEntry → Option ℕ
prologue_address [] = none
prologue_address (e ∷ es) = if e.prologue_end then some e.address else prologue_address es

-- The second loop, behind its first round.
pub least_address : ℕ → List LineEntry → ℕ
least_address addr [] = addr
least_address addr (e ∷ es) = least_address (if ltb e.address addr then e.address else addr) es

abbrev pub nonzero : ℕ → Result ℕ
nonzero addr = if addr == 0 then err not_found_source_line else ok addr

pub break_point_address : List LineEntry → Option ℕ → Result ℕ
unfolding least_address
break_point_address [] prologue = err not_found_source_line
break_point_address (e ∷ es) (some addr) = ok addr
break_point_address (e ∷ es) none = nonzero (least_address e.address es)

unfoldable pub file_line_to_pc_for_break_point : Bi → Bytes → ℤ → Result ℕ
unfolding break_point_address prologue_address
file_line_to_pc_for_break_point bi filename lineno =
    let entries = entries_in bi.sources filename lineno in
    break_point_address entries (prologue_address entries)

-- The local type `Rs` of `pcTofileLine`.
pub record Rs : Type 0 where
  pub pc : ℕ
  pub existed_pc : Bool
  pub filename : Bytes
  pub lineno : ℤ

abbrev pub no_rs : Rs
no_rs = record { pc = 0; existed_pc = false; filename = []; lineno = pos 0 }

-- Where the loops stand: a return, or the two ranges so far.
pub data Scan : Type 0 where
  found : Bytes → ℤ → Scan
  going : Rs → Rs → Scan

abbrev pub rs_at : Bytes → ℤ → LineEntry → Rs
rs_at filename lineno e = record {
  pc = e.address;
  existed_pc = true;
  filename = filename;
  lineno = lineno;
}

-- One round of the innermost loop.
pub scan_entry : ℕ → Bytes → ℤ → LineEntry → Rs → Rs → Scan
scan_entry pc filename lineno e low high =
    if e.address == pc
    then found filename lineno
    else going
        (if leb e.address pc && (not low.existed_pc || ltb low.pc e.address)
          then rs_at filename lineno e
          else low)
        (if ltb pc e.address && (not high.existed_pc || ltb e.address high.pc)
          then rs_at filename lineno e
          else high)

-- A loop goes on unless the round has returned.
abbrev pub continue_scan : (Rs → Rs → Scan) → Scan → Scan
continue_scan next (found f l) = found f l
continue_scan next (going low high) = next low high

pub scan_entries : ℕ → Bytes → ℤ → List LineEntry → Rs → Rs → Scan
scan_entries pc filename lineno [] low high = going low high
scan_entries pc filename lineno (e ∷ es) low high =
    continue_scan (scan_entries pc filename lineno es) (scan_entry pc filename lineno e low high)

pub scan_lines : ℕ → Bytes → Lines → Rs → Rs → Scan
scan_lines pc filename [] low high = going low high
scan_lines pc filename ((l, es) ∷ ls) low high =
    continue_scan (scan_lines pc filename ls) (scan_entries pc filename l es low high)

pub scan_sources : ℕ → Sources → Rs → Rs → Scan
scan_sources pc [] low high = going low high
scan_sources pc ((f, ls) ∷ sources) low high =
    continue_scan (scan_sources pc sources) (scan_lines pc f ls low high)

abbrev pub scan_result : Scan → Bytes × ℤ
scan_result (found f l) = (f, l)
scan_result (going low high) = (low.filename, low.lineno)

unfoldable pub pc_to_file_line : Bi → ℕ → Result (Bytes × ℤ)
unfolding scan_sources scan_lines scan_entries scan_entry
pc_to_file_line bi pc = elim bi.sources [
  | none ↦ err no_sources
  | some sources ↦ ok (scan_result (scan_sources pc sources no_rs no_rs))
]

abbrev pub covers_pc : ℕ → Function → Bool
covers_pc pc f = leb f.lowpc pc && ltb pc f.highpc

pub first_function : List Function → ℕ → Result Function
first_function [] pc = err (not_found_func pc)
first_function (f ∷ fs) pc = if covers_pc pc f then ok f else first_function fs pc

unfoldable pub find_function_include_pc : Bi → ℕ → Result Function
unfolding first_function
find_function_include_pc bi pc = first_function bi.functions pc
