-- ===== src/Dwarf.antt =====
-- debug/dwarf and debug/elf, as far as bininfo.go uses them: what the readers of these packages answer.
use godbg.Common.{ℕ, Bool, Option, none, some, List, [], ◌∷◌}
use godbg.Common.Bytes.{Bytes}
use godbg.Common.Int.{ℤ}
use godbg.Common.Result.{Error, Result}
use godbg.Bi.{LineEntry, Variable}

pub data Tag : Type 0 where
  compile_unit subprogram variable other_tag : Tag

pub data Attr : Type 0 where
  attr_name attr_lowpc attr_highpc attr_frame_base attr_decl_file attr_external : Attr
  attr_location other_attr : Attr

-- The dynamic types of a field's value.
pub data Value : Type 0 where
  val_string : Bytes → Value
  val_uint64 : ℕ → Value
  val_int64 : ℤ → Value
  val_bytes : Bytes → Value
  val_bool : Bool → Value
  other_value : Value

pub record Field : Type 0 where
  pub attr : Attr
  pub val : Value

-- A `dwarf.Entry`.
pub record Die : Type 0 where
  pub tag : Tag
  pub fields : List Field

-- A `dwarf.Data`: the answers of `Next` up to the nil entry; and `LineReader`, which is nil for a unit
-- with no table of lines, and otherwise has the answers of its `Next`, up to `io.EOF`.
pub record DwarfData : Type 0 where
  pub dies : List (Result Die)
  pub line_reader : Die → Result (Option (List (Result LineEntry)))

-- An `elf.Section`: what `Data` answers, and `Size`.
pub record Section : Type 0 where
  pub data_bytes : Bytes
  pub data_error : Option Error
  pub size : ℕ

-- An `elf.File`: `Section` by its name, and `DWARF`.
pub record ElfFile : Type 0 where
  pub section : Bytes → Option Section
  pub dwarf : Result DwarfData

-- A reader of `compress/zlib`: `io.ReadFull` of a number of bytes, and `Close` behind it.
pub record ZlibReader : Type 0 where
  pub read_full : ℕ → Result Bytes
  pub close : Option Error

-- `Val.(string)` and `Val.([]byte)`
abbrev pub as_string : Value → Option Bytes
as_string (val_string s) = some s
as_string _ = none

abbrev pub as_bytes : Value → Option Bytes
as_bytes (val_bytes bs) = some bs
as_bytes _ = none

-- The value of the name of an entry, if it has one that is a string: `AttrField` is the first field.
abbrev pub name_in : Attr → Value → Option Bytes → Option Bytes
name_in attr_name val later = as_string val
name_in _ val later = later

unfoldable pub name_of : List Field → Option Bytes
name_of [] = none
name_of (f ∷ fs) = let later = name_of fs in name_in f.attr f.val later

abbrev pub location_in : Attr → Value → Option Bytes → Option Bytes
location_in attr_location val later = as_bytes val
location_in _ val later = later

unfoldable pub location_of : List Field → Option Bytes
location_of [] = none
location_of (f ∷ fs) = let later = location_of fs in location_in f.attr f.val later

-- What `print` reads of an entry of a variable.
unfoldable pub variable_of : Die → Variable
unfolding name_of location_of
variable_of die = record { name = name_of die.fields; location = location_of die.fields }
