-- ===== src/Analysis/Spec.antt =====
-- What debug information describes: units, their lines, functions and variables; the order in which a
-- compiler lays out their entries (debug_info, DWARF 4, section 2.3); and the tables that say the same.
pub mod Fields
pub mod Functions
pub mod Tables
use godbg.Common.{length, All, ℕ, zero, suc, ◌+◌, ◌≡◌, some, List, [], ◌∷◌, ◌++◌, map}
use godbg.Common.Result.{ok}
use godbg.Bi.{LineEntry, Variable, Function, CompileUnit}
use godbg.Dwarf.{Tag, compile_unit, subprogram, other_tag, Field, Die, DwarfData}
use godbg.Analysis.Spec.Fields.{
  name_said, lowpc_said, highpc_said, frame_base_said, decl_file_said, external_said, last_said,
  variable_said,
}
use godbg.Common.{false}
use godbg.Common.Int.{pos}

-- What stands inside a function: its variables, and entries of other tags.
pub data Item : Type 0 where
  local : List Field → Item
  skipped : List Field → Item

pub record FunctionEntry : Type 0 where
  pub fields : List Field
  pub body : List Item

-- `types` are the entries before the first function.
pub record UnitEntry : Type 0 where
  pub fields : List Field
  pub rows : List LineEntry
  pub types : List (List Field)
  pub functions : List FunctionEntry

abbrev pub die_of : Tag → List Field → Die
die_of t fs = record { tag = t; fields = fs }

abbrev pub item_die : Item → Die
item_die (local fs) = die_of Tag.variable fs
item_die (skipped fs) = die_of other_tag fs

-- The entries, in front of those that follow.
unfoldable pub body_dies : List Item → List Die → List Die
body_dies [] rest = rest
body_dies (x ∷ xs) rest = item_die x ∷ body_dies xs rest

unfoldable pub type_dies : List (List Field) → List Die → List Die
type_dies [] rest = rest
type_dies (fs ∷ types) rest = die_of other_tag fs ∷ type_dies types rest

unfoldable pub function_dies : List FunctionEntry → List Die → List Die
function_dies [] rest = rest
function_dies (f ∷ fs) rest = die_of subprogram f.fields ∷ body_dies f.body (function_dies fs rest)

unfoldable pub unit_dies : List UnitEntry → List Die
unit_dies [] = []
unit_dies (u ∷ us) =
    die_of compile_unit u.fields ∷ type_dies u.types (function_dies u.functions (unit_dies us))

-- The tables that say the same.
pub variables_of : List Item → List Variable
variables_of [] = []
variables_of (local fs ∷ xs) = variable_said fs ∷ variables_of xs
variables_of (skipped fs ∷ xs) = variables_of xs

abbrev pub function_of : ℕ → FunctionEntry → Function
function_of n f = record {
  name = last_said name_said [] f.fields;
  lowpc = last_said lowpc_said 0 f.fields;
  highpc = last_said highpc_said 0 f.fields;
  frame_base = last_said frame_base_said [] f.fields;
  decl_file = last_said decl_file_said (pos 0) f.fields;
  external = last_said external_said false f.fields;
  variables = variables_of f.body;
  cu = n;
}

-- The units have the numbers from `n` on.
pub functions_of : ℕ → List UnitEntry → List Function
functions_of n [] = []
functions_of n (u ∷ us) = map (function_of n) u.functions ++ functions_of (suc n) us

pub numbers : ℕ → ℕ → List ℕ
numbers i zero = []
numbers i (suc k) = i ∷ numbers (suc i) k

-- The functions have the numbers from `i` on.
pub units_of : ℕ → List UnitEntry → List CompileUnit
units_of i [] = []
units_of i (u ∷ us) =
    record { functions = numbers i (length u.functions) } ∷ units_of (i + length u.functions) us

pub all_rows : List UnitEntry → List LineEntry
all_rows [] = []
all_rows (u ∷ us) = u.rows ++ all_rows us

-- The reader has for each unit its rows.
abbrev pub HasRows : DwarfData → List UnitEntry → Type 0
HasRows dwarf us =
    All (λ u. dwarf.line_reader (die_of compile_unit u.fields) ≡ ok (some (map ok u.rows))) us
