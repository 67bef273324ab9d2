-- ===== src/Analysis.antt =====
-- ParseLineAndInfoSection of bininfo.go: the tables of sources, functions and compile units, from the
-- entries of the debug information.
pub mod Rows
pub mod Spec
use godbg.Common.{
  if◌then◌else◌, length, ℕ, zero, suc, false, Option, none, some, List, [], ◌∷◌, ◌++◌,
}
use godbg.Common.Bytes.{Bytes, equal}
use godbg.Common.Int.{ℤ, pos, int_eq}
use godbg.Common.Result.{is_eof, Result, ok, err, panic, ◌>>=◌}
use godbg.Bi.{LineEntry, Lines, Sources, Variable, Function, CompileUnit, Bi}
use godbg.Dwarf.{
  Tag, compile_unit, subprogram, variable, other_tag, Attr, attr_name, attr_lowpc, attr_highpc,
  attr_frame_base, attr_decl_file, attr_external, Value, val_string, val_uint64, val_int64,
  val_bytes, val_bool, Field, Die, DwarfData, variable_of,
}

-- `bi.Sources[file][line] = append(bi.Sources[file][line], e)`, with the maps made where they are nil.
pub put_line : ℤ → LineEntry → Lines → Lines
put_line l e [] = (l, e ∷ []) ∷ []
put_line l e ((k, es) ∷ ls) =
    let rest = put_line l e ls in if int_eq k l then (k, es ++ (e ∷ [])) ∷ ls else (k, es) ∷ rest

pub put_source : Bytes → ℤ → LineEntry → Sources → Sources
unfolding put_line
put_source f l e [] = (f, put_line l e []) ∷ []
put_source f l e ((g, ls) ∷ ss) =
    let rest = put_source f l e ss in
    if equal g f then (g, put_line l e ls) ∷ ss else (g, ls) ∷ rest

-- A write to a nil map of sources panics.
abbrev pub put_in : Bytes → LineEntry → Option Sources → Result (Option Sources)
put_in f e none = panic
put_in f e (some sources) = ok (some (put_source f e.line e sources))

abbrev pub add_entry : LineEntry → Option Sources → Result (Option Sources)
add_entry e sources = elim e.file [ none ↦ ok sources | some f ↦ put_in f e sources ]

-- The loop over the lines of a unit.
pub add_rows : List (Result LineEntry) → Option Sources → Result (Option Sources)
add_rows [] sources = ok sources
add_rows (ok e ∷ rows) sources = add_entry e sources >>= λ s. add_rows rows s
add_rows (err e ∷ rows) sources = if is_eof e then ok sources else err e
add_rows (panic ∷ rows) sources = panic

-- `bi`, and the numbers of the current unit and function, which are nil at the start.
pub record Scan : Type 0 where
  pub bi : Bi
  pub unit : Option ℕ
  pub function : Option ℕ

-- `*p = g(*p)` for a pointer to an element.
pub modify : {A : Type 0} → ℕ → (A → A) → List A → List A
modify i g [] = []
modify zero g (x ∷ xs) = g x ∷ xs
modify (suc i) g (x ∷ xs) = x ∷ modify i g xs

-- One field of an entry of a function. A value of another type is passed over.
abbrev pub set_field : Function → Attr → Value → Function
set_field f attr_name (val_string s) = record f { name = s }
set_field f attr_lowpc (val_uint64 n) = record f { lowpc = n }
set_field f attr_highpc (val_uint64 n) = record f { highpc = n }
set_field f attr_frame_base (val_bytes bs) = record f { frame_base = bs }
set_field f attr_decl_file (val_int64 z) = record f { decl_file = z }
set_field f attr_external (val_bool b) = record f { external = b }
set_field f _ _ = f

pub set_fields : List Field → Function → Function
set_fields [] f = f
set_fields (x ∷ xs) f = set_fields xs (set_field f x.attr x.val)

-- `&Function{}`, of the unit `u`.
abbrev pub empty_function : ℕ → Function
empty_function u = record {
  name = [];
  lowpc = 0;
  highpc = 0;
  frame_base = [];
  decl_file = pos 0;
  external = false;
  variables = [];
  cu = u;
}

abbrev pub add_function : ℕ → CompileUnit → CompileUnit
add_function i unit = record { functions = unit.functions ++ (i ∷ []) }

abbrev pub add_variable : Variable → Function → Function
add_variable v f = record f { variables = f.variables ++ (v ∷ []) }

module _ (dwarf : DwarfData) where
  -- The lines of a unit. A nil reader is followed.
  abbrev pub read_lines :
      Result (Option (List (Result LineEntry))) → Option Sources → Result (Option Sources)
  read_lines (ok (some rows)) sources = add_rows rows sources
  read_lines (ok none) sources = panic
  read_lines (err e) sources = err e
  read_lines panic sources = panic

  abbrev pub enter_unit : Die → Scan → Result Scan
  enter_unit die s = read_lines (dwarf.line_reader die) s.bi.sources >>= λ sources. ok (record s {
    bi = record (s.bi) {
      sources = sources;
      compile_units = s.bi.compile_units ++ (record { functions = [] } ∷ []);
    };
    unit = some (length s.bi.compile_units);
  })

  -- A nil unit is followed.
  abbrev pub enter_function : Die → Option ℕ → Scan → Result Scan
  enter_function die none s = panic
  enter_function die (some u) s = ok (record s {
    bi = record (s.bi) {
      functions = s.bi.functions ++ (set_fields die.fields (empty_function u) ∷ []);
      compile_units = modify u (add_function (length s.bi.functions)) s.bi.compile_units;
    };
    function = some (length s.bi.functions);
  })

  -- A nil function is followed.
  abbrev pub enter_variable : Die → Option ℕ → Scan → Result Scan
  enter_variable die none s = panic
  enter_variable die (some i) s = ok (record s {
    bi = record (s.bi) { functions = modify i (add_variable (variable_of die)) s.bi.functions };
  })

  abbrev pub enter : Tag → Die → Scan → Result Scan
  enter compile_unit die s = enter_unit die s
  enter subprogram die s = enter_function die s.unit s
  enter variable die s = enter_variable die s.function s
  enter other_tag die s = ok s

  -- The loop over the entries.
  unfoldable pub dies_loop : List (Result Die) → Scan → Result Scan
  unfolding add_rows set_fields modify variable_of
  dies_loop [] s = ok s
  dies_loop (ok die ∷ dies) s = enter die.tag die s >>= λ s'. dies_loop dies s'
  dies_loop (err e ∷ dies) s = err e
  dies_loop (panic ∷ dies) s = panic

  -- On an error, `analyze` drops the tables.
  unfoldable pub parse_line_and_info_section : Bi → Result Bi
  unfolding dies_loop
  parse_line_and_info_section bi =
      dies_loop dwarf.dies (record { bi = bi; unit = none; function = none }) >>= λ s. ok s.bi
