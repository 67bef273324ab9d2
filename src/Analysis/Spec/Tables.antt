-- ===== src/Analysis/Spec/Tables.antt =====
-- The tables that ParseLineAndInfoSection builds are those that the debug information describes.
use godbg.Common.{
  length, length-append, ℕ, suc, ◌+◌, ◌≡◌, refl, sym, ap, ◌∙◌, Option, none, some, List, [], ◌∷◌,
  ◌++◌, map,
}
use godbg.Common.Bytes.{Bytes}
use godbg.Common.Int.{ℤ}
use godbg.Common.Result.{ok, ◌>>=◌}
use godbg.Bi.{Sources, Function, CompileUnit, Bi}
use godbg.Dwarf.{DwarfData}
use godbg.Analysis.{dies_loop, parse_line_and_info_section}
use godbg.Analysis.Rows.{rows_of, rows_of-append, entries_at, add_rows_lem}
use godbg.Analysis.Spec.{
  UnitEntry, function_dies, unit_dies, function_of, functions_of, numbers, units_of, all_rows,
  HasRows,
}
use godbg.Analysis.Spec.Functions.{
  length-snoc, unit_with, from_here, types-from_here, functions-from_here,
}
use godbg.Frame.{VirtualUnwindFrameInformation}
use mathlib.Core.List.{append_assoc, append-nil}

length-map : {A B : Type 0} (g : A → B) (xs : List A) → length (map g xs) ≡ length xs
length-map g [] = refl
length-map g (x ∷ xs) = ap suc (length-map g xs)

-- The tables of one unit and of those behind it.
module _ (e : UnitEntry) (es : List UnitEntry) (fs : List Function) (us : List CompileUnit) where
  functions_assoc :
      (u : CompileUnit)
      → (fs ++ map (function_of (length us)) e.functions)
          ++ functions_of (length (us ++ (u ∷ []))) es
        ≡ fs ++ functions_of (length us) (e ∷ es)
  unfolding functions_of
  functions_assoc u =
      let new = map (function_of (length us)) e.functions in
      append_assoc fs new (functions_of (length (us ++ (u ∷ []))) es)
      ∙ ap (λ m. fs ++ (new ++ functions_of m es)) (length-snoc us u)

  units_assoc :
      (n : ℕ)
      → (us ++ (unit_with (numbers (length fs) (length e.functions)) ∷ []))
          ++ units_of (length (fs ++ map (function_of n) e.functions)) es
        ≡ us ++ units_of (length fs) (e ∷ es)
  unfolding units_of
  units_assoc n =
      let u = unit_with (numbers (length fs) (length e.functions)) in
      let new = map (function_of n) e.functions in
      append_assoc us (u ∷ []) (units_of (length (fs ++ new)) es)
      ∙ ap (λ m. us ++ (u ∷ units_of m es))
          (length-append fs new ∙ ap (λ k. length fs + k) (length-map (function_of n) e.functions))

module _ (dwarf : DwarfData) where
  -- The units.
  units-from_here :
      (es : List UnitEntry) (ss : Sources) (fs : List Function) (us : List CompileUnit)
      (infos : List VirtualUnwindFrameInformation) (p q : Option ℕ)
      → HasRows dwarf es
      → (ss' : Sources) × (p' : Option ℕ) × (q' : Option ℕ) × (from_here dwarf
            (unit_dies es)
            (some ss)
            fs
            us
            infos
            p
            q
          ≡ from_here dwarf []
              (some ss')
              (fs ++ functions_of (length us) es)
              (us ++ units_of (length fs) es)
              infos
              p'
              q')
        × ((f : Bytes) (l : ℤ)
            → entries_at ss' f l ≡ entries_at ss f l ++ rows_of f l (all_rows es))
  unfolding dies_loop unit_dies functions_of units_of all_rows rows_of
  units-from_here [] ss fs us infos p q h =
      (ss, p, q, rw append-nil (rw append-nil refl), λ f l. sym (append-nil _))
  units-from_here (e ∷ es) ss fs us infos p q h =
      let n = length us in
      let k = length e.functions in
      let rest = function_dies e.functions (unit_dies es) in
      let u' = unit_with (numbers (length fs) k) in
      let (ss1, reads, finds1) = add_rows_lem e.rows ss in
      let (q1, runs1) =
        functions-from_here dwarf (some ss1) infos e.functions (unit_dies es) fs us [] q in
      let (ss2, p2, q2, runs2, finds2) =
        units-from_here es ss1 (fs ++ map (function_of n) e.functions) (us ++ (u' ∷ [])) infos
          (some n) q1 h.1 in
      (
        ss2,
        p2,
        q2,
        rw h.0 (
            rw reads (
              types-from_here dwarf (some ss1) infos e.types rest fs (us ++ (unit_with [] ∷ []))
                (some n) q
              ∙ runs1
              ∙ runs2
              ∙ ap
                  (λ gs.
                    from_here dwarf [] (some ss2) gs
                      ((us ++ (u' ∷ []))
                        ++ units_of (length (fs ++ map (function_of n) e.functions)) es)
                      infos p2 q2)
                  (functions_assoc e es fs us u')
              ∙ ap
                  (λ vs.
                    from_here dwarf [] (some ss2) (fs ++ functions_of n (e ∷ es)) vs infos p2 q2)
                  (units_assoc e es fs us n))),
        λ f l.
            finds2 f l
            ∙ ap (λ found. found ++ rows_of f l (all_rows es)) (finds1 f l)
            ∙ append_assoc (entries_at ss f l) (rows_of f l e.rows) (rows_of f l (all_rows es))
            ∙ ap (◌++◌ (entries_at ss f l)) (sym (rows_of-append f l e.rows (all_rows es))),
      )

-- Where the entries and the lines are read without an error, and the entries are those of `units` in
-- their order, `ParseLineAndInfoSection` succeeds; the tables of functions and units grow by those of
-- `units`: each function with, for its name, addresses, frame base, file and visibility, the last value
-- of a fitting type that its entry gives to that attribute, with its variables, each with the first name
-- and the first location of its entry, and with its unit; each unit with the numbers of its functions;
-- and every lookup of a file and a line finds, behind what it found before, the rows of that file and
-- line, in their order. The frames stay.
pub parse_line_and_info_section_lem :
    (dwarf : DwarfData) (units : List UnitEntry) (bi : Bi) (ss : Sources)
    → dwarf.dies ≡ map ok (unit_dies units)
    → HasRows dwarf units
    → bi.sources ≡ some ss
    → (ss' : Sources) × (parse_line_and_info_section dwarf bi
        ≡ ok (record bi {
          sources = some ss';
          functions = bi.functions ++ functions_of (length bi.compile_units) units;
          compile_units = bi.compile_units ++ units_of (length bi.functions) units;
        }))
      × ((f : Bytes) (l : ℤ)
          → entries_at ss' f l ≡ entries_at ss f l ++ rows_of f l (all_rows units))
unfolding parse_line_and_info_section dies_loop
parse_line_and_info_section_lem dwarf units bi ss all_read has_rows made =
    let (ss', p, q, runs, finds) =
      units-from_here dwarf units ss bi.functions bi.compile_units bi.frames_information none none
        has_rows in
    (
      ss',
      ap
            (λ dies.
              dies_loop dwarf dies (record { bi = bi; unit = none; function = none }) >>= λ s.
              ok s.bi)
            all_read
          ∙ ap
              (λ sources.
                dies_loop dwarf (map ok (unit_dies units))
                  (record { bi = record bi { sources = sources }; unit = none; function = none })
                >>= λ s. ok s.bi)
              made
          ∙ ap (λ r. r >>= λ s. ok s.bi) runs,
      finds,
    )
