-- ===== src/Bi/Nearest.antt =====
-- `pcTofileLine` finds the nearest line at or below the pc, whatever the order of the maps.
use godbg.Common.{
  ℕ, suc, ◌≤◌, ◌<◌, ◌≡◌, refl, sym, ap, ◌∙◌, arith, Bool, true, false, some, List, [], ◌∷◌, ◌++◌,
  get_elem?, All, All-map, All-of, ltb, leb, not, ◌&&◌, ◌||◌, ◌==◌, ==_iff, if◌then◌else◌,
  Bool-cases, inl, inr, ◌⊎◌,
}
use godbg.Common.Bytes.{Bytes}
use godbg.Common.Int.{ℤ, pos}
use godbg.Common.Result.{ok}
use godbg.Bi.{
  LineEntry, Lines, Sources, Bi, Rs, no_rs, Scan, found, going, scan_entry, continue_scan,
  scan_entries, scan_lines, scan_sources, rs_at, scan_result, pc_to_file_line,
}

-- One row of the line table with the keys that lead to it.
abbrev pub Row : Type 0
Row = Bytes × ℤ × LineEntry

abbrev pub rows_of_line : Bytes → ℤ → List LineEntry → List Row
rows_of_line f l [] = []
rows_of_line f l (e ∷ es) = (f, l, e) ∷ rows_of_line f l es

abbrev pub rows_of_file : Bytes → Lines → List Row
rows_of_file f [] = []
rows_of_file f ((l, es) ∷ ls) = rows_of_line f l es ++ rows_of_file f ls

-- All rows, in the order in which the three loops meet them.
abbrev pub rows : Sources → List Row
rows [] = []
rows ((f, ls) ∷ sources) = rows_of_file f ls ++ rows sources

-- The three loops as one.
abbrev scan_rows : ℕ → List Row → Rs → Rs → Scan
scan_rows pc [] low high = going low high
scan_rows pc ((f, l, e) ∷ rs) low high =
    continue_scan (scan_rows pc rs) (scan_entry pc f l e low high)

continue_assoc :
    (f g : Rs → Rs → Scan) (s : Scan)
    → continue_scan g (continue_scan f s) ≡ continue_scan (λ a b. continue_scan g (f a b)) s
continue_assoc f g (found x y) = refl
continue_assoc f g (going low high) = refl

continue_cong :
    {f g : Rs → Rs → Scan}
    → ((a b : Rs) → f a b ≡ g a b)
    → (s : Scan) → continue_scan f s ≡ continue_scan g s
continue_cong h (found x y) = refl
continue_cong h (going a b) = h a b

scan_rows-append :
    (pc : ℕ) (xs ys : List Row) (low high : Rs)
    → scan_rows pc (xs ++ ys) low high ≡ continue_scan (scan_rows pc ys) (scan_rows pc xs low high)
scan_rows-append pc [] ys low high = refl
scan_rows-append pc ((f, l, e) ∷ xs) ys low high =
    continue_cong (scan_rows-append pc xs ys) (scan_entry pc f l e low high)
    ∙ sym (continue_assoc (scan_rows pc xs) (scan_rows pc ys) (scan_entry pc f l e low high))

scan_entries-rows :
    (pc : ℕ) (f : Bytes) (l : ℤ) (es : List LineEntry) (low high : Rs)
    → scan_entries pc f l es low high ≡ scan_rows pc (rows_of_line f l es) low high
unfolding scan_entries
scan_entries-rows pc f l [] low high = refl
scan_entries-rows pc f l (e ∷ es) low high =
    continue_cong (scan_entries-rows pc f l es) (scan_entry pc f l e low high)

scan_lines-rows :
    (pc : ℕ) (f : Bytes) (ls : Lines) (low high : Rs)
    → scan_lines pc f ls low high ≡ scan_rows pc (rows_of_file f ls) low high
unfolding scan_lines
scan_lines-rows pc f [] low high = refl
scan_lines-rows pc f ((l, es) ∷ ls) low high =
    continue_cong (scan_lines-rows pc f ls) (scan_entries pc f l es low high)
    ∙ ap (continue_scan (scan_rows pc (rows_of_file f ls))) (scan_entries-rows pc f l es low high)
    ∙ sym (scan_rows-append pc (rows_of_line f l es) (rows_of_file f ls) low high)

scan_sources-rows :
    (pc : ℕ) (sources : Sources) (low high : Rs)
    → scan_sources pc sources low high ≡ scan_rows pc (rows sources) low high
unfolding scan_sources
scan_sources-rows pc [] low high = refl
scan_sources-rows pc ((f, ls) ∷ sources) low high =
    continue_cong (scan_sources-rows pc sources) (scan_lines pc f ls low high)
    ∙ ap (continue_scan (scan_rows pc (rows sources))) (scan_lines-rows pc f ls low high)
    ∙ sym (scan_rows-append pc (rows_of_file f ls) (rows sources) low high)

-- A row of the table at or below `pc`, under the keys of `r`, that no row at or below `pc` exceeds.
pub record IsNearest (pc : ℕ) (rs : List Row) (r : Bytes × ℤ) : Type 0 where
  pub index : ℕ
  pub entry : LineEntry
  pub is_row : get_elem? rs index ≡ some (r.0, r.1, entry)
  pub below : entry.address ≤ pc
  pub greatest : All (λ row. row.2.address ≤ pc → row.2.address ≤ entry.address) rs

-- Where the loop gets to from `low`: a row that beats it, or `low` itself.
abbrev Beats : ℕ → List Row → Rs → Bytes × ℤ → Type 0
Beats pc rs low r = (n : IsNearest pc rs r) × (low.existed_pc ≡ true → low.pc ≤ n.entry.address)

abbrev Stays : ℕ → List Row → Rs → Bytes × ℤ → Type 0
Stays pc rs low r =
    (r ≡ (low.filename, low.lineno))
    × All (λ row. row.2.address ≤ pc → (low.existed_pc ≡ true) × (row.2.address ≤ low.pc)) rs

-- What one round does to `low`.
module _ (pc : ℕ) (f : Bytes) (l : ℤ) (e : LineEntry) (low high : Rs) where
  takes : Bool
  takes = leb e.address pc && (not low.existed_pc || ltb low.pc e.address)

  scan_entry_hit : (e.address == pc) ≡ true → scan_entry pc f l e low high ≡ found f l
  unfolding scan_entry
  scan_entry_hit h = rw h

  scan_entry_going :
      (e.address == pc) ≡ false
      → (high' : Rs) × (scan_entry pc f l e low high
          ≡ going (if takes then rs_at f l e else low) high')
  unfolding scan_entry takes
  scan_entry_going h = (
    (if ltb pc e.address && (not high.existed_pc || ltb e.address high.pc)
        then rs_at f l e
        else high),
    rw h,
  )

  takes_lem :
      (takes ≡ true → (e.address ≤ pc) × (low.existed_pc ≡ true → low.pc < e.address))
      × (takes ≡ false → e.address ≤ pc → (low.existed_pc ≡ true) × (e.address ≤ low.pc))
  unfolding takes
  takes_lem = (λ h. ground arith, λ h k. ground arith)

module _ (pc : ℕ) (f : Bytes) (l : ℤ) (e : LineEntry) (rs : List Row) where
  IsNearest-here :
      e.address ≤ pc
      → All (λ row. row.2.address ≤ pc → row.2.address ≤ e.address) rs
      → IsNearest pc ((f, l, e) ∷ rs) (f, l)
  IsNearest-here le h = record {
    index = 0;
    entry = e;
    is_row = refl;
    below = le;
    greatest = (λ _. omega arith, h);
  }

  IsNearest-there :
      {r : Bytes × ℤ} (n : IsNearest pc rs r)
      → (e.address ≤ pc → e.address ≤ n.entry.address)
      → IsNearest pc ((f, l, e) ∷ rs) r
  IsNearest-there n h = record {
    index = suc n.index;
    entry = n.entry;
    is_row = n.is_row;
    below = n.below;
    greatest = (h, n.greatest);
  }

  -- The round takes `e`, and the rest beats it or not.
  after_taken :
      (low : Rs) (r : Bytes × ℤ)
      → e.address ≤ pc
      → (low.existed_pc ≡ true → low.pc < e.address)
      → Beats pc rs (rs_at f l e) r ⊎ Stays pc rs (rs_at f l e) r
      → Beats pc ((f, l, e) ∷ rs) low r
  unfolding IsNearest-here IsNearest-there
  after_taken low r le lt (inl (n, over)) =
      (IsNearest-there n (λ _. over refl), λ x. omega (arith, over refl, lt x))
  after_taken low r le lt (inr (same, rest)) =
      rw same (IsNearest-here le (All-map rs (λ _ h b. (h b).1) rest), λ x. omega (arith, lt x))

  -- The round leaves `low`.
  after_kept :
      (low : Rs) (r : Bytes × ℤ)
      → (e.address ≤ pc → (low.existed_pc ≡ true) × (e.address ≤ low.pc))
      → Beats pc rs low r ⊎ Stays pc rs low r
      → Beats pc ((f, l, e) ∷ rs) low r ⊎ Stays pc ((f, l, e) ∷ rs) low r
  unfolding IsNearest-there
  after_kept low r no_better (inl (n, over)) =
      inl (IsNearest-there n (λ b. let (x, y) = no_better b in omega (arith, over x, y)), over)
  after_kept low r no_better (inr (same, rest)) = inr (same, (no_better, rest))

scan_rows_lem :
    (pc : ℕ) (rs : List Row) (low high : Rs)
    → (low.existed_pc ≡ true → low.pc ≤ pc)
    → Beats pc rs low (scan_result (scan_rows pc rs low high))
      ⊎ Stays pc rs low (scan_result (scan_rows pc rs low high))
unfolding IsNearest-here
scan_rows_lem pc [] low high h = inr (refl, tt)
scan_rows_lem pc ((f, l, e) ∷ rs) low high h = elim (Bool-cases (e.address == pc)) [
  | inl hit ↦
      let at_pc : e.address ≡ pc = (==_iff e.address pc).0 hit in
      rw (scan_entry_hit pc f l e low high hit) (
        inl (
          IsNearest-here pc f l e rs (omega arith) (All-of rs (λ _ b. omega arith)),
          λ x. omega (arith, h x),
        ))
  | inr miss ↦
      let (high', step) = scan_entry_going pc f l e low high miss in
      let (better, worse) = takes_lem pc f l e low high in
      rw step (elim (Bool-cases (takes pc f l e low high)) [
        | inl t ↦
            let (le, lt) = better t in
            rw t (
              inl (
                after_taken pc f l e rs low _ le lt
                  (scan_rows_lem pc rs (rs_at f l e) high' (λ _. le))))
        | inr k ↦ rw k (after_kept pc f l e rs low _ (worse k) (scan_rows_lem pc rs low high' h))
      ])
]

-- On a table of lines, in whatever order its maps are gone over: the file and line of a row at or
-- below `pc` that no such row exceeds; and, where no row is at or below `pc`, the empty name and line
-- 0, with no error.
pub pc_to_file_line_nearest :
    (bi : Bi) (sources : Sources) (pc : ℕ)
    → bi.sources ≡ some sources
    → (r : Bytes × ℤ) × (pc_to_file_line bi pc ≡ ok r)
      × (IsNearest pc (rows sources) r
          ⊎ ((r ≡ ([], pos 0)) × All (λ row. pc < row.2.address) (rows sources)))
unfolding pc_to_file_line
pc_to_file_line_nearest bi sources pc e = (
  scan_result (scan_sources pc sources no_rs no_rs),
  rw e,
  rw scan_sources-rows (outcome (scan_rows_lem pc (rows sources) no_rs no_rs (λ x. cc))),
)
  where
    outcome :
        {r : Bytes × ℤ}
        → Beats pc (rows sources) no_rs r ⊎ Stays pc (rows sources) no_rs r
        → IsNearest pc (rows sources) r
          ⊎ ((r ≡ ([], pos 0)) × All (λ row. pc < row.2.address) (rows sources))
    outcome (inl (n, _)) = inl n
    outcome (inr (same, rest)) =
        inr (same, All-map (rows sources) (λ row h. ground (arith, h)) rest)
