-- ===== src/Bi/Lookup.antt =====
-- The pc of a source line, for a breakpoint, and the function of a pc.
use godbg.Common.{
  ℕ, zero, suc, ◌≤◌, ◌<◌, ◌≡◌, ◌≢◌, refl, sym, arith, true, false, none, some, List, [], ◌∷◌,
  get_elem?, take, All, ltb, ◌==◌, if◌then◌else◌, Bool-cases, inl, inr, ◌⊎◌,
}
use godbg.Common.Bytes.{Bytes}
use godbg.Common.Int.{ℤ}
use godbg.Common.Result.{Result, ok, err, not_found_source_line, not_found_func}
use godbg.Bi.{
  LineEntry, Function, Bi, entries_in, prologue_address, least_address, break_point_address,
  nonzero, file_line_to_pc_for_break_point, first_function, find_function_include_pc, covers_pc,
}

-- The first entry that ends a prologue.
pub record IsPrologueEnd (es : List LineEntry) (a : ℕ) : Type 0 where
  index : ℕ
  entry : LineEntry
  is_entry : get_elem? es index ≡ some entry
  marked : entry.prologue_end ≡ true
  first : All (λ e. e.prologue_end ≡ false) (take index es)
  at : entry.address ≡ a

-- The least address of entries that end no prologue.
pub record IsLeastAddress (es : List LineEntry) (a : ℕ) : Type 0 where
  index : ℕ
  entry : LineEntry
  is_entry : get_elem? es index ≡ some entry
  at : entry.address ≡ a
  unmarked : All (λ e. e.prologue_end ≡ false) es
  least : All (λ e. a ≤ e.address) es

prologue_address_lem :
    (es : List LineEntry)
    → ((a : ℕ) × (prologue_address es ≡ some a) × IsPrologueEnd es a)
      ⊎ ((prologue_address es ≡ none) × All (λ e. e.prologue_end ≡ false) es)
unfolding prologue_address
prologue_address_lem [] = inr (refl, tt)
prologue_address_lem (e ∷ es) = elim (Bool-cases e.prologue_end) [
  | inl m ↦ inl (
    e.address,
    rw m,
    record { index = 0; entry = e; is_entry = refl; marked = m; first = tt; at = refl },
  )
  | inr u ↦ elim (prologue_address_lem es) [
    | inl (a, p, h) ↦ inl (
      a,
      rw u p,
      record {
        index = suc h.index;
        entry = h.entry;
        is_entry = h.is_entry;
        marked = h.marked;
        first = (u, h.first);
        at = h.at;
      },
    )
    | inr (p, h) ↦ inr (rw u p, (u, h))
  ]
]

least_address_lem :
    (addr : ℕ) (es : List LineEntry)
    → (least_address addr es ≤ addr)
      × All (λ e. least_address addr es ≤ e.address) es
      × ((least_address addr es ≡ addr)
          ⊎ ((i : ℕ) × (e : LineEntry) × (get_elem? es i ≡ some e)
              × (e.address ≡ least_address addr es)))
unfolding least_address
least_address_lem addr [] = (omega arith, tt, inl refl)
least_address_lem addr (e ∷ es) =
    let low = if ltb e.address addr then e.address else addr in
    let (le, all, where_) = least_address_lem low es in
    let low_le : (low ≤ addr) × (low ≤ e.address) = ground arith in
    (
      omega arith,
      (omega arith, all),
      elim where_ [
        | inl same ↦ elim (Bool-cases (ltb e.address addr)) [
          | inl taken ↦ inr (0, e, refl, ground arith)
          | inr kept ↦ inl (ground arith)
        ]
        | inr (i, x, at, eq) ↦ inr (suc i, x, at, eq)
      ],
    )

-- What `fileLineToPcForBreakPoint` answers on the entries of the line: the address of the first entry
-- that ends a prologue; where none does, the least address, if that is not 0; and the error in
-- exactly the other cases, an empty line or a least address of 0.
pub data Chooses (es : List LineEntry) : Result ℕ → Type 0 where
  prologue : (a : ℕ) → IsPrologueEnd es a → Chooses es (ok a)
  least : (a : ℕ) → IsLeastAddress es a → a ≢ 0 → Chooses es (ok a)
  empty : es ≡ [] → Chooses es (err not_found_source_line)
  zero_address : IsLeastAddress es 0 → Chooses es (err not_found_source_line)

-- The least address of the entries, for a line with no prologue end.
IsLeastAddress-least_address :
    (e : LineEntry) (es : List LineEntry)
    → All (λ x. x.prologue_end ≡ false) (e ∷ es)
    → IsLeastAddress (e ∷ es) (least_address e.address es)
IsLeastAddress-least_address e es h =
    let (le, all, place) = least_address_lem e.address es in
    elim place [
      | inl same ↦ record {
        index = 0;
        entry = e;
        is_entry = refl;
        at = sym same;
        unmarked = h;
        least = (le, all);
      }
      | inr (i, x, at, eq) ↦ record {
        index = suc i;
        entry = x;
        is_entry = at;
        at = eq;
        unmarked = h;
        least = (le, all);
      }
    ]

break_point_address-Chooses :
    (es : List LineEntry) → Chooses es (break_point_address es (prologue_address es))
unfolding break_point_address
break_point_address-Chooses [] = empty refl
break_point_address-Chooses (e ∷ es) = elim (prologue_address_lem (e ∷ es)) [
  | inl (a, p, h) ↦ rw p (prologue a h)
  | inr (p, h) ↦
      rw p (nonzero_cases (least_address e.address es) (IsLeastAddress-least_address e es h))
]
  where
    nonzero_cases : (a : ℕ) → IsLeastAddress (e ∷ es) a → Chooses (e ∷ es) (nonzero a)
    nonzero_cases zero h = zero_address h
    nonzero_cases (suc a) h =
        let test : (suc a == 0) ≡ false = ground arith in rw test (least (suc a) h (omega arith))

-- On every table and line: the address of the first entry of the line that ends a prologue; where none
-- does, the least address of its entries, if that is not 0; and `NotFoundSourceLineErr` only if the
-- line has no entry, or none that ends a prologue and the least address 0.
pub file_line_to_pc_for_break_point-Chooses :
    (bi : Bi) (filename : Bytes) (lineno : ℤ)
    → Chooses
        (entries_in bi.sources filename lineno)
        (file_line_to_pc_for_break_point bi filename lineno)
unfolding file_line_to_pc_for_break_point
file_line_to_pc_for_break_point-Chooses bi filename lineno =
    break_point_address-Chooses (entries_in bi.sources filename lineno)

-- The pc lies in the range of the function, the upper end excluded.
abbrev pub Covers : ℕ → Function → Type 0
Covers pc f = (f.lowpc ≤ pc) × (pc < f.highpc)

-- The first function of the list that covers the pc, or the error, if none does.
pub data Finds (fs : List Function) (pc : ℕ) : Result Function → Type 0 where
  hit :
      (i : ℕ) (f : Function)
      → get_elem? fs i ≡ some f
      → Covers pc f
      → All (λ g. ¬ Covers pc g) (take i fs)
      → Finds fs pc (ok f)
  miss : All (λ g. ¬ Covers pc g) fs → Finds fs pc (err (not_found_func pc))

Finds-cons :
    (f : Function) (fs : List Function) (pc : ℕ)
    → ¬ Covers pc f
    → (r : Result Function) → Finds fs pc r
    → Finds (f ∷ fs) pc r
Finds-cons f fs pc n r (hit i g at c before) = hit (suc i) g at c (n, before)
Finds-cons f fs pc n r (miss h) = miss (n, h)

first_function-Finds : (fs : List Function) (pc : ℕ) → Finds fs pc (first_function fs pc)
unfolding first_function
first_function-Finds [] pc = miss tt
first_function-Finds (f ∷ fs) pc = elim (Bool-cases (covers_pc pc f)) [
  | inl c ↦ rw c (hit 0 f refl (ground arith) tt)
  | inr n ↦ rw n (Finds-cons f fs pc (ground arith) _ (first_function-Finds fs pc))
]

-- The first function of the list whose range holds the pc, the upper end excluded, or the error, with
-- the pc, where no function's range does.
pub find_function_include_pc-Finds :
    (bi : Bi) (pc : ℕ) → Finds bi.functions pc (find_function_include_pc bi pc)
unfolding find_function_include_pc
find_function_include_pc-Finds bi pc = first_function-Finds bi.functions pc
