-- ===== src/Analysis/Rows.antt =====
-- The table of sources: what a lookup finds behind the rows of a unit.
use godbg.Common.{
  if◌then◌else◌, Bool-cases, Option-cases, ◌≡◌, refl, sym, ap, ◌∙◌, ◌↔◌, inl, inr, Bool, true,
  false, ◌&&◌, Option, none, some, List, [], ◌∷◌, ◌++◌, map,
}
use godbg.Common.Bytes.{Bytes, equal, equal_iff}
use godbg.Common.Int.{ℤ, int_eq, int_eq_iff}
use godbg.Common.Result.{Result, ok}
use godbg.Bi.{LineEntry, Lines, Sources, lines_of, entries_of}
use godbg.Analysis.{put_line, put_source, put_in, add_entry, add_rows}
use mathlib.Core.List.{append_assoc, append-nil}

-- Whether a row is of a file and a line, and the rows of a list that are.
abbrev pub is_row_of : Bytes → ℤ → LineEntry → Bool
is_row_of f l e = elim e.file [ none ↦ false | some g ↦ equal g f && int_eq e.line l ]

unfoldable pub rows_of : Bytes → ℤ → List LineEntry → List LineEntry
rows_of f l [] = []
rows_of f l (e ∷ es) = let rest = rows_of f l es in if is_row_of f l e then e ∷ rest else rest

pub rows_of-append :
    (f : Bytes) (l : ℤ) (xs ys : List LineEntry)
    → rows_of f l (xs ++ ys) ≡ rows_of f l xs ++ rows_of f l ys
unfolding rows_of
rows_of-append f l [] ys = refl
rows_of-append f l (x ∷ xs) ys = elim (Bool-cases (is_row_of f l x)) [
  | inl yes_row ↦ rw yes_row (ap (◌∷◌ x) (rows_of-append f l xs ys))
  | inr no_row ↦ rw no_row (rows_of-append f l xs ys)
]

abbrev pub entries_at : Sources → Bytes → ℤ → List LineEntry
entries_at ss f l = entries_of (lines_of ss f) l

-- Two keys of a table: equal ones find the same, and a key apart from one is not equal to both.
module _ {K : Type 0} (same : K → K → Bool)
    (same_iff : (a b : K) → (same a b ≡ true) ↔ (a ≡ b)) where
  same_refl : (a : K) → same a a ≡ true
  same_refl a = (same_iff a a).1 refl

  same_trans : (a b c : K) → same a b ≡ true → same a c ≡ same b c
  same_trans a b c h = ap (λ k. same k c) ((same_iff a b).0 h)

  same_apart : (a b c : K) → same a b ≡ false → same a c ≡ true → same b c ≡ false
  same_apart a b c h g = elim (Bool-cases (same b c)) [
    | inl e ↦
        let away : same a b ≡ true =
          (same_iff a b).1 ((same_iff a c).0 g ∙ sym ((same_iff b c).0 e)) in
        cc
    | inr e ↦ e
  ]

entries_of-put_line :
    (l k : ℤ) (e : LineEntry) (ls : Lines)
    → entries_of (put_line l e ls) k ≡ entries_of ls k ++ (if int_eq l k then e ∷ [] else [])
unfolding entries_of put_line
entries_of-put_line l k e [] = refl
entries_of-put_line l k e ((j, es) ∷ ls) = elim (Bool-cases (int_eq j l)) [
  | inl at ↦ elim (Bool-cases (int_eq j k)) [
    | inl found ↦
        rw at (rw found (rw (sym (same_trans int_eq int_eq_iff j l k at)) (rw found refl)))
    | inr other ↦ rw at (
        rw other (rw (sym (same_trans int_eq int_eq_iff j l k at)) (rw other (sym (append-nil _)))))
  ]
  | inr away ↦ elim (Bool-cases (int_eq j k)) [
    | inl found ↦
        rw away
          (rw found (rw (same_apart int_eq int_eq_iff j l k away found) (sym (append-nil es))))
    | inr other ↦ rw away (rw other (entries_of-put_line l k e ls))
  ]
]

entries_at-put_source :
    (f g : Bytes) (l k : ℤ) (e : LineEntry) (ss : Sources)
    → entries_at (put_source f l e ss) g k
      ≡ entries_at ss g k ++ (if equal f g && int_eq l k then e ∷ [] else [])
unfolding lines_of put_source entries_of
entries_at-put_source f g l k e [] = elim (Bool-cases (equal f g)) [
  | inl at ↦ rw at (entries_of-put_line l k e [])
  | inr away ↦ rw away refl
]
entries_at-put_source f g l k e ((h, ls) ∷ ss) = elim (Bool-cases (equal h f)) [
  | inl at ↦ elim (Bool-cases (equal h g)) [
    | inl found ↦ rw at (
        rw found (
          rw (sym (same_trans equal equal_iff h f g at)) (rw found (entries_of-put_line l k e ls))))
    | inr other ↦
        rw at (
          rw other (rw (sym (same_trans equal equal_iff h f g at)) (rw other (sym (append-nil _)))))
  ]
  | inr away ↦ elim (Bool-cases (equal h g)) [
    | inl found ↦
        rw away (rw found (rw (same_apart equal equal_iff h f g away found) (sym (append-nil _))))
    | inr other ↦ rw away (rw other (entries_at-put_source f g l k e ss))
  ]
]

-- A row of a file.
module _ (e : LineEntry) (g : Bytes) (h : e.file ≡ some g) where
  is_row_of-some : (f : Bytes) (l : ℤ) → is_row_of f l e ≡ (equal g f && int_eq e.line l)
  is_row_of-some f l =
      ap
        (λ (file : Option Bytes). elim file [
          | none ↦ false
          | some g ↦ equal g f && int_eq e.line l
        ])
        h

  add_entry-some : (ss : Sources) → add_entry e (some ss) ≡ ok (some (put_source g e.line e ss))
  add_entry-some ss =
      ap
        (λ (file : Option Bytes). elim file as (λ _. Result (Option Sources)) [
          | none ↦ ok (some ss)
          | some f ↦ put_in f e (some ss)
        ])
        h

  -- The table behind the row.
  entries_at-row :
      (f : Bytes) (l : ℤ) (es : List LineEntry) (ss : Sources)
      → entries_at (put_source g e.line e ss) f l ++ rows_of f l es
        ≡ entries_at ss f l ++ rows_of f l (e ∷ es)
  unfolding rows_of
  entries_at-row f l es ss = rw (is_row_of-some f l) (
      rw (entries_at-put_source g f e.line l e ss)
        (elim (Bool-cases (equal g f && int_eq e.line l)) [
          | inl at ↦ rw at (append_assoc (entries_at ss f l) (e ∷ []) (rows_of f l es))
          | inr away ↦ rw away (rw append-nil refl)
        ]))

is_row_of-none : (e : LineEntry) (f : Bytes) (l : ℤ) → e.file ≡ none → is_row_of f l e ≡ false
is_row_of-none e f l h =
    ap (λ (file : Option Bytes). elim file [ none ↦ false | some g ↦ equal g f && int_eq e.line l ])
      h

add_entry-none :
    (e : LineEntry) (ss : Sources) → e.file ≡ none → add_entry e (some ss) ≡ ok (some ss)
add_entry-none e ss h =
    ap
      (λ (file : Option Bytes). elim file as (λ _. Result (Option Sources)) [
        | none ↦ ok (some ss)
        | some f ↦ put_in f e (some ss)
      ])
      h

-- The rows of a unit, none of them an error, are all read, and each lookup finds behind what it
-- found the rows of its file and line, in their order.
pub add_rows_lem :
    (rows : List LineEntry) (ss : Sources)
    → (ss' : Sources) × (add_rows (map ok rows) (some ss) ≡ ok (some ss'))
      × ((f : Bytes) (l : ℤ) → entries_at ss' f l ≡ entries_at ss f l ++ rows_of f l rows)
unfolding add_rows rows_of
add_rows_lem [] ss = (ss, refl, λ f l. sym (append-nil _))
add_rows_lem (e ∷ es) ss = elim (Option-cases e.file) [
  | inl no_file ↦
      let (ss', runs, finds) = add_rows_lem es ss in
      (
        ss',
        rw (add_entry-none e ss no_file) runs,
        λ f l. rw (is_row_of-none e f l no_file) (finds f l),
      )
  | inr (g, of_file) ↦
      let (ss', runs, finds) = add_rows_lem es (put_source g e.line e ss) in
      (
        ss',
        rw (add_entry-some e g of_file ss) runs,
        λ f l. finds f l ∙ entries_at-row e g of_file f l es ss,
      )
]
