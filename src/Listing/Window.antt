-- ===== src/Listing/Window.antt =====
-- The lines that a listing shows: a file is complete lines, and a rest with no end.
use native.Mathlib.Decide.{dec_lt}
use godbg.Common.{◌∙◌, sym, ap, Bool-cases, inl, inr}
use godbg.Common.{
  ltb, if◌then◌else◌, length, take, drop, All, length-append, ℕ, zero, suc, ◌-◌, ◌≤◌, ◌<◌, ◌≡◌,
  refl, ◌≢◌, some, List, [], ◌∷◌, ◌++◌, arith,
}
use godbg.Common.Bytes.{Bytes}
use godbg.Common.Int.{ℤ, pos, int_eq}
use godbg.Common.Result.{eof, ok, err}
use godbg.Output.{ListedLine}
use godbg.Listing.{read_slice, buffer_size, listed, list_loop, list_lines}

abbrev pub file_of : List Bytes → Bytes → Bytes
file_of [] tail = tail
file_of (l ∷ ls) tail = l ++ (10 ∷ file_of ls tail)

-- A line, or the rest, that the reader's buffer holds.
abbrev pub IsShort : Bytes → Type 0
IsShort l = All (λ b. b ≢ 10) l × (length l < buffer_size)

-- All lines with their numbers, from `cur` on.
abbrev pub numbered : ℤ → ℕ → List Bytes → List ListedLine
numbered lineno cur [] = []
numbered lineno cur (l ∷ ls) =
    record { arrow = int_eq (pos cur) lineno; number = cur; text = l ++ (10 ∷ []) }
    ∷ numbered lineno (suc cur) ls

read_slice_line :
    (l rest : Bytes) (room : ℕ)
    → All (λ b. b ≢ 10) l
    → length l < room
    → read_slice room (l ++ (10 ∷ rest)) ≡ (ok (l ++ (10 ∷ [])), rest)
unfolding read_slice
read_slice_line [] rest (suc room) h lt = refl
read_slice_line l rest zero h lt = elim lt [ ]
read_slice_line (b ∷ l) rest (suc room) h lt =
    ground (arith, read_slice_line l rest room h.1 (omega arith))

read_slice_eof :
    (tail : Bytes) (room : ℕ)
    → All (λ b. b ≢ 10) tail
    → length tail < room
    → read_slice room tail ≡ (err eof, [])
unfolding read_slice
read_slice_eof [] (suc room) h lt = refl
read_slice_eof tail zero h lt = elim lt [ ]
read_slice_eof (b ∷ tail) (suc room) h lt =
    ground (arith, read_slice_eof tail room h.1 (omega arith))

take-nil : (n : ℕ) → take {A = ListedLine} n [] ≡ []
take-nil zero = refl
take-nil (suc n) = refl

drop-nil : (n : ℕ) → drop {A = ListedLine} n [] ≡ []
drop-nil zero = refl
drop-nil (suc n) = refl

module _ (low high : ℕ) (lineno : ℤ) where
  -- The rows from the line `cur` on.
  shown : ℕ → List Bytes → List ListedLine
  shown cur [] = []
  shown cur (l ∷ ls) =
      if ltb high cur then [] else listed low high lineno cur (l ++ (10 ∷ [])) ++ shown (suc cur) ls

  list_loop_lem :
      (ls : List Bytes) (tail : Bytes) (cur fuel : ℕ)
      → All IsShort ls
      → IsShort tail
      → length (file_of ls tail) < fuel
      → list_loop fuel low high lineno cur (file_of ls tail) ≡ some (ok (shown cur ls))
  unfolding list_loop shown
  list_loop_lem ls tail cur zero h t lt = elim lt [ ]
  list_loop_lem [] tail cur (suc fuel) h t lt =
      ground (arith, read_slice_eof tail buffer_size t.0 t.1)
  list_loop_lem (l ∷ ls) tail cur (suc fuel) h t lt = ground (
    arith,
    read_slice_line l (file_of ls tail) buffer_size h.0.0 h.0.1,
    list_loop_lem ls tail (suc cur) fuel h.1 t
        (omega (arith, length-append l (10 ∷ file_of ls tail))),
  )

  -- Behind the first line of the range, and before it.
  -- Behind the first line of the range, and before it.
  shown_inside :
      (ls : List Bytes) (cur : ℕ)
      → low ≤ cur
      → shown cur ls ≡ take (suc high - cur) (numbered lineno cur ls)
  unfolding shown
  shown_inside [] cur h = sym (take-nil (suc high - cur))
  shown_inside (l ∷ ls) cur h = elim (Bool-cases (ltb high cur)) [
    | inl past ↦ let none_left : suc high - cur ≡ 0 = ground arith in rw (past, none_left)
    | inr within ↦
        let one_more : suc high - cur ≡ suc (suc high - suc cur) = ground arith in
        rw (within, one_more) (ground (arith, shown_inside ls (suc cur)))
  ]

  shown_before :
      (ls : List Bytes) (cur : ℕ)
      → cur ≤ low
      → low ≤ high
      → shown cur ls ≡ take (suc high - low) (drop (low - cur) (numbered lineno cur ls))
  unfolding shown
  shown_before [] cur h k = rw (drop-nil (low - cur)) (sym (take-nil (suc high - low)))
  shown_before (l ∷ ls) cur h k = elim (dec_lt cur low) [
    | yes earlier ↦
        let one_more : low - cur ≡ suc (low - suc cur) = omega arith in
        rw one_more (ground (arith, shown_before ls (suc cur)))
    | no reached ↦
        let same : low ≡ cur = omega arith in
        let at_cur : low - cur ≡ 0 = omega arith in
        rw (at_cur) (
          shown_inside (l ∷ ls) cur (omega arith)
          ∙ ap (λ n. take (suc high - n) (numbered lineno cur (l ∷ ls))) (sym same))
  ]

  -- On a file whose lines, and whose rest behind the last line end, fit the reader's buffer: the loop
  -- ends, and gives the complete lines with the numbers from `low` to `high`, counted from 1, in order,
  -- each with its line end and its number, and with the arrow exactly at `lineno`. The rest behind the
  -- last line end is never shown.
  pub list_lines_window :
      (ls : List Bytes) (tail : Bytes)
      → 1 ≤ low
      → low ≤ high
      → All IsShort ls
      → IsShort tail
      → list_lines low high lineno (file_of ls tail)
        ≡ some (ok (take (suc high - low) (drop (low - 1) (numbered lineno 1 ls))))
  unfolding list_lines
  list_lines_window ls tail first range h t =
      list_loop_lem ls tail 1 (suc (length (file_of ls tail))) h t (omega arith)
      ∙ ap (λ rows. some (ok rows)) (shown_before ls 1 first range)
