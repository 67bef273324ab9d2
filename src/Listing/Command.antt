-- ===== src/Listing/Command.antt =====
-- `listFileLine`: the range of a line and a distance.
use godbg.Common.{
  leb, if◌then◌else◌, Bool-cases, take, drop, All, ℕ, suc, ◌+◌, ◌-◌, ◌^◌, ◌<◌, ◌≡◌, ap, ◌∙◌, inl,
  inr, Bool, true, false, Option, List, [], ◌∷◌, ◌++◌, arith,
}
use godbg.Common.Bytes.{Bytes}
use godbg.Common.Int.{ℤ, pos, add64, sub64, at_most_zero}
use godbg.Common.Result.{wrong_range, Result, ok, err, panic}
use godbg.Output.{ListedLine, listing}
use godbg.Target.{Os, Target, M, after, fail, lift}
use godbg.Listing.{
  list_lines, range_min, range_max, can_make, ended, list_file_line, list_opened, show,
}
use godbg.Listing.Window.{file_of, IsShort, numbered, list_lines_window}

-- Below the line by the distance and one, but not below 1; above it by the distance less one.
abbrev pub first_line : ℕ → ℕ → ℕ
first_line n r = if leb n (r + 2) then 1 else n - r - 1

abbrev pub last_line : ℕ → ℕ → ℕ
last_line n r = n + r - 1

range_min_lem :
    (n r : ℕ) → n < 2 ^ 43 → r < 2 ^ 43 → range_min (pos n) (pos r) ≡ pos (first_line n r)
range_min_lem n r hn hr = ground arith

range_max_lem :
    (n r : ℕ)
    → n < 2 ^ 43
    → r < 2 ^ 43
    → 0 < n + r
    → range_max (pos n) (pos r) ≡ pos (last_line n r)
range_max_lem n r hn hr some_ = ground arith

-- The difference of the ends, for numbers that fit.
at_most_zero-sub64 :
    (a b : ℕ) → a < 2 ^ 45 → b < 2 ^ 45 → at_most_zero (sub64 (pos a) (pos b)) ≡ leb a b
at_most_zero-sub64 a b ha hb = ground arith

can_make_lem :
    (a b : ℕ)
    → a < 2 ^ 43 + 2 ^ 43 - 2
    → b < a
    → can_make (add64 (sub64 (pos a) (pos b)) (pos 2)) ≡ true
can_make_lem a b ha lt = ground arith

-- The answer, with the lines of the file.
abbrev pub rows_around : ℕ → ℕ → List Bytes → List ListedLine
rows_around n r ls =
    take (suc (last_line n r) - first_line n r) (drop (first_line n r - 1) (numbered (pos n) 1 ls))

module _ (os : Os) (filename : Bytes) (n r : ℕ) (t : Target os.World) where
  open os use {World, read_file}

  -- The command behind the ends of its range.
  abbrev between : ℤ → ℤ → M World (Unit {0})
  between low high =
      if at_most_zero (sub64 high low)
      then fail wrong_range
      else list_opened os filename (pos n) low high

  module _ (n_small : n < 2 ^ 43) (r_small : r < 2 ^ 43) (not_both : 0 < n + r) where
    list_file_line-between :
        list_file_line os filename (pos n) (pos r) t
        ≡ between (pos (first_line n r)) (pos (last_line n r)) t
    unfolding list_file_line
    list_file_line-between =
        ap (λ low. between low (range_max (pos n) (pos r)) t) (range_min_lem n r n_small r_small)
        ∙ ap (λ high. between (pos (first_line n r)) high t)
            (range_max_lem n r n_small r_small not_both)

    -- The test of the range.
    between_test :
        (b : Bool)
        → leb (last_line n r) (first_line n r) ≡ b
        → between (pos (first_line n r)) (pos (last_line n r)) t
          ≡ (if b
                then fail wrong_range
                else list_opened os filename (pos n) (pos (first_line n r)) (pos (last_line n r)))
              t
    between_test b e =
        ap
          (λ (c : Bool).
            (if c
                then fail wrong_range
                else list_opened os filename (pos n) (pos (first_line n r)) (pos (last_line n r)))
              t)
          (at_most_zero-sub64 (last_line n r) (first_line n r) (omega arith) (ground arith) ∙ e)

    list_opened_lem :
        (ls : List Bytes) (tail : Bytes)
        → first_line n r < last_line n r
        → read_file t.world filename ≡ ok (file_of ls tail)
        → All IsShort ls
        → IsShort tail
        → list_opened os filename (pos n) (pos (first_line n r)) (pos (last_line n r)) t ≡ (
          ok tt,
          record t { out = t.out ++ (listing filename (pos n) (rows_around n r ls) ∷ []) },
        )
    list_opened_lem ls tail wide opened h k =
        ap (λ (r : Result Bytes). after after_read r t) opened
        ∙ ap (λ (b : Bool). shown_if b (file_of ls tail) t)
            (can_make_lem (last_line n r) (first_line n r) (omega arith) wide)
        ∙ ap (λ (o : Option (Result (List ListedLine))). show os filename (pos n) (ended o) t)
            (list_lines_window (first_line n r) (last_line n r) (pos n) ls tail (ground arith)
              (omega arith) h k)
      where
        shown_if : Bool → Bytes → M World (Unit {0})
        shown_if b bytes =
            if b
            then show os filename (pos n)
                (ended (list_lines (first_line n r) (last_line n r) (pos n) bytes))
            else lift panic

        after_read : Bytes → M World (Unit {0})
        after_read bytes =
            shown_if (can_make (add64 (sub64 (pos (last_line n r)) (pos (first_line n r))) (pos 2)))
              bytes

    -- For a line and a distance below 2^43, not both 0, where the file can be read and its lines fit the
    -- reader's buffer: where the last line of the range is not behind its first, the command fails with
    -- `wrong_range`; otherwise it prints one listing, of the complete lines of the file in the range, and
    -- changes nothing else.
    pub list_file_line_window :
        (ls : List Bytes) (tail : Bytes)
        → read_file t.world filename ≡ ok (file_of ls tail)
        → All IsShort ls
        → IsShort tail
        → list_file_line os filename (pos n) (pos r) t ≡ (
            if leb (last_line n r) (first_line n r) then (err wrong_range, t) else (
              ok tt,
              record t { out = t.out ++ (listing filename (pos n) (rows_around n r ls) ∷ []) },
            ))
    list_file_line_window ls tail opened h k =
        elim (Bool-cases (leb (last_line n r) (first_line n r))) [
          | inl narrow ↦ list_file_line-between ∙ between_test true narrow ∙ rw narrow
          | inr wide ↦
              list_file_line-between
              ∙ between_test false wide
              ∙ list_opened_lem ls tail (ground arith) opened h k
              ∙ rw wide
        ]
