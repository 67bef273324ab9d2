-- ===== src/Location/Reads.antt =====
-- parseLoc: what it reads, and that it reads decimal numbers.
use godbg.Common.{
  ltb, if◌then◌else◌, length, All, ℕ, zero, suc, ◌+◌, ◌-◌, ◌*◌, ◌^◌, ◌≤◌, ◌≡◌, refl, sym, ap, ◌∙◌,
  ◌↔◌, Bool, true, false, Option, none, some, List, [], ◌∷◌, ◌++◌, arith,
}
use godbg.Common.Bytes.{Bytes}
use godbg.Common.Int.{ℤ, pos}
use godbg.Common.Result.{wrong_loc, ok, err}
use godbg.Location.{split, digits_loop, atoi, with_line, of_words, colon, parse_loc}
use godbg.Location.Words.{Free, IsSplit, split-IsSplit, split-join}
use native.Mathlib.Nat.{pow-suc}

-- A place is a name, a colon and a number, with no other colon.
abbrev pub IsPlace : Bytes → Bytes → ℤ → Type 0
IsPlace loc filename lineno =
    (line : Bytes) × (loc ≡ filename ++ (colon ∷ line))
    × Free colon filename
    × Free colon line
    × (atoi line ≡ some lineno)

with_line_ok :
    (name line filename : Bytes) (o : Option ℤ) (lineno : ℤ)
    → with_line name o ≡ ok (filename, lineno)
    → (name ≡ filename) × (o ≡ some lineno)
with_line_ok name line filename none lineno h = cc
with_line_ok name line filename (some l) lineno h = (cc, cc)

of_words-IsPlace :
    (loc : Bytes) (ws : List Bytes) (filename : Bytes) (lineno : ℤ)
    → IsSplit colon loc ws
    → of_words ws ≡ ok (filename, lineno)
    → IsPlace loc filename lineno
of_words-IsPlace loc [] filename lineno s h = cc
of_words-IsPlace loc (name ∷ []) filename lineno s h = cc
of_words-IsPlace loc (name ∷ line ∷ []) filename lineno s h =
    let (same, reads) = with_line_ok name line filename (atoi line) lineno h in
    (line, sym (s.0) ∙ ap (λ n. n ++ (colon ∷ line)) same, rw (← same) (s.1.0), s.1.1.0, reads)
of_words-IsPlace loc (name ∷ line ∷ w ∷ ws) filename lineno s h = cc

-- `parseLoc` succeeds exactly on a name and a number with one colon between them and no other, and
-- returns that name, and the number as `strconv.Atoi` reads it.
pub parse_loc-IsPlace :
    (loc filename : Bytes) (lineno : ℤ)
    → (parse_loc loc ≡ ok (filename, lineno)) ↔ IsPlace loc filename lineno
unfolding parse_loc
parse_loc-IsPlace loc filename lineno = (
  of_words-IsPlace loc (split colon loc) filename lineno (split-IsSplit colon loc),
  λ (line, whole, name_free, line_free, reads).
      ap (λ l. of_words (split colon l)) whole
      ∙ ap of_words (split-join colon filename (line ∷ []) (name_free, (line_free, tt)))
      ∙ ap (with_line filename) reads,
)

-- The number that decimal digits stand for.
abbrev pub value : Bytes → ℕ
value [] = 0
value (b ∷ bs) = (b - 48) * 10 ^ length bs + value bs

abbrev pub IsDigits : Bytes → Type 0
IsDigits = All (λ b. (48 ≤ b) × (b ≤ 57))

horner : (n d p v : ℕ) → (10 * n + d) * p + v ≡ n * (10 * p) + (d * p + v)
horner n d zero v = omega arith
horner n d (suc p) v = omega (arith, horner n d p v)

digits_loop_lem :
    (n : ℕ) (bs : Bytes) → IsDigits bs → digits_loop n bs ≡ some (n * 10 ^ length bs + value bs)
unfolding digits_loop
digits_loop_lem n [] h = ap some (omega arith)
digits_loop_lem n (b ∷ bs) h = ground (
  arith,
  digits_loop_lem (10 * n + (b - 48)) bs (h.1),
  horner n (b - 48) (10 ^ length bs) (value bs),
  pow-suc 10 (length bs),
)

IsDigits-Free : (bs : Bytes) → IsDigits bs → Free colon bs
IsDigits-Free [] h = tt
IsDigits-Free (b ∷ bs) h = (λ e. omega arith, IsDigits-Free bs h.1)

atoi_decimal :
    (b : ℕ) (bs : Bytes)
    → IsDigits (b ∷ bs)
    → atoi (b ∷ bs) ≡ (if ltb (value (b ∷ bs)) (2 ^ 63) then some (pos (value (b ∷ bs))) else none)
unfolding atoi
atoi_decimal b bs h = ground (arith, h.0, digits_loop_lem (b - 48) bs (h.1))

-- A line number that is written in decimal digits, behind a name with no colon, is read as the number
-- that the digits stand for if that is below 2^63, and refused otherwise.
pub parse_loc_decimal :
    (filename : Bytes) (b : ℕ) (bs : Bytes)
    → Free colon filename
    → IsDigits (b ∷ bs)
    → parse_loc (filename ++ (colon ∷ b ∷ bs)) ≡ (
        if ltb (value (b ∷ bs)) (2 ^ 63)
        then ok (filename, pos (value (b ∷ bs)))
        else err wrong_loc)
unfolding parse_loc
parse_loc_decimal filename b bs free h =
    ap of_words (split-join colon filename ((b ∷ bs) ∷ []) (free, (IsDigits-Free (b ∷ bs) h, tt)))
    ∙ ap (with_line filename) (atoi_decimal b bs h)
    ∙ by_range (pos (value (b ∷ bs))) (ltb (value (b ∷ bs)) (2 ^ 63))
  where
    by_range :
        (z : ℤ) (t : Bool)
        → with_line filename (if t then some z else none)
          ≡ (if t then ok (filename, z) else err wrong_loc)
    by_range z true = refl
    by_range z false = refl
