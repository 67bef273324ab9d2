-- ===== src/Location.antt =====
-- parseLoc and locToPc of bininfo.go, with `strings.Split` on one byte and `strconv.Atoi`.
pub mod Words
pub mod Reads
use godbg.Common.{
  ltb, leb, ◌==◌, if◌then◌else◌, ℕ, zero, suc, ◌+◌, ◌-◌, ◌*◌, ◌^◌, Bool, ◌&&◌, Option, none, some,
  List, [], ◌∷◌,
}
use godbg.Common.Bytes.{Bytes}
use godbg.Common.Int.{ℤ, pos, negsuc}
use godbg.Common.Result.{wrong_loc, Result, ok, err, ◌>>=◌}
use godbg.Bi.{Bi, file_line_to_pc}

abbrev pub onto_first : ℕ → List Bytes → List Bytes
onto_first b [] = (b ∷ []) ∷ []
onto_first b (w ∷ ws) = (b ∷ w) ∷ ws

-- `strings.Split(s, sep)`
unfoldable pub split : ℕ → Bytes → List Bytes
split sep [] = [] ∷ []
split sep (b ∷ bs) = let rest = split sep bs in if b == sep then [] ∷ rest else onto_first b rest

-- The digits of a number in base 10, behind the number `n` that is read already.
abbrev pub is_digit : ℕ → Bool
is_digit b = leb 48 b && leb b 57

unfoldable pub digits_loop : ℕ → Bytes → Option ℕ
digits_loop n [] = some n
digits_loop n (b ∷ bs) =
    let rest = digits_loop (10 * n + (b - 48)) bs in if is_digit b then rest else none

abbrev pub read_digits : Bytes → Option ℕ
read_digits [] = none
read_digits (b ∷ bs) = digits_loop 0 (b ∷ bs)

-- The range of an int is -2^63 to 2^63 - 1.
abbrev pub positive : Option ℕ → Option ℤ
positive none = none
positive (some n) = if ltb n (2 ^ 63) then some (pos n) else none

abbrev pub negative : Option ℕ → Option ℤ
negative none = none
negative (some zero) = some (pos 0)
negative (some (suc n)) = if ltb n (2 ^ 63) then some (negsuc n) else none

-- `strconv.Atoi`, whose errors are all one here.
unfoldable pub atoi : Bytes → Option ℤ
unfolding digits_loop
atoi [] = none
atoi (b ∷ bs) =
    if b == 43
    then positive (read_digits bs)
    else if b == 45
    then negative (read_digits bs)
    else positive (read_digits (b ∷ bs))

abbrev pub with_line : Bytes → Option ℤ → Result (Bytes × ℤ)
with_line filename none = err wrong_loc
with_line filename (some lineno) = ok (filename, lineno)

abbrev pub of_words : List Bytes → Result (Bytes × ℤ)
of_words (filename ∷ line ∷ []) = with_line filename (atoi line)
of_words _ = err wrong_loc

abbrev pub colon : ℕ
colon = 58

unfoldable pub parse_loc : Bytes → Result (Bytes × ℤ)
unfolding split atoi
parse_loc loc = of_words (split colon loc)

unfoldable pub loc_to_pc : Bi → Bytes → Result ℕ
unfolding parse_loc file_line_to_pc
loc_to_pc bi loc = parse_loc loc >>= λ place. file_line_to_pc bi place.0 place.1
