-- ===== src/Listing.antt =====
-- list.go: the source lines around a place. A file is the bytes that it holds; `bufio.Reader` reads
-- lines of at most 4096 bytes.
pub mod Window
pub mod Command
pub mod Keeps
use godbg.Common.{
  ltb, leb, ◌==◌, if◌then◌else◌, length, ℕ, zero, suc, ◌^◌, Bool, false, ◌&&◌, Option, none, some,
  List, [], ◌∷◌, ◌++◌,
}
use godbg.Common.Bytes.{Bytes}
use godbg.Common.Int.{ℤ, pos, negsuc, int_eq, add64, sub64, at_most_zero, pos_part}
use godbg.Common.Result.{eof, wrong_range, buffer_full, is_eof, Result, ok, err, panic}
use godbg.Output.{ListedLine, listing}
use godbg.Target.{Os, M, ◌>>=◌, ◌>>◌, fail, lift, print, get_ptrace_pc}
use godbg.Bi.{Bi, pc_to_file_line}

-- `reader.ReadSlice('\n')`, with room for `room` bytes: the line with its end.
abbrev put_line : ℕ → Result Bytes × Bytes → Result Bytes × Bytes
put_line b (ok s, rest) = (ok (b ∷ s), rest)
put_line b (err e, rest) = (err e, rest)
put_line b (panic, rest) = (panic, rest)

unfoldable pub read_slice : ℕ → Bytes → Result Bytes × Bytes
read_slice zero bs = (err buffer_full, bs)
read_slice (suc room) [] = (err eof, [])
read_slice (suc room) (b ∷ bs) =
    if b == 10 then (ok (b ∷ []), bs) else put_line b (read_slice room bs)

abbrev pub buffer_size : ℕ
buffer_size = 4096

-- One line of the file, if it lies in the range.
abbrev pub listed : ℕ → ℕ → ℤ → ℕ → Bytes → List ListedLine
listed low high lineno cur line =
    if leb low cur && leb cur high
    then record { arrow = int_eq (pos cur) lineno; number = cur; text = line } ∷ []
    else []

abbrev prepend :
    List ListedLine → Option (Result (List ListedLine)) → Option (Result (List ListedLine))
prepend xs none = none
prepend xs (some (ok ys)) = some (ok (xs ++ ys))
prepend xs (some (err e)) = some (err e)
prepend xs (some panic) = some panic

-- The loop from the line `cur` on; `none` means that the fuel ran out.
pub list_loop : ℕ → ℕ → ℕ → ℤ → ℕ → Bytes → Option (Result (List ListedLine))
list_loop zero low high lineno cur rest = none
list_loop (suc fuel) low high lineno cur rest =
    let (r, rest') = read_slice buffer_size rest in
    let later = list_loop fuel low high lineno (suc cur) rest' in
    if ltb high cur then some (ok []) else elim r [
      | ok line ↦ prepend (listed low high lineno cur line) later
      | err e ↦ if is_eof e then some (ok []) else some (err e)
      | panic ↦ some panic
    ]

-- Every round but the last takes a byte at least.
unfoldable pub list_lines : ℕ → ℕ → ℤ → Bytes → Option (Result (List ListedLine))
unfolding list_loop
list_lines low high lineno bytes = list_loop (suc (length bytes)) low high lineno 1 bytes

-- The range, and whether `make` can have its slice: 16 bytes for a string, 2^48 bytes at most.
abbrev pub range_min : ℤ → ℤ → ℤ
range_min lineno rangeline =
    let low = sub64 (sub64 lineno rangeline) (pos 1) in if at_most_zero low then pos 1 else low

abbrev pub range_max : ℤ → ℤ → ℤ
range_max lineno rangeline = sub64 (add64 lineno rangeline) (pos 1)

abbrev pub can_make : ℤ → Bool
can_make (pos n) = leb n (2 ^ 44)
can_make (negsuc n) = false

-- The loop never runs out of its fuel, which would be a panic here.
abbrev pub ended {ℓ} : {A : Type ℓ} → Option (Result A) → Result A
ended none = panic
ended (some r) = r

module _ (os : Os) where
  open os use {World, read_file}

  abbrev show : Bytes → ℤ → Result (List ListedLine) → M World (Unit {0})
  show filename lineno (ok rows) = print (listing filename lineno rows)
  show filename lineno (err e) = fail e
  show filename lineno panic = lift panic

  -- Behind the test of the range.
  abbrev list_opened : Bytes → ℤ → ℤ → ℤ → M World (Unit {0})
  list_opened filename lineno low high = do
    bytes ← λ t. (read_file t.world filename, t)
    if can_make (add64 (sub64 high low) (pos 2))
        then show filename lineno (ended (list_lines (pos_part low) (pos_part high) lineno bytes))
        else lift panic

  unfoldable pub list_file_line : Bytes → ℤ → ℤ → M World (Unit {0})
  unfolding list_lines
  list_file_line filename lineno rangeline =
      let low = range_min lineno rangeline in
      let high = range_max lineno rangeline in
      if at_most_zero (sub64 high low)
      then fail wrong_range
      else list_opened filename lineno low high

  unfoldable pub list_file_line_by_ptrace_pc : Bi → ℤ → M World (Unit {0})
  unfolding list_file_line pc_to_file_line
  list_file_line_by_ptrace_pc bi rangeline = do
    pc ← get_ptrace_pc os
    place ← lift (pc_to_file_line bi pc)
    list_file_line place.0 place.1 rangeline
