-- ===== src/Common/Result.antt =====
-- Go's (value, error) results. `panic` is a run-time panic: an index out of range, or a nil pointer
-- that is followed.
use Prim.Native.Nat.{ℕ}
use mathlib.Core.Bool.{Bool, true, false}

-- The errors of the program. `system` is an error that the operating system or a package of the
-- environment returns, by a number.
pub data Error : Type 0 where
  not_found_source_line : Error
  has_existed_break_point : Error
  no_process_runing : Error
  not_found_func : ℕ → Error
  eof : Error
  unknown_byte : ℕ → Error
  duplicate_fde : Error
  not_covered : ℕ → Error
  no_cie : Error
  reg_out_of_range : Error
  reg_is_null : Error
  invalid_cfa_rule : Error
  wrong_loc : Error
  no_sources : Error
  null_breakpoint : Error
  unknown_waitstatus : Error
  invalid_range : ℕ → ℕ → Error
  no_section : Error
  wrong_range : Error
  buffer_full : Error
  no_pc_register : Error
  negative_length : Error
  null_pointer : Error
  wrong_args_count : Error
  no_debug_word : Error
  no_go_file : Error
  system : ℕ → Error

-- `err == io.EOF`
abbrev pub is_eof : Error → Bool
is_eof eof = true
is_eof _ = false

pub data Result {ℓ} (A : Type ℓ) : Type ℓ where
  ok : A → Result A
  err : Error → Result A
  panic : Result A

infixl 5 ◌>>=◌ ◌>>◌
abbrev pub ◌>>=◌ {ℓ κ} : {A : Type ℓ} {B : Type κ} → Result A → (A → Result B) → Result B
ok a >>= f = f a
err e >>= f = err e
panic >>= f = panic

abbrev pub ◌>>◌ {ℓ κ} : {A : Type ℓ} {B : Type κ} → Result A → Result B → Result B
m >> k = m >>= λ _. k
