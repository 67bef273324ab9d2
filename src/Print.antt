-- ===== src/Print.antt =====
-- The command `print` of prompt.go: a variable of the type string, through the frame base.
pub mod Text
use godbg.Common.{
  leb, ◌==◌, if◌then◌else◌, ℕ, ◌+◌, ◌%◌, ◌^◌, Bool, true, false, Option, none, some, List, [], ◌∷◌,
}
use godbg.Common.Bytes.{Bytes, equal, from_little_endian}
use godbg.Common.Result.{eof, negative_length, null_pointer, ok, err, panic}
use godbg.Output.{value, unsupported_variable}
use godbg.Target.{
  BInfo, Os, M, ◌>>=◌, ◌>>◌, pure, fail, lift, print, before, peek_data, get_ptrace_pc,
}
use godbg.Bi.{Variable, Bi, find_function_include_pc}
use godbg.Breakpoint.{find_break_point, is_some}
use godbg.Executor.{pid_of, reported}
use godbg.Unwind.{find_frame_information}
use godbg.Leb.{Decoded, decode_sleb128}

abbrev pub dw_op_fbreg : ℕ
dw_op_fbreg = 0x91

-- `num, _, _ := DecodeSLEB128(buf)`
abbrev pub number_of : Decoded → ℕ
number_of (ok (num, len), rest) = num
number_of (err e, rest) = 0
number_of (panic, rest) = 0

-- The name of a variable that is a string, if the field is there.
abbrev pub is_named : Bytes → Variable → Bool
is_named name v = elim v.name [ none ↦ false | some n ↦ equal n name ]

-- The largest allocation of the runtime.
abbrev pub max_alloc : ℕ
max_alloc = 2 ^ 48

-- The pc to look up: a process behind a breakpoint stands on it.
abbrev pub stands_at : List BInfo → ℕ → ℕ
stands_at infos pc = if is_some (find_break_point infos (before pc)) then before pc else pc

module _ (os : Os) where
  open os use {World}

  -- The string at `addr`, behind the tests of its length and its address.
  abbrev pub string_bytes : ℕ → ℕ → ℕ → M World Bytes
  string_bytes pid strlen addr =
      if addr == 0
      then fail null_pointer
      else if leb strlen max_alloc
      then peek_data os pid addr strlen
      else lift panic

  unfoldable pub read_string : ℕ → ℕ → M World Bytes
  read_string pid address = do
    len_bytes ← peek_data os pid ((address + 8) % 2 ^ 64) 8
    if leb (2 ^ 63) (from_little_endian len_bytes) then fail negative_length else (do
      addr_bytes ← peek_data os pid address 8
      string_bytes pid (from_little_endian len_bytes) (from_little_endian addr_bytes))

  -- A variable of the name: whether the command goes on to the next one.
  abbrev pub show_opcode : ℕ → ℕ → ℕ → Bytes → M World Bool
  show_opcode pid framebase opcode rest =
      if opcode == dw_op_fbreg
      then (do
        bytes ← read_string pid ((framebase + number_of (decode_sleb128 rest)) % 2 ^ 64)
        print (value bytes)
        pure false)
      else (do print unsupported_variable; pure true)

  abbrev pub show_location : ℕ → ℕ → Option Bytes → M World Bool
  show_location pid framebase none = lift panic
  show_location pid framebase (some []) = fail eof
  show_location pid framebase (some (opcode ∷ rest)) = show_opcode pid framebase opcode rest

  abbrev pub unless_done : M World (Unit {0}) → Bool → M World (Unit {0})
  unless_done later true = later
  unless_done later false = pure tt

  unfoldable pub print_variables : ℕ → ℕ → Bytes → List Variable → M World (Unit {0})
  print_variables pid framebase name [] = pure tt
  print_variables pid framebase name (v ∷ vs) =
      let later = print_variables pid framebase name vs in
      if is_named name v
      then show_location pid framebase v.location >>= unless_done later
      else later

  module _ (bi : Bi) where
    abbrev pub print_at : Bytes → ℕ → M World (Unit {0})
    print_at name pc = do
      frame ← find_frame_information os (bi.frames_information) pc
      f ← lift (find_function_include_pc bi pc)
      λ t. print_variables (pid_of t.process) frame.framebase name f.variables t

    abbrev pub print_in : Bytes → M World (Unit {0})
    print_in name = do pc ← get_ptrace_pc os; λ t. print_at name (stands_at t.infos pc) t

    -- `p name`
    unfoldable pub print_command : Bytes → M World (Unit {0})
    unfolding print_variables read_string find_frame_information find_function_include_pc
    print_command name = reported (print_in name)
