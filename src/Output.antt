-- ===== src/Output.antt =====
-- What the commands print, on either stream: the `print…` functions of error.go and the `Fprintf` calls
-- of prompt.go, list.go and disassemble.go, each with the values that it formats.
use godbg.Common.{ℕ, Bool, List}
use godbg.Common.Bytes.{Bytes}
use godbg.Common.Int.{ℤ}
use godbg.Common.Result.{Error}
use godbg.Info.{BInfo}

-- A line of a source listing: the line that the listing is about has the arrow.
pub record ListedLine : Type 0 where
  pub arrow : Bool
  pub number : ℕ
  pub text : Bytes

-- A row of a disassembly: the mark of a breakpoint, the arrow of the pc, the source line, the address
-- and the bytes of the instruction, and its text.
pub record AsmRow : Type 0 where
  pub is_break_point : Bool
  pub is_current : Bool
  pub filename : Bytes
  pub lineno : ℤ
  pub pc : ℕ
  pub mem : Bytes
  pub text : Bytes

pub data Message : Type 0 where
  unsupported : Bytes → Message
  error : Error → Message
  added : Bytes → ℤ → Message
  existed : Bytes → Message
  not_found_line : Bytes → Message
  no_pc : Error → Message
  no_index : ℤ → Message
  cleared_index : ℤ → Message
  user_line : ℕ → BInfo → Message
  any_line : ℕ → BInfo → Message
  no_break_point : Message
  no_process : Message
  exited : ℕ → Message
  current_pc : ℕ → Message
  listing : Bytes → ℤ → List ListedLine → Message
  trace_error : ℕ → Error → Message
  at_line : Bytes → ℤ → Message
  caller : Bytes → ℤ → Bytes → Message
  stopped : ℕ → Message
  restarted : ℕ → Message
  tracing : ℕ → Message
  disassembly : List AsmRow → Message
  value : Bytes → Message
  unsupported_variable : Message
  help : Message
