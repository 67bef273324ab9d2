-- ===== src/Info.antt =====
-- breakpoint.go: the record of one breakpoint.
use godbg.Common.{ℕ}
use godbg.Common.Bytes.{Bytes}
use godbg.Common.Int.{ℤ}

pub data BpKind : Type 0 where
  user internal : BpKind

pub record BInfo : Type 0 where
  pub original : Bytes
  pub filename : Bytes
  pub lineno : ℤ
  pub pc : ℕ
  pub kind : BpKind
