-- ===== src/Print/Text.antt =====
-- What `print` shows of a string.
use godbg.Common.{length, ℕ, ◌+◌, ◌%◌, ◌^◌, ◌≤◌, ◌<◌, ◌≡◌, ◌≢◌, List}
use godbg.Common.Bytes.{Bytes, to_little_endian}
use godbg.Common.Result.{Result, ok}
use godbg.Target.{Os, Target}
use godbg.Bi.{Bi}
use godbg.Print.{max_alloc}

module _ (os : Os) (pid : ℕ) where
  open os use {World, peek}

  -- The header of a string at `address`, and its bytes.
  pub record IsString (w : World) (address : ℕ) (bytes : Bytes) : Type 0 where
    pub addr : ℕ
    pub addr_small : addr < 2 ^ 64
    pub not_null : addr ≢ 0
    pub fits : length bytes ≤ max_alloc
    pub len_at : peek w pid ((address + 8) % 2 ^ 64) 8 ≡ ok (to_little_endian 8 (length bytes))
    pub addr_at : peek w pid address 8 ≡ ok (to_little_endian 8 addr)
    pub text_at : peek w pid addr (length bytes) ≡ ok bytes
