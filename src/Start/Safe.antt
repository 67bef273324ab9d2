-- ===== src/Start/Safe.antt =====
-- From the start of the program through a session of its prompt.
use godbg.Common.{ℕ, ◌≡◌, Option, some, [], ◌∷◌}
use godbg.Common.Result.{ok}
use godbg.Target.{Os, Target}
use godbg.Bi.{Bi}

-- The memory of the process is the text.
abbrev pub HoldsText : (os : Os) → ℕ → (ℕ → Option ℕ) → os.World → Type 0
HoldsText os pid code w = (a b : ℕ) → code a ≡ some b → os.peek w pid a 1 ≡ ok (b ∷ [])
