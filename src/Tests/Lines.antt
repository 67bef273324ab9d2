-- ===== src/Tests/Lines.antt =====
-- Lines of the prompt on the machine of `Tests.Debugging`.
use godbg.Common.{◌≡◌, refl, false, some, [], ◌∷◌, ◌++◌, arith}
use godbg.Common.Bytes.{codes, equal}
use godbg.Common.Result.{eof, ok, err}
use godbg.Output.{unsupported, user_line}
use godbg.Location.{split}
use godbg.Prompt.{goes_on, exits, Setting, executor}
use godbg.Prompt.Unknown.{executor-IsNoName}
use godbg.Tests.Machine.{os}
use godbg.Tests.Debugging.{info, armed}
use godbg.Tests.Tables.{bi}
use godbg.Executor.{list_break_points}

abbrev setting : Setting
setting = record {
  decode = λ mem. err eof;
  base = λ name. name;
  cwd = ok (codes "/");
  join = λ dir name. dir ++ name;
  is_test = false;
  execfile = codes "/tmp/__t.go__";
  fuel = 10;
}

-- `bl` with the table of one breakpoint.
listed_one :
    executor os setting bi (codes "bl") armed
    ≡ some (ok goes_on, record armed { out = user_line 1 info ∷ [] })
unfolding executor split equal list_break_points
listed_one = refl

-- The end of the program.
left : executor os setting bi (codes "quit") armed ≡ some (ok exits, armed)
unfolding executor equal
left = refl

executor-IsNoName_example :
    executor os setting bi (codes "x 1") armed
    ≡ some (ok goes_on, record armed { out = unsupported (codes "x 1") ∷ [] })
unfolding split equal
executor-IsNoName_example =
    executor-IsNoName os setting bi b'x' (b' ' ∷ b'1' ∷ []) (codes "x") (codes "1" ∷ []) armed refl
      (ground arith)
