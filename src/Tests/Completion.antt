-- ===== src/Tests/Completion.antt =====
-- What the prompt suggests.
use godbg.Common.{length, take, ◌≤◌, ◌≡◌, refl, some, [], ◌∷◌, ◌++◌}
use godbg.Common.Bytes.{Bytes, codes, equal}
use godbg.Common.Result.{ok, panic}
use godbg.Location.{split}
use godbg.Complete.{has_prefix, max_suggestions, filenames, complete}
use godbg.Complete.First.{suggestions_of, complete-bound, complete_first}
use godbg.Tests.Tables.{bi}

abbrev joined : Bytes → Bytes → Bytes
joined dir name = dir ++ name

suggested : complete (codes "/") joined bi (codes "b t") ≡ ok (codes "t.go" ∷ [])
unfolding complete split has_prefix equal
suggested = refl

-- A name that is typed with its slash is suggested without it.
suggested_without : complete (codes "/") joined bi (codes "b /t") ≡ ok (codes "t.go" ∷ [])
unfolding complete split has_prefix equal
suggested_without = refl

-- Behind `./`, the rest of a name in the working directory, without its slash.
suggested_behind : complete (codes "") (λ dir name. dir) bi (codes "b ./") ≡ ok (codes "t.go" ∷ [])
unfolding complete split has_prefix equal
suggested_behind = refl

-- An empty name among the sources, and no word behind the command.
empty_name :
    complete (codes "/") joined (record bi { sources = some (([], []) ∷ []) }) (codes "b ") ≡ panic
unfolding complete split has_prefix equal
empty_name = refl

complete-bound_example : length (codes "t.go" ∷ []) ≤ max_suggestions
complete-bound_example =
    complete-bound (codes "/") joined bi (codes "b t") (codes "t.go" ∷ []) suggested

complete_first_example :
    complete (codes "/") joined bi (codes "b t")
    ≡ ok (
        take max_suggestions (suggestions_of (codes "/") joined (codes "t") (filenames bi.sources)))
unfolding split equal
complete_first_example =
    complete_first (codes "/") joined bi (codes "b t") (codes "b") (codes "t") refl refl
      ((λ e. cc), tt)
