-- ===== src/Complete.antt =====
-- `complete` of prompt.go: what the prompt suggests for a line. `path.Join` and what `os.Getwd` returns,
-- the empty string on an error, are parameters.
pub mod First
use godbg.Common.{
  ltb, leb, ◌==◌, if◌then◌else◌, length, take, drop, ℕ, Bool, true, false, ◌&&◌, ◌||◌, Option, none,
  some, List, [], ◌∷◌, ◌++◌, map,
}
use godbg.Common.Bytes.{Bytes, codes, equal}
use godbg.Common.Result.{Result, ok, panic, ◌>>=◌}
use godbg.Bi.{Lines, Sources, Bi}
use godbg.Location.{split}

-- `strings.HasPrefix`
unfoldable pub has_prefix : Bytes → Bytes → Bool
has_prefix s [] = true
has_prefix [] (p ∷ ps) = false
has_prefix (c ∷ cs) (p ∷ ps) = c == p && has_prefix cs ps

-- The most suggestions.
abbrev pub max_suggestions : ℕ
max_suggestions = 30

-- A name without the slash that it begins with, if it does.
abbrev pub without_slash : Bytes → Bytes
without_slash [] = []
without_slash (c ∷ cs) = if c == b'/' then cs else c ∷ cs

-- The first byte of an empty name is out of range.
abbrev pub whole_name : Bytes → Result (Option Bytes)
whole_name [] = panic
whole_name (c ∷ cs) = ok (some (without_slash (c ∷ cs)))

abbrev pub without_dot : Bytes → Bytes
without_dot prefix =
    if ltb 2 (length prefix) && equal (take 2 prefix) (codes "./") then drop 2 prefix else prefix

-- The rest of a name behind the prefix in the working directory.
abbrev pub completed : Bytes → Bytes → Bytes
completed prefix need =
    if equal prefix (codes "./") then without_slash need else without_dot prefix ++ need

module _ (cwd : Bytes) (join : Bytes → Bytes → Bytes) (prefix : Bytes) where
  unfoldable pub suggestion : Bytes → Result (Option Bytes)
  unfolding has_prefix
  suggestion filename =
      if has_prefix filename prefix
      then whole_name filename
      else ok (
          if has_prefix filename (join cwd prefix)
          then some (completed prefix (drop (length (join cwd prefix)) filename))
          else none)

  abbrev pub add_some : List Bytes → Option Bytes → List Bytes
  add_some s none = s
  add_some s (some text) = s ++ (text ∷ [])

  abbrev pub unless_full : (List Bytes → Result (List Bytes)) → List Bytes → Result (List Bytes)
  unless_full later s = if leb max_suggestions (length s) then ok s else later s

  -- The loop over the names of the table of sources.
  unfoldable pub suggest_loop : List Bytes → List Bytes → Result (List Bytes)
  unfolding suggestion
  suggest_loop [] s = ok s
  suggest_loop (f ∷ fs) s =
      let later = suggest_loop fs in suggestion f >>= λ text. unless_full later (add_some s text)

-- The names of the table of sources, in the order of `range`.
abbrev pub filenames : Option Sources → List Bytes
filenames none = []
filenames (some sources) = map (λ (entry : Bytes × Lines). entry.0) sources

abbrev pub takes_place : Bytes → Bool
takes_place w =
    equal w (codes "b") || equal w (codes "break") || equal w (codes "l") || equal w (codes "list")

module _ (cwd : Bytes) (join : Bytes → Bytes → Bytes) (bi : Bi) where
  abbrev pub complete_words : List Bytes → Result (List Bytes)
  complete_words (w ∷ prefix ∷ []) =
      if takes_place w then suggest_loop cwd join prefix (filenames bi.sources) [] else ok []
  complete_words _ = ok []

  unfoldable pub complete : Bytes → Result (List Bytes)
  unfolding suggest_loop
  complete text = complete_words (split b' ' text)
