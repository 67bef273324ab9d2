-- ===== src/Complete/First.antt =====
-- The suggestions are the first thirty of those for all names.
use godbg.Common.{
  leb, ◌==◌, ◌&&◌, if◌then◌else◌, Bool-cases, length, take, drop, All, length-append, take_front, ℕ,
  zero, suc, ◌+◌, ◌≤◌, ◌<◌, ◌≡◌, refl, sym, ap, ◌∙◌, ◌≢◌, inl, inr, Bool, true, false, Option, none,
  some, List, [], ◌∷◌, ◌++◌, arith,
}
use godbg.Common.Bytes.{Bytes, codes, equal}
use godbg.Common.Result.{Result, ok, err, panic, ◌>>=◌}
use godbg.Bi.{Bi}
use godbg.Location.{split}
use godbg.Complete.{
  has_prefix, max_suggestions, without_slash, without_dot, completed, suggestion, add_some,
  unless_full, suggest_loop, filenames, takes_place, complete_words, complete,
}
use mathlib.Core.List.{append_assoc, append-nil}

full_length :
    (n m : ℕ) → n < max_suggestions → m ≤ n + 1 → leb max_suggestions m ≡ true → m ≡ max_suggestions
full_length n m h k e = ground arith

room_left : (m : ℕ) → leb max_suggestions m ≡ false → m < max_suggestions
room_left m e = ground arith

take_all : {A : Type 0} (n : ℕ) (xs : List A) → length xs ≤ n → take n xs ≡ xs
take_all zero [] h = refl
take_all zero (x ∷ xs) h = absurd (omega arith)
take_all (suc n) [] h = refl
take_all (suc n) (x ∷ xs) h = ap (◌∷◌ x) (take_all n xs (omega arith))

ok-if : {A : Type 0} (b : Bool) (x y : A) → (if b then ok x else ok y) ≡ ok (if b then x else y)
ok-if true x y = refl
ok-if false x y = refl

-- What stands behind a slash at the front, and behind `./` at the front of something longer.
abbrev pub behind_slash : Bytes → Bytes
behind_slash [] = []
behind_slash (c ∷ cs) = if c == b'/' then cs else c ∷ cs

abbrev pub behind_dot : Bytes → Bytes
behind_dot (a ∷ b ∷ c ∷ cs) = if a == b'.' && b == b'/' then c ∷ cs else a ∷ b ∷ c ∷ cs
behind_dot cs = cs

without_slash-behind_slash : (cs : Bytes) → without_slash cs ≡ behind_slash cs
without_slash-behind_slash [] = refl
without_slash-behind_slash (c ∷ cs) = refl

without_dot-behind_dot : (cs : Bytes) → without_dot cs ≡ behind_dot cs
unfolding equal
without_dot-behind_dot [] = refl
without_dot-behind_dot (a ∷ []) = refl
without_dot-behind_dot (a ∷ b ∷ []) = refl
without_dot-behind_dot (a ∷ b ∷ c ∷ cs) = ground arith

module _ (cwd : Bytes) (join : Bytes → Bytes → Bytes) (prefix : Bytes) where
  -- What a name that is not empty gives: a name that begins with the word, without the slash at its
  -- front; or what stands behind the word in the working directory, behind the word without `./`, where
  -- for a word that is no more than `./` the slash at the front of the rest goes.
  abbrev pub named : Bytes → Option Bytes
  named filename =
      if has_prefix filename prefix
      then some (behind_slash filename)
      else if has_prefix filename (join cwd prefix)
      then some (
          if equal prefix (codes "./")
          then behind_slash (drop (length (join cwd prefix)) filename)
          else behind_dot prefix ++ drop (length (join cwd prefix)) filename)
      else none

  pub suggestions_of : List Bytes → List Bytes
  suggestions_of [] = []
  suggestions_of (f ∷ fs) =
      let rest = suggestions_of fs in elim (named f) [ none ↦ rest | some text ↦ text ∷ rest ]

  suggestion-named : (f : Bytes) → f ≢ [] → suggestion cwd join prefix f ≡ ok (named f)
  unfolding suggestion
  suggestion-named [] h = absurd (h refl)
  suggestion-named (c ∷ cs) h =
      let need = drop (length (join cwd prefix)) (c ∷ cs) in
      ok-if (has_prefix (c ∷ cs) prefix) _ _
      ∙ ap
          (λ text. ok (
            if has_prefix (c ∷ cs) prefix
            then some (without_slash (c ∷ cs))
            else if has_prefix (c ∷ cs) (join cwd prefix)
            then some text
            else none))
          (completed_eq need)
    where
      completed_eq :
          (need : Bytes)
          → completed prefix need
            ≡ (if equal prefix (codes "./") then behind_slash need else behind_dot prefix ++ need)
      completed_eq need = rw (without_slash-behind_slash need, without_dot-behind_dot prefix) refl

  -- One name.
  add-named :
      (f : Bytes) (fs s : List Bytes) (o : Option Bytes)
      → f ≢ []
      → named f ≡ o
      → (suggest_loop cwd join prefix (f ∷ fs) s
          ≡ unless_full cwd join prefix
              (suggest_loop cwd join prefix fs)
              (add_some cwd join prefix s o))
        × (s ++ suggestions_of (f ∷ fs) ≡ add_some cwd join prefix s o ++ suggestions_of fs)
  unfolding suggest_loop suggestions_of
  add-named f fs s o h e = (
    ap
        (λ r. r >>= λ text.
          unless_full cwd join prefix (suggest_loop cwd join prefix fs)
            (add_some cwd join prefix s text))
        (suggestion-named f h ∙ ap ok e),
    ap
          (λ (o : Option Bytes).
            s ++ elim o [ none ↦ suggestions_of fs | some text ↦ text ∷ suggestions_of fs ])
          e
        ∙ moved o,
  )
    where
      moved :
          (o : Option Bytes)
          → s ++ elim o [ none ↦ suggestions_of fs | some text ↦ text ∷ suggestions_of fs ]
            ≡ add_some cwd join prefix s o ++ suggestions_of fs
      moved none = refl
      moved (some text) = sym (append_assoc s (text ∷ []) (suggestions_of fs))

  length-add_some :
      (s : List Bytes) (o : Option Bytes) → length (add_some cwd join prefix s o) ≤ length s + 1
  length-add_some s none = omega arith
  length-add_some s (some text) = omega (arith, length-append s (text ∷ []))

  suggest_loop_lem :
      (fs s : List Bytes)
      → All (λ f. f ≢ []) fs
      → length s < max_suggestions
      → suggest_loop cwd join prefix fs s ≡ ok (take max_suggestions (s ++ suggestions_of fs))
  unfolding suggest_loop suggestions_of
  suggest_loop_lem [] s h k =
      ap ok
        (sym (ap (take max_suggestions) (append-nil s) ∙ take_all max_suggestions s (omega arith)))
  suggest_loop_lem (f ∷ fs) s h k =
      let s' = add_some cwd join prefix s (named f) in
      let (runs, gives) = add-named f fs s (named f) h.0 refl in
      runs ∙ elim (Bool-cases (leb max_suggestions (length s'))) [
        | inl full ↦
            let thirty : length s' ≡ max_suggestions =
              full_length (length s) (length s') k (length-add_some s (named f)) full in
            rw full (ap ok (sym (rw gives (rw (← thirty) (take_front s' (suggestions_of fs))))))
        | inr more ↦ rw more (
            suggest_loop_lem fs s' h.1 (room_left (length s') more)
            ∙ ap (λ l. ok (take max_suggestions l)) (sym gives))
      ]

  -- Whatever the names are, there are thirty suggestions at most.
  suggest_loop-bound :
      (fs s r : List Bytes)
      → length s < max_suggestions
      → suggest_loop cwd join prefix fs s ≡ ok r
      → length r ≤ max_suggestions
  unfolding suggest_loop
  suggest_loop-bound [] s r k e = let same : s ≡ r = cc in rw (← same) (omega arith)
  suggest_loop-bound (f ∷ fs) s r k e =
      by_name (suggest_loop-bound fs) (suggestion cwd join prefix f) e
    where
      Bounded : Type 0
      Bounded =
          (s r : List Bytes)
          → length s < max_suggestions
          → suggest_loop cwd join prefix fs s ≡ ok r
          → length r ≤ max_suggestions

      by_room :
          Bounded
          → (o : Option Bytes) (b : Bool)
          → leb max_suggestions (length (add_some cwd join prefix s o)) ≡ b
          → (if b
              then ok (add_some cwd join prefix s o)
              else suggest_loop cwd join prefix fs (add_some cwd join prefix s o))
            ≡ ok r
          → length r ≤ max_suggestions
      by_room later o true room e =
          let same : add_some cwd join prefix s o ≡ r = cc in
          rw (← same) (omega (arith, length-add_some s o))
      by_room later o false room e = later (add_some cwd join prefix s o) r (room_left _ room) e

      by_name :
          Bounded
          → (q : Result (Option Bytes))
          → (q >>= λ text.
              unless_full cwd join prefix
                (suggest_loop cwd join prefix fs)
                (add_some cwd join prefix s text))
            ≡ ok r
          → length r ≤ max_suggestions
      by_name later (ok o) e =
          by_room later o (leb max_suggestions (length (add_some cwd join prefix s o))) refl e
      by_name later (err x) e = cc
      by_name later panic e = cc

module _ (cwd : Bytes) (join : Bytes → Bytes → Bytes) (bi : Bi) where
  -- Whatever is typed and whatever the names of the sources are: where `complete` returns, it returns
  -- thirty suggestions at most.
  pub complete-bound :
      (text : Bytes) (r : List Bytes)
      → complete cwd join bi text ≡ ok r
      → length r ≤ max_suggestions
  unfolding complete
  complete-bound text r e = by_words (split b' ' text) e
    where
      none_given : ok [] ≡ ok r → length r ≤ max_suggestions
      none_given e = let same : [] ≡ r = cc in rw (← same) (omega arith)

      by_command :
          (b : Bool) (prefix : Bytes)
          → (if b then suggest_loop cwd join prefix (filenames bi.sources) [] else ok []) ≡ ok r
          → length r ≤ max_suggestions
      by_command true prefix e =
          suggest_loop-bound cwd join prefix (filenames bi.sources) [] r (omega arith) e
      by_command false prefix e = none_given e

      by_words :
          (ws : List Bytes) → complete_words cwd join bi ws ≡ ok r → length r ≤ max_suggestions
      by_words [] e = none_given e
      by_words (w ∷ []) e = none_given e
      by_words (w ∷ prefix ∷ []) e = by_command (takes_place w) prefix e
      by_words (w ∷ prefix ∷ v ∷ ws) e = none_given e

  -- Behind the name of a command that takes a place, where no source has an empty name: the suggestions
  -- are the first thirty of those for all names, in the order of the table. A name that begins with the
  -- word is suggested whole, without a slash at its front; one that begins with the word in the working
  -- directory is suggested as the word, without a `./` at its front, with the rest of the name behind it;
  -- for the word `./`, the rest loses a slash at its front.
  pub complete_first :
      (text w prefix : Bytes)
      → split b' ' text ≡ w ∷ prefix ∷ []
      → takes_place w ≡ true
      → All (λ f. f ≢ []) (filenames bi.sources)
      → complete cwd join bi text
        ≡ ok (take max_suggestions (suggestions_of cwd join prefix (filenames bi.sources)))
  unfolding complete
  complete_first text w prefix words named h =
      rw words
        (rw named (suggest_loop_lem cwd join prefix (filenames bi.sources) [] h (omega arith)))
