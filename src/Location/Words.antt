-- ===== src/Location/Words.antt =====
-- `strings.Split` on one byte undoes joining by it, and joining undoes it.
use godbg.Common.{
  ◌==◌, if◌then◌else◌, ==_iff, All, ℕ, ◌≡◌, refl, ap, ◌∙◌, ◌≢◌, Bool, true, false, List, [], ◌∷◌,
  ◌++◌, arith,
}
use godbg.Common.Bytes.{Bytes}
use godbg.Location.{onto_first, split}

module _ (sep : ℕ) where
  abbrev pub Free : Bytes → Type 0
  Free = All (λ b. b ≢ sep)

  -- The words with `sep` between them.
  abbrev pub join : List Bytes → Bytes
  join [] = []
  join (w ∷ []) = w
  join (w ∷ v ∷ ws) = w ++ (sep ∷ join (v ∷ ws))

  abbrev pub IsSplit : Bytes → List Bytes → Type 0
  IsSplit s ws = (join ws ≡ s) × All Free ws × (ws ≢ [])

  onto_first-IsSplit :
      (b : ℕ) (s : Bytes) (ws : List Bytes)
      → b ≢ sep
      → IsSplit s ws
      → IsSplit (b ∷ s) (onto_first b ws)
  onto_first-IsSplit b s [] ne h = absurd (h.2 refl)
  onto_first-IsSplit b s (w ∷ []) ne h = (ap (◌∷◌ b) h.0, ((ne, h.1.0), h.1.1), λ e. cc)
  onto_first-IsSplit b s (w ∷ v ∷ ws) ne h = (ap (◌∷◌ b) h.0, ((ne, h.1.0), h.1.1), λ e. cc)

  empty_first-IsSplit : (s : Bytes) (ws : List Bytes) → IsSplit s ws → IsSplit (sep ∷ s) ([] ∷ ws)
  empty_first-IsSplit s [] h = absurd (h.2 refl)
  empty_first-IsSplit s (w ∷ ws) h = (ap (◌∷◌ sep) h.0, (tt, h.1), λ e. cc)

  pub split-IsSplit : (s : Bytes) → IsSplit s (split sep s)
  unfolding split
  split-IsSplit [] = (refl, (tt, tt), λ e. cc)
  split-IsSplit (b ∷ s) = by_test (b == sep) refl (split-IsSplit s)
    where
      by_test :
          (t : Bool)
          → (b == sep) ≡ t
          → IsSplit s (split sep s)
          → IsSplit (b ∷ s) (if t then [] ∷ split sep s else onto_first b (split sep s))
      by_test true e h = rw ((==_iff b sep).0 e) (empty_first-IsSplit s (split sep s) h)
      by_test false e h = onto_first-IsSplit b s (split sep s) (ground (arith, e)) h

  -- One word.
  split-Free : (w : Bytes) → Free w → split sep w ≡ w ∷ []
  unfolding split
  split-Free [] h = refl
  split-Free (b ∷ w) h = ground (arith, h.0, split-Free w (h.1))

  split_behind : (w s : Bytes) → Free w → split sep (w ++ (sep ∷ s)) ≡ w ∷ split sep s
  unfolding split
  split_behind [] s h = ground arith
  split_behind (b ∷ w) s h = ground (arith, h.0, split_behind w s (h.1))

  pub split-join :
      (w : Bytes) (ws : List Bytes) → All Free (w ∷ ws) → split sep (join (w ∷ ws)) ≡ w ∷ ws
  split-join w [] h = split-Free w (h.0)
  split-join w (v ∷ ws) h = split_behind w _ (h.0) ∙ ap (◌∷◌ w) (split-join v ws h.1)
