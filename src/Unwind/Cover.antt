-- ===== src/Unwind/Cover.antt =====
-- Which FDE `findFrameInformation` takes.
use godbg.Common.{
  ℕ, ◌+◌, ◌%◌, ◌^◌, ◌≤◌, ◌<◌, ◌≡◌, refl, ap, ◌∙◌, arith, true, false, none, some, List, [], ◌∷◌,
  take, drop, get_elem?, suc, ◌-◌, All, All-get_elem, get_elem?-take, get_elem?-drop, Bool-cases,
  Option-cases, inl, inr, ◌⊎◌,
}
use godbg.Common.Result.{Result, ok, err, duplicate_fde, not_covered}
use godbg.Frame.{FrameDescriptionEntry, VirtualUnwindFrameInformation}
use native.Mathlib.Decide.{dec_lt}
use godbg.Unwind.{in_range, cover_round, cover_loop, covering, find_fde}

-- Its range, both ends included.
abbrev pub Covers : ℕ → FrameDescriptionEntry → Type 0
Covers pc f = (f.begin ≤ pc) × (pc ≤ (f.begin + f.size) % 2 ^ 64)

-- The entry `i` of the table is an FDE whose range holds the pc.
pub record CoversAt (infos : List VirtualUnwindFrameInformation) (pc i : ℕ)
    (f : FrameDescriptionEntry) : Type 0 where
  pub info : VirtualUnwindFrameInformation
  pub is_entry : get_elem? infos i ≡ some info
  pub is_fde : info.fde ≡ some f
  pub covers : Covers pc f

abbrev pub Misses : ℕ → VirtualUnwindFrameInformation → Type 0
Misses pc info = (f : FrameDescriptionEntry) → info.fde ≡ some f → ¬ Covers pc f

-- The only FDE of the table whose range holds the pc; or the error that says that there is none, or
-- two of them.
pub data IsOnly (infos : List VirtualUnwindFrameInformation) (pc : ℕ)
    : Result FrameDescriptionEntry → Type 0 where
  only :
      (i : ℕ) (f : FrameDescriptionEntry)
      → CoversAt infos pc i f
      → All (Misses pc) (take i infos)
      → All (Misses pc) (drop (suc i) infos)
      → IsOnly infos pc (ok f)
  no_fde : All (Misses pc) infos → IsOnly infos pc (err (not_covered pc))
  two :
      (i j : ℕ) (f g : FrameDescriptionEntry)
      → i < j
      → CoversAt infos pc i f
      → CoversAt infos pc j g
      → IsOnly infos pc (err duplicate_fde)

module _ {info : VirtualUnwindFrameInformation} {infos : List VirtualUnwindFrameInformation}
    {pc : ℕ} where
  CoversAt-here :
      {f : FrameDescriptionEntry} → info.fde ≡ some f → Covers pc f → CoversAt (info ∷ infos) pc 0 f
  CoversAt-here e c = record { info = info; is_entry = refl; is_fde = e; covers = c }

  CoversAt-there :
      {i : ℕ} {f : FrameDescriptionEntry}
      → CoversAt infos pc i f
      → CoversAt (info ∷ infos) pc (suc i) f
  CoversAt-there h = record {
    info = h.info;
    is_entry = h.is_entry;
    is_fde = h.is_fde;
    covers = h.covers;
  }

  IsOnly-there :
      Misses pc info
      → (r : Result FrameDescriptionEntry) → IsOnly infos pc r
      → IsOnly (info ∷ infos) pc r
  IsOnly-there m r (only i f h before after) = only (suc i) f (CoversAt-there h) (m, before) after
  IsOnly-there m r (no_fde h) = no_fde (m, h)
  IsOnly-there m r (two i j f g lt h k) =
      two (suc i) (suc j) f g (omega arith) (CoversAt-there h) (CoversAt-there k)

-- Whether an entry of the table covers the pc.
cover_cases :
    (pc : ℕ) (info : VirtualUnwindFrameInformation)
    → ((f : FrameDescriptionEntry) × (info.fde ≡ some f) × (in_range pc f ≡ true) × Covers pc f)
      ⊎ (Misses pc info
          × ((info.fde ≡ none)
              ⊎ ((f : FrameDescriptionEntry) × (info.fde ≡ some f) × (in_range pc f ≡ false))))
cover_cases pc info = elim (Option-cases info.fde) [
  | inl e ↦ inr (λ f e'. cc, inl e)
  | inr (f, e) ↦ elim (Bool-cases (in_range pc f)) [
    | inl c ↦ inl (f, e, c, ground arith)
    | inr n ↦ inr (λ g e' c. let same : f ≡ g = cc in ground (arith, same), inr (f, e, n))
  ]
]

-- The loop once it has an FDE.
cover_loop-some :
    (pc : ℕ) (infos : List VirtualUnwindFrameInformation) (f : FrameDescriptionEntry)
    → ((cover_loop pc infos (some f) ≡ ok (some f)) × All (Misses pc) infos)
      ⊎ ((cover_loop pc infos (some f) ≡ err duplicate_fde)
          × (j : ℕ) × (g : FrameDescriptionEntry) × CoversAt infos pc j g)
unfolding cover_loop cover_round
cover_loop-some pc [] f = inl (refl, tt)
cover_loop-some pc (info ∷ infos) f = elim (cover_cases pc info) [
  | inl (g, e, c, at) ↦ inr (ground (arith, e, c), 0, g, CoversAt-here e at)
  | inr (m, why) ↦ elim (cover_loop-some pc infos f) [
    | inl (eq, rest) ↦ inl (ground (arith, eq, why), (m, rest))
    | inr (eq, j, g, at) ↦ inr (ground (arith, eq, why), suc j, g, CoversAt-there at)
  ]
]

-- The loop skips an entry that does not cover the pc.
cover_loop_skip :
    (pc : ℕ) (info : VirtualUnwindFrameInformation) (infos : List VirtualUnwindFrameInformation)
    → (info.fde ≡ none)
      ⊎ ((f : FrameDescriptionEntry) × (info.fde ≡ some f) × (in_range pc f ≡ false))
    → cover_loop pc (info ∷ infos) none ≡ cover_loop pc infos none
unfolding cover_loop cover_round
cover_loop_skip pc info infos (inl e) = rw (e, cover_loop)
cover_loop_skip pc info infos (inr (f, e, n)) = ground (arith, e, n)

cover_loop_take :
    (pc : ℕ) (info : VirtualUnwindFrameInformation) (infos : List VirtualUnwindFrameInformation)
    (f : FrameDescriptionEntry)
    → info.fde ≡ some f
    → in_range pc f ≡ true
    → cover_loop pc (info ∷ infos) none ≡ cover_loop pc infos (some f)
unfolding cover_loop cover_round
cover_loop_take pc info infos f e c = ground (arith, e, c)

cover_loop-IsOnly :
    (pc : ℕ) (infos : List VirtualUnwindFrameInformation)
    → IsOnly infos pc (covering pc (cover_loop pc infos none))
cover_loop-IsOnly pc [] = unfold cover_loop in no_fde tt
cover_loop-IsOnly pc (info ∷ infos) = elim (cover_cases pc info) [
  | inl (f, e, c, at) ↦
      rw (cover_loop_take pc info infos f e c) (elim (cover_loop-some pc infos f) [
        | inl (eq, rest) ↦ rw eq (only 0 f (CoversAt-here e at) tt rest)
        | inr (eq, j, g, k) ↦
            rw eq (two 0 (suc j) f g (omega arith) (CoversAt-here e at) (CoversAt-there k))
      ])
  | inr (m, why) ↦
      rw (cover_loop_skip pc info infos why) (IsOnly-there m _ (cover_loop-IsOnly pc infos))
]

-- The FDE that is taken for a pc is the only one of the table whose range, its upper end included,
-- holds the pc; the errors are returned exactly where there is none, and where there are two.
pub find_fde-IsOnly :
    (infos : List VirtualUnwindFrameInformation) (pc : ℕ) → IsOnly infos pc (find_fde infos pc)
unfolding find_fde
find_fde-IsOnly infos pc = cover_loop-IsOnly pc infos

-- Two FDEs that cover the pc exclude every answer but one.
two_covering :
    (infos : List VirtualUnwindFrameInformation) (pc i j : ℕ) (f g : FrameDescriptionEntry)
    (r : Result FrameDescriptionEntry)
    → i < j
    → CoversAt infos pc i f
    → CoversAt infos pc j g
    → IsOnly infos pc r
    → r ≡ err duplicate_fde
two_covering infos pc i j f g r lt h k (two _ _ _ _ _ _ _) = refl
two_covering infos pc i j f g r lt h k (no_fde none_) =
    absurd (All-get_elem (Misses pc) infos i none_ h.is_entry f h.is_fde h.covers)
two_covering infos pc i j f g r lt h k (only m x at before after) = elim (dec_lt i m) [
  | yes below ↦ absurd (
      All-get_elem (Misses pc) (take m infos) i before (get_elem?-take infos below ∙ h.is_entry) f
        h.is_fde h.covers)
  | no above ↦
      let past : suc m + (j - suc m) ≡ j = omega arith in
      absurd (
        All-get_elem (Misses pc) (drop (suc m) infos) (j - suc m) after
          (get_elem?-drop infos (suc m) (j - suc m) ∙ ap (get_elem? infos) past ∙ k.is_entry) g
          k.is_fde k.covers)
]

-- Of two FDEs of the table, where the second starts at the address where the first ends, and neither
-- passes the end of the address space, neither is found for that address: the lookup fails.
pub find_fde_adjacent :
    (infos : List VirtualUnwindFrameInformation) (i j : ℕ) (a b : VirtualUnwindFrameInformation)
    (f g : FrameDescriptionEntry)
    → i < j
    → get_elem? infos i ≡ some a
    → a.fde ≡ some f
    → get_elem? infos j ≡ some b
    → b.fde ≡ some g
    → f.begin + f.size ≡ g.begin
    → g.begin + g.size < 2 ^ 64
    → find_fde infos g.begin ≡ err duplicate_fde
find_fde_adjacent infos i j a b f g lt at_i is_f at_j is_g ends fits =
    two_covering infos g.begin i j f g (find_fde infos g.begin) lt
      (record { info = a; is_entry = at_i; is_fde = is_f; covers = omega arith })
      (record { info = b; is_entry = at_j; is_fde = is_g; covers = omega arith })
      (find_fde-IsOnly infos g.begin)
