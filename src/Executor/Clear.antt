-- ===== src/Executor/Clear.antt =====
-- `bc n` takes the n-th breakpoint of the user out of the table.
use godbg.Common.{
  ℕ, zero, suc, ◌+◌, ◌≤◌, ◌≡◌, ◌≢◌, refl, sym, ap, ◌∙◌, arith, true, false, Option, none, some,
  List, [], ◌∷◌, ◌++◌, ◌==◌, if◌then◌else◌, Bool-cases, inl, inr,
}
use godbg.Common.Int.{ℤ, pos, int_eq, int_eq_iff}
use godbg.Target.{BInfo}
use godbg.Breakpoint.{is_user, find_break_point}
use godbg.Breakpoint.Table.{IsFree, HasUniquePcs}
use godbg.Executor.{behind, find_index}

-- How many breakpoints of the user the table holds.
abbrev pub users : List BInfo → ℕ
users [] = 0
users (v ∷ vs) = if is_user v.kind then suc (users vs) else users vs

-- The user's breakpoint behind `count` and those of `xs` has the number `n`, and the table without it
-- is left; or no breakpoint of the user has that number.
pub data Removes (n : ℤ) (count : ℕ) (infos : List BInfo)
    : Option (BInfo × List BInfo) → Type 0 where
  nth :
      (xs ys : List BInfo) (v : BInfo)
      → infos ≡ xs ++ (v ∷ ys)
      → is_user v.kind ≡ true
      → n ≡ pos (suc (count + users xs))
      → Removes n count infos (some (v, xs ++ ys))
  absent : ((j : ℕ) → n ≡ pos (suc (count + j)) → users infos ≤ j) → Removes n count infos none

module _ (n : ℤ) (count : ℕ) (v : BInfo) (vs : List BInfo) where
  Removes-user :
      (r : Option (BInfo × List BInfo))
      → is_user v.kind ≡ true
      → n ≢ pos (suc count)
      → Removes n (suc count) vs r
      → Removes n count (v ∷ vs) (behind v r)
  Removes-user _ u ne (nth xs ys x e is_u at) =
      nth (v ∷ xs) ys x (ap (◌∷◌ v) e) is_u (at ∙ ap (λ k. pos (suc k)) (rw u (omega arith)))
  Removes-user _ u ne (absent h) = absent λ j e. rw u (later j e)
    where
      later : (j : ℕ) → n ≡ pos (suc (count + j)) → suc (users vs) ≤ j
      later zero e = absurd (ne (e ∙ ap (λ k. pos (suc k)) (omega arith)))
      later (suc j) e = omega (arith, h j (e ∙ ap (λ k. pos (suc k)) (omega arith)))

  Removes-internal :
      (r : Option (BInfo × List BInfo))
      → is_user v.kind ≡ false
      → Removes n count vs r
      → Removes n count (v ∷ vs) (behind v r)
  Removes-internal _ u (nth xs ys x e is_u at) =
      nth (v ∷ xs) ys x (ap (◌∷◌ v) e) is_u (at ∙ ap (λ k. pos (suc k)) (rw u refl))
  Removes-internal _ u (absent h) = absent λ j e. rw u (h j e)

find_index-Removes_from :
    (n : ℤ) (count : ℕ) (infos : List BInfo) → Removes n count infos (find_index n count infos)
unfolding find_index
find_index-Removes_from n count [] = absent λ j e. omega arith
find_index-Removes_from n count (v ∷ vs) = elim (Bool-cases (is_user v.kind)) [
  | inl u ↦ elim (Bool-cases (int_eq (pos (suc count)) n)) [
    | inl hit ↦
        rw (u, hit)
          (nth [] vs v refl u
            (sym ((int_eq_iff (pos (suc count)) n).0 hit) ∙ ap (λ k. pos (suc k)) (omega arith)))
    | inr miss ↦
        let other : n ≢ pos (suc count) =
          λ e. cc (miss, (int_eq_iff (pos (suc count)) n).1 (sym e)) in
        rw (u, miss)
          (Removes-user n count v vs _ u other (find_index-Removes_from n (suc count) vs))
  ]
  | inr i ↦ rw i (Removes-internal n count v vs _ i (find_index-Removes_from n count vs))
]

-- The search of `bc n` finds the n-th breakpoint of the user, counted from 1, and leaves the rest of
-- the table in order; it finds none exactly where the table has no n-th breakpoint of the user.
pub find_index-Removes : (n : ℤ) (infos : List BInfo) → Removes n 0 infos (find_index n 0 infos)
find_index-Removes n infos = find_index-Removes_from n 0 infos

-- A table with distinct pcs, without one of its entries.
IsFree-middle : (a : ℕ) (xs ys : List BInfo) (v : BInfo) → IsFree a (xs ++ (v ∷ ys)) → v.pc ≢ a
unfolding find_break_point
IsFree-middle a [] ys v free = ground arith
IsFree-middle a (x ∷ xs) ys v free = IsFree-middle a xs ys v (ground arith)

pub find_break_point-middle :
    (xs ys : List BInfo) (v : BInfo)
    → HasUniquePcs (xs ++ (v ∷ ys))
    → find_break_point (xs ++ (v ∷ ys)) v.pc ≡ some v
unfolding find_break_point
find_break_point-middle [] ys v h = ground arith
find_break_point-middle (x ∷ xs) ys v h =
    ground (arith, IsFree-middle x.pc xs ys v h.0, find_break_point-middle xs ys v h.1)

pub find_break_point-removed :
    (xs ys : List BInfo) (v : BInfo)
    → HasUniquePcs (xs ++ (v ∷ ys))
    → (a : ℕ)
    → find_break_point (xs ++ ys) a
      ≡ (if a == v.pc then none else find_break_point (xs ++ (v ∷ ys)) a)
unfolding find_break_point
find_break_point-removed [] ys v h a =
    ground (arith, h.0, λ (e : a ≡ v.pc). ap (find_break_point ys) e)
find_break_point-removed (x ∷ xs) ys v h a =
    ground (arith, IsFree-middle x.pc xs ys v h.0, find_break_point-removed xs ys v h.1 a)

IsFree-removed :
    (a : ℕ) (xs ys : List BInfo) (v : BInfo) → IsFree a (xs ++ (v ∷ ys)) → IsFree a (xs ++ ys)
unfolding find_break_point
IsFree-removed a [] ys v free = ground arith
IsFree-removed a (x ∷ xs) ys v free = ground (arith, IsFree-removed a xs ys v)

pub HasUniquePcs-removed :
    (xs ys : List BInfo) (v : BInfo) → HasUniquePcs (xs ++ (v ∷ ys)) → HasUniquePcs (xs ++ ys)
HasUniquePcs-removed [] ys v h = h.1
HasUniquePcs-removed (x ∷ xs) ys v h =
    (IsFree-removed x.pc xs ys v h.0, HasUniquePcs-removed xs ys v h.1)
