-- ===== src/Breakpoint/Table.antt =====
-- The table of breakpoints: at most one for each pc.
use godbg.Common.{
  ℕ, ◌≡◌, refl, arith, none, some, List, [], ◌∷◌, ◌++◌, ◌==◌, if◌then◌else◌, Bool-cases, inl, inr,
  ◌∙◌,
}
use godbg.Common.Bytes.{Bytes}
use godbg.Common.Int.{ℤ}
use godbg.Common.Result.{ok}
use godbg.Target.{Os, BInfo, Target, ◌>>=◌, >>=_keeps, peek_data, poke_data}
use godbg.Breakpoint.{
  is_user, is_some, find_break_point, cleared, set_pc_break_point, append_info,
  set_internal_break_point, set_user_break_point, restart_loop, set_bp_when_restart,
  enable_break_point, clear_internal_break_point,
}

abbrev pub IsFree : ℕ → List BInfo → Type 0
IsFree pc infos = find_break_point infos pc ≡ none

-- No two entries have one pc.
abbrev pub HasUniquePcs : List BInfo → Type 0
HasUniquePcs [] = Unit
HasUniquePcs (v ∷ vs) = IsFree v.pc vs × HasUniquePcs vs

pub find_break_point-append :
    (vs : List BInfo) (v : BInfo) (pc : ℕ)
    → find_break_point (vs ++ (v ∷ [])) pc ≡ (
        if is_some (find_break_point vs pc)
        then find_break_point vs pc
        else if v.pc == pc
        then some v
        else none)
unfolding find_break_point
find_break_point-append [] v pc = refl
find_break_point-append (x ∷ vs) v pc = ground (arith, find_break_point-append vs v pc)

HasUniquePcs-append :
    (vs : List BInfo) (v : BInfo) → HasUniquePcs vs → IsFree v.pc vs → HasUniquePcs (vs ++ (v ∷ []))
unfolding find_break_point
HasUniquePcs-append [] v h free = (refl, tt)
HasUniquePcs-append (x ∷ vs) v h free =
    (ground (arith, find_break_point-append vs v x.pc), HasUniquePcs-append vs v h.1 (ground arith))

cleared-IsFree : (pc a : ℕ) (vs : List BInfo) → IsFree a vs → IsFree a (cleared pc vs)
unfolding find_break_point cleared
cleared-IsFree pc a [] h = refl
cleared-IsFree pc a (v ∷ vs) h = ground (arith, cleared-IsFree pc a vs)

pub cleared-HasUniquePcs :
    (pc : ℕ) (vs : List BInfo) → HasUniquePcs vs → HasUniquePcs (cleared pc vs)
unfolding cleared
cleared-HasUniquePcs pc [] h = tt
cleared-HasUniquePcs pc (v ∷ vs) h =
    ground (arith, cleared-HasUniquePcs pc vs h.1, cleared-IsFree pc v.pc vs h.0)

module _ (os : Os) where
  open os use {World, peek, poke}

  -- What a successful `setPcBreakPoint` did: the pc was free, and the byte there was read, then
  -- patched; the table is as it was.
  pub record SetsPc (pid pc : ℕ) (t t' : Target World) (original : Bytes) : Type 0 where
    pub free : IsFree pc t.infos
    pub read : peek_data os pid pc 1 t ≡ (ok original, t)
    pub patched : poke_data os pid pc (0xCC ∷ []) t ≡ (ok tt, t')
    pub table : t'.infos ≡ t.infos

  pub set_pc_break_point_ok :
      (pid pc : ℕ) (t t' : Target World) (original : Bytes)
      → set_pc_break_point os pid pc t ≡ (ok original, t')
      → SetsPc pid pc t t' original
  unfolding set_pc_break_point
  set_pc_break_point_ok pid pc t t' original e = record {
    free = ground arith;
    read = ground arith;
    patched = ground arith;
    table = ground arith;
  }

  -- `setPcBreakPoint` leaves the table alone, on every branch.
  pub set_pc_break_point_table :
      (pid pc : ℕ) (t : Target World) → (set_pc_break_point os pid pc t).1.infos ≡ t.infos
  unfolding set_pc_break_point
  set_pc_break_point_table pid pc t = ground arith

  -- An entry at the pc of a successful `setPcBreakPoint`.
  append_unique :
      (pid pc : ℕ) (t t' : Target World) (original : Bytes) (v : BInfo)
      → set_pc_break_point os pid pc t ≡ (ok original, t')
      → v.pc ≡ pc
      → HasUniquePcs t.infos
      → HasUniquePcs (t'.infos ++ (v ∷ []))
  append_unique pid pc t t' original v e at_pc h =
      let s = set_pc_break_point_ok pid pc t t' original e in
      rw (s.table) (HasUniquePcs-append t.infos v h (rw at_pc s.free))

  abbrev Unique : Target World → Type 0
  Unique t = HasUniquePcs t.infos

  add_info-Unique :
      (pid pc : ℕ) (info : Bytes → BInfo) (t : Target World)
      → ((original : Bytes) → (info original).pc ≡ pc)
      → Unique t
      → Unique ((set_pc_break_point os pid pc >>= λ original. append_info os (info original)) t).1
  add_info-Unique pid pc info t at_pc h =
      >>=_keeps Unique (set_pc_break_point os pid pc) (λ original. append_info os (info original)) t
        (rw (set_pc_break_point_table pid pc t) h)
        (λ original t' e _. append_unique pid pc t t' original (info original) e (at_pc original) h)

  -- Where the table has one breakpoint at most for a pc, it has behind `SetInternalBreakPoint`,
  -- whatever the system calls answer.
  pub set_internal_break_point-HasUniquePcs :
      (pid pc : ℕ) (t : Target World)
      → HasUniquePcs t.infos
      → HasUniquePcs (set_internal_break_point os pid pc t).1.infos
  unfolding set_internal_break_point
  set_internal_break_point-HasUniquePcs pid pc t h = add_info-Unique pid pc _ t (λ _. refl) h

  -- Where the table has one breakpoint at most for a pc, it has behind the setting of a breakpoint of
  -- the user, whatever the system calls answer.
  pub set_user_break_point-HasUniquePcs :
      (pid : ℕ) (filename : Bytes) (lineno : ℤ) (pc : ℕ) (t : Target World)
      → HasUniquePcs t.infos
      → HasUniquePcs (set_user_break_point os pid filename lineno pc t).1.infos
  unfolding set_user_break_point
  set_user_break_point-HasUniquePcs pid filename lineno pc t h =
      add_info-Unique pid pc _ t (λ _. refl) h

  restart_loop-HasUniquePcs :
      (pid : ℕ) (vs : List BInfo) (t : Target World)
      → HasUniquePcs t.infos
      → HasUniquePcs (restart_loop os pid vs t).1.infos
  unfolding restart_loop
  restart_loop-HasUniquePcs pid [] t h = h
  restart_loop-HasUniquePcs pid (v ∷ vs) t h = elim (Bool-cases (is_user v.kind)) [
    | inl e ↦ rw e (
        >>=_keeps Unique (enable_break_point os pid (some v)) (λ _. restart_loop os pid vs) t h
          (λ _ t' _ k. restart_loop-HasUniquePcs pid vs t' k))
    | inr e ↦ rw e (restart_loop-HasUniquePcs pid vs _ (cleared-HasUniquePcs v.pc t.infos h))
  ]

  -- Where the table has one breakpoint at most for a pc, it has behind `SetBpWhenRestart`, on every
  -- branch.
  pub set_bp_when_restart-HasUniquePcs :
      (pid : ℕ) (t : Target World)
      → HasUniquePcs t.infos
      → HasUniquePcs (set_bp_when_restart os pid t).1.infos
  unfolding set_bp_when_restart
  set_bp_when_restart-HasUniquePcs pid t h = restart_loop-HasUniquePcs pid t.infos t h

  -- The process of the target stays what it is.
  restart_loop_process :
      (pid : ℕ) (vs : List BInfo) (t : Target World)
      → (restart_loop os pid vs t).1.process ≡ t.process
  unfolding restart_loop enable_break_point clear_internal_break_point
  restart_loop_process pid [] t = refl
  restart_loop_process pid (v ∷ vs) t = elim (Bool-cases (is_user v.kind)) [
    | inl e ↦ rw e (
        >>=_keeps (λ u. u.process ≡ t.process) (enable_break_point os pid (some v))
          (λ _. restart_loop os pid vs) t refl (λ _ t' _ k. restart_loop_process pid vs t' ∙ k))
    | inr e ↦ rw e (restart_loop_process pid vs _)
  ]

  pub set_bp_when_restart_process :
      (pid : ℕ) (t : Target World) → (set_bp_when_restart os pid t).1.process ≡ t.process
  unfolding set_bp_when_restart
  set_bp_when_restart_process pid t = restart_loop_process pid t.infos t
