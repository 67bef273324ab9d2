-- ===== src/Breakpoint/Loose.antt =====
-- The memory while some breakpoints are taken out for an instruction: `away` lists their pcs.
use godbg.Common.{
  ◌==◌, ==_iff, Bool-cases, ℕ, ◌≡◌, sym, ap, ◌∙◌, ◌≢◌, ◌⊎◌, inl, inr, false, Option, none, some,
  List, [], ◌∷◌, arith,
}
use godbg.Common.Bytes.{Bytes}
use godbg.Common.Result.{ok}
use godbg.Target.{BInfo, WaitStatus, Os, Target, poke_data}
use godbg.Breakpoint.{find_break_point, enable_break_point, disable_break_point}
use godbg.Breakpoint.Memory.{MemoryLaws, IsWritable, IsPatched}
use godbg.Breakpoint.Table.{IsFree}
use native.Mathlib.Decide.{ℕ_discrete}

-- What running the process leaves alone: the bytes of its text, unless it ends.
pub record TextLaws (os : Os) (pid : ℕ) (code : ℕ → Option ℕ) : Type 0 where
  pub step_keeps :
      (w : os.World) (a b : ℕ)
      → code a ≡ some b
      → os.peek (os.single_step w pid).0 pid a 1 ≡ os.peek w pid a 1
  pub cont_keeps :
      (w : os.World) (a b : ℕ)
      → code a ≡ some b
      → os.peek (os.cont w pid).0 pid a 1 ≡ os.peek w pid a 1
  pub wait_keeps :
      (w : os.World) (a b : ℕ)
      → code a ≡ some b
      → ((p : ℕ) (s : WaitStatus) → (os.wait4 w pid).1 ≡ ok (p, s) → s.exited ≡ false)
      → os.peek (os.wait4 w pid).0 pid a 1 ≡ os.peek w pid a 1

abbrev pub In : ℕ → List ℕ → Type 0
In a [] = ⊥
In a (x ∷ xs) = (a ≡ x) ⊎ In a xs

-- As `IsPatched`, but the byte of the text may stand at the pcs of `away`.
pub record IsLoose (os : Os) (pid : ℕ) (code : ℕ → Option ℕ) (away : List ℕ) (infos : List BInfo)
    (w : os.World) : Type 0 where
  pub plain : (a b : ℕ) → code a ≡ some b → IsFree a infos → os.peek w pid a 1 ≡ ok (b ∷ [])
  pub armed :
      (a : ℕ) (v : BInfo)
      → find_break_point infos a ≡ some v
      → (b : ℕ) × (code a ≡ some b)
        × (v.original ≡ b ∷ [])
        × ((os.peek w pid a 1 ≡ ok (0xCC ∷ [])) ⊎ (In a away × (os.peek w pid a 1 ≡ ok (b ∷ []))))

pub find_break_point_at :
    (vs : List BInfo) (pc : ℕ) (v : BInfo) → find_break_point vs pc ≡ some v → v.pc ≡ pc
unfolding find_break_point
find_break_point_at [] pc v h = cc
find_break_point_at (x ∷ vs) pc v h = elim (Bool-cases (x.pc == pc)) [
  | inl at ↦ let same : x ≡ v = ground arith in rw (← same) ((==_iff x.pc pc).0 at)
  | inr other ↦ find_break_point_at vs pc v (ground arith)
]

module _ (os : Os) (pid : ℕ) (code : ℕ → Option ℕ) (infos : List BInfo) where
  open os use {World, peek}

  pub IsLoose-IsPatched :
      (w : World) → IsPatched os pid code infos w → IsLoose os pid code [] infos w
  IsLoose-IsPatched w p = record {
    plain = p.plain;
    armed = λ a v found. let (now, b, at_b, saved) = p.armed a v found in (b, at_b, saved, inl now);
  }

  pub IsPatched-IsLoose :
      (w : World) → IsLoose os pid code [] infos w → IsPatched os pid code infos w
  IsPatched-IsLoose w p = record {
    plain = p.plain;
    armed = λ a v found.
        let (b, at_b, saved, now) = p.armed a v found in (now_armed now, b, at_b, saved);
  }
    where
      now_armed :
          {a b : ℕ}
          → (peek w pid a 1 ≡ ok (0xCC ∷ [])) ⊎ (⊥ × (peek w pid a 1 ≡ ok (b ∷ [])))
          → peek w pid a 1 ≡ ok (0xCC ∷ [])
      now_armed (inl h) = h
      now_armed (inr h) = absurd h.0

  -- The bytes of the text are what they were.
  abbrev pub SameText : World → World → Type 0
  SameText w w' = (a b : ℕ) → code a ≡ some b → peek w' pid a 1 ≡ peek w pid a 1

  pub IsLoose-SameText :
      (away : List ℕ) (w w' : World)
      → SameText w w'
      → IsLoose os pid code away infos w
      → IsLoose os pid code away infos w'
  IsLoose-SameText away w w' same p = record {
    plain = λ a b at_b free. same a b at_b ∙ p.plain a b at_b free;
    armed = λ a v found.
        let (b, at_b, saved, now) = p.armed a v found in
        (
          b,
          at_b,
          saved,
          elim now [ inl h ↦ inl (same a b at_b ∙ h) | inr h ↦ inr (h.0, same a b at_b ∙ h.1) ],
        );
  }

  module _ (laws : MemoryLaws os pid) (writable : IsWritable os pid) (away : List ℕ) (v : BInfo)
      (t : Target World) (found : find_break_point infos v.pc ≡ some v) where
    readable :
        (away' : List ℕ)
        → IsLoose os pid code away' infos t.world
        → (bs : Bytes) × (peek t.world pid v.pc 1 ≡ ok bs)
    readable away' p =
        let (b, at_b, saved, now) = p.armed v.pc v found in
        elim now [ inl h ↦ (0xCC ∷ [], h) | inr h ↦ (b ∷ [], h.1) ]

    -- A byte that is written there: the call succeeds, and no other byte changes.
    record Patches (x : ℕ) (w : World) : Type 0 where
      success : poke_data os pid v.pc (x ∷ []) t ≡ (ok tt, record t { world = w })
      here : peek w pid v.pc 1 ≡ ok (x ∷ [])
      elsewhere : (a : ℕ) → v.pc ≢ a → peek w pid a 1 ≡ peek t.world pid a 1

    patch :
        (away' : List ℕ) (x : ℕ)
        → IsLoose os pid code away' infos t.world
        → (w : World) × Patches x w
    patch away' x p =
        let (bs, read) = readable away' p in
        let w = (os.poke t.world pid v.pc (x ∷ [])).0 in
        let written : os.poke t.world pid v.pc (x ∷ []) ≡ (w, none) =
          ground (arith, writable.writes t.world v.pc x bs read) in
        (
          w,
          record {
            success = ground (arith, written);
            here = laws.peek_poke t.world w v.pc x written;
            elsewhere = λ a ne. laws.peek_poke_other t.world w v.pc a x ne written;
          },
        )

    free_elsewhere : (a : ℕ) → IsFree a infos → v.pc ≢ a
    free_elsewhere a free e = cc (found, free, ap (find_break_point infos) e)

    -- A breakpoint that is taken out.
    pub disable_break_point-IsLoose :
        IsLoose os pid code away infos t.world
        → (w : World) × (disable_break_point os pid (some v) t ≡ (ok tt, record t { world = w }))
          × IsLoose os pid code (v.pc ∷ away) infos w
    unfolding disable_break_point
    disable_break_point-IsLoose p =
        let (b, at_b, saved, now) = p.armed v.pc v found in
        let (w, q) = patch away b p in
        (
          w,
          ap (λ bs. poke_data os pid v.pc bs t) saved ∙ q.success,
          record {
            plain = λ a c at_c free. q.elsewhere a (free_elsewhere a free) ∙ p.plain a c at_c free;
            armed = λ a u at.
                let (c, at_c, saved', now') = p.armed a u at in
                (
                  c,
                  at_c,
                  saved',
                  elim (ℕ_discrete a v.pc) [
                    | yes e ↦
                        let same : b ≡ c = cc (at_b, at_c, ap code e) in
                        inr (inl e, rw (e, ← same) q.here)
                    | no ne ↦
                        let there = q.elsewhere a (λ e. ne (sym e)) in
                        elim now' [ inl h ↦ inl (there ∙ h) | inr h ↦ inr (inr h.0, there ∙ h.1) ]
                  ],
                );
          },
        )

    -- A breakpoint that is put back.
    pub enable_break_point-IsLoose :
        IsLoose os pid code (v.pc ∷ away) infos t.world
        → (w : World) × (enable_break_point os pid (some v) t ≡ (ok tt, record t { world = w }))
          × IsLoose os pid code away infos w
    unfolding enable_break_point
    enable_break_point-IsLoose p =
        let (w, q) = patch (v.pc ∷ away) 0xCC p in
        (
          w,
          q.success,
          record {
            plain = λ a c at_c free. q.elsewhere a (free_elsewhere a free) ∙ p.plain a c at_c free;
            armed = λ a u at.
                let (c, at_c, saved', now') = p.armed a u at in
                (
                  c,
                  at_c,
                  saved',
                  elim (ℕ_discrete a v.pc) [
                    | yes e ↦ inl (rw e q.here)
                    | no ne ↦
                        let there = q.elsewhere a (λ e. ne (sym e)) in
                        elim now' [
                          | inl h ↦ inl (there ∙ h)
                          | inr h ↦ elim h.0 [
                            | inl e ↦ absurd (ne e)
                            | inr i ↦ inr (i, there ∙ h.1)
                          ]
                        ]
                  ],
                );
          },
        )
