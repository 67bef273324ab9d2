-- ===== src/Session/Rearms.antt =====
-- SetBpWhenRestart of breakpoint.go, on a process that has just been started.
use godbg.Common.{
  ◌==◌, ==_iff, Bool-cases, All, ℕ, ◌≡◌, refl, sym, ◌∙◌, inl, inr, Option, some, List, [], ◌∷◌, map,
}
use godbg.Common.Result.{ok}
use godbg.Target.{BInfo, Os, Target, >>=_ok}
use godbg.Breakpoint.{find_break_point, enable_break_point, restart_loop, set_bp_when_restart}
use godbg.Breakpoint.Table.{HasUniquePcs}
use godbg.Breakpoint.Memory.{MemoryLaws, IsWritable, IsPatched}
use godbg.Breakpoint.Loose.{In, IsLoose, IsPatched-IsLoose, enable_break_point-IsLoose}
use godbg.Session.{AllUsers}
use godbg.Session.Restarts.{found_in_place}

abbrev pub pcs : List BInfo → List ℕ
pcs infos = map (λ (v : BInfo). v.pc) infos

find_break_point-In :
    (vs : List BInfo) (a : ℕ) (v : BInfo) → find_break_point vs a ≡ some v → In a (pcs vs)
unfolding find_break_point
find_break_point-In [] a v e = absurd cc
find_break_point-In (x ∷ vs) a v e = elim (Bool-cases (x.pc == a)) [
  | inl at ↦ inl (sym ((==_iff x.pc a).0 at))
  | inr other ↦ inr (find_break_point-In vs a v (rw other at e))
]

-- The table keeps for each of its breakpoints the byte of the text.
abbrev pub KeepsText : (ℕ → Option ℕ) → List BInfo → Type 0
KeepsText code infos =
    (a : ℕ) (v : BInfo)
    → find_break_point infos a ≡ some v
    → (b : ℕ) × (code a ≡ some b) × (v.original ≡ b ∷ [])

-- The memory is the text, with no breakpoint in it.
abbrev pub IsText : (os : Os) → ℕ → (ℕ → Option ℕ) → os.World → Type 0
IsText os pid code w = (a b : ℕ) → code a ≡ some b → os.peek w pid a 1 ≡ ok (b ∷ [])

module _ (os : Os) (pid : ℕ) (code : ℕ → Option ℕ) (laws : MemoryLaws os pid)
    (writable : IsWritable os pid) where
  open os use {World}

  fresh-IsLoose :
      (infos : List BInfo) (w : World)
      → KeepsText code infos
      → IsText os pid code w
      → IsLoose os pid code (pcs infos) infos w
  fresh-IsLoose infos w kept text = record {
    plain = λ a b at_b free. text a b at_b;
    armed = λ a v finds.
        let (b, at_b, saved) = kept a v finds in
        (b, at_b, saved, inr (find_break_point-In infos a v finds, text a b at_b));
  }

  restart_loop-IsLoose :
      (infos vs : List BInfo) (t : Target World)
      → AllUsers vs
      → All (λ v. find_break_point infos v.pc ≡ some v) vs
      → IsLoose os pid code (pcs vs) infos t.world
      → (w : World) × (restart_loop os pid vs t ≡ (ok tt, record t { world = w }))
        × IsLoose os pid code [] infos w
  unfolding restart_loop
  restart_loop-IsLoose infos [] t users there h = (t.world, refl, h)
  restart_loop-IsLoose infos (v ∷ vs) t users there h =
      let (w, done, loose) =
        enable_break_point-IsLoose os pid code infos laws writable (pcs vs) v t there.0 h in
      let (w', rest, loose') =
        restart_loop-IsLoose infos vs (record t { world = w }) users.1 there.1 loose in
      (
        w',
        rw users.0
            (>>=_ok (enable_break_point os pid (some v)) (λ _. restart_loop os pid vs) done ∙ rest),
        loose',
      )

  -- In a process whose memory is the text with no breakpoint in it, as one that has just been started,
  -- and can be written: for a table of breakpoints of the user, one at most for a pc, each with the byte
  -- of the text, `SetBpWhenRestart` succeeds, leaves the table, and the memory is the text with 0xCC at
  -- each breakpoint of the table.
  pub set_bp_when_restart-IsPatched :
      (t : Target World)
      → HasUniquePcs t.infos
      → AllUsers t.infos
      → KeepsText code t.infos
      → IsText os pid code t.world
      → (w : World) × (set_bp_when_restart os pid t ≡ (ok tt, record t { world = w }))
        × IsPatched os pid code t.infos w
  unfolding set_bp_when_restart
  set_bp_when_restart-IsPatched t unique users kept text =
      let (w, done, loose) =
        restart_loop-IsLoose t.infos t.infos t users (found_in_place t.infos [] t.infos refl unique)
          (fresh-IsLoose t.infos t.world kept text) in
      (w, done, IsPatched-IsLoose os pid code t.infos w loose)
