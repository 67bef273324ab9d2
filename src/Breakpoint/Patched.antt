-- ===== src/Breakpoint/Patched.antt =====
-- Setting and removing a breakpoint keep the memory patched as the table says.
use godbg.Common.{
  ℕ, ◌≡◌, ◌≢◌, refl, sym, ap, ◌∙◌, arith, Option, none, some, List, [], ◌∷◌, ◌++◌, ◌==◌, ==_iff,
  if◌then◌else◌, Bool-cases, Option-cases, inl, inr,
}
use godbg.Common.Bytes.{Bytes}
use godbg.Common.Result.{Result, ok}
use godbg.Common.Int.{ℤ}
use godbg.Target.{Os, BInfo, Target, ◌>>=◌, >>=_eq_ok, peek_data, poke_data}
use godbg.Breakpoint.{
  find_break_point, set_pc_break_point, append_info, set_user_break_point, set_internal_break_point,
  disable_break_point,
}
use godbg.Breakpoint.Memory.{MemoryLaws, IsPatched}
use godbg.Breakpoint.Table.{IsFree, find_break_point-append, SetsPc, set_pc_break_point_ok}

module _ (os : Os) (pid : ℕ) where
  open os use {World, peek, poke}

  poke_data_ok :
      (a : ℕ) (bs : Bytes) (t t' : Target World)
      → poke_data os pid a bs t ≡ (ok tt, t')
      → poke t.world pid a bs ≡ (t'.world, none)
  poke_data_ok a bs t t' h = ground arith

  peek_data_ok :
      (a b : ℕ) (t t' : Target World) (bs : Bytes)
      → peek t.world pid a 1 ≡ ok (b ∷ [])
      → peek_data os pid a 1 t ≡ (ok bs, t')
      → bs ≡ b ∷ []
  peek_data_ok a b t t' bs e h = ground (arith, e)

  module _ (laws : MemoryLaws os pid) (code : ℕ → Option ℕ) where
    -- A byte that is patched: what the memory holds afterwards, there and elsewhere.
    patch_here :
        (pc : ℕ) (t t' : Target World)
        → poke_data os pid pc (0xCC ∷ []) t ≡ (ok tt, t')
        → peek t'.world pid pc 1 ≡ ok (0xCC ∷ [])
    patch_here pc t t' e = laws.peek_poke t.world t'.world pc 0xCC (poke_data_ok pc _ t t' e)

    poke_elsewhere :
        (pc a x : ℕ) (t t' : Target World)
        → pc ≢ a
        → poke_data os pid pc (x ∷ []) t ≡ (ok tt, t')
        → peek t'.world pid a 1 ≡ peek t.world pid a 1
    poke_elsewhere pc a x t t' ne e =
        laws.peek_poke_other t.world t'.world pc a x ne (poke_data_ok pc _ t t' e)

    module _ (pc b : ℕ) (t t' : Target World) (v : BInfo) (at_b : code pc ≡ some b)
        (p : IsPatched os pid code t.infos t.world) (s : SetsPc os pid pc t t' v.original)
        (at_pc : v.pc ≡ pc) where
      grown : List BInfo
      grown = t.infos ++ (v ∷ [])

      grown_plain :
          (a c : ℕ)
          → code a ≡ some c
          → IsFree a (t.infos ++ (v ∷ []))
          → peek t'.world pid a 1 ≡ ok (c ∷ [])
      grown_plain a c at_c free =
          poke_elsewhere pc a 0xCC t t' (ground (arith, find_break_point-append t.infos v a))
            s.patched
          ∙ p.plain a c at_c (ground (arith, find_break_point-append t.infos v a))

      grown_armed :
          (a : ℕ) (u : BInfo)
          → find_break_point (t.infos ++ (v ∷ [])) a ≡ some u
          → (peek t'.world pid a 1 ≡ ok (0xCC ∷ []))
            × (c : ℕ) × (code a ≡ some c)
            × (u.original ≡ c ∷ [])
      grown_armed a u found = elim (Option-cases (find_break_point t.infos a)) [
        | inl free ↦
            let e : (a ≡ pc) × (v ≡ u) = ground (arith, find_break_point-append t.infos v a) in
            rw e.0 (
              patch_here pc t t' s.patched,
              b,
              at_b,
              ap (λ (x : BInfo). x.original) (sym e.1)
                  ∙ peek_data_ok pc b t t v.original (p.plain pc b at_b s.free) s.read,
            )
        | inr (x, old) ↦
            let same : x ≡ u = ground (arith, find_break_point-append t.infos v a) in
            let ne : pc ≢ a = ground (arith, s.free) in
            let (now, c, at_c, saved) = p.armed a x old in
            (
              poke_elsewhere pc a 0xCC t t' ne s.patched ∙ now,
              c,
              at_c,
              ap (λ (y : BInfo). y.original) (sym same) ∙ saved,
            )
      ]

    -- Where the text has a byte at `pc`, a breakpoint that is set there, with the byte that was read,
    -- keeps the memory patched.
    pub set_pc_break_point-IsPatched :
        (pc b : ℕ) (t t' : Target World) (v : BInfo)
        → code pc ≡ some b
        → IsPatched os pid code t.infos t.world
        → set_pc_break_point os pid pc t ≡ (ok v.original, t')
        → v.pc ≡ pc
        → IsPatched os pid code (t'.infos ++ (v ∷ [])) t'.world
    set_pc_break_point-IsPatched pc b t t' v at_b p e at_pc =
        let s = set_pc_break_point_ok os pid pc t t' v.original e in
        rw (s.table) (record {
          plain = grown_plain pc b t t' v at_b p s at_pc;
          armed = grown_armed pc b t t' v at_b p s at_pc;
        })

    add_info-IsPatched :
        (pc b : ℕ) (make : Bytes → BInfo) (t t' : Target World) (info : BInfo)
        → ((o : Bytes) → ((make o).pc ≡ pc) × ((make o).original ≡ o))
        → code pc ≡ some b
        → IsPatched os pid code t.infos t.world
        → (set_pc_break_point os pid pc >>= λ o. append_info os (make o)) t ≡ (ok info, t')
        → IsPatched os pid code t'.infos t'.world
    add_info-IsPatched pc b make t t' info fields at_b p e =
        let (o, u, set, added) =
          >>=_eq_ok (set_pc_break_point os pid pc) (λ o. append_info os (make o)) t e in
        let grown =
          set_pc_break_point-IsPatched pc b t u (make o) at_b p (rw ((fields o).1) set)
            (fields o).0 in
        let world : u.world ≡ t'.world =
          ap (λ (x : Result BInfo × Target World). x.1.world) added in
        let table : u.infos ++ (make o ∷ []) ≡ t'.infos =
          ap (λ (x : Result BInfo × Target World). x.1.infos) added in
        rw (← world, ← table) grown

    -- Where the text has a byte at the pc and the memory is patched as the table says, a breakpoint of
    -- the user that is set there without an error keeps the memory patched as the table says.
    pub set_user_break_point-IsPatched :
        (filename : Bytes) (lineno : ℤ) (pc b : ℕ) (t t' : Target World) (info : BInfo)
        → code pc ≡ some b
        → IsPatched os pid code t.infos t.world
        → set_user_break_point os pid filename lineno pc t ≡ (ok info, t')
        → IsPatched os pid code t'.infos t'.world
    unfolding set_user_break_point
    set_user_break_point-IsPatched filename lineno pc b t t' info at_b p e =
        add_info-IsPatched pc b _ t t' info (λ _. (refl, refl)) at_b p e

    -- So does an internal one.
    set_internal_break_point-IsPatched :
        (pc b : ℕ) (t t' : Target World) (info : BInfo)
        → code pc ≡ some b
        → IsPatched os pid code t.infos t.world
        → set_internal_break_point os pid pc t ≡ (ok info, t')
        → IsPatched os pid code t'.infos t'.world
    unfolding set_internal_break_point
    set_internal_break_point-IsPatched pc b t t' info at_b p e =
        add_info-IsPatched pc b _ t t' info (λ _. (refl, refl)) at_b p e

    -- Where the memory is patched as the table says, a breakpoint of the table that is disabled
    -- without an error leaves the memory patched as any table says that finds the same breakpoints at
    -- all other pcs and none at its pc: the byte of the text is back.
    pub disable_break_point-IsPatched :
        (pc : ℕ) (v : BInfo) (infos' : List BInfo) (t t' : Target World)
        → find_break_point t.infos pc ≡ some v
        → v.pc ≡ pc
        → ((a : ℕ)
            → find_break_point infos' a ≡ (if a == pc then none else find_break_point t.infos a))
        → IsPatched os pid code t.infos t.world
        → disable_break_point os pid (some v) t ≡ (ok tt, t')
        → IsPatched os pid code infos' t'.world
    unfolding disable_break_point
    disable_break_point-IsPatched pc v infos' t t' found at_pc removed p e =
        let (now, b, at_b, saved) = p.armed pc v found in
        let back : poke_data os pid pc (b ∷ []) t ≡ (ok tt, t') = rw (saved, at_pc) at e in
        record {
          plain = λ a c at_c free. elim (Bool-cases (a == pc)) [
            | inl same ↦
                let here : a ≡ pc = (==_iff a pc).0 same in
                let byte : b ≡ c = ground (arith, at_b, at_c, here, ap code here) in
                rw (here, ← byte)
                  (laws.peek_poke t.world t'.world pc b (poke_data_ok pc _ t t' back))
            | inr other ↦
                poke_elsewhere pc a b t t' (ground arith) back
                ∙ p.plain a c at_c (ground (arith, removed a))
          ];
          armed = λ a u f.
              let (now', c, at_c, saved') = p.armed a u (ground (arith, removed a)) in
              (poke_elsewhere pc a b t t' (ground (arith, removed a)) back ∙ now', c, at_c, saved');
        }
