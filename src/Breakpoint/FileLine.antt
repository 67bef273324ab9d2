-- ===== src/Breakpoint/FileLine.antt =====
-- `SetFileLineBreakPoint`: what a line that is found, and a pc that is free, come to.
use godbg.Common.{ℕ, ◌≡◌, refl, ap, arith, Option, some, [], ◌∷◌, ◌++◌, ◌⊎◌, inl, inr}
use godbg.Common.Bytes.{Bytes}
use godbg.Common.Int.{ℤ}
use godbg.Common.Result.{Error, Result, ok, err, has_existed_break_point}
use godbg.Bi.{Bi, file_line_to_pc_for_break_point}
use godbg.Target.{Os, BInfo, Target, user}
use godbg.Breakpoint.{
  find_break_point, set_pc_break_point, set_user_break_point, set_file_line_break_point,
}
use godbg.Breakpoint.Memory.{MemoryLaws, IsWritable, IsPatched}
use godbg.Breakpoint.Patched.{set_pc_break_point-IsPatched}
use godbg.Breakpoint.Table.{IsFree}

module _ (os : Os) (pid : ℕ) (cwd : Result Bytes) (join : Bytes → Bytes → Bytes) (bi : Bi)
    (filename : Bytes) (lineno : ℤ) (t : Target os.World) where
  open os use {World}

  module _ (laws : MemoryLaws os pid) (writable : IsWritable os pid) (code : ℕ → Option ℕ) where
    set_pc_break_point_free :
        (pc b : ℕ)
        → code pc ≡ some b
        → IsFree pc t.infos
        → IsPatched os pid code t.infos t.world
        → (u : Target World) × (set_pc_break_point os pid pc t ≡ (ok (b ∷ []), u))
          × (u.infos ≡ t.infos)
    unfolding set_pc_break_point
    set_pc_break_point_free pc b at_b free p = (
      record t { world = (os.poke t.world pid pc (0xCC ∷ [])).0 },
      ground (
        arith,
        free,
        p.plain pc b at_b free,
        writable.writes t.world pc 0xCC (b ∷ []) (p.plain pc b at_b free),
      ),
      refl,
    )

    -- Where the working directory is known, the line is found, no breakpoint of the table is at its
    -- pc, the text has a byte there and can be written, and the memory is patched as the table says: a
    -- breakpoint of the user with that byte, the name and the line is added at the end of the table,
    -- and the memory is patched as the new table says.
    pub set_file_line_break_point-IsPatched :
        (dir : Bytes) (pc b : ℕ)
        → cwd ≡ ok dir
        → file_line_to_pc_for_break_point bi (join dir filename) lineno ≡ ok pc
        → IsFree pc t.infos
        → code pc ≡ some b
        → IsPatched os pid code t.infos t.world
        → (info : BInfo) × (u : Target World) × (set_file_line_break_point os cwd join bi pid
              filename lineno t
            ≡ (ok info, u))
          × (info ≡ record {
            original = b ∷ [];
            filename = filename;
            lineno = lineno;
            pc = pc;
            kind = user;
          })
          × (u.infos ≡ t.infos ++ (info ∷ []))
          × IsPatched os pid code u.infos u.world
    unfolding set_file_line_break_point set_user_break_point
    set_file_line_break_point-IsPatched dir pc b in_dir found free at_b p =
        let (u, set, table) = set_pc_break_point_free pc b at_b free p in
        let info : BInfo = record {
          original = b ∷ [];
          filename = filename;
          lineno = lineno;
          pc = pc;
          kind = user;
        } in
        (
          info,
          record u { infos = u.infos ++ (info ∷ []) },
          ground (arith, in_dir, found, set),
          refl,
          ap (λ l. l ++ (info ∷ [])) table,
          set_pc_break_point-IsPatched os pid laws code pc b t u info at_b p set refl,
        )

  -- Where the working directory or the line is not found, or the table has a breakpoint at the pc of the
  -- line, the error says so, and the table and the machine are as they were.
  pub set_file_line_break_point_refused :
      (e : Error)
      → (cwd ≡ err e)
        ⊎ ((dir : Bytes) × (cwd ≡ ok dir)
            × ((file_line_to_pc_for_break_point bi (join dir filename) lineno ≡ err e)
                ⊎ ((e ≡ has_existed_break_point)
                    × (pc : ℕ) × (v : BInfo) × (file_line_to_pc_for_break_point bi
                          (join dir filename)
                          lineno
                        ≡ ok pc)
                    × (find_break_point t.infos pc ≡ some v))))
      → set_file_line_break_point os cwd join bi pid filename lineno t ≡ (err e, t)
  unfolding set_file_line_break_point set_user_break_point set_pc_break_point
  set_file_line_break_point_refused e (inl no_dir) = ground (arith, no_dir)
  set_file_line_break_point_refused e (inr (dir, in_dir, inl missing)) =
      ground (arith, in_dir, missing)
  set_file_line_break_point_refused e (inr (dir, in_dir, inr (same, pc, v, found, taken))) =
      rw same (ground (arith, in_dir, found, taken))
