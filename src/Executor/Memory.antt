-- ===== src/Executor/Memory.antt =====
-- `bc all` and `bc n` keep the memory patched as the table says.
use godbg.Common.{
  ◌==◌, if◌then◌else◌, Bool-cases, length, ℕ, ◌≡◌, refl, ap, ◌∙◌, inl, inr, Bool, Option, none,
  some, List, [], ◌∷◌, ◌++◌, arith,
}
use godbg.Common.Int.{ℤ}
use godbg.Common.Result.{Result, ok}
use godbg.Target.{
  BInfo, PtraceRegs, Os, Target, before, get_registers, get_ptrace_pc, write_regs, set_pc_register,
  >>=_keeps,
}
use godbg.Breakpoint.{is_user, find_break_point, disable_break_point}
use godbg.Breakpoint.Memory.{MemoryLaws, IsWritable, IsPatched}
use godbg.Breakpoint.Patched.{disable_break_point-IsPatched}
use godbg.Breakpoint.Table.{HasUniquePcs}
use godbg.Executor.{
  pid_of, find_index, exceeds, internals, release, release_users, after_pc, clear_all, clear_found,
  clear_index, no_index,
}
use godbg.Executor.Clear.{
  Removes, nth, absent, find_index-Removes, find_break_point-middle, find_break_point-removed,
  HasUniquePcs-removed,
}
use mathlib.Core.List.{append_assoc}
use mathlib.Core.Path.{subst}

module _ (os : Os) (pid : ℕ) (laws : MemoryLaws os pid) (writable : IsWritable os pid)
    (code : ℕ → Option ℕ) where
  open os use {World, peek, set_regs}

  abbrev Patched : List BInfo → World → Type 0
  Patched = IsPatched os pid code

  -- The process is still there, and no byte of the memory has changed.
  abbrev Keeps : World → Target World → Type 0
  Keeps w t = (t.process ≡ some pid) × ((a : ℕ) → peek t.world pid a 1 ≡ peek w pid a 1)

  Patched-Keeps :
      (table : List BInfo) (w : World) (t : Target World)
      → Keeps w t
      → Patched table w
      → Patched table t.world
  Patched-Keeps table w t k p = record {
    plain = λ a b at free. k.1 a ∙ p.plain a b at free;
    armed =
        λ a v found. let (now, b, at_b, saved) = p.armed a v found in (k.1 a ∙ now, b, at_b, saved);
  }

  set_pc_register-Keeps :
      (pc : ℕ) (t : Target World) → t.process ≡ some pid → Keeps t.world (set_pc_register os pc t).1
  set_pc_register-Keeps pc t runs =
      >>=_keeps (Keeps t.world) (get_registers os) _ t registers (λ prs t' _ k. written prs t' k)
    where
      registers : Keeps t.world (get_registers os t).1
      registers = (ground (arith, runs), λ a. ground (arith, runs))

      written :
          (prs : PtraceRegs) (t' : Target World)
          → Keeps t.world t'
          → Keeps t.world (write_regs os t'.process (record prs { rip = pc }) t').1
      written prs t' k = (
        ground (arith, k.0),
        λ a. ground (arith, k.0, laws.peek_set_regs t'.world (record prs { rip = pc }) a, k.1 a),
      )

  disable_succeeds :
      (v : BInfo) (b : ℕ) (t : Target World)
      → v.original ≡ b ∷ []
      → peek t.world pid v.pc 1 ≡ ok (0xCC ∷ [])
      → disable_break_point os pid (some v) t ≡ (ok tt, (disable_break_point os pid (some v) t).1)
  unfolding disable_break_point
  disable_succeeds v b t e now = ground (arith, e, writable.writes t.world v.pc b (0xCC ∷ []) now)

  release-IsPatched :
      (cur_pc : ℕ) (v : BInfo) (table table' : List BInfo) (t : Target World)
      → t.process ≡ some pid
      → find_break_point table v.pc ≡ some v
      → ((a : ℕ)
          → find_break_point table' a ≡ (if a == v.pc then none else find_break_point table a))
      → Patched table t.world
      → Patched table' (release os pid cur_pc v t).world
        × ((release os pid cur_pc v t).process ≡ some pid)
  unfolding release disable_break_point
  release-IsPatched cur_pc v table table' t runs found removed p =
      let (now, b, at_b, saved) = p.armed v.pc v found in
      let u = (disable_break_point os pid (some v) t).1 in
      let q : Patched table' u.world =
        disable_break_point-IsPatched os pid laws code v.pc v table' (record t { infos = table })
          (disable_break_point os pid (some v) (record t { infos = table })).1 found refl removed p
          (disable_succeeds v b (record t { infos = table }) saved now) in
      elim (Bool-cases (v.pc == before cur_pc)) [
        | inl here ↦
            let k = set_pc_register-Keeps v.pc u runs in
            rw here (Patched-Keeps table' u.world (set_pc_register os v.pc u).1 k q, k.0)
        | inr away ↦ rw away (q, runs)
      ]

  release_users_step :
      (cur_pc : ℕ) (v : BInfo) (vs : List BInfo) (t : Target World) {b : Bool}
      → is_user v.kind ≡ b
      → release_users os pid cur_pc (v ∷ vs) t
        ≡ release_users os pid cur_pc vs (if b then release os pid cur_pc v t else t)
  unfolding release_users
  release_users_step cur_pc v vs t e =
      ap (λ b. release_users os pid cur_pc vs (if b then release os pid cur_pc v t else t)) e

  release_users-IsPatched :
      (cur_pc : ℕ) (vs front : List BInfo) (t : Target World)
      → t.process ≡ some pid
      → HasUniquePcs (front ++ vs)
      → Patched (front ++ vs) t.world
      → Patched (front ++ internals vs) (release_users os pid cur_pc vs t).world
  unfolding release_users internals
  release_users-IsPatched cur_pc [] front t runs unique p = p
  release_users-IsPatched cur_pc (v ∷ vs) front t runs unique p =
      elim (Bool-cases (is_user v.kind)) [
        | inl u ↦
            let r =
              release-IsPatched cur_pc v (front ++ (v ∷ vs)) (front ++ vs) t runs
                (find_break_point-middle front vs v unique)
                (find_break_point-removed front vs v unique) p in
            rw (release_users_step cur_pc v vs t u, u)
              (release_users-IsPatched cur_pc vs front (release os pid cur_pc v t) r.1
                (HasUniquePcs-removed front vs v unique) r.0)
        | inr i ↦
            rw (release_users_step cur_pc v vs t i, i)
              (rw (← append_assoc front (v ∷ []) (internals vs)) (
                release_users-IsPatched cur_pc vs (front ++ (v ∷ [])) t runs
                  (rw (append_assoc front (v ∷ []) vs) unique)
                  (rw (append_assoc front (v ∷ []) vs) p)))
      ]

  module _ (t : Target World) (regs : PtraceRegs) (runs : t.process ≡ some pid)
      (read : os.get_regs t.world pid ≡ ok regs) (unique : HasUniquePcs t.infos)
      (p : Patched t.infos t.world) where
    got_pc : get_ptrace_pc os t ≡ (ok regs.rip, t)
    got_pc = ground (arith, runs, read)

    pub clear_all_eq :
        clear_all os t
        ≡ (ok tt, record (release_users os pid regs.rip t.infos t) { infos = internals t.infos })
    unfolding clear_all
    clear_all_eq = ground (arith, runs, read, got_pc)

    -- In a process that runs, whose registers can be read and whose text can be written, with one
    -- breakpoint at most for a pc and the memory patched as the table says: `bc all` leaves the table of
    -- the internal breakpoints, in their order, and the memory patched as that table says, so that the
    -- text under every breakpoint of the user is back.
    pub clear_all-IsPatched :
        ((clear_all os t).1.infos ≡ internals t.infos)
        × Patched (internals t.infos) (clear_all os t).1.world
    unfolding clear_all
    clear_all-IsPatched =
        rw clear_all_eq (refl, release_users-IsPatched regs.rip t.infos [] t runs unique p)

    -- The state behind the message about an index above the length of the table.
    abbrev pub told : ℤ → Target World
    told n = record t {
      out = t.out ++ (if exceeds n (length t.infos) then no_index n ∷ [] else []);
    }

    -- `bc n` in terms of what the search finds.
    pub clear_index_eq :
        (n : ℤ) → clear_index os n t ≡ clear_found os n regs.rip (find_index n 0 t.infos) (told n)
    unfolding clear_index
    clear_index_eq n = ap (λ (p : Result ℕ × Target World). after_pc os (searched n) p.0 p.1) got_pc
      where
        searched : ℤ → ℕ → Target World → Result (Unit {0}) × Target World
        searched n cur_pc t = clear_found os n cur_pc (find_index n 0 t.infos) (record t {
          out = t.out ++ (if exceeds n (length t.infos) then no_index n ∷ [] else []);
        })

    same_pid : pid_of t.process ≡ pid
    same_pid = ap pid_of runs

    -- The table without the breakpoint that the search finds.
    abbrev pub left : Option (BInfo × List BInfo) → List BInfo
    left none = t.infos
    left (some (v, infos)) = infos

    -- In a process that runs, whose registers can be read and whose text can be written, with one
    -- breakpoint at most for a pc and the memory patched as the table says: `bc n` leaves the table
    -- without the breakpoint that its search finds, or as it was where the search finds none; it has one
    -- breakpoint at most for a pc, and the memory is patched as it says.
    pub clear_index-IsPatched :
        (n : ℤ)
        → ((clear_index os n t).1.infos ≡ left (find_index n 0 t.infos))
          × HasUniquePcs (clear_index os n t).1.infos
          × Patched (clear_index os n t).1.infos (clear_index os n t).1.world
    clear_index-IsPatched n =
        rw (clear_index_eq n) (outcome (find_index n 0 t.infos) (find_index-Removes n t.infos))
      where
        found : Option (BInfo × List BInfo) → Target World
        found r = (clear_found os n regs.rip r (told n)).1

        outcome :
            (r : Option (BInfo × List BInfo))
            → Removes n 0 t.infos r
            → ((found r).infos ≡ left r)
              × HasUniquePcs (found r).infos
              × Patched (found r).infos (found r).world
        outcome _ (absent h) = (refl, unique, p)
        outcome _ (nth xs ys v e is_u at) =
            let unique' : HasUniquePcs (xs ++ (v ∷ ys)) = subst HasUniquePcs e unique in
            let p' : Patched (xs ++ (v ∷ ys)) t.world = subst (λ l. Patched l t.world) e p in
            (
              refl,
              HasUniquePcs-removed xs ys v unique',
              rw same_pid (
                  (release-IsPatched regs.rip v (xs ++ (v ∷ ys)) (xs ++ ys) (told n) runs
                    (find_break_point-middle xs ys v unique')
                    (find_break_point-removed xs ys v unique') p').0),
            )
