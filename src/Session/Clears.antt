-- ===== src/Session/Clears.antt =====
-- `bc all` and `bc n` lead from a safe state to a safe one.
use godbg.Common.{
  ◌==◌, if◌then◌else◌, Bool-cases, ℕ, ◌≡◌, refl, sym, ap, ◌∙◌, inl, inr, Bool, true, false, Option,
  none, some, List, [], ◌∷◌, ◌++◌,
}
use godbg.Common.Int.{ℤ}
use godbg.Common.Result.{Error, no_process_runing, Result, ok, err, panic}
use godbg.Target.{
  BInfo, PtraceRegs, Os, Target, M, after, pure, before, process_regs, get_registers, get_ptrace_pc,
  write_regs, set_pc_register, >>=_keeps,
}
use godbg.Breakpoint.{is_user, disable_break_point}
use godbg.Breakpoint.Memory.{IsPatched}
use godbg.Listing.Keeps.{SameButOut}
use godbg.Executor.{
  pid_of, find_index, internals, release, release_users, after_pc, with_pc, clear_all, clear_found,
  clear_index,
}
use godbg.Executor.Clear.{Removes, nth, absent, find_index-Removes}
use godbg.Executor.Memory.{
  clear_all_eq, clear_all-IsPatched, clear_index_eq, left, clear_index-IsPatched,
}
use godbg.Session.{AllUsers, SystemLaws}
use godbg.Session.Quiet.{SameButOut-refl, IsQuiet-get_registers}
use godbg.Session.Runs.{Safe, Safe-SameButOut}
use mathlib.Core.Path.{subst}

AllUsers-remove : (xs ys : List BInfo) (v : BInfo) → AllUsers (xs ++ (v ∷ ys)) → AllUsers (xs ++ ys)
AllUsers-remove [] ys v h = h.1
AllUsers-remove (x ∷ xs) ys v h = (h.0, AllUsers-remove xs ys v h.1)

-- The user's breakpoints leave no internal one.
internals-AllUsers : (vs : List BInfo) → AllUsers vs → internals vs ≡ []
unfolding internals
internals-AllUsers [] h = refl
internals-AllUsers (v ∷ vs) h = rw h.0 (internals-AllUsers vs h.1)

module _ (os : Os) where
  open os use {World, get_regs}

  set_pc_register_process :
      (pc : ℕ) (t : Target World) → (set_pc_register os pc t).1.process ≡ t.process
  set_pc_register_process pc t =
      >>=_keeps (λ u. u.process ≡ t.process) (get_registers os) _ t
        ((IsQuiet-get_registers os).same t).process (λ prs u _ k. written prs u u.process ∙ k)
    where
      written :
          (prs : PtraceRegs) (u : Target World) (p : Option ℕ)
          → (write_regs os p (record prs { rip = pc }) u).1.process ≡ u.process
      written prs u none = refl
      written prs u (some pid) = refl

  release_process :
      (p cur_pc : ℕ) (v : BInfo) (t : Target World) → (release os p cur_pc v t).process ≡ t.process
  unfolding release disable_break_point
  release_process p cur_pc v t = elim (Bool-cases (v.pc == before cur_pc)) [
    | inl at ↦ rw at (set_pc_register_process v.pc _)
    | inr away ↦ rw away refl
  ]

  release_users_process :
      (p cur_pc : ℕ) (vs : List BInfo) (t : Target World)
      → (release_users os p cur_pc vs t).process ≡ t.process
  unfolding release_users
  release_users_process p cur_pc [] t = refl
  release_users_process p cur_pc (v ∷ vs) t =
      release_users_process p cur_pc vs _ ∙ one (is_user v.kind)
    where
      one : (b : Bool) → (if b then release os p cur_pc v t else t).process ≡ t.process
      one true = release_process p cur_pc v t
      one false = refl

  -- A command that asks for the pc says so, where it is not known.
  with_pc-IsQuiet :
      (f : ℕ → M World (Unit {0})) (t : Target World) (e : Error)
      → get_ptrace_pc os t ≡ (err e, t)
      → SameButOut t (with_pc os f t).1
  with_pc-IsQuiet f t e h =
      subst (λ (q : Result ℕ × Target World). SameButOut t (after_pc os f q.0 q.1).1) (sym h)
        (record { world = refl; table = refl; process = refl })

  with_pc-panics :
      (f : ℕ → M World (Unit {0})) (t : Target World)
      → get_ptrace_pc os t ≡ (panic, t)
      → SameButOut t (with_pc os f t).1
  with_pc-panics f t h =
      subst (λ (q : Result ℕ × Target World). SameButOut t (after_pc os f q.0 q.1).1) (sym h)
        (SameButOut-refl t)

module _ (os : Os) (pid : ℕ) (code : ℕ → Option ℕ) (laws : SystemLaws os pid code) where
  open os use {World, get_regs}

  -- A command that asks for the pc is safe, if it is in a process whose registers can be read.
  with_pc-Safe :
      (f : ℕ → M World (Unit {0})) (t : Target World)
      → Safe os pid code t
      → ((regs : PtraceRegs)
          → t.process ≡ some pid
          → get_regs t.world pid ≡ ok regs
          → IsPatched os pid code t.infos t.world
          → Safe os pid code (with_pc os f t).1)
      → Safe os pid code (with_pc os f t).1
  with_pc-Safe f t h k = elim h.memory [
    | inl gone ↦
        Safe-SameButOut os pid code t _
          (with_pc-IsQuiet os f t no_process_runing (
            ap
              (λ p.
                after (λ (prs : PtraceRegs). pure prs.rip) (process_regs os p t).0
                  (process_regs os p t).1)
              gone))
          h
    | inr (runs, patched) ↦ by_regs (get_regs t.world pid) refl runs patched
  ]
    where
      pc_of :
          (r : Result PtraceRegs)
          → t.process ≡ some pid
          → get_regs t.world pid ≡ r
          → get_ptrace_pc os t ≡ after (λ (prs : PtraceRegs). pure prs.rip) r t
      pc_of r runs read =
          ap
            (λ p.
              after (λ (prs : PtraceRegs). pure prs.rip) (process_regs os p t).0
                (process_regs os p t).1)
            runs
          ∙ ap (λ r. after (λ (prs : PtraceRegs). pure prs.rip) r t) read

      by_regs :
          (r : Result PtraceRegs)
          → get_regs t.world pid ≡ r
          → t.process ≡ some pid
          → IsPatched os pid code t.infos t.world
          → Safe os pid code (with_pc os f t).1
      by_regs (ok regs) read runs patched = k regs runs read patched
      by_regs (err e) read runs patched =
          Safe-SameButOut os pid code t _ (with_pc-IsQuiet os f t e (pc_of (err e) runs read)) h
      by_regs panic read runs patched =
          Safe-SameButOut os pid code t _ (with_pc-panics os f t (pc_of panic runs read)) h

  -- `bc all`
  pub clear_all-Safe : (t : Target World) → Safe os pid code t → Safe os pid code (clear_all os t).1
  unfolding clear_all
  clear_all-Safe t h = with_pc-Safe _ t h λ regs runs read patched.
      let (table, patched') =
        clear_all-IsPatched os pid laws.memory_laws laws.writable code t regs runs read h.unique
          patched in
      let none_left = internals-AllUsers t.infos h.users in
      record {
        unique = rw table (rw none_left tt);
        users = rw table (rw none_left tt);
        memory = inr (
          ap (λ (q : Result (Unit {0}) × Target World). q.1.process)
                (clear_all_eq os pid laws.memory_laws laws.writable code t regs runs read h.unique
                  patched)
              ∙ release_users_process os pid regs.rip t.infos t
              ∙ runs,
          rw table patched',
        );
      }

  -- `bc n`
  pub clear_index-Safe :
      (n : ℤ) (t : Target World) → Safe os pid code t → Safe os pid code (clear_index os n t).1
  unfolding clear_index
  clear_index-Safe n t h = with_pc-Safe _ t h λ regs runs read patched.
      let (table, unique, patched') =
        clear_index-IsPatched os pid laws.memory_laws laws.writable code t regs runs read h.unique
          patched n in
      record {
        unique = unique;
        users = rw table (
            removed regs runs read patched (find_index n 0 t.infos) (find_index-Removes n t.infos));
        memory = inr (
          ap (λ (q : Result (Unit {0}) × Target World). q.1.process)
                (clear_index_eq os pid laws.memory_laws laws.writable code t regs runs read h.unique
                  patched n)
              ∙ found_process regs.rip _ (find_index n 0 t.infos)
              ∙ runs,
          patched',
        );
      }
    where
      removed :
          (regs : PtraceRegs) (runs : t.process ≡ some pid) (read : get_regs t.world pid ≡ ok regs)
          (patched : IsPatched os pid code t.infos t.world) (r : Option (BInfo × List BInfo))
          → Removes n 0 t.infos r
          → AllUsers
              (left os pid laws.memory_laws laws.writable code t regs runs read h.unique patched r)
      removed regs runs read patched _ (absent none_there) = h.users
      removed regs runs read patched _ (nth xs ys v e is_u at) =
          AllUsers-remove xs ys v (subst AllUsers e h.users)

      found_process :
          (cur_pc : ℕ) (u : Target World) (r : Option (BInfo × List BInfo))
          → (clear_found os n cur_pc r u).1.process ≡ u.process
      found_process cur_pc u none = refl
      found_process cur_pc u (some (v, vs)) = release_process os (pid_of u.process) cur_pc v u
