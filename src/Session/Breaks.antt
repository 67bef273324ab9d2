-- ===== src/Session/Breaks.antt =====
-- `b` leads from a safe state to a safe one.
use godbg.Common.{
  ℕ, ◌≡◌, refl, sym, ap, ◌∙◌, inl, inr, true, Option, none, some, List, [], ◌∷◌, ◌++◌, arith,
}
use godbg.Common.Bytes.{Bytes}
use godbg.Common.Int.{ℤ}
use godbg.Common.Result.{has_existed_break_point, Result, ok, err, panic}
use godbg.Target.{BInfo, Os, Target, M, lift, >>=_keeps}
use godbg.Bi.{Bi, file_line_to_pc_for_break_point}
use godbg.Breakpoint.{
  is_user, find_break_point, set_pc_break_point, set_user_break_point, set_file_line_break_point,
}
use godbg.Breakpoint.Table.{
  HasUniquePcs, set_pc_break_point_table, set_user_break_point-HasUniquePcs,
}
use godbg.Breakpoint.Memory.{IsPatched}
use godbg.Breakpoint.FileLine.{
  set_file_line_break_point-IsPatched, set_file_line_break_point_refused,
}
use godbg.Listing.Keeps.{SameButOut}
use godbg.Executor.{pid_of, tell_added, break_command}
use godbg.Session.{AllUsers, SystemLaws, IsInText}
use godbg.Session.Runs.{Safe, Safe-SameButOut}
use mathlib.Core.Path.{subst}

AllUsers-snoc :
    (xs : List BInfo) (x : BInfo) → AllUsers xs → is_user x.kind ≡ true → AllUsers (xs ++ (x ∷ []))
AllUsers-snoc [] x h p = (p, tt)
AllUsers-snoc (y ∷ ys) x h p = (h.0, AllUsers-snoc ys x h.1 p)

module _ (os : Os) (pid : ℕ) (filename : Bytes) (lineno : ℤ) where
  open os use {World}

  set_pc_break_point_process :
      (pc : ℕ) (t : Target World) → (set_pc_break_point os pid pc t).1.process ≡ t.process
  unfolding set_pc_break_point
  set_pc_break_point_process pc t = ground arith

  set_user_break_point_process :
      (pc : ℕ) (t : Target World)
      → (set_user_break_point os pid filename lineno pc t).1.process ≡ t.process
  unfolding set_user_break_point
  set_user_break_point_process pc t =
      >>=_keeps (λ u. u.process ≡ t.process) (set_pc_break_point os pid pc) _ t
        (set_pc_break_point_process pc t) (λ original u _ k. k)

  set_user_break_point-AllUsers :
      (pc : ℕ) (t : Target World)
      → AllUsers t.infos
      → AllUsers (set_user_break_point os pid filename lineno pc t).1.infos
  unfolding set_user_break_point
  set_user_break_point-AllUsers pc t h =
      >>=_keeps (λ u. AllUsers u.infos) (set_pc_break_point os pid pc) _ t
        (rw (set_pc_break_point_table os pid pc t) h)
        (λ original u _ k. AllUsers-snoc u.infos _ k refl)

  -- What every breakpoint of the user keeps, `SetFileLineBreakPoint` keeps.
  set_file_line_break_point_keeps :
      (P : Target World → Type 0) (cwd : Result Bytes) (join : Bytes → Bytes → Bytes) (bi : Bi)
      (t : Target World)
      → P t
      → ((pc : ℕ) (u : Target World) → P u → P (set_user_break_point os pid filename lineno pc u).1)
      → P (set_file_line_break_point os cwd join bi pid filename lineno t).1
  unfolding set_file_line_break_point
  set_file_line_break_point_keeps P cwd join bi t h k = >>=_keeps P (lift cwd) _ t h (λ dir u _ g.
      >>=_keeps P (lift (file_line_to_pc_for_break_point bi (join dir filename) lineno)) _ u g
        (λ pc v _ f. k pc v f))

module _ (os : Os) (pid : ℕ) (code : ℕ → Option ℕ) (laws : SystemLaws os pid code) (bi : Bi)
    (in_text : IsInText bi code) (cwd : Result Bytes) (join : Bytes → Bytes → Bytes)
    (filename : Bytes) (lineno : ℤ) where
  open os use {World}

  abbrev Patched : Target World → Type 0
  Patched t = IsPatched os pid code t.infos t.world

  abbrev set_at : ℕ → M World BInfo
  set_at p = set_file_line_break_point os cwd join bi p filename lineno

  no_cwd : (p : ℕ) (t : Target World) → cwd ≡ panic → set_at p t ≡ (panic, t)
  unfolding set_file_line_break_point
  no_cwd p t h = ground (arith, h)

  set_at_panics :
      (p : ℕ) (dir : Bytes) (t : Target World)
      → cwd ≡ ok dir
      → file_line_to_pc_for_break_point bi (join dir filename) lineno ≡ panic
      → set_at p t ≡ (panic, t)
  unfolding set_file_line_break_point
  set_at_panics p dir t h k = ground (arith, h, k)

  set_at-Patched : (t : Target World) → Patched t → Patched (set_at pid t).1
  set_at-Patched t p = by_cwd cwd refl
    where
      unchanged : (r : Result BInfo) → set_at pid t ≡ (r, t) → Patched (set_at pid t).1
      unchanged r e = subst (λ (q : Result BInfo × Target World). Patched q.1) (sym e) p

      by_found :
          (dir : Bytes) (pc : ℕ) (o : Option BInfo)
          → cwd ≡ ok dir
          → file_line_to_pc_for_break_point bi (join dir filename) lineno ≡ ok pc
          → find_break_point t.infos pc ≡ o
          → Patched (set_at pid t).1
      by_found dir pc none in_dir found free =
          let (b, at_b) = in_text (join dir filename) lineno pc found in
          let (info, u, done, fields, table, q) =
            set_file_line_break_point-IsPatched os pid cwd join bi filename lineno t
              laws.memory_laws laws.writable code dir pc b in_dir found free at_b p in
          subst (λ (q : Result BInfo × Target World). Patched q.1) (sym done) q
      by_found dir pc (some v) in_dir found taken = unchanged (err has_existed_break_point) (
          set_file_line_break_point_refused os pid cwd join bi filename lineno t
            has_existed_break_point (inr (dir, in_dir, inr (refl, pc, v, found, taken))))

      by_line :
          (dir : Bytes) (r : Result ℕ)
          → cwd ≡ ok dir
          → file_line_to_pc_for_break_point bi (join dir filename) lineno ≡ r
          → Patched (set_at pid t).1
      by_line dir (ok pc) in_dir found =
          by_found dir pc (find_break_point t.infos pc) in_dir found refl
      by_line dir (err e) in_dir missing = unchanged (err e) (
          set_file_line_break_point_refused os pid cwd join bi filename lineno t e
            (inr (dir, in_dir, inl missing)))
      by_line dir panic in_dir panics = unchanged panic (set_at_panics pid dir t in_dir panics)

      by_cwd : (r : Result Bytes) → cwd ≡ r → Patched (set_at pid t).1
      by_cwd (ok dir) in_dir =
          by_line dir (file_line_to_pc_for_break_point bi (join dir filename) lineno) in_dir refl
      by_cwd (err e) no_dir =
          unchanged (err e)
            (set_file_line_break_point_refused os pid cwd join bi filename lineno t e (inl no_dir))
      by_cwd panic panics = unchanged panic (no_cwd pid t panics)

  kept_process : (t : Target World) (p : ℕ) → (set_at p t).1.process ≡ t.process
  kept_process t p =
      set_file_line_break_point_keeps os p filename lineno (λ u. u.process ≡ t.process) cwd join bi
        t refl (λ pc u k. set_user_break_point_process os p filename lineno pc u ∙ k)

  set_at-Safe :
      (t : Target World) → Safe os pid code t → Safe os pid code (set_at (pid_of t.process) t).1
  set_at-Safe t h = record {
    unique =
        set_file_line_break_point_keeps os (pid_of t.process) filename lineno
          (λ u. HasUniquePcs u.infos) cwd join bi t h.unique
          (λ pc u g.
            set_user_break_point-HasUniquePcs os (pid_of t.process) filename lineno pc u g);
    users =
        set_file_line_break_point_keeps os (pid_of t.process) filename lineno
          (λ u. AllUsers u.infos) cwd join bi t h.users
          (λ pc u g. set_user_break_point-AllUsers os (pid_of t.process) filename lineno pc u g);
    memory = elim h.memory [
      | inl gone ↦ inl (kept_process t (pid_of t.process) ∙ gone)
      | inr (runs, patched) ↦
          inr (
            kept_process t (pid_of t.process) ∙ runs,
            rw (ap pid_of runs) (set_at-Patched t patched),
          )
    ];
  }

  tell_added_same :
      (place : Bytes) (r : Result BInfo) (t : Target World)
      → SameButOut t (tell_added os place r t).1
  tell_added_same place r t = record {
    world = ground arith;
    table = ground arith;
    process = ground arith;
  }

  -- `b filename:line`
  pub break_command-Safe :
      (place : Bytes) (t : Target World)
      → Safe os pid code t
      → Safe os pid code (break_command os cwd join bi place filename lineno t).1
  unfolding break_command
  break_command-Safe place t h =
      Safe-SameButOut os pid code _ _
        (tell_added_same place (set_at (pid_of t.process) t).0 (set_at (pid_of t.process) t).1)
        (set_at-Safe t h)
