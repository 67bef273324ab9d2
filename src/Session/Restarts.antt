-- ===== src/Session/Restarts.antt =====
-- `restart` leads from a safe state to a safe one.
use godbg.Common.{
  set, All, ℕ, zero, suc, ◌≡◌, refl, sym, ap, ◌∙◌, ◌⊎◌, inl, inr, Option, none, some, List, [], ◌∷◌,
  ◌++◌,
}
use godbg.Common.Bytes.{Bytes}
use godbg.Common.Result.{ok}
use godbg.Output.{stopped, restarted}
use godbg.Target.{BInfo, Os, Target, call, >>=_keeps}
use godbg.Breakpoint.{find_break_point, enable_break_point, restart_loop, set_bp_when_restart}
use godbg.Breakpoint.Table.{HasUniquePcs}
use godbg.Breakpoint.Memory.{IsPatched}
use godbg.Breakpoint.Loose.{
  IsLoose, IsLoose-IsPatched, IsPatched-IsLoose, SameText, IsLoose-SameText,
}
use godbg.Listing.Keeps.{SameButOut}
use godbg.Executor.{reported}
use godbg.Step.Rounds.{Running, Ends}
use godbg.Step.Loop.{Running-SameButOut, put_back-Leaves}
use godbg.Step.{put_back}
use godbg.Restart.{sigstop, group_of, runexec, stop_old, set_again, restart, restart_command}
use godbg.Executor.Clear.{find_break_point-middle}
use godbg.Session.{AllUsers, SystemLaws}
use godbg.Session.Quiet.{IsQuiet-print, report_same}
use godbg.Session.Runs.{Safe, Safe-table}
use mathlib.Core.Path.{subst}
use mathlib.Core.List.{append_assoc}

module _ (os : Os) (pid : ℕ) (code : ℕ → Option ℕ) (laws : SystemLaws os pid code)
    (infos : List BInfo) where
  open os use {World, kill, start, wait_started}

  abbrev Kept : Target World → Type 0
  Kept = Ends os pid code infos laws.memory_laws laws.writable laws.text []

  Kept-world :
      (t : Target World) (w : World)
      → SameText os pid code infos t.world w
      → Kept t
      → Kept (record t { world = w })
  Kept-world t w same h = record {
    table = h.table;
    process = elim h.process [
      | inl gone ↦ inl gone
      | inr k ↦ inr (record {
        runs = k.runs;
        table = k.table;
        loose = IsLoose-SameText os pid code infos [] t.world w same k.loose;
      })
    ];
  }

  Kept-SameButOut : (t u : Target World) → SameButOut t u → Kept t → Kept u
  Kept-SameButOut t u s h = record {
    table = s.table ∙ h.table;
    process = elim h.process [
      | inl gone ↦ inl (s.process ∙ gone)
      | inr k ↦
          inr (
            Running-SameButOut os pid code infos laws.memory_laws laws.writable laws.text [] t u s
              k)
    ];
  }

  stop_old-Kept : (t : Target World) (p : Option ℕ) → Kept t → Kept (stop_old os p t).1
  stop_old-Kept t none h = h
  stop_old-Kept t (some zero) h = Kept-world t _ (laws.stop_keeps t.world (group_of 0)) h
  stop_old-Kept t (some (suc n)) h =
      let u = record t { world = (kill t.world (group_of (suc n)) sigstop).0 } in
      Kept-SameButOut u _ ((IsQuiet-print (stopped (suc n))).same u)
        (Kept-world t _ (laws.stop_keeps t.world (group_of (suc n))) h)

  runexec-Kept : (execfile : Bytes) (t : Target World) → Kept t → Kept (runexec os execfile t).1
  unfolding runexec
  runexec-Kept execfile t h =
      >>=_keeps Kept
        (λ u. ((start u.world execfile).1, record u { world = (start u.world execfile).0 })) _ t
        (Kept-world t _ (laws.start_keeps t.world execfile) h)
        (λ new u _ k.
          >>=_keeps Kept (call os λ w. wait_started w new) _ u
            (Kept-world u _ (laws.wait_started_keeps u.world new) k) (λ _ v _ m. m))

  -- A breakpoint that is in place is written again.
  enabled-Kept :
      (v : BInfo) (t : Target World)
      → find_break_point infos v.pc ≡ some v
      → Kept t
      → Kept (enable_break_point os pid (some v) t).1
  unfolding put_back
  enabled-Kept v t found h =
      put_back-Leaves os pid code infos laws.memory_laws laws.writable laws.text [] v
        (some (ok tt, t)) found
        (record {
          table = h.table;
          process = elim h.process [
            | inl gone ↦ inl gone
            | inr k ↦ inr (record { runs = k.runs; table = k.table; loose = looser k.loose })
          ];
        })
    where
      looser : IsLoose os pid code [] infos t.world → IsLoose os pid code (v.pc ∷ []) infos t.world
      looser p = record {
        plain = p.plain;
        armed = λ a u at.
            let (b, at_b, saved, now) = p.armed a u at in
            (b, at_b, saved, elim now [ inl set ↦ inl set | inr out ↦ absurd out.0 ]);
      }

  restart_loop-Kept :
      (vs : List BInfo) (t : Target World)
      → AllUsers vs
      → All (λ v. find_break_point infos v.pc ≡ some v) vs
      → Kept t
      → Kept (restart_loop os pid vs t).1
  unfolding restart_loop
  restart_loop-Kept [] t users there h = h
  restart_loop-Kept (v ∷ vs) t users there h = rw users.0 (
      >>=_keeps Kept (enable_break_point os pid (some v)) (λ _. restart_loop os pid vs) t
        (enabled-Kept v t there.0 h) (λ _ u _ k. restart_loop-Kept vs u users.1 there.1 k))

pub found_in_place :
    (infos front vs : List BInfo)
    → infos ≡ front ++ vs
    → HasUniquePcs infos
    → All (λ v. find_break_point infos v.pc ≡ some v) vs
found_in_place infos front [] e h = tt
found_in_place infos front (v ∷ vs) e h = (
  subst (λ l. find_break_point l v.pc ≡ some v) (sym e)
      (find_break_point-middle front vs v (subst HasUniquePcs e h)),
  found_in_place infos (front ++ (v ∷ [])) vs (e ∙ sym (append_assoc front (v ∷ []) vs)) h,
)

module _ (os : Os) (pid : ℕ) (code : ℕ → Option ℕ) (laws : SystemLaws os pid code) where
  open os use {World}

  set_again-Kept :
      (infos : List BInfo) (t : Target World)
      → HasUniquePcs infos
      → AllUsers infos
      → Kept os pid code laws infos t
      → Kept os pid code laws infos (set_again os t.process t).1
  unfolding set_bp_when_restart
  set_again-Kept infos t unique users h = elim h.process [
    | inl gone ↦ rw (ap (λ p. set_again os p t) gone) h
    | inr k ↦ rw (ap (λ p. set_again os p t) k.runs) (
        subst (λ vs. Kept os pid code laws infos (restart_loop os pid vs t).1) (sym h.table)
          (restart_loop-Kept os pid code laws infos infos t users
            (found_in_place infos [] infos refl unique) h))
  ]

  -- `r`
  pub restart_command-Safe :
      (execfile : Bytes) (t : Target World)
      → Safe os pid code t
      → Safe os pid code (restart_command os execfile t).1
  unfolding restart_command
  restart_command-Safe execfile t h =
      let k = kept in
      Safe-table os pid code t _ h k.table (ended (reported (restart os execfile) t).1 k.process)
    where
      ended :
          (u : Target World)
          → (u.process ≡ none)
            ⊎ Running os pid code t.infos laws.memory_laws laws.writable laws.text [] u
          → (u.process ≡ none) ⊎ ((u.process ≡ some pid) × IsPatched os pid code t.infos u.world)
      ended u (inl gone) = inl gone
      ended u (inr k) = inr (k.runs, IsPatched-IsLoose os pid code t.infos u.world k.loose)

      at_start : Kept os pid code laws t.infos t
      at_start = record {
        table = refl;
        process = elim h.memory [
          | inl gone ↦ inl gone
          | inr (runs, patched) ↦ inr (record {
            runs = runs;
            table = refl;
            loose = IsLoose-IsPatched os pid code t.infos t.world patched;
          })
        ];
      }

      restarted_Kept : Kept os pid code laws t.infos (restart os execfile t).1
      restarted_Kept =
          >>=_keeps (Kept os pid code laws t.infos) (λ u. stop_old os u.process u) _ t
            (stop_old-Kept os pid code laws t.infos t t.process at_start)
            (λ _ u _ k.
              >>=_keeps (Kept os pid code laws t.infos) (runexec os execfile) _ u
                (runexec-Kept os pid code laws t.infos execfile u k)
                (λ new v _ l.
                  >>=_keeps (Kept os pid code laws t.infos) (λ v. set_again os v.process v) _ v
                    (set_again-Kept t.infos v h.unique h.users l)
                    (λ _ w _ m.
                      Kept-SameButOut os pid code laws t.infos w _
                        ((IsQuiet-print (restarted new)).same w) m)))

      kept : Kept os pid code laws t.infos (reported (restart os execfile) t).1
      kept =
          Kept-SameButOut os pid code laws t.infos (restart os execfile t).1 _
            (report_same (restart os execfile t).0 (restart os execfile t).1) restarted_Kept
