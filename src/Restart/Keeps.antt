-- ===== src/Restart/Keeps.antt =====
-- What `restart` leaves of the debugger's state.
use godbg.Common.{ℕ, zero, suc, ◌≡◌, refl, ◌∙◌, Option, none, some}
use godbg.Common.Bytes.{Bytes}
use godbg.Common.Result.{Error, Result, ok, err, panic}
use godbg.Target.{Os, Target, M, after, ◌>>=◌, pure, result_of, call, >>=_keeps}
use godbg.Breakpoint.Table.{
  HasUniquePcs, set_bp_when_restart-HasUniquePcs, set_bp_when_restart_process,
}
use godbg.Executor.{report, reported}
use godbg.Restart.{runexec, restart_command, stop_old, set_again, restart}

module _ (os : Os) where
  open os use {World, start, wait_started}

  abbrev Keeps : Target World → Target World → Type 0
  Keeps t u = HasUniquePcs u.infos × (u.process ≡ t.process)

  reported-Keeps :
      (t : Target World) (m : M World (Unit {0})) → Keeps t (m t).1 → Keeps t (reported m t).1
  reported-Keeps t m h = cases (m t).0 (m t).1 h
    where
      cases : (r : Result (Unit {0})) (u : Target World) → Keeps t u → Keeps t (report r u).1
      cases (ok x) u k = k
      cases (err e) u k = k
      cases panic u k = k

  stop_old-Keeps :
      (t : Target World) (p : Option ℕ) → HasUniquePcs t.infos → Keeps t (stop_old os p t).1
  stop_old-Keeps t none h = (h, refl)
  stop_old-Keeps t (some zero) h = (h, refl)
  stop_old-Keeps t (some (suc n)) h = (h, refl)

  runexec-Keeps :
      (t u : Target World) (execfile : Bytes) → Keeps t u → Keeps t (runexec os execfile u).1
  unfolding runexec
  runexec-Keeps t u execfile h = cases (start u.world execfile).1
    where
      w1 : World
      w1 = (start u.world execfile).0

      behind_wait :
          (pid : ℕ) (o : Option Error)
          → Keeps t
              (after {B = ℕ}
                (λ _. pure pid)
                (result_of o)
                (record u { world = (wait_started w1 pid).0 })).1
      behind_wait pid none = h
      behind_wait pid (some e) = h

      cases :
          (r : Result ℕ)
          → Keeps t
              (after
                (λ pid. call os (λ w. wait_started w pid) >>= λ _. pure pid)
                r
                (record u { world = w1 })).1
      cases (ok pid) = behind_wait pid (wait_started w1 pid).1
      cases (err e) = h
      cases panic = h

  set_again-Keeps : (t u : Target World) (p : Option ℕ) → Keeps t u → Keeps t (set_again os p u).1
  set_again-Keeps t u none h = h
  set_again-Keeps t u (some pid) h =
      (set_bp_when_restart-HasUniquePcs os pid u h.0, set_bp_when_restart_process os pid u ∙ h.1)

  -- Where the table has one breakpoint at most for a pc, it has behind `restart`, whatever the system
  -- calls answer; and the process of the target is still the one before: the command that is started
  -- does not become the target's.
  pub restart_command_keeps :
      (execfile : Bytes) (t : Target World)
      → HasUniquePcs t.infos
      → HasUniquePcs (restart_command os execfile t).1.infos
        × ((restart_command os execfile t).1.process ≡ t.process)
  unfolding restart_command
  restart_command_keeps execfile t h = reported-Keeps t (restart os execfile) (
      >>=_keeps (Keeps t) (λ u. stop_old os u.process u) _ t (stop_old-Keeps t t.process h)
        (λ _ u _ k.
          >>=_keeps (Keeps t) (runexec os execfile) _ u (runexec-Keeps t u execfile k) (λ pid v _ l.
            >>=_keeps (Keeps t) (λ v. set_again os v.process v) _ v
              (set_again-Keeps t v v.process l) (λ _ w _ m. m))))
