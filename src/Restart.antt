-- ===== src/Restart.antt =====
-- The command `restart` of prompt.go, and runexec of preparations.go.
pub mod Keeps
use godbg.Common.{ℕ, zero, suc, Option, none, some}
use godbg.Common.Bytes.{Bytes}
use godbg.Common.Int.{ℤ, pos, negsuc}
use godbg.Common.Result.{ok, panic}
use godbg.Output.{stopped, restarted}
use godbg.Target.{Os, M, ◌>>=◌, ◌>>◌, pure, lift, print, call}
use godbg.Breakpoint.{set_bp_when_restart}
use godbg.Executor.{reported}

-- The signal SIGSTOP.
abbrev pub sigstop : ℕ
sigstop = 19

-- A process group.
abbrev pub group_of : ℕ → ℤ
group_of zero = pos 0
group_of (suc n) = negsuc n

module _ (os : Os) where
  open os use {World, kill, start, wait_started}

  abbrev pub kill_group : ℕ → M World (Unit {0})
  kill_group pid t = (ok tt, record t { world = (kill t.world (group_of pid) sigstop).0 })

  -- The pid of the process that is started, once it has stopped at its first instruction.
  unfoldable pub runexec : Bytes → M World ℕ
  runexec execfile = do
    pid ← λ t. let (w, r) = start t.world execfile in (r, record t { world = w })
    call os λ w. wait_started w pid
    pure pid

  abbrev pub stop_old : Option ℕ → M World (Unit {0})
  stop_old none = pure tt
  stop_old (some zero) = kill_group 0
  stop_old (some (suc n)) = do kill_group (suc n); print (stopped (suc n))

  -- `target.cmd.Process.Pid`: the command of the target is the old one.
  abbrev pub set_again : Option ℕ → M World (Unit {0})
  set_again none = lift panic
  set_again (some pid) = set_bp_when_restart os pid

  abbrev pub restart : Bytes → M World (Unit {0})
  restart execfile = do
    λ t. stop_old t.process t
    pid ← runexec execfile
    λ t. set_again t.process t
    print (restarted pid)

  -- `r`
  unfoldable pub restart_command : Bytes → M World (Unit {0})
  unfolding runexec set_bp_when_restart
  restart_command execfile = reported (restart execfile)
