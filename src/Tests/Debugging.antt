-- ===== src/Tests/Debugging.antt =====
-- Breakpoints on a machine.
use godbg.Common.{
  ℕ, ◌≡◌, ◌%◌, refl, sym, ap, arith, Option, none, some, [], ◌∷◌, ◌==◌, if◌then◌else◌,
}
use godbg.Common.Bytes.{codes}
use godbg.Common.Int.{pos}
use godbg.Common.Result.{ok}
use godbg.Target.{Target, PtraceRegs, BInfo, user}
use godbg.Session.Rearms.{set_bp_when_restart-IsPatched}
use godbg.Breakpoint.{
  set_bp_when_restart, find_break_point, set_user_break_point, disable_break_point,
}
use godbg.Breakpoint.Memory.{IsPatched}
use godbg.Breakpoint.Table.{HasUniquePcs}
use godbg.Tests.Machine.{machine-MemoryLaws, machine-IsWritable, Machine, write, os}

abbrev pub regs : PtraceRegs
regs = record { rip = 0x1000; rsp = 0x7000; rbp = 0x7100; others = [] }

-- The program text: the byte at each address is the address modulo 256.
abbrev text : ℕ → ℕ
text a = a % 256

abbrev pub code : ℕ → Option ℕ
code a = some (text a)

abbrev fresh : Target Machine
fresh = record {
  world = record { mem = text; regs = regs; steps = 9 };
  infos = [];
  process = some 42;
  out = [];
}

abbrev pub info : BInfo
info = record {
  original = 0x10 ∷ [];
  filename = codes "t.go";
  lineno = pos 3;
  pc = 0x1010;
  kind = user;
}

abbrev pub armed : Target Machine
armed = record {
  world = record { mem = write text 0x1010 (0xCC ∷ []); regs = regs; steps = 9 };
  infos = info ∷ [];
  process = some 42;
  out = [];
}

fresh-IsPatched : IsPatched os 42 code [] fresh.world
unfolding find_break_point
fresh-IsPatched = record { plain = λ a b e free. cc; armed = λ a v found. cc }

set_it : set_user_break_point os 42 (codes "t.go") (pos 3) 0x1010 fresh ≡ (ok info, armed)
unfolding set_user_break_point
set_it = refl

pub armed-IsPatched : IsPatched os 42 code (info ∷ []) armed.world
unfolding find_break_point
armed-IsPatched = record {
  plain = λ a b e free. ground arith;
  armed = λ a v found.
      let at : a ≡ 0x1010 = ground arith in
      let same : info ≡ v = ground arith in
      rw at (ground arith, 0x10, refl, ap (λ (x : BInfo). x.original) (sym same));
}

abbrev disarmed : Target Machine
disarmed = record armed {
  world = record { mem = write armed.world.mem 0x1010 (0x10 ∷ []); regs = regs; steps = 9 };
}

disable_it : disable_break_point os 42 (some info) armed ≡ (ok tt, disarmed)
unfolding disable_break_point
disable_it = refl

found_it : find_break_point (info ∷ []) 0x1010 ≡ some info
unfolding find_break_point
found_it = refl

without_it :
    (a : ℕ) → find_break_point [] a ≡ (if a == 0x1010 then none else find_break_point (info ∷ []) a)
unfolding find_break_point
without_it a = ground arith

pub armed-HasUniquePcs : HasUniquePcs armed.infos
unfolding find_break_point
armed-HasUniquePcs = (refl, tt)

-- The process that has just been started, with the table of the one before.
abbrev restarted : Target Machine
restarted = record fresh { infos = info ∷ [] }

set_bp_when_restart-IsPatched_example :
    (w : Machine) × (set_bp_when_restart os 42 restarted ≡ (ok tt, record restarted { world = w }))
    × IsPatched os 42 code (info ∷ []) w
unfolding find_break_point
set_bp_when_restart-IsPatched_example =
    set_bp_when_restart-IsPatched os 42 code (machine-MemoryLaws 42) (machine-IsWritable 42)
      restarted armed-HasUniquePcs (refl, tt)
      (λ a v found.
        let at : a ≡ 0x1010 = ground arith in
        let same : info ≡ v = ground arith in
        rw at (0x10, refl, ap (λ (x : BInfo). x.original) (sym same)))
      (λ a b at. cc)
