-- ===== src/Tests/Machine.antt =====
-- A machine whose memory is a function, and which meets the laws of memory.
use Prim.Native.Nat.{ℕ, zero, suc, ◌+◌, ◌-◌, ◌%◌, ◌^◌}
use godbg.Common.{refl, ◌≡◌, ◌≢◌, ap, arith, Option, none, some, [], ◌∷◌, ◌==◌, if◌then◌else◌}
use godbg.Common.Bytes.{Bytes}
use godbg.Common.Result.{Error, ok}
use godbg.Target.{Os, PtraceRegs}
use godbg.Breakpoint.Memory.{MemoryLaws, IsWritable}
use godbg.Breakpoint.Loose.{TextLaws}

pub record Machine : Type 0 where
  pub mem : ℕ → ℕ
  pub regs : PtraceRegs
  -- The instructions that the process has left.
  pub steps : ℕ

abbrev bytes_at : (ℕ → ℕ) → ℕ → ℕ → Bytes
bytes_at mem a zero = []
bytes_at mem a (suc n) = mem a ∷ bytes_at mem (a + 1) n

abbrev pub write : (ℕ → ℕ) → ℕ → Bytes → ℕ → ℕ
write mem a [] = mem
write mem a (b ∷ bs) = write (λ k. if k == a then b else mem k) (a + 1) bs

-- Five lines, the last with no end.
abbrev pub source_text : Bytes
source_text = b'a' ∷ 10 ∷ b'b' ∷ 10 ∷ b'c' ∷ 10 ∷ 10 ∷ b'e' ∷ []

abbrev pub os : Os
os = record {
  World = Machine;
  peek = λ w pid a n. ok (bytes_at w.mem a n);
  poke = λ w pid a bs. (record w { mem = write w.mem a bs }, none);
  get_regs = λ w pid. ok (record (w.regs) { rip = w.regs.rip % 2 ^ 64 });
  set_regs = λ w pid regs. (record w { regs = regs }, none);
  single_step = λ w pid.
      (record w { regs = record (w.regs) { rip = w.regs.rip + 1 }; steps = w.steps - 1 }, none);
  cont = λ w pid. (w, none);
  wait4 = λ w pid. (w, ok (pid, record { exited = w.steps == 0; stop_signal = some 5 }));
  kill = λ w pid signal. (w, none);
  read_file = λ w name. ok source_text;
  start = λ w name. (w, ok 43);
  wait_started = λ w pid. (w, none);
}

pub machine-MemoryLaws : (pid : ℕ) → MemoryLaws os pid
machine-MemoryLaws pid = record {
  peek_one = λ w a bs e. (w.mem a, cc);
  peek_poke = λ w w' a x e. peek_write w w' a x e;
  peek_poke_other = λ w w' a b x ne e. peek_write_other w w' a b x ne e;
  peek_set_regs = λ w regs a. refl;
}
  where
    peek_write :
        (w w' : Machine) (a x : ℕ)
        → os.poke w pid a (x ∷ []) ≡ (w', none)
        → os.peek w' pid a 1 ≡ ok (x ∷ [])
    peek_write w w' a x e =
        let now = ap (λ (p : Machine × Option Error). p.0.mem a) e in ground (arith, now)

    peek_write_other :
        (w w' : Machine) (a b x : ℕ)
        → a ≢ b
        → os.poke w pid a (x ∷ []) ≡ (w', none)
        → os.peek w' pid b 1 ≡ os.peek w pid b 1
    peek_write_other w w' a b x ne e =
        let now = ap (λ (p : Machine × Option Error). p.0.mem b) e in ground (arith, now)

pub machine-IsWritable : (pid : ℕ) → IsWritable os pid
machine-IsWritable pid = record { writes = λ w a x bs readable. refl }

pub machine-TextLaws : (pid : ℕ) (code : ℕ → Option ℕ) → TextLaws os pid code
machine-TextLaws pid code = record {
  step_keeps = λ w a b at. refl;
  cont_keeps = λ w a b at. refl;
  wait_keeps = λ w a b at alive. refl;
}
