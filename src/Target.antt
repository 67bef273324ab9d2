-- ===== src/Target.antt =====
-- target.go and register.go: the debugger's state, and the system calls that it makes on the traced
-- process. The operating system is the parameter `Os`.
use godbg.Common.{
  ◌≡◌, refl, ap, ℕ, ◌+◌, ◌-◌, ◌%◌, ◌^◌, Bool, Option, none, some, List, [], ◌∷◌, ◌++◌, take,
  replicate,
}
use godbg.Common.Bytes.{Bytes}
use godbg.Common.Int.{ℤ}
use godbg.Common.Result.{Error, Result, ok, err, panic, no_process_runing}
use godbg.Output.{Message}
pub use godbg.Info.{BpKind, user, internal, BInfo}

-- `syscall.PtraceRegs`: the registers that the program names, and the others.
pub record PtraceRegs : Type 0 where
  pub rip : ℕ
  pub rsp : ℕ
  pub rbp : ℕ
  pub others : List ℕ

-- What the methods of a `syscall.WaitStatus` answer; `none` is a stop signal of -1.
pub record WaitStatus : Type 0 where
  pub exited : Bool
  pub stop_signal : Option ℕ

-- The system calls, with the process and the arguments behind the state of the machine. A call that
-- fails may have changed the machine. `read_file` opens a file and reads it whole; `start` is
-- `cmd.Start`, with the pid, and `wait_started` is the `cmd.Wait` behind it, whose error is none also
-- where the text of the error is that of the trap at the start.
pub record Os : Type 1 where
  pub World : Type 0
  pub peek : World → ℕ → ℕ → ℕ → Result Bytes
  pub poke : World → ℕ → ℕ → Bytes → World × Option Error
  pub get_regs : World → ℕ → Result PtraceRegs
  pub set_regs : World → ℕ → PtraceRegs → World × Option Error
  pub single_step : World → ℕ → World × Option Error
  pub cont : World → ℕ → World × Option Error
  pub wait4 : World → ℕ → World × Result (ℕ × WaitStatus)
  pub kill : World → ℤ → ℕ → World × Option Error
  pub read_file : World → Bytes → Result Bytes
  pub start : World → Bytes → World × Result ℕ
  pub wait_started : World → ℕ → World × Option Error

-- `target`, without the tables of `bi`: the machine, `bp.infos`, the pid of `cmd.Process`, which is nil
-- once the process has ended, and what has been printed.
pub record Target (W : Type 0) : Type 0 where
  pub world : W
  pub infos : List BInfo
  pub process : Option ℕ
  pub out : List Message

abbrev pub M : Type 0 → Type 0 → Type 0
M W A = Target W → Result A × Target W

module _ {W : Type 0} where
  abbrev pub after : {A B : Type 0} → (A → M W B) → Result A → M W B
  after f (ok a) t = f a t
  after f (err e) t = (err e, t)
  after f panic t = (panic, t)

  infixl 5 ◌>>=◌ ◌>>◌
  abbrev pub ◌>>=◌ : {A B : Type 0} → M W A → (A → M W B) → M W B
  ◌>>=◌ m f t = let (r, t') = m t in after f r t'

  abbrev pub ◌>>◌ : {B : Type 0} → M W (Unit {0}) → M W B → M W B
  m >> k = m >>= λ _. k

  abbrev pub pure : {A : Type 0} → A → M W A
  pure a t = (ok a, t)

  abbrev pub fail : {A : Type 0} → Error → M W A
  fail e t = (err e, t)

  -- A computation that reads no state.
  abbrev pub lift : {A : Type 0} → Result A → M W A
  lift r t = (r, t)

  abbrev pub print : Message → M W (Unit {0})
  print m t = (ok tt, record t { out = t.out ++ (m ∷ []) })

  -- `defer d()`, for the rest of a function: `d` runs last, and its error is dropped.
  abbrev pub deferred : {A : Type 0} → M W (Unit {0}) → M W A → M W A
  deferred d body t = let (r, t') = body t in (r, (d t').1)

-- A buffer of `n` zero bytes into which `bytes` are read.
abbrev pub filled : ℕ → Bytes → Bytes
filled n bytes = take n (bytes ++ replicate n 0)

-- `pc - 1` on a uint64.
abbrev pub before : ℕ → ℕ
before pc = (pc + 2 ^ 64 - 1) % 2 ^ 64

abbrev pub result_of : Option Error → Result (Unit {0})
result_of none = ok tt
result_of (some e) = err e

module _ (os : Os) where
  open os use {World, peek, poke, get_regs, set_regs, single_step, cont, wait4}

  -- A system call that changes the machine.
  abbrev pub call : (World → World × Option Error) → M World (Unit {0})
  call f t = let (w, e) = f t.world in (result_of e, record t { world = w })

  abbrev pub peek_data : ℕ → ℕ → ℕ → M World Bytes
  peek_data pid addr n t = elim (peek t.world pid addr n) [
    | ok bytes ↦ (ok (filled n bytes), t)
    | err e ↦ (err e, t)
    | panic ↦ (panic, t)
  ]

  abbrev pub poke_data : ℕ → ℕ → Bytes → M World (Unit {0})
  poke_data pid addr bytes = call λ w. poke w pid addr bytes

  abbrev pub ptrace_single_step : ℕ → M World (Unit {0})
  ptrace_single_step pid = call λ w. single_step w pid

  abbrev pub wait_4 : ℕ → M World (ℕ × WaitStatus)
  wait_4 pid t = let (w, r) = wait4 t.world pid in (r, record t { world = w })

  abbrev pub process_regs : Option ℕ → M World PtraceRegs
  process_regs none t = (err no_process_runing, t)
  process_regs (some pid) t = (get_regs t.world pid, t)

  abbrev pub get_registers : M World PtraceRegs
  get_registers t = process_regs t.process t

  abbrev pub get_ptrace_pc : M World ℕ
  get_ptrace_pc = do prs ← get_registers; pure prs.rip

  abbrev pub get_ptrace_bp : M World ℕ
  get_ptrace_bp = do prs ← get_registers; pure prs.rbp

  -- Behind `getRegisters` the process is there.
  abbrev pub write_regs : Option ℕ → PtraceRegs → M World (Unit {0})
  write_regs none prs t = (panic, t)
  write_regs (some pid) prs t = call (λ w. set_regs w pid prs) t

  abbrev pub set_pc_register : ℕ → M World (Unit {0})
  set_pc_register pc = do prs ← get_registers; λ t. write_regs t.process (record prs { rip = pc }) t

-- The outcomes of a bind.
module _ {W A B : Type 0} (m : M W A) (f : A → M W B) {t t' : Target W} where
  pub >>=_ok : {a : A} → m t ≡ (ok a, t') → (m >>= f) t ≡ f a t'
  >>=_ok e = ap (λ (p : Result A × Target W). after f p.0 p.1) e

  pub >>=_err : {x : Error} → m t ≡ (err x, t') → (m >>= f) t ≡ (err x, t')
  >>=_err e = ap (λ (p : Result A × Target W). after f p.0 p.1) e

  pub >>=_panic : m t ≡ (panic, t') → (m >>= f) t ≡ (panic, t')
  >>=_panic e = ap (λ (p : Result A × Target W). after f p.0 p.1) e

-- Inversion of a bind that succeeds.
module _ {W A B : Type 0} (m : M W A) (f : A → M W B) (t : Target W) {t' : Target W} {b : B} where
  pub >>=_eq_ok :
      (m >>= f) t ≡ (ok b, t') → (a : A) × (u : Target W) × (m t ≡ (ok a, u)) × (f a u ≡ (ok b, t'))
  >>=_eq_ok e = cases (m t).0 (m t).1 refl e
    where
      cases :
          (r : Result A) (u : Target W)
          → m t ≡ (r, u)
          → after f r u ≡ (ok b, t')
          → (a : A) × (u' : Target W) × (m t ≡ (ok a, u')) × (f a u' ≡ (ok b, t'))
      cases (ok a) u h k = (a, u, h, k)
      cases (err x) u h k = cc
      cases panic u h k = cc

-- A property of the state holds behind a bind, if it does behind each outcome of its first part.
module _ {W A B : Type 0} (P : Target W → Type 0) (m : M W A) (f : A → M W B) (t : Target W) where
  pub >>=_keeps :
      P (m t).1
      → ((a : A) (t' : Target W) → m t ≡ (ok a, t') → P t' → P (f a t').1)
      → P ((m >>= f) t).1
  >>=_keeps h k = cases (m t).0 (m t).1 refl h
    where
      cases : (r : Result A) (t' : Target W) → m t ≡ (r, t') → P t' → P (after f r t').1
      cases (ok a) t' e p = k a t' e p
      cases (err x) t' e p = p
      cases panic t' e p = p
