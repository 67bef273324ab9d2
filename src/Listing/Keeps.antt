-- ===== src/Listing/Keeps.antt =====
-- A listing changes what has been printed, and nothing else.
use godbg.Common.{
  if◌then◌else◌, ℕ, ◌≡◌, refl, sym, ap, ◌∙◌, Bool, true, false, Option, none, some, List,
}
use godbg.Common.Bytes.{Bytes}
use godbg.Common.Int.{ℤ, pos, add64, sub64, at_most_zero, pos_part}
use godbg.Common.Result.{wrong_range, Result, ok, err, panic}
use godbg.Output.{ListedLine}
use godbg.Bi.{Bi, pc_to_file_line}
use godbg.Target.{
  PtraceRegs, Os, Target, M, after, pure, fail, lift, process_regs, get_ptrace_pc, >>=_keeps,
}
use godbg.Listing.{
  list_lines, range_min, range_max, can_make, ended, list_file_line, list_file_line_by_ptrace_pc,
  show, list_opened,
}

-- The machine, the table and the process are those of `t`.
pub record SameButOut {W : Type 0} (t u : Target W) : Type 0 where
  pub world : u.world ≡ t.world
  pub table : u.infos ≡ t.infos
  pub process : u.process ≡ t.process

module _ (os : Os) where
  open os use {World, get_regs, read_file}

  pub get_ptrace_pc_state : (t : Target World) → (get_ptrace_pc os t).1 ≡ t
  get_ptrace_pc_state t = by_process t.process
    where
      read : Result PtraceRegs × Target World → Result ℕ × Target World
      read p = after (λ prs. pure prs.rip) p.0 p.1

      by_regs : (r : Result PtraceRegs) → (read (r, t)).1 ≡ t
      by_regs (ok prs) = refl
      by_regs (err e) = refl
      by_regs panic = refl

      by_process : (p : Option ℕ) → (read (process_regs os p t)).1 ≡ t
      by_process none = refl
      by_process (some pid) = by_regs (get_regs t.world pid)

  show_same :
      (filename : Bytes) (lineno : ℤ) (r : Result (List ListedLine)) (t : Target World)
      → SameButOut t (show os filename lineno r t).1
  show_same filename lineno (ok rows) t = record { world = refl; table = refl; process = refl }
  show_same filename lineno (err e) t = record { world = refl; table = refl; process = refl }
  show_same filename lineno panic t = record { world = refl; table = refl; process = refl }

  pub list_file_line_same :
      (filename : Bytes) (lineno rangeline : ℤ) (t : Target World)
      → SameButOut t (list_file_line os filename lineno rangeline t).1
  unfolding list_file_line
  list_file_line_same filename lineno rangeline t =
      by_range (at_most_zero (sub64 (range_max lineno rangeline) (range_min lineno rangeline)))
    where
      low : ℤ
      low = range_min lineno rangeline

      high : ℤ
      high = range_max lineno rangeline

      shown : Bool → Bytes → M World (Unit {0})
      shown b bytes =
          if b
          then show os filename lineno
              (ended (list_lines (pos_part low) (pos_part high) lineno bytes))
          else lift panic

      by_size : (b : Bool) (bytes : Bytes) → SameButOut t (shown b bytes t).1
      by_size true bytes = show_same filename lineno _ t
      by_size false bytes = record { world = refl; table = refl; process = refl }

      by_file :
          (r : Result Bytes)
          → SameButOut t
              (after (λ bytes. shown (can_make (add64 (sub64 high low) (pos 2))) bytes) r t).1
      by_file (ok bytes) = by_size _ bytes
      by_file (err e) = record { world = refl; table = refl; process = refl }
      by_file panic = record { world = refl; table = refl; process = refl }

      by_range :
          (b : Bool)
          → SameButOut t
              ((if b then fail wrong_range else list_opened os filename lineno low high) t).1
      by_range true = record { world = refl; table = refl; process = refl }
      by_range false = by_file (read_file t.world filename)

  pub list_file_line_by_ptrace_pc_same :
      (bi : Bi) (rangeline : ℤ) (t : Target World)
      → SameButOut t (list_file_line_by_ptrace_pc os bi rangeline t).1
  unfolding list_file_line_by_ptrace_pc
  list_file_line_by_ptrace_pc_same bi rangeline t =
      >>=_keeps (SameButOut t) (get_ptrace_pc os) _ t
        (rw (get_ptrace_pc_state t) (record { world = refl; table = refl; process = refl }))
        (λ pc t' e _.
          let same : t' ≡ t =
            sym (ap (λ (p : Result ℕ × Target World). p.1) e) ∙ get_ptrace_pc_state t in
          rw same (by_place (pc_to_file_line bi pc)))
    where
      by_place :
          (r : Result (Bytes × ℤ))
          → SameButOut t
              (after (λ (place : Bytes × ℤ). list_file_line os place.0 place.1 rangeline) r t).1
      by_place (ok (f, l)) = list_file_line_same f l rangeline t
      by_place (err e) = record { world = refl; table = refl; process = refl }
      by_place panic = record { world = refl; table = refl; process = refl }
