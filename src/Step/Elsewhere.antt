-- ===== src/Step/Elsewhere.antt =====
-- When `step` stops looking: the process is on another line, and no write to its memory takes it back.
use godbg.Common.{
  if◌then◌else◌, ℕ, ◌≡◌, refl, ap, ◌∙◌, ◌⊎◌, inl, inr, Bool, true, false, Option, none, some,
}
use godbg.Common.Bytes.{Bytes}
use godbg.Common.Int.{pos}
use godbg.Common.Result.{Result, ok, err, panic}
use godbg.Output.{current_pc}
use godbg.Target.{
  BInfo, PtraceRegs, Os, Target, after, ◌>>=◌, pure, lift, print, before, process_regs,
  get_ptrace_pc,
}
use godbg.Bi.{Bi, pc_to_file_line}
use godbg.Breakpoint.{find_break_point, disable_break_point}
use godbg.Step.{Place, same_place, Look, arrived, stay, disarm_found, disarm, arrive, look}
use godbg.Listing.{list_file_line_by_ptrace_pc}
use godbg.Listing.Keeps.{SameButOut, get_ptrace_pc_state, list_file_line_by_ptrace_pc_same}

module _ (os : Os) where
  open os use {World, get_regs, poke}

  -- PTRACE_POKEDATA changes no register.
  abbrev pub PokeKeepsRegs : Type 0
  PokeKeepsRegs =
      (w : World) (p a : ℕ) (bs : Bytes) (q : ℕ) → get_regs (poke w p a bs).0 q ≡ get_regs w q

  abbrev pc_in : Result PtraceRegs → Target World → Result ℕ
  pc_in r t = (after (λ (prs : PtraceRegs). pure prs.rip) r t).0

  pc_in_any : (r : Result PtraceRegs) (t u : Target World) → pc_in r u ≡ pc_in r t
  pc_in_any (ok prs) t u = refl
  pc_in_any (err e) t u = refl
  pc_in_any panic t u = refl

  -- The pc is that of another state with the same process and the same registers.
  pc_same :
      (t u : Target World)
      → u.process ≡ t.process
      → ((q : ℕ) → get_regs u.world q ≡ get_regs t.world q)
      → (get_ptrace_pc os u).0 ≡ (get_ptrace_pc os t).0
  pc_same t u process regs = ap (λ o. read (process_regs os o u)) process ∙ by_process t.process
    where
      read : Result PtraceRegs × Target World → Result ℕ
      read p = pc_in p.0 p.1

      by_process : (o : Option ℕ) → read (process_regs os o u) ≡ read (process_regs os o t)
      by_process none = refl
      by_process (some q) = ap (λ r. pc_in r u) (regs q) ∙ pc_in_any (get_regs t.world q) t u

  module _ (bi : Bi) (old : Place) where
    -- The process is on a line that is not `old`.
    abbrev pub IsElsewhere : Target World → Type 0
    IsElsewhere u =
        (pc : ℕ) × (place : Place) × ((get_ptrace_pc os u).0 ≡ ok pc)
        × (pc_to_file_line bi pc ≡ ok place)
        × (same_place place old ≡ false)

    abbrev pub HasLeft : Target World → Type 0
    HasLeft u = (u.process ≡ none) ⊎ IsElsewhere u

    pub HasLeft-same :
        (t u : Target World)
        → u.process ≡ t.process
        → ((q : ℕ) → get_regs u.world q ≡ get_regs t.world q)
        → HasLeft t
        → HasLeft u
    HasLeft-same t u process regs (inl gone) = inl (process ∙ gone)
    HasLeft-same t u process regs (inr (pc, place, at, in_line, other)) =
        inr (pc, place, pc_same t u process regs ∙ at, in_line, other)

    -- A look that stops the loop has seen another line.
    abbrev pub Arrives : Result Look × Target World → Type 0
    Arrives p = p.0 ≡ ok arrived → IsElsewhere p.1

    disarm-Arrives : (pid pc : ℕ) (t : Target World) → Arrives (disarm os pid pc t)
    disarm-Arrives pid pc t = cases (find_break_point t.infos (before pc))
      where
        poked :
            (v : BInfo) (r : Result (Unit {0})) (u : Target World)
            → Arrives (after (λ _. pure (stay pc (some v))) r u)
        poked v (ok x) u = λ e. cc
        poked v (err x) u = λ e. cc
        poked v panic u = λ e. cc

        cases : (o : Option BInfo) → Arrives (disarm_found os pid pc o t)
        cases none = λ e. cc
        cases (some v) =
            poked v (disable_break_point os pid (some v) t).0
              (disable_break_point os pid (some v) t).1

    arrive-Arrives :
        (pc : ℕ) (place : Place) (t : Target World)
        → (get_ptrace_pc os t).0 ≡ ok pc
        → pc_to_file_line bi pc ≡ ok place
        → same_place place old ≡ false
        → Arrives (arrive os bi pc t)
    arrive-Arrives pc place t at in_line other =
        listed (list_file_line_by_ptrace_pc os bi (pos 6) shown).0 _
          (list_file_line_by_ptrace_pc_same os bi (pos 6) shown)
      where
        shown : Target World
        shown = (print (current_pc pc) t).1

        listed :
            (r : Result (Unit {0})) (u : Target World)
            → SameButOut shown u
            → Arrives (after (λ _. pure arrived) r u)
        listed (ok x) u same = λ e. (
          pc,
          place,
          pc_same t u (same.process) (λ q. ap (λ w. get_regs w q) (same.world)) ∙ at,
          in_line,
          other,
        )
        listed (err x) u same = λ e. cc
        listed panic u same = λ e. cc

    pub look-Arrives : (pid : ℕ) (t : Target World) → Arrives (look os bi pid old t)
    unfolding look
    look-Arrives pid t = by_pc (get_ptrace_pc os t).0 _ refl (get_ptrace_pc_state os t)
      where
        by_line :
            (pc : ℕ) (place : Place) (u : Target World) (b : Bool)
            → (get_ptrace_pc os u).0 ≡ ok pc
            → pc_to_file_line bi pc ≡ ok place
            → same_place place old ≡ b
            → Arrives ((if b then disarm os pid pc else arrive os bi pc) u)
        by_line pc place u true at in_line same = disarm-Arrives pid pc u
        by_line pc place u false at in_line other = arrive-Arrives pc place u at in_line other

        by_place :
            (pc : ℕ) (r : Result Place) (u : Target World)
            → (get_ptrace_pc os u).0 ≡ ok pc
            → pc_to_file_line bi pc ≡ r
            → Arrives (
                after
                  (λ place. if same_place place old then disarm os pid pc else arrive os bi pc)
                  r
                  u)
        by_place pc (ok place) u at e = by_line pc place u (same_place place old) at e refl
        by_place pc (err x) u at e = λ k. cc
        by_place pc panic u at e = λ k. cc

        by_pc :
            (r : Result ℕ) (u : Target World)
            → (get_ptrace_pc os t).0 ≡ r
            → u ≡ t
            → Arrives (
                after
                  (λ pc. lift (pc_to_file_line bi pc) >>= λ place.
                    if same_place place old then disarm os pid pc else arrive os bi pc)
                  r
                  u)
        by_pc (ok pc) u at same =
            by_place pc (pc_to_file_line bi pc) u (ap (λ v. (get_ptrace_pc os v).0) same ∙ at) refl
        by_pc (err x) u at same = λ k. cc
        by_pc panic u at same = λ k. cc
