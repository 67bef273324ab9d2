-- ===== src/Next/Rounds.antt =====
-- What the rounds of `next` keep: the table and the bytes of the text, while the process runs.
use godbg.Common.{◌==◌, if◌then◌else◌, ℕ, ◌≡◌, refl, Bool, true, false, Option, none, some, List}
use godbg.Common.Bytes.{Bytes}
use godbg.Common.Int.{pos}
use godbg.Common.Result.{Result, ok, err, panic}
use godbg.Target.{
  BInfo, Os, Target, after, ◌>>=◌, pure, lift, filled, before, peek_data, get_ptrace_pc, >>=_keeps,
}
use godbg.Breakpoint.{find_break_point, is_some}
use godbg.Breakpoint.Memory.{MemoryLaws, IsWritable}
use godbg.Breakpoint.Loose.{TextLaws}
use godbg.Listing.{list_file_line_by_ptrace_pc}
use godbg.Listing.Keeps.{list_file_line_by_ptrace_pc_same}
use godbg.Bi.{Bi, pc_to_file_line}
use godbg.Asm.{Inst, get_single_mem_inst, behind_inst}
use godbg.Step.{Place, same_place, step_once}
use godbg.Step.Rounds.{Ends-Running, get_ptrace_pc-Running, GoesOn, step_once-GoesOn}
use godbg.Step.Loop.{Runs, Ended, Running-SameButOut}
use godbg.Next.{
  Round, over, again, list_here, on_line, in_call, behind_step, outside_call, by_calling,
  next_round,
}

module _ (os : Os) (pid : ℕ) (decode : Bytes → Result Inst) where
  open os use {World, peek}

  pub get_single_mem_inst_state :
      (pc : ℕ) (t : Target World) → (get_single_mem_inst os decode pid pc t).1 ≡ t
  unfolding get_single_mem_inst
  get_single_mem_inst_state pc t =
      >>=_keeps (λ u. u ≡ t) (peek_data os pid pc 100) (λ mem. lift (decode mem)) t
        (cases (peek t.world pid pc 100)) (λ mem u e same. same)
    where
      cases :
          (r : Result Bytes)
          → (elim r as (λ _. Result Bytes × Target World) [
            | ok b ↦ (ok (filled 100 b), t)
            | err e ↦ (err e, t)
            | panic ↦ (panic, t)
          ]).1
            ≡ t
      cases (ok b) = refl
      cases (err e) = refl
      cases panic = refl

module _ (os : Os) (pid : ℕ) (code : ℕ → Option ℕ) (infos : List BInfo) (laws : MemoryLaws os pid)
    (writable : IsWritable os pid) (text : TextLaws os pid code) (decode : Bytes → Result Inst)
    (bi : Bi) (away : List ℕ) where
  open os use {World}

  abbrev Here : Target World → Type 0
  Here = Runs os pid code infos laws writable text away

  abbrev Behind : Target World → Type 0
  Behind = Ended os pid code infos laws writable text away

  Behind-Here : (t : Target World) → Here t → Behind t
  Behind-Here t h = Ends-Running os pid code infos laws writable text h

  -- Behind a round that goes on, the process runs.
  abbrev pub RoundKeeps : Result Round × Target World → Type 0
  RoundKeeps p = Behind p.1 × ((c : Option ℕ) → p.0 ≡ ok (again c) → Here p.1)

  list_here-RoundKeeps : (t : Target World) → Here t → RoundKeeps (list_here os decode bi t)
  list_here-RoundKeeps t h =
      cases (list_file_line_by_ptrace_pc os bi (pos 6) t).0
        (list_file_line_by_ptrace_pc os bi (pos 6) t).1
        (Running-SameButOut os pid code infos laws writable text away t _
          (list_file_line_by_ptrace_pc_same os bi (pos 6) t) h)
    where
      cases :
          (r : Result (Unit {0})) (u : Target World)
          → Here u
          → RoundKeeps (after (λ _. pure over) r u)
      cases (ok x) u k = (Behind-Here u k, λ c e. cc)
      cases (err x) u k = (Behind-Here u k, λ c e. cc)
      cases panic u k = (Behind-Here u k, λ c e. cc)

  on_line-RoundKeeps :
      (old place : Place) (t : Target World)
      → Here t
      → RoundKeeps (on_line os decode bi old place t)
  on_line-RoundKeeps old place t h = by_test (same_place place old)
    where
      by_test :
          (b : Bool) → RoundKeeps ((if b then pure (again none) else list_here os decode bi) t)
      by_test true = (Behind-Here t h, λ c e. h)
      by_test false = list_here-RoundKeeps t h

  at_line-RoundKeeps :
      (old : Place) (r : Result Place) (t : Target World)
      → Here t
      → RoundKeeps (after (on_line os decode bi old) r t)
  at_line-RoundKeeps old (ok place) t h = on_line-RoundKeeps old place t h
  at_line-RoundKeeps old (err x) t h = (Behind-Here t h, λ c e. cc)
  at_line-RoundKeeps old panic t h = (Behind-Here t h, λ c e. cc)

  in_call-RoundKeeps :
      (calling : Option ℕ) (r : Result Bool) (t : Target World)
      → GoesOn os pid code infos laws writable text away (r, t)
      → RoundKeeps (after (in_call os decode bi pid calling) r t)
  in_call-RoundKeeps calling (ok true) t h = (h.0, λ c e. h.1 refl)
  in_call-RoundKeeps calling (ok false) t h = (h.0, λ c e. cc)
  in_call-RoundKeeps calling (err x) t h = (h.0, λ c e. cc)
  in_call-RoundKeeps calling panic t h = (h.0, λ c e. cc)

  behind_step-RoundKeeps :
      (next : ℕ) (old : Place) (r : Result Bool) (t : Target World)
      → GoesOn os pid code infos laws writable text away (r, t)
      → RoundKeeps (after (behind_step os decode bi next old) r t)
  behind_step-RoundKeeps next old (ok true) t h =
      at_line-RoundKeeps old (pc_to_file_line bi next) t (h.1 refl)
  behind_step-RoundKeeps next old (ok false) t h = (h.0, λ c e. cc)
  behind_step-RoundKeeps next old (err x) t h = (h.0, λ c e. cc)
  behind_step-RoundKeeps next old panic t h = (h.0, λ c e. cc)

  outside_call-RoundKeeps :
      (old : Place) (pc : ℕ) (r : Result Inst) (t : Target World)
      → Here t
      → RoundKeeps (after (outside_call os decode bi pid old pc) r t)
  outside_call-RoundKeeps old pc (ok inst) t h = by_test inst.is_call
    where
      by_test :
          (b : Bool)
          → RoundKeeps (
              (if b
                  then pure (again (some (behind_inst pc inst)))
                  else step_once os pid >>= behind_step os decode bi (behind_inst pc inst) old)
                t)
      by_test true = (Behind-Here t h, λ c e. h)
      by_test false =
          behind_step-RoundKeeps (behind_inst pc inst) old _ _
            (step_once-GoesOn os pid code infos laws writable text away t h)
  outside_call-RoundKeeps old pc (err x) t h = (Behind-Here t h, λ c e. cc)
  outside_call-RoundKeeps old pc panic t h = (Behind-Here t h, λ c e. cc)

  by_calling-RoundKeeps :
      (old : Place) (pc : ℕ) (calling : Option ℕ) (t : Target World)
      → Here t
      → RoundKeeps (by_calling os decode bi pid old pc calling t)
  by_calling-RoundKeeps old pc none t h =
      outside_call-RoundKeeps old pc _ _ (rw (get_single_mem_inst_state os pid decode pc t) h)
  by_calling-RoundKeeps old pc (some fpc) t h = by_test (pc == fpc)
    where
      by_test :
          (b : Bool)
          → RoundKeeps (
              (if b
                  then lift (pc_to_file_line bi pc) >>= on_line os decode bi old
                  else step_once os pid >>= in_call os decode bi pid (some fpc))
                t)
      by_test true = at_line-RoundKeeps old (pc_to_file_line bi pc) t h
      by_test false =
          in_call-RoundKeeps (some fpc) _ _
            (step_once-GoesOn os pid code infos laws writable text away t h)

  pub next_round-RoundKeeps :
      (old : Place) (calling : Option ℕ) (t : Target World)
      → Here t
      → RoundKeeps (next_round os decode bi pid old calling t)
  unfolding next_round
  next_round-RoundKeeps old calling t h =
      at_pc (get_ptrace_pc os t).0 (get_ptrace_pc os t).1
        (rw (get_ptrace_pc-Running os pid code infos laws writable text away t h) h)
    where
      by_test :
          (pc : ℕ) (b : Bool) (u : Target World)
          → Here u
          → RoundKeeps
              ((if b then list_here os decode bi else by_calling os decode bi pid old pc calling) u)
      by_test pc true u k = list_here-RoundKeeps u k
      by_test pc false u k = by_calling-RoundKeeps old pc calling u k

      at_pc :
          (r : Result ℕ) (u : Target World)
          → Here u
          → RoundKeeps (
              after
                (λ pc t'.
                  (if is_some (find_break_point t'.infos (before pc))
                      then list_here os decode bi
                      else by_calling os decode bi pid old pc calling)
                    t')
                r
                u)
      at_pc (ok pc) u k = by_test pc (is_some (find_break_point u.infos (before pc))) u k
      at_pc (err x) u k = (Behind-Here u k, λ c e. cc)
      at_pc panic u k = (Behind-Here u k, λ c e. cc)
