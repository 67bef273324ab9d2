-- ===== src/Step/Loop.antt =====
-- The whole of `step`: every breakpoint is back when the command ends.
use godbg.Common.{
  if◌then◌else◌, ℕ, zero, suc, ◌≡◌, refl, ◌∙◌, inl, inr, Bool, true, false, Option, none, some,
  List, ◌∷◌,
}
use godbg.Common.Int.{pos}
use godbg.Common.Result.{Result, ok, err, panic}
use godbg.Output.{current_pc}
use godbg.Bi.{Bi, pc_to_file_line}
use godbg.Target.{BInfo, Os, Target, after, ◌>>=◌, pure, lift, print, get_ptrace_pc}
use godbg.Breakpoint.{find_break_point, enable_break_point}
use godbg.Breakpoint.Memory.{MemoryLaws, IsWritable}
use godbg.Breakpoint.Loose.{TextLaws, enable_break_point-IsLoose}
use godbg.Listing.{list_file_line_by_ptrace_pc}
use godbg.Listing.Keeps.{SameButOut, list_file_line_by_ptrace_pc_same}
use godbg.Step.{
  Place, same_place, Look, arrived, stay, Run, disarm, advance_over, put_back, go_on, arrive, look,
  after_look, step_loop,
}
use godbg.Step.Rounds.{
  Running, Ends, Ends-Running, get_ptrace_pc-Running, GoesOn, advance_over-GoesOn, Looked,
  disarm-Looked,
}

module _ (os : Os) (pid : ℕ) (code : ℕ → Option ℕ) (infos : List BInfo) (laws : MemoryLaws os pid)
    (writable : IsWritable os pid) (text : TextLaws os pid code) where
  open os use {World}

  abbrev pub Runs : List ℕ → Target World → Type 0
  Runs = Running os pid code infos laws writable text

  abbrev pub Ended : List ℕ → Target World → Type 0
  Ended = Ends os pid code infos laws writable text

  pub Running-SameButOut :
      (away : List ℕ) (t u : Target World) → SameButOut t u → Runs away t → Runs away u
  Running-SameButOut away t u s h = record {
    runs = s.process ∙ h.runs;
    table = s.table ∙ h.table;
    loose = rw (s.world) h.loose;
  }

  -- What an outcome of a run leaves, if it has one.
  abbrev pub Leaves : List ℕ → Run World → Type 0
  Leaves away none = Unit
  Leaves away (some (r, u)) = Ended away u

  enabled_gone :
      (away : List ℕ) (v : BInfo) (u : Target World)
      → u.infos ≡ infos
      → u.process ≡ none
      → Ended away (enable_break_point os pid (some v) u).1
  unfolding enable_break_point
  enabled_gone away v u table gone = record { table = table; process = inl gone }

  pub put_back-Leaves :
      (away : List ℕ) (v : BInfo) (o : Run World)
      → find_break_point infos v.pc ≡ some v
      → Leaves (v.pc ∷ away) o
      → Leaves away (put_back os pid (some v) o)
  unfolding put_back
  put_back-Leaves away v none found h = tt
  put_back-Leaves away v (some (r, u)) found h = elim h.process [
    | inl gone ↦ enabled_gone away v u h.table gone
    | inr k ↦
        let (w, done, loose') =
          enable_break_point-IsLoose os pid code infos laws writable away v u found k.loose in
        rw done (
          Ends-Running os pid code infos laws writable text
            (record { runs = k.runs; table = k.table; loose = loose' }))
  ]

  go_on-Leaves :
      (away : List ℕ) (later : Target World → Run World) (r : Result Bool) (t : Target World)
      → GoesOn os pid code infos laws writable text away (r, t)
      → ((u : Target World) → Runs away u → Leaves away (later u))
      → Leaves away (go_on os later r t)
  go_on-Leaves away later (ok true) t h k = k t (h.1 refl)
  go_on-Leaves away later (ok false) t h k = h.0
  go_on-Leaves away later (err e) t h k = h.0
  go_on-Leaves away later panic t h k = h.0

  abbrev pub Looks : List ℕ → Result Look × Target World → Type 0
  Looks = Looked os pid code infos laws writable text

  module _ (bi : Bi) where
    arrive-Looks :
        (away : List ℕ) (pc : ℕ) (t : Target World) → Runs away t → Looks away (arrive os bi pc t)
    arrive-Looks away pc t h =
        cases (list_file_line_by_ptrace_pc os bi (pos 6) told).0
          (list_file_line_by_ptrace_pc os bi (pos 6) told).1
          (list_file_line_by_ptrace_pc_same os bi (pos 6) told)
      where
        told : Target World
        told = (print (current_pc pc) t).1

        kept : (u : Target World) → SameButOut told u → Ended away u
        kept u s = Ends-Running os pid code infos laws writable text (record {
          runs = s.process ∙ h.runs;
          table = s.table ∙ h.table;
          loose = rw (s.world) h.loose;
        })

        cases :
            (r : Result (Unit {0})) (u : Target World)
            → SameButOut told u
            → Looks away (after (λ _. pure arrived) r u)
        cases (ok x) u s = kept u s
        cases (err e) u s = kept u s
        cases panic u s = kept u s

    look-Looks :
        (away : List ℕ) (old : Place) (t : Target World)
        → Runs away t
        → Looks away (look os bi pid old t)
    unfolding look
    look-Looks away old t h = at_pc (get_ptrace_pc os t).0 (get_ptrace_pc os t).1 state
      where
        state : (get_ptrace_pc os t).1 ≡ t
        state = get_ptrace_pc-Running os pid code infos laws writable text away t h

        stopped : (u : Target World) → u ≡ t → Ended away u
        stopped u e = rw e (Ends-Running os pid code infos laws writable text h)

        at_place :
            (pc : ℕ) (b : Bool) → Looks away ((if b then disarm os pid pc else arrive os bi pc) t)
        at_place pc true = disarm-Looked os pid code infos laws writable text away pc t h
        at_place pc false = arrive-Looks away pc t h

        at_line :
            (pc : ℕ) (r : Result Place)
            → Looks away (
                after
                  (λ place. if same_place place old then disarm os pid pc else arrive os bi pc)
                  r
                  t)
        at_line pc (ok place) = at_place pc (same_place place old)
        at_line pc (err e) = stopped t refl
        at_line pc panic = stopped t refl

        at_pc :
            (r : Result ℕ) (u : Target World)
            → u ≡ t
            → Looks away (
                after
                  (λ pc. lift (pc_to_file_line bi pc) >>= λ place.
                    if same_place place old then disarm os pid pc else arrive os bi pc)
                  r
                  u)
        at_pc (ok pc) u e = rw e (at_line pc (pc_to_file_line bi pc))
        at_pc (err x) u e = stopped u e
        at_pc panic u e = stopped u e

    after_look-Leaves :
        (away : List ℕ) (later : Target World → Run World) (r : Result Look) (u : Target World)
        → ((away' : List ℕ) (u' : Target World) → Runs away' u' → Leaves away' (later u'))
        → Looks away (r, u)
        → Leaves away (after_look os bi pid later r u)
    unfolding put_back
    after_look-Leaves away later r u ih h = cases r h
      where
        gone_on :
            (away' : List ℕ) (pc : ℕ) (info : Option BInfo)
            → Runs away' u
            → Leaves away'
                (go_on os later (advance_over os pid pc info u).0 (advance_over os pid pc info u).1)
        gone_on away' pc info k =
            go_on-Leaves away' later _ _
              (advance_over-GoesOn os pid code infos laws writable text away' pc info u k)
              (ih away')

        cases : (r : Result Look) → Looks away (r, u) → Leaves away (after_look os bi pid later r u)
        cases (ok arrived) k = k
        cases (ok (stay pc none)) k = gone_on away pc none k
        cases (ok (stay pc (some v))) k =
            put_back-Leaves away v _ k.0 (gone_on (v.pc ∷ away) pc (some v) k.1)
        cases (err e) k = k
        cases panic k = k

    pub step_loop-Leaves :
        (fuel : ℕ) (old : Place) (away : List ℕ) (t : Target World)
        → Runs away t
        → Leaves away (step_loop os bi fuel pid old t)
    unfolding step_loop
    step_loop-Leaves zero old away t h = tt
    step_loop-Leaves (suc fuel) old away t h =
        after_look-Leaves away (λ u. step_loop os bi fuel pid old u) (look os bi pid old t).0
          (look os bi pid old t).1 (step_loop-Leaves fuel old) (look-Looks away old t h)
