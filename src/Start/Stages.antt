-- ===== src/Start/Stages.antt =====
-- The stages of `main`, read backwards from a prompt that has ended with a reply.
use godbg.Common.{
  if◌then◌else◌, ℕ, ◌≡◌, refl, sym, ap, Bool, true, false, Option, none, some, List, [], ◌∷◌,
}
use godbg.Common.Bytes.{Bytes, codes, equal, equal_iff}
use godbg.Common.Result.{Error, no_debug_word, no_go_file, Result, ok, err, panic}
use godbg.Target.{Os, Target}
use godbg.Bi.{Bi}
use godbg.Start.{
  Environment, Exit, check_args_failed, absolute_failed, build_failed, analyze_failed,
  runexec_failed, panicked, prompted, check_args, first_target, after_session, removed,
  after_runexec, after_analyze, after_build, after_absolute, after_check,
}
use godbg.Prompt.{Reply, goes_on, exits}

pub check_args-none :
    (ext : Bytes → Bytes) (args : List Bytes)
    → check_args ext args ≡ none
    → (program : Bytes) × (file : Bytes) × (args ≡ program ∷ codes "debug" ∷ file ∷ [])
      × (ext file ≡ codes ".go")
unfolding check_args
check_args-none ext [] h = cc
check_args-none ext (a ∷ []) h = cc
check_args-none ext (a ∷ b ∷ []) h = cc
check_args-none ext (a ∷ b ∷ c ∷ []) h =
    words (equal b (codes "debug")) (equal (ext c) (codes ".go")) refl refl h
  where
    words :
        (is_debug is_go : Bool)
        → equal b (codes "debug") ≡ is_debug
        → equal (ext c) (codes ".go") ≡ is_go
        → (if is_debug then (if is_go then none else some no_go_file) else some no_debug_word)
          ≡ none
        → (program : Bytes) × (file : Bytes) × (a ∷ b ∷ c ∷ []
            ≡ program ∷ codes "debug" ∷ file ∷ [])
          × (ext file ≡ codes ".go")
    words true true d g h = (
      a,
      c,
      ap (λ w. a ∷ w ∷ c ∷ []) ((equal_iff b (codes "debug")).0 d),
      (equal_iff (ext c) (codes ".go")).0 g,
    )
    words true false d g h = cc
    words false is_go d g h = cc
check_args-none ext (a ∷ b ∷ c ∷ d ∷ args) h = cc

same_reply : (x y : Reply) → prompted x ≡ prompted y → x ≡ y
same_reply goes_on goes_on e = refl
same_reply goes_on exits e = cc
same_reply exits goes_on e = cc
same_reply exits exits e = refl

module _ (os : Os) (env : Environment os)
    (session : Bi → Target os.World → Option Reply × Target os.World) where
  open os use {World}
  open env use {args, ext, go_build, remove, new_reader, open_elf}

  -- The world that the program leaves behind its prompt.
  abbrev pub left_by : Bytes → Reply → World → World
  left_by execfile goes_on w = remove w execfile
  left_by execfile exits w = w

  module _ (reply : Reply) where
    abbrev Ended : World → Exit × World → Type 0
    Ended v o = o ≡ (prompted reply, v)

    pub removed_prompted :
        (execfile : Bytes) (x : Exit) (u v : World)
        → Ended v (removed os env execfile (x, u))
        → (x ≡ prompted reply) × (v ≡ left_by execfile reply u)
    removed_prompted execfile (prompted goes_on) u v e =
        let same = ap (λ (p : Exit × World). p.0) e in
        (same, rw (← same_reply goes_on reply same) (sym (ap (λ (p : Exit × World). p.1) e)))
    removed_prompted execfile (prompted exits) u v e =
        let same = ap (λ (p : Exit × World). p.0) e in
        (same, rw (← same_reply exits reply same) (sym (ap (λ (p : Exit × World). p.1) e)))
    removed_prompted execfile (check_args_failed x) u v e = cc
    removed_prompted execfile (absolute_failed x) u v e = cc
    removed_prompted execfile (build_failed x) u v e = cc
    removed_prompted execfile (analyze_failed x) u v e = cc
    removed_prompted execfile (runexec_failed x) u v e = cc
    removed_prompted execfile panicked u v e = cc

    pub after_session_prompted :
        (o : Option Reply) (t : Target World)
        → (after_session os env (o, t)).0 ≡ prompted reply
        → (o ≡ some reply) × ((after_session os env (o, t)).1 ≡ t.world)
    after_session_prompted none t e = cc
    after_session_prompted (some r) t e = (ap some (same_reply r reply e), refl)

    pub after_runexec_prompted :
        (bi : Bi) (r : Result ℕ) (t : Target World)
        → (after_runexec os env session bi (r, t)).0 ≡ prompted reply
        → (pid : ℕ) × (r ≡ ok pid)
          × ((session bi (first_target os env t.world pid)).0 ≡ some reply)
          × ((after_runexec os env session bi (r, t)).1
              ≡ (session bi (first_target os env t.world pid)).1.world)
    after_runexec_prompted bi (ok pid) t e =
        let end = session bi (first_target os env t.world pid) in
        let (replied, world) = after_session_prompted end.0 end.1 e in (pid, refl, replied, world)
    after_runexec_prompted bi (err x) t e = cc
    after_runexec_prompted bi panic t e = cc

    pub after_analyze_prompted :
        (w : World) (execfile : Bytes) (r : Result Bi)
        → (after_analyze os env session w execfile r).0 ≡ prompted reply
        → (bi : Bi) × (r ≡ ok bi)
    after_analyze_prompted w execfile (ok bi) e = (bi, refl)
    after_analyze_prompted w execfile (err x) e = cc
    after_analyze_prompted w execfile panic e = cc

    pub after_build_prompted :
        (execfile : Bytes) (w v : World) (o : Option Error)
        → Ended v (after_build os env session execfile (w, o))
        → o ≡ none
    after_build_prompted execfile w v none e = refl
    after_build_prompted execfile w v (some x) e = cc

    pub after_absolute_prompted :
        (w v : World) (r : Result Bytes)
        → Ended v (after_absolute os env session w r)
        → (filename : Bytes) × (r ≡ ok filename)
    after_absolute_prompted w v (ok filename) e = (filename, refl)
    after_absolute_prompted w v (err x) e = cc
    after_absolute_prompted w v panic e = cc

    pub after_check_prompted :
        (w v : World) (o : Option Error) → Ended v (after_check os env session w o) → o ≡ none
    after_check_prompted w v none e = refl
    after_check_prompted w v (some x) e = cc
