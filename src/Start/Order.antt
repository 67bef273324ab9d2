-- ===== src/Start/Order.antt =====
-- The order of the stages of `main`.
use godbg.Common.{ℕ, ◌≡◌, refl, ap, ◌∙◌, ◌⊎◌, inl, inr, Option, none, some, [], ◌∷◌}
use godbg.Common.Bytes.{Bytes, codes}
use godbg.Common.Result.{Result, ok}
use godbg.Target.{Os, Target}
use godbg.Bi.{Bi}
use godbg.Sections.{analyze}
use godbg.Restart.{runexec}
use godbg.Start.{
  Environment, Exit, check_args_failed, absolute_failed, build_failed, analyze_failed,
  runexec_failed, panicked, prompted, check_args, file_arg, absolute_filename, execfile_of,
  new_target, first_target, removed, after_analyze, after_build, after_absolute, after_check, main,
}
use godbg.Prompt.{Reply, goes_on, exits, reply}
use mathlib.Core.Path.{subst}
use godbg.Start.Stages.{
  check_args-none, left_by, removed_prompted, after_runexec_prompted, after_analyze_prompted,
  after_build_prompted, after_absolute_prompted, after_check_prompted,
}

module _ (os : Os) (env : Environment os)
    (session : Bi → Target os.World → Option Reply × Target os.World) where
  open os use {World}
  open env use {args, ext, go_build, remove, new_reader, open_elf}

  -- Every stage before the prompt has succeeded, and the prompt has ended with `reply`.
  pub record IsPrompted (w w' : World) (reply : Reply) : Type 0 where
    pub program : Bytes
    pub file : Bytes
    pub filename : Bytes
    pub built_in : World
    pub bi : Bi
    pub started_in : Target World
    pub pid : ℕ
    pub args_are : args ≡ program ∷ codes "debug" ∷ file ∷ []
    pub go_file : ext file ≡ codes ".go"
    pub found : absolute_filename os env w file ≡ ok filename
    pub built : go_build w (execfile_of os env filename) filename ≡ (built_in, none)
    pub analyzed : analyze new_reader (open_elf built_in) (execfile_of os env filename) ≡ ok bi
    pub started :
        runexec os (execfile_of os env filename) (new_target os env built_in) ≡ (ok pid, started_in)
    pub replied : (session bi (first_target os env started_in.world pid)).0 ≡ some reply
    pub ended :
        w'
        ≡ left_by os env session
            (execfile_of os env filename)
            reply
            (session bi (first_target os env started_in.world pid)).1.world

  -- Where the program has come to the end of its prompt: it had three arguments, the second the word
  -- `debug`, the third a file that ends in `.go`; the file was found, built and analyzed, and the
  -- executable file was started, in this order. That file is removed behind the prompt if the prompt
  -- returns, and left where it is if a command has called `os.Exit`.
  pub main-IsPrompted :
      (w w' : World) (reply : Reply)
      → main os env session w ≡ (prompted reply, w')
      → IsPrompted w w' reply
  unfolding main
  main-IsPrompted w w' reply e =
      let checked = after_check_prompted os env session reply w w' (check_args ext args) e in
      let (program, file, a, g) = check_args-none ext args checked in
      let e1 : after_absolute os env session w (absolute_filename os env w file)
          ≡ (prompted reply, w') =
        subst
          (λ l.
            after_absolute os env session w (absolute_filename os env w (file_arg l))
            ≡ (prompted reply, w'))
          a (subst (λ o. after_check os env session w o ≡ (prompted reply, w')) checked e) in
      let (filename, f) =
        after_absolute_prompted os env session reply w w' (absolute_filename os env w file) e1 in
      let execfile = execfile_of os env filename in
      let built = go_build w execfile filename in
      let e2 : after_build os env session execfile built ≡ (prompted reply, w') =
        subst (λ r. after_absolute os env session w r ≡ (prompted reply, w')) f e1 in
      let success = after_build_prompted os env session reply execfile built.0 w' built.1 e2 in
      let tables = analyze new_reader (open_elf built.0) execfile in
      let ended = after_analyze os env session built.0 execfile tables in
      let e3 : removed os env execfile ended ≡ (prompted reply, w') =
        subst (λ o. after_build os env session execfile (built.0, o) ≡ (prompted reply, w')) success
          e2 in
      let (is_prompted, left) =
        removed_prompted os env session reply execfile ended.0 ended.1 w' e3 in
      let (bi, n) =
        after_analyze_prompted os env session reply built.0 execfile tables is_prompted in
      let started = runexec os execfile (new_target os env built.0) in
      let at_start = λ (r : Result Bi). after_analyze os env session built.0 execfile r in
      let (pid, s, replied, world) =
        after_runexec_prompted os env session reply bi started.0 started.1
          (subst (λ r. (at_start r).0 ≡ prompted reply) n is_prompted) in
      record {
        program = program;
        file = file;
        filename = filename;
        built_in = built.0;
        bi = bi;
        started_in = started.1;
        pid = pid;
        args_are = a;
        go_file = g;
        found = f;
        built = ap (λ o. (built.0, o)) success;
        analyzed = n;
        started = ap (λ r. (r, started.1)) s;
        replied = replied;
        ended =
            left ∙ ap (left_by os env session execfile reply) (ap (λ r. (at_start r).1) n ∙ world);
      }

  -- Behind a build that succeeds, whatever happens then, the executable file is removed last, unless a
  -- command of the prompt has called `os.Exit`.
  pub main_removes :
      (w built_in : World) (filename : Bytes)
      → check_args ext args ≡ none
      → absolute_filename os env w (file_arg args) ≡ ok filename
      → go_build w (execfile_of os env filename) filename ≡ (built_in, none)
      → ((main os env session w).0 ≡ prompted exits)
        ⊎ ((v : World) × ((main os env session w).1 ≡ remove v (execfile_of os env filename)))
  unfolding main
  main_removes w built_in filename c f b = rw c (rw f (rw b (by_exit ended.0 ended.1)))
    where
      ended : Exit × World
      ended =
          after_analyze os env session built_in (execfile_of os env filename)
            (analyze new_reader (open_elf built_in) (execfile_of os env filename))

      by_exit :
          (x : Exit) (v : World)
          → ((removed os env (execfile_of os env filename) (x, v)).0 ≡ prompted exits)
            ⊎ ((u : World) × ((removed os env (execfile_of os env filename) (x, v)).1
                  ≡ remove u (execfile_of os env filename)))
      by_exit (prompted exits) v = inl refl
      by_exit (prompted goes_on) v = inr (v, refl)
      by_exit (check_args_failed e) v = inr (v, refl)
      by_exit (absolute_failed e) v = inr (v, refl)
      by_exit (build_failed e) v = inr (v, refl)
      by_exit (analyze_failed e) v = inr (v, refl)
      by_exit (runexec_failed e) v = inr (v, refl)
      by_exit panicked v = inr (v, refl)
