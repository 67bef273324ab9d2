-- ===== src/Start.antt =====
-- main.go and preparations.go: from the arguments of the program to its prompt. The file system, `go
-- build` and the packages path, os and filepath are parameters.
pub mod Stages
pub mod Order
pub mod Safe
use godbg.Common.{if◌then◌else◌, ℕ, Bool, Option, none, some, List, [], ◌∷◌, ◌++◌}
use godbg.Common.Bytes.{Bytes, codes, equal}
use godbg.Common.Result.{Error, wrong_args_count, no_debug_word, no_go_file, Result, ok, err, panic}
use godbg.Target.{Os, Target}
use godbg.Bi.{Bi}
use godbg.Dwarf.{ElfFile, ZlibReader}
use godbg.Sections.{analyze}
use godbg.Restart.{runexec}
use godbg.Output.{tracing}
use godbg.Prompt.{Reply, exits}

-- What surrounds the program: `os.Args`, `path.Ext`, `path.IsAbs`, `path.Join`, `filepath.Base`,
-- `os.TempDir`, `os.Getwd`, `os.Stat`, the build of a file into an executable file, `os.Remove`, and the
-- readers of executable files.
pub record Environment (os : Os) : Type 0 where
  pub args : List Bytes
  pub ext : Bytes → Bytes
  pub is_abs : Bytes → Bool
  pub join : Bytes → Bytes → Bytes
  pub base : Bytes → Bytes
  pub temp_dir : Bytes
  pub getwd : Result Bytes
  pub stat : os.World → Bytes → Option Error
  pub go_build : os.World → Bytes → Bytes → os.World × Option Error
  pub remove : os.World → Bytes → os.World
  pub new_reader : Bytes → Result ZlibReader
  pub open_elf : os.World → Bytes → Result ElfFile

-- Where the program ends: behind a stage that fails, in a panic, or behind the prompt, which returns or
-- calls `os.Exit`.
pub data Exit : Type 0 where
  check_args_failed : Error → Exit
  absolute_failed : Error → Exit
  build_failed : Error → Exit
  analyze_failed : Error → Exit
  runexec_failed : Error → Exit
  panicked : Exit
  prompted : Reply → Exit

-- `len(os.Args) != 3`, the word `debug`, and a file that ends in `.go`.
unfoldable pub check_args : (Bytes → Bytes) → List Bytes → Option Error
check_args ext (program ∷ debug ∷ file ∷ []) =
    if equal debug (codes "debug")
    then (if equal (ext file) (codes ".go") then none else some no_go_file)
    else some no_debug_word
check_args ext _ = some wrong_args_count

-- `os.Args[2]`; `checkArgs` has seen that it is there.
abbrev pub file_arg : List Bytes → Bytes
file_arg (program ∷ debug ∷ file ∷ rest) = file
file_arg _ = []

module _ (os : Os) (env : Environment os) where
  open os use {World}
  open env use {
    args, ext, is_abs, join, base, temp_dir, getwd, stat, go_build, remove, new_reader, open_elf,
  }

  abbrev pub existing : Bytes → Option Error → Result Bytes
  existing filename none = ok filename
  existing filename (some e) = err e

  abbrev pub in_dir : World → Bytes → Result Bytes → Result Bytes
  in_dir w filename (ok dir) = existing (join dir filename) (stat w (join dir filename))
  in_dir w filename (err e) = err e
  in_dir w filename panic = panic

  unfoldable pub absolute_filename : World → Bytes → Result Bytes
  absolute_filename w filename = if is_abs filename then ok filename else in_dir w filename getwd

  -- The file that the build writes.
  unfoldable pub execfile_of : Bytes → Bytes
  execfile_of filename = join temp_dir (codes "__" ++ (base filename ++ codes "__"))

  -- `target` before a process is started, and where the prompt starts.
  abbrev pub new_target : World → Target World
  new_target w = record { world = w; infos = []; process = none; out = [] }

  abbrev pub first_target : World → ℕ → Target World
  first_target w pid = record { world = w; infos = []; process = some pid; out = tracing pid ∷ [] }

  abbrev pub after_session : Option Reply × Target World → Exit × World
  after_session (some r, t) = (prompted r, t.world)
  after_session (none, t) = (panicked, t.world)

  -- `defer os.Remove(target.execFile)`, which a panic runs too, but `os.Exit` does not.
  abbrev pub removed : Bytes → Exit × World → Exit × World
  removed execfile (prompted exits, w) = (prompted exits, w)
  removed execfile (x, w) = (x, remove w execfile)

  -- `p.Run()` is the parameter `session`: how a session of the prompt ends, `none` for a panic, and the
  -- target that it leaves.
  module _ (session : Bi → Target World → Option Reply × Target World) where
    abbrev pub after_runexec : Bi → Result ℕ × Target World → Exit × World
    after_runexec bi (ok pid, t) = after_session (session bi (first_target t.world pid))
    after_runexec bi (err e, t) = (runexec_failed e, t.world)
    after_runexec bi (panic, t) = (panicked, t.world)

    abbrev pub after_analyze : World → Bytes → Result Bi → Exit × World
    after_analyze w execfile (ok bi) = after_runexec bi (runexec os execfile (new_target w))
    after_analyze w execfile (err e) = (analyze_failed e, w)
    after_analyze w execfile panic = (panicked, w)

    abbrev pub after_build : Bytes → World × Option Error → Exit × World
    after_build execfile (w, none) =
        removed execfile (after_analyze w execfile (analyze new_reader (open_elf w) execfile))
    after_build execfile (w, some e) = (build_failed e, w)

    abbrev pub after_absolute : World → Result Bytes → Exit × World
    after_absolute w (ok filename) =
        after_build (execfile_of filename) (go_build w (execfile_of filename) filename)
    after_absolute w (err e) = (absolute_failed e, w)
    after_absolute w panic = (panicked, w)

    abbrev pub after_check : World → Option Error → Exit × World
    after_check w none = after_absolute w (absolute_filename w (file_arg args))
    after_check w (some e) = (check_args_failed e, w)

    -- What is written to the log and the help of the program are left out.
    unfoldable pub main : World → Exit × World
    unfolding check_args absolute_filename execfile_of analyze runexec
    main w = after_check w (check_args ext args)
