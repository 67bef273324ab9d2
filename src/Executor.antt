-- ===== src/Executor.antt =====
-- `executor` of prompt.go: the commands on breakpoints and `continue`. A command is a function of its
-- words; what it prints is added to the output.
pub mod Clear
pub mod Memory
pub mod StepOver
pub mod Continue
use godbg.Common.{
  ltb, ◌==◌, if◌then◌else◌, length, ℕ, suc, Bool, false, ◌||◌, Option, none, some, List, [], ◌∷◌,
  ◌++◌,
}
use godbg.Common.Bytes.{Bytes}
use godbg.Common.Int.{ℤ, pos, negsuc, int_eq}
use godbg.Common.Result.{not_found_source_line, has_existed_break_point, Result, ok, err, panic}
use godbg.Output.{
  Message, error, added, existed, not_found_line, no_pc, no_index, cleared_index, user_line,
  any_line, no_break_point, no_process, exited, current_pc,
}
use godbg.Bi.{Bi}
use godbg.Target.{
  BInfo, WaitStatus, Os, Target, M, ◌>>=◌, ◌>>◌, lift, print, before, wait_4, get_ptrace_pc,
  set_pc_register,
}
use godbg.Breakpoint.{
  is_user, sigtrap, set_file_line_break_point, continue, disable_break_point, is_signal,
  single_step_instruction_with_breakpoint_check,
}
use godbg.Listing.{list_file_line_by_ptrace_pc}

abbrev pub pid_of : Option ℕ → ℕ
pid_of none = 0
pid_of (some pid) = pid

module _ {W : Type 0} where
  abbrev pub print_messages : List Message → M W (Unit {0})
  print_messages ms t = (ok tt, record t { out = t.out ++ ms })

  -- `if err := …; err != nil { printErr(err); return }`
  abbrev pub report : Result (Unit {0}) → M W (Unit {0})
  report (ok _) t = (ok tt, t)
  report (err e) t = print (error e) t
  report panic t = (panic, t)

  abbrev pub reported : M W (Unit {0}) → M W (Unit {0})
  reported m t = let (r, t') = m t in report r t'

-- `for _, v := range bp.infos { if v.kind == USERBPTYPE { count++; … } }`
pub user_lines : ℕ → List BInfo → List Message
user_lines count [] = []
user_lines count (v ∷ vs) =
    if is_user v.kind
    then user_line (suc count) v ∷ user_lines (suc count) vs
    else user_lines count vs

pub any_lines : ℕ → List BInfo → List Message
any_lines count [] = []
any_lines count (v ∷ vs) = any_line (suc count) v ∷ any_lines (suc count) vs

abbrev pub or_none : List Message → List Message
or_none [] = no_break_point ∷ []
or_none (m ∷ ms) = m ∷ ms

-- `bl` and `bl all`
unfoldable pub list_break_points : List BInfo → List Message
unfolding user_lines
list_break_points infos = or_none (user_lines 0 infos)

unfoldable pub list_all_break_points : List BInfo → List Message
unfolding any_lines
list_all_break_points infos = or_none (any_lines 0 infos)

-- The `needClearIndex`-th breakpoint of the user, and the table without it.
abbrev pub behind : BInfo → Option (BInfo × List BInfo) → Option (BInfo × List BInfo)
behind v none = none
behind v (some (x, xs)) = some (x, v ∷ xs)

unfoldable pub find_index : ℤ → ℕ → List BInfo → Option (BInfo × List BInfo)
find_index n count [] = none
find_index n count (v ∷ vs) =
    if is_user v.kind
    then (if int_eq (pos (suc count)) n
        then some (v, vs)
        else behind v (find_index n (suc count) vs))
    else behind v (find_index n count vs)

abbrev pub exceeds : ℤ → ℕ → Bool
exceeds (pos n) len = ltb len n
exceeds (negsuc n) len = false

unfoldable pub internals : List BInfo → List BInfo
internals [] = []
internals (v ∷ vs) = let rest = internals vs in if is_user v.kind then rest else v ∷ rest

module _ (os : Os) where
  open os use {World}

  abbrev pub tell_added : Bytes → Result BInfo → M World (Unit {0})
  tell_added place (ok info) = print (added info.filename info.lineno)
  tell_added place (err has_existed_break_point) = print (existed place)
  tell_added place (err not_found_source_line) = print (not_found_line place)
  tell_added place (err e) = print (error e)
  tell_added place panic = lift panic

  -- `b filename:line`, behind `parseLoc`; `place` is the word of the command.
  unfoldable pub break_command :
      Result Bytes → (Bytes → Bytes → Bytes) → Bi → Bytes → Bytes → ℤ → M World (Unit {0})
  unfolding set_file_line_break_point
  break_command cwd join bi place filename line t =
      let (r, t') = set_file_line_break_point os cwd join bi (pid_of t.process) filename line t in
      tell_added place r t'

  -- The byte of `v` is put back, and the process on it is set back to it; both errors are dropped.
  unfoldable pub release : ℕ → ℕ → BInfo → Target World → Target World
  unfolding disable_break_point
  release pid cur_pc v t =
      let t' = (disable_break_point os pid (some v) t).1 in
      if v.pc == before cur_pc then (set_pc_register os v.pc t').1 else t'

  unfoldable pub release_users : ℕ → ℕ → List BInfo → Target World → Target World
  release_users pid cur_pc [] t = t
  release_users pid cur_pc (v ∷ vs) t =
      release_users pid cur_pc vs (if is_user v.kind then release pid cur_pc v t else t)

  abbrev pub after_pc : (ℕ → M World (Unit {0})) → Result ℕ → M World (Unit {0})
  after_pc f (ok pc) = f pc
  after_pc f (err e) = print (no_pc e)
  after_pc f panic = lift panic

  abbrev pub with_pc : (ℕ → M World (Unit {0})) → M World (Unit {0})
  with_pc f t = let (r, t') = get_ptrace_pc os t in after_pc f r t'

  -- `bc all`
  unfoldable pub clear_all : M World (Unit {0})
  unfolding release_users release internals
  clear_all = with_pc λ cur_pc t. (
    ok tt,
    record (release_users (pid_of t.process) cur_pc t.infos t) { infos = internals t.infos },
  )

  -- `bc n`. An index above the length of the table is reported, and then looked for.
  abbrev pub clear_found : ℤ → ℕ → Option (BInfo × List BInfo) → M World (Unit {0})
  clear_found n cur_pc none t = print (no_index n) t
  clear_found n cur_pc (some (v, infos)) t =
      print (cleared_index n) (record (release (pid_of t.process) cur_pc v t) { infos = infos })

  unfoldable pub clear_index : ℤ → M World (Unit {0})
  unfolding find_index release
  clear_index n = with_pc λ cur_pc t.
      let early = if exceeds n (length t.infos) then no_index n ∷ [] else [] in
      clear_found n cur_pc (find_index n 0 t.infos) (record t { out = t.out ++ early })

  abbrev pub sigurg : ℕ
  sigurg = 23

  -- `cmd.Process = nil`
  abbrev pub end_process : M World (Unit {0})
  end_process t = (ok tt, record t { process = none })

  -- `n := s.StopSignal(); n != syscall.SIGTRAP && n != syscall.SIGURG`, negated.
  abbrev pub stops_here : WaitStatus → Bool
  stops_here s = is_signal os s.stop_signal sigtrap || is_signal os s.stop_signal sigurg

  -- What `continue` makes of the status that it waits for.
  abbrev pub after_wait : Bi → ℕ → WaitStatus → M World (Unit {0})
  after_wait bi wpid s =
      if s.exited
      then (do print (exited wpid); end_process)
      else if stops_here s
      then (do
        pc ← get_ptrace_pc os
        print (current_pc pc)
        list_file_line_by_ptrace_pc os bi (pos 6))
      else end_process

  abbrev pub resume : Bi → ℕ → M World (Unit {0})
  resume bi pid = do
    single_step_instruction_with_breakpoint_check os pid
    continue os pid
    r ← wait_4 os pid
    after_wait bi r.0 r.1

  abbrev continue_process : Bi → Option ℕ → M World (Unit {0})
  continue_process bi none = print no_process
  continue_process bi (some pid) = reported (resume bi pid)

  -- `c`
  unfoldable pub continue_command : Bi → M World (Unit {0})
  unfolding continue single_step_instruction_with_breakpoint_check list_file_line_by_ptrace_pc
  continue_command bi t = continue_process bi t.process t
