-- ===== src/Session/Quiet.antt =====
-- The commands that change what has been printed, and nothing else.
use godbg.Common.{
  leb, ◌==◌, if◌then◌else◌, ℕ, ◌+◌, ◌%◌, ◌^◌, refl, ◌∙◌, Bool, true, false, Option, none, some,
  List, [], ◌∷◌,
}
use godbg.Common.Bytes.{Bytes, from_little_endian}
use godbg.Common.Result.{Error, eof, negative_length, null_pointer, Result, ok, err, panic}
use godbg.Output.{Message, value, unsupported_variable}
use godbg.Target.{
  Os, Target, M, ◌>>=◌, pure, fail, lift, print, filled, peek_data, process_regs, get_registers,
  get_ptrace_pc, >>=_keeps,
}
use godbg.Bi.{Variable, Bi, find_function_include_pc}
use godbg.Listing.Keeps.{SameButOut, get_ptrace_pc_state}
use godbg.Executor.{pid_of, report, reported}
use godbg.Print.{
  dw_op_fbreg, number_of, is_named, max_alloc, stands_at, read_string, show_opcode, show_location,
  unless_done, print_variables, print_at, print_in, print_command,
}
use godbg.Unwind.{find_fde, row_of, frame_with_base, find_frame_information}
use godbg.Frame.{VirtualUnwindFrameInformation}
use godbg.Leb.{decode_sleb128}

pub SameButOut-refl : {W : Type 0} (t : Target W) → SameButOut t t
SameButOut-refl t = record { world = refl; table = refl; process = refl }

pub SameButOut-trans :
    {W : Type 0} {t u v : Target W} → SameButOut t u → SameButOut u v → SameButOut t v
SameButOut-trans a b = record {
  world = b.world ∙ a.world;
  table = b.table ∙ a.table;
  process = b.process ∙ a.process;
}

module _ {W : Type 0} where
  pub record IsQuiet {A : Type 0} (m : M W A) : Type 0 where
    pub same : (t : Target W) → SameButOut t (m t).1

  pub IsQuiet-bind :
      {A B : Type 0} (m : M W A) (f : A → M W B)
      → IsQuiet m
      → ((a : A) → IsQuiet (f a))
      → IsQuiet (m >>= f)
  IsQuiet-bind m f h k = record {
    same = λ t.
        >>=_keeps (SameButOut t) m f t (h.same t) (λ a t' _ s. SameButOut-trans s ((k a).same t'));
  }

  pub IsQuiet-lift : {A : Type 0} (r : Result A) → IsQuiet (lift {W = W} r)
  IsQuiet-lift r = record { same = SameButOut-refl }

  pub IsQuiet-fail : {A : Type 0} (e : Error) → IsQuiet (fail {W = W} {A = A} e)
  IsQuiet-fail e = record { same = SameButOut-refl }

  pub IsQuiet-pure : {A : Type 0} (a : A) → IsQuiet (pure {W = W} a)
  IsQuiet-pure a = record { same = SameButOut-refl }

  -- A command that depends on the state.
  pub IsQuiet-of_state :
      {A : Type 0} (m : Target W → M W A) → ((t : Target W) → IsQuiet (m t)) → IsQuiet (λ t. m t t)
  IsQuiet-of_state m h = record { same = λ t. (h t).same t }

  pub IsQuiet-if :
      {A : Type 0} (b : Bool) (m k : M W A) → IsQuiet m → IsQuiet k → IsQuiet (if b then m else k)
  IsQuiet-if true m k h g = h
  IsQuiet-if false m k h g = g

  pub IsQuiet-print : (m : Message) → IsQuiet (print m)
  IsQuiet-print m = record { same = λ t. record { world = refl; table = refl; process = refl } }

  pub report_same : (r : Result (Unit {0})) (t : Target W) → SameButOut t (report r t).1
  report_same (ok x) t = SameButOut-refl t
  report_same (err e) t = record { world = refl; table = refl; process = refl }
  report_same panic t = SameButOut-refl t

  pub IsQuiet-reported : (m : M W (Unit {0})) → IsQuiet m → IsQuiet (reported m)
  IsQuiet-reported m h = record {
    same = λ t. SameButOut-trans (h.same t) (report_same (m t).0 (m t).1);
  }

module _ (os : Os) where
  open os use {World, get_regs, peek}

  pub IsQuiet-get_ptrace_pc : IsQuiet (get_ptrace_pc os)
  IsQuiet-get_ptrace_pc = record { same = λ t. rw (get_ptrace_pc_state os t) (SameButOut-refl t) }

  pub IsQuiet-get_registers : IsQuiet (get_registers os)
  IsQuiet-get_registers = record { same = λ t. cases t t.process }
    where
      cases : (t : Target World) (p : Option ℕ) → SameButOut t (process_regs os p t).1
      cases t none = SameButOut-refl t
      cases t (some pid) = SameButOut-refl t

  pub IsQuiet-peek_data : (pid addr n : ℕ) → IsQuiet (peek_data os pid addr n)
  IsQuiet-peek_data pid addr n = record { same = λ t. cases t (peek t.world pid addr n) }
    where
      cases :
          (t : Target World) (r : Result Bytes)
          → SameButOut t
              (elim r as (λ _. Result Bytes × Target World) [
                | ok bytes ↦ (ok (filled n bytes), t)
                | err e ↦ (err e, t)
                | panic ↦ (panic, t)
              ]).1
      cases t (ok bytes) = SameButOut-refl t
      cases t (err e) = SameButOut-refl t
      cases t panic = SameButOut-refl t

  IsQuiet-find_frame_information :
      (infos : List VirtualUnwindFrameInformation) (pc : ℕ)
      → IsQuiet (find_frame_information os infos pc)
  unfolding find_frame_information
  IsQuiet-find_frame_information infos pc =
      IsQuiet-bind (lift (find_fde infos pc)) _ (IsQuiet-lift (find_fde infos pc)) λ fde.
        let row = row_of fde pc fde.cie in
        IsQuiet-bind (lift row) _ (IsQuiet-lift row) λ frame.
          IsQuiet-bind (get_registers os) _ IsQuiet-get_registers
            λ regs. IsQuiet-lift (frame_with_base frame regs)

  -- `print`
  IsQuiet-read_string : (pid address : ℕ) → IsQuiet (read_string os pid address)
  unfolding read_string
  IsQuiet-read_string pid address =
      let at_length = peek_data os pid ((address + 8) % 2 ^ 64) 8 in
      let at_address = peek_data os pid address 8 in
      IsQuiet-bind at_length _ (IsQuiet-peek_data pid _ 8) λ len.
        IsQuiet-if (leb (2 ^ 63) (from_little_endian len)) _ _ (IsQuiet-fail negative_length) (
          IsQuiet-bind at_address _ (IsQuiet-peek_data pid address 8) λ addr.
            IsQuiet-if (from_little_endian addr == 0) _ _ (IsQuiet-fail null_pointer) (
              IsQuiet-if (leb (from_little_endian len) max_alloc) _ _
                (IsQuiet-peek_data pid (from_little_endian addr) (from_little_endian len))
                (IsQuiet-lift panic)))

  IsQuiet-show_opcode :
      (pid framebase opcode : ℕ) (rest : Bytes) → IsQuiet (show_opcode os pid framebase opcode rest)
  IsQuiet-show_opcode pid framebase opcode rest =
      let at = (framebase + number_of (decode_sleb128 rest)) % 2 ^ 64 in
      IsQuiet-if (opcode == dw_op_fbreg) _ _
        (IsQuiet-bind (read_string os pid at) _ (IsQuiet-read_string pid at) λ bytes.
          IsQuiet-bind (print (value bytes)) _ (IsQuiet-print (value bytes))
            λ _. IsQuiet-pure false)
        (IsQuiet-bind (print unsupported_variable) _ (IsQuiet-print unsupported_variable)
          λ _. IsQuiet-pure true)

  IsQuiet-show_location :
      (pid framebase : ℕ) (o : Option Bytes) → IsQuiet (show_location os pid framebase o)
  IsQuiet-show_location pid framebase none = IsQuiet-lift panic
  IsQuiet-show_location pid framebase (some []) = IsQuiet-fail eof
  IsQuiet-show_location pid framebase (some (opcode ∷ rest)) =
      IsQuiet-show_opcode pid framebase opcode rest

  IsQuiet-print_variables :
      (pid framebase : ℕ) (name : Bytes) (vs : List Variable)
      → IsQuiet (print_variables os pid framebase name vs)
  unfolding print_variables
  IsQuiet-print_variables pid framebase name [] = IsQuiet-pure tt
  IsQuiet-print_variables pid framebase name (v ∷ vs) =
      let later = IsQuiet-print_variables pid framebase name vs in
      IsQuiet-if (is_named name v) _ _
        (IsQuiet-bind (show_location os pid framebase v.location) _
          (IsQuiet-show_location pid framebase v.location) (unless later))
        later
    where
      unless :
          IsQuiet (print_variables os pid framebase name vs)
          → (b : Bool) → IsQuiet (unless_done os (print_variables os pid framebase name vs) b)
      unless h true = h
      unless h false = IsQuiet-pure tt

  -- `p name`
  pub IsQuiet-print_command : (bi : Bi) (name : Bytes) → IsQuiet (print_command os bi name)
  unfolding print_command
  IsQuiet-print_command bi name = IsQuiet-reported (print_in os bi name) (
      IsQuiet-bind (get_ptrace_pc os) _ IsQuiet-get_ptrace_pc λ pc.
        IsQuiet-of_state (λ t. print_at os bi name (stands_at t.infos pc))
          λ t.
            let at = stands_at t.infos pc in
            IsQuiet-bind (find_frame_information os bi.frames_information at) _
              (IsQuiet-find_frame_information bi.frames_information at)
              λ frame.
                IsQuiet-bind (lift (find_function_include_pc bi at)) _
                  (IsQuiet-lift (find_function_include_pc bi at))
                  λ f.
                    IsQuiet-of_state
                      (λ t. print_variables os (pid_of t.process) frame.framebase name f.variables)
                      λ t.
                        IsQuiet-print_variables (pid_of t.process) frame.framebase name f.variables)
