-- ===== src/Session/Lines.antt =====
-- The words of each line: every command that they name leads from a safe state to a safe one.
use godbg.Common.{
  if◌then◌else◌, Bool-cases, ℕ, ◌≡◌, refl, inl, inr, Bool, true, false, ◌&&◌, Option, none, some,
  List, [], ◌∷◌,
}
use godbg.Common.Bytes.{Bytes, codes, equal}
use godbg.Common.Int.{ℤ, pos}
use godbg.Common.Result.{Result, ok, err, panic}
use godbg.Output.{unsupported, Message}
use godbg.Target.{Os, Target, M, print, get_ptrace_pc}
use godbg.Bi.{Bi}
use godbg.Listing.Keeps.{SameButOut, list_file_line_same, list_file_line_by_ptrace_pc_same}
use godbg.Listing.{list_file_line, list_file_line_by_ptrace_pc}
use godbg.Executor.{
  print_messages, list_break_points, list_all_break_points, break_command, after_pc, with_pc,
  clear_all, clear_index,
}
use godbg.Location.{atoi, parse_loc}
use godbg.Step.{Run}
use godbg.Trace.{trace_command}
use godbg.Print.{print_command}
use godbg.Prompt.{
  goes_on, exits, Replies, Setting, is_either, reply, stays, runs, refuse, quit, break_at,
  clear_number, clear_words, of_b, of_word, list_at, of_l, of_p,
}
use godbg.Session.{SystemLaws, IsInText, IsSafe}
use godbg.Session.Quiet.{
  IsQuiet, IsQuiet-print, IsQuiet-reported, IsQuiet-get_ptrace_pc, IsQuiet-print_command,
}
use godbg.Session.Views.{trace_command-IsSameRun}
use godbg.Session.Runs.{Safe-SameButOut, SafeRun, SafeRun-IsSameRun}
use godbg.Session.Breaks.{break_command-Safe}
use godbg.Session.Clears.{clear_all-Safe, clear_index-Safe}

module _ (os : Os) (pid : ℕ) (code : ℕ → Option ℕ) (setting : Setting) (bi : Bi)
    (laws : SystemLaws os pid code) (in_text : IsInText bi code)
    (no_test : setting.is_test ≡ false) where
  open os use {World}
  open setting use {decode, base, cwd, join, execfile, fuel}

  abbrev pub IsSafeNow : Target World → Type 0
  IsSafeNow = IsSafe os pid code

  -- The outcomes of a line: nothing is asked of the state that the program exits in.
  abbrev pub SafeReplies : Replies World → Type 0
  SafeReplies none = Unit
  SafeReplies (some (ok exits, u)) = Unit
  SafeReplies (some (ok goes_on, u)) = IsSafeNow u
  SafeReplies (some (err e, u)) = IsSafeNow u
  SafeReplies (some (panic, u)) = IsSafeNow u

  pub record IsSafeReply (o : Replies World) : Type 0 where
    pub holds : SafeReplies o

  pub either :
      (b : Bool) (x y : Replies World)
      → IsSafeReply x
      → IsSafeReply y
      → IsSafeReply (if b then x else y)
  either true x y h k = h
  either false x y h k = k

  pub stays-Safe : (o : Run World) → SafeRun os pid code o → SafeReplies (stays os setting bi o)
  stays-Safe none h = tt
  stays-Safe (some (ok x, u)) h = h
  stays-Safe (some (err e, u)) h = h
  stays-Safe (some (panic, u)) h = h

  pub runs-Safe :
      (m : M World (Unit {0})) (t : Target World)
      → IsSafeNow (m t).1
      → SafeReplies (runs os setting bi m t)
  runs-Safe m t h = cases (m t).0 (m t).1 h
    where
      cases :
          (r : Result (Unit {0})) (u : Target World)
          → IsSafeNow u
          → SafeReplies (some (reply os setting bi goes_on r, u))
      cases (ok x) u h = h
      cases (err e) u h = h
      cases panic u h = h

  pub quiet-Safe :
      (m : M World (Unit {0})) (t : Target World)
      → IsQuiet m
      → IsSafeNow t
      → SafeReplies (runs os setting bi m t)
  quiet-Safe m t q h = runs-Safe m t (Safe-SameButOut os pid code t _ (q.same t) h)

  pub refuse-Safe :
      (input : Bytes) (t : Target World) → IsSafeNow t → SafeReplies (refuse os setting bi input t)
  refuse-Safe input t h = quiet-Safe _ t (IsQuiet-print (unsupported input)) h

  pub quit-Safe : (t : Target World) → SafeReplies (quit os setting bi t)
  quit-Safe t = rw no_test tt

  messages-Safe :
      (ms : List Message) (t : Target World)
      → IsSafeNow t
      → SafeReplies (runs os setting bi (print_messages ms) t)
  messages-Safe ms t h =
      quiet-Safe (print_messages ms) t
        (record { same = λ t. record { world = refl; table = refl; process = refl } }) h

  break_at-Safe :
      (input place : Bytes) (r : Result (Bytes × ℤ)) (t : Target World)
      → IsSafeNow t
      → SafeReplies (break_at os setting bi input place r t)
  break_at-Safe input place (ok (filename, line)) t h =
      runs-Safe (break_command os cwd join bi place filename line) t
        (break_command-Safe os pid code laws bi in_text cwd join filename line place t h)
  break_at-Safe input place (err e) t h = refuse-Safe input t h
  break_at-Safe input place panic t h = refuse-Safe input t h

  asked :
      (m : Message) (t : Target World) (r : Result ℕ) (u : Target World)
      → SameButOut t u
      → SameButOut t (after_pc os (λ _. print m) r u).1
  asked m t (ok pc) u s = record { world = s.world; table = s.table; process = s.process }
  asked m t (err e) u s = record { world = s.world; table = s.table; process = s.process }
  asked m t panic u s = s

  clear_words-Safe :
      (input word : Bytes) (t : Target World)
      → IsSafeNow t
      → SafeReplies (clear_words os setting bi input word t)
  clear_words-Safe input word t h = elim (Bool-cases (equal word (codes "all"))) [
    | inl all ↦ rw all (runs-Safe (clear_all os) t (clear_all-Safe os pid code laws t h))
    | inr other ↦ rw other (by_number (atoi word))
  ]
    where
      asks : (m : Message) → IsQuiet (with_pc os λ _. print m)
      asks m = record {
        same = λ t.
            asked m t (get_ptrace_pc os t).0 (get_ptrace_pc os t).1
              ((IsQuiet-get_ptrace_pc os).same t);
      }

      by_number :
          (o : Option ℤ) → SafeReplies (runs os setting bi (clear_number os setting bi input o) t)
      by_number none =
          quiet-Safe (with_pc os λ _. print (unsupported input)) t (asks (unsupported input)) h
      by_number (some n) = runs-Safe (clear_index os n) t (clear_index-Safe os pid code laws n t h)

  list_at-Safe :
      (input : Bytes) (r : Result (Bytes × ℤ)) (o : Option ℤ) (t : Target World)
      → IsSafeNow t
      → SafeReplies (list_at os setting bi input r o t)
  list_at-Safe input (ok (filename, line)) (some range) t h =
      quiet-Safe _ t
        (IsQuiet-reported (list_file_line os filename line range)
          (record { same = list_file_line_same os filename line range }))
        h
  list_at-Safe input (ok (filename, line)) none t h = refuse-Safe input t h
  list_at-Safe input (err e) o t h = refuse-Safe input t h
  list_at-Safe input panic o t h = refuse-Safe input t h

  module _ (input : Bytes) (t : Target World) (h : IsSafeNow t) where
    pub refused : IsSafeReply (refuse os setting bi input t)
    refused = record { holds = refuse-Safe input t h }

    pub of_b-Safe : (ws : List Bytes) → IsSafeReply (of_b os setting bi input ws t)
    of_b-Safe [] = refused
    of_b-Safe (w ∷ []) =
        either (equal w (codes "bl")) _ _
          (record { holds = messages-Safe (list_break_points t.infos) t h })
          (either (equal w (codes "bt")) _ _
            (record {
              holds =
                  stays-Safe (trace_command os bi fuel t)
                    (SafeRun-IsSameRun os pid code t _ (trace_command-IsSameRun os bi fuel t) h);
            })
            refused)
    of_b-Safe (w ∷ v ∷ []) =
        either (is_either w (codes "b") (codes "break")) _ _
          (record { holds = break_at-Safe input v (parse_loc v) t h })
          (either (is_either w (codes "bc") (codes "bclear")) _ _
            (record { holds = clear_words-Safe input v t h })
            (either (equal w (codes "bl") && equal v (codes "all")) _ _
              (record { holds = messages-Safe (list_all_break_points t.infos) t h }) refused))
    of_b-Safe (w ∷ v ∷ u ∷ ws) = refused

    pub of_word-Safe :
        (short long : Bytes) (command : Target World → Replies World) (ws : List Bytes)
        → SafeReplies (command t)
        → IsSafeReply (of_word os setting bi short long command input ws t)
    of_word-Safe short long command [] k = refused
    of_word-Safe short long command (w ∷ []) k =
        either (is_either w short long) _ _ (record { holds = k }) refused
    of_word-Safe short long command (w ∷ v ∷ ws) k = refused

    pub of_l-Safe : (ws : List Bytes) → IsSafeReply (of_l os setting bi input ws t)
    of_l-Safe [] = refused
    of_l-Safe (w ∷ []) =
        either (is_either w (codes "l") (codes "list")) _ _
          (record {
            holds =
                quiet-Safe _ t
                  (IsQuiet-reported (list_file_line_by_ptrace_pc os bi (pos 6))
                    (record { same = list_file_line_by_ptrace_pc_same os bi (pos 6) }))
                  h;
          })
          refused
    of_l-Safe (w ∷ place ∷ []) =
        either (is_either w (codes "l") (codes "list")) _ _
          (record { holds = list_at-Safe input (parse_loc place) (some (pos 6)) t h }) refused
    of_l-Safe (w ∷ place ∷ range ∷ []) =
        either (is_either w (codes "l") (codes "list")) _ _
          (record { holds = list_at-Safe input (parse_loc place) (atoi range) t h }) refused
    of_l-Safe (w ∷ place ∷ range ∷ v ∷ ws) = refused

    pub of_p-Safe : (ws : List Bytes) → IsSafeReply (of_p os setting bi input ws t)
    of_p-Safe [] = refused
    of_p-Safe (w ∷ []) = refused
    of_p-Safe (w ∷ name ∷ []) =
        either (is_either w (codes "p") (codes "print")) _ _
          (record {
            holds = quiet-Safe (print_command os bi name) t (IsQuiet-print_command os bi name) h;
          })
          refused
    of_p-Safe (w ∷ name ∷ v ∷ ws) = refused
