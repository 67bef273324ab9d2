-- ===== src/Prompt/Unknown.antt =====
-- A line whose first word is no command.
use godbg.Common.{
  ◌==◌, if◌then◌else◌, get_elem?, All, ℕ, zero, suc, ◌≡◌, refl, sym, ap, ◌∙◌, Bool, true, false,
  some, List, [], ◌∷◌, ◌++◌,
}
use godbg.Common.Bytes.{Bytes, codes, equal, equal_iff}
use godbg.Common.Result.{ok}
use godbg.Output.{unsupported}
use godbg.Target.{Os, Target}
use godbg.Bi.{Bi}
use godbg.Location.{split}
use godbg.Prompt.{
  goes_on, Replies, Setting, space, refuse, of_b, of_word, of_l, of_p, switch, executor,
}
use mathlib.Core.Path.{subst}

-- The names of the commands, as `printCmdHelper` lists them, and `bt`.
abbrev pub names : List Bytes
names =
    codes "q"
    ∷ codes "quit"
    ∷ codes "b"
    ∷ codes "break"
    ∷ codes "bc"
    ∷ codes "bclear"
    ∷ codes "bl"
    ∷ codes "bt"
    ∷ codes "c"
    ∷ codes "continue"
    ∷ codes "s"
    ∷ codes "step"
    ∷ codes "n"
    ∷ codes "next"
    ∷ codes "l"
    ∷ codes "list"
    ∷ codes "r"
    ∷ codes "restart"
    ∷ codes "disass"
    ∷ codes "disassemble"
    ∷ codes "p"
    ∷ codes "print"
    ∷ codes "h"
    ∷ codes "help"
    ∷ []

abbrev pub IsNoName : Bytes → Type 0
IsNoName w = All (λ n. equal w n ≡ false) names

All-get {ℓ κ} :
    {A : Type ℓ} (P : A → Type κ) (xs : List A) (i : ℕ) (x : A)
    → All P xs
    → get_elem? xs i ≡ some x
    → P x
All-get P [] i x h e = cc
All-get P (y ∷ xs) zero x h e = let same : y ≡ x = cc in subst P same (h.0)
All-get P (y ∷ xs) (suc i) x h e = All-get P xs i x (h.1) e

-- The name at a place of the list.
name_at :
    (w : Bytes) (i : ℕ) (n : Bytes) → IsNoName w → get_elem? names i ≡ some n → equal w n ≡ false
name_at w i n h e = All-get (λ n. equal w n ≡ false) names i n h e

module _ (os : Os) (setting : Setting) (bi : Bi) where
  open os use {World}

  both {ℓ} : {A : Type ℓ} (b : Bool) {x y z : A} → x ≡ z → y ≡ z → (if b then x else y) ≡ z
  both true p q = p
  both false p q = q

  of_b-refuse :
      (input w : Bytes) (ws : List Bytes) (t : Target World)
      → IsNoName w
      → of_b os setting bi input (w ∷ ws) t ≡ refuse os setting bi input t
  of_b-refuse input w [] t h =
      rw (name_at w 6 (codes "bl") h refl, name_at w 7 (codes "bt") h refl) refl
  of_b-refuse input w (v ∷ []) t h =
      rw
        (
          name_at w 2 (codes "b") h refl,
          name_at w 3 (codes "break") h refl,
          name_at w 4 (codes "bc") h refl,
          name_at w 5 (codes "bclear") h refl,
          name_at w 6 (codes "bl") h refl,
        )
        refl
  of_b-refuse input w (v ∷ u ∷ ws) t h = refl

  of_word-refuse :
      (short long : Bytes) (command : Target World → Replies World) (input w : Bytes)
      (ws : List Bytes) (t : Target World)
      → equal w short ≡ false
      → equal w long ≡ false
      → of_word os setting bi short long command input (w ∷ ws) t ≡ refuse os setting bi input t
  of_word-refuse short long command input w [] t a b = rw (a, b) refl
  of_word-refuse short long command input w (v ∷ ws) t a b = refl

  of_l-refuse :
      (input w : Bytes) (ws : List Bytes) (t : Target World)
      → equal w (codes "l") ≡ false
      → equal w (codes "list") ≡ false
      → of_l os setting bi input (w ∷ ws) t ≡ refuse os setting bi input t
  of_l-refuse input w [] t a b = rw (a, b) refl
  of_l-refuse input w (u ∷ []) t a b = rw (a, b) refl
  of_l-refuse input w (u ∷ v ∷ []) t a b = rw (a, b) refl
  of_l-refuse input w (u ∷ v ∷ x ∷ ws) t a b = refl

  of_p-refuse :
      (input w : Bytes) (ws : List Bytes) (t : Target World)
      → equal w (codes "p") ≡ false
      → equal w (codes "print") ≡ false
      → of_p os setting bi input (w ∷ ws) t ≡ refuse os setting bi input t
  of_p-refuse input w [] t a b = refl
  of_p-refuse input w (u ∷ []) t a b = rw (a, b) refl
  of_p-refuse input w (u ∷ v ∷ ws) t a b = refl

  -- A line that is one name has that name as its first word.
  not_name :
      (input w name : Bytes) (ws : List Bytes)
      → split space input ≡ w ∷ ws
      → split space name ≡ name ∷ []
      → equal w name ≡ false
      → equal input name ≡ false
  not_name input w name ws words whole other = by_test (equal input name) refl
    where
      by_test : (b : Bool) → equal input name ≡ b → b ≡ false
      by_test true e =
          let same = (equal_iff input name).0 e in
          let first : w ∷ ws ≡ name ∷ [] = sym words ∙ ap (split space) same ∙ whole in
          let is : w ≡ name = cc in let yes : equal w name ≡ true = (equal_iff w name).1 is in cc
      by_test false e = refl

  -- A line that is not empty, and whose first word is the name of no command, is printed as one that is
  -- not supported, and nothing else changes: the table, the process and the machine are as they were,
  -- and the program goes on.
  pub executor-IsNoName :
      (fs : ℕ) (rest w : Bytes) (ws : List Bytes) (t : Target World)
      → split space (fs ∷ rest) ≡ w ∷ ws
      → IsNoName w
      → executor os setting bi (fs ∷ rest) t
        ≡ some (ok goes_on, record t { out = t.out ++ (unsupported (fs ∷ rest) ∷ []) })
  unfolding executor split
  executor-IsNoName fs rest w ws t words h =
      ap (λ l. switch os setting bi fs (fs ∷ rest) l t) words
      ∙ both (fs == b'q')
          (rw
            (
              not_name (fs ∷ rest) w (codes "q") ws words refl (name_at w 0 (codes "q") h refl),
              not_name (fs ∷ rest) w (codes "quit") ws words refl
                  (name_at w 1 (codes "quit") h refl),
            )
            refl)
          (both (fs == b'b') (of_b-refuse input w ws t h) (
            both (fs == b'c') (word 8 (codes "c") (codes "continue") _ refl refl) (
              both (fs == b's') (word 10 (codes "s") (codes "step") _ refl refl) (
                both (fs == b'n') (word 12 (codes "n") (codes "next") _ refl refl) (
                  both (fs == b'l')
                    (of_l-refuse input w ws t (name_at w 14 (codes "l") h refl)
                      (name_at w 15 (codes "list") h refl))
                    (both (fs == b'r') (word 16 (codes "r") (codes "restart") _ refl refl) (
                      both (fs == b'd') (word 18 (codes "disass") (codes "disassemble") _ refl refl)
                        (both (fs == b'p')
                          (of_p-refuse input w ws t (name_at w 20 (codes "p") h refl)
                            (name_at w 21 (codes "print") h refl))
                          (both (fs == b'h') (word 22 (codes "h") (codes "help") _ refl refl)
                            refl)))))))))
    where
      input : Bytes
      input = fs ∷ rest

      word :
          (i : ℕ) (short long : Bytes) (command : Target World → Replies World)
          → get_elem? names i ≡ some short
          → get_elem? names (suc i) ≡ some long
          → of_word os setting bi short long command input (w ∷ ws) t ≡ refuse os setting bi input t
      word i short long command a b =
          of_word-refuse short long command input w ws t (name_at w i short h a)
            (name_at w (suc i) long h b)
