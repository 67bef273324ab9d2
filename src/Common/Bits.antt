-- ===== src/Common/Bits.antt =====
-- `|` of fields that do not overlap, and the masks of one byte, as arithmetic.
use Prim.Native.Nat.{
  ℕ, zero, suc, ◌+◌, ◌*◌, ◌/◌, ◌%◌, ◌^◌, ◌≤◌, ◌<◌, max, bit_and, bit_or, digits, bit_or-bitwise,
}
use mathlib.Core.Path.{◌≡◌, refl, ap, ◌∙◌}
use mathlib.Core.Bool.{Bool, true, false}
use native.Mathlib.Nat.{
  pow-suc, one-le-pow, div-add-mod, mul-add-mod_self_left, mod-eq_of_lt, mod-lt,
}
use native.Mathlib.Omega.{arith}
use godbg.Common.Tests.{◌==◌, if◌then◌else◌}

-- The digits of `a | b` with fuel `n`: any fuel from `a` on gives the same.
abbrev or_digits : ℕ → ℕ → ℕ → ℕ
or_digits n a b = digits (λ y. y) max n a b

or_digits_fuel : (n m a b : ℕ) → a ≤ n → a ≤ m → or_digits n a b ≡ or_digits m a b
or_digits_fuel zero zero a b p q = refl
or_digits_fuel zero (suc m) zero b p q = refl
or_digits_fuel zero (suc m) (suc a) b p q = absurd (omega arith)
or_digits_fuel (suc n) zero zero b p q = refl
or_digits_fuel (suc n) zero (suc a) b p q = absurd (omega arith)
or_digits_fuel (suc n) (suc m) zero b p q = refl
or_digits_fuel (suc n) (suc m) (suc a) b p q =
    omega (arith, or_digits_fuel n m (suc a / 2) (b / 2) (omega arith) (omega arith))

pub bit_or_step : (m n : ℕ) → bit_or m n ≡ bit_or (m / 2) (n / 2) * 2 + max (m % 2) (n % 2)
bit_or_step zero n = omega (arith, bit_or-bitwise 0 n, bit_or-bitwise 0 (n / 2))
bit_or_step (suc m) n = omega (
  arith,
  or_digits_fuel m (suc m / 2) (suc m / 2) (n / 2) (omega arith) (omega arith),
  bit_or-bitwise (suc m / 2) (n / 2),
  bit_or-bitwise (suc m) n,
)

pub zero-bit_or : (b : ℕ) → bit_or 0 b ≡ b
zero-bit_or b = bit_or-bitwise 0 b

-- The lowest binary digit of a number under a modulus that is even.
double_mod : (e x m : ℕ) → e < 2 → 0 < m → (e + 2 * x) % (2 * m) ≡ e + 2 * (x % m)
double_mod e x m he hm =
    ap (λ (t : ℕ). t % (2 * m)) split
    ∙ mul-add-mod_self_left (2 * m) (x / m) (e + 2 * (x % m))
    ∙ mod-eq_of_lt (omega (arith, mod-lt x hm))
  where
    split : e + 2 * x ≡ 2 * m * (x / m) + (e + 2 * (x % m))
    split = omega (arith, div-add-mod x m)

-- `r | (g << s)`, in `w` bits: a sum, if `r` has no bit from `s` on.
pub bit_or-shift :
    (w s r g : ℕ) → r < 2 ^ s → r < 2 ^ w → bit_or r (g * 2 ^ s % 2 ^ w) ≡ (r + g * 2 ^ s) % 2 ^ w
bit_or-shift w zero zero g p q = rw zero-bit_or (ap (λ (t : ℕ). t % 2 ^ w) (omega arith))
bit_or-shift w zero (suc r) g p q = absurd (omega arith)
bit_or-shift zero (suc s) zero g p q = rw zero-bit_or (ap (λ (t : ℕ). t % 1) (omega arith))
bit_or-shift zero (suc s) (suc r) g p q = absurd (omega arith)
bit_or-shift (suc w) (suc s) r g p q =
    rw (mod_twice, mod_sum, bit_or_step)
      (omega (
        arith,
        halved,
        bit_or-shift w s (r / 2) g (omega (arith, pow-suc 2 s)) (omega (arith, pow-suc 2 w)),
      ))
  where
    two_pow : (n : ℕ) → 2 ^ suc n ≡ 2 * 2 ^ n
    two_pow n = omega (arith, pow-suc 2 n)

    shifted : g * 2 ^ suc s ≡ 2 * (g * 2 ^ s)
    shifted = omega (arith, ap (λ (t : ℕ). g * t) (pow-suc 2 s))

    mod_twice : g * 2 ^ suc s % 2 ^ suc w ≡ 2 * (g * 2 ^ s % 2 ^ w)
    mod_twice =
        rw (shifted, two_pow w)
          (ap (λ (t : ℕ). t % (2 * 2 ^ w)) (omega arith)
            ∙ double_mod 0 (g * 2 ^ s) (2 ^ w) (omega arith) (one-le-pow w 2 (omega arith))
            ∙ omega arith)

    mod_sum : (r + g * 2 ^ suc s) % 2 ^ suc w ≡ r % 2 + 2 * ((r / 2 + g * 2 ^ s) % 2 ^ w)
    mod_sum =
        let halves : r + g * 2 ^ suc s ≡ r % 2 + 2 * (r / 2 + g * 2 ^ s) = omega (arith, shifted) in
        rw (halves, two_pow w)
          (double_mod (r % 2) (r / 2 + g * 2 ^ s) (2 ^ w) (omega arith)
            (one-le-pow w 2 (omega arith)))

    halved : bit_or (r / 2) (2 * (g * 2 ^ s % 2 ^ w) / 2) ≡ bit_or (r / 2) (g * 2 ^ s % 2 ^ w)
    halved = ap (bit_or (r / 2)) (omega arith)

-- The masks that the program puts on one byte, each a table checked by evaluation.
module _ (f g : ℕ → ℕ) where
  agree_on : ℕ → Bool
  agree_on zero = true
  agree_on (suc k) = if f k == g k then agree_on k else false

  agree_on_lem : (k b : ℕ) → b < k → agree_on k ≡ true → f b ≡ g b
  unfolding agree_on
  agree_on_lem zero b below all = absurd (omega arith)
  agree_on_lem (suc k) b below all = ground (arith, agree_on_lem k b)

  agree : agree_on 256 ≡ true → (b : ℕ) → b < 256 → f b ≡ g b
  agree all b below = agree_on_lem 256 b below all

pub low_seven : (b : ℕ) → b < 256 → bit_and b 0x7f ≡ b % 128
unfolding agree_on
low_seven = agree _ _ refl

pub top_bit : (b : ℕ) → b < 256 → bit_and b 0x80 ≡ b / 128 * 128
unfolding agree_on
top_bit = agree _ _ refl

pub sign_bit : (b : ℕ) → b < 256 → bit_and b 0x40 ≡ b / 64 % 2 * 64
unfolding agree_on
sign_bit = agree _ _ refl

pub high_two : (b : ℕ) → b < 256 → bit_and b 0xc0 ≡ b / 64 * 64
unfolding agree_on
high_two = agree _ _ refl

pub low_six : (b : ℕ) → b < 256 → bit_and b 0x3f ≡ b % 64
unfolding agree_on
low_six = agree _ _ refl
