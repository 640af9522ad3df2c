-- ===== src/Base/Bits.antt =====
-- The bits of a number, and what the word operations `&`, `|`, `<<` and `1 << d` do to them.
use Prim.Native.Nat.{
  ℕ, zero, suc, ◌+◌, ◌*◌, ◌/◌, ◌%◌, ◌^◌, ◌≤◌, ◌<◌, min, max, bit_and, bit_or, digits,
  bit_and-bitwise, bit_or-bitwise,
}
use mathlib.Core.Path.{◌≡◌, refl, ap, ap₂, ◌∙◌}
use native.Mathlib.Omega.{arith}
use native.Mathlib.Nat.{pow-suc, div-add-mod, mod-lt}
use voicechat.Base.Tests.{◌==◌, if◌then◌else◌}

-- Bit `i` of `a`, as 0 or 1.
pub bit : ℕ → ℕ → ℕ
bit a zero = a % 2
bit a (suc i) = bit (a / 2) i

-- The digitwise operation with `base` for what is left over and `op` on digits: any fuel that is not
-- below the first number gives the same.
module _ (base : ℕ → ℕ) (op : ℕ → ℕ → ℕ) where
  enough_digits :
      (less more x y : ℕ) → x ≤ less → x ≤ more → digits base op less x y ≡ digits base op more x y
  enough_digits (suc less) (suc more) (suc x) y l m =
      let halves = enough_digits less more (suc x / 2) (y / 2) (omega arith) (omega arith) in
      omega (arith, halves)
  enough_digits zero _ (suc x) y l m = absurd (omega arith)
  enough_digits (suc less) zero (suc x) y l m = absurd (omega arith)
  enough_digits zero zero zero y l m = refl
  enough_digits zero (suc more) zero y l m = refl
  enough_digits (suc less) zero zero y l m = refl
  enough_digits (suc less) (suc more) zero y l m = refl

  first_digit :
      (x y : ℕ)
      → digits base op (suc x) (suc x) y
        ≡ digits base op (suc x / 2) (suc x / 2) (y / 2) * 2 + op (suc x % 2) (y % 2)
  first_digit x y =
      let half = enough_digits x (suc x / 2) (suc x / 2) (y / 2) (omega arith) (omega arith) in
      omega (arith, half)

bit_and_step : (a b : ℕ) → bit_and a b ≡ bit_and (a / 2) (b / 2) * 2 + min (a % 2) (b % 2)
bit_and_step zero b =
    let none_left = bit_and-bitwise 0 b in
    let none_above = bit_and-bitwise 0 (b / 2) in omega (arith, none_left, none_above)
bit_and_step (suc a) b =
    let above = bit_and-bitwise (suc a / 2) (b / 2) in
    omega (arith, first_digit (λ y. zero) min a b, above, bit_and-bitwise (suc a) b)

bit_or_step : (a b : ℕ) → bit_or a b ≡ bit_or (a / 2) (b / 2) * 2 + max (a % 2) (b % 2)
bit_or_step zero b =
    let all_left = bit_or-bitwise 0 b in
    let all_above = bit_or-bitwise 0 (b / 2) in omega (arith, all_left, all_above)
bit_or_step (suc a) b =
    let above = bit_or-bitwise (suc a / 2) (b / 2) in
    omega (arith, first_digit (λ y. y) max a b, above, bit_or-bitwise (suc a) b)

no_digits : (n a : ℕ) → digits (λ y. zero) min n a 0 ≡ 0
no_digits zero zero = refl
no_digits zero (suc a) = refl
no_digits (suc n) zero = refl
no_digits (suc n) (suc a) = omega (arith, no_digits n (suc a / 2))

no_bits : (a : ℕ) → bit_and a 0 ≡ 0
no_bits a = bit_and-bitwise a 0 ∙ no_digits a a

pub two_pow_suc : (d : ℕ) → 2 ^ suc d ≡ 2 * 2 ^ d
two_pow_suc d = omega (arith, pow-suc 2 d)

half_twice : (m : ℕ) → 2 * m / 2 ≡ m
half_twice m = omega arith

-- `a & (1 << d)` is bit `d` of `a`, in its place.
pub bit_and-two_pow : (a d : ℕ) → bit_and a (2 ^ d) ≡ bit a d * 2 ^ d
unfolding bit
bit_and-two_pow a zero = omega (arith, bit_and_step a 1, no_bits (a / 2))
bit_and-two_pow a (suc d) = omega (
  arith,
  two_pow_suc d,
  ap (bit_and a) (two_pow_suc d),
  bit_and_step a (2 * 2 ^ d),
  ap (bit_and (a / 2)) (half_twice (2 ^ d)),
  bit_and-two_pow (a / 2) d,
  ap (λ (n : ℕ). bit (a / 2) d * n) (two_pow_suc d),
)

pub bit-bit_or : (a b i : ℕ) → bit (bit_or a b) i ≡ max (bit a i) (bit b i)
unfolding bit
bit-bit_or a b zero = omega (arith, bit_or_step a b)
bit-bit_or a b (suc i) =
    ap (λ n. bit n i) {x = bit_or a b / 2} {y = bit_or (a / 2) (b / 2)}
      (omega (arith, bit_or_step a b))
    ∙ bit-bit_or (a / 2) (b / 2) i

pub bit_le_one : (a i : ℕ) → bit a i ≤ 1
unfolding bit
bit_le_one a zero = omega arith
bit_le_one a (suc i) = bit_le_one (a / 2) i

pub bit-zero : (i : ℕ) → bit 0 i ≡ 0
unfolding bit
bit-zero zero = refl
bit-zero (suc i) = bit-zero i

pub bit-two_pow : (d i : ℕ) → bit (2 ^ d) i ≡ (if i == d then 1 else 0)
unfolding bit
bit-two_pow zero zero = refl
bit-two_pow zero (suc i) = ground (arith, bit-zero i)
bit-two_pow (suc d) zero = ground (arith, two_pow_suc d)
bit-two_pow (suc d) (suc i) =
    ap (λ n. bit n i) {x = 2 ^ suc d / 2} {y = 2 ^ d} (omega (arith, two_pow_suc d))
    ∙ ground (arith, bit-two_pow d i)

pub two_pow_pos : (d : ℕ) → 0 < 2 ^ d
two_pow_pos zero = omega arith
two_pow_pos (suc d) = omega (arith, two_pow_suc d, two_pow_pos d)

mod_double : (a m : ℕ) → 0 < m → (a % (2 * m) % 2 ≡ a % 2) × (a % (2 * m) / 2 ≡ a / 2 % m)
mod_double a m h = (
  omega (arith, mod-lt a {m = 2 * m}, div-add-mod a (2 * m)),
  grind (arith, div-add-mod a (2 * m)),
)

-- A bit below the width survives the wrap to that width.
pub bit-mod : (w a i : ℕ) → i < w → bit (a % 2 ^ w) i ≡ bit a i
unfolding bit
bit-mod zero a i h = elim h [ ]
bit-mod (suc w) a zero h = rw (two_pow_suc w) (mod_double a (2 ^ w) (two_pow_pos w)).0
bit-mod (suc w) a (suc i) h =
    rw (two_pow_suc w, (mod_double a (2 ^ w) (two_pow_pos w)).1) (bit-mod w (a / 2) i (omega arith))

-- `a << s` on numbers that do not wrap: zeros below bit `s`, and the bits of `a` from there on.
pub bit-shift_low : (s a i : ℕ) → i < s → bit (a * 2 ^ s) i ≡ 0
unfolding bit
bit-shift_low zero a i h = elim h [ ]
bit-shift_low (suc s) a zero h = omega (arith, ap (λ (n : ℕ). a * n) (two_pow_suc s))
bit-shift_low (suc s) a (suc i) h =
    ap (λ n. bit n i) {x = a * 2 ^ suc s / 2} {y = a * 2 ^ s}
      (omega (arith, ap (λ (n : ℕ). a * n) (two_pow_suc s)))
    ∙ bit-shift_low s a i (omega arith)

pub bit-shift_high : (s a i : ℕ) → bit (a * 2 ^ s) (s + i) ≡ bit a i
unfolding bit
bit-shift_high zero a i =
    ap₂ bit {x = a * 1} {y = a} {u = 0 + i} {v = i} (omega arith) (omega arith)
bit-shift_high (suc s) a i =
    ap (bit (a * 2 ^ suc s)) {x = suc s + i} {y = suc (s + i)} (omega arith)
    ∙ ap (λ n. bit n (s + i)) {x = a * 2 ^ suc s / 2} {y = a * 2 ^ s}
        (omega (arith, ap (λ (n : ℕ). a * n) (two_pow_suc s)))
    ∙ bit-shift_high s a i
