-- ===== src/Prelude/Bits.antt =====
-- Shifts and masks on words as arithmetic: the laws that the codecs need. A left shift by `k` is
-- `* 2 ^ k` and a right shift `/ 2 ^ k`.
use Prim.Native.Nat.{
  ℕ, zero, suc, ◌+◌, ◌*◌, ◌/◌, ◌%◌, ◌^◌, ◌≤◌, ◌<◌, min, max, bit_and, bit_or, digits,
  bit_and-bitwise, bit_or-bitwise,
}
use mathlib.Core.Path.{◌≡◌, refl}
use native.Mathlib.Omega.{arith}
use native.Mathlib.Nat.{pow-suc}

-- A recursion on digits gives the same on any larger fuel, once the fuel covers the first number.
module _ (rest : ℕ → ℕ) (digit : ℕ → ℕ → ℕ) where
  digits-zero : (fuel y : ℕ) → digits rest digit fuel 0 y ≡ rest y
  digits-zero zero y = refl
  digits-zero (suc fuel) y = refl

  digits_more :
      (total fuel x y : ℕ)
      → x ≤ fuel
      → fuel ≤ total
      → digits rest digit total x y ≡ digits rest digit fuel x y
  digits_more total fuel zero y h k = omega (arith, digits-zero total y, digits-zero fuel y)
  digits_more total zero (suc x) y h k = absurd (omega arith)
  digits_more zero (suc fuel) (suc x) y h k = absurd (omega arith)
  digits_more (suc total) (suc fuel) (suc x) y h k =
      omega (arith, digits_more total fuel (suc x / 2) (y / 2) (omega arith) (omega arith))

  -- Half a number is covered by its own digits.
  digits-half :
      (x y : ℕ) → digits rest digit x (suc x / 2) y ≡ digits rest digit (suc x / 2) (suc x / 2) y
  digits-half x y = digits_more x (suc x / 2) (suc x / 2) y (omega arith) (omega arith)

-- The lowest digit of a conjunction and of a disjunction, above the others.
bit_and_step : (x y : ℕ) → bit_and x y ≡ bit_and (x / 2) (y / 2) * 2 + min (x % 2) (y % 2)
bit_and_step zero y = rw (bit_and-bitwise 0 y, bit_and-bitwise 0 (y / 2)) (omega arith)
bit_and_step (suc x) y =
    rw (bit_and-bitwise (suc x) y, bit_and-bitwise (suc x / 2) (y / 2))
      (omega (arith, digits-half (λ r. zero) min x (y / 2)))

bit_or_step : (x y : ℕ) → bit_or x y ≡ bit_or (x / 2) (y / 2) * 2 + max (x % 2) (y % 2)
bit_or_step zero y = rw (bit_or-bitwise 0 y, bit_or-bitwise 0 (y / 2)) (omega arith)
bit_or_step (suc x) y =
    rw (bit_or-bitwise (suc x) y, bit_or-bitwise (suc x / 2) (y / 2))
      (omega (arith, digits-half (λ r. r) max x (y / 2)))

-- An operand without a digit, on any count of digits of the other.
min-digits-zero : (fuel x : ℕ) → digits (λ r. zero) min fuel x 0 ≡ 0
min-digits-zero zero x = refl
min-digits-zero (suc fuel) zero = refl
min-digits-zero (suc fuel) (suc x) = omega (arith, min-digits-zero fuel (suc x / 2))

max-digits-zero : (fuel x : ℕ) → x ≤ fuel → digits (λ r. r) max fuel x 0 ≡ x
max-digits-zero zero x h = omega arith
max-digits-zero (suc fuel) zero h = refl
max-digits-zero (suc fuel) (suc x) h = omega (arith, max-digits-zero fuel (suc x / 2) (omega arith))

bit_and-zero : (x : ℕ) → bit_and x 0 ≡ 0
bit_and-zero x = rw (bit_and-bitwise x 0) (min-digits-zero x x)

bit_or-zero : (x : ℕ) → bit_or x 0 ≡ x
bit_or-zero x = rw (bit_or-bitwise x 0) (max-digits-zero x x (omega arith))

-- A mask of ones keeps the low bits.
bit_and_15 : (a : ℕ) → bit_and a 15 ≡ a % 16
bit_and_15 a = omega (
  arith,
  bit_and_step a 15,
  bit_and_step (a / 2) 7,
  bit_and_step (a / 2 / 2) 3,
  bit_and_step (a / 2 / 2 / 2) 1,
  bit_and-zero (a / 2 / 2 / 2 / 2),
)

pub bit_and_0f : (a : ℕ) → bit_and a 0x0f ≡ a % 16
bit_and_0f a = bit_and_15 a

pub bit_and_3f : (a : ℕ) → bit_and a 0x3f ≡ a % 64
bit_and_3f a = omega (arith, bit_and_step a 63, bit_and_step (a / 2) 31, bit_and_15 (a / 2 / 2))

pub bit_and_ff : (a : ℕ) → bit_and a 0xff ≡ a % 256
bit_and_ff a = omega (
  arith,
  bit_and_step a 255,
  bit_and_step (a / 2) 127,
  bit_and_step (a / 2 / 2) 63,
  bit_and_step (a / 2 / 2 / 2) 31,
  bit_and_15 (a / 2 / 2 / 2 / 2),
)

bit_or_double : (x b : ℕ) → bit_or (x * 2) b ≡ bit_or x (b / 2) * 2 + b % 2
bit_or_double x b =
    let half : x * 2 / 2 ≡ x = omega arith in omega (arith, rw half at (bit_or_step (x * 2) b))

-- `|` puts a field into the empty low bits.
pub bit_or_shift : (k a b : ℕ) → b < 2 ^ k → bit_or (a * 2 ^ k) b ≡ a * 2 ^ k + b
bit_or_shift zero a zero h = omega (arith, bit_or-zero (a * 1))
bit_or_shift zero a (suc b) h = absurd (omega arith)
bit_or_shift (suc k) a b h =
    let e : a * 2 ^ suc k ≡ a * 2 ^ k * 2 = rw pow-suc (omega arith) in
    rw e (
      omega
        (arith, bit_or_double (a * 2 ^ k) b, bit_or_shift k a (b / 2) (omega (arith, pow-suc 2 k))))
