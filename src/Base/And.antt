-- ===== src/Base/And.antt =====
-- `bit_and` at variables: its law for the lowest digit, and masks of low bits.
use Prim.Native.Nat.{
  ℕ, zero, suc, ◌+◌, ◌-◌, ◌*◌, ◌/◌, ◌%◌, ◌^◌, ◌≤◌, ◌<◌, min, bit_and, bit_and-bitwise,
}
use mathlib.Core.Path.{◌≡◌, refl, ap, ◌∙◌}
use native.Mathlib.Nat.{pow-suc, one-le-pow}
use native.Mathlib.Omega.{arith}
use embedded_overlay.Base.Digits.{digits_enough}

bit_and_none : (b : ℕ) → bit_and 0 b ≡ 0
bit_and_none b = bit_and-bitwise 0 b

-- The law for the lowest digit.
pub bit_and_step : (x y : ℕ) → bit_and x y ≡ 2 * bit_and (x / 2) (y / 2) + min (x % 2) (y % 2)
bit_and_step zero y = omega (arith, bit_and_none y, bit_and_none (y / 2))
bit_and_step (suc x) y =
    let passes =
      digits_enough (λ _. 0) min x (suc x / 2) (suc x / 2) (y / 2) (omega arith) (omega arith) in
    omega (arith, bit_and-bitwise (suc x) y, passes, bit_and-bitwise (suc x / 2) (y / 2))

bit_and_comm_fuel : (n a b : ℕ) → a ≤ n → b ≤ n → bit_and a b ≡ bit_and b a
bit_and_comm_fuel zero zero zero p q = refl
bit_and_comm_fuel zero (suc a) b p q = absurd (omega arith)
bit_and_comm_fuel zero zero (suc b) p q = absurd (omega arith)
bit_and_comm_fuel (suc n) a b p q = omega (
  arith,
  bit_and_step a b,
  bit_and_step b a,
  bit_and_comm_fuel n (a / 2) (b / 2) (omega arith) (omega arith),
)

pub bit_and_comm : (a b : ℕ) → bit_and a b ≡ bit_and b a
bit_and_comm a b = bit_and_comm_fuel (a + b) a b (omega arith) (omega arith)

pub bit_and-zero : (a : ℕ) → bit_and a 0 ≡ 0
bit_and-zero a = bit_and_comm a 0 ∙ bit_and_none a

bit_and_low : (k q r : ℕ) → r < 2 ^ k → bit_and (q * 2 ^ k + r) (2 ^ k - 1) ≡ r
bit_and_low zero q r fits = rw bit_and-zero (omega arith)
bit_and_low (suc k) q r fits = ground (
  arith,
  bit_and_step (q * 2 ^ suc k + r) (2 ^ suc k - 1),
  ap (λ (t : ℕ). q * t) (pow-suc 2 k),
  pow-suc 2 k,
  bit_and_low k q (r / 2) (omega (arith, pow-suc 2 k)),
)

-- A mask of `k` low bits is the remainder by `2 ^ k`.
pub bit_and_mask : (k a : ℕ) → bit_and a (2 ^ k - 1) ≡ a % 2 ^ k
bit_and_mask k a = ground (arith, one-le-pow k 2, bit_and_low k (a / 2 ^ k) (a % 2 ^ k))

pub bit_and-one : (a : ℕ) → bit_and a 1 ≡ a % 2
bit_and-one a = bit_and_mask 1 a

pub bit_and-byte : (a : ℕ) → bit_and a 0xff ≡ a % 256
bit_and-byte a = bit_and_mask 8 a

pub bit_and-le : (k a b : ℕ) → a < 2 ^ k → bit_and a b ≤ a
bit_and-le zero zero b h = omega (arith, bit_and_none b)
bit_and-le zero (suc a) b h = absurd (omega arith)
bit_and-le (suc k) a b h = omega (
  arith,
  bit_and_step a b,
  pow-suc 2 k,
  bit_and-le k (a / 2) (b / 2) (omega (arith, pow-suc 2 k)),
)
