-- ===== src/Base/Or.antt =====
-- `bit_or` at variables: the lowest digit of an even number set.
use Prim.Native.Nat.{ℕ, zero, suc, ◌+◌, ◌/◌, ◌%◌, ◌≤◌, max, bit_or, digits, bit_or-bitwise}
use mathlib.Core.Path.{◌≡◌}
use native.Mathlib.Omega.{arith}

or_digits-zero : (n a : ℕ) → a ≤ n → digits (λ b. b) max n a 0 ≡ a
or_digits-zero zero zero h = omega arith
or_digits-zero zero (suc a) h = absurd (omega arith)
or_digits-zero (suc n) zero h = omega arith
or_digits-zero (suc n) (suc a) h = omega (arith, or_digits-zero n (suc a / 2) (omega arith))

pub bit_or-one : (a : ℕ) → a % 2 ≡ 0 → bit_or a 1 ≡ a + 1
bit_or-one zero even = bit_or-bitwise 0 1
bit_or-one (suc a) even =
    omega (arith, bit_or-bitwise (suc a) 1, or_digits-zero a (suc a / 2) (omega arith))
