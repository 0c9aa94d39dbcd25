-- ===== src/Base/Digits.antt =====
-- The library's recursion on binary digits, of which the bitwise operations are instances.
use Prim.Native.Nat.{ℕ, zero, suc, ◌+◌, ◌*◌, ◌/◌, ◌%◌, ◌≤◌, digits}
use mathlib.Core.Path.{◌≡◌, refl, ap, sym, ◌∙◌}
use native.Mathlib.Omega.{arith}

module _ (last : ℕ → ℕ) (digit : ℕ → ℕ → ℕ) where
  digits_zero : (passes b : ℕ) → digits last digit passes 0 b ≡ last b
  digits_zero zero b = refl
  digits_zero (suc passes) b = refl

  -- Any two counts of passes that cover the first number give the same.
  pub digits_enough :
      (passes a passes' b : ℕ)
      → a ≤ passes
      → a ≤ passes'
      → digits last digit passes a b ≡ digits last digit passes' a b
  digits_enough passes zero passes' b h h' = digits_zero passes b ∙ sym (digits_zero passes' b)
  digits_enough zero (suc a) passes' b h h' = absurd (omega arith)
  digits_enough (suc passes) (suc a) zero b h h' = absurd (omega arith)
  digits_enough (suc passes) (suc a) (suc passes') b h h' =
      ap (λ t. t * 2 + digit (suc a % 2) (b % 2))
        (digits_enough passes (suc a / 2) passes' (b / 2) (omega arith) (omega arith))
