-- ===== src/Base/Xor.antt =====
-- The laws of `bit_xor` at variables, from its recursion on binary digits.
use Prim.Native.Nat.{
  ℕ, zero, suc, ◌+◌, ◌*◌, ◌/◌, ◌%◌, ◌^◌, ◌≤◌, ◌<◌, bit_xor, bit_xor-bitwise, differ,
}
use mathlib.Core.Path.{◌≡◌, refl, ap, sym, ◌∙◌}
use native.Mathlib.Nat.{pow-suc, le_refl, div-one, div-div-eq-div-mul}
use native.Mathlib.Omega.{arith}
use embedded_overlay.Base.Digits.{digits_enough}

pub zero-bit_xor : (b : ℕ) → bit_xor 0 b ≡ b
zero-bit_xor b = bit_xor-bitwise 0 b

differ_digits : (x y : ℕ) → x < 2 → y < 2 → differ x y ≡ (x + y) % 2
differ_digits zero y p q = omega arith
differ_digits (suc zero) zero p q = refl
differ_digits (suc zero) (suc zero) p q = refl
differ_digits (suc zero) (suc (suc y)) p q = absurd (omega arith)
differ_digits (suc (suc x)) y p q = absurd (omega arith)

-- The law for the lowest digit.
pub bit_xor_step : (a b : ℕ) → bit_xor a b ≡ bit_xor (a / 2) (b / 2) * 2 + (a % 2 + b % 2) % 2
bit_xor_step zero b = omega (arith, zero-bit_xor b, zero-bit_xor (b / 2))
bit_xor_step (suc a) b = omega (
  arith,
  bit_xor-bitwise (suc a) b,
  bit_xor-bitwise (suc a / 2) (b / 2),
  differ_digits (suc a % 2) (b % 2) (omega arith) (omega arith),
  digits_enough (λ t. t) differ a (suc a / 2) (suc a / 2) (b / 2) (omega arith) (omega arith),
)

-- Halves and last digits of a `bit_xor`.
pub bit_xor-half : (a b : ℕ) → bit_xor a b / 2 ≡ bit_xor (a / 2) (b / 2)
bit_xor-half a b = omega (arith, bit_xor_step a b)

pub bit_xor-digit : (a b : ℕ) → bit_xor a b % 2 ≡ (a % 2 + b % 2) % 2
bit_xor-digit a b = omega (arith, bit_xor_step a b)

-- Induction on a bound `n` of the numbers, which halving lowers.
bit_xor_comm_fuel : (n a b : ℕ) → a ≤ n → b ≤ n → bit_xor a b ≡ bit_xor b a
bit_xor_comm_fuel zero zero zero p q = refl
bit_xor_comm_fuel zero (suc a) b p q = absurd (omega arith)
bit_xor_comm_fuel zero zero (suc b) p q = absurd (omega arith)
bit_xor_comm_fuel (suc n) a b p q = omega (
  arith,
  bit_xor_step a b,
  bit_xor_step b a,
  bit_xor_comm_fuel n (a / 2) (b / 2) (omega arith) (omega arith),
)

pub bit_xor_comm : (a b : ℕ) → bit_xor a b ≡ bit_xor b a
bit_xor_comm a b = bit_xor_comm_fuel (a + b) a b (omega arith) (omega arith)

bit_xor_assoc_fuel :
    (n a b c : ℕ) → a ≤ n → b ≤ n → c ≤ n → bit_xor (bit_xor a b) c ≡ bit_xor a (bit_xor b c)
bit_xor_assoc_fuel zero zero zero zero p q r = refl
bit_xor_assoc_fuel zero (suc a) b c p q r = absurd (omega arith)
bit_xor_assoc_fuel zero zero (suc b) c p q r = absurd (omega arith)
bit_xor_assoc_fuel zero zero zero (suc c) p q r = absurd (omega arith)
bit_xor_assoc_fuel (suc n) a b c p q r =
    let left = bit_xor_step (bit_xor a b) c in
    let right = bit_xor_step a (bit_xor b c) in
    rw (left, right, bit_xor-half a b, bit_xor-half b c)
      (omega (
        arith,
        bit_xor-digit a b,
        bit_xor-digit b c,
        bit_xor_assoc_fuel n (a / 2) (b / 2) (c / 2) (omega arith) (omega arith) (omega arith),
      ))

pub bit_xor_assoc : (a b c : ℕ) → bit_xor (bit_xor a b) c ≡ bit_xor a (bit_xor b c)
bit_xor_assoc a b c = bit_xor_assoc_fuel (a + b + c) a b c (omega arith) (omega arith) (omega arith)

bit_xor_self_fuel : (n a : ℕ) → a ≤ n → bit_xor a a ≡ 0
bit_xor_self_fuel zero zero p = refl
bit_xor_self_fuel zero (suc a) p = absurd (omega arith)
bit_xor_self_fuel (suc n) a p =
    omega (arith, bit_xor_step a a, bit_xor_self_fuel n (a / 2) (omega arith))

pub bit_xor_self : (a : ℕ) → bit_xor a a ≡ 0
bit_xor_self a = bit_xor_self_fuel a a (le_refl a)

pub bit_xor-zero : (a : ℕ) → bit_xor a 0 ≡ a
bit_xor-zero a = bit_xor_comm a 0 ∙ zero-bit_xor a

pub bit_xor_undo_left : (a b : ℕ) → bit_xor a (bit_xor a b) ≡ b
bit_xor_undo_left a b = sym (bit_xor_assoc a a b) ∙ rw (bit_xor_self a) (zero-bit_xor b)

pub bit_xor_cancel_left : (a : ℕ) {b c : ℕ} → bit_xor a b ≡ bit_xor a c → b ≡ c
bit_xor_cancel_left a {b} {c} h =
    sym (bit_xor_undo_left a b) ∙ ap (bit_xor a) h ∙ bit_xor_undo_left a c

pub bit_xor_cancel_right : (a : ℕ) {b c : ℕ} → bit_xor b a ≡ bit_xor c a → b ≡ c
bit_xor_cancel_right a {b} {c} h = bit_xor_cancel_left a (bit_xor_comm a b ∙ h ∙ bit_xor_comm c a)

-- (a ^ b) ^ (c ^ d) regrouped.
pub bit_xor_middle :
    (a b c d : ℕ) → bit_xor (bit_xor a b) (bit_xor c d) ≡ bit_xor (bit_xor a c) (bit_xor b d)
bit_xor_middle a b c d =
    bit_xor_assoc a b (bit_xor c d)
    ∙ ap (bit_xor a)
        (sym (bit_xor_assoc b c d) ∙ ap (λ t. bit_xor t d) (bit_xor_comm b c) ∙ bit_xor_assoc c b d)
    ∙ sym (bit_xor_assoc a c (bit_xor b d))

pub bit_xor-lt : (k a b : ℕ) → a < 2 ^ k → b < 2 ^ k → bit_xor a b < 2 ^ k
bit_xor-lt zero zero zero p q = omega arith
bit_xor-lt zero (suc a) b p q = absurd (omega arith)
bit_xor-lt zero zero (suc b) p q = absurd (omega arith)
bit_xor-lt (suc k) a b p q = omega (
  arith,
  bit_xor_step a b,
  pow-suc 2 k,
  bit_xor-lt k (a / 2) (b / 2) (omega (arith, pow-suc 2 k)) (omega (arith, pow-suc 2 k)),
)

-- Disjoint fields: `(q << k) ^ r` is a sum when `r` fits `k` bits.
pub bit_xor_fields : (k q r : ℕ) → r < 2 ^ k → bit_xor (q * 2 ^ k) r ≡ q * 2 ^ k + r
bit_xor_fields zero q zero p = ground (arith, bit_xor-zero q)
bit_xor_fields zero q (suc r) p = absurd (omega arith)
bit_xor_fields (suc k) q r p =
    let e : q * 2 ^ suc k ≡ 2 * (q * 2 ^ k) = omega (arith, ap (λ (t : ℕ). q * t) (pow-suc 2 k)) in
    let fits : r / 2 < 2 ^ k = omega (arith, pow-suc 2 k) in
    let half : q * 2 ^ suc k / 2 ≡ q * 2 ^ k = omega arith in
    omega (
      arith,
      ap (λ (t : ℕ). bit_xor t (r / 2)) half,
      bit_xor_step (q * 2 ^ suc k) r,
      bit_xor_fields k q (r / 2) fits,
    )

half-shift : (k a : ℕ) → a / 2 ^ suc k ≡ a / 2 ^ k / 2
half-shift k a = ap (λ t. a / t) (pow-suc 2 k) ∙ sym (div-div-eq-div-mul a (2 ^ k) 2)

-- Shifting right distributes.
pub bit_xor-shift : (k a b : ℕ) → bit_xor a b / 2 ^ k ≡ bit_xor (a / 2 ^ k) (b / 2 ^ k)
bit_xor-shift zero a b = simp div-one
bit_xor-shift (suc k) a b =
    rw (half-shift k (bit_xor a b), half-shift k a, half-shift k b, bit_xor-shift k a b)
      (bit_xor-half (a / 2 ^ k) (b / 2 ^ k))
