-- ===== src/Arith.antt =====
-- Arithmetic on `u32` in Rust: the plain operators panic on overflow in a debug build and wrap in a
-- release build; `checked_add` reports it.
use embedded_overlay.Base.{
  ℕ, ◌+◌, ◌*◌, ◌%◌, ◌^◌, ◌<◌, Option, none, some, ltb, if◌then◌else◌, ◌≡◌, arith,
}
use embedded_overlay.Error.{Result, ok, panic}

pub data Profile : Type 0 where
  debug release : Profile

abbrev pub u32_mod : ℕ
u32_mod = 2 ^ 32

-- `n as u32`
abbrev pub as_u32 : ℕ → ℕ
as_u32 n = n % u32_mod

module _ {ℓ} {E : Type ℓ} where
  -- What a `u32` operator gives whose exact value is `n`.
  unfoldable pub u32_value : Profile → ℕ → Result E ℕ
  u32_value debug n = if ltb n u32_mod then ok n else panic
  u32_value release n = ok (n % u32_mod)

  abbrev pub add_u32 : Profile → ℕ → ℕ → Result E ℕ
  add_u32 p a b = u32_value p (a + b)

  abbrev pub mul_u32 : Profile → ℕ → ℕ → Result E ℕ
  mul_u32 p a b = u32_value p (a * b)

  -- In range the two profiles agree.
  pub u32_value_lem : (p : Profile) (n : ℕ) → n < u32_mod → u32_value p n ≡ ok n
  unfolding u32_value
  u32_value_lem debug n h = ground arith
  u32_value_lem release n h = ground arith

-- What a product of `u64` gives.
unfoldable pub mul_u64 {ℓ} : {E : Type ℓ} → Profile → ℕ → ℕ → Result E ℕ
mul_u64 debug a b = if ltb (a * b) (2 ^ 64) then ok (a * b) else panic
mul_u64 release a b = ok (a * b % 2 ^ 64)

pub mul_u64_lem {ℓ} :
    {E : Type ℓ} (p : Profile) (a b : ℕ) → a * b < 2 ^ 64 → mul_u64 {E = E} p a b ≡ ok (a * b)
unfolding mul_u64
mul_u64_lem debug a b h = ground arith
mul_u64_lem release a b h = ground arith

unfoldable pub checked_add : ℕ → ℕ → Option ℕ
checked_add a b = if ltb (a + b) u32_mod then some (a + b) else none

pub checked_add_lem : (a b : ℕ) → a + b < u32_mod → checked_add a b ≡ some (a + b)
unfolding checked_add
checked_add_lem a b h = ground arith
