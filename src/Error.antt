-- ===== src/Error.antt =====
-- src/error.rs: the errors of the overlay loader and of the filesystem; and the outcome of a
-- call, which returns a value, returns an error, or panics.
use embedded_overlay.Base.{ℕ, Bool, true, false}

pub data OverlayError : Type 0 where
  storage invalid_magic unsupported_version header_checksum_mismatch : OverlayError
  payload_crc_mismatch : (expected calculated : ℕ) → OverlayError
  slot_too_small : (required available : ℕ) → OverlayError
  module_not_found : ℕ → OverlayError
  invalid_alignment invalid_slot_index : OverlayError

pub data VfsError : Type 0 where
  storage invalid_magic unsupported_version superblock_crc_mismatch : VfsError
  asset_not_found : ℕ → VfsError
  buffer_too_small : (required provided : ℕ) → VfsError
  offset_out_of_bounds integrity_check_failed : VfsError

-- `Result<A, E>`, and a panic.
pub data Result {ℓ κ} (E : Type ℓ) (A : Type κ) : Type (ℓ ⊔ κ) where
  ok : A → Result E A
  err : E → Result E A
  panic : Result E A

infixl 5 ◌>>=◌ ◌>>◌
abbrev pub ◌>>=◌ {ℓ κ μ} :
    {E : Type ℓ} {A : Type κ} {B : Type μ} → Result E A → (A → Result E B) → Result E B
ok a >>= f = f a
err e >>= f = err e
panic >>= f = panic

abbrev pub ◌>>◌ {ℓ κ} : {E : Type ℓ} {B : Type κ} → Result E (Unit {0}) → Result E B → Result E B
m >> k = m >>= λ _. k

-- `if !test { return Err(e) }`.
abbrev pub guard {ℓ} : {E : Type ℓ} → Bool → E → Result E (Unit {0})
guard true e = ok tt
guard false e = err e

-- `.map_err(f)`.
abbrev pub map_err {ℓ κ μ} :
    {E : Type ℓ} {F : Type κ} {A : Type μ} → (E → F) → Result E A → Result F A
map_err f (ok a) = ok a
map_err f (err e) = err (f e)
map_err f panic = panic
