-- ===== src/Flash.antt =====
-- The traits `ReadNorFlash` and `NorFlash` of the crate embedded-storage-async, over which the
-- overlays and the filesystem are generic. A call takes the store and returns it changed; a read
-- also returns the caller's buffer, whatever the outcome.
pub mod Mock
pub mod Partition
pub mod Isolation
use embedded_overlay.Base.{ℕ, ◌+◌, ◌≤◌, ◌<◌, List, length, slice, ◌≡◌}
use embedded_overlay.Error.{Result, ok, err, panic}

pub record Flash (S E : Type 0) : Type 0 where
  pub read : S → ℕ → List ℕ → Result E (Unit {0}) × List ℕ × S
  pub capacity : S → ℕ
  pub erase : S → ℕ → ℕ → Result E (Unit {0}) × S
  pub write : S → ℕ → List ℕ → Result E (Unit {0}) × S

-- `Holds s` says that the store `s` holds `image` and that reads inside it succeed: they fill the
-- buffer from the image, and leave such a store.
pub record Serves {S E : Type 0} (flash : Flash S E) (image : List ℕ) (Holds : S → Type 0)
    : Type 0 where
  pub read_lem :
      (s : S) (offset : ℕ) (buf : List ℕ)
      → Holds s
      → offset + length buf ≤ length image
      → (s' : S) × (flash.read s offset buf ≡ (ok tt, slice offset (length buf) image, s'))
        × Holds s'

-- A read hands back a buffer of the same length, whatever the outcome.
pub record KeepsLength {S E : Type 0} (flash : Flash S E) : Type 0 where
  pub length_lem :
      (s : S) (offset : ℕ) (buf : List ℕ) → length (flash.read s offset buf).1 ≡ length buf

-- `.map_err(|_| e)?` on the outcome of a read, with the buffer that the read filled.
abbrev pub filled : {E F : Type 0} → F → Result E (Unit {0}) → List ℕ → Result F (List ℕ)
filled e (ok _) buf = ok buf
filled e (err _) buf = err e
filled e panic buf = panic
