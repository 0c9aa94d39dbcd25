-- ===== src/Bytes.antt =====
-- Bytes and little-endian words, `copy_from_slice` into a buffer, and slices of it.
pub mod Copy
use embedded_overlay.Base.{
  ℕ, zero, suc, ◌+◌, ◌*◌, ◌/◌, ◌%◌, ◌^◌, ◌≤◌, ◌<◌, Bool, true, false, List, [], ◌∷◌, ◌==◌, ◌&&◌,
  get_or, take, length, ◌≡◌, refl, ap, ◌∙◌, arith, ==_iff,
}
use mathlib.Core.Path.{ap₂}

abbrev pub IsBytes : List ℕ → Type 0
IsBytes [] = Unit {0}
IsBytes (b ∷ bytes) = (b < 256) × IsBytes bytes

-- `u16::to_le_bytes`, `u32::to_le_bytes`.
unfoldable pub to_le16 : ℕ → List ℕ
to_le16 x = (x % 256) ∷ (x / 256 % 256) ∷ []

unfoldable pub to_le32 : ℕ → List ℕ
to_le32 x = (x % 256) ∷ (x / 256 % 256) ∷ (x / 65536 % 256) ∷ (x / 16777216 % 256) ∷ []

-- `u16::from_le_bytes`, `u32::from_le_bytes`.
unfoldable pub from_le16 : ℕ → ℕ → ℕ
from_le16 b0 b1 = b0 + b1 * 256

unfoldable pub from_le32 : ℕ → ℕ → ℕ → ℕ → ℕ
from_le32 b0 b1 b2 b3 = b0 + b1 * 256 + b2 * 65536 + b3 * 16777216

pub from_le16-to_le16 : (x : ℕ) → x < 2 ^ 16 → from_le16 (x % 256) (x / 256 % 256) ≡ x
unfolding from_le16
from_le16-to_le16 x h = omega arith

pub from_le32-to_le32 :
    (x : ℕ)
    → x < 2 ^ 32
    → from_le32 (x % 256) (x / 256 % 256) (x / 65536 % 256) (x / 16777216 % 256) ≡ x
unfolding from_le32
from_le32-to_le32 x h = omega arith

pub to_le16-from_le16 : (b0 b1 : ℕ) → b0 < 256 → b1 < 256 → to_le16 (from_le16 b0 b1) ≡ b0 ∷ b1 ∷ []
unfolding to_le16 from_le16
to_le16-from_le16 b0 b1 h0 h1 = ap₂ ◌∷◌ (omega arith) (ap₂ ◌∷◌ (omega arith) refl)

pub to_le32-from_le32 :
    (b0 b1 b2 b3 : ℕ)
    → b0 < 256
    → b1 < 256
    → b2 < 256
    → b3 < 256
    → to_le32 (from_le32 b0 b1 b2 b3) ≡ b0 ∷ b1 ∷ b2 ∷ b3 ∷ []
unfolding to_le32 from_le32
to_le32-from_le32 b0 b1 b2 b3 h0 h1 h2 h3 =
    ap₂ ◌∷◌ (omega arith)
      (ap₂ ◌∷◌ (omega arith) (ap₂ ◌∷◌ (omega arith) (ap₂ ◌∷◌ (omega arith) refl)))

pub from_le16-lt : (b0 b1 : ℕ) → b0 < 256 → b1 < 256 → from_le16 b0 b1 < 2 ^ 16
unfolding from_le16
from_le16-lt b0 b1 h0 h1 = omega arith

pub from_le32-lt :
    (b0 b1 b2 b3 : ℕ) → b0 < 256 → b1 < 256 → b2 < 256 → b3 < 256 → from_le32 b0 b1 b2 b3 < 2 ^ 32
unfolding from_le32
from_le32-lt b0 b1 b2 b3 h0 h1 h2 h3 = omega arith

-- `buf[at..at + bytes.len()].copy_from_slice(bytes)`, for a range inside the buffer.
unfoldable pub copy_at : ℕ → List ℕ → List ℕ → List ℕ
copy_at (suc at) bytes [] = []
copy_at (suc at) bytes (x ∷ buf) = x ∷ copy_at at bytes buf
copy_at zero [] buf = buf
copy_at zero (b ∷ bytes) [] = []
copy_at zero (b ∷ bytes) (x ∷ buf) = b ∷ copy_at zero bytes buf

-- `==` of two byte arrays.
unfoldable pub bytes_eq : List ℕ → List ℕ → Bool
bytes_eq [] [] = true
bytes_eq [] (y ∷ ys) = false
bytes_eq (x ∷ xs) [] = false
bytes_eq (x ∷ xs) (y ∷ ys) = x == y && bytes_eq xs ys

pub bytes_eq→eq : (xs ys : List ℕ) → bytes_eq xs ys ≡ true → xs ≡ ys
unfolding bytes_eq
bytes_eq→eq [] [] h = refl
bytes_eq→eq [] (y ∷ ys) h = cc
bytes_eq→eq (x ∷ xs) [] h = cc
bytes_eq→eq (x ∷ xs) (y ∷ ys) h = ap₂ ◌∷◌ (ground arith) (bytes_eq→eq xs ys (ground arith))

pub bytes_eq_self : (xs : List ℕ) → bytes_eq xs xs ≡ true
unfolding bytes_eq
bytes_eq_self [] = refl
bytes_eq_self (x ∷ xs) = rw ((==_iff x x).1 refl) (bytes_eq_self xs)

-- The bytes at the indices `i`, …, `i + n - 1`, one by one.
unfoldable pub bytes_from : ℕ → ℕ → List ℕ → List ℕ
bytes_from zero i bytes = []
bytes_from (suc n) i bytes = get_or bytes i 0 ∷ bytes_from n (suc i) bytes

bytes_from-cons :
    (n i x : ℕ) (bytes : List ℕ) → bytes_from n (suc i) (x ∷ bytes) ≡ bytes_from n i bytes
unfolding bytes_from
bytes_from-cons zero i x bytes = refl
bytes_from-cons (suc n) i x bytes = ap (◌∷◌ (get_or bytes i 0)) (bytes_from-cons n (suc i) x bytes)

pub bytes_from-take :
    (n : ℕ) (bytes : List ℕ) → n ≤ length bytes → bytes_from n 0 bytes ≡ take n bytes
unfolding bytes_from
bytes_from-take zero bytes h = refl
bytes_from-take (suc n) [] h = absurd (omega arith)
bytes_from-take (suc n) (x ∷ bytes) h =
    ap (◌∷◌ x) (bytes_from-cons n 0 x bytes ∙ bytes_from-take n bytes (omega arith))

pub get_or-lt : (bytes : List ℕ) (i : ℕ) → IsBytes bytes → get_or bytes i 0 < 256
get_or-lt [] i h = omega arith
get_or-lt (b ∷ bytes) zero h = h.0
get_or-lt (b ∷ bytes) (suc i) h = get_or-lt bytes i h.1
