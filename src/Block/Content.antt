-- ===== src/Block/Content.antt =====
-- src/block.rs: what the adapter relies on in a device, and the state it keeps.
use embedded_overlay.Base.{
  ℕ, suc, ◌+◌, ◌*◌, ◌/◌, ◌^◌, ◌≤◌, ◌<◌, List, slice, length, Option, none, some, true, false, ltb,
  Bool-cases, ==_iff, inl, inr, length-slice, ◌≡◌, refl, ap, ◌∙◌, arith,
}
use mathlib.Core.Path.{subst}
use native.Mathlib.Nat.{div-lt_iff_lt-mul, mul-le-mul_right}
use embedded_overlay.Arith.{Profile, as_u32, checked_add_lem, mul_u64_lem}
use embedded_overlay.Bytes.{copy_at}
use embedded_overlay.Block.{
  BlockDevice, BlockDeviceAdapter, BlockAdapterError, check_range, is_cached, fetch, fetched,
}
use embedded_overlay.Error.{ok}

-- `Holds image d` says that the device `d` holds `image`: its blocks make it up, reads inside it
-- fill the buffer from it, and writes inside it put the data there.
pub record Backs {D E : Type 0} (dev : BlockDevice D E) (block_size : ℕ)
    (Holds : List ℕ → D → Type 0) : Type 0 where
  pub num_blocks_lem :
      (image : List ℕ) (d : D) → Holds image d → dev.num_blocks d * block_size ≡ length image
  pub read_lem :
      (image : List ℕ) (d : D) (start blocks : ℕ) (buf : List ℕ)
      → Holds image d
      → length buf ≡ blocks * block_size
      → start * block_size + length buf ≤ length image
      → (d' : D) × (dev.read_blocks d start buf
          ≡ (ok tt, slice (start * block_size) (length buf) image, d'))
        × Holds image d'
  pub write_lem :
      (image : List ℕ) (d : D) (start blocks : ℕ) (src : List ℕ)
      → Holds image d
      → length src ≡ blocks * block_size
      → start * block_size + length src ≤ length image
      → (d' : D) × (dev.write_blocks d start src ≡ (ok tt, d'))
        × Holds (copy_at (start * block_size) src image) d'

-- A cached block has the bytes of the block.
abbrev pub Caches : ℕ → List ℕ → Option ℕ → List ℕ → Type 0
Caches block_size image none cache = Unit
Caches block_size image (some k) cache =
    (cache ≡ slice (k * block_size) block_size image) × (k * block_size + block_size ≤ length image)

pub record HoldsBehind {D : Type 0} (block_size : ℕ) (Holds : List ℕ → D → Type 0) (image : List ℕ)
    (a : BlockDeviceAdapter D) : Type 0 where
  pub below : Holds image a.device
  pub room : length a.cache ≡ block_size
  pub caches : Caches block_size image a.cached_block a.cache

-- The block of an offset inside the blocks.
pub block_inside : (o b k n : ℕ) → 0 < b → k * b ≡ n → o < n → o / b * b + b ≤ n
block_inside o b k n pos e h =
    let at : o < k * b = omega arith in
    let below : o / b < k = (div-lt_iff_lt-mul pos).1 at in
    let up : suc (o / b) ≤ k = omega arith in omega (arith, mul-le-mul_right b up)

is_cached_iff : (c : Option ℕ) (k : ℕ) → is_cached c k ≡ true → c ≡ some k
is_cached_iff none k h = cc
is_cached_iff (some a) k h = ap some ((==_iff a k).0 h)

module _ {D E : Type 0} (profile : Profile) (dev : BlockDevice D E) (block_size : ℕ)
    (Holds : List ℕ → D → Type 0) (backs : Backs dev block_size Holds) (image : List ℕ) where
  -- A block of the image is brought into the bounce buffer, hit or miss.
  pub fetch_lem :
      (a : BlockDeviceAdapter D) (k : ℕ)
      → HoldsBehind block_size Holds image a
      → k * block_size + block_size ≤ length image
      → (a' : BlockDeviceAdapter D) × (fetch profile dev block_size k a ≡ (ok tt, a'))
        × HoldsBehind block_size Holds image a'
        × (a'.cache ≡ slice (k * block_size) block_size image)
        × (a'.cached_block ≡ some k)
  unfolding fetch
  fetch_lem a k h inside = elim (Bool-cases (is_cached a.cached_block k)) [
    | inl hit ↦
        let here : a.cached_block ≡ some k = is_cached_iff a.cached_block k hit in
        let known : Caches block_size image (some k) a.cache =
          subst (λ c. Caches block_size image c a.cache) here h.caches in
        (a, rw hit refl, h, known.0, here)
    | inr miss ↦
        let one : length a.cache ≡ 1 * block_size = omega (arith, h.room) in
        let fits : k * block_size + length a.cache ≤ length image = omega (arith, h.room) in
        let (d', e, below) = backs.read_lem image a.device k 1 a.cache h.below one fits in
        let same : slice (k * block_size) (length a.cache) image
            ≡ slice (k * block_size) block_size image =
          ap (λ n. slice (k * block_size) n image) h.room in
        (
          record {
            device = d';
            cached_block = some k;
            cache = slice (k * block_size) block_size image;
          },
          rw miss (
              ap (λ (r, c, d). fetched profile dev block_size k a r c d)
                (e ∙ ap (λ t. (ok tt, t, d')) same)),
          record {
            below = below;
            room = length-slice (k * block_size) block_size image inside;
            caches = (refl, inside);
          },
          refl,
          refl,
        )
  ]

  -- A range inside the image passes the check.
  pub check_range_lem :
      (a : BlockDeviceAdapter D) (offset n : ℕ)
      → HoldsBehind block_size Holds image a
      → length image < 2 ^ 32
      → offset + n ≤ length image
      → check_range profile dev block_size a offset n ≡ ok tt
  unfolding check_range
  check_range_lem a offset n h word inside =
      let blocks = backs.num_blocks_lem image a.device h.below in
      let capacity =
        mul_u64_lem {E = BlockAdapterError E} profile (dev.num_blocks a.device) block_size
          (omega arith) in
      let same : as_u32 n ≡ n = omega arith in
      let sum = checked_add_lem offset n (omega arith) in
      let whole : as_u32 (length image) ≡ length image = omega arith in
      let not_past : ltb (length image) (offset + n) ≡ false = ground arith in
      rw (check_range, capacity) (rw (same, sum) (rw (blocks, whole) (rw not_past refl)))
