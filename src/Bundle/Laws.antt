-- ===== src/Bundle/Laws.antt =====
-- What the bundle header's checksum over 60 bytes means for a header of 52.
use embedded_overlay.Base.{ℕ, ◌<◌, List, ◌++◌, length, length-append, ◌≡◌, refl, arith}
use embedded_overlay.Bytes.{to_le16, to_le32, bytes_eq_self, from_le16}
use embedded_overlay.Bytes.Copy.{length-copy_at}
use embedded_overlay.Error.{panic}
use embedded_overlay.Bundle.{
  BundleHeader, magic_bytes, version_number, size, to_bytes, new, fields, from_bytes,
}

-- An encoded header is as long as the structure.
pub length-to_bytes : (h : BundleHeader) → length (to_bytes h) ≡ size
length-to_bytes h = unfold to_bytes in simp length-copy_at

-- No bundle header can be made: `new` panics on all arguments, since it slices 60 bytes out of an
-- array of 52.
pub bundle_new_panics :
    (target_chip : List ℕ)
    (internal_target_addr internal_size internal_crc32 external_target_addr external_size
      external_crc32 : ℕ)
    → new target_chip internal_target_addr internal_size internal_crc32 external_target_addr
        external_size external_crc32
      ≡ panic
unfolding new
bundle_new_panics c a b d e f g = rw length-to_bytes refl

constants :
    (h : BundleHeader) (rest : List ℕ)
    → h.magic ≡ magic_bytes
    → h.version ≡ version_number
    → ((fields (to_bytes h ++ rest)).magic ≡ magic_bytes)
      × ((fields (to_bytes h ++ rest)).version ≡ version_number)
unfolding fields to_bytes to_le16 to_le32 from_le16
constants h rest m v = (rw m refl, rw (m, v) refl)

-- The parser panics on every encoded header that has the right magic and version and is followed by
-- fewer than 8 bytes, so on an input of 52 to 59 bytes; with nothing after it, that is what the
-- encoder wrote.
pub bundle_from_bytes_panics :
    (h : BundleHeader) (rest : List ℕ)
    → h.magic ≡ magic_bytes
    → h.version ≡ version_number
    → length rest < 8
    → from_bytes (to_bytes h ++ rest) ≡ panic
unfolding from_bytes
bundle_from_bytes_panics h rest m v short = ground (
  arith,
  constants h rest m v,
  length-append (to_bytes h) rest,
  length-to_bytes h,
  bytes_eq_self magic_bytes,
)
