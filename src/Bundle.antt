-- ===== src/Bundle.antt =====
-- src/bundle.rs: the header of a dual-flash firmware bundle.
pub mod Laws
use embedded_overlay.Base.{
  ℕ, ◌+◌, ◌*◌, min, List, [], ◌∷◌, not, ◌==◌, ltb, leb, if◌then◌else◌, length, take, drop,
  replicate, get_or,
}
use embedded_overlay.Bytes.{to_le16, to_le32, from_le16, from_le32, copy_at, bytes_eq}
use embedded_overlay.Crc.{crc32}
use embedded_overlay.Error.{OverlayError, Result, ok, err, panic, ◌>>=◌}

-- b"DFW1"
abbrev pub magic_bytes : List ℕ
magic_bytes = b'D' ∷ b'F' ∷ b'W' ∷ b'1' ∷ []

abbrev pub version_number : ℕ
version_number = 1

pub record BundleHeader : Type 0 where
  pub magic : List ℕ
  pub version : ℕ
  pub flags : ℕ
  pub target_chip : List ℕ
  pub internal_target_addr : ℕ
  pub internal_size : ℕ
  pub internal_crc32 : ℕ
  pub external_target_addr : ℕ
  pub external_size : ℕ
  pub external_crc32 : ℕ
  pub header_crc32 : ℕ

-- `size_of::<BundleHeader>()` with C layout: `[u8; 4]`, two `u16`, `[u8; 16]` and seven `u32`, which
-- leave no padding.
abbrev pub size : ℕ
size = 4 + 2 + 2 + 16 + 7 * 4

-- `&bytes[..n]`, which panics past the end.
unfoldable pub slice_to : ℕ → List ℕ → Result OverlayError (List ℕ)
slice_to n bytes = if leb n (length bytes) then ok (take n bytes) else panic

unfoldable pub to_bytes : BundleHeader → List ℕ
unfolding copy_at
to_bytes h =
    let buf = replicate size 0 in
    let buf = copy_at 0 h.magic buf in
    let buf = copy_at 4 (to_le16 h.version) buf in
    let buf = copy_at 6 (to_le16 h.flags) buf in
    let buf = copy_at 8 h.target_chip buf in
    let buf = copy_at 24 (to_le32 h.internal_target_addr) buf in
    let buf = copy_at 28 (to_le32 h.internal_size) buf in
    let buf = copy_at 32 (to_le32 h.internal_crc32) buf in
    let buf = copy_at 36 (to_le32 h.external_target_addr) buf in
    let buf = copy_at 40 (to_le32 h.external_size) buf in
    let buf = copy_at 44 (to_le32 h.external_crc32) buf in copy_at 48 (to_le32 h.header_crc32) buf

-- The identifier, cut to 16 bytes and padded with zeros.
unfoldable pub chip_bytes : List ℕ → List ℕ
unfolding copy_at
chip_bytes target_chip =
    let copy_len = min (length target_chip) 16 in
    copy_at 0 (take copy_len target_chip) (replicate 16 0)

unfoldable pub new : List ℕ → ℕ → ℕ → ℕ → ℕ → ℕ → ℕ → Result OverlayError BundleHeader
unfolding slice_to
new target_chip internal_target_addr internal_size internal_crc32 external_target_addr external_size
      external_crc32 =
    do
      let header : BundleHeader = record {
        magic = magic_bytes;
        version = version_number;
        flags = 0;
        target_chip = chip_bytes target_chip;
        internal_target_addr = internal_target_addr;
        internal_size = internal_size;
        internal_crc32 = internal_crc32;
        external_target_addr = external_target_addr;
        external_size = external_size;
        external_crc32 = external_crc32;
        header_crc32 = 0;
      }
      covered ← slice_to 60 (to_bytes header)
      ok (record header { header_crc32 = crc32 covered })

-- The reads of `from_bytes`, at constant indices below `size`.
unfoldable pub fields : List ℕ → BundleHeader
fields bytes =
    let at = λ (i : ℕ). get_or bytes i 0 in
    record {
      magic = at 0 ∷ at 1 ∷ at 2 ∷ at 3 ∷ [];
      version = from_le16 (at 4) (at 5);
      flags = from_le16 (at 6) (at 7);
      target_chip = take 16 (drop 8 bytes);
      internal_target_addr = from_le32 (at 24) (at 25) (at 26) (at 27);
      internal_size = from_le32 (at 28) (at 29) (at 30) (at 31);
      internal_crc32 = from_le32 (at 32) (at 33) (at 34) (at 35);
      external_target_addr = from_le32 (at 36) (at 37) (at 38) (at 39);
      external_size = from_le32 (at 40) (at 41) (at 42) (at 43);
      external_crc32 = from_le32 (at 44) (at 45) (at 46) (at 47);
      header_crc32 = from_le32 (at 48) (at 49) (at 50) (at 51);
    }

unfoldable pub from_bytes : List ℕ → Result OverlayError BundleHeader
unfolding slice_to
from_bytes bytes =
    let header = fields bytes in
    if ltb (length bytes) size
    then err OverlayError.storage
    else if not (bytes_eq header.magic magic_bytes)
    then err OverlayError.invalid_magic
    else if not (header.version == version_number)
    then err OverlayError.unsupported_version
    else do
      covered ← slice_to 60 bytes
      (if not (crc32 covered == header.header_crc32)
          then err OverlayError.header_checksum_mismatch
          else ok header)
