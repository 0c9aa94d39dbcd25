-- ===== src/Header/Overlay.antt =====
-- src/header.rs, `OverlayHeader`: the 32 bytes before every overlay in flash.
pub mod Laws
use embedded_overlay.Base.{
  ℕ, List, [], ◌∷◌, not, ◌==◌, ltb, if◌then◌else◌, length, take, replicate, get_or, ◌≡◌, refl,
}
use embedded_overlay.Bytes.{to_le16, to_le32, from_le16, from_le32, copy_at, bytes_eq}
use embedded_overlay.Crc.{crc32}
use embedded_overlay.Error.{OverlayError, Result, ok, err}

-- b"OVL1"
abbrev pub magic_bytes : List ℕ
magic_bytes = b'O' ∷ b'V' ∷ b'L' ∷ b'1' ∷ []

abbrev pub version_number : ℕ
version_number = 1

abbrev pub size : ℕ
size = 32

pub record OverlayHeader : Type 0 where
  pub magic : List ℕ
  pub version : ℕ
  pub flags : ℕ
  pub module_id : ℕ
  pub code_size : ℕ
  pub entry_offset : ℕ
  pub ram_target_addr : ℕ
  pub payload_crc32 : ℕ
  pub header_crc32 : ℕ

unfoldable pub to_bytes : OverlayHeader → List ℕ
unfolding copy_at
to_bytes h =
    let buf = replicate size 0 in
    let buf = copy_at 0 h.magic buf in
    let buf = copy_at 4 (to_le16 h.version) buf in
    let buf = copy_at 6 (to_le16 h.flags) buf in
    let buf = copy_at 8 (to_le32 h.module_id) buf in
    let buf = copy_at 12 (to_le32 h.code_size) buf in
    let buf = copy_at 16 (to_le32 h.entry_offset) buf in
    let buf = copy_at 20 (to_le32 h.ram_target_addr) buf in
    let buf = copy_at 24 (to_le32 h.payload_crc32) buf in copy_at 28 (to_le32 h.header_crc32) buf

unfoldable pub new : ℕ → ℕ → ℕ → ℕ → ℕ → OverlayHeader
new module_id code_size entry_offset ram_target_addr payload_crc32 =
    let header : OverlayHeader = record {
      magic = magic_bytes;
      version = version_number;
      flags = 0;
      module_id = module_id;
      code_size = code_size;
      entry_offset = entry_offset;
      ram_target_addr = ram_target_addr;
      payload_crc32 = payload_crc32;
      header_crc32 = 0;
    } in
    record header { header_crc32 = crc32 (take 28 (to_bytes header)) }

-- The reads of `from_bytes`, at constant indices below `size`.
unfoldable pub fields : List ℕ → OverlayHeader
fields bytes =
    let at = λ (i : ℕ). get_or bytes i 0 in
    record {
      magic = at 0 ∷ at 1 ∷ at 2 ∷ at 3 ∷ [];
      version = from_le16 (at 4) (at 5);
      flags = from_le16 (at 6) (at 7);
      module_id = from_le32 (at 8) (at 9) (at 10) (at 11);
      code_size = from_le32 (at 12) (at 13) (at 14) (at 15);
      entry_offset = from_le32 (at 16) (at 17) (at 18) (at 19);
      ram_target_addr = from_le32 (at 20) (at 21) (at 22) (at 23);
      payload_crc32 = from_le32 (at 24) (at 25) (at 26) (at 27);
      header_crc32 = from_le32 (at 28) (at 29) (at 30) (at 31);
    }

unfoldable pub from_bytes : List ℕ → Result OverlayError OverlayHeader
from_bytes bytes =
    let header = fields bytes in
    if ltb (length bytes) size
    then err OverlayError.storage
    else if not (bytes_eq header.magic magic_bytes)
    then err OverlayError.invalid_magic
    else if not (header.version == version_number)
    then err OverlayError.unsupported_version
    else if not (crc32 (take 28 bytes) == header.header_crc32)
    then err OverlayError.header_checksum_mismatch
    else ok header
