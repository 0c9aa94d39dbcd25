-- ===== src/Header/Vfs.antt =====
-- src/header.rs, `VfsSuperblock`: the 32 bytes at the start of the filesystem.
pub mod Laws
use embedded_overlay.Base.{
  ℕ, List, [], ◌∷◌, not, ◌==◌, ltb, if◌then◌else◌, length, take, replicate, get_or,
}
use embedded_overlay.Bytes.{to_le16, to_le32, from_le16, from_le32, copy_at, bytes_eq}
use embedded_overlay.Crc
use embedded_overlay.Error.{VfsError, Result, ok, err}

-- b"VFS1"
abbrev pub magic_bytes : List ℕ
magic_bytes = b'V' ∷ b'F' ∷ b'S' ∷ b'1' ∷ []

abbrev pub version_number : ℕ
version_number = 1

abbrev pub size : ℕ
size = 32

pub record VfsSuperblock : Type 0 where
  pub magic : List ℕ
  pub version : ℕ
  pub asset_count : ℕ
  pub index_offset : ℕ
  pub data_offset : ℕ
  pub total_bytes : ℕ
  pub crc32 : ℕ
  pub reserved : List ℕ

-- The reserved words are not written.
unfoldable pub to_bytes : VfsSuperblock → List ℕ
unfolding copy_at
to_bytes h =
    let buf = replicate size 0 in
    let buf = copy_at 0 h.magic buf in
    let buf = copy_at 4 (to_le16 h.version) buf in
    let buf = copy_at 6 (to_le16 h.asset_count) buf in
    let buf = copy_at 8 (to_le32 h.index_offset) buf in
    let buf = copy_at 12 (to_le32 h.data_offset) buf in
    let buf = copy_at 16 (to_le32 h.total_bytes) buf in copy_at 20 (to_le32 h.crc32) buf

unfoldable pub new : ℕ → ℕ → ℕ → ℕ → VfsSuperblock
new asset_count index_offset data_offset total_bytes =
    let header : VfsSuperblock = record {
      magic = magic_bytes;
      version = version_number;
      asset_count = asset_count;
      index_offset = index_offset;
      data_offset = data_offset;
      total_bytes = total_bytes;
      crc32 = 0;
      reserved = 0 ∷ 0 ∷ [];
    } in
    record header { crc32 = Crc.crc32 (take 20 (to_bytes header)) }

-- The reads of `from_bytes`, at constant indices below `size`.
unfoldable pub fields : List ℕ → VfsSuperblock
fields bytes =
    let at = λ (i : ℕ). get_or bytes i 0 in
    record {
      magic = at 0 ∷ at 1 ∷ at 2 ∷ at 3 ∷ [];
      version = from_le16 (at 4) (at 5);
      asset_count = from_le16 (at 6) (at 7);
      index_offset = from_le32 (at 8) (at 9) (at 10) (at 11);
      data_offset = from_le32 (at 12) (at 13) (at 14) (at 15);
      total_bytes = from_le32 (at 16) (at 17) (at 18) (at 19);
      crc32 = from_le32 (at 20) (at 21) (at 22) (at 23);
      reserved = 0 ∷ 0 ∷ [];
    }

unfoldable pub from_bytes : List ℕ → Result VfsError VfsSuperblock
from_bytes bytes =
    let header = fields bytes in
    if ltb (length bytes) size
    then err VfsError.storage
    else if not (bytes_eq header.magic magic_bytes)
    then err VfsError.invalid_magic
    else if not (header.version == version_number)
    then err VfsError.unsupported_version
    else if not (Crc.crc32 (take 20 bytes) == header.crc32)
    then err VfsError.superblock_crc_mismatch
    else ok header
