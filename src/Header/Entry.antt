-- ===== src/Header/Entry.antt =====
-- src/header.rs, `VfsAssetEntry` and `OverlayDirectoryEntry`: the 16-byte records of the two
-- index tables.
pub mod Laws
use embedded_overlay.Base.{ℕ, List, ltb, if◌then◌else◌, length, replicate, get_or}
use embedded_overlay.Bytes.{to_le16, to_le32, from_le16, from_le32, copy_at}
use embedded_overlay.Error.{OverlayError, VfsError, Result, ok, panic}

abbrev pub size : ℕ
size = 16

pub record VfsAssetEntry : Type 0 where
  pub asset_id : ℕ
  pub flash_offset : ℕ
  pub length : ℕ
  pub flags : ℕ
  pub crc16 : ℕ

unfoldable pub asset_to_bytes : VfsAssetEntry → List ℕ
unfolding copy_at
asset_to_bytes e =
    let buf = replicate size 0 in
    let buf = copy_at 0 (to_le32 e.asset_id) buf in
    let buf = copy_at 4 (to_le32 e.flash_offset) buf in
    let buf = copy_at 8 (to_le32 e.length) buf in
    let buf = copy_at 12 (to_le16 e.flags) buf in copy_at 14 (to_le16 e.crc16) buf

-- An index out of range panics.
unfoldable pub asset_from_bytes : List ℕ → Result VfsError VfsAssetEntry
asset_from_bytes bytes =
    let at = λ (i : ℕ). get_or bytes i 0 in
    if ltb (length bytes) size
    then panic
    else ok (record {
      asset_id = from_le32 (at 0) (at 1) (at 2) (at 3);
      flash_offset = from_le32 (at 4) (at 5) (at 6) (at 7);
      length = from_le32 (at 8) (at 9) (at 10) (at 11);
      flags = from_le16 (at 12) (at 13);
      crc16 = from_le16 (at 14) (at 15);
    })

pub record OverlayDirectoryEntry : Type 0 where
  pub module_id : ℕ
  pub flash_offset : ℕ
  pub code_size : ℕ
  pub crc32 : ℕ

unfoldable pub directory_to_bytes : OverlayDirectoryEntry → List ℕ
unfolding copy_at
directory_to_bytes e =
    let buf = replicate size 0 in
    let buf = copy_at 0 (to_le32 e.module_id) buf in
    let buf = copy_at 4 (to_le32 e.flash_offset) buf in
    let buf = copy_at 8 (to_le32 e.code_size) buf in copy_at 12 (to_le32 e.crc32) buf

unfoldable pub directory_from_bytes : List ℕ → Result OverlayError OverlayDirectoryEntry
directory_from_bytes bytes =
    let at = λ (i : ℕ). get_or bytes i 0 in
    if ltb (length bytes) size
    then panic
    else ok (record {
      module_id = from_le32 (at 0) (at 1) (at 2) (at 3);
      flash_offset = from_le32 (at 4) (at 5) (at 6) (at 7);
      code_size = from_le32 (at 8) (at 9) (at 10) (at 11);
      crc32 = from_le32 (at 12) (at 13) (at 14) (at 15);
    })
