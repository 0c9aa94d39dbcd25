-- ===== src/Header/Entry/Laws.antt =====
-- The encodings of the two 16-byte index records.
use embedded_overlay.Base.{◌^◌, ◌<◌, length, ◌≡◌, refl}
use embedded_overlay.Bytes.{to_le16, to_le32, from_le16-to_le16, from_le32-to_le32}
use embedded_overlay.Error.{ok}
use embedded_overlay.Header.Entry.{
  size, VfsAssetEntry, asset_to_bytes, asset_from_bytes, OverlayDirectoryEntry, directory_to_bytes,
  directory_from_bytes,
}

pub record AssetFits (e : VfsAssetEntry) : Type 0 where
  pub asset_id : e.asset_id < 2 ^ 32
  pub flash_offset : e.flash_offset < 2 ^ 32
  pub length : e.length < 2 ^ 32
  pub flags : e.flags < 2 ^ 16
  pub crc16 : e.crc16 < 2 ^ 16

pub record DirectoryFits (e : OverlayDirectoryEntry) : Type 0 where
  pub module_id : e.module_id < 2 ^ 32
  pub flash_offset : e.flash_offset < 2 ^ 32
  pub code_size : e.code_size < 2 ^ 32
  pub crc32 : e.crc32 < 2 ^ 32

pub length-asset_to_bytes : (e : VfsAssetEntry) → length (asset_to_bytes e) ≡ size
unfolding asset_to_bytes to_le16 to_le32
length-asset_to_bytes e = refl

pub length-directory_to_bytes : (e : OverlayDirectoryEntry) → length (directory_to_bytes e) ≡ size
unfolding directory_to_bytes to_le32
length-directory_to_bytes e = refl

-- An asset entry whose fields fit their widths, written out, is read back.
pub asset_from_bytes-to_bytes :
    (e : VfsAssetEntry) → AssetFits e → asset_from_bytes (asset_to_bytes e) ≡ ok e
unfolding asset_from_bytes asset_to_bytes to_le16 to_le32
asset_from_bytes-to_bytes e f = λ i. ok (record {
  asset_id = from_le32-to_le32 e.asset_id f.asset_id i;
  flash_offset = from_le32-to_le32 e.flash_offset f.flash_offset i;
  length = from_le32-to_le32 e.length f.length i;
  flags = from_le16-to_le16 e.flags f.flags i;
  crc16 = from_le16-to_le16 e.crc16 f.crc16 i;
})

-- A directory entry whose fields fit their widths, written out, is read back.
pub directory_from_bytes-to_bytes :
    (e : OverlayDirectoryEntry)
    → DirectoryFits e
    → directory_from_bytes (directory_to_bytes e) ≡ ok e
unfolding directory_from_bytes directory_to_bytes to_le32
directory_from_bytes-to_bytes e f = λ i. ok (record {
  module_id = from_le32-to_le32 e.module_id f.module_id i;
  flash_offset = from_le32-to_le32 e.flash_offset f.flash_offset i;
  code_size = from_le32-to_le32 e.code_size f.code_size i;
  crc32 = from_le32-to_le32 e.crc32 f.crc32 i;
})
