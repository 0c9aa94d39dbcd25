-- ===== src/Tests/Assets.antt =====
-- src/vfs/mod.rs on concrete inputs: an index of two assets, from the address 1 on.
use embedded_overlay.Base.{ℕ, List, [], ◌∷◌, ◌++◌, length, slice, ◌≤◌, ◌≡◌, refl, arith}
use embedded_overlay.Arith.{Profile}
use embedded_overlay.Bytes.{to_le16, to_le32}
use embedded_overlay.Error.{ok}
use embedded_overlay.Flash.Mock.{MockFlash, mock_flash}
use embedded_overlay.Flash.Mock.Laws.{mock_flash-Serves}
use embedded_overlay.Header.Entry.{VfsAssetEntry, asset_to_bytes}
use embedded_overlay.Vfs.Reader.{VfsReader, find_entry, stream_chunk, read_asset}
use embedded_overlay.Vfs.Indexed.{IsTable, find_entry-lookup}
use embedded_overlay.Vfs.Whole.{read_asset-whole}
use embedded_overlay.Vfs.Stream.{stream_chunk-slice}

abbrev first : VfsAssetEntry
first = record { asset_id = 5; flash_offset = 0; length = 10; flags = 0; crc16 = 0 }

abbrev second : VfsAssetEntry
second = record { asset_id = 9; flash_offset = 10; length = 4; flags = 0; crc16 = 0 }

abbrev entries : List VfsAssetEntry
entries = first ∷ second ∷ []

abbrev image : List ℕ
image = 0xFF ∷ (asset_to_bytes first ++ asset_to_bytes second)

abbrev reader : VfsReader MockFlash
reader = record {
  storage = record { content = image };
  partition_base = 1;
  superblock = record {
    magic = [];
    version = 1;
    asset_count = 2;
    index_offset = 0;
    data_offset = 32;
    total_bytes = 64;
    crc32 = 0;
    reserved = [];
  };
}

table : IsTable image 1 0 entries
unfolding asset_to_bytes to_le16 to_le32
table = (
  record {
    asset_id = omega arith;
    flash_offset = omega arith;
    length = omega arith;
    flags = omega arith;
    crc16 = omega arith;
  },
  refl,
  omega arith,
  (
    record {
      asset_id = omega arith;
      flash_offset = omega arith;
      length = omega arith;
      flags = omega arith;
      crc16 = omega arith;
    },
    refl,
    omega arith,
    tt,
  ),
)

length-image : length image ≤ 64
unfolding asset_to_bytes to_le16 to_le32
length-image = omega arith

find_entry-lookup_example :
    (storage' : MockFlash) × (find_entry Profile.debug (mock_flash 64 8) 9 reader
      ≡ (ok second, record reader { storage = storage' }))
    × (storage'.content ≡ image)
find_entry-lookup_example =
    find_entry-lookup Profile.debug (mock_flash 64 8) image (λ s. s.content ≡ image)
      (mock_flash-Serves 64 8 image length-image) entries 9 reader refl refl table (omega arith)

-- The image with the contents of both assets behind the index.
abbrev full_image : List ℕ
full_image = image ++ (0 ∷ 1 ∷ 2 ∷ 3 ∷ 4 ∷ 5 ∷ 6 ∷ 7 ∷ 8 ∷ 9 ∷ 0x10 ∷ 0x11 ∷ 0x12 ∷ 0x13 ∷ [])

abbrev full_reader : VfsReader MockFlash
full_reader = record reader { storage = record { content = full_image } }

full_layout : IsTable full_image 1 0 entries
unfolding asset_to_bytes to_le16 to_le32
full_layout = (
  record {
    asset_id = omega arith;
    flash_offset = omega arith;
    length = omega arith;
    flags = omega arith;
    crc16 = omega arith;
  },
  refl,
  omega arith,
  (
    record {
      asset_id = omega arith;
      flash_offset = omega arith;
      length = omega arith;
      flags = omega arith;
      crc16 = omega arith;
    },
    refl,
    omega arith,
    tt,
  ),
)

length-full_image : length full_image ≡ 47
unfolding asset_to_bytes to_le16 to_le32
length-full_image = refl

stream_chunk-slice_example :
    (storage' : MockFlash) × (stream_chunk Profile.debug
        (mock_flash 64 8)
        9
        1
        (7 ∷ 7 ∷ 7 ∷ 7 ∷ [])
        full_reader
      ≡ (ok 3, slice 44 3 full_image ++ (7 ∷ []), record full_reader { storage = storage' }))
    × (storage'.content ≡ full_image)
stream_chunk-slice_example =
    stream_chunk-slice Profile.debug (mock_flash 64 8) full_image (λ s. s.content ≡ full_image)
      (mock_flash-Serves 64 8 full_image (omega (arith, length-full_image))) entries second 9 1
      (7 ∷ 7 ∷ 7 ∷ 7 ∷ []) full_reader refl refl full_layout (omega arith) refl
      (omega (arith, length-full_image)) (omega arith)

read_asset-whole_example :
    (storage' : MockFlash) × (read_asset Profile.debug
        (mock_flash 64 8)
        9
        (7 ∷ 7 ∷ 7 ∷ 7 ∷ 7 ∷ [])
        full_reader
      ≡ (ok 4, slice 43 4 full_image ++ (7 ∷ []), record full_reader { storage = storage' }))
    × (storage'.content ≡ full_image)
read_asset-whole_example =
    read_asset-whole Profile.debug (mock_flash 64 8) full_image (λ s. s.content ≡ full_image)
      (mock_flash-Serves 64 8 full_image (omega (arith, length-full_image))) entries second 9
      (7 ∷ 7 ∷ 7 ∷ 7 ∷ 7 ∷ []) full_reader refl refl full_layout (omega arith) refl
      (omega (arith, length-full_image)) (omega arith)
