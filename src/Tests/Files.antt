-- ===== src/Tests/Files.antt =====
-- overlay-packer/src/main.rs: `pack_vfs` of two files, and the reader on a flash with the image.
use embedded_overlay.Base.{ℕ, ◌≤◌, List, [], ◌∷◌, length, ◌≡◌, refl, arith}
use embedded_overlay.Arith.{Profile}
use embedded_overlay.Bytes.{to_le16, to_le32}
use embedded_overlay.Crc.{crc32}
use embedded_overlay.Error.{ok}
use embedded_overlay.Flash.{Flash}
use embedded_overlay.Flash.Mock.{MockFlash, MockFlashError, mock_flash}
use embedded_overlay.Flash.Mock.Laws.{mock_flash-Serves}
use embedded_overlay.Header.Entry.{asset_to_bytes}
use embedded_overlay.Header.Vfs
use embedded_overlay.Packer.Assets.{pack_vfs, write_entries}
use embedded_overlay.Packer.Roundtrip.{packed_image, pack_vfs-stream_chunk}
use embedded_overlay.Vfs.Reader.{VfsReader, mount, stream_chunk}

abbrev contents : List (List ℕ)
contents = (10 ∷ 11 ∷ 12 ∷ 13 ∷ 14 ∷ []) ∷ (20 ∷ 21 ∷ 22 ∷ []) ∷ []

abbrev flash : Flash MockFlash MockFlashError
flash = mock_flash 128 8

length-packed_image : length (packed_image contents) ≤ 128
unfolding Vfs.to_bytes Vfs.new write_entries asset_to_bytes to_le16 to_le32 crc32
length-packed_image = omega arith

pack_vfs-stream_chunk_example :
    (v v' : VfsReader MockFlash) × (pack_vfs Profile.debug contents ≡ ok (packed_image contents))
    × (mount Profile.debug flash (record { content = packed_image contents }) 0 ≡ ok v)
    × (stream_chunk Profile.debug flash 2 1 (0 ∷ 0 ∷ 0 ∷ 0 ∷ []) v
        ≡ (ok 2, 21 ∷ 22 ∷ 0 ∷ 0 ∷ [], v'))
pack_vfs-stream_chunk_example =
    pack_vfs-stream_chunk Profile.debug flash contents (λ s. s.content ≡ packed_image contents)
      (mock_flash-Serves 128 8 (packed_image contents) length-packed_image) 1 1 (20 ∷ 21 ∷ 22 ∷ [])
      (0 ∷ 0 ∷ 0 ∷ 0 ∷ []) (record { content = packed_image contents }) (omega arith) (omega arith)
      refl refl
