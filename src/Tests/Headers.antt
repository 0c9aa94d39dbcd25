-- ===== src/Tests/Headers.antt =====
-- src/header.rs and src/bundle.rs on concrete inputs.
use embedded_overlay.Base.{
  ℕ, ◌++◌, take, drop, ◌≤◌, ltb, Bool, true, ◌&&◌, length, replicate, List, [], ◌∷◌, ◌≡◌, ◌≢◌, ◌↔◌,
  refl, arith,
}
use embedded_overlay.Bytes.{IsBytes, to_le16, to_le32, bytes_eq, from_le16, from_le32}
use embedded_overlay.Crc.{crc32}
use embedded_overlay.Error.{ok, panic}
use embedded_overlay.Header.Burst.{Burst}
use embedded_overlay.Header.Overlay
use embedded_overlay.Header.Overlay.{OverlayHeader}
use embedded_overlay.Header.Overlay.Laws.{IsSealed, from_bytes-eq-ok_iff, from_bytes-Burst}
use embedded_overlay.Header.Vfs
use embedded_overlay.Header.Vfs.{VfsSuperblock}
use embedded_overlay.Header.Vfs.Laws.{superblock_from_bytes-eq-ok_iff, superblock_from_bytes-Burst}
use embedded_overlay.Header.Vfs.Laws as VfsLaws
use embedded_overlay.Header.Directory
use embedded_overlay.Header.Directory.{OverlayDirectory}
use embedded_overlay.Header.Directory.Laws.{index_from_bytes-eq-ok_iff, index_from_bytes-Burst}
use embedded_overlay.Header.Directory.Laws as DirectoryLaws
use embedded_overlay.Bundle
use embedded_overlay.Bundle.{BundleHeader}
use embedded_overlay.Bundle.Laws.{bundle_new_panics, bundle_from_bytes_panics}

abbrev all_bytes : List ℕ → Bool
all_bytes [] = true
all_bytes (b ∷ bytes) = ltb b 256 && all_bytes bytes

all_bytes-IsBytes : (bytes : List ℕ) → all_bytes bytes ≡ true → IsBytes bytes
all_bytes-IsBytes [] h = tt
all_bytes-IsBytes (b ∷ bytes) h = (ground arith, all_bytes-IsBytes bytes (ground arith))

-- The module 7: 4 bytes of code, loaded at 0x20000000.
abbrev header : OverlayHeader
header = Overlay.new 7 4 0 0x2000_0000 0x1234_5678

abbrev header_bytes : List ℕ
header_bytes = Overlay.to_bytes header

header_bytes-IsBytes : IsBytes header_bytes
unfolding Overlay.new Overlay.to_bytes crc32 to_le16 to_le32
header_bytes-IsBytes = all_bytes-IsBytes header_bytes refl

accepted : Overlay.from_bytes header_bytes ≡ ok header
unfolding Overlay.new Overlay.to_bytes Overlay.from_bytes Overlay.fields crc32 to_le16 to_le32
    bytes_eq from_le16 from_le32
accepted = refl

from_bytes-eq-ok_iff_example :
    (Overlay.from_bytes header_bytes ≡ ok header)
    ↔ (IsSealed header × (take 32 header_bytes ≡ Overlay.to_bytes header))
from_bytes-eq-ok_iff_example = from_bytes-eq-ok_iff header_bytes header header_bytes-IsBytes

-- The bytes 8 and 9, of the module id, are overwritten.
damage : Burst 28 header_bytes (take 8 header_bytes ++ (1 ∷ 2 ∷ drop 10 header_bytes))
unfolding Overlay.new Overlay.to_bytes crc32 to_le16 to_le32
damage = record {
  before = take 8 header_bytes;
  window = 7 ∷ 0 ∷ [];
  window' = 1 ∷ 2 ∷ [];
  after = drop 10 (take 28 header_bytes);
  rest = drop 28 header_bytes;
  original_lem = refl;
  damaged_lem = refl;
  covered_lem = refl;
  same_length = refl;
  short = omega arith;
  changed = ground arith;
  bytes =
      all_bytes-IsBytes (take 8 header_bytes ++ ((7 ∷ 0 ∷ []) ++ drop 10 (take 28 header_bytes)))
        refl;
  bytes' = ground arith;
}

from_bytes-Burst_example :
    Overlay.from_bytes (take 8 header_bytes ++ (1 ∷ 2 ∷ drop 10 header_bytes)) ≢ ok header
from_bytes-Burst_example =
    from_bytes-Burst header_bytes (take 8 header_bytes ++ (1 ∷ 2 ∷ drop 10 header_bytes)) header
      accepted damage header

abbrev superblock : VfsSuperblock
superblock = Vfs.new 2 32 64 100

abbrev superblock_bytes : List ℕ
superblock_bytes = Vfs.to_bytes superblock

superblock_bytes-IsBytes : IsBytes superblock_bytes
unfolding Vfs.new Vfs.to_bytes crc32 to_le16 to_le32
superblock_bytes-IsBytes = all_bytes-IsBytes superblock_bytes refl

superblock_accepted : Vfs.from_bytes superblock_bytes ≡ ok superblock
unfolding Vfs.new Vfs.to_bytes Vfs.from_bytes Vfs.fields crc32 to_le16 to_le32 bytes_eq from_le16
    from_le32
superblock_accepted = refl

superblock_from_bytes-eq-ok_iff_example : (Vfs.from_bytes superblock_bytes ≡ ok superblock) ↔ (
    VfsLaws.IsSealed superblock
    × (32 ≤ length superblock_bytes)
    × (take 24 superblock_bytes ≡ take 24 (Vfs.to_bytes superblock)))
superblock_from_bytes-eq-ok_iff_example =
    superblock_from_bytes-eq-ok_iff superblock_bytes superblock superblock_bytes-IsBytes

abbrev index : OverlayDirectory
index = Directory.new 2 32 100

abbrev index_bytes : List ℕ
index_bytes = Directory.to_bytes index

index_bytes-IsBytes : IsBytes index_bytes
unfolding Directory.new Directory.to_bytes crc32 to_le16 to_le32
index_bytes-IsBytes = all_bytes-IsBytes index_bytes refl

index_accepted : Directory.from_bytes index_bytes ≡ ok index
unfolding Directory.new Directory.to_bytes Directory.from_bytes Directory.fields crc32 to_le16
    to_le32 bytes_eq from_le16 from_le32
index_accepted = refl

index_from_bytes-eq-ok_iff_example : (Directory.from_bytes index_bytes ≡ ok index) ↔ (
    DirectoryLaws.IsSealed index
    × (32 ≤ length index_bytes)
    × (take 20 index_bytes ≡ take 20 (Directory.to_bytes index)))
index_from_bytes-eq-ok_iff_example =
    index_from_bytes-eq-ok_iff index_bytes index index_bytes-IsBytes

bundle_new_panics_example : Bundle.new (b'W' ∷ b'B' ∷ []) 0x0800_0000 4 5 0x9000_0000 6 7 ≡ panic
bundle_new_panics_example = bundle_new_panics (b'W' ∷ b'B' ∷ []) 0x0800_0000 4 5 0x9000_0000 6 7

abbrev bundle_header : BundleHeader
bundle_header = record {
  magic = Bundle.magic_bytes;
  version = Bundle.version_number;
  flags = 0;
  target_chip = replicate 16 0;
  internal_target_addr = 0x0800_0000;
  internal_size = 4;
  internal_crc32 = 5;
  external_target_addr = 0x9000_0000;
  external_size = 6;
  external_crc32 = 7;
  header_crc32 = 0;
}

bundle_from_bytes_panics_example :
    Bundle.from_bytes (Bundle.to_bytes bundle_header ++ (1 ∷ 2 ∷ [])) ≡ panic
bundle_from_bytes_panics_example =
    bundle_from_bytes_panics bundle_header (1 ∷ 2 ∷ []) refl refl (omega arith)
