-- ===== src/Tests/Codes.antt =====
-- src/crc.rs on concrete inputs.
use embedded_overlay.Base.{ℕ, ◌-◌, List, [], ◌∷◌, ◌≡◌, ◌≢◌, refl, arith}
use embedded_overlay.Bytes.{IsBytes}
use embedded_overlay.Crc.{crc32, fnv1a_hash}
use embedded_overlay.Crc.Bits.{feed_bytes, crc32-feed_bytes}
use embedded_overlay.Crc.Detect.{crc32_burst}
use embedded_overlay.Crc.Fnv.{fnv1a_hash_one_byte}

-- "123456789"
abbrev check : List ℕ
check = 0x31 ∷ 0x32 ∷ 0x33 ∷ 0x34 ∷ 0x35 ∷ 0x36 ∷ 0x37 ∷ 0x38 ∷ 0x39 ∷ []

crc32_check : crc32 check ≡ 0xCBF4_3926
unfolding crc32
crc32_check = refl

check-IsBytes : IsBytes check
check-IsBytes = ground arith

crc32-feed_bytes_example : crc32 check ≡ 0xFFFF_FFFF - feed_bytes 0xFFFF_FFFF check
crc32-feed_bytes_example = crc32-feed_bytes check check-IsBytes

crc32_burst_example : crc32 (1 ∷ 2 ∷ 3 ∷ 4 ∷ []) ≢ crc32 (1 ∷ 9 ∷ 8 ∷ 4 ∷ [])
crc32_burst_example =
    crc32_burst (1 ∷ []) (2 ∷ 3 ∷ []) (9 ∷ 8 ∷ []) (4 ∷ []) (ground arith) (ground arith) refl
      (omega arith) (ground arith)

fnv1a_hash_one_byte_example : fnv1a_hash (1 ∷ 2 ∷ 3 ∷ []) ≢ fnv1a_hash (1 ∷ 7 ∷ 3 ∷ [])
fnv1a_hash_one_byte_example =
    fnv1a_hash_one_byte (1 ∷ []) 2 7 (3 ∷ []) (ground arith) (omega arith) (omega arith)
