-- ===== src/Crc.antt =====
-- src/crc.rs: the table-driven CRC-32 and the FNV-1a hash that derives module ids.
pub mod Bits
pub mod Detect
pub mod Fnv
use embedded_overlay.Base.{
  ℕ, zero, suc, ◌+◌, ◌-◌, ◌*◌, ◌/◌, ◌%◌, ◌^◌, bit_and, bit_xor, List, [], ◌∷◌, not, ◌==◌,
  if◌then◌else◌, get_or, ◌≡◌, refl,
}

abbrev pub poly : ℕ
poly = 0xEDB88320

-- One pass of the inner loop of `make_table`.
unfoldable pub round : ℕ → ℕ
round crc = if not (bit_and crc 1 == 0) then bit_xor (crc / 2) poly else crc / 2

-- The inner loop, with `n` passes left.
unfoldable pub rounds : ℕ → ℕ → ℕ
rounds zero crc = crc
rounds (suc n) crc = rounds n (round crc)

-- The outer loop of `make_table` at index `i`, with `n` passes left: the entries from `i` on.
unfoldable pub make_table_from : ℕ → ℕ → List ℕ
make_table_from zero i = []
make_table_from (suc n) i = rounds 8 i ∷ make_table_from n (i + 1)

unfoldable pub make_table : List ℕ
unfolding make_table_from rounds round
make_table = make_table_from 256 0

-- One byte of the loop of `crc32`.
unfoldable pub crc_step : ℕ → ℕ → ℕ
unfolding make_table
crc_step crc b = bit_xor (crc / 2 ^ 8) (get_or make_table (bit_and (bit_xor crc b) 0xFF) 0)

unfoldable pub crc_loop : ℕ → List ℕ → ℕ
crc_loop crc [] = crc
crc_loop crc (b ∷ bytes) = crc_loop (crc_step crc b) bytes

-- `!crc` of a `u32` is the difference to 2^32 - 1.
unfoldable pub crc32 : List ℕ → ℕ
unfolding crc_loop crc_step
crc32 bytes = 0xFFFF_FFFF - crc_loop 0xFFFF_FFFF bytes

-- One byte of the loop of `fnv1a_hash`: the exclusive or, and `wrapping_mul`.
unfoldable pub fnv_step : ℕ → ℕ → ℕ
fnv_step hash b = (bit_xor hash b * 0x0100_0193) % 2 ^ 32

unfoldable pub fnv_loop : ℕ → List ℕ → ℕ
fnv_loop hash [] = hash
fnv_loop hash (b ∷ bytes) = fnv_loop (fnv_step hash b) bytes

unfoldable pub fnv1a_hash : List ℕ → ℕ
unfolding fnv_loop fnv_step
fnv1a_hash bytes = fnv_loop 0x811c_9dc5 bytes
