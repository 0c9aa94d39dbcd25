-- ===== src/Crc/Bits.antt =====
-- The table-driven CRC against the shift register that it implements, and what one step of the
-- register keeps.
use embedded_overlay.Base.{
  ℕ, zero, suc, ◌+◌, ◌-◌, ◌*◌, ◌/◌, ◌%◌, ◌^◌, ◌<◌, bit_xor, List, [], ◌∷◌, get_or, ◌≡◌, refl, sym,
  ap, ◌∙◌, arith,
}
use embedded_overlay.Base.And.{bit_and-one, bit_and-byte}
use embedded_overlay.Base.Xor.{
  zero-bit_xor, bit_xor-zero, bit_xor-half, bit_xor-digit, bit_xor_middle, bit_xor_fields,
  bit_xor-shift, bit_xor_comm, bit_xor_assoc,
}
use native.Mathlib.Nat.{pow-suc}
use mathlib.Core.Path.{ap₂}
use embedded_overlay.Bytes.{IsBytes}
use embedded_overlay.Crc.{
  poly, round, rounds, make_table_from, make_table, crc_step, crc_loop, crc32,
}

pub round_lem : (x : ℕ) → round x ≡ bit_xor (x / 2) (x % 2 * poly)
unfolding round
round_lem x = ground (arith, bit_and-one x, bit_xor-zero (x / 2))

poly_bit : (x y : ℕ) → x < 2 → y < 2 → (x + y) % 2 * poly ≡ bit_xor (x * poly) (y * poly)
poly_bit zero y p q = ap (λ (t : ℕ). t * poly) (omega arith) ∙ sym (zero-bit_xor (y * poly))
poly_bit (suc zero) zero p q = refl
poly_bit (suc zero) (suc zero) p q = refl
poly_bit (suc zero) (suc (suc y)) p q = absurd (omega arith)
poly_bit (suc (suc x)) y p q = absurd (omega arith)

-- A round of the register is linear over exclusive or.
pub round-bit_xor : (x y : ℕ) → round (bit_xor x y) ≡ bit_xor (round x) (round y)
round-bit_xor x y =
    rw
      (
        round_lem (bit_xor x y),
        round_lem x,
        round_lem y,
        bit_xor-half x y,
        bit_xor-digit x y,
        poly_bit (x % 2) (y % 2) (omega arith) (omega arith),
      )
      (bit_xor_middle (x / 2) (y / 2) (x % 2 * poly) (y % 2 * poly))

pub rounds-bit_xor : (n x y : ℕ) → rounds n (bit_xor x y) ≡ bit_xor (rounds n x) (rounds n y)
unfolding rounds
rounds-bit_xor zero x y = refl
rounds-bit_xor (suc n) x y = rw (round-bit_xor x y) (rounds-bit_xor n (round x) (round y))

round_even : (x y : ℕ) → y ≡ x * 2 → round y ≡ x
round_even x y e =
    let half : y / 2 ≡ x = omega arith in
    let digit : y % 2 * poly ≡ 0 = omega arith in rw (round_lem y, half, digit) (bit_xor-zero x)

-- Low zero bits are shifted out.
pub rounds_shifted : (n x : ℕ) → rounds n (x * 2 ^ n) ≡ x
unfolding rounds
rounds_shifted zero x = omega arith
rounds_shifted (suc n) x =
    let e : x * 2 ^ suc n ≡ x * 2 ^ n * 2 = omega (arith, ap (λ (t : ℕ). x * t) (pow-suc 2 n)) in
    rw (round_even (x * 2 ^ n) (x * 2 ^ suc n) e) (rounds_shifted n x)

-- What the first `n` rounds do to the bits above the lowest `n`.
pub rounds_fields : (n q r : ℕ) → r < 2 ^ n → rounds n (q * 2 ^ n + r) ≡ bit_xor q (rounds n r)
rounds_fields n q r h =
    ap (rounds n) (sym (bit_xor_fields n q r h))
    ∙ rounds-bit_xor n (q * 2 ^ n) r
    ∙ ap (λ t. bit_xor t (rounds n r)) (rounds_shifted n q)

make_table_lem : (n i k : ℕ) → k < n → get_or (make_table_from n i) k 0 ≡ rounds 8 (i + k)
unfolding make_table_from
make_table_lem zero i k h = absurd (omega arith)
make_table_lem (suc n) i zero h = ap (rounds 8) (omega arith)
make_table_lem (suc n) i (suc k) h =
    make_table_lem n (i + 1) k (omega arith) ∙ ap (rounds 8) (omega arith)

-- A step by the table is eight rounds of the register.
pub crc_step_lem : (crc b : ℕ) → b < 256 → crc_step crc b ≡ rounds 8 (bit_xor crc b)
unfolding crc_step make_table
crc_step_lem crc b h =
    let x = bit_xor crc b in
    let high : x / 256 ≡ crc / 256 =
      bit_xor-shift 8 crc b ∙ ap (bit_xor (crc / 256)) (omega arith) ∙ bit_xor-zero (crc / 256) in
    ap₂ bit_xor (sym high) (
      ap (λ t. get_or make_table t 0) (bit_and-byte x)
      ∙ make_table_lem 256 0 (x % 256) (omega arith)
      ∙ ap (rounds 8) (omega arith))
    ∙ sym (rounds_fields 8 (x / 256) (x % 256) (omega arith))
    ∙ ap (rounds 8) (omega arith)

-- The shift register as a reference: a message bit enters at the low end, with each round.
pub feed : ℕ → ℕ → ℕ
feed crc bit = round (bit_xor crc bit)

-- The lowest `n` bits of `b`, lowest first.
pub feed_bits : ℕ → ℕ → ℕ → ℕ
feed_bits zero crc b = crc
feed_bits (suc n) crc b = feed_bits n (feed crc (b % 2)) (b / 2)

pub feed_bytes : ℕ → List ℕ → ℕ
feed_bytes crc [] = crc
feed_bytes crc (b ∷ bytes) = feed_bytes (feed_bits 8 crc b) bytes

feed_bits-rounds : (n crc b : ℕ) → b < 2 ^ n → feed_bits n crc b ≡ rounds n (bit_xor crc b)
unfolding feed_bits feed rounds
feed_bits-rounds zero crc b h = let e : b ≡ 0 = omega arith in rw (e, bit_xor-zero crc)
feed_bits-rounds (suc n) crc b h =
    let split : bit_xor (b / 2 * 2) (b % 2) ≡ b =
      bit_xor_fields 1 (b / 2) (b % 2) (omega arith) ∙ omega arith in
    let first : round (bit_xor crc b) ≡ bit_xor (round (bit_xor crc (b % 2))) (b / 2) =
      ap (λ t. round (bit_xor crc t)) (sym split)
      ∙ ap round (
          ap (bit_xor crc) (bit_xor_comm (b / 2 * 2) (b % 2))
          ∙ sym (bit_xor_assoc crc (b % 2) (b / 2 * 2)))
      ∙ round-bit_xor (bit_xor crc (b % 2)) (b / 2 * 2)
      ∙ ap (bit_xor (round (bit_xor crc (b % 2)))) (round_even (b / 2) (b / 2 * 2) refl) in
    rw first (feed_bits-rounds n (round (bit_xor crc (b % 2))) (b / 2) (omega (arith, pow-suc 2 n)))

crc_loop-feed_bytes :
    (crc : ℕ) (bytes : List ℕ) → IsBytes bytes → crc_loop crc bytes ≡ feed_bytes crc bytes
unfolding crc_loop feed_bytes
crc_loop-feed_bytes crc [] h = refl
crc_loop-feed_bytes crc (b ∷ bytes) h =
    rw (crc_step_lem crc b h.0, ← feed_bits-rounds 8 crc b h.0)
      (crc_loop-feed_bytes (feed_bits 8 crc b) bytes h.1)

-- The CRC of a byte string is what the bit-serial shift register of the reversed polynomial
-- holds, started with all ones and complemented at the end.
pub crc32-feed_bytes :
    (bytes : List ℕ) → IsBytes bytes → crc32 bytes ≡ 0xFFFF_FFFF - feed_bytes 0xFFFF_FFFF bytes
unfolding crc32
crc32-feed_bytes bytes h = ap (λ t. 0xFFFF_FFFF - t) (crc_loop-feed_bytes 0xFFFF_FFFF bytes h)
