-- ===== src/Crc/Detect.antt =====
-- Which changes of a byte string the CRC always shows.
use mathlib.Core.Path.{ap₂}
use embedded_overlay.Base.{
  ℕ, zero, suc, ◌+◌, ◌-◌, ◌*◌, ◌/◌, ◌%◌, ◌^◌, ◌≤◌, ◌<◌, bit_xor, List, [], ◌∷◌, ◌++◌, length, ◌≡◌,
  ◌≢◌, refl, sym, ap, ◌∙◌, arith,
}
use embedded_overlay.Base.Xor.{
  bit_xor-zero, bit_xor_fields, bit_xor-shift, bit_xor_comm, bit_xor_assoc, bit_xor-lt,
  bit_xor_cancel_left, bit_xor_cancel_right, zero-bit_xor,
}
use embedded_overlay.Bytes.{IsBytes}
use embedded_overlay.Crc.{poly, round, rounds, crc_step, crc_loop, crc32}
use embedded_overlay.Crc.Bits.{round_lem, crc_step_lem, rounds-bit_xor, rounds_shifted}

half_word : (x : ℕ) → x < 2 ^ 32 → x / 2 < 2 ^ 32
half_word x h = omega arith

poly_word : (x : ℕ) → x % 2 * poly < 2 ^ 32
poly_word x = omega arith

pub round-lt : (x : ℕ) → x < 2 ^ 32 → round x < 2 ^ 32
round-lt x h = rw (round_lem x) (bit_xor-lt 32 (x / 2) (x % 2 * poly) (half_word x h) (poly_word x))

pub rounds-lt : (n x : ℕ) → x < 2 ^ 32 → rounds n x < 2 ^ 32
unfolding rounds
rounds-lt zero x h = h
rounds-lt (suc n) x h = rounds-lt n (round x) (round-lt x h)

-- The top bit of a word after a round is the bit that the round shifted out, since the
-- polynomial has that bit and a shifted word does not.
round_top : (x : ℕ) → x < 2 ^ 32 → round x / 2 ^ 31 ≡ x % 2
round_top x h =
    rw (round_lem x, bit_xor-shift 31 (x / 2) (x % 2 * poly))
      (ap₂ bit_xor (omega arith) (omega arith) ∙ zero-bit_xor (x % 2))

-- A round loses nothing.
pub round_injective : (x y : ℕ) → x < 2 ^ 32 → y < 2 ^ 32 → round x ≡ round y → x ≡ y
round_injective x y p q e =
    let digit : x % 2 ≡ y % 2 = sym (round_top x p) ∙ ap (λ t. t / 2 ^ 31) e ∙ round_top y q in
    let half : x / 2 ≡ y / 2 =
      bit_xor_cancel_right (y % 2 * poly)
        (ap (λ t. bit_xor (x / 2) (t * poly)) (sym digit) ∙ sym (round_lem x) ∙ e ∙ round_lem y) in
    omega arith

pub rounds_injective : (n x y : ℕ) → x < 2 ^ 32 → y < 2 ^ 32 → rounds n x ≡ rounds n y → x ≡ y
unfolding rounds
rounds_injective zero x y p q e = e
rounds_injective (suc n) x y p q e =
    round_injective x y p q (rounds_injective n (round x) (round y) (round-lt x p) (round-lt y q) e)

pub crc_loop-lt :
    (crc : ℕ) (bytes : List ℕ) → crc < 2 ^ 32 → IsBytes bytes → crc_loop crc bytes < 2 ^ 32
unfolding crc_loop
crc_loop-lt crc [] h w = h
crc_loop-lt crc (b ∷ bytes) h w =
    crc_loop-lt (crc_step crc b) bytes
      (rw (crc_step_lem crc b w.0)
        (rounds-lt 8 (bit_xor crc b) (bit_xor-lt 32 crc b h (omega arith))))
      w.1

-- The checksum is a 32-bit word.
pub crc32-lt : (bytes : List ℕ) → crc32 bytes < 2 ^ 32
unfolding crc32
crc32-lt bytes = omega arith

pub crc_loop-append :
    (crc : ℕ) (xs ys : List ℕ) → crc_loop crc (xs ++ ys) ≡ crc_loop (crc_loop crc xs) ys
unfolding crc_loop
crc_loop-append crc [] ys = refl
crc_loop-append crc (x ∷ xs) ys = crc_loop-append (crc_step crc x) xs ys

-- The loop is injective in its start.
pub crc_loop_injective :
    (x y : ℕ) (bytes : List ℕ)
    → x < 2 ^ 32
    → y < 2 ^ 32
    → IsBytes bytes
    → crc_loop x bytes ≡ crc_loop y bytes
    → x ≡ y
unfolding crc_loop
crc_loop_injective x y [] p q w e = e
crc_loop_injective x y (b ∷ bytes) p q w e =
    let px = bit_xor-lt 32 x b p (omega arith) in
    let py = bit_xor-lt 32 y b q (omega arith) in
    let ex = crc_step_lem x b w.0 in
    let ey = crc_step_lem y b w.0 in
    let same : crc_step x b ≡ crc_step y b =
      crc_loop_injective (crc_step x b) (crc_step y b) bytes (rw ex (rounds-lt 8 (bit_xor x b) px))
        (rw ey (rounds-lt 8 (bit_xor y b) py)) w.1 e in
    bit_xor_cancel_right b
      (rounds_injective 8 (bit_xor x b) (bit_xor y b) px py (sym ex ∙ same ∙ ey))

-- A byte string as a number, the first byte lowest.
pub le_number : List ℕ → ℕ
le_number [] = 0
le_number (b ∷ bytes) = b + le_number bytes * 2 ^ 8

rounds-add : (m n x : ℕ) → rounds (m + n) x ≡ rounds n (rounds m x)
unfolding rounds
rounds-add zero n x = let e : 0 + n ≡ n = omega arith in ap (λ t. rounds t x) e
rounds-add (suc m) n x =
    let e : suc m + n ≡ suc (m + n) = omega arith in
    ap (λ t. rounds t x) e ∙ rounds-add m n (round x)

-- The loop over a string is rounds over its number.
crc_loop-rounds :
    (crc : ℕ) (bytes : List ℕ)
    → IsBytes bytes
    → crc_loop crc bytes ≡ rounds (length bytes * 8) (bit_xor crc (le_number bytes))
unfolding crc_loop le_number rounds
crc_loop-rounds crc [] w = sym (bit_xor-zero crc)
crc_loop-rounds crc (b ∷ bytes) w =
    let high = le_number bytes in
    let count : 8 + length bytes * 8 ≡ suc (length bytes) * 8 = omega arith in
    let fields : bit_xor crc (b + high * 2 ^ 8) ≡ bit_xor (bit_xor crc b) (high * 2 ^ 8) =
      ap (bit_xor crc) (omega (arith, bit_xor_fields 8 high b w.0) ∙ bit_xor_comm (high * 2 ^ 8) b)
      ∙ sym (bit_xor_assoc crc b (high * 2 ^ 8)) in
    let step : rounds 8 (bit_xor crc (b + high * 2 ^ 8)) ≡ bit_xor (crc_step crc b) high =
      ap (rounds 8) fields
      ∙ rounds-bit_xor 8 (bit_xor crc b) (high * 2 ^ 8)
      ∙ ap₂ bit_xor (sym (crc_step_lem crc b w.0)) (rounds_shifted 8 high) in
    crc_loop-rounds (crc_step crc b) bytes w.1
    ∙ ap (rounds (length bytes * 8)) (sym step)
    ∙ sym (rounds-add 8 (length bytes * 8) (bit_xor crc (b + high * 2 ^ 8)))
    ∙ ap (λ t. rounds t (bit_xor crc (b + high * 2 ^ 8))) count

le_number_injective :
    (xs ys : List ℕ)
    → IsBytes xs
    → IsBytes ys
    → length xs ≡ length ys
    → le_number xs ≡ le_number ys
    → xs ≡ ys
unfolding le_number
le_number_injective [] [] p q l e = refl
le_number_injective [] (y ∷ ys) p q l e = absurd (omega arith)
le_number_injective (x ∷ xs) [] p q l e = absurd (omega arith)
le_number_injective (x ∷ xs) (y ∷ ys) p q l e =
    ap₂ ◌∷◌ (omega arith) (le_number_injective xs ys p.1 q.1 (omega arith) (omega arith))

le_number-lt : (xs : List ℕ) → IsBytes xs → length xs ≤ 4 → le_number xs < 2 ^ 32
unfolding le_number
le_number-lt [] w h = omega arith
le_number-lt (a ∷ []) w h = omega arith
le_number-lt (a ∷ b ∷ []) w h = omega arith
le_number-lt (a ∷ b ∷ c ∷ []) w h = omega arith
le_number-lt (a ∷ b ∷ c ∷ d ∷ []) w h = omega arith
le_number-lt (a ∷ b ∷ c ∷ d ∷ e ∷ r) w h = absurd (omega arith)

complement : {x y : ℕ} → x < 2 ^ 32 → y < 2 ^ 32 → 0xFFFF_FFFF - x ≡ 0xFFFF_FFFF - y → x ≡ y
complement p q e = omega arith

-- From a known state, four bytes or fewer are determined by the state that they lead to.
window_of_loop :
    (crc : ℕ) (xs ys : List ℕ)
    → crc < 2 ^ 32
    → IsBytes xs
    → IsBytes ys
    → length xs ≡ length ys
    → length xs ≤ 4
    → crc_loop crc xs ≡ crc_loop crc ys
    → xs ≡ ys
window_of_loop crc xs ys h p q same short e =
    let n = length xs * 8 in
    let x = le_number xs in
    let y = le_number ys in
    let y_lt : y < 2 ^ 32 = le_number-lt ys q (omega arith) in
    let rounds_eq : rounds n (bit_xor crc x) ≡ rounds n (bit_xor crc y) =
      sym (crc_loop-rounds crc xs p)
      ∙ e
      ∙ crc_loop-rounds crc ys q
      ∙ ap (λ (k : ℕ). rounds (k * 8) (bit_xor crc y)) (sym same) in
    le_number_injective xs ys p q same (
      bit_xor_cancel_left crc (
        rounds_injective n (bit_xor crc x) (bit_xor crc y)
          (bit_xor-lt 32 crc x h (le_number-lt xs p short)) (bit_xor-lt 32 crc y h y_lt) rounds_eq))

pub IsBytes-append : (xs ys : List ℕ) → IsBytes (xs ++ ys) → IsBytes xs × IsBytes ys
IsBytes-append [] ys h = (tt, h)
IsBytes-append (x ∷ xs) ys h = let (p, q) = IsBytes-append xs ys h.1 in ((h.0, p), q)

-- A burst error of up to four bytes always changes the CRC: two byte strings of one length that
-- differ only inside a window of at most four bytes have different checksums.
pub crc32_burst :
    (before window window' after : List ℕ)
    → IsBytes (before ++ (window ++ after))
    → IsBytes window'
    → length window ≡ length window'
    → length window ≤ 4
    → window ≢ window'
    → crc32 (before ++ (window ++ after)) ≢ crc32 (before ++ (window' ++ after))
unfolding crc32
crc32_burst before window window' after w w' same short differ e =
    let start : ℕ = 0xFFFF_FFFF in
    let (wb, wr) = IsBytes-append before (window ++ after) w in
    let (ww, wa) = IsBytes-append window after wr in
    let mid = crc_loop start before in
    let mid_lt = crc_loop-lt start before (omega arith) wb in
    let out : (v : List ℕ)
        → crc_loop start (before ++ (v ++ after)) ≡ crc_loop (crc_loop mid v) after =
      λ v. crc_loop-append start before (v ++ after) ∙ crc_loop-append mid v after in
    let lt : (v : List ℕ) → IsBytes v → crc_loop mid v < 2 ^ 32 =
      λ v h. crc_loop-lt mid v mid_lt h in
    let loops : crc_loop (crc_loop mid window) after ≡ crc_loop (crc_loop mid window') after =
      complement (crc_loop-lt (crc_loop mid window) after (lt window ww) wa)
        (crc_loop-lt (crc_loop mid window') after (lt window' w') wa)
        (ap (λ t. 0xFFFF_FFFF - t) (sym (out window))
          ∙ e
          ∙ ap (λ t. 0xFFFF_FFFF - t) (out window')) in
    differ (
      window_of_loop mid window window' mid_lt ww w' same short (
        crc_loop_injective (crc_loop mid window) (crc_loop mid window') after (lt window ww)
          (lt window' w') wa loops))
