-- ===== src/Crc/Fnv.antt =====
-- The module ids that FNV-1a derives from names.
use embedded_overlay.Base.{
  ℕ, ◌*◌, ◌%◌, ◌^◌, ◌<◌, bit_xor, List, [], ◌∷◌, ◌++◌, ◌≡◌, ◌≢◌, refl, sym, ap, ◌∙◌, arith,
}
use embedded_overlay.Base.Xor.{bit_xor-lt, bit_xor_cancel_left, bit_xor_cancel_right}
use embedded_overlay.Crc.{fnv_step, fnv_loop, fnv1a_hash}
use embedded_overlay.Bytes.{IsBytes}
use embedded_overlay.Crc.Detect.{IsBytes-append}

-- The multiplier is odd, so it has an inverse modulo 2^32.
mul_undo : (x : ℕ) → x < 2 ^ 32 → (x * 0x0100_0193) % 2 ^ 32 * 0x359c449b % 2 ^ 32 ≡ x
mul_undo x h = omega arith

mul_injective :
    (x y : ℕ)
    → x < 2 ^ 32
    → y < 2 ^ 32
    → (x * 0x0100_0193) % 2 ^ 32 ≡ (y * 0x0100_0193) % 2 ^ 32
    → x ≡ y
mul_injective x y p q e = sym (mul_undo x p) ∙ ap (λ t. t * 0x359c449b % 2 ^ 32) e ∙ mul_undo y q

fnv_step-lt : (hash b : ℕ) → fnv_step hash b < 2 ^ 32
unfolding fnv_step
fnv_step-lt hash b = omega arith

fnv_loop-lt : (hash : ℕ) (bytes : List ℕ) → hash < 2 ^ 32 → fnv_loop hash bytes < 2 ^ 32
unfolding fnv_loop
fnv_loop-lt hash [] h = h
fnv_loop-lt hash (b ∷ bytes) h = fnv_loop-lt (fnv_step hash b) bytes (fnv_step-lt hash b)

pub fnv1a_hash-lt : (bytes : List ℕ) → fnv1a_hash bytes < 2 ^ 32
unfolding fnv1a_hash
fnv1a_hash-lt bytes = fnv_loop-lt 0x811c_9dc5 bytes (omega arith)

fnv_step_injective :
    (x y b c : ℕ)
    → x < 2 ^ 32
    → y < 2 ^ 32
    → b < 256
    → c < 256
    → fnv_step x b ≡ fnv_step y c
    → bit_xor x b ≡ bit_xor y c
unfolding fnv_step
fnv_step_injective x y b c p q h k e =
    mul_injective (bit_xor x b) (bit_xor y c) (bit_xor-lt 32 x b p (omega arith))
      (bit_xor-lt 32 y c q (omega arith)) e

fnv_loop_injective :
    (x y : ℕ) (bytes : List ℕ)
    → x < 2 ^ 32
    → y < 2 ^ 32
    → IsBytes bytes
    → fnv_loop x bytes ≡ fnv_loop y bytes
    → x ≡ y
unfolding fnv_loop
fnv_loop_injective x y [] p q w e = e
fnv_loop_injective x y (b ∷ bytes) p q w e = bit_xor_cancel_right b (
    fnv_step_injective x y b b p q w.0 w.0 (
      fnv_loop_injective (fnv_step x b) (fnv_step y b) bytes (fnv_step-lt x b) (fnv_step-lt y b) w.1
        e))

fnv_loop-append :
    (hash : ℕ) (xs ys : List ℕ) → fnv_loop hash (xs ++ ys) ≡ fnv_loop (fnv_loop hash xs) ys
unfolding fnv_loop
fnv_loop-append hash [] ys = refl
fnv_loop-append hash (x ∷ xs) ys = fnv_loop-append (fnv_step hash x) xs ys

-- Two names that differ in exactly one byte never get the same module id.
pub fnv1a_hash_one_byte :
    (before : List ℕ) (b c : ℕ) (after : List ℕ)
    → IsBytes (before ++ (b ∷ after))
    → c < 256
    → b ≢ c
    → fnv1a_hash (before ++ (b ∷ after)) ≢ fnv1a_hash (before ++ (c ∷ after))
unfolding fnv1a_hash fnv_loop
fnv1a_hash_one_byte before b c after w hc differ e =
    let mid = fnv_loop 0x811c_9dc5 before in
    let (_, wr) = IsBytes-append before (b ∷ after) w in
    let mid_lt = fnv_loop-lt 0x811c_9dc5 before (omega arith) in
    let steps : fnv_step mid b ≡ fnv_step mid c =
      fnv_loop_injective (fnv_step mid b) (fnv_step mid c) after (fnv_step-lt mid b)
        (fnv_step-lt mid c) wr.1
        (sym (fnv_loop-append 0x811c_9dc5 before (b ∷ after))
          ∙ e
          ∙ fnv_loop-append 0x811c_9dc5 before (c ∷ after)) in
    differ (bit_xor_cancel_left mid (fnv_step_injective mid mid b c mid_lt mid_lt wr.0 hc steps))
