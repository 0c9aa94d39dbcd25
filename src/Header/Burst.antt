-- ===== src/Header/Burst.antt =====
-- A burst error in the part of a header that its checksum covers, whatever the header.
use embedded_overlay.Base.{
  ℕ, ◌≤◌, List, ◌++◌, length, take, get_or, take-append_length, get_or-append_same, length-append,
  ◌≡◌, ◌≢◌, ap, ◌∙◌, sym, arith,
}
use embedded_overlay.Bytes.{IsBytes}
use embedded_overlay.Crc.{crc32}
use embedded_overlay.Crc.Detect.{crc32_burst}

-- `covered` bytes are under the checksum; a window of at most four of them was overwritten, with
-- other bytes.
pub record Burst (covered : ℕ) (original damaged : List ℕ) : Type 0 where
  pub before : List ℕ
  pub window : List ℕ
  pub window' : List ℕ
  pub after : List ℕ
  pub rest : List ℕ
  pub original_lem : original ≡ (before ++ (window ++ after)) ++ rest
  pub damaged_lem : damaged ≡ (before ++ (window' ++ after)) ++ rest
  pub covered_lem : length (before ++ (window ++ after)) ≡ covered
  pub same_length : length window ≡ length window'
  pub short : length window ≤ 4
  pub changed : window ≢ window'
  pub bytes : IsBytes (before ++ (window ++ after))
  pub bytes' : IsBytes window'

module _ {n : ℕ} {original damaged : List ℕ} (b : Burst n original damaged) where
  length_damaged : length (b.before ++ (b.window' ++ b.after)) ≡ n
  length_damaged = omega (
    arith,
    b.covered_lem,
    b.same_length,
    length-append b.before (b.window ++ b.after),
    length-append b.window b.after,
    length-append b.before (b.window' ++ b.after),
    length-append b.window' b.after,
  )

  -- The checksums of the two differ.
  pub Burst-crc32 : crc32 (take n original) ≢ crc32 (take n damaged)
  Burst-crc32 e =
      let xs = b.before ++ (b.window ++ b.after) in
      let ys = b.before ++ (b.window' ++ b.after) in
      let left : take n original ≡ xs =
        ap (take n) b.original_lem
        ∙ ap (λ k. take k (xs ++ b.rest)) (sym b.covered_lem)
        ∙ take-append_length xs b.rest in
      let right : take n damaged ≡ ys =
        ap (take n) b.damaged_lem
        ∙ ap (λ k. take k (ys ++ b.rest)) (sym length_damaged)
        ∙ take-append_length ys b.rest in
      crc32_burst b.before b.window b.window' b.after b.bytes b.bytes' b.same_length b.short
        b.changed (ap crc32 (sym left) ∙ e ∙ ap crc32 right)

  -- What follows the covered bytes is the same.
  pub Burst-get_or : (i : ℕ) → n ≤ i → get_or original i 0 ≡ get_or damaged i 0
  Burst-get_or i h =
      ap (λ t. get_or t i 0) b.original_lem
      ∙ get_or-append_same (b.before ++ (b.window ++ b.after)) (b.before ++ (b.window' ++ b.after))
          b.rest i 0 (omega (arith, length_damaged, b.covered_lem)) (omega (arith, b.covered_lem))
      ∙ ap (λ t. get_or t i 0) (sym b.damaged_lem)
