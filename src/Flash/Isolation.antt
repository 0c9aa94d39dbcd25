-- ===== src/Flash/Isolation.antt =====
-- Partitions of one simulated flash: what a write or an erase through one of them cannot touch.
use native.Mathlib.Decide.{dec_le}
use embedded_overlay.Base.{
  ℕ, ◌+◌, ◌-◌, ◌≤◌, ◌<◌, List, length, get_or, slice, length-slice, get_or-slice, get_or_ext, ◌≡◌,
  ◌⊎◌, inl, inr, refl, sym, ap, ◌∙◌, arith, leb, leb→le, Bool-cases,
}
use embedded_overlay.Arith.{Profile, u32_mod}
use embedded_overlay.Error.{map_err}
use embedded_overlay.Flash.Mock.{MockFlash, MockFlashError, mock_flash}
use embedded_overlay.Flash.Mock
use embedded_overlay.Flash.Mock.Laws.{clear_bits_outside, fill_outside, length-clear_bits}
use embedded_overlay.Flash.Partition.{PartitionView, PartitionError, read, write, erase}
use embedded_overlay.Flash.Partition.Laws.{IsValid, read-shifted, write-shifted, erase-shifted}

module _ (profile : Profile) (capacity erase_size : ℕ) where
  mock_write_outside :
      (s : MockFlash) (offset : ℕ) (bytes : List ℕ) (j : ℕ)
      → (j < offset) ⊎ (offset + length bytes ≤ j)
      → get_or (Mock.write capacity erase_size s offset bytes).1.content j 0 ≡ get_or s.content j 0
  unfolding Mock.write
  mock_write_outside s offset bytes j h =
      ground (arith, clear_bits_outside offset bytes s.content j)

  mock_erase_outside :
      (s : MockFlash) (from to j : ℕ)
      → from ≤ to
      → (j < from) ⊎ (to ≤ j)
      → get_or (Mock.erase capacity erase_size s from to).1.content j 0 ≡ get_or s.content j 0
  unfolding Mock.erase
  mock_erase_outside s from to j le h = ground (arith, fill_outside from (to - from) s.content j)

  length-mock_write :
      (s : MockFlash) (offset : ℕ) (bytes : List ℕ)
      → length (Mock.write capacity erase_size s offset bytes).1.content ≡ length s.content
  unfolding Mock.write
  length-mock_write s offset bytes = ground (arith, length-clear_bits offset bytes s.content)

  -- A write of fewer than 2^32 bytes through a valid partition changes no byte outside the partition's range, whether it succeeds
  -- or not.
  pub write_isolated :
      (v : PartitionView MockFlash) (offset : ℕ) (bytes : List ℕ) (j : ℕ)
      → IsValid v
      → length bytes < u32_mod
      → (j < v.base_offset) ⊎ (v.base_offset + v.size ≤ j)
      → get_or (write profile (mock_flash capacity erase_size) v offset bytes).1.storage.content j 0
        ≡ get_or v.storage.content j 0
  unfolding mock_flash
  write_isolated v offset bytes j valid small out =
      rw (write-shifted profile (mock_flash capacity erase_size) v valid offset bytes small)
        (ground (arith, mock_write_outside v.storage (v.base_offset + offset) bytes j))

  -- An erase through a valid partition changes no byte outside the partition's range, whether it
  -- succeeds or not.
  pub erase_isolated :
      (v : PartitionView MockFlash) (from to j : ℕ)
      → IsValid v
      → (j < v.base_offset) ⊎ (v.base_offset + v.size ≤ j)
      → get_or (erase profile (mock_flash capacity erase_size) v from to).1.storage.content j 0
        ≡ get_or v.storage.content j 0
  unfolding mock_flash
  erase_isolated v from to j valid out =
      rw (erase-shifted profile (mock_flash capacity erase_size) v valid from to)
        (ground (arith, mock_erase_outside v.storage (v.base_offset + from) (v.base_offset + to) j))

  length_write :
      (v : PartitionView MockFlash) (offset : ℕ) (bytes : List ℕ)
      → IsValid v
      → length bytes < u32_mod
      → length (write profile (mock_flash capacity erase_size) v offset bytes).1.storage.content
        ≡ length v.storage.content
  unfolding mock_flash
  length_write v offset bytes valid small =
      rw (write-shifted profile (mock_flash capacity erase_size) v valid offset bytes small)
        (ground (arith, length-mock_write v.storage (v.base_offset + offset) bytes))

  same_slice :
      (xs ys : List ℕ) (from n : ℕ)
      → length xs ≡ length ys
      → from + n ≤ length xs
      → ((j : ℕ) → from ≤ j → j < from + n → get_or xs j 0 ≡ get_or ys j 0)
      → slice from n xs ≡ slice from n ys
  same_slice xs ys from n e fits h =
      let lx = length-slice from n xs fits in
      let ly = length-slice from n ys (omega arith) in
      get_or_ext (slice from n xs) (slice from n ys) 0 (lx ∙ sym ly) (λ i l.
        get_or-slice from n i xs 0 (omega arith)
        ∙ h (from + i) (omega arith) (omega arith)
        ∙ sym (get_or-slice from n i ys 0 (omega arith)))

  -- A read that a change elsewhere cannot reach.
  mock_read_same :
      (s t : MockFlash) (offset : ℕ) (buf : List ℕ)
      → length s.content ≡ capacity
      → length t.content ≡ capacity
      → ((j : ℕ)
          → offset ≤ j
          → j < offset + length buf
          → get_or s.content j 0 ≡ get_or t.content j 0)
      → ((Mock.read capacity erase_size s offset buf).0
          ≡ (Mock.read capacity erase_size t offset buf).0)
        × ((Mock.read capacity erase_size s offset buf).1
            ≡ (Mock.read capacity erase_size t offset buf).1)
  unfolding Mock.read
  mock_read_same s t offset buf es et h = elim (dec_le (offset + length buf) capacity) [
    | yes p ↦
        ground
          (arith, same_slice s.content t.content offset (length buf) (es ∙ sym et) (omega arith) h)
    | no p ↦ ground arith
  ]

  -- Two valid partitions of one flash, of which the stored bytes fill the capacity, and whose ranges
  -- do not overlap, are independent: a write of fewer than 2^32 bytes through the first, successful or
  -- not, changes neither the status nor the bytes of any read of fewer than 2^32 bytes through the
  -- second.
  pub disjoint_partitions :
      (a b : PartitionView MockFlash) (offset : ℕ) (bytes : List ℕ) (at : ℕ) (buf : List ℕ)
      → IsValid a
      → IsValid b
      → (a.base_offset + a.size ≤ b.base_offset) ⊎ (b.base_offset + b.size ≤ a.base_offset)
      → length b.storage.content ≡ capacity
      → a.storage ≡ b.storage
      → length bytes < u32_mod
      → length buf < u32_mod
      → let flash = mock_flash capacity erase_size in
        let after = record b { storage = (write profile flash a offset bytes).1.storage } in
        ((read profile flash after at buf).0 ≡ (read profile flash b at buf).0)
        × ((read profile flash after at buf).1 ≡ (read profile flash b at buf).1)
  unfolding mock_flash
  disjoint_partitions a b offset bytes at buf va vb apart full shared hw hr =
      let after : PartitionView MockFlash = record b {
        storage = (write profile (mock_flash capacity erase_size) a offset bytes).1.storage;
      } in
      let keep : length after.storage.content ≡ capacity =
        length_write a offset bytes va hw ∙ ap (λ s. length s.content) shared ∙ full in
      rw
        (
          read-shifted profile (mock_flash capacity erase_size) after vb at buf hr,
          read-shifted profile (mock_flash capacity erase_size) b vb at buf hr,
        )
        (elim (Bool-cases (leb (at + length buf) b.size)) [
          | inl fits ↦
              let same =
                mock_read_same after.storage b.storage (b.base_offset + at) buf keep full
                  λ j low high.
                    write_isolated a offset bytes j va hw
                      (omega (arith, leb→le (at + length buf) b.size fits))
                    ∙ ap (λ s. get_or s.content j 0) shared in
              rw fits (ap (map_err PartitionError.storage) same.0, same.1)
          | inr out ↦ rw out (refl, refl)
        ])
