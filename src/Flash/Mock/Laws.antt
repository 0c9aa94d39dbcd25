-- ===== src/Flash/Mock/Laws.antt =====
-- The simulated NOR flash: what an erase and a write do to each byte, and the programming cycle.
use embedded_overlay.Base.{
  ℕ, zero, suc, ◌+◌, ◌-◌, ◌%◌, ◌≤◌, ◌<◌, List, [], ◌∷◌, length, get_or, set, slice, bit_and,
  length-set, length-slice, get_or-slice, get_or-set_self, get_or-set_ne, get_or_ext, ltb, leb,
  ◌&&◌, if◌then◌else◌, ◌≡◌, ◌⊎◌, inl, inr, refl, ap, ◌∙◌, arith,
}
use embedded_overlay.Base.And.{bit_and-byte, bit_and_comm}
use embedded_overlay.Bytes.{IsBytes, get_or-lt}
use native.Mathlib.Decide.{dec_lt, dec_le}
use embedded_overlay.Error.{ok, err}
use embedded_overlay.Flash.{Serves}
use embedded_overlay.Flash.Mock.{
  MockFlash, MockFlashError, clear_bits, fill, read, erase, write, mock_flash,
}

pub length-clear_bits :
    (at : ℕ) (bytes content : List ℕ) → length (clear_bits at bytes content) ≡ length content
unfolding clear_bits
length-clear_bits at [] content = refl
length-clear_bits at (b ∷ bytes) content =
    length-clear_bits (at + 1) bytes (set content at (bit_and (get_or content at 0) b))
    ∙ length-set content at (bit_and (get_or content at 0) b)

pub length-fill : (at n : ℕ) (content : List ℕ) → length (fill at n content) ≡ length content
unfolding fill
length-fill at zero content = refl
length-fill at (suc n) content =
    length-fill (at + 1) n (set content at 0xFF) ∙ length-set content at 0xFF

pub clear_bits_outside :
    (at : ℕ) (bytes content : List ℕ) (j : ℕ)
    → (j < at) ⊎ (at + length bytes ≤ j)
    → get_or (clear_bits at bytes content) j 0 ≡ get_or content j 0
unfolding clear_bits
clear_bits_outside at [] content j h = refl
clear_bits_outside at (b ∷ bytes) content j h =
    clear_bits_outside (at + 1) bytes (set content at (bit_and (get_or content at 0) b)) j
      (omega arith)
    ∙ get_or-set_ne content at j (bit_and (get_or content at 0) b) 0 (omega arith)

pub clear_bits_inside :
    (at : ℕ) (bytes content : List ℕ) (i : ℕ)
    → i < length bytes
    → at + length bytes ≤ length content
    → get_or (clear_bits at bytes content) (at + i) 0
      ≡ bit_and (get_or content (at + i) 0) (get_or bytes i 0)
unfolding clear_bits
clear_bits_inside at [] content i h fits = absurd (omega arith)
clear_bits_inside at (b ∷ bytes) content zero h fits =
    let v = bit_and (get_or content at 0) b in
    let e : at + 0 ≡ at = omega arith in
    rw e (
      clear_bits_outside (at + 1) bytes (set content at v) at (omega arith)
      ∙ get_or-set_self content at v 0 (omega arith))
clear_bits_inside at (b ∷ bytes) content (suc i) h fits =
    let v = bit_and (get_or content at 0) b in
    let e : at + suc i ≡ at + 1 + i = omega arith in
    rw e (
      clear_bits_inside (at + 1) bytes (set content at v) i (omega arith)
        (omega (arith, length-set content at v))
      ∙ ap (λ t. bit_and t (get_or bytes i 0))
          (get_or-set_ne content at (at + 1 + i) v 0 (omega arith)))

pub fill_outside :
    (at n : ℕ) (content : List ℕ) (j : ℕ)
    → (j < at) ⊎ (at + n ≤ j)
    → get_or (fill at n content) j 0 ≡ get_or content j 0
unfolding fill
fill_outside at zero content j h = refl
fill_outside at (suc n) content j h =
    fill_outside (at + 1) n (set content at 0xFF) j (omega arith)
    ∙ get_or-set_ne content at j 0xFF 0 (omega arith)

pub fill_inside :
    (at n : ℕ) (content : List ℕ) (j : ℕ)
    → at ≤ j
    → j < at + n
    → at + n ≤ length content
    → get_or (fill at n content) j 0 ≡ 0xFF
unfolding fill
fill_inside at zero content j low high fits = absurd (omega arith)
fill_inside at (suc n) content j low high fits = elim (dec_lt at j) [
  | yes p ↦
      fill_inside (at + 1) n (set content at 0xFF) j (omega arith) (omega arith)
        (omega (arith, length-set content at 0xFF))
  | no p ↦
      let e : j ≡ at = omega arith in
      rw e (
        fill_outside (at + 1) n (set content at 0xFF) at (omega arith)
        ∙ get_or-set_self content at 0xFF 0 (omega arith))
]

full_mask : (b : ℕ) → b < 256 → bit_and 0xFF b ≡ b
full_mask b h = bit_and_comm 0xFF b ∙ bit_and-byte b ∙ omega arith

-- Programming erased bytes stores them.
clear_bits-fill :
    (from n at : ℕ) (bytes content : List ℕ)
    → IsBytes bytes
    → from ≤ at
    → at + length bytes ≤ from + n
    → from + n ≤ length content
    → slice at (length bytes) (clear_bits at bytes (fill from n content)) ≡ bytes
clear_bits-fill from n at bytes content w low high room =
    let erased = fill from n content in
    let len : length erased ≡ length content = length-fill from n content in
    let done = clear_bits at bytes erased in
    let len' : length done ≡ length content = length-clear_bits at bytes erased ∙ len in
    let sliced = length-slice at (length bytes) done (omega arith) in
    get_or_ext (slice at (length bytes) done) bytes 0 sliced (λ i h.
      let small : i < length bytes = omega arith in
      get_or-slice at (length bytes) i done 0 small
      ∙ clear_bits_inside at bytes erased i small (omega arith)
      ∙ ap (λ t. bit_and t (get_or bytes i 0))
          (fill_inside from n content (at + i) (omega arith) (omega arith) room)
      ∙ full_mask (get_or bytes i 0) (get_or-lt bytes i w))

module _ (capacity erase_size : ℕ) where
  pub read_ok :
      (s : MockFlash) (offset : ℕ) (buf : List ℕ)
      → offset + length buf ≤ capacity
      → read capacity erase_size s offset buf ≡ (ok tt, slice offset (length buf) s.content, s)
  unfolding read
  read_ok s offset buf h = ground arith

  pub write_ok :
      (s : MockFlash) (offset : ℕ) (bytes : List ℕ)
      → offset + length bytes ≤ capacity
      → write capacity erase_size s offset bytes
        ≡ (ok tt, record { content = clear_bits offset bytes s.content })
  unfolding write
  write_ok s offset bytes h = ground arith

  pub erase_ok :
      (s : MockFlash) (from to : ℕ)
      → from ≤ to
      → to ≤ capacity
      → 0 < erase_size
      → from % erase_size ≡ 0
      → to % erase_size ≡ 0
      → erase capacity erase_size s from to
        ≡ (ok tt, record { content = fill from (to - from) s.content })
  unfolding erase
  erase_ok s from to h k p a b = ground arith

  -- The programming cycle: after an aligned erase of a range, bytes that are written anywhere inside
  -- the range are read back from there, and all three calls succeed.
  pub erase-write-read :
      (s : MockFlash) (from to offset : ℕ) (bytes buf : List ℕ)
      → length s.content ≡ capacity
      → 0 < erase_size
      → from % erase_size ≡ 0
      → to % erase_size ≡ 0
      → to ≤ capacity
      → from ≤ offset
      → offset + length bytes ≤ to
      → length buf ≡ length bytes
      → IsBytes bytes
      → (s1 : MockFlash) × (s2 : MockFlash) × (erase capacity erase_size s from to ≡ (ok tt, s1))
        × (write capacity erase_size s1 offset bytes ≡ (ok tt, s2))
        × (read capacity erase_size s2 offset buf ≡ (ok tt, bytes, s2))
  erase-write-read s from to offset bytes buf full pos a b fits low high same w =
      let s1 : MockFlash = record { content = fill from (to - from) s.content } in
      let s2 : MockFlash = record { content = clear_bits offset bytes s1.content } in
      let back : slice offset (length buf) s2.content ≡ bytes =
        ap (λ n. slice offset n s2.content) same
        ∙ clear_bits-fill from (to - from) offset bytes s.content w low (omega arith)
            (omega arith) in
      (
        s1,
        s2,
        erase_ok s from to (omega arith) fits pos a b,
        write_ok s1 offset bytes (omega arith),
        read_ok s2 offset buf (omega arith) ∙ ap (λ t. (ok tt, t, s2)) back,
      )

  -- A mock flash serves the image that it holds.
  pub mock_flash-Serves :
      (image : List ℕ)
      → length image ≤ capacity
      → Serves (mock_flash capacity erase_size) image (λ s. s.content ≡ image)
  unfolding mock_flash
  mock_flash-Serves image fits = record {
    read_lem = λ s offset buf holds h. (
      s,
      read_ok s offset buf (omega arith) ∙ ap (λ t. (ok tt, slice offset (length buf) t, s)) holds,
      holds,
    );
  }

  -- No read changes the length of the buffer.
  pub mock_flash-KeepsLength :
      (s : MockFlash)
      → length s.content ≡ capacity
      → (offset : ℕ) (buf : List ℕ) → length (read capacity erase_size s offset buf).1 ≡ length buf
  unfolding read
  mock_flash-KeepsLength s full offset buf =
      ground (arith, length-slice offset (length buf) s.content)

  at_index :
      (s : MockFlash) (offset : ℕ) (bytes : List ℕ) (j : ℕ)
      → offset + length bytes ≤ length s.content
      → get_or (clear_bits offset bytes s.content) j 0 ≡ (
          if leb offset j && ltb j (offset + length bytes)
          then bit_and (get_or s.content j 0) (get_or bytes (j - offset) 0)
          else get_or s.content j 0)
  at_index s offset bytes j fits = elim (dec_le offset j) [
    | yes low ↦
        let e : offset + (j - offset) ≡ j = omega arith in
        let inside = clear_bits_inside offset bytes s.content (j - offset) in
        let outside = clear_bits_outside offset bytes s.content j in
        ground (
          arith,
          e,
          inside,
          outside,
          ap (λ k. get_or (clear_bits offset bytes s.content) k 0) e,
          ap (λ k. get_or s.content k 0) e,
        )
    | no low ↦ ground (arith, clear_bits_outside offset bytes s.content j)
  ]

  -- A write that succeeds clears bits in its range only: each byte there becomes the conjunction of
  -- the old and the written byte, and every other byte stays. One that fails changes nothing.
  pub write_bytes :
      (s : MockFlash) (offset : ℕ) (bytes : List ℕ) (j : ℕ)
      → length s.content ≡ capacity
      → let (r, s') = write capacity erase_size s offset bytes in
        ((offset + length bytes ≤ capacity)
          × (r ≡ ok tt)
          × (get_or s'.content j 0 ≡ (
              if leb offset j && ltb j (offset + length bytes)
              then bit_and (get_or s.content j 0) (get_or bytes (j - offset) 0)
              else get_or s.content j 0)))
        ⊎ ((capacity < offset + length bytes) × (r ≡ err MockFlashError.out_of_bounds) × (s' ≡ s))
  write_bytes s offset bytes j full = elim (dec_le (offset + length bytes) capacity) [
    | yes p ↦
        rw (write_ok s offset bytes p) (inl (p, refl, at_index s offset bytes j (omega arith)))
    | no p ↦ inr (unfold write in (omega arith, ground arith, ground arith))
  ]
