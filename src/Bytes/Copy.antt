-- ===== src/Bytes/Copy.antt =====
-- `copy_from_slice` into a range, against slices of the result.
use embedded_overlay.Base.{
  ℕ, zero, suc, ◌+◌, ◌≤◌, List, [], ◌∷◌, ◌++◌, take, drop, slice, length, ◌≡◌, refl, sym, ap, ◌∙◌,
  arith, inl, inr, List-cases,
}
use embedded_overlay.Bytes.{copy_at}

pub length-copy_at : (at : ℕ) (bytes buf : List ℕ) → length (copy_at at bytes buf) ≡ length buf
unfolding copy_at
length-copy_at (suc at) bytes [] = refl
length-copy_at (suc at) bytes (x ∷ buf) = ap suc (length-copy_at at bytes buf)
length-copy_at zero [] buf = refl
length-copy_at zero (b ∷ bytes) [] = refl
length-copy_at zero (b ∷ bytes) (x ∷ buf) = ap suc (length-copy_at zero bytes buf)

pub copy_at_nil : (at : ℕ) (buf : List ℕ) → copy_at at [] buf ≡ buf
unfolding copy_at
copy_at_nil zero buf = refl
copy_at_nil (suc at) [] = refl
copy_at_nil (suc at) (x ∷ buf) = ap (◌∷◌ x) (copy_at_nil at buf)

-- What was copied is there.
take-copy_at :
    (bytes buf : List ℕ)
    → length bytes ≤ length buf
    → take (length bytes) (copy_at 0 bytes buf) ≡ bytes
unfolding copy_at
take-copy_at [] buf h = refl
take-copy_at (b ∷ bytes) [] h = absurd (omega arith)
take-copy_at (b ∷ bytes) (x ∷ buf) h = ap (◌∷◌ b) (take-copy_at bytes buf (omega arith))

pub slice-copy_at :
    (at : ℕ) (bytes buf : List ℕ)
    → at + length bytes ≤ length buf
    → slice at (length bytes) (copy_at at bytes buf) ≡ bytes
unfolding copy_at
slice-copy_at zero bytes buf h = take-copy_at bytes buf (omega arith)
slice-copy_at (suc at) bytes [] h = absurd (omega arith)
slice-copy_at (suc at) bytes (x ∷ buf) h = slice-copy_at at bytes buf (omega arith)

-- What is before the copy stays,
pub slice-copy_at_before :
    (from n at : ℕ) (bytes buf : List ℕ)
    → from + n ≤ at
    → slice from n (copy_at at bytes buf) ≡ slice from n buf
unfolding copy_at
slice-copy_at_before zero zero at bytes buf h = refl
slice-copy_at_before from n zero bytes buf h =
    absurd_or from n bytes buf (omega arith) (omega arith)
  where
    absurd_or :
        (from n : ℕ) (bytes buf : List ℕ)
        → from ≡ 0
        → n ≡ 0
        → slice from n (copy_at 0 bytes buf) ≡ slice from n buf
    absurd_or from n bytes buf e k = rw (e, k) refl
slice-copy_at_before from n (suc at) bytes [] h = refl
slice-copy_at_before zero (suc n) (suc at) bytes (x ∷ buf) h =
    ap (◌∷◌ x) (slice-copy_at_before zero n at bytes buf (omega arith))
slice-copy_at_before (suc from) n (suc at) bytes (x ∷ buf) h =
    slice-copy_at_before from n at bytes buf (omega arith)

-- and what is after it.
drop-copy_at :
    (from at : ℕ) (bytes buf : List ℕ)
    → at + length bytes ≤ from
    → drop from (copy_at at bytes buf) ≡ drop from buf
unfolding copy_at
drop-copy_at from at [] buf h = ap (drop from) (copy_at_nil at buf)
drop-copy_at zero at (b ∷ bytes) buf h = absurd (omega arith)
drop-copy_at (suc from) zero (b ∷ bytes) [] h = refl
drop-copy_at (suc from) zero (b ∷ bytes) (x ∷ buf) h =
    drop-copy_at from zero bytes buf (omega arith)
drop-copy_at (suc from) (suc at) (b ∷ bytes) [] h = refl
drop-copy_at (suc from) (suc at) (b ∷ bytes) (x ∷ buf) h =
    drop-copy_at from at (b ∷ bytes) buf (omega arith)

pub slice-copy_at_after :
    (from n at : ℕ) (bytes buf : List ℕ)
    → at + length bytes ≤ from
    → slice from n (copy_at at bytes buf) ≡ slice from n buf
slice-copy_at_after from n at bytes buf h = ap (take n) (drop-copy_at from at bytes buf h)

-- Adjacent copies are one.
pub copy_at-append :
    (at : ℕ) (xs ys buf : List ℕ)
    → copy_at (at + length xs) ys (copy_at at xs buf) ≡ copy_at at (xs ++ ys) buf
unfolding copy_at
copy_at-append at [] ys buf =
    let e : at + 0 ≡ at = omega arith in
    ap (λ k. copy_at k ys (copy_at at [] buf)) e ∙ ap (copy_at at ys) (copy_at_nil at buf)
copy_at-append zero (x ∷ xs) ys [] =
    let e : 0 + suc (length xs) ≡ suc (length xs) = omega arith in ap (λ k. copy_at k ys []) e
copy_at-append zero (x ∷ xs) ys (y ∷ buf) =
    let e : 0 + suc (length xs) ≡ suc (0 + length xs) = omega arith in
    ap (λ k. copy_at k ys (x ∷ copy_at 0 xs buf)) e ∙ ap (◌∷◌ x) (copy_at-append zero xs ys buf)
copy_at-append (suc at) (x ∷ xs) ys [] =
    let e : suc at + suc (length xs) ≡ suc (at + suc (length xs)) = omega arith in
    ap (λ k. copy_at k ys []) e
copy_at-append (suc at) (x ∷ xs) ys (y ∷ buf) =
    let e : suc at + suc (length xs) ≡ suc (at + suc (length xs)) = omega arith in
    ap (λ k. copy_at k ys (y ∷ copy_at at (x ∷ xs) buf)) e
    ∙ ap (◌∷◌ y) (copy_at-append at (x ∷ xs) ys buf)

-- A block taken out, changed and put back.
copy_at-take :
    (w n : ℕ) (bytes buf : List ℕ)
    → w + length bytes ≤ n
    → n ≤ length buf
    → copy_at 0 (copy_at w bytes (take n buf)) buf ≡ copy_at w bytes buf
unfolding copy_at
copy_at-take w zero bytes buf h k = elim (List-cases bytes) [
  | inl none_left ↦
      rw none_left (ap (λ t. copy_at 0 t buf) (copy_at_nil w []) ∙ sym (copy_at_nil w buf))
  | inr (b, rest, e) ↦ absurd (omega (arith, ap length e))
]
copy_at-take w (suc n) bytes [] h k = absurd (omega arith)
copy_at-take zero (suc n) [] (x ∷ buf) h k =
    ap (◌∷◌ x) (copy_at-take zero n [] buf (omega arith) (omega arith))
copy_at-take zero (suc n) (b ∷ bytes) (x ∷ buf) h k =
    ap (◌∷◌ b) (copy_at-take zero n bytes buf (omega arith) (omega arith))
copy_at-take (suc w) (suc n) bytes (x ∷ buf) h k =
    ap (◌∷◌ x) (copy_at-take w n bytes buf (omega arith) (omega arith))

pub copy_at-slice :
    (from w n : ℕ) (bytes buf : List ℕ)
    → w + length bytes ≤ n
    → from + n ≤ length buf
    → copy_at from (copy_at w bytes (slice from n buf)) buf ≡ copy_at (from + w) bytes buf
unfolding copy_at
copy_at-slice zero w n bytes buf h k =
    let e : w ≡ 0 + w = omega arith in
    copy_at-take w n bytes buf h (omega arith) ∙ ap (λ o. copy_at o bytes buf) e
copy_at-slice (suc from) w n bytes [] h k = absurd (omega arith)
copy_at-slice (suc from) w n bytes (x ∷ buf) h k =
    let e : suc (from + w) ≡ suc from + w = omega arith in
    ap (◌∷◌ x) (copy_at-slice from w n bytes buf h (omega arith))
    ∙ ap (λ o. copy_at o bytes (x ∷ buf)) e
