-- ===== src/Base/Slices.antt =====
-- Slices of slices and of appended lists.
use Prim.Native.Nat.{ℕ, zero, suc, ◌+◌, ◌≤◌}
use mathlib.Core.Path.{◌≡◌, refl, sym, ap, ap₂, ◌∙◌}
use mathlib.Core.List.{List, [], ◌∷◌, ◌++◌}
use native.Mathlib.Omega.{arith}
use embedded_overlay.Base.Lists.{length, take, drop, slice, drop-append_length, take-append_length}

module _ {ℓ} {A : Type ℓ} where
  drop-drop : (m n : ℕ) (xs : List A) → drop n (drop m xs) ≡ drop (m + n) xs
  drop-drop zero n xs = let e : n ≡ 0 + n = omega arith in ap (λ k. drop k xs) e
  drop-drop (suc m) zero [] = let e : suc (m + 0) ≡ suc m + 0 = omega arith in ap (λ k. drop k []) e
  drop-drop (suc m) (suc n) [] =
      let e : suc (m + suc n) ≡ suc m + suc n = omega arith in ap (λ k. drop k []) e
  drop-drop (suc m) n (x ∷ xs) =
      let e : suc (m + n) ≡ suc m + n = omega arith in
      drop-drop m n xs ∙ ap (λ k. drop k (x ∷ xs)) e

  take-append_drop : (m n : ℕ) (xs : List A) → take m xs ++ take n (drop m xs) ≡ take (m + n) xs
  take-append_drop zero n xs = let e : n ≡ 0 + n = omega arith in ap (λ k. take k xs) e
  take-append_drop (suc m) zero [] =
      let e : suc (m + 0) ≡ suc m + 0 = omega arith in ap (λ k. take k []) e
  take-append_drop (suc m) (suc n) [] =
      let e : suc (m + suc n) ≡ suc m + suc n = omega arith in ap (λ k. take k []) e
  take-append_drop (suc m) n (x ∷ xs) =
      let e : suc (m + n) ≡ suc m + n = omega arith in
      ap (◌∷◌ x) (take-append_drop m n xs) ∙ ap (λ k. take k (x ∷ xs)) e

  -- Adjacent slices.
  pub slice-append :
      (o m n : ℕ) (xs : List A) → slice o m xs ++ slice (o + m) n xs ≡ slice o (m + n) xs
  slice-append o m n xs =
      ap (λ t. slice o m xs ++ take n t) (sym (drop-drop o m xs)) ∙ take-append_drop m n (drop o xs)

  take-drop-take :
      (o n m : ℕ) (xs : List A) → o + n ≤ m → take n (drop o (take m xs)) ≡ take n (drop o xs)
  take-drop-take zero zero m xs h = refl
  take-drop-take zero (suc n) zero xs h = absurd (omega arith)
  take-drop-take zero (suc n) (suc m) [] h = refl
  take-drop-take zero (suc n) (suc m) (x ∷ xs) h =
      ap (◌∷◌ x) (take-drop-take zero n m xs (omega arith))
  take-drop-take (suc o) n zero xs h = absurd (omega arith)
  take-drop-take (suc o) n (suc m) [] h = refl
  take-drop-take (suc o) n (suc m) (x ∷ xs) h = take-drop-take o n m xs (omega arith)

  -- A slice of a slice.
  pub slice-slice :
      (from m o n : ℕ) (xs : List A)
      → o + n ≤ m
      → slice o n (slice from m xs) ≡ slice (from + o) n xs
  slice-slice from m o n xs h =
      take-drop-take o n m (drop from xs) h ∙ ap (take n) (drop-drop from o xs)

  -- The middle of three lists.
  pub slice-append_middle :
      (o n : ℕ) (xs ys zs : List A)
      → length xs ≡ o
      → length ys ≡ n
      → slice o n (xs ++ (ys ++ zs)) ≡ ys
  slice-append_middle o n xs ys zs e k =
      ap₂ (λ a b. slice a b (xs ++ (ys ++ zs))) (sym e) (sym k)
      ∙ ap (take (length ys)) (drop-append_length xs (ys ++ zs))
      ∙ take-append_length ys zs
