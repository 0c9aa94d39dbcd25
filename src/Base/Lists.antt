-- ===== src/Base/Lists.antt =====
-- Lists measured and indexed by native numbers, under the library's names.
use Prim.Native.Nat.{ℕ, zero, suc, ◌+◌, ◌-◌, ◌≤◌, ◌<◌, min}
use mathlib.Core.Path.{◌≡◌, refl, ap, ap₂, ◌∙◌, subst}
use mathlib.Core.Logic.{◌≢◌, ◌⊎◌, inl, inr}
use mathlib.Core.List.{List, [], ◌∷◌, ◌++◌, map}
use mathlib.Core.Option.{Option, none, some, some-injective}
use native.Mathlib.Omega.{arith}

module _ {ℓ} {A : Type ℓ} where
  abbrev pub length : List A → ℕ
  length [] = 0
  length (x ∷ xs) = suc (length xs)

  abbrev pub get_elem? : List A → ℕ → Option A
  get_elem? [] i = none
  get_elem? (x ∷ xs) zero = some x
  get_elem? (x ∷ xs) (suc i) = get_elem? xs i

  -- A write out of bounds changes nothing.
  abbrev pub set : List A → ℕ → A → List A
  set [] i v = []
  set (x ∷ xs) zero v = v ∷ xs
  set (x ∷ xs) (suc i) v = x ∷ set xs i v

  pub length-append : (xs ys : List A) → length (xs ++ ys) ≡ length xs + length ys
  length-append [] ys = omega arith
  length-append (x ∷ xs) ys = omega (arith, length-append xs ys)

module _ {ℓ} {A : Type ℓ} where
  pub length-set : (xs : List A) (i : ℕ) (v : A) → length (set xs i v) ≡ length xs
  length-set [] i v = refl
  length-set (x ∷ xs) zero v = refl
  length-set (x ∷ xs) (suc i) v = ap suc (length-set xs i v)

  pub get_elem?-set_self :
      (xs : List A) (i : ℕ) (v : A) → i < length xs → get_elem? (set xs i v) i ≡ some v
  get_elem?-set_self [] i v h = elim h [ ]
  get_elem?-set_self (x ∷ xs) zero v h = refl
  get_elem?-set_self (x ∷ xs) (suc i) v h = get_elem?-set_self xs i v (omega arith)

  pub get_elem?-set_ne :
      (xs : List A) {i j : ℕ} (v : A) → i ≢ j → get_elem? (set xs i v) j ≡ get_elem? xs j
  get_elem?-set_ne [] v h = refl
  get_elem?-set_ne (x ∷ xs) {i = zero} {j = zero} v h = absurd (h refl)
  get_elem?-set_ne (x ∷ xs) {i = zero} {j = suc j} v h = refl
  get_elem?-set_ne (x ∷ xs) {i = suc i} {j = zero} v h = refl
  get_elem?-set_ne (x ∷ xs) {i = suc i} {j = suc j} v h = get_elem?-set_ne xs v (λ e. h (ap suc e))

module _ {ℓ} {A : Type ℓ} where
  abbrev pub get_or : List A → ℕ → A → A
  get_or [] i d = d
  get_or (x ∷ xs) zero d = x
  get_or (x ∷ xs) (suc i) d = get_or xs i d

  abbrev pub take : ℕ → List A → List A
  take zero xs = []
  take (suc n) [] = []
  take (suc n) (x ∷ xs) = x ∷ take n xs

  abbrev pub drop : ℕ → List A → List A
  drop zero xs = xs
  drop (suc n) [] = []
  drop (suc n) (x ∷ xs) = drop n xs

  abbrev pub replicate : ℕ → A → List A
  replicate zero a = []
  replicate (suc n) a = a ∷ replicate n a

  pub take-append-drop : (n : ℕ) (xs : List A) → take n xs ++ drop n xs ≡ xs
  take-append-drop zero xs = refl
  take-append-drop (suc n) [] = refl
  take-append-drop (suc n) (x ∷ xs) = rw (take-append-drop n xs)

  pub length-take : (n : ℕ) (xs : List A) → length (take n xs) ≡ min n (length xs)
  length-take zero xs = omega arith
  length-take (suc n) [] = omega arith
  length-take (suc n) (x ∷ xs) = omega (arith, length-take n xs)

  pub length-drop : (n : ℕ) (xs : List A) → length (drop n xs) ≡ length xs - n
  length-drop zero xs = omega arith
  length-drop (suc n) [] = omega arith
  length-drop (suc n) (x ∷ xs) = omega (arith, length-drop n xs)

  pub length-replicate : (n : ℕ) (a : A) → length (replicate n a) ≡ n
  length-replicate zero a = refl
  length-replicate (suc n) a = ap suc (length-replicate n a)

  pub length-map {κ} : {B : Type κ} (xs : List A) (f : A → B) → length (map f xs) ≡ length xs
  length-map [] f = refl
  length-map (x ∷ xs) f = ap suc (length-map xs f)

module _ {ℓ} {A : Type ℓ} where
  pub take-append_le : (n : ℕ) (xs ys : List A) → n ≤ length xs → take n (xs ++ ys) ≡ take n xs
  take-append_le zero xs ys h = refl
  take-append_le (suc n) [] ys h = absurd (omega arith)
  take-append_le (suc n) (x ∷ xs) ys h = ap (◌∷◌ x) (take-append_le n xs ys (omega arith))

  pub length-append-le : (n : ℕ) (xs ys : List A) → n ≤ length xs → n ≤ length (xs ++ ys)
  length-append-le n xs ys h = omega (arith, length-append xs ys)

  pub take-take_le : (m n : ℕ) (xs : List A) → m ≤ n → take m (take n xs) ≡ take m xs
  take-take_le zero n xs h = refl
  take-take_le (suc m) zero xs h = absurd (omega arith)
  take-take_le (suc m) (suc n) [] h = refl
  take-take_le (suc m) (suc n) (x ∷ xs) h = ap (◌∷◌ x) (take-take_le m n xs (omega arith))

  pub take-append_length : (xs ys : List A) → take (length xs) (xs ++ ys) ≡ xs
  take-append_length [] ys = refl
  take-append_length (x ∷ xs) ys = ap (◌∷◌ x) (take-append_length xs ys)

  pub drop-append_length : (xs ys : List A) → drop (length xs) (xs ++ ys) ≡ ys
  drop-append_length [] ys = refl
  drop-append_length (x ∷ xs) ys = drop-append_length xs ys

  -- Past two prefixes of one length, the same elements follow.
  pub get_or-append_same :
      (xs ys tail : List A) (i : ℕ) (d : A)
      → length xs ≡ length ys
      → length xs ≤ i
      → get_or (xs ++ tail) i d ≡ get_or (ys ++ tail) i d
  get_or-append_same [] [] tail i d e h = refl
  get_or-append_same [] (y ∷ ys) tail i d e h = absurd (omega arith)
  get_or-append_same (x ∷ xs) [] tail i d e h = absurd (omega arith)
  get_or-append_same (x ∷ xs) (y ∷ ys) tail zero d e h = absurd (omega arith)
  get_or-append_same (x ∷ xs) (y ∷ ys) tail (suc i) d e h =
      get_or-append_same xs ys tail i d (omega arith) (omega arith)

module _ {ℓ} {A : Type ℓ} where
  -- `xs[from..from + n]`
  abbrev pub slice : ℕ → ℕ → List A → List A
  slice from n xs = take n (drop from xs)

  pub length-slice :
      (from n : ℕ) (xs : List A) → from + n ≤ length xs → length (slice from n xs) ≡ n
  length-slice from n xs h = omega (arith, length-take n (drop from xs), length-drop from xs)

  get_or-drop :
      (from i : ℕ) (xs : List A) (d : A) → get_or (drop from xs) i d ≡ get_or xs (from + i) d
  get_or-drop zero i xs d = let e : i ≡ 0 + i = omega arith in ap (λ k. get_or xs k d) e
  get_or-drop (suc from) i [] d = refl
  get_or-drop (suc from) i (x ∷ xs) d =
      let e : suc (from + i) ≡ suc from + i = omega arith in
      get_or-drop from i xs d ∙ ap (λ k. get_or (x ∷ xs) k d) e

  get_or-take : (n i : ℕ) (xs : List A) (d : A) → i < n → get_or (take n xs) i d ≡ get_or xs i d
  get_or-take zero i xs d h = absurd (omega arith)
  get_or-take (suc n) i [] d h = refl
  get_or-take (suc n) zero (x ∷ xs) d h = refl
  get_or-take (suc n) (suc i) (x ∷ xs) d h = get_or-take n i xs d (omega arith)

  pub get_or-slice :
      (from n i : ℕ) (xs : List A) (d : A)
      → i < n
      → get_or (slice from n xs) i d ≡ get_or xs (from + i) d
  get_or-slice from n i xs d h = get_or-take n i (drop from xs) d h ∙ get_or-drop from i xs d

  pub get_or-set_self :
      (xs : List A) (i : ℕ) (v d : A) → i < length xs → get_or (set xs i v) i d ≡ v
  get_or-set_self [] i v d h = absurd (omega arith)
  get_or-set_self (x ∷ xs) zero v d h = refl
  get_or-set_self (x ∷ xs) (suc i) v d h = get_or-set_self xs i v d (omega arith)

  pub get_or-set_ne :
      (xs : List A) (i j : ℕ) (v d : A) → i ≢ j → get_or (set xs i v) j d ≡ get_or xs j d
  get_or-set_ne [] i j v d h = refl
  get_or-set_ne (x ∷ xs) zero zero v d h = absurd (h refl)
  get_or-set_ne (x ∷ xs) zero (suc j) v d h = refl
  get_or-set_ne (x ∷ xs) (suc i) zero v d h = refl
  get_or-set_ne (x ∷ xs) (suc i) (suc j) v d h = get_or-set_ne xs i j v d (λ e. h (ap suc e))

  -- Lists of one length with the same elements are equal.
  pub get_or_ext :
      (xs ys : List A) (d : A)
      → length xs ≡ length ys
      → ((i : ℕ) → i < length xs → get_or xs i d ≡ get_or ys i d)
      → xs ≡ ys
  get_or_ext [] [] d e h = refl
  get_or_ext [] (y ∷ ys) d e h = absurd (omega arith)
  get_or_ext (x ∷ xs) [] d e h = absurd (omega arith)
  get_or_ext (x ∷ xs) (y ∷ ys) d e h =
      ap₂ ◌∷◌ (h 0 (omega arith))
        (get_or_ext xs ys d (omega arith) (λ i l. h (suc i) (omega arith)))

module _ {ℓ} {A : Type ℓ} where
  -- `f(&mut xs[i])`; out of range it changes nothing.
  abbrev pub modify_at : (A → A) → ℕ → List A → List A
  modify_at f i [] = []
  modify_at f zero (x ∷ xs) = f x ∷ xs
  modify_at f (suc i) (x ∷ xs) = x ∷ modify_at f i xs

-- Every element satisfies `P`.
abbrev pub All {ℓ κ} : {A : Type ℓ} → (A → Type κ) → List A → Type κ
All P [] = Unit
All P (x ∷ xs) = P x × All P xs

pub All-get {ℓ κ} :
    {A : Type ℓ} (P : A → Type κ) (xs : List A) (i : ℕ) {x : A}
    → All P xs
    → get_elem? xs i ≡ some x
    → P x
All-get P [] i h e = cc
All-get P (y ∷ xs) zero h e = subst P (some-injective _ _ e) h.0
All-get P (y ∷ xs) (suc i) h e = All-get P xs i h.1 e

module _ {ℓ} {A : Type ℓ} where
  pub length-modify_at : (f : A → A) (i : ℕ) (xs : List A) → length (modify_at f i xs) ≡ length xs
  length-modify_at f i [] = refl
  length-modify_at f zero (x ∷ xs) = refl
  length-modify_at f (suc i) (x ∷ xs) = ap suc (length-modify_at f i xs)

  pub get_elem?-modify_at_self :
      (f : A → A) (i : ℕ) (xs : List A) {x : A}
      → get_elem? xs i ≡ some x
      → get_elem? (modify_at f i xs) i ≡ some (f x)
  get_elem?-modify_at_self f i [] e = cc
  get_elem?-modify_at_self f zero (x ∷ xs) e = ap (λ t. some (f t)) (some-injective _ _ e)
  get_elem?-modify_at_self f (suc i) (x ∷ xs) e = get_elem?-modify_at_self f i xs e

  pub get_elem?-modify_at_ne :
      (f : A → A) (i j : ℕ) (xs : List A) → i ≢ j → get_elem? (modify_at f i xs) j ≡ get_elem? xs j
  get_elem?-modify_at_ne f i j [] h = refl
  get_elem?-modify_at_ne f zero zero (x ∷ xs) h = absurd (h refl)
  get_elem?-modify_at_ne f zero (suc j) (x ∷ xs) h = refl
  get_elem?-modify_at_ne f (suc i) zero (x ∷ xs) h = refl
  get_elem?-modify_at_ne f (suc i) (suc j) (x ∷ xs) h =
      get_elem?-modify_at_ne f i j xs (λ e. h (ap suc e))

  -- Changes of one element after another.
  pub modify_at-modify_at :
      (f g : A → A) (i : ℕ) (xs : List A)
      → modify_at f i (modify_at g i xs) ≡ modify_at (λ x. f (g x)) i xs
  modify_at-modify_at f g i [] = refl
  modify_at-modify_at f g zero (x ∷ xs) = refl
  modify_at-modify_at f g (suc i) (x ∷ xs) = ap (◌∷◌ x) (modify_at-modify_at f g i xs)

pub All-modify_at {ℓ κ} :
    {A : Type ℓ} (P : A → Type κ) (f : A → A) (k : ℕ) (xs : List A)
    → ((x : A) → P x → P (f x))
    → All P xs
    → All P (modify_at f k xs)
All-modify_at P f k [] h all = all
All-modify_at P f zero (x ∷ xs) h all = (h x all.0, all.1)
All-modify_at P f (suc k) (x ∷ xs) h all = (all.0, All-modify_at P f k xs h all.1)

pub All-imp {ℓ κ μ} :
    {A : Type ℓ} (P : A → Type κ) (Q : A → Type μ) (xs : List A)
    → ((x : A) → P x → Q x)
    → All P xs
    → All Q xs
All-imp P Q [] h all = tt
All-imp P Q (x ∷ xs) h all = (h x all.0, All-imp P Q xs h all.1)

pub get_elem?-lt {ℓ} :
    {A : Type ℓ} (xs : List A) (i : ℕ) → i < length xs → (x : A) × (get_elem? xs i ≡ some x)
get_elem?-lt [] i h = absurd (omega arith)
get_elem?-lt (x ∷ xs) zero h = (x, refl)
get_elem?-lt (x ∷ xs) (suc i) h = get_elem?-lt xs i (omega arith)

pub List-cases {ℓ} :
    {A : Type ℓ} (xs : List A) → (xs ≡ []) ⊎ ((x : A) × (rest : List A) × (xs ≡ x ∷ rest))
List-cases [] = inl refl
List-cases (x ∷ xs) = inr (x, xs, refl)

pub drop_length {ℓ} : {A : Type ℓ} (xs : List A) → drop (length xs) xs ≡ []
drop_length [] = refl
drop_length (x ∷ xs) = drop_length xs

pub take-append-drop_same {ℓ} : {A : Type ℓ} (n : ℕ) (xs : List A) → take n xs ++ drop n xs ≡ xs
take-append-drop_same zero xs = refl
take-append-drop_same (suc n) [] = refl
take-append-drop_same (suc n) (x ∷ xs) = ap (◌∷◌ x) (take-append-drop_same n xs)
