-- ===== src/Exec.antt =====
-- Methods on `&mut self` that may fail: a call takes the object, and returns its outcome with the
-- object as it was left, on errors and panics too.
pub mod Triple
use mathlib.Core.Path.{◌≡◌, refl, ap}
use embedded_overlay.Base.{Bool, true, false}
use embedded_overlay.Error.{Result, ok, err, panic}

abbrev pub Exec {ℓ} : Type ℓ → Type ℓ → Type ℓ → Type ℓ
Exec S E A = S → Result E A × S

module _ {ℓ} {S E A : Type ℓ} where
  unfoldable pub pure : A → Exec S E A
  pure a s = (ok a, s)

  unfoldable pub raise : E → Exec S E A
  raise e s = (err e, s)

  -- A computation that does not touch the object, with `?`.
  unfoldable pub lift : Result E A → Exec S E A
  lift r s = (r, s)

  unfoldable pub gets : (S → A) → Exec S E A
  gets f s = (ok (f s), s)

module _ {S E : Type 0} where
  unfoldable pub modify : (S → S) → Exec S E (Unit {0})
  modify f s = (ok tt, f s)

  -- `if !test { return Err(e) }`
  unfoldable pub require : Bool → E → Exec S E (Unit {0})
  require true e s = (ok tt, s)
  require false e s = (err e, s)

module _ {ℓ} {S E A B : Type ℓ} where
  abbrev pub continue : Result E A → (A → Exec S E B) → Exec S E B
  continue (ok a) f s = f a s
  continue (err e) f s = (err e, s)
  continue panic f s = (panic, s)

  infixl 5 ◌>>=◌
  -- To open this is to open the operations above.
  unfoldable pub ◌>>=◌ : Exec S E A → (A → Exec S E B) → Exec S E B
  unfolding pure raise lift gets modify require
  ◌>>=◌ m f s = let (r, s') = m s in continue r f s'

  -- A sequence whose first step is known to succeed.
  pub >>=-ok :
      (m : Exec S E A) (f : A → Exec S E B) (s : S) {a : A} {t : S}
      → m s ≡ (ok a, t)
      → (m >>= f) s ≡ f a t
  unfolding ◌>>=◌
  >>=-ok m f s e = ap (λ (r, t). continue r f t) e

  -- One whose first step fails.
  pub >>=-err :
      (m : Exec S E A) (f : A → Exec S E B) (s : S) {e : E} {t : S}
      → m s ≡ (err e, t)
      → (m >>= f) s ≡ (err e, t)
  unfolding ◌>>=◌
  >>=-err m f s e = ap (λ (r, t). continue r f t) e

  -- A successful sequence, taken apart.
  pub >>=-eq-ok :
      (m : Exec S E A) (f : A → Exec S E B) (s : S) {b : B} {s' : S}
      → (m >>= f) s ≡ (ok b, s')
      → (a : A) × (t : S) × (m s ≡ (ok a, t)) × (f a t ≡ (ok b, s'))
  unfolding ◌>>=◌
  >>=-eq-ok m f s {b} {s'} h = go (m s).0 (m s).1 refl h
    where
      go :
          (r : Result E A) (t : S)
          → m s ≡ (r, t)
          → continue r f t ≡ (ok b, s')
          → (a : A) × (t : S) × (m s ≡ (ok a, t)) × (f a t ≡ (ok b, s'))
      go (ok a) t e k = (a, t, e, k)
      go (err x) t e k = cc
      go panic t e k = cc

infixl 5 ◌>>◌
abbrev pub ◌>>◌ : {S E B : Type 0} → Exec S E (Unit {0}) → Exec S E B → Exec S E B
m >> n = m >>= λ _. n
