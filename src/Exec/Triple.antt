-- ===== src/Exec/Triple.antt =====
-- What holds after a method, on success and on failure, one rule for each way to build a method.
use embedded_overlay.Base.{Bool, true, false, if◌then◌else◌, ◌≡◌, refl}
use embedded_overlay.Error.{Result, ok, err, panic}
use embedded_overlay.Exec.{Exec, pure, raise, lift, gets, modify, require, continue, ◌>>=◌}

-- `Q` of the value and the object on success, `R` of the object on an error or a panic.
abbrev pub Post : {S E A : Type 0} → (A → S → Type 0) → (S → Type 0) → Result E A → S → Type 0
Post Q R (ok a) s = Q a s
Post Q R (err e) s = R s
Post Q R panic s = R s

pub record Triple {S E A : Type 0} (P : S → Type 0) (m : Exec S E A) (Q : A → S → Type 0)
    (R : S → Type 0) : Type 0 where
  pub at : (s : S) → P s → Post Q R (m s).0 (m s).1

module _ {S E : Type 0} {P : S → Type 0} {R : S → Type 0} where
  pub Triple-modify :
      (f : S → S) (Q : Unit {0} → S → Type 0)
      → ((s : S) → P s → Q tt (f s))
      → Triple {E = E} P (modify f) Q R
  unfolding modify
  Triple-modify f Q h = record { at = h }

  pub Triple-require :
      (b : Bool) (e : E) (Q : Unit {0} → S → Type 0)
      → ((s : S) → P s → b ≡ true → Q tt s)
      → ((s : S) → P s → R s)
      → Triple P (require b e) Q R
  unfolding require
  Triple-require true e Q h k = record { at = λ s p. h s p refl }
  Triple-require false e Q h k = record { at = k }

module _ {S E A : Type 0} {P : S → Type 0} {R : S → Type 0} where
  pub Triple-pure :
      (a : A) (Q : A → S → Type 0) → ((s : S) → P s → Q a s) → Triple {E = E} P (pure a) Q R
  unfolding pure
  Triple-pure a Q h = record { at = h }

  pub Triple-raise :
      (e : E) (Q : A → S → Type 0) → ((s : S) → P s → R s) → Triple {A = A} P (raise e) Q R
  unfolding raise
  Triple-raise e Q h = record { at = h }

  pub Triple-lift :
      (r : Result E A) (Q : A → S → Type 0)
      → ((a : A) (s : S) → P s → r ≡ ok a → Q a s)
      → ((s : S) → P s → R s)
      → Triple P (lift r) Q R
  unfolding lift
  Triple-lift (ok a) Q h k = record { at = λ s p. h a s p refl }
  Triple-lift (err e) Q h k = record { at = k }
  Triple-lift panic Q h k = record { at = k }

  pub Triple-gets :
      (f : S → A) (Q : A → S → Type 0) → ((s : S) → P s → Q (f s) s) → Triple {E = E} P (gets f) Q R
  unfolding gets
  Triple-gets f Q h = record { at = h }

  pub Triple-if :
      (b : Bool) (m n : Exec S E A) (Q : A → S → Type 0)
      → (b ≡ true → Triple P m Q R)
      → (b ≡ false → Triple P n Q R)
      → Triple P (if b then m else n) Q R
  Triple-if true m n Q h k = h refl
  Triple-if false m n Q h k = k refl

module _ {S E A B : Type 0} {R : S → Type 0} where
  then_rule :
      (M : A → S → Type 0) (f : A → Exec S E B) (Q : B → S → Type 0)
      → ((a : A) → Triple (M a) (f a) Q R)
      → (r : Result E A) (s : S) → Post M R r s
      → Post Q R (continue r f s).0 (continue r f s).1
  then_rule M f Q h (ok a) s p = (h a).at s p
  then_rule M f Q h (err e) s p = p
  then_rule M f Q h panic s p = p

module _ {S E A B : Type 0} {P : S → Type 0} {R : S → Type 0} where
  pub Triple-bind :
      (M : A → S → Type 0) (m : Exec S E A) (f : A → Exec S E B) (Q : B → S → Type 0)
      → Triple P m M R
      → ((a : A) → Triple (M a) (f a) Q R)
      → Triple P (m >>= f) Q R
  unfolding ◌>>=◌
  Triple-bind M m f Q first next = record {
    at = λ s p. then_rule M f Q next (m s).0 (m s).1 (first.at s p);
  }
