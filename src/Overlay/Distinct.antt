-- ===== src/Overlay/Distinct.antt =====
-- The well-formedness of a manager: no module is in two slots, and no slot is newer than the counter.
use embedded_overlay.Base.{
  ℕ, zero, suc, ◌≤◌, List, [], ◌∷◌, modify_at, false, Option, none, some, ◌≡◌, ◌⊎◌, inl, inr, refl,
  sym, ap, ◌∙◌, arith, Bool-cases, All, All-modify_at,
}
use mathlib.Core.Path.{subst}
use embedded_overlay.Overlay.Slot
use embedded_overlay.Overlay.Slot.{OverlaySlot, holds}
use embedded_overlay.Overlay.Manager.{OverlayManager, find_from}

abbrev pub NotHolding : ℕ → OverlaySlot → Type 0
NotHolding module_id s = holds s.resident_module module_id ≡ false

abbrev pub AbsentFrom : List OverlaySlot → Option ℕ → Type 0
AbsentFrom slots none = Unit
AbsentFrom slots (some id) = All (NotHolding id) slots

-- No module is in two slots.
abbrev pub IsDistinct : List OverlaySlot → Type 0
IsDistinct [] = Unit
IsDistinct (s ∷ slots) = AbsentFrom slots s.resident_module × IsDistinct slots

abbrev pub NoNewer : ℕ → OverlaySlot → Type 0
NoNewer c s = s.generation ≤ c

abbrev pub AreValid : List OverlaySlot → ℕ → Type 0
AreValid slots c = IsDistinct slots × All (NoNewer c) slots

abbrev pub IsValid : {S B : Type 0} → OverlayManager S B → Type 0
IsValid m = AreValid m.slots m.lru_counter

-- A change that keeps the module of a slot or removes it.
abbrev pub Drops : (OverlaySlot → OverlaySlot) → Type 0
Drops f =
    (s : OverlaySlot) → ((f s).resident_module ≡ s.resident_module) ⊎ ((f s).resident_module ≡ none)

NotHolding-Drops :
    (f : OverlaySlot → OverlaySlot)
    → Drops f
    → (id : ℕ) (s : OverlaySlot) → NotHolding id s
    → NotHolding id (f s)
NotHolding-Drops f drops id s h = elim (drops s) [
  | inl same ↦ ap (λ r. holds r id) same ∙ h
  | inr gone ↦ ap (λ r. holds r id) gone
]

AbsentFrom-Drops :
    (f : OverlaySlot → OverlaySlot)
    → Drops f
    → (k : ℕ) (slots : List OverlaySlot) (r : Option ℕ) → AbsentFrom slots r
    → AbsentFrom (modify_at f k slots) r
AbsentFrom-Drops f drops k slots none h = h
AbsentFrom-Drops f drops k slots (some id) h =
    All-modify_at (NotHolding id) f k slots (NotHolding-Drops f drops id) h

pub IsDistinct-Drops :
    (f : OverlaySlot → OverlaySlot)
    → Drops f
    → (k : ℕ) (slots : List OverlaySlot) → IsDistinct slots
    → IsDistinct (modify_at f k slots)
IsDistinct-Drops f drops k [] h = h
IsDistinct-Drops f drops zero (s ∷ slots) h = elim (drops s) [
  | inl same ↦ (subst (AbsentFrom slots) (sym same) h.0, h.1)
  | inr gone ↦ (subst (AbsentFrom slots) (sym gone) tt, h.1)
]
IsDistinct-Drops f drops (suc k) (s ∷ slots) h =
    (AbsentFrom-Drops f drops k slots s.resident_module h.0, IsDistinct-Drops f drops k slots h.1)

-- A change that puts a module into a slot, for a module that no slot holds.
AbsentFrom-mark :
    (f : OverlaySlot → OverlaySlot) (id : ℕ)
    → ((s : OverlaySlot) → (f s).resident_module ≡ some id)
    → (k : ℕ) (slots : List OverlaySlot) (r : Option ℕ) → holds r id ≡ false
    → AbsentFrom slots r
    → AbsentFrom (modify_at f k slots) r
AbsentFrom-mark f id marks k slots none other h = h
AbsentFrom-mark f id marks k slots (some b) other h =
    All-modify_at (NotHolding b) f k slots (λ s _. ap (λ r. holds r b) (marks s) ∙ ground arith) h

pub IsDistinct-mark :
    (f : OverlaySlot → OverlaySlot) (id : ℕ)
    → ((s : OverlaySlot) → (f s).resident_module ≡ some id)
    → (k : ℕ) (slots : List OverlaySlot) → All (NotHolding id) slots
    → IsDistinct slots
    → IsDistinct (modify_at f k slots)
IsDistinct-mark f id marks k [] absent h = h
IsDistinct-mark f id marks zero (s ∷ slots) absent h =
    (subst (AbsentFrom slots) (sym (marks s)) absent.1, h.1)
IsDistinct-mark f id marks (suc k) (s ∷ slots) absent h = (
  AbsentFrom-mark f id marks k slots s.resident_module absent.0 h.0,
  IsDistinct-mark f id marks k slots absent.1 h.1,
)

pub find_from-none :
    (i : ℕ) (slots : List OverlaySlot) (id : ℕ)
    → find_from i slots id ≡ none
    → All (NotHolding id) slots
unfolding find_from Slot.is_resident
find_from-none i [] id e = tt
find_from-none i (s ∷ slots) id e = elim (Bool-cases (holds s.resident_module id)) [
  | inl found ↦ absurd (ground arith)
  | inr other ↦ (other, find_from-none (suc i) slots id (sym (rw other refl) ∙ e))
]
