-- ===== src/Overlay/Select.antt =====
-- The two loops that choose a slot, and what they look for.
use embedded_overlay.Base.{
  ℕ, suc, ◌+◌, ◌≤◌, ◌<◌, List, [], ◌∷◌, get_elem?, true, false, not, ◌&&◌, ltb, Option, none, some,
  ◌≡◌, ◌⊎◌, inl, inr, refl, sym, ap, ◌∙◌, arith, Bool-cases, All,
}
use mathlib.Core.Path.{subst}
use embedded_overlay.Error.{OverlayError, Result, ok, err, panic}
use embedded_overlay.Overlay.Slot.{OverlaySlot}
use embedded_overlay.Overlay.Manager.{
  is_free, find_empty, find_oldest, select_eviction_slot, u64_max,
}

abbrev pub Occupied : OverlaySlot → Type 0
Occupied s = (s.is_pinned ≡ true) ⊎ ((r : ℕ) × (s.resident_module ≡ some r))

-- Pinned, or used no earlier than `g`.
abbrev pub NoOlder : ℕ → OverlaySlot → Type 0
NoOlder g s = (s.is_pinned ≡ true) ⊎ (g ≤ s.generation)

is_free-false : (s : OverlaySlot) → is_free s ≡ false → Occupied s
is_free-false s h = ground arith

-- The first free slot, or none.
find_empty_lem :
    (i : ℕ) (slots : List OverlaySlot)
    → ((j : ℕ) × (s : OverlaySlot) × (find_empty i slots ≡ some (i + j))
        × (get_elem? slots j ≡ some s)
        × (s.is_pinned ≡ false)
        × (s.resident_module ≡ none))
      ⊎ ((find_empty i slots ≡ none) × All Occupied slots)
unfolding find_empty
find_empty_lem i [] = inr (refl, tt)
find_empty_lem i (s ∷ slots) = elim (Bool-cases (is_free s)) [
  | inl free ↦ inl (0, s, ground arith, refl, ground arith, ground arith)
  | inr taken ↦ elim (find_empty_lem (suc i) slots) [
    | inl (j, t, e, at, p, r) ↦ inl (suc j, t, rw taken (e ∙ ap some (omega arith)), at, p, r)
    | inr (e, all) ↦ inr (rw taken e, (is_free-false s taken, all))
  ]
]

find_oldest_lem :
    (i : ℕ) (slots : List OverlaySlot) (best : Option ℕ) (min_gen : ℕ)
    → ((j : ℕ) × (s : OverlaySlot) × (find_oldest i slots best min_gen ≡ some (i + j))
        × (get_elem? slots j ≡ some s)
        × (s.is_pinned ≡ false)
        × (s.generation < min_gen)
        × All (NoOlder s.generation) slots)
      ⊎ ((find_oldest i slots best min_gen ≡ best) × All (NoOlder min_gen) slots)
unfolding find_oldest
find_oldest_lem i [] best min_gen = inr (refl, tt)
find_oldest_lem i (s ∷ slots) best min_gen =
    elim (Bool-cases (not s.is_pinned && ltb s.generation min_gen)) [
      | inl older ↦ rw older (elim (find_oldest_lem (suc i) slots (some i) s.generation) [
        | inl (j, t, e, at, p, g, all) ↦
            inl (suc j, t, e ∙ ap some (omega arith), at, p, ground arith, (inr (omega arith), all))
        | inr (e, all) ↦ inl (
          0,
          s,
          e ∙ ap some (omega arith),
          refl,
          ground arith,
          ground arith,
          (inr (omega arith), all),
        )
      ])
      | inr newer ↦ rw newer (elim (find_oldest_lem (suc i) slots best min_gen) [
        | inl (j, t, e, at, p, g, all) ↦
            inl (suc j, t, e ∙ ap some (omega arith), at, p, g, (ground arith, all))
        | inr (e, all) ↦ inr (e, (ground arith, all))
      ])
    ]

-- What the choice promises. On success the slot exists, is unpinned, and is empty; or no unpinned
-- slot is empty and none was used earlier. On failure every slot is pinned, or has a counter at the
-- end of its range.
abbrev pub Chosen : List OverlaySlot → Result OverlayError ℕ → Type 0
Chosen slots (ok k) =
    (s : OverlaySlot) × (get_elem? slots k ≡ some s)
    × (s.is_pinned ≡ false)
    × ((s.resident_module ≡ none) ⊎ (All Occupied slots × All (NoOlder s.generation) slots))
Chosen slots (err e) = (e ≡ OverlayError.invalid_slot_index) × All (NoOlder u64_max) slots
Chosen slots panic = ⊥

-- The choice of a slot. On success there is such a slot, it is unpinned, and either it holds no module,
-- or no unpinned slot is empty and every unpinned slot was used no earlier. On failure the error is
-- `InvalidSlotIndex`, and every slot is pinned or has the last generation there is.
pub select_eviction_slot-Chosen :
    (slots : List OverlaySlot) → Chosen slots (select_eviction_slot slots)
unfolding select_eviction_slot
select_eviction_slot-Chosen slots = elim (find_empty_lem 0 slots) [
  | inl (j, s, e, at, p, r) ↦
      let found : find_empty 0 slots ≡ some j = e ∙ ap some (omega arith) in
      let chosen : select_eviction_slot slots ≡ ok j = rw (found, select_eviction_slot) refl in
      subst (Chosen slots) (sym chosen) (s, at, p, inl r)
  | inr (e, occupied) ↦ elim (find_oldest_lem 0 slots none u64_max) [
    | inl (j, s, e', at, p, g, all) ↦
        let found : find_oldest 0 slots none u64_max ≡ some j = e' ∙ ap some (omega arith) in
        let chosen : select_eviction_slot slots ≡ ok j = rw (e, found, select_eviction_slot) refl in
        subst (Chosen slots) (sym chosen) (s, at, p, inr (occupied, all))
    | inr (e', all) ↦
        let chosen : select_eviction_slot slots ≡ err OverlayError.invalid_slot_index =
          rw (e, e', select_eviction_slot) refl in
        subst (Chosen slots) (sym chosen) (refl, all)
  ]
]
