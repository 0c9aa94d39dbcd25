-- ===== src/Overlay/Manager.antt =====
-- src/overlay/mod.rs: `OverlayManager`.
use embedded_overlay.Base.{
  ℕ, suc, ◌+◌, ◌-◌, ◌%◌, ◌^◌, List, [], ◌∷◌, get_elem?, modify_at, Bool, true, false, not, ◌&&◌,
  ltb, if◌then◌else◌, Option, none, some,
}
use embedded_overlay.Error.{OverlayError, Result, ok, err, panic}
use embedded_overlay.Exec.{Exec}
use embedded_overlay.Overlay.Slot
use embedded_overlay.Overlay.Slot.{OverlaySlot}

pub record OverlayManager (S B : Type 0) : Type 0 where
  pub storage : S
  pub slots : List OverlaySlot
  pub lru_counter : ℕ
  pub sync : B

abbrev pub u64_max : ℕ
u64_max = 2 ^ 64 - 1

-- The loop of `find_resident_slot`, at index `i`.
unfoldable pub find_from : ℕ → List OverlaySlot → ℕ → Option ℕ
unfolding Slot.is_resident
find_from i [] module_id = none
find_from i (slot ∷ slots) module_id =
    if Slot.is_resident slot module_id then some i else find_from (suc i) slots module_id

-- `slot.resident_module.is_none() && !slot.is_pinned`
abbrev pub is_free : OverlaySlot → Bool
is_free slot = elim slot.resident_module [ none ↦ not slot.is_pinned | some _ ↦ false ]

-- The first loop of `select_eviction_slot`: an empty slot.
unfoldable pub find_empty : ℕ → List OverlaySlot → Option ℕ
find_empty i [] = none
find_empty i (slot ∷ slots) = if is_free slot then some i else find_empty (suc i) slots

-- The second loop: the oldest unpinned slot.
unfoldable pub find_oldest : ℕ → List OverlaySlot → Option ℕ → ℕ → Option ℕ
find_oldest i [] best_idx min_gen = best_idx
find_oldest i (slot ∷ slots) best_idx min_gen =
    let older = not slot.is_pinned && ltb slot.generation min_gen in
    find_oldest (suc i) slots (if older then some i else best_idx)
      (if older then slot.generation else min_gen)

unfoldable pub select_eviction_slot : List OverlaySlot → Result OverlayError ℕ
unfolding find_empty find_oldest
select_eviction_slot slots = elim (find_empty 0 slots) [
  | some i ↦ ok i
  | none ↦ elim (find_oldest 0 slots none u64_max) [
    | some i ↦ ok i
    | none ↦ err OverlayError.invalid_slot_index
  ]
]

module _ {S B : Type 0} where
  unfoldable pub with_sync : S → List OverlaySlot → B → OverlayManager S B
  with_sync storage slots sync = record {
    storage = storage;
    slots = slots;
    lru_counter = 0;
    sync = sync;
  }

  unfoldable pub find_resident_slot : OverlayManager S B → ℕ → Option ℕ
  unfolding find_from
  find_resident_slot m module_id = find_from 0 m.slots module_id

  unfoldable pub is_resident : OverlayManager S B → ℕ → Bool
  unfolding find_resident_slot
  is_resident m module_id = elim (find_resident_slot m module_id) [ none ↦ false | some _ ↦ true ]

  -- Change the slot at an index.
  abbrev pub at_slot : ℕ → (OverlaySlot → OverlaySlot) → OverlayManager S B → OverlayManager S B
  at_slot i f m = record m { slots = modify_at f i m.slots }

  unfoldable pub evict : OverlayManager S B → ℕ → Bool × OverlayManager S B
  unfolding find_resident_slot Slot.evict
  evict m module_id = elim (find_resident_slot m module_id) [
    | some slot_idx ↦ (true, at_slot slot_idx Slot.evict m)
    | none ↦ (false, m)
  ]

  unfoldable pub pin_slot : ℕ → Exec (OverlayManager S B) OverlayError (Unit {0})
  unfolding Slot.pin
  pin_slot slot_idx m = elim (get_elem? m.slots slot_idx) [
    | none ↦ (err OverlayError.invalid_slot_index, m)
    | some _ ↦ (ok tt, at_slot slot_idx Slot.pin m)
  ]

  unfoldable pub unpin_slot : ℕ → Exec (OverlayManager S B) OverlayError (Unit {0})
  unfolding Slot.unpin
  unpin_slot slot_idx m = elim (get_elem? m.slots slot_idx) [
    | none ↦ (err OverlayError.invalid_slot_index, m)
    | some _ ↦ (ok tt, at_slot slot_idx Slot.unpin m)
  ]

  unfoldable pub next_generation : Exec (OverlayManager S B) OverlayError ℕ
  next_generation m =
      let lru_counter = (m.lru_counter + 1) % 2 ^ 64 in
      (ok lru_counter, record m { lru_counter = lru_counter })

  -- `self.slots[slot_idx]`
  unfoldable pub slot_at : ℕ → Exec (OverlayManager S B) OverlayError OverlaySlot
  slot_at slot_idx m = elim (get_elem? m.slots slot_idx) [
    | none ↦ (panic, m)
    | some slot ↦ (ok slot, m)
  ]
