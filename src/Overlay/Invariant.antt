-- ===== src/Overlay/Invariant.antt =====
-- The operations of the manager, one after another, and its well-formedness.
use embedded_overlay.Base.{
  ℕ, ◌+◌, ◌^◌, ◌≤◌, ◌<◌, List, [], ◌∷◌, get_elem?, modify_at, length, none, ◌≡◌, inl, inr, refl,
  sym, ap, arith, Option-cases, All, All-modify_at, All-imp,
}
use mathlib.Core.Path.{subst}
use embedded_overlay.Arith.{Profile}
use embedded_overlay.Error.{OverlayError, Result, ok, err, panic}
use embedded_overlay.Exec.Triple.{Post}
use embedded_overlay.Flash.{Flash}
use embedded_overlay.Header.Overlay.{OverlayHeader}
use embedded_overlay.Overlay.Slot
use embedded_overlay.Overlay.Slot.{OverlaySlot, holds}
use embedded_overlay.Overlay.Sync.{InstructionCacheSync}
use embedded_overlay.Overlay.Distinct.{
  NotHolding, AbsentFrom, NoNewer, AreValid, IsValid, Drops, IsDistinct-Drops, IsDistinct-mark,
  find_from-none,
}
use embedded_overlay.Overlay.Manager.{
  OverlayManager, find_resident_slot, evict, pin_slot, unpin_slot, with_sync,
}
use embedded_overlay.Overlay.Load.{mark, ensure_resident}
use embedded_overlay.Overlay.Rules.{fill_ram, set_generation, next, ensure_resident_rule}

-- A change of one slot that puts no module there and makes it no newer.
AreValid-Drops :
    (f : OverlaySlot → OverlaySlot) (k : ℕ) (slots : List OverlaySlot) (c : ℕ)
    → Drops f
    → ((s : OverlaySlot) → NoNewer c s → NoNewer c (f s))
    → AreValid slots c
    → AreValid (modify_at f k slots) c
AreValid-Drops f k slots c drops older h =
    (IsDistinct-Drops f drops k slots h.0, All-modify_at (NoNewer c) f k slots older h.1)

-- The counter advances.
AreValid-later : (slots : List OverlaySlot) (c d : ℕ) → c ≤ d → AreValid slots c → AreValid slots d
AreValid-later slots c d l h = (h.0, All-imp (NoNewer c) (NoNewer d) slots (λ s g. omega arith) h.1)

next-lt : (c : ℕ) → c + 1 < 2 ^ 64 → next c ≡ c + 1
next-lt c h = omega arith

-- Until the module is loaded: the slots are valid and none holds it.
abbrev Unloaded : ℕ → List OverlaySlot → ℕ → Type 0
Unloaded id slots c = AreValid slots c × All (NotHolding id) slots × (c + 1 < 2 ^ 64)

Unloaded-Drops :
    (f : OverlaySlot → OverlaySlot) (id k : ℕ) (slots : List OverlaySlot) (c : ℕ)
    → ((s : OverlaySlot) → NoNewer c s → NoNewer c (f s))
    → Drops f
    → ((s : OverlaySlot) → NotHolding id s → NotHolding id (f s))
    → Unloaded id slots c
    → Unloaded id (modify_at f k slots) c
Unloaded-Drops f id k slots c older drops other (valid, absent, bound) = (
  AreValid-Drops f k slots c drops older valid,
  All-modify_at (NotHolding id) f k slots other absent,
  bound,
)

Unloaded-mark :
    (id : ℕ) (header : OverlayHeader) (k : ℕ) (slots : List OverlaySlot) (c : ℕ)
    → Unloaded id slots c
    → AreValid (modify_at (mark id header (next c)) k slots) (next c)
Unloaded-mark id header k slots c (valid, absent, bound) =
    let later = AreValid-later slots c (next c) (omega (arith, next-lt c bound)) valid in
    (
      IsDistinct-mark (mark id header (next c)) id (λ s. refl) k slots absent later.0,
      All-modify_at (NoNewer (next c)) (mark id header (next c)) k slots (λ s _. omega arith)
          later.1,
    )

module _ {S E B : Type 0} (profile : Profile) (flash : Flash S E)
    (hook : InstructionCacheSync B) where
  -- Whatever it returns, `ensure_resident` leaves a well-formed manager.
  pub ensure_resident-IsValid :
      (m : OverlayManager S B) (module_id flash_offset : ℕ)
      → IsValid m
      → m.lru_counter + 1 < 2 ^ 64
      → IsValid (ensure_resident profile flash hook module_id flash_offset m).1
  unfolding Slot.evict
  ensure_resident-IsValid m module_id flash_offset valid bound =
      weaken (ensure_resident profile flash hook module_id flash_offset m).0
        (ensure_resident profile flash hook module_id flash_offset m).1
        (ensure_resident_rule profile flash hook (Unloaded module_id) (λ _. AreValid) module_id
          m.slots
          (λ k ram slots c _.
            Unloaded-Drops (fill_ram ram) module_id k slots c (λ s h. h) (λ s. inl refl) (λ s h. h))
          (λ k slots c _.
            Unloaded-Drops Slot.evict module_id k slots c (λ s h. h) (λ s. inr refl) (λ s h. refl))
          (λ k header slots c _ h. Unloaded-mark module_id header k slots c h) m flash_offset refl
          (λ k _.
            AreValid-Drops (set_generation (next m.lru_counter)) k m.slots (next m.lru_counter)
              (λ s. inl refl) (λ s _. omega arith)
              (AreValid-later m.slots m.lru_counter (next m.lru_counter)
                (omega (arith, next-lt m.lru_counter bound)) valid))
          (λ missing. (valid, find_from-none 0 m.slots module_id missing, bound)))
    where
      weaken :
          (r : Result OverlayError ℕ) (m : OverlayManager S B)
          → Post (λ _ m. IsValid m) (λ m. Unloaded module_id m.slots m.lru_counter) r m
          → IsValid m
      weaken (ok i) m h = h
      weaken (err e) m h = h.0
      weaken panic m h = h.0

  -- The counter moves by one at most.
  pub ensure_resident-lru_counter :
      (m : OverlayManager S B) (module_id flash_offset : ℕ)
      → m.lru_counter + 1 < 2 ^ 64
      → (ensure_resident profile flash hook module_id flash_offset m).1.lru_counter
        ≤ m.lru_counter + 1
  ensure_resident-lru_counter m module_id flash_offset bound =
      weaken (ensure_resident profile flash hook module_id flash_offset m).0
        (ensure_resident profile flash hook module_id flash_offset m).1
        (ensure_resident_rule profile flash hook (λ _ c. c ≡ m.lru_counter)
          (λ _ _ c. c ≡ next m.lru_counter) module_id m.slots (λ k ram slots c _ h. h)
          (λ k slots c _ h. h) (λ k header slots c _ h. ap next h) m flash_offset refl (λ k _. refl)
          (λ _. refl))
    where
      weaken :
          (r : Result OverlayError ℕ) (t : OverlayManager S B)
          → Post
              (λ _ t. t.lru_counter ≡ next m.lru_counter)
              (λ t. t.lru_counter ≡ m.lru_counter)
              r
              t
          → t.lru_counter ≤ m.lru_counter + 1
      weaken (ok i) t h = omega (arith, next-lt m.lru_counter bound)
      weaken (err e) t h = omega arith
      weaken panic t h = omega arith

module _ {S B : Type 0} (m : OverlayManager S B) where
  evict-IsValid :
      (module_id : ℕ)
      → IsValid m
      → IsValid (evict m module_id).1 × ((evict m module_id).1.lru_counter ≡ m.lru_counter)
  unfolding evict
  evict-IsValid module_id valid = elim (Option-cases (find_resident_slot m module_id)) [
    | inl e ↦ rw (e, evict) (valid, refl)
    | inr (k, e) ↦
        rw (e, evict)
          (AreValid-Drops Slot.evict k m.slots m.lru_counter (λ s. inr refl) (λ s h. h) valid, refl)
  ]

  pin-IsValid :
      (k : ℕ)
      → IsValid m
      → IsValid (pin_slot k m).1 × ((pin_slot k m).1.lru_counter ≡ m.lru_counter)
  unfolding pin_slot
  pin-IsValid k valid = elim (Option-cases (get_elem? m.slots k)) [
    | inl e ↦ rw (e, pin_slot) (valid, refl)
    | inr (s, e) ↦
        rw (e, pin_slot)
          (AreValid-Drops Slot.pin k m.slots m.lru_counter (λ s. inl refl) (λ s h. h) valid, refl)
  ]

  unpin-IsValid :
      (k : ℕ)
      → IsValid m
      → IsValid (unpin_slot k m).1 × ((unpin_slot k m).1.lru_counter ≡ m.lru_counter)
  unfolding unpin_slot
  unpin-IsValid k valid = elim (Option-cases (get_elem? m.slots k)) [
    | inl e ↦ rw (e, unpin_slot) (valid, refl)
    | inr (s, e) ↦
        rw (e, unpin_slot)
          (AreValid-Drops Slot.unpin k m.slots m.lru_counter (λ s. inl refl) (λ s h. h) valid, refl)
  ]

-- The calls by which a program uses a manager.
pub data Command : Type 0 where
  ensure : (module_id flash_offset : ℕ) → Command
  forget : (module_id : ℕ) → Command
  hold : (slot_idx : ℕ) → Command
  release : (slot_idx : ℕ) → Command

module _ {S E B : Type 0} (profile : Profile) (flash : Flash S E)
    (hook : InstructionCacheSync B) where
  -- The manager after one call, whatever it returned.
  abbrev pub obey : Command → OverlayManager S B → OverlayManager S B
  obey (Command.ensure module_id flash_offset) m =
      (ensure_resident profile flash hook module_id flash_offset m).1
  obey (Command.forget module_id) m = (evict m module_id).1
  obey (Command.hold slot_idx) m = (pin_slot slot_idx m).1
  obey (Command.release slot_idx) m = (unpin_slot slot_idx m).1

  abbrev pub run : List Command → OverlayManager S B → OverlayManager S B
  run [] m = m
  run (c ∷ cs) m = run cs (obey c m)

  obey-IsValid :
      (c : Command) (m : OverlayManager S B)
      → IsValid m
      → m.lru_counter + 1 < 2 ^ 64
      → IsValid (obey c m) × ((obey c m).lru_counter ≤ m.lru_counter + 1)
  obey-IsValid (Command.ensure id offset) m valid bound = (
    ensure_resident-IsValid profile flash hook m id offset valid bound,
    ensure_resident-lru_counter profile flash hook m id offset bound,
  )
  obey-IsValid (Command.forget id) m valid bound =
      let h = evict-IsValid m id valid in (h.0, omega (arith, h.1))
  obey-IsValid (Command.hold k) m valid bound =
      let h = pin-IsValid m k valid in (h.0, omega (arith, h.1))
  obey-IsValid (Command.release k) m valid bound =
      let h = unpin-IsValid m k valid in (h.0, omega (arith, h.1))

  pub run-IsValid :
      (commands : List Command) (m : OverlayManager S B)
      → IsValid m
      → m.lru_counter + length commands < 2 ^ 64
      → IsValid (run commands m)
  run-IsValid [] m valid bound = valid
  run-IsValid (c ∷ cs) m valid bound =
      let h = obey-IsValid c m valid (omega arith) in
      run-IsValid cs (obey c m) h.0 (omega (arith, h.1))

-- A new manager, on slots that hold nothing.
abbrev pub IsEmpty : OverlaySlot → Type 0
IsEmpty s = (s.resident_module ≡ none) × (s.generation ≡ 0)

empty-AreValid : (slots : List OverlaySlot) → All IsEmpty slots → AreValid slots 0
empty-AreValid [] h = (tt, tt)
empty-AreValid (s ∷ slots) (e, h) =
    let rest = empty-AreValid slots h in
    ((subst (AbsentFrom slots) (sym e.0) tt, rest.0), (omega (arith, e.1), rest.1))

module _ {S E B : Type 0} (profile : Profile) (flash : Flash S E)
    (hook : InstructionCacheSync B) where
  -- From a new manager on slots that hold nothing, any sequence of fewer than 2^64 calls of
  -- `ensure_resident`, `evict`, `pin_slot` and `unpin_slot`, failed ones among them, on any flash, leads
  -- to a manager in which no module is in two slots and no slot is newer than the counter.
  pub run-with_sync-IsValid :
      (commands : List Command) (storage : S) (slots : List OverlaySlot) (sync : B)
      → All IsEmpty slots
      → length commands < 2 ^ 64
      → IsValid (run profile flash hook commands (with_sync storage slots sync))
  unfolding with_sync
  run-with_sync-IsValid commands storage slots sync empty bound =
      run-IsValid profile flash hook commands (with_sync storage slots sync)
        (empty-AreValid slots empty) (omega arith)
