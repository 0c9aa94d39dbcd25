-- ===== src/Overlay/Frame.antt =====
-- What `ensure_resident` leaves alone, and what it reports.
use embedded_overlay.Base.{
  ℕ, ◌+◌, List, [], ◌∷◌, suc, get_elem?, modify_at, true, false, get_elem?-modify_at_self,
  get_elem?-modify_at_ne, Option, none, some, ◌≡◌, ◌≢◌, inl, inr, refl, sym, ap, ◌∙◌, arith,
  Bool-cases, ◌==◌, ==_iff,
}
use mathlib.Core.Path.{subst}
use mathlib.Core.Option.{some-injective}
use embedded_overlay.Arith.{Profile}
use embedded_overlay.Error.{OverlayError, Result, ok, err, panic}
use embedded_overlay.Exec.Triple.{Post}
use embedded_overlay.Flash.{Flash}
use embedded_overlay.Overlay.Slot
use embedded_overlay.Overlay.Slot.{OverlaySlot, holds}
use embedded_overlay.Overlay.Sync.{InstructionCacheSync}
use embedded_overlay.Overlay.Manager.{OverlayManager, find_from, select_eviction_slot}
use embedded_overlay.Overlay.Load.{mark, ensure_resident}
use embedded_overlay.Overlay.Select.{Chosen, select_eviction_slot-Chosen}
use embedded_overlay.Overlay.Rules.{fill_ram, set_generation, next, ensure_resident_rule}

-- The slot at `j` is `s`, but for its generation.
abbrev pub IsKept : ℕ → OverlaySlot → List OverlaySlot → Type 0
IsKept j s slots = (gen : ℕ) × (get_elem? slots j ≡ some (set_generation gen s))

-- A slot that can be chosen is not pinned.
chosen_unpinned :
    (slots : List OverlaySlot) (j k : ℕ) (s : OverlaySlot)
    → get_elem? slots j ≡ some s
    → s.is_pinned ≡ true
    → select_eviction_slot slots ≡ ok k
    → k ≢ j
chosen_unpinned slots j k s at pinned e same =
    let (t, at', free, _) = subst (Chosen slots) e (select_eviction_slot-Chosen slots) in
    let here : some t ≡ some s = sym at' ∙ ap (get_elem? slots) same ∙ at in
    let eq : t ≡ s = some-injective _ _ here in
    let clash : s.is_pinned ≡ false = ap (λ (r : OverlaySlot). r.is_pinned) (sym eq) ∙ free in cc

IsKept-other :
    (f : OverlaySlot → OverlaySlot) (j k : ℕ) (s : OverlaySlot) (slots : List OverlaySlot)
    → k ≢ j
    → IsKept j s slots
    → IsKept j s (modify_at f k slots)
IsKept-other f j k s slots other (gen, at) = (gen, get_elem?-modify_at_ne f k j slots other ∙ at)

IsKept-set_generation :
    (gen : ℕ) (j k : ℕ) (s : OverlaySlot) (slots : List OverlaySlot)
    → get_elem? slots j ≡ some s
    → IsKept j s (modify_at (set_generation gen) k slots)
IsKept-set_generation gen j k s slots at = elim (Bool-cases (k == j)) [
  | inl same ↦
      let e : k ≡ j = ground arith in
      (
        gen,
        ap (λ i. get_elem? (modify_at (set_generation gen) i slots) j) e
            ∙ get_elem?-modify_at_self (set_generation gen) j slots at,
      )
  | inr other ↦
      (s.generation, get_elem?-modify_at_ne (set_generation gen) k j slots (λ e. ground arith) ∙ at)
]

module _ {S E B : Type 0} (profile : Profile) (flash : Flash S E)
    (hook : InstructionCacheSync B) where
  -- Whatever `ensure_resident` returns, on any flash, a pinned slot keeps its module, its memory, its
  -- entry point, its addresses and its pin: only its generation may change.
  pub ensure_resident_pinned :
      (m : OverlayManager S B) (module_id flash_offset j : ℕ) (s : OverlaySlot)
      → get_elem? m.slots j ≡ some s
      → s.is_pinned ≡ true
      → IsKept j s (ensure_resident profile flash hook module_id flash_offset m).1.slots
  ensure_resident_pinned m module_id flash_offset j s at pinned =
      weaken (ensure_resident profile flash hook module_id flash_offset m).0
        (ensure_resident profile flash hook module_id flash_offset m).1
        (ensure_resident_rule profile flash hook (λ slots _. IsKept j s slots)
          (λ _ slots _. IsKept j s slots) module_id m.slots
          (λ k ram slots c e.
            IsKept-other (fill_ram ram) j k s slots (chosen_unpinned m.slots j k s at pinned e))
          (λ k slots c e.
            IsKept-other Slot.evict j k s slots (chosen_unpinned m.slots j k s at pinned e))
          (λ k header slots c e.
            IsKept-other (mark module_id header (next c)) j k s slots
              (chosen_unpinned m.slots j k s at pinned e))
          m flash_offset refl (λ k _. IsKept-set_generation (next m.lru_counter) j k s m.slots at)
          (λ _. (s.generation, at)))
    where
      weaken :
          (r : Result OverlayError ℕ) (t : OverlayManager S B)
          → Post (λ _ t. IsKept j s t.slots) (λ t. IsKept j s t.slots) r t
          → IsKept j s t.slots
      weaken (ok i) t h = h
      weaken (err e) t h = h
      weaken panic t h = h

-- The slot at `i` holds the module, and is as new as the counter.
abbrev pub IsLoaded : ℕ → ℕ → List OverlaySlot → ℕ → Type 0
IsLoaded module_id i slots c =
    (s : OverlaySlot) × (get_elem? slots i ≡ some s)
    × (s.resident_module ≡ some module_id)
    × (s.generation ≡ c)

-- There is a slot at `k`.
abbrev Exists : ℕ → List OverlaySlot → Type 0
Exists k slots = (s : OverlaySlot) × (get_elem? slots k ≡ some s)

Exists-modify_at :
    (f : OverlaySlot → OverlaySlot) (j k : ℕ) (slots : List OverlaySlot)
    → Exists j slots
    → Exists j (modify_at f k slots)
Exists-modify_at f j k slots (s, at) = elim (Bool-cases (k == j)) [
  | inl same ↦
      let e : k ≡ j = ground arith in
      (f s, ap (λ i. get_elem? (modify_at f i slots) j) e ∙ get_elem?-modify_at_self f j slots at)
  | inr other ↦ (s, get_elem?-modify_at_ne f k j slots (λ e. ground arith) ∙ at)
]

find_from-some :
    (i : ℕ) (slots : List OverlaySlot) (id k : ℕ)
    → find_from i slots id ≡ some k
    → (j : ℕ) × (s : OverlaySlot) × (k ≡ i + j)
      × (get_elem? slots j ≡ some s)
      × (s.resident_module ≡ some id)
unfolding find_from Slot.is_resident
find_from-some i [] id k e = cc
find_from-some i (s ∷ slots) id k e = elim (Bool-cases (holds s.resident_module id)) [
  | inl found ↦
      let here : some i ≡ some k = sym (rw found refl) ∙ e in
      let at : i ≡ k = some-injective _ _ here in
      (0, s, omega arith, refl, holds_lem s.resident_module id found)
  | inr other ↦
      let (j, t, e', at, h) = find_from-some (suc i) slots id k (sym (rw other refl) ∙ e) in
      (suc j, t, omega arith, at, h)
]
  where
    holds_lem : (r : Option ℕ) (id : ℕ) → holds r id ≡ true → r ≡ some id
    holds_lem none id h = cc
    holds_lem (some a) id h = ap some ((==_iff a id).0 h)

-- Whichever slot is chosen, it is still there.
abbrev ChosenExists : List OverlaySlot → List OverlaySlot → ℕ → Type 0
ChosenExists slots₀ slots c = (k : ℕ) → select_eviction_slot slots₀ ≡ ok k → Exists k slots

ChosenExists-start : (slots : List OverlaySlot) (c : ℕ) → ChosenExists slots slots c
ChosenExists-start slots c k e =
    let (s, at, _, _) = subst (Chosen slots) e (select_eviction_slot-Chosen slots) in (s, at)

module _ {S E B : Type 0} (profile : Profile) (flash : Flash S E)
    (hook : InstructionCacheSync B) where
  -- When `ensure_resident` returns the slot `i`, there is a slot `i`, it holds the module that was asked
  -- for, and its generation is the counter.
  pub ensure_resident-IsLoaded :
      (m : OverlayManager S B) (module_id flash_offset i : ℕ)
      → (ensure_resident profile flash hook module_id flash_offset m).0 ≡ ok i
      → IsLoaded module_id i
          (ensure_resident profile flash hook module_id flash_offset m).1.slots
          (ensure_resident profile flash hook module_id flash_offset m).1.lru_counter
  ensure_resident-IsLoaded m module_id flash_offset i e =
      take_ok (ensure_resident profile flash hook module_id flash_offset m).0
        (ensure_resident profile flash hook module_id flash_offset m).1 e
        (ensure_resident_rule profile flash hook (ChosenExists m.slots) (IsLoaded module_id)
          module_id m.slots
          (λ k ram slots c _ h j e. Exists-modify_at (fill_ram ram) j k slots (h j e))
          (λ k slots c _ h j e. Exists-modify_at Slot.evict j k slots (h j e))
          (λ k header slots c e h.
            let (s, at) = h k e in
            (
              mark module_id header (next c) s,
              get_elem?-modify_at_self (mark module_id header (next c)) k slots at,
              refl,
              refl,
            ))
          m flash_offset refl
          (λ k found.
            let (j, s, e, at, holding) = find_from-some 0 m.slots module_id k found in
            let at' : get_elem? m.slots k ≡ some s = ap (get_elem? m.slots) (omega arith) ∙ at in
            (
              set_generation (next m.lru_counter) s,
              get_elem?-modify_at_self (set_generation (next m.lru_counter)) k m.slots at',
              holding,
              refl,
            ))
          (λ _. ChosenExists-start m.slots m.lru_counter))
    where
      take_ok :
          (r : Result OverlayError ℕ) (t : OverlayManager S B)
          → r ≡ ok i
          → Post
              (λ i t. IsLoaded module_id i t.slots t.lru_counter)
              (λ t. ChosenExists m.slots t.slots t.lru_counter)
              r
              t
          → IsLoaded module_id i t.slots t.lru_counter
      take_ok (ok j) t e h =
          let same : j ≡ i = cc in subst (λ i. IsLoaded module_id i t.slots t.lru_counter) same h
      take_ok (err x) t e h = cc
      take_ok panic t e h = cc
