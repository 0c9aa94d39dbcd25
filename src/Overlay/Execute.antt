-- ===== src/Overlay/Execute.antt =====
-- The calls into a module once it is resident.
use embedded_overlay.Base.{
  ℕ, zero, suc, ◌+◌, ◌<◌, ◌^◌, List, [], ◌∷◌, ◌++◌, length, drop, get_elem?, modify_at,
  get_elem?-modify_at_self, true, false, ==_iff, Option, none, some, ◌≡◌, refl, sym, ap, ◌∙◌, arith,
  Bool-cases, inl, inr, All-get,
}
use mathlib.Core.Option.{some-injective}
use embedded_overlay.Arith.{Profile, u32_value_lem}
use embedded_overlay.Error.{OverlayError, ok}
use embedded_overlay.Exec.{◌>>=◌, >>=-ok}
use embedded_overlay.Flash.{Flash, Serves}
use embedded_overlay.Overlay.Slot
use embedded_overlay.Overlay.Slot.{OverlaySlot, holds}
use embedded_overlay.Overlay.Sync.{InstructionCacheSync, make_thumb_entry}
use embedded_overlay.Overlay.Manager.{
  OverlayManager, find_from, find_resident_slot, select_eviction_slot, next_generation,
}
use embedded_overlay.Overlay.Load.{ensure_resident, touch, call_raw, call_typed, execute}
use embedded_overlay.Overlay.Rules.{set_generation, next}
use embedded_overlay.Overlay.Distinct.{NotHolding, AbsentFrom, IsDistinct, IsValid}
use embedded_overlay.Overlay.Invariant.{ensure_resident-IsValid}
use embedded_overlay.Overlay.Frame.{ensure_resident-IsLoaded}
use embedded_overlay.Overlay.Resident.{IsStored, IsRoomy, with_module, ensure_resident-IsStored}

holds_self : (r : Option ℕ) (id : ℕ) → r ≡ some id → holds r id ≡ true
holds_self r id e = ap (λ r. holds r id) e ∙ (==_iff id id).1 refl

-- The search finds the slot that holds a module.
find_from-get_elem? :
    (j : ℕ) (slots : List OverlaySlot) (id i : ℕ) (s : OverlaySlot)
    → IsDistinct slots
    → get_elem? slots i ≡ some s
    → s.resident_module ≡ some id
    → find_from j slots id ≡ some (j + i)
unfolding find_from Slot.is_resident
find_from-get_elem? j [] id i s d at e = cc
find_from-get_elem? j (t ∷ slots) id zero s d at e =
    let found : holds t.resident_module id ≡ true =
      holds_self t.resident_module id
        (ap (λ (r : OverlaySlot). r.resident_module) (some-injective _ _ at) ∙ e) in
    rw found (ap some (omega arith))
find_from-get_elem? j (t ∷ slots) id (suc i) s d at e =
    elim (Bool-cases (holds t.resident_module id)) [
      | inl found ↦ absurd (clash t.resident_module found d.0)
      | inr other ↦
          rw other (find_from-get_elem? (suc j) slots id i s d.1 at e ∙ ap some (omega arith))
    ]
  where
    clash : (r : Option ℕ) → holds r id ≡ true → AbsentFrom slots r → ⊥
    clash none found absent = cc
    clash (some a) found absent =
        let same : a ≡ id = (==_iff a id).0 found in
        let missing : holds s.resident_module a ≡ false =
          All-get (NotHolding a) slots i absent at in
        let present : holds s.resident_module a ≡ true =
          holds_self s.resident_module a (e ∙ ap some (sym same)) in
        cc

-- The manager with the module loaded into slot `k`, which was `s`: the code stands at the start of its
-- memory.
abbrev pub loaded :
    {S B : Type 0}
    → InstructionCacheSync B
    → ℕ
    → ℕ
    → List ℕ
    → ℕ
    → OverlaySlot
    → S
    → OverlayManager S B
    → OverlayManager S B
loaded hook module_id entry_offset code k s storage' m = record {
  storage = storage';
  slots =
      modify_at
        (with_module module_id entry_offset (code ++ drop (length code) s.ram) (next m.lru_counter))
        k m.slots;
  lru_counter = next m.lru_counter;
  sync = hook.code_loaded m.sync;
}

module _ {S E B : Type 0} (profile : Profile) (flash : Flash S E)
    (hook : InstructionCacheSync B) where
  -- A resident module.
  ensure_resident_found :
      (m : OverlayManager S B) (module_id offset i : ℕ)
      → find_resident_slot m module_id ≡ some i
      → ensure_resident profile flash hook module_id offset m ≡ (
        ok i,
        record m {
          slots = modify_at (set_generation (next m.lru_counter)) i m.slots;
          lru_counter = next m.lru_counter;
        },
      )
  unfolding ensure_resident touch ◌>>=◌ next_generation
  ensure_resident_found m module_id offset i e = rw (e, ensure_resident) refl

  -- After `ensure_resident` returned a slot for a module, on a well-formed manager whose counter is not
  -- at its end, a further call for that module returns the same slot, without a read of the flash,
  -- whatever offset it is given: only the counter and the generation of the slot change.
  pub ensure_resident-ensure_resident :
      (m : OverlayManager S B) (module_id offset offset' i : ℕ)
      → IsValid m
      → m.lru_counter + 1 < 2 ^ 64
      → (ensure_resident profile flash hook module_id offset m).0 ≡ ok i
      → let m' = (ensure_resident profile flash hook module_id offset m).1 in
        ensure_resident profile flash hook module_id offset' m' ≡ (
          ok i,
          record m' {
            slots = modify_at (set_generation (next m'.lru_counter)) i m'.slots;
            lru_counter = next m'.lru_counter;
          },
        )
  unfolding find_resident_slot
  ensure_resident-ensure_resident m module_id offset offset' i valid bound e =
      let m' = (ensure_resident profile flash hook module_id offset m).1 in
      let valid' = ensure_resident-IsValid profile flash hook m module_id offset valid bound in
      let (s, at, holding, _) =
        ensure_resident-IsLoaded profile flash hook m module_id offset i e in
      ensure_resident_found m' module_id offset' i
        (find_from-get_elem? 0 m'.slots module_id i s valid'.0 at holding ∙ ap some (omega arith))

  module _ {Args Output : Type 0} (invoke : ℕ → Args → Output) where
    call_raw_ok :
        (m : OverlayManager S B) (module_id k : ℕ) (args : Args) (s : OverlaySlot)
        → get_elem? m.slots k ≡ some s
        → s.resident_module ≡ some module_id
        → s.exec_addr + s.entry_offset < 2 ^ 32
        → call_raw profile flash hook invoke m k args
          ≡ ok (invoke (make_thumb_entry (s.exec_addr + s.entry_offset)) args)
    unfolding call_raw
    call_raw_ok m module_id k args s at holding bound =
        let sum = u32_value_lem {E = OverlayError} profile (s.exec_addr + s.entry_offset) bound in
        rw (call_raw, at) (rw holding (rw sum refl))

    call_typed_ok :
        (m : OverlayManager S B) (module_id k : ℕ) (args : Args) (s : OverlaySlot)
        → get_elem? m.slots k ≡ some s
        → s.resident_module ≡ some module_id
        → s.exec_addr + s.entry_offset < 2 ^ 32
        → call_typed profile flash hook invoke m module_id k args
          ≡ ok (invoke (make_thumb_entry (s.exec_addr + s.entry_offset)) args)
    unfolding call_typed
    call_typed_ok m module_id k args s at holding bound =
        let found = holds_self s.resident_module module_id holding in
        rw (at, call_typed) (rw found (call_raw_ok m module_id k args s at holding bound))

    -- The same run with its state: the call changes nothing after the load.
    pub execute-loaded :
        (image : List ℕ) (Holds : S → Type 0)
        → Serves flash image Holds
        → (m : OverlayManager S B) (offset module_id entry_offset ram_target_addr : ℕ)
          (code : List ℕ) (k : ℕ) (s : OverlaySlot) (args : Args)
        → Holds m.storage
        → IsStored image offset module_id entry_offset ram_target_addr code
        → find_resident_slot m module_id ≡ none
        → select_eviction_slot m.slots ≡ ok k
        → get_elem? m.slots k ≡ some s
        → IsRoomy s entry_offset code
        → s.exec_addr + entry_offset < 2 ^ 32
        → (storage' : S) × (execute profile flash hook invoke module_id offset args m ≡ (
          ok (invoke (make_thumb_entry (s.exec_addr + entry_offset)) args),
          loaded hook module_id entry_offset code k s storage' m,
        ))
          × Holds storage'
    unfolding execute
    execute-loaded image Holds serves m offset module_id entry_offset ram_target_addr code k s args
          holds stored missing chosen at roomy bound =
        let (s', run, holds') =
          ensure_resident-IsStored profile flash hook image Holds serves m offset module_id
            entry_offset ram_target_addr code k s holds stored missing chosen at roomy in
        let m' = loaded hook module_id entry_offset code k s s' m in
        let ram = code ++ drop (length code) s.ram in
        let filled = with_module module_id entry_offset ram (next m.lru_counter) in
        (
          s',
          >>=-ok (ensure_resident profile flash hook module_id offset) _ m run
              ∙ ap (λ r. (r, m'))
                  (call_typed_ok m' module_id k args (filled s)
                    (get_elem?-modify_at_self filled k m.slots at) refl bound),
          holds',
        )

    -- On a flash that serves an image with the container of a module at `offset`, `execute` of a module
    -- that is in no slot calls the Thumb address of its entry point in the chosen slot with the arguments,
    -- and returns what the call returns, when that slot is large enough and aligned, the entry point is
    -- even, and its address is a 32-bit one.
    pub execute-IsStored :
        (image : List ℕ) (Holds : S → Type 0)
        → Serves flash image Holds
        → (m : OverlayManager S B) (offset module_id entry_offset ram_target_addr : ℕ)
          (code : List ℕ) (k : ℕ) (s : OverlaySlot) (args : Args)
        → Holds m.storage
        → IsStored image offset module_id entry_offset ram_target_addr code
        → find_resident_slot m module_id ≡ none
        → select_eviction_slot m.slots ≡ ok k
        → get_elem? m.slots k ≡ some s
        → IsRoomy s entry_offset code
        → s.exec_addr + entry_offset < 2 ^ 32
        → (execute profile flash hook invoke module_id offset args m).0
          ≡ ok (invoke (make_thumb_entry (s.exec_addr + entry_offset)) args)
    execute-IsStored image Holds serves m offset module_id entry_offset ram_target_addr code k s
          args holds stored missing chosen at roomy bound =
        let (s', run, _) =
          execute-loaded image Holds serves m offset module_id entry_offset ram_target_addr code k s
            args holds stored missing chosen at roomy bound in
        ap (λ r. r.0) run
