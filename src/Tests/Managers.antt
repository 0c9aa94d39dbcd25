-- ===== src/Tests/Managers.antt =====
-- src/overlay/ on concrete inputs: a manager of two slots, and a flash with one module.
use embedded_overlay.Base.{
  ℕ, suc, ◌+◌, ◌≤◌, ◌<◌, ◌^◌, List, [], ◌∷◌, ◌++◌, drop, length, replicate, get_elem?, modify_at,
  true, none, some, ◌≡◌, refl, ap, arith,
}
use embedded_overlay.Arith.{Profile}
use embedded_overlay.Bytes.{to_le16, to_le32}
use embedded_overlay.Crc.{crc32}
use embedded_overlay.Error.{ok}
use embedded_overlay.Flash.{Flash}
use embedded_overlay.Flash.Mock.{MockFlash, MockFlashError, mock_flash}
use embedded_overlay.Flash.Mock.Laws.{mock_flash-Serves}
use embedded_overlay.Header.Overlay
use embedded_overlay.Header.Overlay.{OverlayHeader}
use embedded_overlay.Overlay.Slot
use embedded_overlay.Overlay.Slot.{OverlaySlot}
use embedded_overlay.Overlay.Sync.{InstructionCacheSync, make_thumb_entry}
use embedded_overlay.Overlay.Manager.{
  OverlayManager, with_sync, find_resident_slot, select_eviction_slot,
}
use embedded_overlay.Overlay.Load.{ensure_resident, execute}
use embedded_overlay.Overlay.Rules.{set_generation, next}
use embedded_overlay.Overlay.Select.{Chosen, select_eviction_slot-Chosen}
use embedded_overlay.Overlay.Distinct.{IsValid}
use embedded_overlay.Overlay.Invariant.{Command, run, run-with_sync-IsValid}
use embedded_overlay.Overlay.Frame.{
  IsKept, IsLoaded, ensure_resident_pinned, ensure_resident-IsLoaded,
}
use embedded_overlay.Overlay.Resident.{IsStored, IsRoomy, with_module, ensure_resident-IsStored}
use embedded_overlay.Overlay.Execute.{ensure_resident-ensure_resident, execute-IsStored}

-- `nop; bx lr`
abbrev pub code : List ℕ
code = 0x00 ∷ 0xBF ∷ 0x70 ∷ 0x47 ∷ []

abbrev pub header : OverlayHeader
header = Overlay.new 7 (length code) 0 0x2000_0000 (crc32 code)

abbrev image : List ℕ
image = Overlay.to_bytes header ++ code

abbrev flash : Flash MockFlash MockFlashError
flash = mock_flash 64 8

-- The hook counts the loads.
abbrev pub hook : InstructionCacheSync ℕ
hook = record { code_loaded = suc }

abbrev first_slot : OverlaySlot
first_slot = Slot.new_raw 0x2000_0000 8 (replicate 8 0)

abbrev second_slot : OverlaySlot
second_slot = Slot.pin (Slot.new_raw 0x2000_1000 8 (replicate 8 0))

abbrev manager : OverlayManager MockFlash ℕ
manager = with_sync (record { content = image }) (first_slot ∷ second_slot ∷ []) 0

stored : IsStored image 0 7 0 0x2000_0000 code
unfolding Overlay.to_bytes Overlay.new to_le16 to_le32 crc32
stored = record {
  header = refl;
  payload = refl;
  inside = omega arith;
  addressable = omega arith;
  module_id_lt = omega arith;
  code_size_lt = omega arith;
  entry_offset_lt = omega arith;
  ram_target_addr_lt = omega arith;
}

roomy : IsRoomy first_slot 0 code
unfolding Slot.new_raw
roomy = record { room = omega arith; memory = omega arith; aligned = refl; even_entry = refl }

length-image : length image ≤ 64
unfolding Overlay.to_bytes Overlay.new to_le16 to_le32 crc32
length-image = omega arith

missing : find_resident_slot manager 7 ≡ none
unfolding Slot.new_raw Slot.pin with_sync find_resident_slot
missing = refl

chosen : select_eviction_slot manager.slots ≡ ok 0
unfolding Slot.new_raw Slot.pin with_sync select_eviction_slot
chosen = refl

first_slot_lem : get_elem? manager.slots 0 ≡ some first_slot
unfolding with_sync
first_slot_lem = refl

second_slot_lem : get_elem? manager.slots 1 ≡ some second_slot
unfolding with_sync
second_slot_lem = refl

second_slot_pinned : second_slot.is_pinned ≡ true
unfolding Slot.pin
second_slot_pinned = refl

content_lem : manager.storage.content ≡ image
unfolding with_sync
content_lem = refl

ensure_resident-IsStored_example :
    (storage' : MockFlash) × (ensure_resident Profile.debug flash hook 7 0 manager ≡ (
      ok 0,
      record {
        storage = storage';
        slots =
            modify_at
              (with_module 7 0
                (code ++ drop (length code) first_slot.ram)
                (next manager.lru_counter))
              0
              manager.slots;
        lru_counter = next manager.lru_counter;
        sync = suc manager.sync;
      },
    ))
    × (storage'.content ≡ image)
ensure_resident-IsStored_example =
    ensure_resident-IsStored Profile.debug flash hook image (λ s. s.content ≡ image)
      (mock_flash-Serves 64 8 image length-image) manager 0 7 0 0x2000_0000 code 0 first_slot
      content_lem stored missing chosen first_slot_lem roomy

-- The entry point that is called, with the argument.
abbrev invoke : ℕ → ℕ → ℕ × ℕ
invoke entry_addr argument = (entry_addr, argument)

first_slot_bound : first_slot.exec_addr + 0 < 2 ^ 32
unfolding Slot.new_raw
first_slot_bound = omega arith

execute-IsStored_example :
    (execute Profile.debug flash hook invoke 7 0 5 manager).0
    ≡ ok (invoke (make_thumb_entry (first_slot.exec_addr + 0)) 5)
execute-IsStored_example =
    execute-IsStored Profile.debug flash hook invoke image (λ s. s.content ≡ image)
      (mock_flash-Serves 64 8 image length-image) manager 0 7 0 0x2000_0000 code 0 first_slot 5
      content_lem stored missing chosen first_slot_lem roomy first_slot_bound

loads : (ensure_resident Profile.debug flash hook 7 0 manager).0 ≡ ok 0
loads =
    let (_, run, _) =
      ensure_resident-IsStored Profile.debug flash hook image (λ s. s.content ≡ image)
        (mock_flash-Serves 64 8 image length-image) manager 0 7 0 0x2000_0000 code 0 first_slot
        content_lem stored missing chosen first_slot_lem roomy in
    ap (λ r. r.0) run

valid : IsValid manager
unfolding Slot.new_raw Slot.pin with_sync
valid = ((tt, (tt, tt)), (omega arith, (omega arith, tt)))

counter : manager.lru_counter + 1 < 2 ^ 64
unfolding with_sync
counter = omega arith

ensure_resident-ensure_resident_example :
    let m' = (ensure_resident Profile.debug flash hook 7 0 manager).1 in
    ensure_resident Profile.debug flash hook 7 48 m' ≡ (
      ok 0,
      record m' {
        slots = modify_at (set_generation (next m'.lru_counter)) 0 m'.slots;
        lru_counter = next m'.lru_counter;
      },
    )
ensure_resident-ensure_resident_example =
    ensure_resident-ensure_resident Profile.debug flash hook manager 7 0 48 0 valid counter loads

ensure_resident-IsLoaded_example :
    let m' = (ensure_resident Profile.debug flash hook 7 0 manager).1 in
    IsLoaded 7 0 m'.slots m'.lru_counter
ensure_resident-IsLoaded_example =
    ensure_resident-IsLoaded Profile.debug flash hook manager 7 0 0 loads

ensure_resident_pinned_example :
    IsKept 1 second_slot (ensure_resident Profile.debug flash hook 7 0 manager).1.slots
ensure_resident_pinned_example =
    ensure_resident_pinned Profile.debug flash hook manager 7 0 1 second_slot second_slot_lem
      second_slot_pinned

select_eviction_slot-Chosen_example :
    Chosen (second_slot ∷ first_slot ∷ []) (select_eviction_slot (second_slot ∷ first_slot ∷ []))
select_eviction_slot-Chosen_example = select_eviction_slot-Chosen (second_slot ∷ first_slot ∷ [])

abbrev commands : List Command
commands =
    Command.ensure 7 0
    ∷ Command.hold 0
    ∷ Command.ensure 7 0
    ∷ Command.release 0
    ∷ Command.forget 7
    ∷ []

empty_slots : (first_slot.resident_module ≡ none) × (first_slot.generation ≡ 0)
unfolding Slot.new_raw
empty_slots = (refl, refl)

run-with_sync-IsValid_example : IsValid (
    run Profile.debug flash hook commands
      (with_sync (record { content = image }) (first_slot ∷ first_slot ∷ []) 0))
run-with_sync-IsValid_example =
    run-with_sync-IsValid Profile.debug flash hook commands (record { content = image })
      (first_slot ∷ first_slot ∷ []) 0 (empty_slots, (empty_slots, tt)) (omega arith)
