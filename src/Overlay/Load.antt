-- ===== src/Overlay/Load.antt =====
-- src/overlay/mod.rs: `ensure_resident`, which pages a module into a slot, and the calls into it.
use embedded_overlay.Base.{
  ℕ, List, ◌++◌, drop, replicate, get_elem?, not, ◌==◌, ltb, if◌then◌else◌, none, some,
}
use embedded_overlay.Arith.{Profile, add_u32}
use embedded_overlay.Crc.{crc32}
use embedded_overlay.Error.{OverlayError, Result, ok, err, panic}
use embedded_overlay.Exec.{Exec, pure, raise, lift, gets, modify, require, ◌>>=◌, ◌>>◌}
use embedded_overlay.Flash.{Flash, filled}
use embedded_overlay.Header.Overlay
use embedded_overlay.Header.Overlay.{OverlayHeader}
use embedded_overlay.Overlay.Slot
use embedded_overlay.Overlay.Slot.{OverlaySlot}
use embedded_overlay.Overlay.Sync.{InstructionCacheSync, validate_thumb_alignment, make_thumb_entry}
use embedded_overlay.Overlay.Manager.{
  OverlayManager, find_resident_slot, select_eviction_slot, at_slot, next_generation, slot_at,
}

-- What `ensure_resident` writes into the slot of a loaded module.
abbrev pub mark : ℕ → OverlayHeader → ℕ → OverlaySlot → OverlaySlot
mark module_id header next_gen slot = record slot {
  resident_module = some module_id;
  entry_offset = header.entry_offset;
  generation = next_gen;
}

module _ {S E B : Type 0} (profile : Profile) (flash : Flash S E)
    (hook : InstructionCacheSync B) where
  -- `self.storage.read(offset, &mut buf).await.map_err(|_| OverlayError::Storage)?` for a buffer on
  -- the stack.
  unfoldable pub read_storage : ℕ → List ℕ → Exec (OverlayManager S B) OverlayError (List ℕ)
  read_storage offset buf m =
      let (r, buf', storage') = flash.read m.storage offset buf in
      (filled OverlayError.storage r buf', record m { storage = storage' })

  -- The same into the memory of a slot, which keeps what the read put there.
  unfoldable pub read_ram : ℕ → ℕ → ℕ → Exec (OverlayManager S B) OverlayError (List ℕ)
  read_ram slot_idx offset len m = elim (get_elem? m.slots slot_idx) [
    | none ↦ (panic, m)
    | some slot ↦
        let (r, buf', storage') = flash.read m.storage offset (Slot.slice_mut slot len) in
        let fill = λ (s : OverlaySlot). record s { ram = buf' ++ drop len slot.ram } in
        (
          filled OverlayError.storage r buf',
          at_slot slot_idx fill (record m { storage = storage' }),
        )
  ]

  -- After the checksum matched: synchronise, and mark the slot resident.
  unfoldable pub finish : ℕ → OverlayHeader → ℕ → Exec (OverlayManager S B) OverlayError ℕ
  finish module_id header slot_idx = do
    modify (λ m. record m { sync = hook.code_loaded m.sync })
    next_gen ← next_generation
    modify (at_slot slot_idx (mark module_id header next_gen))
    pure slot_idx

  -- After it did not.
  unfoldable pub reject : OverlayHeader → ℕ → ℕ → Exec (OverlayManager S B) OverlayError ℕ
  reject header slot_idx calculated_crc = do
    modify (at_slot slot_idx Slot.evict)
    raise (OverlayError.payload_crc_mismatch header.payload_crc32 calculated_crc)

  -- From the choice of a slot on, for a header that was read.
  unfoldable pub load_into : ℕ → ℕ → OverlayHeader → ℕ → Exec (OverlayManager S B) OverlayError ℕ
  load_into module_id flash_offset header slot_idx = do
    slot ← slot_at slot_idx
    let code_len = header.code_size
    require (not (ltb slot.capacity code_len)) (OverlayError.slot_too_small code_len slot.capacity)
    require (validate_thumb_alignment slot.exec_addr header.entry_offset)
        OverlayError.invalid_alignment
    code_offset ← lift (add_u32 profile flash_offset Overlay.size)
    ram_slice ← read_ram slot_idx code_offset code_len
    let calculated_crc = crc32 ram_slice
    if calculated_crc == header.payload_crc32
        then finish module_id header slot_idx
        else reject header slot_idx calculated_crc

  -- The path for a module that is in no slot.
  unfoldable pub load : ℕ → ℕ → Exec (OverlayManager S B) OverlayError ℕ
  load module_id flash_offset = do
    header_buf ← read_storage flash_offset (replicate Overlay.size 0)
    header ← lift (Overlay.from_bytes header_buf)
    require (header.module_id == module_id) (OverlayError.module_not_found module_id)
    slots ← gets (λ m. m.slots)
    slot_idx ← lift (select_eviction_slot slots)
    load_into module_id flash_offset header slot_idx

  -- The path for a resident module.
  unfoldable pub touch : ℕ → Exec (OverlayManager S B) OverlayError ℕ
  touch slot_idx = do
    gen ← next_generation
    modify (at_slot slot_idx (λ slot. record slot { generation = gen }))
    pure slot_idx

  unfoldable pub ensure_resident : ℕ → ℕ → Exec (OverlayManager S B) OverlayError ℕ
  ensure_resident module_id flash_offset m = elim (find_resident_slot m module_id) [
    | some slot_idx ↦ touch slot_idx m
    | none ↦ load module_id flash_offset m
  ]

  module _ {Args Output : Type 0} (invoke : ℕ → Args → Output) where
    -- On ARM, where the entry point is reached through its Thumb address.
    unfoldable pub call_raw : OverlayManager S B → ℕ → Args → Result OverlayError Output
    call_raw m slot_idx args = elim (get_elem? m.slots slot_idx) [
      | none ↦ err OverlayError.invalid_slot_index
      | some slot ↦ elim slot.resident_module [
        | none ↦ err OverlayError.invalid_slot_index
        | some _ ↦ elim (add_u32 {E = OverlayError} profile slot.exec_addr slot.entry_offset) [
          | ok addr ↦ ok (invoke (make_thumb_entry addr) args)
          | err e ↦ err e
          | panic ↦ panic
        ]
      ]
    ]

    unfoldable pub call_typed : OverlayManager S B → ℕ → ℕ → Args → Result OverlayError Output
    call_typed m module_id slot_idx args = elim (get_elem? m.slots slot_idx) [
      | none ↦ err OverlayError.invalid_slot_index
      | some slot ↦
          if not (Slot.holds slot.resident_module module_id)
          then err (OverlayError.module_not_found module_id)
          else call_raw m slot_idx args
    ]

    unfoldable pub execute : ℕ → ℕ → Args → Exec (OverlayManager S B) OverlayError Output
    execute module_id flash_offset args = do
      slot_idx ← ensure_resident module_id flash_offset
      λ m. (call_typed m module_id slot_idx args, m)
