-- ===== src/Overlay/Torn.antt =====
-- What a load leaves behind when the payload cannot be read, or is not the one that was packed.
use embedded_overlay.Base.{
  ℕ, ◌+◌, ◌≤◌, ◌<◌, ◌%◌, ◌^◌, List, ◌++◌, drop, replicate, get_elem?, modify_at,
  modify_at-modify_at, true, false, not, ltb, ◌==◌, if◌then◌else◌, none, some, ◌≡◌, ◌≢◌, refl, ap,
  ◌∙◌, arith,
}
use embedded_overlay.Arith.{Profile, add_u32, u32_value_lem}
use embedded_overlay.Crc.{crc32}
use embedded_overlay.Error.{OverlayError, ok, err}
use embedded_overlay.Exec.{Exec, lift, require, ◌>>=◌, >>=-ok, >>=-err}
use embedded_overlay.Flash.{Flash}
use embedded_overlay.Header.Overlay
use embedded_overlay.Header.Overlay.{OverlayHeader}
use embedded_overlay.Header.Overlay.Laws.{IsSealed}
use embedded_overlay.Overlay.Slot
use embedded_overlay.Overlay.Slot.{OverlaySlot}
use embedded_overlay.Overlay.Sync.{InstructionCacheSync, validate_thumb_alignment}
use embedded_overlay.Overlay.Manager.{
  OverlayManager, find_resident_slot, select_eviction_slot, at_slot, slot_at,
}
use embedded_overlay.Overlay.Load.{read_ram, reject, finish, load_into, ensure_resident}
use embedded_overlay.Overlay.Rules.{fill_ram}
use embedded_overlay.Overlay.Resident.{slot_at_ok, read_ram_ok, ensure_resident_header}

-- A slot that a module with this header fits into.
pub record Admits (s : OverlaySlot) (header : OverlayHeader) : Type 0 where
  pub room : header.code_size ≤ s.capacity
  pub aligned : s.exec_addr % 4 ≡ 0
  pub even_entry : header.entry_offset % 2 ≡ 0

-- The slot after a checksum mismatch.
abbrev pub emptied : List ℕ → OverlaySlot → OverlaySlot
emptied ram s = record s { resident_module = none; entry_offset = 0; ram = ram }

module _ {S E B : Type 0} (profile : Profile) (flash : Flash S E)
    (hook : InstructionCacheSync B) where
  -- Past the guards, `load_into` reads the payload and decides.
  abbrev pub settle : ℕ → OverlayHeader → ℕ → List ℕ → Exec (OverlayManager S B) OverlayError ℕ
  settle module_id header k bytes =
      if crc32 bytes == header.payload_crc32
      then finish profile flash hook module_id header k
      else reject profile flash hook header k (crc32 bytes)

  load_into_guards :
      (module_id flash_offset k : ℕ) (header : OverlayHeader) (s : OverlaySlot)
      (m : OverlayManager S B)
      → get_elem? m.slots k ≡ some s
      → Admits s header
      → flash_offset + Overlay.size < 2 ^ 32
      → load_into profile flash hook module_id flash_offset header k m
        ≡ (read_ram profile flash hook k (flash_offset + Overlay.size) header.code_size
              >>= settle module_id header k)
            m
  unfolding load_into ◌>>=◌ validate_thumb_alignment
  load_into_guards module_id flash_offset k header s m at admits bound =
      let fits : not (ltb s.capacity header.code_size) ≡ true = ground (arith, admits.room) in
      let alignment : validate_thumb_alignment s.exec_addr header.entry_offset ≡ true =
        ground (arith, admits.aligned, admits.even_entry) in
      let sum : add_u32 {E = OverlayError} profile flash_offset Overlay.size
          ≡ ok (flash_offset + Overlay.size) =
        u32_value_lem profile (flash_offset + Overlay.size) bound in
      >>=-ok (slot_at k) _ m (slot_at_ok profile flash hook k s m at)
      ∙ >>=-ok
          (require (not (ltb s.capacity header.code_size))
            (OverlayError.slot_too_small header.code_size s.capacity))
          _ m (ap (λ b. require b (OverlayError.slot_too_small header.code_size s.capacity) m) fits)
      ∙ >>=-ok
          (require (validate_thumb_alignment s.exec_addr header.entry_offset)
            OverlayError.invalid_alignment)
          _ m (ap (λ b. require b OverlayError.invalid_alignment m) alignment)
      ∙ >>=-ok (lift (add_u32 profile flash_offset Overlay.size)) _ m (ap (λ r. (r, m)) sum)

  read_ram_err :
      (k offset len : ℕ) (s : OverlaySlot) (e : E) (buf : List ℕ) (storage' : S)
      (m : OverlayManager S B)
      → get_elem? m.slots k ≡ some s
      → flash.read m.storage offset (Slot.slice_mut s len) ≡ (err e, buf, storage')
      → read_ram profile flash hook k offset len m ≡ (
        err OverlayError.storage,
        at_slot k (fill_ram (buf ++ drop len s.ram)) (record m { storage = storage' }),
      )
  unfolding read_ram
  read_ram_err k offset len s e buf storage' m at h = rw (at, h, read_ram) refl

  reject_ok :
      (header : OverlayHeader) (k crc : ℕ) (m : OverlayManager S B)
      → reject profile flash hook header k crc m
        ≡ (err (OverlayError.payload_crc_mismatch header.payload_crc32 crc), at_slot k Slot.evict m)
  unfolding reject ◌>>=◌
  reject_ok header k crc m = refl

  -- When the header was read and a slot chosen that the module fits into, and then the read of the
  -- payload fails, `ensure_resident` returns a storage error, and changes nothing in the slot but the
  -- memory, which has what the read put there: a module that the slot held before is still marked
  -- resident.
  pub ensure_resident_torn :
      (m : OverlayManager S B) (offset : ℕ) (header : OverlayHeader) (k : ℕ) (s : OverlaySlot)
      (e : E) (buf : List ℕ) (s₁ s₂ : S)
      → flash.read m.storage offset (replicate Overlay.size 0)
        ≡ (ok tt, Overlay.to_bytes header, s₁)
      → IsSealed header
      → find_resident_slot m header.module_id ≡ none
      → select_eviction_slot m.slots ≡ ok k
      → get_elem? m.slots k ≡ some s
      → Admits s header
      → offset + Overlay.size < 2 ^ 32
      → flash.read s₁ (offset + Overlay.size) (Slot.slice_mut s header.code_size) ≡ (err e, buf, s₂)
      → ensure_resident profile flash hook header.module_id offset m ≡ (
        err OverlayError.storage,
        record m {
          storage = s₂;
          slots = modify_at (fill_ram (buf ++ drop header.code_size s.ram)) k m.slots;
        },
      )
  ensure_resident_torn m offset header k s e buf s₁ s₂ read seal missing chosen at admits bound
        failed =
      let m₁ : OverlayManager S B = record m { storage = s₁ } in
      ensure_resident_header profile flash hook m offset header k s₁ read seal missing chosen
      ∙ load_into_guards header.module_id offset k header s m₁ at admits bound
      ∙ >>=-err (read_ram profile flash hook k (offset + Overlay.size) header.code_size) _ m₁
          (read_ram_err k (offset + Overlay.size) header.code_size s e buf s₂ m₁ at failed)

  -- When the header was read and a slot chosen that the module fits into, and the payload that is read
  -- has another checksum than the header says, `ensure_resident` reports both checksums, the slot holds
  -- no module afterwards, the counter and the other slots stay, and the hook does not run.
  pub ensure_resident_mismatch :
      (m : OverlayManager S B) (offset : ℕ) (header : OverlayHeader) (k : ℕ) (s : OverlaySlot)
      (bytes : List ℕ) (s₁ s₂ : S)
      → flash.read m.storage offset (replicate Overlay.size 0)
        ≡ (ok tt, Overlay.to_bytes header, s₁)
      → IsSealed header
      → find_resident_slot m header.module_id ≡ none
      → select_eviction_slot m.slots ≡ ok k
      → get_elem? m.slots k ≡ some s
      → Admits s header
      → offset + Overlay.size < 2 ^ 32
      → flash.read s₁ (offset + Overlay.size) (Slot.slice_mut s header.code_size)
        ≡ (ok tt, bytes, s₂)
      → crc32 bytes ≢ header.payload_crc32
      → ensure_resident profile flash hook header.module_id offset m ≡ (
        err (OverlayError.payload_crc_mismatch header.payload_crc32 (crc32 bytes)),
        record m {
          storage = s₂;
          slots = modify_at (emptied (bytes ++ drop header.code_size s.ram)) k m.slots;
        },
      )
  unfolding Slot.evict
  ensure_resident_mismatch m offset header k s bytes s₁ s₂ read seal missing chosen at admits bound
        payload differs =
      let m₁ : OverlayManager S B = record m { storage = s₁ } in
      let ram = bytes ++ drop header.code_size s.ram in
      let m₂ : OverlayManager S B = record m {
        storage = s₂;
        slots = modify_at (fill_ram ram) k m.slots;
      } in
      let other : (crc32 bytes == header.payload_crc32) ≡ false = ground arith in
      let both = modify_at-modify_at Slot.evict (fill_ram ram) k m.slots in
      let rejected : settle header.module_id header k bytes m₂
          ≡ reject profile flash hook header k (crc32 bytes) m₂ =
        ap
          (λ b.
            (if b
                then finish profile flash hook header.module_id header k
                else reject profile flash hook header k (crc32 bytes))
              m₂)
          other in
      ensure_resident_header profile flash hook m offset header k s₁ read seal missing chosen
      ∙ load_into_guards header.module_id offset k header s m₁ at admits bound
      ∙ >>=-ok (read_ram profile flash hook k (offset + Overlay.size) header.code_size)
          (settle header.module_id header k) m₁
          (read_ram_ok profile flash hook k (offset + Overlay.size) header.code_size s bytes s₂ m₁
            at payload)
      ∙ rejected
      ∙ reject_ok header k (crc32 bytes) m₂
      ∙ ap
          (λ slots. (
            err (OverlayError.payload_crc_mismatch header.payload_crc32 (crc32 bytes)),
            record m₂ { slots = slots },
          ))
          both
