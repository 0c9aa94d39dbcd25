-- ===== src/Overlay/Resident.antt =====
-- The run of `ensure_resident` on a module that is stored in flash, from the first read to the marked
-- slot.
use embedded_overlay.Base.{
  ℕ, ◌+◌, ◌≤◌, ◌<◌, ◌%◌, ◌^◌, List, [], ◌++◌, length, slice, take, drop, length-take, replicate,
  get_elem?, modify_at, length-replicate, modify_at-modify_at, true, not, ltb, ◌==◌, none, some,
  ◌≡◌, refl, sym, ap, ◌∙◌, arith, ==_iff,
}
use mathlib.Core.List.{append-nil}
use embedded_overlay.Arith.{Profile, add_u32, u32_value_lem}
use embedded_overlay.Crc.{crc32}
use embedded_overlay.Crc.Detect.{crc32-lt}
use embedded_overlay.Error.{OverlayError, ok}
use embedded_overlay.Exec.{lift, require, ◌>>=◌, >>=-ok}
use embedded_overlay.Flash.{Flash, Serves, filled}
use embedded_overlay.Header.Overlay
use embedded_overlay.Header.Overlay.{OverlayHeader}
use embedded_overlay.Header.Overlay.Laws.{IsSealed, from_bytes-to_bytes, new-IsSealed}
use embedded_overlay.Overlay.Slot
use embedded_overlay.Overlay.Slot.{OverlaySlot}
use embedded_overlay.Overlay.Sync.{InstructionCacheSync, validate_thumb_alignment}
use embedded_overlay.Overlay.Manager.{
  OverlayManager, find_resident_slot, select_eviction_slot, at_slot, next_generation, slot_at,
}
use embedded_overlay.Overlay.Load.{
  mark, read_storage, read_ram, finish, load_into, load, ensure_resident,
}
use embedded_overlay.Overlay.Rules.{fill_ram, next}

-- `image` has at `offset` the container of a module: its header, and then its code.
pub record IsStored (image : List ℕ) (offset module_id entry_offset ram_target_addr : ℕ)
    (code : List ℕ) : Type 0 where
  pub header :
      slice offset Overlay.size image
      ≡ Overlay.to_bytes
          (Overlay.new module_id (length code) entry_offset ram_target_addr (crc32 code))
  pub payload : slice (offset + Overlay.size) (length code) image ≡ code
  pub inside : offset + Overlay.size + length code ≤ length image
  pub addressable : offset + Overlay.size < 2 ^ 32
  pub module_id_lt : module_id < 2 ^ 32
  pub code_size_lt : length code < 2 ^ 32
  pub entry_offset_lt : entry_offset < 2 ^ 32
  pub ram_target_addr_lt : ram_target_addr < 2 ^ 32

-- A slot that a module of that code and entry point fits into.
pub record IsRoomy (s : OverlaySlot) (entry_offset : ℕ) (code : List ℕ) : Type 0 where
  pub room : length code ≤ s.capacity
  pub memory : length code ≤ length s.ram
  pub aligned : s.exec_addr % 4 ≡ 0
  pub even_entry : entry_offset % 2 ≡ 0

-- The slot with the module in it, and `ram` in its memory.
abbrev pub with_module : ℕ → ℕ → List ℕ → ℕ → OverlaySlot → OverlaySlot
with_module module_id entry_offset ram gen s = record s {
  resident_module = some module_id;
  entry_offset = entry_offset;
  generation = gen;
  ram = ram;
}

module _ {S E B : Type 0} (profile : Profile) (flash : Flash S E)
    (hook : InstructionCacheSync B) where
  pub read_storage_ok :
      (offset : ℕ) (buf buf' : List ℕ) (storage' : S) (m : OverlayManager S B)
      → flash.read m.storage offset buf ≡ (ok tt, buf', storage')
      → read_storage profile flash hook offset buf m ≡ (ok buf', record m { storage = storage' })
  unfolding read_storage
  read_storage_ok offset buf buf' storage' m e =
      ap (λ (r, b, t). (filled OverlayError.storage r b, record m { storage = t })) e

  pub read_ram_ok :
      (k offset len : ℕ) (s : OverlaySlot) (buf' : List ℕ) (storage' : S) (m : OverlayManager S B)
      → get_elem? m.slots k ≡ some s
      → flash.read m.storage offset (Slot.slice_mut s len) ≡ (ok tt, buf', storage')
      → read_ram profile flash hook k offset len m
        ≡ (ok buf', at_slot k (fill_ram (buf' ++ drop len s.ram)) (record m { storage = storage' }))
  unfolding read_ram
  read_ram_ok k offset len s buf' storage' m at e = rw (at, e, read_ram) refl

  pub slot_at_ok :
      (k : ℕ) (s : OverlaySlot) (m : OverlayManager S B)
      → get_elem? m.slots k ≡ some s
      → slot_at k m ≡ (ok s, m)
  unfolding slot_at
  slot_at_ok k s m at = rw (at, slot_at) refl

  pub finish_ok :
      (module_id : ℕ) (header : OverlayHeader) (k : ℕ) (m : OverlayManager S B)
      → finish profile flash hook module_id header k m ≡ (
        ok k,
        record m {
          slots = modify_at (mark module_id header (next m.lru_counter)) k m.slots;
          lru_counter = next m.lru_counter;
          sync = hook.code_loaded m.sync;
        },
      )
  unfolding finish ◌>>=◌ next_generation
  finish_ok module_id header k m = refl

  pub load_into_ok :
      (module_id flash_offset k : ℕ) (header : OverlayHeader) (s : OverlaySlot) (code : List ℕ)
      (storage' : S) (m : OverlayManager S B)
      → get_elem? m.slots k ≡ some s
      → header.code_size ≡ length code
      → header.payload_crc32 ≡ crc32 code
      → IsRoomy s header.entry_offset code
      → flash_offset + Overlay.size < 2 ^ 32
      → flash.read m.storage (flash_offset + Overlay.size) (Slot.slice_mut s (length code))
        ≡ (ok tt, code, storage')
      → load_into profile flash hook module_id flash_offset header k m ≡ (
        ok k,
        record {
          storage = storage';
          slots =
              modify_at
                (with_module module_id header.entry_offset
                  (code ++ drop (length code) s.ram)
                  (next m.lru_counter))
                k
                m.slots;
          lru_counter = next m.lru_counter;
          sync = hook.code_loaded m.sync;
        },
      )
  unfolding load_into ◌>>=◌ Slot.slice_mut validate_thumb_alignment
  load_into_ok module_id flash_offset k header s code storage' m at size_eq crc_eq roomy bound e =
      let fits : not (ltb s.capacity header.code_size) ≡ true =
        ground (arith, roomy.room, size_eq) in
      let alignment : validate_thumb_alignment s.exec_addr header.entry_offset ≡ true =
        ground (arith, roomy.aligned, roomy.even_entry) in
      let matching : (crc32 code == header.payload_crc32) ≡ true = (==_iff _ _).1 (sym crc_eq) in
      let sum : add_u32 {E = OverlayError} profile flash_offset Overlay.size
          ≡ ok (flash_offset + Overlay.size) =
        u32_value_lem profile (flash_offset + Overlay.size) bound in
      let reading =
        read_ram_ok k (flash_offset + Overlay.size) (length code) s code storage' m at e in
      let filling =
        modify_at-modify_at (mark module_id header (next m.lru_counter))
          (fill_ram (code ++ drop (length code) s.ram)) k m.slots in
      let resized : read_ram profile flash hook k (flash_offset + Overlay.size) header.code_size m
          ≡ _ =
        ap (λ n. read_ram profile flash hook k (flash_offset + Overlay.size) n m) size_eq
        ∙ reading in
      >>=-ok (slot_at k) _ m (slot_at_ok k s m at)
      ∙ >>=-ok
          (require (not (ltb s.capacity header.code_size))
            (OverlayError.slot_too_small header.code_size s.capacity))
          _ m (ap (λ b. require b (OverlayError.slot_too_small header.code_size s.capacity) m) fits)
      ∙ >>=-ok
          (require (validate_thumb_alignment s.exec_addr header.entry_offset)
            OverlayError.invalid_alignment)
          _ m (ap (λ b. require b OverlayError.invalid_alignment m) alignment)
      ∙ >>=-ok (lift (add_u32 profile flash_offset Overlay.size)) _ m (ap (λ r. (r, m)) sum)
      ∙ >>=-ok (read_ram profile flash hook k (flash_offset + Overlay.size) header.code_size) _ m
          resized
      ∙ rw (matching, finish_ok, filling) refl

  -- As far as the choice of a slot.
  pub ensure_resident_header :
      (m : OverlayManager S B) (offset : ℕ) (header : OverlayHeader) (k : ℕ) (storage' : S)
      → flash.read m.storage offset (replicate Overlay.size 0)
        ≡ (ok tt, Overlay.to_bytes header, storage')
      → IsSealed header
      → find_resident_slot m header.module_id ≡ none
      → select_eviction_slot m.slots ≡ ok k
      → ensure_resident profile flash hook header.module_id offset m
        ≡ load_into profile flash hook header.module_id offset header k
            (record m { storage = storage' })
  unfolding ensure_resident load ◌>>=◌
  ensure_resident_header m offset header k s₁ read seal missing chosen =
      let zeros : List ℕ = replicate Overlay.size 0 in
      let module_id = header.module_id in
      let m₁ : OverlayManager S B = record m { storage = s₁ } in
      let parsed : Overlay.from_bytes (Overlay.to_bytes header) ≡ ok header =
        ap Overlay.from_bytes (sym (append-nil (Overlay.to_bytes header)))
        ∙ from_bytes-to_bytes header [] seal in
      rw (missing, ensure_resident)
        (>>=-ok (read_storage profile flash hook offset zeros) _ m
            (read_storage_ok offset zeros (Overlay.to_bytes header) s₁ m read)
          ∙ >>=-ok (lift (Overlay.from_bytes (Overlay.to_bytes header))) _ m₁
              (ap (λ r. (r, m₁)) parsed)
          ∙ >>=-ok
              (require (header.module_id == module_id) (OverlayError.module_not_found module_id)) _
              m₁
              (ap (λ b. require b (OverlayError.module_not_found module_id) m₁)
                ((==_iff module_id module_id).1 refl))
          ∙ >>=-ok (lift (select_eviction_slot m.slots))
              (load_into profile flash hook module_id offset header) m₁ (ap (λ r. (r, m₁)) chosen))

  -- On a flash that serves an image with the container of a module at `offset`, `ensure_resident`
  -- succeeds for a module that is in no slot, when the slot that `select_eviction_slot` chooses is large
  -- enough and aligned and the entry point is even. It returns that slot, which then has exactly the code
  -- of the module at the start of its memory, holds the module with its entry point, and has the next
  -- generation; every other slot stays; the hook ran once; and the flash still serves the image.
  pub ensure_resident-IsStored :
      (image : List ℕ) (Holds : S → Type 0)
      → Serves flash image Holds
      → (m : OverlayManager S B) (offset module_id entry_offset ram_target_addr : ℕ) (code : List ℕ)
        (k : ℕ) (s : OverlaySlot)
      → Holds m.storage
      → IsStored image offset module_id entry_offset ram_target_addr code
      → find_resident_slot m module_id ≡ none
      → select_eviction_slot m.slots ≡ ok k
      → get_elem? m.slots k ≡ some s
      → IsRoomy s entry_offset code
      → (storage' : S) × (ensure_resident profile flash hook module_id offset m ≡ (
        ok k,
        record {
          storage = storage';
          slots =
              modify_at
                (with_module module_id entry_offset
                  (code ++ drop (length code) s.ram)
                  (next m.lru_counter))
                k
                m.slots;
          lru_counter = next m.lru_counter;
          sync = hook.code_loaded m.sync;
        },
      ))
        × Holds storage'
  unfolding Slot.slice_mut Overlay.new
  ensure_resident-IsStored image Holds serves m offset module_id entry_offset ram_target_addr code k
        s holds stored missing chosen at roomy =
      let header = Overlay.new module_id (length code) entry_offset ram_target_addr (crc32 code) in
      let zeros : List ℕ = replicate Overlay.size 0 in
      let (s₁, read₁, holds₁) =
        serves.read_lem m.storage offset zeros holds
          (omega (arith, length-replicate {A = ℕ} Overlay.size 0, stored.inside)) in
      let m₁ : OverlayManager S B = record m { storage = s₁ } in
      let span : length (take (length code) s.ram) ≡ length code =
        omega (arith, length-take (length code) s.ram, roomy.memory) in
      let (s₂, read₂, holds₂) =
        serves.read_lem s₁ (offset + Overlay.size) (Slot.slice_mut s (length code)) holds₁
          (omega (arith, span, stored.inside)) in
      let filled_zeros : slice offset (length zeros) image ≡ Overlay.to_bytes header =
        ap (λ n. slice offset n image) (length-replicate {A = ℕ} Overlay.size 0) ∙ stored.header in
      let filled_slot : slice (offset + Overlay.size) (length (take (length code) s.ram)) image
          ≡ code =
        ap (λ n. slice (offset + Overlay.size) n image) span ∙ stored.payload in
      let seal =
        new-IsSealed module_id (length code) entry_offset ram_target_addr (crc32 code)
          stored.module_id_lt stored.code_size_lt stored.entry_offset_lt stored.ram_target_addr_lt
          (crc32-lt code) in
      (
        s₂,
        ensure_resident_header m offset header k s₁ (read₁ ∙ ap (λ b. (ok tt, b, s₁)) filled_zeros)
              seal missing chosen
            ∙ load_into_ok module_id offset k header s code s₂ m₁ at refl refl roomy
                stored.addressable (read₂ ∙ ap (λ b. (ok tt, b, s₂)) filled_slot),
        holds₂,
      )
