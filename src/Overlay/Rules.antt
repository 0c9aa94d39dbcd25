-- ===== src/Overlay/Rules.antt =====
-- One rule for `ensure_resident`: what has to be shown of the three ways in which it changes a slot,
-- for a property of the slots and the counter to hold afterwards, whatever the outcome.
use embedded_overlay.Base.{
  ℕ, ◌+◌, ◌%◌, ◌^◌, List, ◌==◌, ◌++◌, drop, get_elem?, modify_at, Option, none, some, ◌≡◌, inl, inr,
  refl, sym, ap, ◌∙◌, Option-cases,
}
use embedded_overlay.Arith.{Profile}
use embedded_overlay.Crc.{crc32}
use embedded_overlay.Error.{OverlayError, Result, ok, err, panic}
use embedded_overlay.Exec.{modify, ◌>>=◌}
use embedded_overlay.Exec.Triple.{
  Post, Triple, Triple-pure, Triple-raise, Triple-lift, Triple-gets, Triple-modify, Triple-require,
  Triple-if, Triple-bind,
}
use embedded_overlay.Flash.{Flash, filled}
use embedded_overlay.Header.Overlay.{OverlayHeader}
use embedded_overlay.Overlay.Slot
use embedded_overlay.Overlay.Slot.{OverlaySlot}
use embedded_overlay.Overlay.Sync.{InstructionCacheSync}
use embedded_overlay.Overlay.Manager.{
  OverlayManager, find_from, find_resident_slot, select_eviction_slot, at_slot, next_generation,
  slot_at,
}
use embedded_overlay.Overlay.Load.{
  mark, read_storage, read_ram, finish, reject, load_into, load, touch, ensure_resident,
}

abbrev pub fill_ram : List ℕ → OverlaySlot → OverlaySlot
fill_ram ram s = record s { ram = ram }

abbrev pub set_generation : ℕ → OverlaySlot → OverlaySlot
set_generation gen s = record s { generation = gen }

-- The next value of the counter.
abbrev pub next : ℕ → ℕ
next c = (c + 1) % 2 ^ 64

module _ {S E B : Type 0} (profile : Profile) (flash : Flash S E) (hook : InstructionCacheSync B)
    (I : List OverlaySlot → ℕ → Type 0) where
  abbrev Keeps : OverlayManager S B → Type 0
  Keeps m = I m.slots m.lru_counter

  result-Post :
      (r : Result E (Unit {0})) (buf : List ℕ) (m : OverlayManager S B)
      → Keeps m
      → Post (λ _. Keeps) Keeps (filled OverlayError.storage r buf) m
  result-Post (ok _) buf m h = h
  result-Post (err _) buf m h = h
  result-Post panic buf m h = h

  read_storage_rule :
      (offset : ℕ) (buf : List ℕ)
      → Triple Keeps (read_storage profile flash hook offset buf) (λ _. Keeps) Keeps
  unfolding read_storage
  read_storage_rule offset buf = record {
    at = λ m h.
        let (r, buf', storage') = flash.read m.storage offset buf in
        result-Post r buf' (record m { storage = storage' }) h;
  }

  slot_at_rule : (k : ℕ) → Triple Keeps (slot_at k) (λ _. Keeps) Keeps
  unfolding slot_at
  slot_at_rule k = record { at = λ m h. go m (get_elem? m.slots k) refl h }
    where
      go :
          (m : OverlayManager S B) (o : Option OverlaySlot)
          → get_elem? m.slots k ≡ o
          → Keeps m
          → Post (λ _. Keeps) Keeps (slot_at k m).0 (slot_at k m).1
      go m none e h = rw (e, slot_at) h
      go m (some s) e h = rw (e, slot_at) h

  module _ (k : ℕ)
      (fills : (ram : List ℕ) (slots : List OverlaySlot) (c : ℕ)
        → I slots c
        → I (modify_at (fill_ram ram) k slots) c)
      (evicts : (slots : List OverlaySlot) (c : ℕ)
        → I slots c
        → I (modify_at Slot.evict k slots) c) where
    read_ram_rule :
        (offset len : ℕ)
        → Triple Keeps (read_ram profile flash hook k offset len) (λ _. Keeps) Keeps
    unfolding read_ram
    read_ram_rule offset len = record { at = λ m h. go m (get_elem? m.slots k) refl h }
      where
        go :
            (m : OverlayManager S B) (o : Option OverlaySlot)
            → get_elem? m.slots k ≡ o
            → Keeps m
            → Post
                (λ _. Keeps)
                Keeps
                (read_ram profile flash hook k offset len m).0
                (read_ram profile flash hook k offset len m).1
        go m none e h = rw (e, read_ram) h
        go m (some s) e h =
            rw (e, read_ram)
              (let (r, buf', storage') = flash.read m.storage offset (Slot.slice_mut s len) in
                let ram = buf' ++ drop len s.ram in
                result-Post r buf' (at_slot k (fill_ram ram) (record m { storage = storage' }))
                  (fills ram m.slots m.lru_counter h))

    module _ (J : ℕ → List OverlaySlot → ℕ → Type 0) (module_id : ℕ)
        (marks : (header : OverlayHeader) (slots : List OverlaySlot) (c : ℕ)
          → I slots c
          → J k (modify_at (mark module_id header (next c)) k slots) (next c)) where
      abbrev Loaded : ℕ → OverlayManager S B → Type 0
      Loaded i m = J i m.slots m.lru_counter

      abbrev Numbered : OverlayHeader → ℕ → OverlayManager S B → Type 0
      Numbered header gen m = J k (modify_at (mark module_id header gen) k m.slots) m.lru_counter

      next_generation_rule :
          (header : OverlayHeader) → Triple Keeps next_generation (Numbered header) Keeps
      unfolding next_generation
      next_generation_rule header = record { at = λ m h. marks header m.slots m.lru_counter h }

      finish_rule :
          (header : OverlayHeader)
          → Triple Keeps (finish profile flash hook module_id header k) Loaded Keeps
      unfolding finish
      finish_rule header =
          Triple-bind (λ _. Keeps) (modify (λ m. record m { sync = hook.code_loaded m.sync })) _
            Loaded (Triple-modify _ (λ _. Keeps) (λ m h. h))
            λ _. Triple-bind (Numbered header) _ _ Loaded (next_generation_rule header) λ gen.
              Triple-bind (λ _. Loaded k) (modify (at_slot k (mark module_id header gen))) _ Loaded
                (Triple-modify _ (λ _. Loaded k) (λ m h. h)) λ _. Triple-pure k Loaded (λ m h. h)

      reject_rule :
          (header : OverlayHeader) (crc : ℕ)
          → Triple Keeps (reject profile flash hook header k crc) Loaded Keeps
      unfolding reject
      reject_rule header crc =
          Triple-bind (λ _. Keeps) (modify (at_slot k Slot.evict)) _ Loaded
            (Triple-modify _ (λ _. Keeps) (λ m h. evicts m.slots m.lru_counter h))
            λ _. Triple-raise _ Loaded (λ m h. h)

      pub load_into_rule :
          (flash_offset : ℕ) (header : OverlayHeader)
          → Triple Keeps (load_into profile flash hook module_id flash_offset header k) Loaded Keeps
      unfolding load_into
      load_into_rule flash_offset header =
          Triple-bind (λ _. Keeps) _ _ Loaded (slot_at_rule k)
            λ slot.
              Triple-bind (λ _. Keeps) _ _ Loaded
                (Triple-require _ _ (λ _. Keeps) (λ m h _. h) (λ m h. h))
                λ _.
                  Triple-bind (λ _. Keeps) _ _ Loaded
                    (Triple-require _ _ (λ _. Keeps) (λ m h _. h) (λ m h. h))
                    λ _.
                      Triple-bind (λ _. Keeps) _ _ Loaded
                        (Triple-lift _ (λ _. Keeps) (λ a m h _. h) (λ m h. h))
                        λ code_offset.
                          Triple-bind (λ _. Keeps) _ _ Loaded
                            (read_ram_rule code_offset header.code_size)
                            λ ram_slice.
                              Triple-if (crc32 ram_slice == header.payload_crc32) _ _ Loaded
                                (λ _. finish_rule header)
                                (λ _. reject_rule header (crc32 ram_slice))

  -- `I` is what every outcome keeps, `J` what success gives. The slot that is filled, evicted and
  -- marked is a chosen one; a resident module only gets a new generation.
  module _ (J : ℕ → List OverlaySlot → ℕ → Type 0) (module_id : ℕ) (slots₀ : List OverlaySlot)
      (fills : (k : ℕ) (ram : List ℕ) (slots : List OverlaySlot) (c : ℕ)
        → select_eviction_slot slots₀ ≡ ok k
        → I slots c
        → I (modify_at (fill_ram ram) k slots) c)
      (evicts : (k : ℕ) (slots : List OverlaySlot) (c : ℕ)
        → select_eviction_slot slots₀ ≡ ok k
        → I slots c
        → I (modify_at Slot.evict k slots) c)
      (marks : (k : ℕ) (header : OverlayHeader) (slots : List OverlaySlot) (c : ℕ)
        → select_eviction_slot slots₀ ≡ ok k
        → I slots c
        → J k (modify_at (mark module_id header (next c)) k slots) (next c)) where
    abbrev Initial : OverlayManager S B → Type 0
    Initial m = I m.slots m.lru_counter × (m.slots ≡ slots₀)

    abbrev Final : ℕ → OverlayManager S B → Type 0
    Final i m = J i m.slots m.lru_counter

    read_header_rule :
        (offset : ℕ) (buf : List ℕ)
        → Triple Initial (read_storage profile flash hook offset buf) (λ _. Initial) Keeps
    unfolding read_storage
    read_header_rule offset buf = record {
      at = λ m h.
          header_post (flash.read m.storage offset buf).0 (flash.read m.storage offset buf).1
            (record m { storage = (flash.read m.storage offset buf).2 }) h;
    }
      where
        header_post :
            (r : Result E (Unit {0})) (buf : List ℕ) (m : OverlayManager S B)
            → Initial m
            → Post (λ _. Initial) Keeps (filled OverlayError.storage r buf) m
        header_post (ok _) buf m h = h
        header_post (err _) buf m h = h.0
        header_post panic buf m h = h.0

    pub load_rule :
        (flash_offset : ℕ)
        → Triple Initial (load profile flash hook module_id flash_offset) Final Keeps
    unfolding load
    load_rule flash_offset =
        Triple-bind (λ _. Initial) _ _ Final (read_header_rule flash_offset _)
          λ header_buf.
            Triple-bind (λ _. Initial) _ _ Final
              (Triple-lift _ (λ _. Initial) (λ a m h _. h) (λ m h. h.0))
              λ header.
                Triple-bind (λ _. Initial) _ _ Final
                  (Triple-require _ _ (λ _. Initial) (λ m h _. h) (λ m h. h.0))
                  λ _.
                    Triple-bind (λ slots m. Keeps m × (slots ≡ slots₀)) _ _ Final
                      (Triple-gets _ (λ slots m. Keeps m × (slots ≡ slots₀)) (λ m h. h))
                      λ slots.
                        Triple-bind (λ k m. Keeps m × (select_eviction_slot slots₀ ≡ ok k)) _ _
                          Final
                          (Triple-lift _ (λ k m. Keeps m × (select_eviction_slot slots₀ ≡ ok k))
                            (λ k m h e. (h.0, ap select_eviction_slot (sym h.1) ∙ e)) (λ m h. h.0))
                          λ k. record {
                            at = λ m h.
                                (load_into_rule k (λ ram slots c. fills k ram slots c h.1)
                                    (λ slots c. evicts k slots c h.1) J module_id
                                    (λ header slots c. marks k header slots c h.1) flash_offset
                                    header).at
                                  m h.0;
                          }

    -- The whole of `ensure_resident`, from the slots `slots₀`.
    pub ensure_resident_rule :
        (m : OverlayManager S B) (flash_offset : ℕ)
        → m.slots ≡ slots₀
        → ((k : ℕ)
            → find_from 0 slots₀ module_id ≡ some k
            → J k (modify_at (set_generation (next m.lru_counter)) k m.slots) (next m.lru_counter))
        → (find_from 0 slots₀ module_id ≡ none → I m.slots m.lru_counter)
        → Post Final Keeps
            (ensure_resident profile flash hook module_id flash_offset m).0
            (ensure_resident profile flash hook module_id flash_offset m).1
    unfolding ensure_resident find_resident_slot touch ◌>>=◌ next_generation
    ensure_resident_rule m flash_offset same touches begins =
        elim (Option-cases (find_from 0 m.slots module_id)) [
          | inl missing ↦
              rw (missing, ensure_resident)
                ((load_rule flash_offset).at m
                  (begins (ap (λ t. find_from 0 t module_id) (sym same) ∙ missing), same))
          | inr (k, found) ↦
              rw (found, ensure_resident)
                (touches k (ap (λ t. find_from 0 t module_id) (sym same) ∙ found))
        ]
