-- ===== src/Tests/Failures.antt =====
-- src/overlay/mod.rs: a load whose payload cannot be read, or has another checksum.
use embedded_overlay.Base.{
  ℕ, ◌+◌, List, [], ◌∷◌, ◌++◌, drop, replicate, modify_at, false, ◌==◌, if◌then◌else◌, none, some,
  ◌≡◌, ◌≢◌, refl, arith,
}
use embedded_overlay.Arith.{Profile}
use embedded_overlay.Crc.{crc32}
use embedded_overlay.Crc.Detect.{crc32-lt}
use embedded_overlay.Error.{OverlayError, Result, ok, err}
use embedded_overlay.Flash.{Flash}
use embedded_overlay.Header.Overlay
use embedded_overlay.Header.Overlay.{OverlayHeader}
use embedded_overlay.Header.Overlay.Laws.{IsSealed, new-IsSealed}
use embedded_overlay.Overlay.Slot.{OverlaySlot}
use embedded_overlay.Overlay.Manager.{OverlayManager, find_resident_slot, select_eviction_slot}
use embedded_overlay.Overlay.Load.{ensure_resident}
use embedded_overlay.Overlay.Rules.{fill_ram}
use embedded_overlay.Overlay.Torn.{Admits, emptied, ensure_resident_torn, ensure_resident_mismatch}
use embedded_overlay.Tests.Managers.{code, header, hook}

-- A device that hands out the header once, and then `payload`.
abbrev device : Result (Unit {0}) (Unit {0}) × List ℕ → Flash ℕ (Unit {0})
device payload = record {
  read = λ s offset buf.
      if s == 0 then (ok tt, Overlay.to_bytes header, 1) else (payload.0, payload.1, s + 1);
  capacity = λ s. 64;
  erase = λ s from to. (ok tt, s);
  write = λ s offset bytes. (ok tt, s);
}

-- A slot with the module 3 in it.
abbrev busy_slot : OverlaySlot
busy_slot = record {
  ram_addr = 0x2000_0000;
  exec_addr = 0x2000_0000;
  capacity = 8;
  resident_module = some 3;
  entry_offset = 0;
  generation = 1;
  is_pinned = false;
  ram = replicate 8 0x33;
}

abbrev busy_manager : OverlayManager ℕ ℕ
busy_manager = record { storage = 0; slots = busy_slot ∷ []; lru_counter = 1; sync = 0 }

header-IsSealed : IsSealed header
header-IsSealed =
    new-IsSealed 7 4 0 0x2000_0000 (crc32 code) (omega arith) (omega arith) (omega arith)
      (omega arith) (crc32-lt code)

busy_missing : find_resident_slot busy_manager header.module_id ≡ none
unfolding find_resident_slot Overlay.new
busy_missing = refl

busy_chosen : select_eviction_slot busy_manager.slots ≡ ok 0
unfolding select_eviction_slot
busy_chosen = refl

busy-Admits : Admits busy_slot header
unfolding Overlay.new
busy-Admits = record { room = omega arith; aligned = refl; even_entry = refl }

ensure_resident_torn_example :
    ensure_resident Profile.debug
      (device (err tt, 1 ∷ 2 ∷ 0 ∷ 0 ∷ []))
      hook
      header.module_id
      0
      busy_manager
    ≡ (
      err OverlayError.storage,
      record busy_manager {
        storage = 2;
        slots =
            modify_at
              (fill_ram ((1 ∷ 2 ∷ 0 ∷ 0 ∷ []) ++ drop header.code_size busy_slot.ram))
              0
              busy_manager.slots;
      },
    )
ensure_resident_torn_example =
    ensure_resident_torn Profile.debug (device (err tt, 1 ∷ 2 ∷ 0 ∷ 0 ∷ [])) hook busy_manager 0
      header 0 busy_slot tt (1 ∷ 2 ∷ 0 ∷ 0 ∷ []) 1 2 refl header-IsSealed busy_missing busy_chosen
      refl busy-Admits (omega arith) refl

payload_differs : crc32 (1 ∷ 2 ∷ 3 ∷ 4 ∷ []) ≢ header.payload_crc32
unfolding Overlay.new crc32
payload_differs = omega arith

ensure_resident_mismatch_example :
    ensure_resident Profile.debug
      (device (ok tt, 1 ∷ 2 ∷ 3 ∷ 4 ∷ []))
      hook
      header.module_id
      0
      busy_manager
    ≡ (
      err (OverlayError.payload_crc_mismatch header.payload_crc32 (crc32 (1 ∷ 2 ∷ 3 ∷ 4 ∷ []))),
      record busy_manager {
        storage = 2;
        slots =
            modify_at
              (emptied ((1 ∷ 2 ∷ 3 ∷ 4 ∷ []) ++ drop header.code_size busy_slot.ram))
              0
              busy_manager.slots;
      },
    )
ensure_resident_mismatch_example =
    ensure_resident_mismatch Profile.debug (device (ok tt, 1 ∷ 2 ∷ 3 ∷ 4 ∷ [])) hook busy_manager 0
      header 0 busy_slot (1 ∷ 2 ∷ 3 ∷ 4 ∷ []) 1 2 refl header-IsSealed busy_missing busy_chosen refl
      busy-Admits (omega arith) refl payload_differs
