-- ===== src/Tests/Engines.antt =====
-- src/embassy/ on concrete inputs: a flash with a directory of one module.
use embedded_overlay.Base.{
  ℕ, suc, ◌≤◌, List, [], ◌∷◌, ◌++◌, length, replicate, map, none, some, ◌⊎◌, ◌≡◌, refl, arith,
}
use embedded_overlay.Arith.{Profile}
use embedded_overlay.Bytes.{to_le16, to_le32}
use embedded_overlay.Crc.{crc32}
use embedded_overlay.Error.{OverlayError, ok, err}
use embedded_overlay.Exec.{◌>>=◌}
use embedded_overlay.Flash.{Flash}
use embedded_overlay.Flash.Mock.{MockFlash, MockFlashError, mock_flash}
use embedded_overlay.Flash.Mock.Laws.{mock_flash-Serves}
use embedded_overlay.Header.Directory
use embedded_overlay.Header.Entry.{OverlayDirectoryEntry, directory_to_bytes}
use embedded_overlay.Header.Overlay
use embedded_overlay.Overlay.Manager
use embedded_overlay.Overlay.Slot
use embedded_overlay.Overlay.Slot.{OverlaySlot}
use embedded_overlay.Overlay.Manager.{find_resident_slot, select_eviction_slot}
use embedded_overlay.Overlay.Resident.{IsStored}
use embedded_overlay.Engine.{EmbassyOverlayEngine, with_sync, register_module, find_offset, call}
use embedded_overlay.Engine.Registry.{
  updated, updated_all, free_places, register_module-find_offset,
}
use embedded_overlay.Engine.Mount.{mount}
use embedded_overlay.Engine.Discovery.{IsCounted, SameEngine, mount-SameEngine}
use embedded_overlay.Engine.Directory.{IsDirectory, listed, mount-find_offset}
use embedded_overlay.Engine.Calls.{IsCallable, IsCalled, mount-call}
use embedded_overlay.Tests.Managers.{code, header, hook}

abbrev entry : OverlayDirectoryEntry
entry = record { module_id = 7; flash_offset = 48; code_size = 4; crc32 = 0 }

abbrev image : List ℕ
image =
    Directory.to_bytes (Directory.new 1 32 84)
    ++ (directory_to_bytes entry ++ (Overlay.to_bytes header ++ code))

abbrev flash : Flash MockFlash MockFlashError
flash = mock_flash 128 8

abbrev slot : OverlaySlot
slot = Slot.new_raw 0x2000_0000 8 (replicate 8 0)

abbrev engine : EmbassyOverlayEngine MockFlash ℕ
engine = with_sync 2 (record { content = image }) (slot ∷ []) 0

directory : IsDirectory image 0 32 84 (entry ∷ [])
unfolding Directory.to_bytes Directory.new directory_to_bytes Overlay.to_bytes Overlay.new to_le16
    to_le32 crc32
directory = record {
  header = refl;
  inside = omega arith;
  table = (
    record {
      module_id = omega arith;
      flash_offset = omega arith;
      code_size = omega arith;
      crc32 = omega arith;
    },
    refl,
    omega arith,
    tt,
  );
  addressable = omega arith;
  entry_count_lt = omega arith;
  index_offset_lt = omega arith;
  total_bytes_lt = omega arith;
}

stored : IsStored image 48 7 0 0x2000_0000 code
unfolding Directory.to_bytes Directory.new directory_to_bytes Overlay.to_bytes Overlay.new to_le16
    to_le32 crc32
stored = record {
  header = refl;
  payload = refl;
  inside = omega arith;
  addressable = omega arith;
  module_id_lt = omega arith;
  code_size_lt = omega arith;
  entry_offset_lt = omega arith;
  ram_target_addr_lt = omega arith;
}

length-image : length image ≤ 128
unfolding Directory.to_bytes Directory.new directory_to_bytes Overlay.to_bytes Overlay.new to_le16
    to_le32 crc32
length-image = omega arith

callable : IsCallable engine.manager 7 0 code 0 slot
unfolding with_sync Manager.with_sync Slot.new_raw find_resident_slot select_eviction_slot
callable = record {
  missing = refl;
  chosen = refl;
  at = refl;
  roomy = record { room = omega arith; memory = omega arith; aligned = refl; even_entry = refl };
  reachable = omega arith;
}

free : 1 ≤ free_places engine.registry
unfolding with_sync
free = omega arith

content_lem : engine.manager.storage.content ≡ image
unfolding with_sync Manager.with_sync
content_lem = refl

last : updated_all (map listed (entry ∷ [])) 7 (find_offset engine 7) ≡ some 48
unfolding with_sync find_offset
last = refl

mount-find_offset_example :
    (e' : EmbassyOverlayEngine MockFlash ℕ) × (storage' : MockFlash) × (mount Profile.debug flash
        hook 2 0 engine
      ≡ (ok 1, e'))
    × ((id : ℕ)
        → find_offset e' id ≡ updated_all (map listed (entry ∷ [])) id (find_offset engine id))
    × (e'.manager ≡ record engine.manager { storage = storage' })
    × (storage'.content ≡ image)
mount-find_offset_example =
    mount-find_offset Profile.debug flash hook 2 image (λ s. s.content ≡ image)
      (mock_flash-Serves 128 8 image length-image) 0 32 84 (entry ∷ []) engine content_lem directory
      (omega arith) free

mount-SameEngine_example :
    SameEngine engine (mount Profile.debug flash hook 2 0 engine).1
    × IsCounted 2 (mount Profile.debug flash hook 2 0 engine).0
mount-SameEngine_example = mount-SameEngine Profile.debug flash hook 2 engine 0

register_module-find_offset_example :
    ((e' : EmbassyOverlayEngine MockFlash ℕ) × (register_module 9 96 engine ≡ (ok tt, e'))
      × ((id : ℕ) → find_offset e' id ≡ updated 9 96 id (find_offset engine id))
      × (e'.manager ≡ engine.manager)
      × (length e'.registry ≡ length engine.registry)
      × (free_places engine.registry ≤ suc (free_places e'.registry)))
    ⊎ ((register_module 9 96 engine ≡ (err OverlayError.storage, engine))
        × (find_offset engine 9 ≡ none)
        × (free_places engine.registry ≡ 0))
register_module-find_offset_example = register_module-find_offset engine 9 96

abbrev invoke : ℕ → ℕ → ℕ × ℕ
invoke entry_addr argument = (entry_addr, argument)

mount-call_example :
    IsCalled invoke
      (λ s. s.content ≡ image)
      hook
      7
      0
      code
      0
      slot
      5
      engine.manager
      ((mount Profile.debug flash hook 2 0 >>= λ _. call Profile.debug flash hook invoke 7 5)
        engine)
mount-call_example =
    mount-call Profile.debug flash hook invoke image (λ s. s.content ≡ image)
      (mock_flash-Serves 128 8 image length-image) 2 0 32 84 (entry ∷ []) engine 48 7 0 0x2000_0000
      code 0 slot 5 content_lem directory (omega arith) free last stored callable
