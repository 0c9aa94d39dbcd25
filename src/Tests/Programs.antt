-- ===== src/Tests/Programs.antt =====
-- overlay-packer/src/main.rs and src/embassy/engine.rs: a program of one section, from packing to call.
use embedded_overlay.Base.{ℕ, ◌≤◌, List, [], ◌∷◌, ◌++◌, length, replicate, some, ◌≡◌, refl, arith}
use embedded_overlay.Arith.{Profile, u32_value}
use embedded_overlay.Bytes.{to_le16, to_le32}
use embedded_overlay.Crc.{crc32, fnv1a_hash}
use embedded_overlay.Engine.{EmbassyOverlayEngine, with_sync, call}
use embedded_overlay.Engine.Calls.{IsCallable, IsCalled}
use embedded_overlay.Engine.Mount.{mount}
use embedded_overlay.Engine.Registry.{free_places}
use embedded_overlay.Error.{ok}
use embedded_overlay.Exec.{◌>>=◌}
use embedded_overlay.Flash.Mock.{MockFlash, mock_flash}
use embedded_overlay.Flash.Mock.Laws.{mock_flash-Serves}
use embedded_overlay.Header.Directory
use embedded_overlay.Header.Entry.{directory_to_bytes}
use embedded_overlay.Header.Overlay
use embedded_overlay.Overlay.Manager
use embedded_overlay.Overlay.Manager.{find_resident_slot, select_eviction_slot}
use embedded_overlay.Overlay.Slot
use embedded_overlay.Overlay.Slot.{OverlaySlot}
use embedded_overlay.Packer.{container}
use embedded_overlay.Packer.Modules.{auto_pack}
use embedded_overlay.Packer.Program.{auto_pack-call}
use embedded_overlay.Tests.Managers.{code, hook}

-- The section `.overlay.a`.
abbrev fn_name : List ℕ
fn_name = b'a' ∷ []

abbrev id : ℕ
id = fnv1a_hash fn_name

abbrev image : List ℕ
image =
    Directory.to_bytes (Directory.new 1 32 84)
    ++ (directory_to_bytes (record {
      module_id = id;
      flash_offset = 48;
      code_size = 4;
      crc32 = crc32 (container id code);
    })
        ++ container id code)

built : auto_pack Profile.debug ((fn_name, code) ∷ []) ≡ ok (some image)
unfolding auto_pack container Directory.to_bytes Directory.new Overlay.to_bytes Overlay.new to_le16
    to_le32 directory_to_bytes fnv1a_hash crc32 ◌>>=◌ u32_value
built = refl

length-image : length image ≤ 128
unfolding Directory.to_bytes Directory.new directory_to_bytes container Overlay.to_bytes Overlay.new
    to_le16 to_le32 crc32
length-image = omega arith

abbrev slot : OverlaySlot
slot = Slot.new_raw 0x2000_0000 8 (replicate 8 0)

abbrev engine : EmbassyOverlayEngine MockFlash ℕ
engine = with_sync 2 (record { content = image }) (slot ∷ []) 0

callable : IsCallable engine.manager id 0 code 0 slot
unfolding with_sync Manager.with_sync Slot.new_raw find_resident_slot select_eviction_slot
callable = record {
  missing = refl;
  chosen = refl;
  at = refl;
  roomy = record { room = omega arith; memory = omega arith; aligned = refl; even_entry = refl };
  reachable = omega arith;
}

free : 1 ≤ free_places engine.registry
unfolding with_sync
free = omega arith

content_lem : engine.manager.storage.content ≡ image
unfolding with_sync Manager.with_sync
content_lem = refl

abbrev invoke : ℕ → ℕ → ℕ × ℕ
invoke entry_addr argument = (entry_addr, argument)

auto_pack-call_example :
    IsCalled invoke
      (λ s. s.content ≡ image)
      hook
      id
      0
      code
      0
      slot
      5
      engine.manager
      ((mount Profile.debug (mock_flash 128 8) hook 2 0 >>= λ _.
          call Profile.debug (mock_flash 128 8) hook invoke id 5)
        engine)
auto_pack-call_example =
    auto_pack-call Profile.debug (mock_flash 128 8) hook invoke image (λ s. s.content ≡ image)
      (mock_flash-Serves 128 8 image length-image) fn_name code [] [] 2 0 engine slot 5 built
      (omega arith) (omega arith) tt content_lem (omega arith) free callable
