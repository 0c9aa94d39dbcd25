-- ===== src/Overlay/Buffer.antt =====
-- src/embassy/slots.rs: slots in static buffers. A buffer is aligned to 16 bytes; the address at which the
-- linker puts it is an argument.
use embedded_overlay.Base.{ℕ, ◌%◌, ◌≤◌, List, length, length-replicate, replicate, ◌≡◌, arith}
use embedded_overlay.Overlay.Resident.{IsRoomy}
use embedded_overlay.Overlay.Slot
use embedded_overlay.Overlay.Slot.{OverlaySlot}

pub record AlignedSlotBuffer : Type 0 where
  pub content : List ℕ

unfoldable pub new : ℕ → AlignedSlotBuffer
new n = record { content = replicate n 0 }

unfoldable pub init_slot_from_cell : ℕ → ℕ → OverlaySlot
unfolding new Slot.from_static_slice
init_slot_from_cell size addr = let buf = new size in Slot.from_static_slice addr buf.content

-- A slot in an aligned buffer has room for every module that is no longer than the buffer and whose
-- entry point is even.
pub init_slot_from_cell-IsRoomy :
    (size addr entry_offset : ℕ) (code : List ℕ)
    → addr % 16 ≡ 0
    → length code ≤ size
    → entry_offset % 2 ≡ 0
    → IsRoomy (init_slot_from_cell size addr) entry_offset code
unfolding init_slot_from_cell
init_slot_from_cell-IsRoomy size addr entry_offset code aligned fits even =
    let long = length-replicate {A = ℕ} size 0 in
    record {
      room = omega (arith, long);
      memory = omega (arith, long);
      aligned = omega arith;
      even_entry = even;
    }
