-- ===== src/Overlay/Slot.antt =====
-- src/overlay/slot.rs: an execution slot. `ram` stands for the memory from `ram_addr` on, of
-- `capacity` bytes, which the contract of the constructors gives to the slot alone.
use embedded_overlay.Base.{ℕ, List, Bool, true, false, Option, none, some, ◌==◌, length, take}

pub record OverlaySlot : Type 0 where
  pub ram_addr : ℕ
  pub exec_addr : ℕ
  pub capacity : ℕ
  pub resident_module : Option ℕ
  pub entry_offset : ℕ
  pub generation : ℕ
  pub is_pinned : Bool
  pub ram : List ℕ

unfoldable pub new_raw : ℕ → ℕ → List ℕ → OverlaySlot
new_raw ram_addr capacity ram = record {
  ram_addr = ram_addr;
  exec_addr = ram_addr;
  capacity = capacity;
  resident_module = none;
  entry_offset = 0;
  generation = 0;
  is_pinned = false;
  ram = ram;
}

-- The slice lies at `addr`.
unfoldable pub from_static_slice : ℕ → List ℕ → OverlaySlot
from_static_slice addr slice = record {
  ram_addr = addr;
  exec_addr = addr;
  capacity = length slice;
  resident_module = none;
  entry_offset = 0;
  generation = 0;
  is_pinned = false;
  ram = slice;
}

unfoldable pub with_exec_addr : OverlaySlot → ℕ → OverlaySlot
with_exec_addr s exec_addr = record s { exec_addr = exec_addr }

unfoldable pub set_exec_addr : OverlaySlot → ℕ → OverlaySlot
set_exec_addr s exec_addr = record s { exec_addr = exec_addr }

-- `self.resident_module == Some(module_id)`
abbrev pub holds : Option ℕ → ℕ → Bool
holds none module_id = false
holds (some id) module_id = id == module_id

unfoldable pub is_resident : OverlaySlot → ℕ → Bool
is_resident s module_id = holds s.resident_module module_id

unfoldable pub slice_mut : OverlaySlot → ℕ → List ℕ
slice_mut s len = take len s.ram

unfoldable pub evict : OverlaySlot → OverlaySlot
evict s = record s { resident_module = none; entry_offset = 0 }

unfoldable pub pin : OverlaySlot → OverlaySlot
pin s = record s { is_pinned = true }

unfoldable pub unpin : OverlaySlot → OverlaySlot
unpin s = record s { is_pinned = false }
