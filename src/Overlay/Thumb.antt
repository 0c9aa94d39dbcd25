-- ===== src/Overlay/Thumb.antt =====
-- src/overlay/sync.rs: the Thumb bit of an entry address.
use embedded_overlay.Base.{ℕ, ◌+◌, ◌%◌, ◌≡◌}
use embedded_overlay.Base.Or.{bit_or-one}
use embedded_overlay.Overlay.Sync.{make_thumb_entry}

-- The entry address of code at an even address is the next one.
pub make_thumb_entry-even : (addr : ℕ) → addr % 2 ≡ 0 → make_thumb_entry addr ≡ addr + 1
unfolding make_thumb_entry
make_thumb_entry-even addr even = bit_or-one addr even
