-- ===== src/Overlay/Sync.antt =====
-- src/overlay/sync.rs: the alignment rules, the Thumb entry address on ARM, and the hook that runs
-- after a load. The barriers and cache registers themselves are the processor's.
use embedded_overlay.Base.{ℕ, ◌%◌, Bool, true, false, not, ◌==◌, if◌then◌else◌, bit_or}

unfoldable pub validate_thumb_alignment : ℕ → ℕ → Bool
validate_thumb_alignment addr entry_offset =
    if not (addr % 4 == 0) then false else if not (entry_offset % 2 == 0) then false else true

unfoldable pub make_thumb_entry : ℕ → ℕ
make_thumb_entry addr = bit_or addr 1

-- The trait `InstructionCacheSync`.
pub record InstructionCacheSync (B : Type 0) : Type 0 where
  pub code_loaded : B → B
