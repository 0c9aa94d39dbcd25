-- ===== src/Bootloader.antt =====
-- bootloader/src/main.rs: the test of the application's vector table, and what the bootloader does then.
-- `read_volatile` gives the word at an address.
use embedded_overlay.Base.{
  ℕ, ◌+◌, ◌%◌, ◌≤◌, Bool, true, false, not, ◌||◌, ◌==◌, ltb, if◌then◌else◌, Bool-cases, ◌≡◌, ◌⊎◌,
  inl, inr, refl, arith,
}

abbrev pub app_start_addr : ℕ
app_start_addr = 0x0801_0000

abbrev pub ram_start : ℕ
ram_start = 0x2000_0000

abbrev pub ram_end : ℕ
ram_end = 0x2008_0000

abbrev pub app_flash_min : ℕ
app_flash_min = 0x0801_0000

abbrev pub app_flash_max : ℕ
app_flash_max = 0x0820_0000

-- Where the bootloader ends: in the application, with its vector table, stack and entry, or waiting for
-- a bundle.
pub data Outcome : Type 0 where
  application : (vtor initial_sp reset_handler : ℕ) → Outcome
  flasher : Outcome

module _ (read_volatile : ℕ → ℕ) where
  unfoldable pub is_app_valid : ℕ → Bool
  is_app_valid app_addr =
      let initial_sp = read_volatile app_addr in
      let reset_handler = read_volatile (app_addr + 4) in
      if ltb initial_sp ram_start || ltb ram_end initial_sp
      then false
      else if ltb reset_handler app_flash_min || ltb app_flash_max reset_handler
      then false
      else not (reset_handler % 2 == 0)

  unfoldable pub jump_to_app : ℕ → Outcome
  jump_to_app app_addr =
      Outcome.application app_addr (read_volatile app_addr) (read_volatile (app_addr + 4))

  unfoldable pub boot : Outcome
  unfolding is_app_valid jump_to_app
  boot = if is_app_valid app_start_addr then jump_to_app app_start_addr else Outcome.flasher

  -- A vector table whose stack pointer lies in RAM or at its end, and whose reset handler is an odd
  -- address in the flash of the application.
  abbrev pub IsVectorTable : ℕ → Type 0
  IsVectorTable app_addr =
      (ram_start ≤ read_volatile app_addr)
      × (read_volatile app_addr ≤ ram_end)
      × (app_flash_min ≤ read_volatile (app_addr + 4))
      × (read_volatile (app_addr + 4) ≤ app_flash_max)
      × (read_volatile (app_addr + 4) % 2 ≡ 1)

  is_app_valid-IsVectorTable : (a : ℕ) → is_app_valid a ≡ true → IsVectorTable a
  unfolding is_app_valid
  is_app_valid-IsVectorTable a e =
      (ground arith, ground arith, ground arith, ground arith, ground arith)

  -- The bootloader either starts the application at its fixed address, with the stack pointer and the
  -- reset handler of its vector table, which is a valid one; or it waits for a bundle, and then the
  -- test of the table failed.
  pub boot_cases :
      ((boot
          ≡ Outcome.application app_start_addr
              (read_volatile app_start_addr)
              (read_volatile (app_start_addr + 4)))
        × IsVectorTable app_start_addr)
      ⊎ ((boot ≡ Outcome.flasher) × (is_app_valid app_start_addr ≡ false))
  unfolding boot jump_to_app
  boot_cases = elim (Bool-cases (is_app_valid app_start_addr)) [
    | inl valid ↦ inl (rw (boot, valid) refl, is_app_valid-IsVectorTable app_start_addr valid)
    | inr invalid ↦ inr (rw (boot, invalid) refl, invalid)
  ]
