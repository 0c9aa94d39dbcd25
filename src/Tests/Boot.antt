-- ===== src/Tests/Boot.antt =====
-- bootloader/src/main.rs on concrete inputs: a flash with one vector table.
use embedded_overlay.Base.{ℕ, ◌+◌, false, ◌==◌, if◌then◌else◌, ◌≡◌, ◌⊎◌, refl}
use embedded_overlay.Bootloader.{
  app_start_addr, Outcome, is_app_valid, boot, IsVectorTable, boot_cases,
}

abbrev words : ℕ → ℕ
words addr =
    if addr == app_start_addr
    then 0x2008_0000
    else if addr == app_start_addr + 4
    then 0x0801_0201
    else 0xFFFF_FFFF

boot_cases_example :
    ((boot words
        ≡ Outcome.application app_start_addr (words app_start_addr) (words (app_start_addr + 4)))
      × IsVectorTable words app_start_addr)
    ⊎ ((boot words ≡ Outcome.flasher) × (is_app_valid words app_start_addr ≡ false))
boot_cases_example = boot_cases words

-- The flash is erased.
erased : boot (λ addr. 0xFFFF_FFFF) ≡ Outcome.flasher
unfolding boot
erased = refl

started : boot words ≡ Outcome.application 0x0801_0000 0x2008_0000 0x0801_0201
unfolding boot
started = refl
