-- ===== src/Engine/Mount.antt =====
-- src/embassy/engine.rs: `mount`, which finds the modules in flash and registers them.
use embedded_overlay.Base.{
  ℕ, zero, suc, ◌-◌, ◌^◌, bit_and, List, [], ◌∷◌, ◌++◌, length, replicate, leb, if◌then◌else◌,
  Option, none, some, get_or,
}
use embedded_overlay.Arith.{Profile, add_u32, mul_u32}
use embedded_overlay.Bytes.{bytes_eq}
use embedded_overlay.Error.{OverlayError, Result, ok, err, panic}
use embedded_overlay.Exec.{Exec, pure, raise, lift, ◌>>=◌, ◌>>◌}
use embedded_overlay.Flash.{Flash}
use embedded_overlay.Header.Directory
use embedded_overlay.Header.Entry
use embedded_overlay.Header.Entry.{directory_from_bytes}
use embedded_overlay.Header.Overlay
use embedded_overlay.Overlay.Manager.{OverlayManager}
use embedded_overlay.Overlay.Load.{read_storage}
use embedded_overlay.Overlay.Sync.{InstructionCacheSync}
use embedded_overlay.Engine.{EmbassyOverlayEngine, ModuleRegistration, register_modules, locked}

-- `[header_buf[0], header_buf[1], header_buf[2], header_buf[3]]`
abbrev pub magic_of : List ℕ → List ℕ
magic_of buf = get_or buf 0 0 ∷ get_or buf 1 0 ∷ get_or buf 2 0 ∷ get_or buf 3 0 ∷ []

-- The outcome of a read whose error ends the scan.
abbrev pub readable :
    {E : Type 0} → Result E (Unit {0}) → List ℕ → Result OverlayError (Option (List ℕ))
readable (ok _) buf = ok (some buf)
readable (err _) buf = ok none
readable panic buf = panic

module _ {S E B : Type 0} (profile : Profile) (flash : Flash S E) (hook : InstructionCacheSync B)
    (max_modules : ℕ) where
  -- The loop over the entries of a directory: `n` are left, from `i` on, and `discovered` were found.
  unfoldable pub directory_loop :
      ℕ
      → ℕ
      → ℕ
      → List ℕ
      → List ModuleRegistration
      → Exec (OverlayManager S B) OverlayError (List ModuleRegistration)
  directory_loop entries_start zero i entry_buf discovered = pure discovered
  directory_loop entries_start (suc n) i entry_buf discovered =
      if leb max_modules (length discovered) then pure discovered else do
        distance ← lift (mul_u32 profile i Entry.size)
        entry_offset ← lift (add_u32 profile entries_start distance)
        entry_buf' ← read_storage profile flash hook entry_offset entry_buf
        entry ← lift (directory_from_bytes entry_buf')
        let found : ModuleRegistration = record {
          module_id = entry.module_id;
          flash_offset = entry.flash_offset;
        }
        directory_loop entries_start n (suc i) entry_buf' (discovered ++ (found ∷ []))

  unfoldable pub scan_directory :
      ℕ → List ℕ → Exec (OverlayManager S B) OverlayError (List ModuleRegistration)
  scan_directory base_offset header_buf = do
    dir ← lift (Directory.from_bytes header_buf)
    entries_start ← lift (add_u32 profile base_offset Directory.size)
    directory_loop entries_start dir.entry_count 0 (replicate Entry.size 0) []

  -- `(OverlayHeader::SIZE as u32 + header.code_size + 3) & !3`
  unfoldable pub next_step : ℕ → Exec (OverlayManager S B) OverlayError ℕ
  next_step code_size = do
    end ← lift (add_u32 profile Overlay.size code_size)
    padded ← lift (add_u32 profile end 3)
    pure (bit_and padded (2 ^ 32 - 4))

  -- A read into the header buffer whose error ends the scan.
  unfoldable pub try_read : ℕ → List ℕ → Exec (OverlayManager S B) OverlayError (Option (List ℕ))
  try_read offset buf m =
      let (r, buf', storage') = flash.read m.storage offset buf in
      (readable r buf', record m { storage = storage' })

  -- The loop over containers one after another, with `n` places left for what it finds.
  unfoldable pub sequential_loop :
      ℕ
      → ℕ
      → List ℕ
      → List ModuleRegistration
      → Exec (OverlayManager S B) OverlayError (List ModuleRegistration)
  sequential_loop zero current_offset header_buf discovered = pure discovered
  sequential_loop (suc n) current_offset header_buf discovered =
      elim (Overlay.from_bytes header_buf) [
        | err _ ↦ pure discovered
        | panic ↦ λ m. (panic, m)
        | ok header ↦ do
          let found : ModuleRegistration = record {
            module_id = header.module_id;
            flash_offset = current_offset;
          }
          step ← next_step header.code_size
          next_offset ← lift (add_u32 profile current_offset step)
          next_buf ← try_read next_offset header_buf
          elim next_buf [
            | none ↦ pure (discovered ++ (found ∷ []))
            | some buf ↦
                if bytes_eq (magic_of buf) Overlay.magic_bytes
                then sequential_loop n next_offset buf (discovered ++ (found ∷ []))
                else pure (discovered ++ (found ∷ []))
          ]
      ]

  -- The part of `mount` under the lock.
  unfoldable pub discover : ℕ → Exec (OverlayManager S B) OverlayError (List ModuleRegistration)
  discover base_offset = do
    header_buf ← read_storage profile flash hook base_offset (replicate 32 0)
    if bytes_eq (magic_of header_buf) Directory.magic_bytes
        then scan_directory base_offset header_buf
        else if bytes_eq (magic_of header_buf) Overlay.magic_bytes
        then sequential_loop max_modules base_offset header_buf []
        else raise OverlayError.invalid_magic

  unfoldable pub mount : ℕ → Exec (EmbassyOverlayEngine S B) OverlayError ℕ
  mount base_offset = do
    discovered ← locked (discover base_offset)
    register_modules discovered
    pure (length discovered)
