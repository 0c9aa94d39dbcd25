-- ===== src/Engine/Directory.antt =====
-- src/embassy/engine.rs: `mount` of a flash that has a directory.
use embedded_overlay.Base.{
  ℕ, suc, ◌+◌, ◌*◌, ◌≤◌, ◌<◌, ◌^◌, List, [], ◌∷◌, ◌++◌, length, length-append, length-map, slice,
  replicate, length-replicate, map, leb, true, false, append_assoc, ◌≡◌, refl, sym, ap, ◌∙◌, arith,
}
use mathlib.Core.List.{append-nil}
use embedded_overlay.Arith.{Profile, add_u32, mul_u32, u32_value_lem}
use embedded_overlay.Bytes.{bytes_eq, bytes_eq_self}
use embedded_overlay.Error.{OverlayError, ok}
use embedded_overlay.Exec.{pure, lift, ◌>>=◌, >>=-ok}
use embedded_overlay.Flash.{Flash, Serves}
use embedded_overlay.Header.Directory
use embedded_overlay.Header.Directory.Laws
use embedded_overlay.Header.Entry
use embedded_overlay.Header.Entry.{OverlayDirectoryEntry, directory_to_bytes, directory_from_bytes}
use embedded_overlay.Header.Entry.Laws.{
  DirectoryFits, length-directory_to_bytes, directory_from_bytes-to_bytes,
}
use embedded_overlay.Overlay.Manager.{OverlayManager}
use embedded_overlay.Overlay.Load.{read_storage}
use embedded_overlay.Overlay.Resident.{read_storage_ok}
use embedded_overlay.Overlay.Sync.{InstructionCacheSync}
use embedded_overlay.Engine.{
  ModuleRegistration, EmbassyOverlayEngine, find_offset, register_modules, locked,
}
use embedded_overlay.Engine.Registry.{updated_all, free_places, register_modules_lem}
use embedded_overlay.Engine.Mount.{magic_of, directory_loop, scan_directory, discover, mount}

-- `image` has the entries one after another, from the entry `i` of the table at `start` on.
abbrev pub IsListing : List ℕ → ℕ → ℕ → List OverlayDirectoryEntry → Type 0
IsListing image start i [] = Unit
IsListing image start i (entry ∷ entries) =
    DirectoryFits entry
    × (slice (start + i * Entry.size) Entry.size image ≡ directory_to_bytes entry)
    × (start + i * Entry.size + Entry.size ≤ length image)
    × IsListing image start (suc i) entries

-- `image` has at `base` a directory of the entries.
pub record IsDirectory (image : List ℕ) (base index_offset total_bytes : ℕ)
    (entries : List OverlayDirectoryEntry) : Type 0 where
  pub header :
      slice base Directory.size image
      ≡ Directory.to_bytes (Directory.new (length entries) index_offset total_bytes)
  pub inside : base + Directory.size ≤ length image
  pub table : IsListing image (base + Directory.size) 0 entries
  pub addressable : base + Directory.size + length entries * Entry.size < 2 ^ 32
  pub entry_count_lt : length entries < 2 ^ 16
  pub index_offset_lt : index_offset < 2 ^ 32
  pub total_bytes_lt : total_bytes < 2 ^ 32

abbrev pub listed : OverlayDirectoryEntry → ModuleRegistration
listed entry = record { module_id = entry.module_id; flash_offset = entry.flash_offset }

module _ {S E B : Type 0} (profile : Profile) (flash : Flash S E) (hook : InstructionCacheSync B)
    (max_modules : ℕ) (image : List ℕ) (Holds : S → Type 0)
    (serves : Serves flash image Holds) where
  directory_loop-listed :
      (entries : List OverlayDirectoryEntry) (i start : ℕ) (buf : List ℕ)
      (found : List ModuleRegistration) (m : OverlayManager S B)
      → Holds m.storage
      → IsListing image start i entries
      → start + (i + length entries) * Entry.size < 2 ^ 32
      → length found + length entries ≤ max_modules
      → length buf ≡ Entry.size
      → (storage' : S) × (directory_loop profile flash hook max_modules start
            (length entries)
            i
            buf
            found
            m
          ≡ (ok (found ++ map listed entries), record m { storage = storage' }))
        × Holds storage'
  unfolding directory_loop ◌>>=◌
  directory_loop-listed [] i start buf found m holds table bound room full =
      (m.storage, ap (λ t. (ok t, m)) (sym (append-nil found)), holds)
  directory_loop-listed (entry ∷ entries) i start buf found m holds (fits, bytes, inside, table)
        bound room full =
      let offset = start + i * Entry.size in
      let (s₁, read, holds₁) = serves.read_lem m.storage offset buf holds (omega (arith, full)) in
      let m₁ : OverlayManager S B = record m { storage = s₁ } in
      let buf₁ = directory_to_bytes entry in
      let got : slice offset (length buf) image ≡ buf₁ =
        ap (λ n. slice offset n image) full ∙ bytes in
      let product : mul_u32 {E = OverlayError} profile i Entry.size ≡ ok (i * Entry.size) =
        u32_value_lem profile (i * Entry.size) (omega arith) in
      let sum : add_u32 {E = OverlayError} profile start (i * Entry.size) ≡ ok offset =
        u32_value_lem profile offset (omega arith) in
      let parsed : directory_from_bytes buf₁ ≡ ok entry =
        directory_from_bytes-to_bytes entry fits in
      let more : leb max_modules (length found) ≡ false = ground arith in
      let found₁ = found ++ (listed entry ∷ []) in
      let (s₂, rest, holds₂) =
        directory_loop-listed entries (suc i) start buf₁ found₁ m₁ holds₁ table (omega arith)
          (omega (arith, length-append found (listed entry ∷ [])))
          (length-directory_to_bytes entry) in
      (
        s₂,
        rw more (
            >>=-ok (lift (mul_u32 profile i Entry.size)) _ m (ap (λ r. (r, m)) product)
            ∙ >>=-ok (lift (add_u32 profile start (i * Entry.size))) _ m (ap (λ r. (r, m)) sum)
            ∙ >>=-ok (read_storage profile flash hook offset buf) _ m (
                read_storage_ok profile flash hook offset buf buf₁ s₁ m
                  (read ∙ ap (λ b. (ok tt, b, s₁)) got))
            ∙ >>=-ok (lift (directory_from_bytes buf₁)) _ m₁ (ap (λ r. (r, m₁)) parsed)
            ∙ rest
            ∙ ap (λ t. (ok t, record m { storage = s₂ }))
                (append_assoc found (listed entry ∷ []) (map listed entries))),
        holds₂,
      )

  magic_of-to_bytes :
      (n a b : ℕ)
      → bytes_eq (magic_of (Directory.to_bytes (Directory.new n a b))) Directory.magic_bytes ≡ true
  unfolding Directory.to_bytes Directory.new
  magic_of-to_bytes n a b = bytes_eq_self Directory.magic_bytes

  new_count : (n a b : ℕ) → (Directory.new n a b).entry_count ≡ n
  unfolding Directory.new
  new_count n a b = refl

  scan_directory-listed :
      (base index_offset total_bytes : ℕ) (entries : List OverlayDirectoryEntry)
      (m : OverlayManager S B)
      → Holds m.storage
      → IsDirectory image base index_offset total_bytes entries
      → length entries ≤ max_modules
      → (storage' : S) × (scan_directory profile flash hook max_modules base
            (Directory.to_bytes (Directory.new (length entries) index_offset total_bytes))
            m
          ≡ (ok (map listed entries), record m { storage = storage' }))
        × Holds storage'
  unfolding scan_directory lift
  scan_directory-listed base index_offset total_bytes entries m holds d room =
      let header = Directory.new (length entries) index_offset total_bytes in
      let bytes = Directory.to_bytes header in
      let start = base + Directory.size in
      let sealed =
        Laws.new-IsSealed (length entries) index_offset total_bytes d.entry_count_lt
          d.index_offset_lt d.total_bytes_lt in
      let parsed : Directory.from_bytes bytes ≡ ok header =
        ap Directory.from_bytes (sym (append-nil bytes))
        ∙ Laws.from_bytes-to_bytes header [] sealed in
      let sum : add_u32 {E = OverlayError} profile base Directory.size ≡ ok start =
        u32_value_lem profile start (omega (arith, d.addressable)) in
      let (s₁, run, holds₁) =
        directory_loop-listed entries 0 start (replicate Entry.size 0) [] m holds d.table
          (omega (arith, d.addressable)) (omega arith) (length-replicate {A = ℕ} Entry.size 0) in
      let count : header.entry_count ≡ length entries =
        new_count (length entries) index_offset total_bytes in
      (
        s₁,
        >>=-ok (lift (Directory.from_bytes bytes)) _ m (ap (λ r. (r, m)) parsed)
            ∙ >>=-ok (lift (add_u32 profile base Directory.size)) _ m (ap (λ r. (r, m)) sum)
            ∙ ap
                (λ n.
                  directory_loop profile flash hook max_modules start n 0 (replicate Entry.size 0)
                    [] m)
                count
            ∙ run,
        holds₁,
      )

  discover-listed :
      (base index_offset total_bytes : ℕ) (entries : List OverlayDirectoryEntry)
      (m : OverlayManager S B)
      → Holds m.storage
      → IsDirectory image base index_offset total_bytes entries
      → length entries ≤ max_modules
      → (storage' : S) × (discover profile flash hook max_modules base m
          ≡ (ok (map listed entries), record m { storage = storage' }))
        × Holds storage'
  unfolding discover
  discover-listed base index_offset total_bytes entries m holds d room =
      let bytes = Directory.to_bytes (Directory.new (length entries) index_offset total_bytes) in
      let zeros : List ℕ = replicate 32 0 in
      let (s₁, read, holds₁) =
        serves.read_lem m.storage base zeros holds (omega (arith, d.inside)) in
      let m₁ : OverlayManager S B = record m { storage = s₁ } in
      let (s₂, run, holds₂) =
        scan_directory-listed base index_offset total_bytes entries m₁ holds₁ d room in
      (
        s₂,
        >>=-ok (read_storage profile flash hook base zeros) _ m (
              read_storage_ok profile flash hook base zeros bytes s₁ m
                (read ∙ ap (λ b. (ok tt, b, s₁)) d.header))
            ∙ rw (magic_of-to_bytes (length entries) index_offset total_bytes) run,
        holds₂,
      )

  -- On a flash that serves an image with a directory at `base`, of as many entries as the registry has
  -- free places for, and no more than `MAX_MODULES`, `mount` returns their number; then `find_offset`
  -- returns for every id the offset of its last entry, and what it returned before for an id without
  -- one. Slots, counter and hook stay, and the flash still serves the image.
  pub mount-find_offset :
      (base index_offset total_bytes : ℕ) (entries : List OverlayDirectoryEntry)
      (e : EmbassyOverlayEngine S B)
      → Holds e.manager.storage
      → IsDirectory image base index_offset total_bytes entries
      → length entries ≤ max_modules
      → length entries ≤ free_places e.registry
      → (e' : EmbassyOverlayEngine S B) × (storage' : S) × (mount profile flash hook max_modules
            base e
          ≡ (ok (length entries), e'))
        × ((id : ℕ) → find_offset e' id ≡ updated_all (map listed entries) id (find_offset e id))
        × (e'.manager ≡ record e.manager { storage = storage' })
        × Holds storage'
  unfolding mount find_offset locked pure
  mount-find_offset base index_offset total_bytes entries e holds d room free =
      let (s₁, run, holds₁) =
        discover-listed base index_offset total_bytes entries e.manager holds d room in
      let e₁ : EmbassyOverlayEngine S B = record e {
        manager = record e.manager { storage = s₁ };
      } in
      let few : length (map listed entries) ≡ length entries = length-map entries listed in
      let (e₂, registered, found, kept, _) =
        register_modules_lem (map listed entries) e₁ (omega arith) in
      (
        e₂,
        s₁,
        >>=-ok (locked (discover profile flash hook max_modules base)) _ e
              (ap (λ (r, m). (r, record e { manager = m })) run)
            ∙ >>=-ok (register_modules (map listed entries)) _ e₁ registered
            ∙ ap (λ n. (ok n, e₂)) few,
        found,
        kept,
        holds₁,
      )
