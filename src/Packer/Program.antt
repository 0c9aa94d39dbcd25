-- ===== src/Packer/Program.antt =====
-- overlay-packer/src/main.rs, src/embassy/engine.rs: a program that was packed, mounted and called.
use embedded_overlay.Base.{
  ℕ, suc, ◌+◌, ◌≤◌, ◌<◌, ◌^◌, List, [], ◌∷◌, ◌++◌, length, length-append, map, All, ◌==◌, ==_iff,
  Bool-cases, true, inl, inr, Option, some, ◌≡◌, ◌≢◌, refl, sym, ap, ◌∙◌, arith,
}
use mathlib.Core.Path.{subst}
use embedded_overlay.Arith.{Profile}
use embedded_overlay.Crc.{fnv1a_hash}
use embedded_overlay.Engine.{EmbassyOverlayEngine, find_offset, call}
use embedded_overlay.Engine.Calls.{IsCallable, IsCalled, mount-call}
use embedded_overlay.Engine.Directory.{IsDirectory, listed}
use embedded_overlay.Engine.Mount.{mount}
use embedded_overlay.Engine.Registry.{updated, updated_all, free_places}
use embedded_overlay.Error.{ok}
use embedded_overlay.Exec.{◌>>=◌}
use embedded_overlay.Flash.{Flash, Serves}
use embedded_overlay.Header.Directory
use embedded_overlay.Header.Entry.{OverlayDirectoryEntry}
use embedded_overlay.Overlay.Resident.{IsStored}
use embedded_overlay.Overlay.Slot.{OverlaySlot}
use embedded_overlay.Overlay.Sync.{InstructionCacheSync}
use embedded_overlay.Packer.Listing.{IsPacked}
use embedded_overlay.Packer.Image.{room, auto_pack-IsDirectory}
use embedded_overlay.Packer.Modules.{auto_pack}

abbrev pub HasOtherId : ℕ → List ℕ × List ℕ → Type 0
HasOtherId id section = fnv1a_hash section.0 ≢ id

module _ (image : List ℕ) where
  -- Entries of other modules leave what is found.
  updated_all_others :
      (id : ℕ) (entries : List OverlayDirectoryEntry) (sections : List (List ℕ × List ℕ))
      (before : Option ℕ)
      → IsPacked image entries sections
      → All (HasOtherId id) sections
      → updated_all (map listed entries) id before ≡ before
  updated_all_others id [] [] before packed others = refl
  updated_all_others id [] (section ∷ sections) before packed others = absurd packed
  updated_all_others id (entry ∷ entries) [] before packed others = absurd packed
  updated_all_others id (entry ∷ entries) ((fn_name, code) ∷ sections) before (at, stored, packed)
        (other, others) =
      elim (Bool-cases (entry.module_id == id)) [
        | inl same ↦ absurd (other (sym at ∙ (==_iff entry.module_id id).0 same))
        | inr apart ↦
            rw (updated_all, apart) (updated_all_others id entries sections before packed others)
      ]

  -- The last section with an id gives the offset that is found.
  updated_all_last :
      (fn_name code : List ℕ) (later earlier : List (List ℕ × List ℕ))
      (entries : List OverlayDirectoryEntry) (before : Option ℕ)
      → IsPacked image entries (earlier ++ ((fn_name, code) ∷ later))
      → All (HasOtherId (fnv1a_hash fn_name)) later
      → (offset : ℕ) × (updated_all (map listed entries) (fnv1a_hash fn_name) before ≡ some offset)
        × IsStored image offset (fnv1a_hash fn_name) 0 0 code
  updated_all_last fn_name code later [] [] before packed others = absurd packed
  updated_all_last fn_name code later [] (entry ∷ entries) before (at, stored, packed) others =
      let same : (entry.module_id == fnv1a_hash fn_name) ≡ true =
        (==_iff entry.module_id (fnv1a_hash fn_name)).1 at in
      (
        entry.flash_offset,
        rw (updated_all, same)
            (updated_all_others (fnv1a_hash fn_name) entries later (some entry.flash_offset) packed
              others),
        stored,
      )
  updated_all_last fn_name code later (section ∷ earlier) [] before packed others = absurd packed
  updated_all_last fn_name code later (section ∷ earlier) (entry ∷ entries) before
        (at, stored, packed) others =
      updated_all_last fn_name code later earlier entries
        (updated entry.module_id entry.flash_offset (fnv1a_hash fn_name) before) packed others

  length-IsPacked :
      (entries : List OverlayDirectoryEntry) (sections : List (List ℕ × List ℕ))
      → IsPacked image entries sections
      → length entries ≡ length sections
  length-IsPacked [] [] packed = refl
  length-IsPacked [] (section ∷ sections) packed = absurd packed
  length-IsPacked (entry ∷ entries) [] packed = absurd packed
  length-IsPacked (entry ∷ entries) (section ∷ sections) (_, _, packed) =
      ap suc (length-IsPacked entries sections packed)

program-IsPacked :
    (profile : Profile) (sections : List (List ℕ × List ℕ)) (image : List ℕ)
    → 0 < length sections
    → length sections < 2 ^ 16
    → Directory.size + room sections < 2 ^ 32
    → auto_pack profile sections ≡ ok (some image)
    → (entries : List OverlayDirectoryEntry) × IsDirectory image 0 Directory.size
        (length image)
        entries
      × IsPacked image entries sections
program-IsPacked profile [] image some_section few bound e = absurd (omega arith)
program-IsPacked profile (section ∷ sections) image some_section few bound e =
    let (image', entries, e', directory, packed) =
      auto_pack-IsDirectory profile section sections few bound in
    let same : image' ≡ image = cc in
    (
      entries,
      subst (λ t. IsDirectory t 0 Directory.size (length t) entries) same directory,
      subst (λ t. IsPacked t entries (section ∷ sections)) same packed,
    )

module _ {S E B : Type 0} (profile : Profile) (flash : Flash S E) (hook : InstructionCacheSync B)
    {Args Output : Type 0} (invoke : ℕ → Args → Output) where
  -- From program to call: when `auto_pack` of the sections of a program, fewer than 2^16 and of fewer
  -- than 2^32 bytes with all padding, wrote an image, and a flash serves it, then `mount` at 0 and `call` of
  -- the hash of a section's name succeeds: it loads that section's code to the start of the memory of
  -- the chosen slot, `k`, which then holds the module, leaves all other slots and what the flash
  -- serves, and calls the slot's execution address, with the Thumb bit, in that state, and returns
  -- what the call returns. This holds when no later section has the same hash, the registry has places
  -- for all sections and `MAX_MODULES` is no smaller, the module is in no slot, the chosen slot has
  -- room for the code and is aligned to 4, and its execution address is below 2^32.
  pub auto_pack-call :
      (image : List ℕ) (Holds : S → Type 0)
      → Serves flash image Holds
      → (fn_name code : List ℕ) (earlier later : List (List ℕ × List ℕ)) (max_modules k : ℕ)
        (e : EmbassyOverlayEngine S B) (s : OverlaySlot) (args : Args)
      → auto_pack profile (earlier ++ ((fn_name, code) ∷ later)) ≡ ok (some image)
      → length (earlier ++ ((fn_name, code) ∷ later)) < 2 ^ 16
      → Directory.size + room (earlier ++ ((fn_name, code) ∷ later)) < 2 ^ 32
      → All (HasOtherId (fnv1a_hash fn_name)) later
      → Holds e.manager.storage
      → length (earlier ++ ((fn_name, code) ∷ later)) ≤ max_modules
      → length (earlier ++ ((fn_name, code) ∷ later)) ≤ free_places e.registry
      → IsCallable e.manager (fnv1a_hash fn_name) 0 code k s
      → IsCalled invoke Holds hook (fnv1a_hash fn_name) 0 code k s args e.manager (
          (mount profile flash hook max_modules 0 >>= λ _.
          call profile flash hook invoke (fnv1a_hash fn_name) args)
            e)
  auto_pack-call image Holds serves fn_name code earlier later max_modules k e s args built few
        bound others holds fits free callable =
      let sections = earlier ++ ((fn_name, code) ∷ later) in
      let (entries, directory, packed) =
        program-IsPacked profile sections image
          (omega (arith, length-append earlier ((fn_name, code) ∷ later))) few bound built in
      let count = length-IsPacked image entries sections packed in
      let (offset, found, stored) =
        updated_all_last image fn_name code later earlier entries
          (find_offset e (fnv1a_hash fn_name)) packed others in
      mount-call profile flash hook invoke image Holds serves max_modules 0 Directory.size
        (length image) entries e offset (fnv1a_hash fn_name) 0 0 code k s args holds directory
        (omega (arith, count)) (omega (arith, count)) found stored callable
