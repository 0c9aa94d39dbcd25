-- ===== src/Engine/Calls.antt =====
-- src/embassy/engine.rs: a call of a module by its id alone.
use embedded_overlay.Base.{
  ℕ, ◌+◌, ◌≤◌, ◌<◌, ◌^◌, List, length, map, get_elem?, none, some, ◌≡◌, sym, ap, ◌∙◌, arith,
}
use mathlib.Core.Path.{subst}
use embedded_overlay.Arith.{Profile}
use embedded_overlay.Error.{OverlayError, Result, ok}
use embedded_overlay.Exec.{◌>>=◌, >>=-ok}
use embedded_overlay.Flash.{Flash, Serves}
use embedded_overlay.Header.Entry.{OverlayDirectoryEntry}
use embedded_overlay.Overlay.Slot.{OverlaySlot}
use embedded_overlay.Overlay.Sync.{InstructionCacheSync, make_thumb_entry}
use embedded_overlay.Overlay.Thumb.{make_thumb_entry-even}
use embedded_overlay.Overlay.Manager.{OverlayManager, find_resident_slot, select_eviction_slot}
use embedded_overlay.Overlay.Load.{execute}
use embedded_overlay.Overlay.Resident.{IsStored, IsRoomy}
use embedded_overlay.Overlay.Execute.{loaded, execute-loaded}
use embedded_overlay.Engine.{EmbassyOverlayEngine, find_offset, locked, call}
use embedded_overlay.Engine.Registry.{updated_all, free_places}
use embedded_overlay.Engine.Mount.{mount}
use embedded_overlay.Engine.Directory.{IsDirectory, listed, mount-find_offset}

-- The slot that the module goes to, for a manager that does not hold it.
pub record IsCallable {S B : Type 0} (m : OverlayManager S B) (module_id entry_offset : ℕ)
    (code : List ℕ) (k : ℕ) (s : OverlaySlot) : Type 0 where
  pub missing : find_resident_slot m module_id ≡ none
  pub chosen : select_eviction_slot m.slots ≡ ok k
  pub at : get_elem? m.slots k ≡ some s
  pub roomy : IsRoomy s entry_offset code
  pub reachable : s.exec_addr + entry_offset < 2 ^ 32

-- What a call of a module that was not resident comes to, from the manager `m` before: the code of the
-- module is called at its entry point in slot `k`, and the manager after it has the code there.
pub record IsCalled {S B Args Output : Type 0} (invoke : ℕ → Args → Output) (Holds : S → Type 0)
    (hook : InstructionCacheSync B) (module_id entry_offset : ℕ) (code : List ℕ) (k : ℕ)
    (s : OverlaySlot) (args : Args) (m : OverlayManager S B)
    (after : Result OverlayError Output × EmbassyOverlayEngine S B) : Type 0 where
  pub storage : S
  pub result : after.0 ≡ ok (invoke (s.exec_addr + entry_offset + 1) args)
  pub manager : after.1.manager ≡ loaded hook module_id entry_offset code k s storage m
  pub holds : Holds storage

module _ {S E B : Type 0} (profile : Profile) (flash : Flash S E) (hook : InstructionCacheSync B)
    {Args Output : Type 0} (invoke : ℕ → Args → Output) (image : List ℕ) (Holds : S → Type 0)
    (serves : Serves flash image Holds) where
  -- A call of a registered module whose container is in the flash.
  call-loaded :
      (e : EmbassyOverlayEngine S B) (offset module_id entry_offset ram_target_addr : ℕ)
      (code : List ℕ) (k : ℕ) (s : OverlaySlot) (args : Args)
      → Holds e.manager.storage
      → find_offset e module_id ≡ some offset
      → IsStored image offset module_id entry_offset ram_target_addr code
      → IsCallable e.manager module_id entry_offset code k s
      → (storage' : S) × (call profile flash hook invoke module_id args e ≡ (
        ok (invoke (s.exec_addr + entry_offset + 1) args),
        record e { manager = loaded hook module_id entry_offset code k s storage' e.manager },
      ))
        × Holds storage'
  unfolding call locked execute
  call-loaded e offset module_id entry_offset ram_target_addr code k s args holds registered stored
        callable =
      let (s', run, holds') =
        execute-loaded profile flash hook invoke image Holds serves e.manager offset module_id
          entry_offset ram_target_addr code k s args holds stored callable.missing callable.chosen
          callable.at callable.roomy callable.reachable in
      let m' = loaded hook module_id entry_offset code k s s' e.manager in
      let odd : make_thumb_entry (s.exec_addr + entry_offset) ≡ s.exec_addr + entry_offset + 1 =
        make_thumb_entry-even (s.exec_addr + entry_offset)
          (omega (arith, callable.roomy.aligned, callable.roomy.even_entry)) in
      let result = ap (λ addr. (ok (invoke addr args), m')) odd in
      (
        s',
        rw (call, registered) (ap (λ (r, m). (r, record e { manager = m })) (run ∙ result)),
        holds',
      )

  -- From flash to call: on a flash that serves an image with a directory, `mount` and then `call` of a
  -- module by its id alone succeeds: it loads the code of the module to the start of the memory of
  -- the chosen slot, `k`, which then holds the module and its entry point and has the next
  -- generation, runs the hook once, leaves all other slots and what the flash serves, and calls the
  -- slot's execution address plus the entry point, with the Thumb bit, in that state, and returns what the
  -- call returns. This holds when the registry has places for the entries and `MAX_MODULES` is no smaller,
  -- the last entry of the module gives the offset of its container, the module is in no slot, the
  -- chosen slot has room for the code and is aligned to 4, the entry point is even, and the address of
  -- the entry point in the slot is below 2^32.
  pub mount-call :
      (max_modules base index_offset total_bytes : ℕ) (entries : List OverlayDirectoryEntry)
      (e : EmbassyOverlayEngine S B) (offset module_id entry_offset ram_target_addr : ℕ)
      (code : List ℕ) (k : ℕ) (s : OverlaySlot) (args : Args)
      → Holds e.manager.storage
      → IsDirectory image base index_offset total_bytes entries
      → length entries ≤ max_modules
      → length entries ≤ free_places e.registry
      → updated_all (map listed entries) module_id (find_offset e module_id) ≡ some offset
      → IsStored image offset module_id entry_offset ram_target_addr code
      → IsCallable e.manager module_id entry_offset code k s
      → IsCalled invoke Holds hook module_id entry_offset code k s args e.manager (
          (mount profile flash hook max_modules base >>= λ _.
          call profile flash hook invoke module_id args)
            e)
  unfolding find_resident_slot
  mount-call max_modules base index_offset total_bytes entries e offset module_id entry_offset
        ram_target_addr code k s args holds directory few free last stored callable =
      let (e', s', run, found, kept, holds') =
        mount-find_offset profile flash hook max_modules image Holds serves base index_offset
          total_bytes entries e holds directory few free in
      let callable' : IsCallable (record e.manager { storage = s' }) module_id entry_offset code k
          s =
        record {
          missing = callable.missing;
          chosen = callable.chosen;
          at = callable.at;
          roomy = callable.roomy;
          reachable = callable.reachable;
        } in
      let (s'', called, holds'') =
        call-loaded e' offset module_id entry_offset ram_target_addr code k s args
          (subst (λ (m : OverlayManager S B). Holds m.storage) (sym kept) holds')
          (found module_id ∙ last) stored
          (subst (λ m. IsCallable m module_id entry_offset code k s) (sym kept) callable') in
      let whole =
        >>=-ok (mount profile flash hook max_modules base)
          (λ _. call profile flash hook invoke module_id args) e run
        ∙ called in
      record {
        storage = s'';
        result = ap (λ r. r.0) whole;
        manager =
            ap (λ r. r.1.manager) whole ∙ ap (loaded hook module_id entry_offset code k s s'') kept;
        holds = holds'';
      }
