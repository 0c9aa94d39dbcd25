-- ===== src/Engine.antt =====
-- src/embassy/engine.rs and src/embassy/pipeline.rs: `EmbassyOverlayEngine`, the manager behind a
-- mutex with a registry of the modules in flash.
pub mod Registry
pub mod Mount
pub mod Scan
pub mod Discovery
pub mod Directory
pub mod Calls
use embedded_overlay.Base.{
  ℕ, List, [], ◌∷◌, replicate, Bool, ◌==◌, if◌then◌else◌, Option, none, some,
}
use embedded_overlay.Arith.{Profile}
use embedded_overlay.Error.{OverlayError, ok, err}
use embedded_overlay.Exec.{Exec, pure, ◌>>=◌, ◌>>◌}
use embedded_overlay.Flash.{Flash}
use embedded_overlay.Overlay.Manager
use embedded_overlay.Overlay.Manager.{OverlayManager}
use embedded_overlay.Overlay.Load.{ensure_resident, call_typed}
use embedded_overlay.Overlay.Slot.{OverlaySlot}
use embedded_overlay.Overlay.Sync.{InstructionCacheSync}

pub record ModuleRegistration : Type 0 where
  pub module_id : ℕ
  pub flash_offset : ℕ

pub record EmbassyOverlayEngine (S B : Type 0) : Type 0 where
  pub manager : OverlayManager S B
  pub registry : List (Option ModuleRegistration)

-- The loop of `register_module`: the registry with the module in it, or nothing when no place is left.
unfoldable pub register_in :
    List (Option ModuleRegistration) → ℕ → ℕ → Option (List (Option ModuleRegistration))
register_in [] module_id flash_offset = none
register_in (none ∷ slots) module_id flash_offset =
    some (some (record { module_id = module_id; flash_offset = flash_offset }) ∷ slots)
register_in (some entry ∷ slots) module_id flash_offset =
    let rest = register_in slots module_id flash_offset in
    if entry.module_id == module_id
    then some (some (record entry { flash_offset = flash_offset }) ∷ slots)
    else elim rest [ none ↦ none | some slots' ↦ some (some entry ∷ slots') ]

-- The loop of `find_offset`.
unfoldable pub find_in : List (Option ModuleRegistration) → ℕ → Option ℕ
find_in [] module_id = none
find_in (none ∷ slots) module_id = find_in slots module_id
find_in (some entry ∷ slots) module_id =
    if entry.module_id == module_id then some entry.flash_offset else find_in slots module_id

module _ {S B : Type 0} where
  -- `EmbassyOverlayEngine::with_sync`, and `new` for the hook that does nothing.
  unfoldable pub with_sync : ℕ → S → List OverlaySlot → B → EmbassyOverlayEngine S B
  unfolding Manager.with_sync
  with_sync max_modules storage slots sync = record {
    manager = Manager.with_sync storage slots sync;
    registry = replicate max_modules none;
  }

  unfoldable pub register_module : ℕ → ℕ → Exec (EmbassyOverlayEngine S B) OverlayError (Unit {0})
  unfolding register_in
  register_module module_id flash_offset e = elim (register_in e.registry module_id flash_offset) [
    | none ↦ (err OverlayError.storage, e)
    | some registry' ↦ (ok tt, record e { registry = registry' })
  ]

  unfoldable pub register_modules :
      List ModuleRegistration → Exec (EmbassyOverlayEngine S B) OverlayError (Unit {0})
  register_modules [] = pure tt
  register_modules (m ∷ modules) =
      register_module m.module_id m.flash_offset >> register_modules modules

  unfoldable pub find_offset : EmbassyOverlayEngine S B → ℕ → Option ℕ
  unfolding find_in
  find_offset e module_id = find_in e.registry module_id

  -- What is done while the mutex of the manager is held.
  unfoldable pub locked :
      {A : Type 0}
      → Exec (OverlayManager S B) OverlayError A
      → Exec (EmbassyOverlayEngine S B) OverlayError A
  locked f e = let (r, manager') = f e.manager in (r, record e { manager = manager' })

  unfoldable pub is_resident : EmbassyOverlayEngine S B → ℕ → Bool
  unfolding Manager.is_resident
  is_resident e module_id = Manager.is_resident e.manager module_id

  unfoldable pub evict : EmbassyOverlayEngine S B → ℕ → Bool × EmbassyOverlayEngine S B
  unfolding Manager.evict
  evict e module_id =
      let (was, manager') = Manager.evict e.manager module_id in
      (was, record e { manager = manager' })

  module _ {E : Type 0} (profile : Profile) (flash : Flash S E)
      (hook : InstructionCacheSync B) where
    unfoldable pub prefetch : ℕ → Exec (EmbassyOverlayEngine S B) OverlayError ℕ
    unfolding find_offset locked
    prefetch module_id e = elim (find_offset e module_id) [
      | none ↦ (err (OverlayError.module_not_found module_id), e)
      | some offset ↦ locked (ensure_resident profile flash hook module_id offset) e
    ]

    -- A module is its id and its entry point, the type `Mod` of the code.
    unfoldable pub call :
        {Args Output : Type 0}
        → (ℕ → Args → Output)
        → ℕ
        → Args
        → Exec (EmbassyOverlayEngine S B) OverlayError Output
    unfolding find_offset locked
    call invoke module_id args e = elim (find_offset e module_id) [
      | none ↦ (err (OverlayError.module_not_found module_id), e)
      | some offset ↦
          locked
            (ensure_resident profile flash hook module_id offset >>= λ slot_idx m.
              (call_typed profile flash hook invoke m module_id slot_idx args, m))
            e
    ]

    -- src/embassy/pipeline.rs
    unfoldable pub call_and_prefetch :
        {Args Output : Type 0}
        → (ℕ → Args → Output)
        → ℕ
        → ℕ
        → Args
        → Exec (EmbassyOverlayEngine S B) OverlayError Output
    call_and_prefetch invoke current next args =
        call invoke current args >>= λ result. prefetch next >>= λ _. pure result
