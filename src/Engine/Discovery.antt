-- ===== src/Engine/Discovery.antt =====
-- src/embassy/engine.rs: what `mount` leaves alone, and how many modules it finds, on any flash.
use embedded_overlay.Base.{ℕ, ◌≤◌, List, [], ◌∷◌, length, Option, ◌≡◌, inl, inr, refl, sym, ◌∙◌}
use mathlib.Core.Path.{subst}
use embedded_overlay.Arith.{Profile}
use embedded_overlay.Error.{OverlayError, Result, ok, err, panic}
use embedded_overlay.Exec.{Exec}
use embedded_overlay.Exec.Triple.{Post, Triple, Triple-pure, Triple-bind}
use embedded_overlay.Flash.{Flash}
use embedded_overlay.Overlay.Manager.{OverlayManager}
use embedded_overlay.Overlay.Sync.{InstructionCacheSync}
use embedded_overlay.Engine.{
  ModuleRegistration, EmbassyOverlayEngine, register_module, register_modules, locked,
}
use embedded_overlay.Engine.Registry.{register_module-find_offset}
use embedded_overlay.Engine.Mount.{mount}
use embedded_overlay.Engine.Scan.{SameSlots, discover_rule}

-- A count that is returned is at most `n`.
abbrev pub IsCounted : ℕ → Result OverlayError ℕ → Type 0
IsCounted n (ok count) = count ≤ n
IsCounted n (err e) = Unit
IsCounted n panic = Unit

-- Two engines that differ in the storage and in what is registered only.
pub record SameEngine {S B : Type 0} (e e' : EmbassyOverlayEngine S B) : Type 0 where
  pub same_slots : SameSlots e.manager e'.manager
  pub places : length e'.registry ≡ length e.registry

module _ {S B : Type 0} (e₀ : EmbassyOverlayEngine S B) where
  locked_rule :
      {A : Type 0} (f : Exec (OverlayManager S B) OverlayError A) (Q : A → Type 0)
      → Triple (SameSlots e₀.manager) f (λ a m. SameSlots e₀.manager m × Q a) (SameSlots e₀.manager)
      → Triple (SameEngine e₀) (locked f) (λ a e. SameEngine e₀ e × Q a) (SameEngine e₀)
  unfolding locked
  locked_rule {A} f Q t = record {
    at =
        λ e h. go (f e.manager).0 (f e.manager).1 e.registry h.places (t.at e.manager h.same_slots);
  }
    where
      go :
          (r : Result OverlayError A) (m : OverlayManager S B)
          (registry : List (Option ModuleRegistration))
          → length registry ≡ length e₀.registry
          → Post (λ a m. SameSlots e₀.manager m × Q a) (SameSlots e₀.manager) r m
          → Post
              (λ a e. SameEngine e₀ e × Q a)
              (SameEngine e₀)
              r
              (record { manager = m; registry = registry })
      go (ok a) m registry h p = (record { same_slots = p.0; places = h }, p.1)
      go (err e) m registry h p = record { same_slots = p; places = h }
      go panic m registry h p = record { same_slots = p; places = h }

  register_modules_rule :
      (modules : List ModuleRegistration)
      → Triple (SameEngine e₀) (register_modules modules) (λ _. SameEngine e₀) (SameEngine e₀)
  unfolding register_modules
  register_modules_rule [] = Triple-pure tt (λ _. SameEngine e₀) (λ s p. p)
  register_modules_rule (m ∷ modules) =
      Triple-bind (λ _. SameEngine e₀) _ _ (λ _. SameEngine e₀) (record { at = one })
        (λ _. register_modules_rule modules)
    where
      one :
          (e : EmbassyOverlayEngine S B)
          → SameEngine e₀ e
          → Post
              (λ _. SameEngine e₀)
              (SameEngine e₀)
              (register_module m.module_id m.flash_offset e).0
              (register_module m.module_id m.flash_offset e).1
      one e h = elim (register_module-find_offset e m.module_id m.flash_offset) [
        | inl (e', eq, _, manager, size, _) ↦
            subst (λ (r, t). Post (λ _. SameEngine e₀) (SameEngine e₀) r t) (sym eq)
              (record {
                same_slots = subst (SameSlots e₀.manager) (sym manager) h.same_slots;
                places = size ∙ h.places;
              })
        | inr (eq, _, _) ↦
            subst (λ (r, t). Post (λ _. SameEngine e₀) (SameEngine e₀) r t) (sym eq) h
      ]

module _ {S E B : Type 0} (profile : Profile) (flash : Flash S E) (hook : InstructionCacheSync B)
    (max_modules : ℕ) where
  mount_rule :
      (e : EmbassyOverlayEngine S B) (base_offset : ℕ)
      → Triple
          (SameEngine e)
          (mount profile flash hook max_modules base_offset)
          (λ n e'. SameEngine e e' × (n ≤ max_modules))
          (SameEngine e)
  unfolding mount
  mount_rule e base_offset =
      let Q : ℕ → EmbassyOverlayEngine S B → Type 0 = λ n e'. SameEngine e e' × (n ≤ max_modules) in
      Triple-bind (λ found e'. SameEngine e e' × (length found ≤ max_modules)) _ _ Q
        (locked_rule e _ (λ found. length found ≤ max_modules)
          (discover_rule profile flash hook max_modules e.manager base_offset))
        (λ found. record {
          at = λ e' (same, few).
              (Triple-bind (λ _. SameEngine e) _ _ Q (register_modules_rule e found)
                  (λ _. Triple-pure (length found) Q (λ e'' same'. (same', few)))).at
                e' same;
        })

  -- `mount` of any storage, successful or not, changes no slot, not the counter and not the state of
  -- the hook, and keeps the number of places of the registry; a count that it returns is at most
  -- `MAX_MODULES`.
  pub mount-SameEngine :
      (e : EmbassyOverlayEngine S B) (base_offset : ℕ)
      → SameEngine e (mount profile flash hook max_modules base_offset e).1
        × IsCounted max_modules (mount profile flash hook max_modules base_offset e).0
  mount-SameEngine e base_offset =
      outcome (mount profile flash hook max_modules base_offset e).0
        (mount profile flash hook max_modules base_offset e).1
        ((mount_rule e base_offset).at e (record {
          same_slots = record { slots = refl; lru_counter = refl; sync = refl };
          places = refl;
        }))
    where
      outcome :
          (r : Result OverlayError ℕ) (e' : EmbassyOverlayEngine S B)
          → Post (λ n t. SameEngine e t × (n ≤ max_modules)) (SameEngine e) r e'
          → SameEngine e e' × IsCounted max_modules r
      outcome (ok k) e' p = p
      outcome (err x) e' p = (p, tt)
      outcome panic e' p = (p, tt)
