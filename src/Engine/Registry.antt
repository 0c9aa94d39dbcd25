-- ===== src/Engine/Registry.antt =====
-- src/embassy/engine.rs: the registry is a map from modules to offsets.
use embedded_overlay.Base.{
  ℕ, zero, suc, ◌≤◌, List, [], ◌∷◌, length, replicate, false, ◌==◌, ==_iff, if◌then◌else◌,
  Bool-cases, Option, none, some, ◌≡◌, ◌⊎◌, inl, inr, refl, sym, ap, ◌∙◌, arith,
}
use embedded_overlay.Error.{OverlayError, ok, err}
use embedded_overlay.Exec.{>>=-ok, pure}
use embedded_overlay.Engine.{
  ModuleRegistration, EmbassyOverlayEngine, register_in, find_in, register_module, register_modules,
  find_offset,
}

abbrev Registry : Type 0
Registry = List (Option ModuleRegistration)

-- The offset that is found after a module was registered.
abbrev pub updated : ℕ → ℕ → ℕ → Option ℕ → Option ℕ
updated module_id flash_offset id before = if module_id == id then some flash_offset else before

-- Places that nothing is registered in.
abbrev pub free_places : Registry → ℕ
free_places [] = 0
free_places (none ∷ slots) = suc (free_places slots)
free_places (some _ ∷ slots) = free_places slots

abbrev Registered : Registry → ℕ → ℕ → Registry → Type 0
Registered slots module_id flash_offset slots' =
    ((id : ℕ) → find_in slots' id ≡ updated module_id flash_offset id (find_in slots id))
    × (length slots' ≡ length slots)
    × (free_places slots ≤ suc (free_places slots'))

abbrev Refused : Registry → ℕ → Type 0
Refused slots module_id = (free_places slots ≡ 0) × (find_in slots module_id ≡ none)

register_in_cases :
    (slots : Registry) (module_id flash_offset : ℕ)
    → ((slots' : Registry) × (register_in slots module_id flash_offset ≡ some slots')
        × Registered slots module_id flash_offset slots')
      ⊎ ((register_in slots module_id flash_offset ≡ none) × Refused slots module_id)
unfolding register_in find_in
register_in_cases [] module_id flash_offset = inr (refl, (refl, refl))
register_in_cases (none ∷ slots) module_id flash_offset = inl (
  some (record { module_id = module_id; flash_offset = flash_offset }) ∷ slots,
  refl,
  ((λ id. refl), refl, omega arith),
)
register_in_cases (some entry ∷ slots) module_id flash_offset =
    elim (Bool-cases (entry.module_id == module_id)) [
      | inl same ↦
          let here : entry.module_id ≡ module_id = (==_iff entry.module_id module_id).0 same in
          inl (
            some (record entry { flash_offset = flash_offset }) ∷ slots,
            rw same refl,
            ((λ id. found here id), refl, omega arith),
          )
      | inr other ↦ elim (register_in_cases slots module_id flash_offset) [
        | inl (slots', e, h) ↦ inl (
          some entry ∷ slots',
          rw other (rw e refl),
          ((λ id. passed other id slots' (h.0 id)), ap suc h.1, h.2),
        )
        | inr (e, h) ↦ inr (rw other (rw e refl), (h.0, rw other h.1))
      ]
    ]
  where
    found :
        entry.module_id ≡ module_id
        → (id : ℕ)
        → find_in (some (record entry { flash_offset = flash_offset }) ∷ slots) id
          ≡ updated module_id flash_offset id (find_in (some entry ∷ slots) id)
    found here id = elim (Bool-cases (entry.module_id == id)) [
      | inl same ↦ rw (same, sym (ap (λ k. k == id) here) ∙ same) refl
      | inr other ↦ rw (other, sym (ap (λ k. k == id) here) ∙ other) refl
    ]

    passed :
        (entry.module_id == module_id) ≡ false
        → (id : ℕ) (slots' : Registry)
        → find_in slots' id ≡ updated module_id flash_offset id (find_in slots id)
        → find_in (some entry ∷ slots') id
          ≡ updated module_id flash_offset id (find_in (some entry ∷ slots) id)
    passed other id slots' e = elim (Bool-cases (entry.module_id == id)) [
      | inl at ↦ let elsewhere : (module_id == id) ≡ false = ground arith in rw (at, elsewhere) refl
      | inr past ↦ rw past e
    ]

-- What is found after modules were registered one after another: the last one with the id.
abbrev pub updated_all : List ModuleRegistration → ℕ → Option ℕ → Option ℕ
updated_all [] id before = before
updated_all (m ∷ modules) id before =
    updated_all modules id (updated m.module_id m.flash_offset id before)

module _ {S B : Type 0} where
  -- Registering a module either makes `find_offset` return its offset for it, and for every other
  -- module what it returned before; or it reports a storage error and changes nothing, and then the
  -- module was not registered and no place was free. On success the manager and the number of places
  -- stay, and one free place at most is used.
  pub register_module-find_offset :
      (e : EmbassyOverlayEngine S B) (module_id flash_offset : ℕ)
      → ((e' : EmbassyOverlayEngine S B) × (register_module module_id flash_offset e ≡ (ok tt, e'))
          × ((id : ℕ) → find_offset e' id ≡ updated module_id flash_offset id (find_offset e id))
          × (e'.manager ≡ e.manager)
          × (length e'.registry ≡ length e.registry)
          × (free_places e.registry ≤ suc (free_places e'.registry)))
        ⊎ ((register_module module_id flash_offset e ≡ (err OverlayError.storage, e))
            × (find_offset e module_id ≡ none)
            × (free_places e.registry ≡ 0))
  unfolding register_module find_offset
  register_module-find_offset e module_id flash_offset =
      elim (register_in_cases e.registry module_id flash_offset) [
        | inl (slots', eq, h) ↦
            inl (record e { registry = slots' }, rw (register_module, eq) refl, h.0, refl, h.1, h.2)
        | inr (eq, h) ↦ inr (rw (register_module, eq) refl, h.1, h.0)
      ]

  pub register_modules_lem :
      (modules : List ModuleRegistration) (e : EmbassyOverlayEngine S B)
      → length modules ≤ free_places e.registry
      → (e' : EmbassyOverlayEngine S B) × (register_modules modules e ≡ (ok tt, e'))
        × ((id : ℕ) → find_offset e' id ≡ updated_all modules id (find_offset e id))
        × (e'.manager ≡ e.manager)
        × (length e'.registry ≡ length e.registry)
  unfolding register_modules pure
  register_modules_lem [] e h = (e, refl, (λ id. refl), refl, refl)
  register_modules_lem (m ∷ modules) e h =
      elim (register_module-find_offset e m.module_id m.flash_offset) [
        | inl (e1, first, found, kept, size, room) ↦
            let (e2, rest, founds, keeps, sizes) = register_modules_lem modules e1 (omega arith) in
            (
              e2,
              >>=-ok (register_module m.module_id m.flash_offset) (λ _. register_modules modules) e
                    first
                  ∙ rest,
              (λ id. founds id ∙ ap (updated_all modules id) (found id)),
              keeps ∙ kept,
              sizes ∙ size,
            )
        | inr (_, _, full) ↦ absurd (omega arith)
      ]

pub free_places-replicate : (n : ℕ) → free_places (replicate n none) ≡ n
free_places-replicate zero = refl
free_places-replicate (suc n) = ap suc (free_places-replicate n)

pub find_in-replicate : (n id : ℕ) → find_in (replicate n none) id ≡ none
unfolding find_in
find_in-replicate zero id = refl
find_in-replicate (suc n) id = find_in-replicate n id
