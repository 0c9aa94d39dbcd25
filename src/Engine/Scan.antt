-- ===== src/Engine/Scan.antt =====
-- src/embassy/engine.rs: the scans of `mount`, on any flash.
use embedded_overlay.Base.{
  ℕ, zero, suc, ◌+◌, ◌≤◌, List, [], ◌∷◌, ◌++◌, length, length-append, replicate, leb, if◌then◌else◌,
  Option, none, some, ◌≡◌, refl, arith,
}
use embedded_overlay.Arith.{Profile}
use embedded_overlay.Bytes.{bytes_eq}
use embedded_overlay.Error.{OverlayError, Result, ok, err, panic}
use embedded_overlay.Exec.{pure, lift}
use embedded_overlay.Exec.Triple.{
  Post, Triple, Triple-pure, Triple-raise, Triple-lift, Triple-if, Triple-bind,
}
use embedded_overlay.Flash.{Flash, filled}
use embedded_overlay.Header.Directory
use embedded_overlay.Header.Entry
use embedded_overlay.Header.Entry.{directory_from_bytes}
use embedded_overlay.Header.Overlay
use embedded_overlay.Overlay.Manager.{OverlayManager}
use embedded_overlay.Overlay.Load.{read_storage}
use embedded_overlay.Overlay.Sync.{InstructionCacheSync}
use embedded_overlay.Engine.{ModuleRegistration}
use embedded_overlay.Engine.Mount.{
  magic_of, readable, directory_loop, scan_directory, next_step, try_read, sequential_loop,
  discover,
}

-- Two managers that differ in the storage only.
pub record SameSlots {S B : Type 0} (m m' : OverlayManager S B) : Type 0 where
  pub slots : m'.slots ≡ m.slots
  pub lru_counter : m'.lru_counter ≡ m.lru_counter
  pub sync : m'.sync ≡ m.sync

module _ {S E B : Type 0} (profile : Profile) (flash : Flash S E) (hook : InstructionCacheSync B)
    (max_modules : ℕ) (m₀ : OverlayManager S B) where
  -- What a scan gives: no more modules than there is room for.
  abbrev Few : List ModuleRegistration → OverlayManager S B → Type 0
  Few found m = SameSlots m₀ m × (length found ≤ max_modules)

  result-Post :
      (r : Result E (Unit {0})) (buf : List ℕ) (m : OverlayManager S B)
      → SameSlots m₀ m
      → Post (λ _. SameSlots m₀) (SameSlots m₀) (filled OverlayError.storage r buf) m
  result-Post (ok _) buf m h = h
  result-Post (err _) buf m h = h
  result-Post panic buf m h = h

  readable-Post :
      (r : Result E (Unit {0})) (buf : List ℕ) (m : OverlayManager S B)
      → SameSlots m₀ m
      → Post (λ _. SameSlots m₀) (SameSlots m₀) (readable r buf) m
  readable-Post (ok _) buf m h = h
  readable-Post (err _) buf m h = h
  readable-Post panic buf m h = h

  read_storage_rule :
      (offset : ℕ) (buf : List ℕ)
      → Triple
          (SameSlots m₀)
          (read_storage profile flash hook offset buf)
          (λ _. SameSlots m₀)
          (SameSlots m₀)
  unfolding read_storage
  read_storage_rule offset buf = record {
    at = λ m h.
        let (r, buf', storage') = flash.read m.storage offset buf in
        result-Post r buf' (record m { storage = storage' })
          (record { slots = h.slots; lru_counter = h.lru_counter; sync = h.sync });
  }

  try_read_rule :
      (offset : ℕ) (buf : List ℕ)
      → Triple
          (SameSlots m₀)
          (try_read profile flash hook max_modules offset buf)
          (λ _. SameSlots m₀)
          (SameSlots m₀)
  unfolding try_read
  try_read_rule offset buf = record {
    at = λ m h.
        let (r, buf', storage') = flash.read m.storage offset buf in
        readable-Post r buf' (record m { storage = storage' })
          (record { slots = h.slots; lru_counter = h.lru_counter; sync = h.sync });
  }

  -- A computation on numbers and buffers only.
  lift_rule :
      {A : Type 0} (r : Result OverlayError A)
      → Triple (SameSlots m₀) (lift r) (λ _. SameSlots m₀) (SameSlots m₀)
  lift_rule r = Triple-lift r (λ _. SameSlots m₀) (λ a s p e. p) (λ s p. p)

  one_more :
      (found : List ModuleRegistration) (m : ModuleRegistration) (n : ℕ)
      → suc (length found) ≤ n
      → length (found ++ (m ∷ [])) ≤ n
  one_more found m n h = omega (arith, length-append found (m ∷ []))

  directory_loop_rule :
      (start n i : ℕ) (buf : List ℕ) (found : List ModuleRegistration)
      → length found ≤ max_modules
      → Triple
          (SameSlots m₀)
          (directory_loop profile flash hook max_modules start n i buf found)
          Few
          (SameSlots m₀)
  unfolding directory_loop
  directory_loop_rule start zero i buf found few = Triple-pure found Few (λ s p. (p, few))
  directory_loop_rule start (suc n) i buf found few =
      Triple-if (leb max_modules (length found)) _ _ Few
        (λ full. Triple-pure found Few (λ s p. (p, few)))
        (λ more.
          Triple-bind (λ _. SameSlots m₀) _ _ Few (lift_rule _)
            (λ distance.
              Triple-bind (λ _. SameSlots m₀) _ _ Few (lift_rule _)
                (λ offset.
                  Triple-bind (λ _. SameSlots m₀) _ _ Few (read_storage_rule offset buf)
                    (λ buf'.
                      Triple-bind (λ _. SameSlots m₀) _ _ Few (lift_rule _)
                        (λ entry.
                          directory_loop_rule start n (suc i) buf' _
                            (one_more found _ max_modules (ground arith)))))))

  scan_directory_rule :
      (base : ℕ) (buf : List ℕ)
      → Triple
          (SameSlots m₀)
          (scan_directory profile flash hook max_modules base buf)
          Few
          (SameSlots m₀)
  unfolding scan_directory
  scan_directory_rule base buf =
      Triple-bind (λ _. SameSlots m₀) _ _ Few (lift_rule _)
        (λ dir.
          Triple-bind (λ _. SameSlots m₀) _ _ Few (lift_rule _)
            (λ start.
              directory_loop_rule start dir.entry_count 0 (replicate Entry.size 0) []
                (omega arith)))

  next_step_rule :
      (code_size : ℕ)
      → Triple
          (SameSlots m₀)
          (next_step profile flash hook max_modules code_size)
          (λ _. SameSlots m₀)
          (SameSlots m₀)
  unfolding next_step
  next_step_rule code_size =
      Triple-bind (λ _. SameSlots m₀) _ _ (λ _. SameSlots m₀) (lift_rule _)
        (λ end.
          Triple-bind (λ _. SameSlots m₀) _ _ (λ _. SameSlots m₀) (lift_rule _)
            (λ padded. Triple-pure _ (λ _. SameSlots m₀) (λ s p. p)))

  sequential_loop_rule :
      (n current : ℕ) (buf : List ℕ) (found : List ModuleRegistration)
      → length found + n ≤ max_modules
      → Triple
          (SameSlots m₀)
          (sequential_loop profile flash hook max_modules n current buf found)
          Few
          (SameSlots m₀)
  unfolding sequential_loop
  sequential_loop_rule zero current buf found few = Triple-pure found Few (λ s p. (p, omega arith))
  sequential_loop_rule (suc n) current buf found few =
      parsed (λ id offset buf'. sequential_loop_rule n offset buf' (found_after id) (room id))
        (Overlay.from_bytes buf) refl
    where
      found_after : ℕ → List ModuleRegistration
      found_after id = found ++ (record { module_id = id; flash_offset = current } ∷ [])

      room : (id : ℕ) → length (found_after id) + n ≤ max_modules
      room id =
          omega
            (arith, length-append found (record { module_id = id; flash_offset = current } ∷ []))

      Rest : Type 0
      Rest =
          (id offset : ℕ) (buf : List ℕ)
          → Triple (SameSlots m₀)
              (sequential_loop profile flash hook max_modules n offset buf (found_after id)) Few
              (SameSlots m₀)

      go :
          Rest
          → (id offset : ℕ) (r : Option (List ℕ))
          → Triple {E = OverlayError} {A = List ModuleRegistration}
              (SameSlots m₀)
              (elim r [
                | none ↦ pure (found_after id)
                | some buf ↦
                    if bytes_eq (magic_of buf) Overlay.magic_bytes
                    then sequential_loop profile flash hook max_modules n offset buf
                        (found_after id)
                    else pure (found_after id)
              ])
              Few
              (SameSlots m₀)
      go rest id offset none = Triple-pure (found_after id) Few (λ s p. (p, omega (arith, room id)))
      go rest id offset (some buf) =
          Triple-if (bytes_eq (magic_of buf) Overlay.magic_bytes) _ _ Few
            (λ next. rest id offset buf)
            (λ other. Triple-pure (found_after id) Few (λ s p. (p, omega (arith, room id))))

      parsed :
          Rest
          → (r : Result OverlayError Overlay.OverlayHeader) → Overlay.from_bytes buf ≡ r
          → Triple
              (SameSlots m₀)
              (sequential_loop profile flash hook max_modules (suc n) current buf found)
              Few
              (SameSlots m₀)
      parsed rest (err e) eq =
          rw (sequential_loop, eq) (Triple-pure found Few (λ s p. (p, omega arith)))
      parsed rest panic eq = rw (sequential_loop, eq) (record { at = λ s p. p })
      parsed rest (ok h) eq =
          rw (sequential_loop, eq)
            (Triple-bind (λ _. SameSlots m₀) _ _ Few (next_step_rule h.code_size)
              (λ step.
                Triple-bind (λ _. SameSlots m₀) _ _ Few (lift_rule _)
                  (λ offset.
                    Triple-bind (λ _. SameSlots m₀) _ _ Few (try_read_rule offset buf)
                      (λ r. go rest h.module_id offset r))))

  pub discover_rule :
      (base : ℕ)
      → Triple (SameSlots m₀) (discover profile flash hook max_modules base) Few (SameSlots m₀)
  unfolding discover
  discover_rule base =
      Triple-bind (λ _. SameSlots m₀) _ _ Few (read_storage_rule base (replicate 32 0))
        (λ buf.
          Triple-if (bytes_eq (magic_of buf) Directory.magic_bytes) _ _ Few
            (λ directory. scan_directory_rule base buf)
            (λ other.
              Triple-if (bytes_eq (magic_of buf) Overlay.magic_bytes) _ _ Few
                (λ container. sequential_loop_rule max_modules base buf [] (omega arith))
                (λ neither. Triple-raise OverlayError.invalid_magic Few (λ s p. p))))
