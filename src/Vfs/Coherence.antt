-- ===== src/Vfs/Coherence.antt =====
-- The sector cache against the flash behind it.
use embedded_overlay.Base.{
  ℕ, suc, ◌+◌, ◌-◌, ◌*◌, ◌^◌, ◌≤◌, ◌<◌, List, [], ◌∷◌, length, slice, get_elem?, modify_at,
  length-modify_at, length-slice, All-get, get_elem?-lt, true, ==_iff, ltb, Option, none, some,
  Bool-cases, Option-cases, All, All-modify_at, ◌≡◌, inl, inr, refl, sym, ap, ◌∙◌, arith,
}
use mathlib.Core.Path.{subst}
use mathlib.Core.Option.{some-injective}
use embedded_overlay.Arith.{Profile, as_u32, add_u32, mul_u32, u32_value_lem}
use embedded_overlay.Error.{VfsError, ok}
use embedded_overlay.Flash.{Flash, Serves}
use embedded_overlay.Vfs.Cache.{
  CacheEntry, LruSectorCache, caches, find_sector, find_target, next, used, store, load,
  get_or_load,
}

-- The sector with a number, in an image that starts at `base`.
abbrev pub sector : ℕ → ℕ → List ℕ → ℕ → List ℕ
sector base sector_size image id = slice (base + id * sector_size) sector_size image

-- An entry that has a number has the contents of that sector.
abbrev pub Matches : (ℕ → List ℕ) → Option ℕ → List ℕ → Type 0
Matches sectors none content = Unit
Matches sectors (some id) content = content ≡ sectors id

abbrev pub IsFaithful : ℕ → (ℕ → List ℕ) → CacheEntry → Type 0
IsFaithful sector_size sectors entry =
    (length entry.content ≡ sector_size) × Matches sectors entry.sector_id entry.content

abbrev pub IsCoherent : ℕ → (ℕ → List ℕ) → LruSectorCache → Type 0
IsCoherent sector_size sectors c = All (IsFaithful sector_size sectors) c.entries

find_sector-some :
    (i : ℕ) (entries : List CacheEntry) (id k : ℕ)
    → find_sector i entries id ≡ some k
    → (j : ℕ) × (entry : CacheEntry) × (k ≡ i + j)
      × (get_elem? entries j ≡ some entry)
      × (entry.sector_id ≡ some id)
unfolding find_sector
find_sector-some i [] id k e = cc
find_sector-some i (entry ∷ entries) id k e = elim (Bool-cases (caches entry.sector_id id)) [
  | inl found ↦
      let here : some i ≡ some k = sym (rw found refl) ∙ e in
      let at : i ≡ k = some-injective _ _ here in
      (0, entry, omega arith, refl, caches_lem entry.sector_id found)
  | inr other ↦
      let (j, t, e', at, h) = find_sector-some (suc i) entries id k (sym (rw other refl) ∙ e) in
      (suc j, t, omega arith, at, h)
]
  where
    caches_lem : (r : Option ℕ) → caches r id ≡ true → r ≡ some id
    caches_lem none h = cc
    caches_lem (some a) h = ap some ((==_iff a id).0 h)

find_target-lt :
    (n i : ℕ) (entries : List CacheEntry) (target_idx min_gen : ℕ)
    → target_idx < n
    → i + length entries ≤ n
    → find_target i entries target_idx min_gen < n
unfolding find_target
find_target-lt n i [] target_idx min_gen h fits = h
find_target-lt n i (entry ∷ entries) target_idx min_gen h fits =
    elim (Option-cases entry.sector_id) [
      | inl empty ↦ rw empty (omega arith)
      | inr (id, taken) ↦ rw taken (elim (Bool-cases (ltb entry.generation min_gen)) [
        | inl older ↦
            rw older
              (find_target-lt n (suc i) entries i entry.generation (omega arith) (omega arith))
        | inr newer ↦ rw newer (find_target-lt n (suc i) entries target_idx min_gen h (omega arith))
      ])
    ]

-- What a read sector and a hit make of an entry.
abbrev stored_entry : LruSectorCache → ℕ → List ℕ → CacheEntry → CacheEntry
stored_entry c id content entry = record {
  sector_id = some id;
  generation = next c.lru_counter;
  content = content;
}

abbrev stored : LruSectorCache → ℕ → ℕ → List ℕ → LruSectorCache
stored c i id content = record {
  entries = modify_at (stored_entry c id content) i c.entries;
  lru_counter = next c.lru_counter;
}

abbrev used_entry : LruSectorCache → CacheEntry → CacheEntry
used_entry c entry = record entry { generation = next c.lru_counter }

module _ {S E : Type 0} (profile : Profile) (flash : Flash S E) (sector_size base : ℕ)
    (image : List ℕ) (Holds : S → Type 0) (serves : Serves flash image Holds) where
  load_ok :
      (c : LruSectorCache) (storage : S) (id : ℕ) (entry : CacheEntry) (content' : List ℕ)
      (storage' : S)
      → get_elem? c.entries (find_target 0 c.entries 0 (2 ^ 64 - 1)) ≡ some entry
      → base + id * sector_size + sector_size < 2 ^ 32
      → flash.read storage (base + id * sector_size) entry.content ≡ (ok tt, content', storage')
      → load profile flash sector_size c storage id base
        ≡ (ok content', stored c (find_target 0 c.entries 0 (2 ^ 64 - 1)) id content', storage')
  unfolding load store
  load_ok c storage id entry content' storage' at bound read =
      let whole : as_u32 sector_size ≡ sector_size = omega arith in
      let product : mul_u32 {E = VfsError} profile id (as_u32 sector_size) ≡ ok (id * sector_size) =
        ap (λ t. mul_u32 {E = VfsError} profile id t) whole
        ∙ u32_value_lem profile (id * sector_size) (omega arith) in
      let sum : add_u32 {E = VfsError} profile base (id * sector_size)
          ≡ ok (base + id * sector_size) =
        u32_value_lem profile (base + id * sector_size) (omega arith) in
      rw (load, product) (rw sum (rw at (rw read refl)))

  -- A sector is read into the chosen entry.
  load_lem :
      (c : LruSectorCache) (storage : S) (id : ℕ)
      → Holds storage
      → IsCoherent sector_size (sector base sector_size image) c
      → 0 < length c.entries
      → base + id * sector_size + sector_size ≤ length image
      → base + id * sector_size + sector_size < 2 ^ 32
      → (c' : LruSectorCache) × (storage' : S) × (load profile flash sector_size c storage id base
          ≡ (ok (sector base sector_size image id), c', storage'))
        × IsCoherent sector_size (sector base sector_size image) c'
        × (length c'.entries ≡ length c.entries)
        × Holds storage'
  load_lem c storage id holds coherent nonempty fits bound =
      let sectors = sector base sector_size image in
      let target_idx = find_target 0 c.entries 0 (2 ^ 64 - 1) in
      let inside =
        find_target-lt (length c.entries) 0 c.entries 0 (2 ^ 64 - 1) nonempty (omega arith) in
      let (entry, at) = get_elem?-lt c.entries target_idx inside in
      let (full, _) = All-get (IsFaithful sector_size sectors) c.entries target_idx coherent at in
      let (storage', read, holds') =
        serves.read_lem storage (base + id * sector_size) entry.content holds
          (omega (arith, full)) in
      let filled : slice (base + id * sector_size) (length entry.content) image ≡ sectors id =
        ap (λ n. slice (base + id * sector_size) n image) full in
      let c' = stored c target_idx id (sectors id) in
      (
        c',
        storage',
        load_ok c storage id entry (sectors id) storage' at bound
            (read ∙ ap (λ t. (ok tt, t, storage')) filled),
        All-modify_at (IsFaithful sector_size sectors) (stored_entry c id (sectors id)) target_idx
            c.entries
            (λ entry _. (length-slice (base + id * sector_size) sector_size image fits, refl))
            coherent,
        length-modify_at (stored_entry c id (sectors id)) target_idx c.entries,
        holds',
      )

  -- On a flash that serves an image, and a coherent cache with at least one entry, `get_or_load` of a
  -- sector that lies in the image, with its end below the address 2^32, returns the contents of that
  -- sector there, hit or miss; and it keeps the number of entries, what the flash serves, and the
  -- cache coherent. In a coherent cache every entry has the bytes of one sector, and those with a
  -- sector number have the contents of that sector.
  pub get_or_load-sector :
      (c : LruSectorCache) (storage : S) (id : ℕ)
      → Holds storage
      → IsCoherent sector_size (sector base sector_size image) c
      → 0 < length c.entries
      → base + id * sector_size + sector_size ≤ length image
      → base + id * sector_size + sector_size < 2 ^ 32
      → (c' : LruSectorCache) × (storage' : S) × (get_or_load profile flash sector_size c storage id
            base
          ≡ (ok (sector base sector_size image id), c', storage'))
        × IsCoherent sector_size (sector base sector_size image) c'
        × (length c'.entries ≡ length c.entries)
        × Holds storage'
  unfolding get_or_load used
  get_or_load-sector c storage id holds coherent nonempty fits bound =
      elim (Option-cases (find_sector 0 c.entries id)) [
        | inl missing ↦
            rw (missing, get_or_load) (load_lem c storage id holds coherent nonempty fits bound)
        | inr (k, found) ↦ hit k found
      ]
    where
      hit :
          (k : ℕ)
          → find_sector 0 c.entries id ≡ some k
          → (c' : LruSectorCache) × (storage' : S) × (get_or_load profile flash sector_size c
                storage id base
              ≡ (ok (sector base sector_size image id), c', storage'))
            × IsCoherent sector_size (sector base sector_size image) c'
            × (length c'.entries ≡ length c.entries)
            × Holds storage'
      hit k found =
          let sectors = sector base sector_size image in
          let (j, entry, same, at, number) = find_sector-some 0 c.entries id k found in
          let here : get_elem? c.entries k ≡ some entry =
            ap (get_elem? c.entries) (omega arith) ∙ at in
          let faithful = All-get (IsFaithful sector_size sectors) c.entries j coherent at in
          let content : entry.content ≡ sectors id =
            subst (λ r. Matches sectors r entry.content) number faithful.1 in
          let run : get_or_load profile flash sector_size c storage id base
              ≡ (ok entry.content, used c k, storage) =
            rw (found, get_or_load) (rw here refl) in
          (
            used c k,
            storage,
            run ∙ ap (λ t. (ok t, used c k, storage)) content,
            All-modify_at (IsFaithful sector_size sectors) (used_entry c) k c.entries (λ entry h. h)
                coherent,
            length-modify_at (used_entry c) k c.entries,
            holds,
          )
