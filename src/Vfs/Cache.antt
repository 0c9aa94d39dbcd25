-- ===== src/Vfs/Cache.antt =====
-- src/vfs/cache.rs: the cache of whole flash sectors.
use embedded_overlay.Base.{
  ℕ, suc, ◌+◌, ◌-◌, ◌%◌, ◌^◌, List, [], ◌∷◌, replicate, get_elem?, modify_at, map, Bool, false,
  ◌==◌, ltb, if◌then◌else◌, Option, none, some,
}
use embedded_overlay.Arith.{Profile, as_u32, add_u32, mul_u32}
use embedded_overlay.Error.{VfsError, Result, ok, err, panic}
use embedded_overlay.Flash.{Flash}

pub record CacheEntry : Type 0 where
  pub sector_id : Option ℕ
  pub generation : ℕ
  pub content : List ℕ

pub record LruSectorCache : Type 0 where
  pub entries : List CacheEntry
  pub lru_counter : ℕ

unfoldable pub make_entry : ℕ → CacheEntry
make_entry sector_size = record {
  sector_id = none;
  generation = 0;
  content = replicate sector_size 0;
}

unfoldable pub new : ℕ → ℕ → LruSectorCache
unfolding make_entry
new sectors sector_size = record {
  entries = replicate sectors (make_entry sector_size);
  lru_counter = 0;
}

-- `entry.sector_id == Some(sector_id)`
abbrev pub caches : Option ℕ → ℕ → Bool
caches none sector_id = false
caches (some id) sector_id = id == sector_id

-- The search of `get` and of `get_or_load`, at index `i`.
unfoldable pub find_sector : ℕ → List CacheEntry → ℕ → Option ℕ
find_sector i [] sector_id = none
find_sector i (entry ∷ entries) sector_id =
    if caches entry.sector_id sector_id then some i else find_sector (suc i) entries sector_id

-- The second loop of `get_or_load`, which stops at an empty entry.
unfoldable pub find_target : ℕ → List CacheEntry → ℕ → ℕ → ℕ
find_target i [] target_idx min_gen = target_idx
find_target i (entry ∷ entries) target_idx min_gen = elim entry.sector_id [
  | none ↦ i
  | some _ ↦
      let older = ltb entry.generation min_gen in
      find_target (suc i) entries (if older then i else target_idx)
        (if older then entry.generation else min_gen)
]

abbrev pub next : ℕ → ℕ
next lru_counter = (lru_counter + 1) % 2 ^ 64

-- A hit on the entry `i`.
unfoldable pub used : LruSectorCache → ℕ → LruSectorCache
used c i = record {
  entries = modify_at (λ entry. record entry { generation = next c.lru_counter }) i c.entries;
  lru_counter = next c.lru_counter;
}

unfoldable pub get : LruSectorCache → ℕ → Option (List ℕ) × LruSectorCache
unfolding find_sector used
get c sector_id = elim (find_sector 0 c.entries sector_id) [
  | none ↦ (none, c)
  | some i ↦ elim (get_elem? c.entries i) [
    | none ↦ (none, c)
    | some entry ↦ (some entry.content, used c i)
  ]
]

-- What the read of a sector into the entry `i` leaves; a failed one keeps the sector number.
unfoldable pub store :
    {E : Type 0}
    → LruSectorCache
    → ℕ
    → ℕ
    → Result E (Unit {0})
    → List ℕ
    → Result VfsError (List ℕ) × LruSectorCache
store c i sector_id (ok _) content = (
  ok content,
  record {
    entries =
        modify_at
          (λ entry. record {
            sector_id = some sector_id;
            generation = next c.lru_counter;
            content = content;
          })
          i c.entries;
    lru_counter = next c.lru_counter;
  },
)
store c i sector_id (err _) content = (
  err VfsError.storage,
  record c { entries = modify_at (λ entry. record entry { content = content }) i c.entries },
)
store c i sector_id panic content = (
  panic,
  record c { entries = modify_at (λ entry. record entry { content = content }) i c.entries },
)

abbrev pub cleared : CacheEntry → CacheEntry
cleared entry = record entry { sector_id = none; generation = 0 }

unfoldable pub clear : LruSectorCache → LruSectorCache
clear c = record c { entries = map cleared c.entries }

module _ {S E : Type 0} (profile : Profile) (flash : Flash S E) (sector_size : ℕ) where
  -- From the choice of an entry on.
  unfoldable pub load : LruSectorCache → S → ℕ → ℕ → Result VfsError (List ℕ) × LruSectorCache × S
  unfolding find_target store
  load c storage sector_id flash_base_addr =
      let target_idx = find_target 0 c.entries 0 (2 ^ 64 - 1) in
      elim (mul_u32 {E = VfsError} profile sector_id (as_u32 sector_size)) [
        | err e ↦ (err e, c, storage)
        | panic ↦ (panic, c, storage)
        | ok distance ↦ elim (add_u32 {E = VfsError} profile flash_base_addr distance) [
          | err e ↦ (err e, c, storage)
          | panic ↦ (panic, c, storage)
          | ok sector_flash_offset ↦ elim (get_elem? c.entries target_idx) [
            | none ↦ (panic, c, storage)
            | some entry ↦
                let (r, content', storage') =
                  flash.read storage sector_flash_offset entry.content in
                let (r', c') = store c target_idx sector_id r content' in (r', c', storage')
          ]
        ]
      ]

  unfoldable pub get_or_load :
      LruSectorCache → S → ℕ → ℕ → Result VfsError (List ℕ) × LruSectorCache × S
  unfolding find_sector used
  get_or_load c storage sector_id flash_base_addr = elim (find_sector 0 c.entries sector_id) [
    | none ↦ load c storage sector_id flash_base_addr
    | some i ↦ elim (get_elem? c.entries i) [
      | none ↦ (panic, c, storage)
      | some entry ↦ (ok entry.content, used c i, storage)
    ]
  ]
