-- ===== src/Vfs/Indexed.antt =====
-- The search of the index on a flash that holds an index table.
use embedded_overlay.Base.{
  ℕ, suc, ◌+◌, ◌*◌, ◌^◌, ◌≤◌, ◌<◌, List, [], ◌∷◌, length, slice, replicate, length-replicate, ◌==◌,
  if◌then◌else◌, Bool-cases, ◌≡◌, inl, inr, refl, ap, ◌∙◌, arith,
}
use embedded_overlay.Arith.{Profile, as_u32, add_u32, u32_value_lem}
use embedded_overlay.Error.{VfsError, Result, ok, err}
use embedded_overlay.Exec.{lift, ◌>>=◌, >>=-ok}
use embedded_overlay.Flash.{Flash, Serves, filled}
use embedded_overlay.Header.Entry
use embedded_overlay.Header.Entry.{VfsAssetEntry, asset_to_bytes, asset_from_bytes}
use embedded_overlay.Header.Entry.Laws.{AssetFits, asset_from_bytes-to_bytes, length-asset_to_bytes}
use embedded_overlay.Vfs.Reader.{VfsReader, read_storage, find_from, find_entry}

-- `image` has the entries one after another, from the entry `i` of the table at `start` on.
abbrev pub IsTable : List ℕ → ℕ → ℕ → List VfsAssetEntry → Type 0
IsTable image start i [] = Unit
IsTable image start i (entry ∷ entries) =
    AssetFits entry
    × (slice (start + i * Entry.size) Entry.size image ≡ asset_to_bytes entry)
    × (start + i * Entry.size + Entry.size ≤ length image)
    × IsTable image start (suc i) entries

-- The first entry with an id.
abbrev pub lookup : List VfsAssetEntry → ℕ → Result VfsError VfsAssetEntry
lookup [] asset_id = err (VfsError.asset_not_found asset_id)
lookup (entry ∷ entries) asset_id =
    if entry.asset_id == asset_id then ok entry else lookup entries asset_id

module _ {S E : Type 0} (profile : Profile) (flash : Flash S E) (image : List ℕ)
    (Holds : S → Type 0) (serves : Serves flash image Holds) where
  read_storage_ok :
      (offset : ℕ) (buf buf' : List ℕ) (storage' : S) (v : VfsReader S)
      → flash.read v.storage offset buf ≡ (ok tt, buf', storage')
      → read_storage profile flash offset buf v ≡ (ok buf', record v { storage = storage' })
  unfolding read_storage
  read_storage_ok offset buf buf' storage' v e =
      ap (λ (r, b, t). (filled VfsError.storage r b, record v { storage = t })) e

  find_from-lookup :
      (entries : List VfsAssetEntry) (i start asset_id : ℕ) (buf : List ℕ) (v : VfsReader S)
      → Holds v.storage
      → IsTable image start i entries
      → start + (i + length entries) * Entry.size < 2 ^ 32
      → length buf ≡ Entry.size
      → (storage' : S) × (find_from profile flash (length entries) i start asset_id buf v
          ≡ (lookup entries asset_id, record v { storage = storage' }))
        × Holds storage'
  unfolding find_from ◌>>=◌
  find_from-lookup [] i start asset_id buf v holds table bound full = (v.storage, refl, holds)
  find_from-lookup (entry ∷ entries) i start asset_id buf v holds (fits, bytes, inside, table) bound
        full =
      let offset = start + i * Entry.size in
      let (s₁, read, holds₁) = serves.read_lem v.storage offset buf holds (omega (arith, full)) in
      let v₁ : VfsReader S = record v { storage = s₁ } in
      let buf₁ = asset_to_bytes entry in
      let got : slice offset (length buf) image ≡ buf₁ =
        ap (λ n. slice offset n image) full ∙ bytes in
      let small : as_u32 (i * Entry.size) ≡ i * Entry.size = omega arith in
      let sum : add_u32 {E = VfsError} profile start (as_u32 (i * Entry.size)) ≡ ok offset =
        ap (λ t. add_u32 {E = VfsError} profile start t) small
        ∙ u32_value_lem profile offset (omega arith) in
      let parsed : asset_from_bytes buf₁ ≡ ok entry = asset_from_bytes-to_bytes entry fits in
      let first : find_from profile flash (length (entry ∷ entries)) i start asset_id buf v ≡ _ =
        >>=-ok (lift (add_u32 profile start (as_u32 (i * Entry.size)))) _ v (ap (λ r. (r, v)) sum)
        ∙ >>=-ok (read_storage profile flash offset buf) _ v
            (read_storage_ok offset buf buf₁ s₁ v (read ∙ ap (λ b. (ok tt, b, s₁)) got))
        ∙ >>=-ok (lift (asset_from_bytes buf₁)) _ v₁ (ap (λ r. (r, v₁)) parsed) in
      elim (Bool-cases (entry.asset_id == asset_id)) [
        | inl same ↦ (s₁, first ∙ rw same refl, holds₁)
        | inr other ↦
            let (s₂, rest, holds₂) =
              find_from-lookup entries (suc i) start asset_id buf₁ v₁ holds₁ table (omega arith)
                (length-asset_to_bytes entry) in
            (s₂, first ∙ rw other rest, holds₂)
      ]

  -- On a flash that serves an image with an index table of entries where the superblock says, below the
  -- address 2^32, and as many as it says, `find_entry` returns the first entry with the id, and
  -- `AssetNotFound` when there is none; it always ends with one of these. The flash still serves the image.
  pub find_entry-lookup :
      (entries : List VfsAssetEntry) (asset_id : ℕ) (v : VfsReader S)
      → Holds v.storage
      → v.superblock.asset_count ≡ length entries
      → IsTable image (v.partition_base + v.superblock.index_offset) 0 entries
      → v.partition_base + v.superblock.index_offset + length entries * Entry.size < 2 ^ 32
      → (storage' : S) × (find_entry profile flash asset_id v
          ≡ (lookup entries asset_id, record v { storage = storage' }))
        × Holds storage'
  unfolding find_entry lift
  find_entry-lookup entries asset_id v holds count table bound =
      let index_start = v.partition_base + v.superblock.index_offset in
      let zeros : List ℕ = replicate Entry.size 0 in
      let sum : add_u32 {E = VfsError} profile v.partition_base v.superblock.index_offset
          ≡ ok index_start =
        u32_value_lem profile index_start (omega arith) in
      let (storage', run, holds') =
        find_from-lookup entries 0 index_start asset_id zeros v holds table (omega arith)
          (length-replicate {A = ℕ} Entry.size 0) in
      (
        storage',
        >>=-ok (lift (add_u32 profile v.partition_base v.superblock.index_offset))
              (λ start. find_from profile flash v.superblock.asset_count 0 start asset_id zeros) v
              (ap (λ r. (r, v)) sum)
            ∙ ap (λ n. find_from profile flash n 0 index_start asset_id zeros v) count
            ∙ run,
        holds',
      )
