-- ===== src/Vfs/Whole.antt =====
-- src/vfs/mod.rs: reading a whole asset on a flash that holds it.
use embedded_overlay.Base.{
  ℕ, ◌+◌, ◌-◌, ◌*◌, ◌^◌, ◌≤◌, ◌<◌, min, List, ◌++◌, length, slice, take, drop, length-take,
  drop_length, ltb, if◌then◌else◌, Bool-cases, ◌≡◌, inl, inr, refl, sym, ap, ◌∙◌, arith,
}
use mathlib.Core.Path.{ap₂}
use mathlib.Core.List.{append-nil}
use embedded_overlay.Arith.{Profile}
use embedded_overlay.Error.{VfsError, Result, ok, err}
use embedded_overlay.Flash.{Flash, Serves}
use embedded_overlay.Header.Entry
use embedded_overlay.Header.Entry.{VfsAssetEntry}
use embedded_overlay.Vfs.Reader.{VfsReader, find_entry, stream_chunk, read_entry, read_asset}
use embedded_overlay.Vfs.Indexed.{IsTable, lookup, find_entry-lookup}
use embedded_overlay.Vfs.Stream.{asset_start, stream_chunk-slice}

module _ {S E : Type 0} (profile : Profile) (flash : Flash S E) (image : List ℕ)
    (Holds : S → Type 0) (serves : Serves flash image Holds) where
  -- What `read_asset` returns, and the buffer after it.
  abbrev pub whole : VfsReader S → VfsAssetEntry → List ℕ → Result VfsError ℕ × List ℕ
  whole v entry dest =
      if ltb (length dest) entry.length
      then (err (VfsError.buffer_too_small entry.length (length dest)), dest)
      else (
        ok entry.length,
        slice (asset_start profile flash image Holds serves v entry) entry.length image
            ++ drop entry.length dest,
      )

  -- On a flash that serves an image with an index table where the superblock says, and with the contents
  -- of an asset where the table says, below the address 2^32, `read_asset` copies all bytes of the asset to
  -- the start of the buffer, returns their number and keeps the rest of the buffer, when the buffer is
  -- long enough; else it returns `BufferTooSmall` with both lengths, and the buffer stays.
  pub read_asset-whole :
      (entries : List VfsAssetEntry) (entry : VfsAssetEntry) (asset_id : ℕ) (dest : List ℕ)
      (v : VfsReader S)
      → Holds v.storage
      → v.superblock.asset_count ≡ length entries
      → IsTable image (v.partition_base + v.superblock.index_offset) 0 entries
      → v.partition_base + v.superblock.index_offset + length entries * Entry.size < 2 ^ 32
      → lookup entries asset_id ≡ ok entry
      → asset_start profile flash image Holds serves v entry + entry.length ≤ length image
      → asset_start profile flash image Holds serves v entry + entry.length < 2 ^ 32
      → (storage' : S) × (read_asset profile flash asset_id dest v
          ≡ ((whole v entry dest).0, (whole v entry dest).1, record v { storage = storage' }))
        × Holds storage'
  unfolding read_asset read_entry
  read_asset-whole entries entry asset_id dest v holds count table bound found inside below =
      let (s₁, run, holds₁) =
        find_entry-lookup profile flash image Holds serves entries asset_id v holds count table
          bound in
      let v₁ : VfsReader S = record v { storage = s₁ } in
      let located : find_entry profile flash asset_id v ≡ (ok entry, v₁) =
        run ∙ ap (λ r. (r, v₁)) found in
      let started : read_asset profile flash asset_id dest v
          ≡ read_entry profile flash asset_id dest (ok entry) v₁ =
        ap (λ (r, v'). read_entry profile flash asset_id dest r v') located in
      elim (Bool-cases (ltb (length dest) entry.length)) [
        | inl short ↦ (s₁, started ∙ rw (read_entry, short) refl, holds₁)
        | inr room ↦
            let n = entry.length in
            let front = take n dest in
            let fits : n ≤ length dest = ground arith in
            let long : length front ≡ n = omega (arith, length-take n dest) in
            let (s₂, streamed, holds₂) =
              stream_chunk-slice profile flash image Holds serves entries entry asset_id 0 front v₁
                holds₁ count table bound found inside below in
            let all : min (n - 0) (length front) ≡ n = omega (arith, long) in
            let start = asset_start profile flash image Holds serves v entry in
            let bytes : slice (start + 0) (min (n - 0) (length front)) image
                  ++ drop (min (n - 0) (length front)) front
                ≡ slice start n image =
              ap₂ (λ o k. slice o k image ++ drop k front) (omega arith) all
              ∙ ap (λ t. slice start n image ++ t)
                  (ap (λ k. drop k front) (sym long) ∙ drop_length front)
              ∙ append-nil (slice start n image) in
            let result : stream_chunk profile flash asset_id 0 front v₁
                ≡ (ok n, slice start n image, record v { storage = s₂ }) =
              streamed ∙ ap₂ (λ k b. (ok k, b, record v { storage = s₂ })) all bytes in
            (
              s₂,
              started ∙ rw (read_entry, room) (ap (λ (r, b, t). (r, b ++ drop n dest, t)) result),
              holds₂,
            )
      ]
