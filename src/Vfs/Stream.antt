-- ===== src/Vfs/Stream.antt =====
-- The streaming of an asset on a flash that holds it.
use embedded_overlay.Base.{
  ℕ, ◌+◌, ◌-◌, ◌*◌, ◌^◌, ◌≤◌, ◌<◌, min, List, ◌++◌, length, slice, take, drop, length-take, leb,
  leb→le, Bool-cases, ◌≡◌, inl, inr, refl, ap, ◌∙◌, arith,
}
use embedded_overlay.Arith.{Profile, as_u32, add_u32, u32_value_lem}
use embedded_overlay.Error.{VfsError, ok}
use embedded_overlay.Flash.{Flash, Serves, filled}
use embedded_overlay.Header.Entry
use embedded_overlay.Header.Entry.{VfsAssetEntry}
use embedded_overlay.Vfs.Reader.{
  VfsReader, and_then, find_entry, chunk_addr, read_chunk, stream_entry, stream_chunk,
}
use embedded_overlay.Vfs.Indexed.{IsTable, lookup, find_entry-lookup}

module _ {S E : Type 0} (profile : Profile) (flash : Flash S E) (image : List ℕ)
    (Holds : S → Type 0) (serves : Serves flash image Holds) where
  -- Where the contents of an asset begin.
  abbrev pub asset_start : VfsReader S → VfsAssetEntry → ℕ
  asset_start v entry = v.partition_base + v.superblock.data_offset + entry.flash_offset

  chunk_addr_ok :
      (v : VfsReader S) (entry : VfsAssetEntry) (offset : ℕ)
      → asset_start v entry + offset < 2 ^ 32
      → chunk_addr profile flash v entry offset ≡ ok (asset_start v entry + offset)
  unfolding chunk_addr
  chunk_addr_ok v entry offset bound =
      let data_start = v.partition_base + v.superblock.data_offset in
      let whole : as_u32 offset ≡ offset = omega arith in
      rw (u32_value_lem {E = VfsError} profile data_start (omega arith)) (
        rw (u32_value_lem {E = VfsError} profile (asset_start v entry) (omega arith)) (
          ap (λ t. add_u32 {E = VfsError} profile (asset_start v entry) t) whole
          ∙ u32_value_lem profile (asset_start v entry + offset) bound))

  read_chunk_ok :
      (v : VfsReader S) (flash_addr to_read : ℕ) (dest bytes : List ℕ) (storage' : S)
      → flash.read v.storage flash_addr (take to_read dest) ≡ (ok tt, bytes, storage')
      → read_chunk profile flash v flash_addr to_read dest
        ≡ (ok to_read, bytes ++ drop to_read dest, record v { storage = storage' })
  unfolding read_chunk
  read_chunk_ok v flash_addr to_read dest bytes storage' e =
      ap
        (λ (r, b, t). (
          and_then (filled VfsError.storage r b) (λ _. ok to_read),
          b ++ drop to_read dest,
          record v { storage = t },
        ))
        e

  -- On a flash that serves an image with an index table where the superblock says, and with the contents
  -- of an asset where the table says, below the address 2^32, `stream_chunk` copies the bytes of the asset
  -- from `offset` on into the buffer, as many as there are and as fit, returns their number, and keeps the
  -- rest of the buffer; past the end of the asset that number is 0.
  pub stream_chunk-slice :
      (entries : List VfsAssetEntry) (entry : VfsAssetEntry) (asset_id offset : ℕ) (dest : List ℕ)
      (v : VfsReader S)
      → Holds v.storage
      → v.superblock.asset_count ≡ length entries
      → IsTable image (v.partition_base + v.superblock.index_offset) 0 entries
      → v.partition_base + v.superblock.index_offset + length entries * Entry.size < 2 ^ 32
      → lookup entries asset_id ≡ ok entry
      → asset_start v entry + entry.length ≤ length image
      → asset_start v entry + entry.length < 2 ^ 32
      → (storage' : S) × (stream_chunk profile flash asset_id offset dest v ≡ (
        ok (min (entry.length - offset) (length dest)),
        slice (asset_start v entry + offset) (min (entry.length - offset) (length dest)) image
            ++ drop (min (entry.length - offset) (length dest)) dest,
        record v { storage = storage' },
      ))
        × Holds storage'
  unfolding stream_chunk stream_entry
  stream_chunk-slice entries entry asset_id offset dest v holds count table bound found inside
        below =
      let n = min (entry.length - offset) (length dest) in
      let (s₁, run, holds₁) =
        find_entry-lookup profile flash image Holds serves entries asset_id v holds count table
          bound in
      let v₁ : VfsReader S = record v { storage = s₁ } in
      let located : find_entry profile flash asset_id v ≡ (ok entry, v₁) =
        run ∙ ap (λ r. (r, v₁)) found in
      let started : stream_chunk profile flash asset_id offset dest v
          ≡ stream_entry profile flash offset dest (ok entry) v₁ =
        ap (λ (r, v'). stream_entry profile flash offset dest r v') located in
      elim (Bool-cases (leb entry.length offset)) [
        | inl past ↦
            let none_left : n ≡ 0 = omega (arith, leb→le entry.length offset past) in
            (s₁, started ∙ rw (stream_entry, past) (rw none_left refl), holds₁)
        | inr before ↦
            let ahead : offset < entry.length = ground arith in
            let span : length (take n dest) ≡ n = omega (arith, length-take n dest) in
            let (s₂, read, holds₂) =
              serves.read_lem s₁ (asset_start v entry + offset) (take n dest) holds₁
                (omega (arith, span)) in
            let got = ap (λ k. slice (asset_start v entry + offset) k image) span in
            let addr = chunk_addr_ok v₁ entry offset (omega arith) in
            (
              s₂,
              started
                  ∙ rw (stream_entry, before)
                      (rw addr (
                        read_chunk_ok v₁ (asset_start v entry + offset) n dest
                          (slice (asset_start v entry + offset) n image) s₂
                          (read ∙ ap (λ b. (ok tt, b, s₂)) got))),
              holds₂,
            )
      ]
