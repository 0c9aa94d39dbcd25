-- ===== src/Vfs/Reader.antt =====
-- src/vfs/mod.rs: the reader of the asset filesystem.
use embedded_overlay.Base.{
  ℕ, zero, suc, ◌-◌, ◌*◌, min, List, ◌++◌, take, drop, replicate, length, true, false, ◌==◌, ltb,
  leb, if◌then◌else◌,
}
use embedded_overlay.Arith.{Profile, as_u32, add_u32}
use embedded_overlay.Error.{VfsError, Result, ok, err, panic}
use embedded_overlay.Exec.{Exec, pure, raise, lift, ◌>>=◌}
use embedded_overlay.Flash.{Flash, filled}
use embedded_overlay.Header.Vfs
use embedded_overlay.Header.Vfs.{VfsSuperblock}
use embedded_overlay.Header.Entry
use embedded_overlay.Header.Entry.{VfsAssetEntry, asset_from_bytes}

pub record VfsReader (S : Type 0) : Type 0 where
  pub storage : S
  pub partition_base : ℕ
  pub superblock : VfsSuperblock

-- `?` on a result without a state.
abbrev pub and_then :
    {A B : Type 0} → Result VfsError A → (A → Result VfsError B) → Result VfsError B
and_then (ok a) f = f a
and_then (err e) f = err e
and_then panic f = panic

module _ {S E : Type 0} (profile : Profile) (flash : Flash S E) where
  -- An error drops the storage, which `mount` took.
  unfoldable pub mount : S → ℕ → Result VfsError (VfsReader S)
  mount storage partition_base =
      let (r, sb_buf, storage') = flash.read storage partition_base (replicate Vfs.size 0) in
      elim (filled VfsError.storage r sb_buf) [
        | err e ↦ err e
        | panic ↦ panic
        | ok sb_buf ↦ elim (Vfs.from_bytes sb_buf) [
          | err e ↦ err e
          | panic ↦ panic
          | ok superblock ↦ ok (record {
            storage = storage';
            partition_base = partition_base;
            superblock = superblock;
          })
        ]
      ]

  -- `self.storage.read(offset, &mut buf).await.map_err(|_| VfsError::Storage)?`
  unfoldable pub read_storage : ℕ → List ℕ → Exec (VfsReader S) VfsError (List ℕ)
  read_storage offset buf v =
      let (r, buf', storage') = flash.read v.storage offset buf in
      (filled VfsError.storage r buf', record v { storage = storage' })

  -- The loop of `find_entry` at index `i`, with `n` entries left.
  unfoldable pub find_from : ℕ → ℕ → ℕ → ℕ → List ℕ → Exec (VfsReader S) VfsError VfsAssetEntry
  find_from zero i index_start asset_id entry_buf = raise (VfsError.asset_not_found asset_id)
  find_from (suc n) i index_start asset_id entry_buf = do
    offset ← lift (add_u32 profile index_start (as_u32 (i * Entry.size)))
    entry_buf' ← read_storage offset entry_buf
    entry ← lift (asset_from_bytes entry_buf')
    elim (entry.asset_id == asset_id) [
      | true ↦ pure entry
      | false ↦ find_from n (suc i) index_start asset_id entry_buf'
    ]

  unfoldable pub find_entry : ℕ → Exec (VfsReader S) VfsError VfsAssetEntry
  unfolding find_from
  find_entry asset_id v =
      (lift (add_u32 profile v.partition_base v.superblock.index_offset) >>= λ index_start.
      find_from v.superblock.asset_count 0 index_start asset_id (replicate Entry.size 0))
        v

  unfoldable pub asset_len : ℕ → Exec (VfsReader S) VfsError ℕ
  asset_len asset_id = do entry ← find_entry asset_id; pure entry.length

  -- `self.partition_base + self.superblock.data_offset + entry.flash_offset + offset as u32`
  unfoldable pub chunk_addr : VfsReader S → VfsAssetEntry → ℕ → Result VfsError ℕ
  chunk_addr v entry offset =
      and_then (add_u32 profile v.partition_base v.superblock.data_offset) λ data_start.
        and_then (add_u32 profile data_start entry.flash_offset)
          λ asset_start. add_u32 profile asset_start (as_u32 offset)

  -- From the read on, into the first `to_read` bytes of the caller's buffer.
  unfoldable pub read_chunk :
      VfsReader S → ℕ → ℕ → List ℕ → Result VfsError ℕ × List ℕ × VfsReader S
  read_chunk v flash_addr to_read dest =
      let (r, bytes, storage') = flash.read v.storage flash_addr (take to_read dest) in
      (
        and_then (filled VfsError.storage r bytes) λ _. ok to_read,
        bytes ++ drop to_read dest,
        record v { storage = storage' },
      )

  -- After the search.
  unfoldable pub stream_entry :
      ℕ
      → List ℕ
      → Result VfsError VfsAssetEntry
      → VfsReader S
      → Result VfsError ℕ × List ℕ × VfsReader S
  unfolding chunk_addr read_chunk
  stream_entry offset dest (err e) v = (err e, dest, v)
  stream_entry offset dest panic v = (panic, dest, v)
  stream_entry offset dest (ok entry) v =
      if leb entry.length offset then (ok 0, dest, v) else elim (chunk_addr v entry offset) [
        | err e ↦ (err e, dest, v)
        | panic ↦ (panic, dest, v)
        | ok flash_addr ↦ read_chunk v flash_addr (min (entry.length - offset) (length dest)) dest
      ]

  unfoldable pub stream_chunk :
      ℕ → ℕ → List ℕ → VfsReader S → Result VfsError ℕ × List ℕ × VfsReader S
  unfolding stream_entry
  stream_chunk asset_id offset dest v =
      let (r, v') = find_entry asset_id v in stream_entry offset dest r v'

  -- The whole asset, after the search: into the first bytes of the buffer.
  unfoldable pub read_entry :
      ℕ
      → List ℕ
      → Result VfsError VfsAssetEntry
      → VfsReader S
      → Result VfsError ℕ × List ℕ × VfsReader S
  unfolding stream_chunk
  read_entry asset_id dest (err e) v = (err e, dest, v)
  read_entry asset_id dest panic v = (panic, dest, v)
  read_entry asset_id dest (ok entry) v =
      if ltb (length dest) entry.length
      then (err (VfsError.buffer_too_small entry.length (length dest)), dest, v)
      else let (r, bytes, v') = stream_chunk asset_id 0 (take entry.length dest) v in
        (r, bytes ++ drop entry.length dest, v')

  unfoldable pub read_asset : ℕ → List ℕ → VfsReader S → Result VfsError ℕ × List ℕ × VfsReader S
  unfolding read_entry
  read_asset asset_id dest v = let (r, v') = find_entry asset_id v in read_entry asset_id dest r v'
