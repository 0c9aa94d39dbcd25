-- ===== src/Packer/Roundtrip.antt =====
-- overlay-packer/src/main.rs and src/vfs/mod.rs: a packed filesystem, mounted and streamed.
use embedded_overlay.Base.{
  ℕ, zero, suc, ◌+◌, ◌-◌, ◌*◌, ◌%◌, ◌^◌, ◌≤◌, ◌<◌, min, List, [], ◌++◌, length, length-append, drop,
  slice, replicate, slice-append_middle, slice-slice, get_elem?, append_assoc, some, ◌≡◌, refl, sym,
  ap, ◌∙◌, arith,
}
use mathlib.Core.Path.{subst}
use mathlib.Core.List.{append-nil}
use embedded_overlay.Arith.{Profile, as_u32, u32_value_lem}
use embedded_overlay.Error.{ok}
use embedded_overlay.Flash.{Flash, Serves}
use embedded_overlay.Header.Entry
use embedded_overlay.Header.Entry.{VfsAssetEntry, asset_to_bytes}
use embedded_overlay.Header.Vfs
use embedded_overlay.Header.Vfs.Laws as VfsLaws
use embedded_overlay.Vfs.Indexed.{IsTable}
use embedded_overlay.Vfs.Reader.{VfsReader, mount, stream_chunk}
use embedded_overlay.Vfs.Stream.{stream_chunk-slice}
use embedded_overlay.Packer.Assets.{write_entries, write_image, built, pack_vfs}
use embedded_overlay.Packer.Filesystem.{
  asset_entry, entries_of, data_of, room, length-entries_of, length-data_of, add_assets_lem,
}
use embedded_overlay.Packer.Numbers.{IoError}
use embedded_overlay.Packer.Table.{
  entries_of-AllFit, write_entries-IsTable, length-write_entries, IsFound, data_of-IsFound,
}

-- What `pack_vfs` writes.
abbrev pub packed_image : List (List ℕ) → List ℕ
packed_image contents =
    let count = length contents in
    let data_offset = Vfs.size + count * Entry.size in
    let bytes = data_of 0 contents in
    Vfs.to_bytes (Vfs.new count Vfs.size data_offset (data_offset + length bytes))
    ++ (write_entries (entries_of 1 0 contents) ++ bytes)

write_image_lem :
    (profile : Profile) (contents : List (List ℕ)) (next : ℕ)
    → length contents < 2 ^ 16
    → Vfs.size + room contents < 2 ^ 32
    → write_image profile (record {
      entries = entries_of 1 0 contents;
      data_payload = data_of 0 contents;
      asset_id = next;
    })
      ≡ ok (packed_image contents)
unfolding write_image
write_image_lem profile contents next few bound =
    let n = length contents in
    let bytes = data_of 0 contents in
    let data_offset = Vfs.size + n * Entry.size in
    let fits = length-data_of 0 contents in
    let count : length (entries_of 1 0 contents) ≡ n = length-entries_of 1 0 contents in
    let table : as_u32 (n * Entry.size) ≡ n * Entry.size = omega arith in
    let first = u32_value_lem {E = IoError} profile data_offset (omega arith) in
    let small : as_u32 (length bytes) ≡ length bytes = omega arith in
    let second = u32_value_lem {E = IoError} profile (data_offset + length bytes) (omega arith) in
    let word : n % 2 ^ 16 ≡ n = omega arith in
    rw (write_image, count) (rw table (rw first (rw small (rw second (rw word refl)))))

pack_vfs_lem :
    (profile : Profile) (contents : List (List ℕ))
    → length contents < 2 ^ 16
    → Vfs.size + room contents < 2 ^ 32
    → pack_vfs profile contents ≡ ok (packed_image contents)
unfolding pack_vfs
pack_vfs_lem profile contents few bound =
    let (next, run) =
      add_assets_lem profile contents (record { entries = []; data_payload = []; asset_id = 1 })
        (omega arith) (omega arith) in
    ap (λ (r, s). built profile r s) run ∙ write_image_lem profile contents next few bound

-- The part of a slice that is read, in the image and in the contents.
slice_part :
    (from size o n : ℕ) (xs : List ℕ)
    → n ≤ size - o
    → slice (from + o) n xs ≡ slice o n (slice from size xs)
slice_part from size o zero xs h = refl
slice_part from size o (suc n) xs h = sym (slice-slice from size o (suc n) xs (omega arith))

abbrev superblock_of : List (List ℕ) → Vfs.VfsSuperblock
superblock_of contents =
    let data_offset = Vfs.size + length contents * Entry.size in
    Vfs.new (length contents) Vfs.size data_offset (data_offset + length (data_of 0 contents))

new_magic : (a b c d : ℕ) → (Vfs.new a b c d).magic ≡ Vfs.magic_bytes
unfolding Vfs.new
new_magic a b c d = refl

-- What the reader finds in the image.
record IsFilesystem (image : List ℕ) (contents : List (List ℕ)) : Type 0 where
  superblock : slice 0 Vfs.size image ≡ Vfs.to_bytes (superblock_of contents)
  long : Vfs.size ≤ length image
  table : IsTable image Vfs.size 0 (entries_of 1 0 contents)
  found :
      (k : ℕ) (content : List ℕ)
      → get_elem? contents k ≡ some content
      → IsFound image
          (Vfs.size + length contents * Entry.size)
          (1 + k)
          (entries_of 1 0 contents)
          content
  short : length image < 2 ^ 32

packed_image-IsFilesystem :
    (contents : List (List ℕ))
    → length contents < 2 ^ 16
    → Vfs.size + room contents < 2 ^ 32
    → IsFilesystem (packed_image contents) contents
packed_image-IsFilesystem contents few bound =
    let n = length contents in
    let bytes = data_of 0 contents in
    let entries = entries_of 1 0 contents in
    let written = write_entries entries in
    let header = Vfs.to_bytes (superblock_of contents) in
    let size : length header ≡ Vfs.size = VfsLaws.length-to_bytes (superblock_of contents) (
      new_magic n Vfs.size (Vfs.size + n * Entry.size)
        (Vfs.size + n * Entry.size + length bytes)) in
    let count = length-entries_of 1 0 contents in
    let fits = length-data_of 0 contents in
    let behind : length (header ++ written) ≡ Vfs.size + n * Entry.size + 0 =
      omega (arith, length-append header written, length-write_entries entries) in
    let all : length (header ++ (written ++ bytes)) ≡ Vfs.size + n * Entry.size + length bytes =
      omega (
        arith,
        length-append header (written ++ bytes),
        length-append written bytes,
        length-write_entries entries,
      ) in
    record {
      superblock = slice-append_middle 0 Vfs.size [] header (written ++ bytes) refl size;
      long = omega arith;
      table =
          write_entries-IsTable Vfs.size 0 entries header bytes (omega arith)
            (entries_of-AllFit 1 0 contents (omega arith) (omega arith));
      found = λ k content at.
          subst (λ t. IsFound t (Vfs.size + n * Entry.size) (1 + k) entries content)
            (append_assoc header written bytes)
            (data_of-IsFound (Vfs.size + n * Entry.size) 1 0 k contents content (header ++ written)
              behind at);
      short = omega arith;
    }

module _ {S E : Type 0} (profile : Profile) (flash : Flash S E) where
  mount_ok :
      (s t : S) (base : ℕ) (bytes : List ℕ) (sb : Vfs.VfsSuperblock)
      → flash.read s base (replicate Vfs.size 0) ≡ (ok tt, bytes, t)
      → Vfs.from_bytes bytes ≡ ok sb
      → mount profile flash s base
        ≡ ok (record { storage = t; partition_base = base; superblock = sb })
  unfolding mount
  mount_ok s t base bytes sb e parsed =
      rw (e, mount)
        (rw parsed (
          ap (λ (r, b, t'). ok (record { storage = t'; partition_base = base; superblock = sb }))
            e))

  module _ (contents : List (List ℕ)) (Holds : S → Type 0)
      (serves : Serves flash (packed_image contents) Holds) where
    -- From files to reads: `pack_vfs` of the contents of files, fewer than 2^16 and of fewer than 2^32
    -- bytes with all padding, writes an image; on a flash that serves it, `mount` at 0 succeeds, and
    -- then `stream_chunk` of the asset with the number of a file, counted from 1, copies the bytes of
    -- that file from `offset` on into the buffer, as many as there are and as fit, returns their
    -- number, and keeps the rest of the buffer.
    pub pack_vfs-stream_chunk :
        (k offset : ℕ) (content dest : List ℕ) (s : S)
        → length contents < 2 ^ 16
        → Vfs.size + room contents < 2 ^ 32
        → get_elem? contents k ≡ some content
        → Holds s
        → (v v' : VfsReader S) × (pack_vfs profile contents ≡ ok (packed_image contents))
          × (mount profile flash s 0 ≡ ok v)
          × (stream_chunk profile flash (1 + k) offset dest v ≡ (
            ok (min (length content - offset) (length dest)),
            slice offset (min (length content - offset) (length dest)) content
                ++ drop (min (length content - offset) (length dest)) dest,
            v',
          ))
    unfolding Vfs.new
    pack_vfs-stream_chunk k offset content dest s few bound at holds =
        let image = packed_image contents in
        let n = length contents in
        let start = Vfs.size + n * Entry.size in
        let fs = packed_image-IsFilesystem contents few bound in
        let zeros : List ℕ = replicate Vfs.size 0 in
        let (s₁, read, holds₁) = serves.read_lem s 0 zeros holds fs.long in
        let sb = superblock_of contents in
        let fits = length-data_of 0 contents in
        let sealed =
          VfsLaws.new-IsSealed n Vfs.size start (start + length (data_of 0 contents)) few
            (omega arith) (omega arith) (omega arith) in
        let parsed : Vfs.from_bytes (Vfs.to_bytes sb) ≡ ok sb =
          ap Vfs.from_bytes (sym (append-nil (Vfs.to_bytes sb)))
          ∙ VfsLaws.from_bytes-to_bytes sb [] sealed in
        let v : VfsReader S = record { storage = s₁; partition_base = 0; superblock = sb } in
        let found = fs.found k content at in
        let entry = asset_entry (1 + k) found.offset content in
        let m = min (length content - offset) (length dest) in
        let base : 0 + start + found.offset ≡ start + found.offset = omega arith in
        let (s₂, run, _) =
          stream_chunk-slice profile flash image Holds serves (entries_of 1 0 contents) entry
            (1 + k) offset dest v holds₁ (sym (length-entries_of 1 0 contents)) fs.table
            (omega (arith, length-entries_of 1 0 contents)) found.found
            (omega (arith, found.inside)) (omega (arith, found.inside, fs.short)) in
        let part : slice (0 + start + found.offset + offset) m image ≡ slice offset m content =
          ap (λ b. slice (b + offset) m image) base
          ∙ slice_part (start + found.offset) (length content) offset m image (omega arith)
          ∙ ap (slice offset m) found.contents in
        (
          v,
          record v { storage = s₂ },
          pack_vfs_lem profile contents few bound,
          mount_ok s s₁ 0 (Vfs.to_bytes sb) sb (read ∙ ap (λ b. (ok tt, b, s₁)) fs.superblock)
              parsed,
          run ∙ ap (λ b. (ok m, b ++ drop m dest, record v { storage = s₂ })) part,
        )
