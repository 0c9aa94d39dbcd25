-- ===== src/Packer/Image.antt =====
-- overlay-packer/src/main.rs: what `auto_pack` writes is a directory with the containers behind it.
use embedded_overlay.Base.{
  slice-append_middle, ℕ, suc, ◌+◌, ◌*◌, ◌%◌, ◌^◌, ◌≤◌, ◌<◌, List, [], ◌∷◌, ◌++◌, length,
  length-append, length-map, map, append_assoc, some, ◌≡◌, refl, sym, ap, ◌∙◌, arith,
}
use mathlib.Core.Path.{subst}
use embedded_overlay.Arith.{Profile, add_u32, mul_u32, u32_value_lem}
use embedded_overlay.Crc.{fnv1a_hash}
use embedded_overlay.Engine.Directory.{IsDirectory}
use embedded_overlay.Error.{ok}
use embedded_overlay.Header.Directory
use embedded_overlay.Header.Directory.Laws
use embedded_overlay.Header.Entry
use embedded_overlay.Header.Entry.{OverlayDirectoryEntry, directory_to_bytes}
use embedded_overlay.Header.Entry.Laws.{length-directory_to_bytes}
use embedded_overlay.Header.Overlay
use embedded_overlay.Packer.Modules.{pack_section, write_entries, finished, auto_pack}
use embedded_overlay.Packer.Layout.{
  after, entries_from, bytes_from, end_from, end_from-le, length-bytes_from, length-entries_from,
  layout_lem,
}
use embedded_overlay.Packer.Numbers.{IoError}
use embedded_overlay.Packer.Listing.{
  AllFit, write_entries-IsListing, IsPacked, length-container, entries_from-AllFit,
  bytes_from-IsPacked,
}

-- At most this many bytes are written for the sections, after the header of the directory.
abbrev pub room : List (List ℕ × List ℕ) → ℕ
room [] = 0
room ((fn_name, code) ∷ sections) = Entry.size + (3 + (Overlay.size + length code)) + room sections

end_from-room :
    (o : ℕ) (sections : List (List ℕ × List ℕ))
    → end_from o (map pack_section sections) + length sections * Entry.size ≤ o + room sections
unfolding pack_section
end_from-room o [] = omega arith
end_from-room o ((fn_name, code) ∷ sections) =
    let m = pack_section (fn_name, code) in
    omega (arith, end_from-room (after o m) sections, length-container (fnv1a_hash fn_name) code)

length-write_entries :
    (entries : List OverlayDirectoryEntry)
    → length (write_entries entries) ≡ length entries * Entry.size
unfolding write_entries
length-write_entries [] = refl
length-write_entries (entry ∷ entries) = omega (
  arith,
  length-append (directory_to_bytes entry) (write_entries entries),
  length-directory_to_bytes entry,
  length-write_entries entries,
)

new_magic : (a b c : ℕ) → (Directory.new a b c).magic ≡ Directory.magic_bytes
unfolding Directory.new
new_magic a b c = refl

module _ (profile : Profile) where
  -- What was laid out, with the directory's header before it.
  abbrev image_of : ℕ → List OverlayDirectoryEntry → List ℕ → ℕ → List ℕ
  image_of count entries bytes total =
      Directory.to_bytes (Directory.new count Directory.size total)
      ++ (write_entries entries ++ bytes)

  image_of-IsDirectory :
      (entries : List OverlayDirectoryEntry) (bytes : List ℕ) (total : ℕ)
      → AllFit entries
      → length entries < 2 ^ 16
      → Directory.size + length entries * Entry.size + length bytes ≡ total
      → total < 2 ^ 32
      → IsDirectory (image_of (length entries) entries bytes total) 0 Directory.size total entries
        × (length (image_of (length entries) entries bytes total) ≡ total)
  image_of-IsDirectory entries bytes total fits few sum bound =
      let header = Directory.to_bytes (Directory.new (length entries) Directory.size total) in
      let size : length header ≡ Directory.size =
        Laws.length-to_bytes (Directory.new (length entries) Directory.size total)
          (new_magic (length entries) Directory.size total) in
      let all : length (header ++ (write_entries entries ++ bytes)) ≡ total = omega (
        arith,
        length-append header (write_entries entries ++ bytes),
        length-append (write_entries entries) bytes,
        length-write_entries entries,
      ) in
      (
        record {
          header =
              slice-append_middle 0 Directory.size [] header (write_entries entries ++ bytes) refl
                size;
          inside = omega arith;
          table = write_entries-IsListing Directory.size 0 entries header bytes (omega arith) fits;
          addressable = omega arith;
          entry_count_lt = few;
          index_offset_lt = omega arith;
          total_bytes_lt = bound;
        },
        all,
      )

  -- `auto_pack` of the sections of a program, when there is one at least, fewer than 2^16, and the
  -- image has fewer than 2^32 bytes with all padding: it writes an image that has a directory at 0, whose
  -- total is the length of the image; the entries are those of the sections in their order, each with
  -- the hash of the section's name as module id; and at the offset of each entry there is the
  -- container of the section's bytes.
  pub auto_pack-IsDirectory :
      (section : List ℕ × List ℕ) (sections : List (List ℕ × List ℕ))
      → suc (length sections) < 2 ^ 16
      → Directory.size + room (section ∷ sections) < 2 ^ 32
      → (image : List ℕ) × (entries : List OverlayDirectoryEntry) × (auto_pack profile
            (section ∷ sections)
          ≡ ok (some image))
        × IsDirectory image 0 Directory.size (length image) entries
        × IsPacked image entries (section ∷ sections)
  unfolding auto_pack
  auto_pack-IsDirectory section sections few bound =
      let all = section ∷ sections in
      let modules = map pack_section all in
      let count : length modules % 2 ^ 16 ≡ length all =
        omega (arith, length-map all pack_section) in
      let n = length all in
      let start = Directory.size + n * Entry.size in
      let entries = entries_from start modules in
      let bytes = bytes_from start modules in
      let total = end_from start modules in
      let ends : total < 2 ^ 32 = omega (arith, end_from-room start all) in
      let same : length entries ≡ n =
        length-entries_from start modules ∙ length-map all pack_section in
      let laid =
        layout_lem profile modules
          (record { current_offset = start; entries = []; payload_bytes = [] }) ends in
      let product : mul_u32 {E = IoError} profile n Entry.size ≡ ok (n * Entry.size) =
        u32_value_lem profile (n * Entry.size) (omega arith) in
      let sum : add_u32 {E = IoError} profile Directory.size (n * Entry.size) ≡ ok start =
        u32_value_lem profile start (omega (arith, end_from-le start modules)) in
      let image = image_of n entries bytes total in
      let (directory, long) =
        image_of-IsDirectory entries bytes total (entries_from-AllFit start all ends)
          (omega (arith, same)) (omega (arith, same, length-bytes_from start modules)) ends in
      let as_n : image_of (length entries) entries bytes total ≡ image =
        ap (λ k. image_of k entries bytes total) same in
      let header = Directory.to_bytes (Directory.new n Directory.size total) in
      let behind : length (header ++ write_entries entries) ≡ start = omega (
        arith,
        length-append header (write_entries entries),
        length-write_entries entries,
        same,
        Laws.length-to_bytes (Directory.new n Directory.size total)
            (new_magic n Directory.size total),
      ) in
      (
        image,
        entries,
        rw (auto_pack, count)
            (rw product (
              rw sum (
                ap (λ (r, s). finished profile (length modules % 2 ^ 16) r s) laid
                ∙ ap (λ k. ok (some (image_of k entries bytes total))) count))),
        subst (λ t. IsDirectory t 0 Directory.size (length t) entries) as_n
            (subst
              (λ k.
                IsDirectory (image_of (length entries) entries bytes total) 0 Directory.size k
                  entries)
              (sym long) directory),
        subst (λ t. IsPacked t entries all) (append_assoc header (write_entries entries) bytes)
            (bytes_from-IsPacked start all (header ++ write_entries entries) behind ends),
      )
