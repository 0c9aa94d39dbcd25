-- ===== src/Packer/Listing.antt =====
-- overlay-packer/src/main.rs: the entries and the containers that `auto_pack` writes, as the engine finds
-- them.
use embedded_overlay.Base.{
  slice-append_middle, ℕ, suc, ◌+◌, ◌*◌, ◌^◌, ◌<◌, List, [], ◌∷◌, ◌++◌, length, length-append,
  slice, map, replicate, length-replicate, append_assoc, ◌≡◌, refl, sym, ap, ◌∙◌, arith,
}
use mathlib.Core.Path.{subst}
use embedded_overlay.Arith.{as_u32}
use embedded_overlay.Crc.{crc32, fnv1a_hash}
use embedded_overlay.Crc.Detect.{crc32-lt}
use embedded_overlay.Crc.Fnv.{fnv1a_hash-lt}
use embedded_overlay.Engine.Directory.{IsListing}
use embedded_overlay.Header.Entry
use embedded_overlay.Header.Entry.{OverlayDirectoryEntry, directory_to_bytes}
use embedded_overlay.Header.Entry.Laws.{DirectoryFits, length-directory_to_bytes}
use embedded_overlay.Header.Overlay
use embedded_overlay.Header.Overlay.Laws as OverlayLaws
use embedded_overlay.Overlay.Resident.{IsStored}
use embedded_overlay.Packer.{container}
use embedded_overlay.Packer.Modules.{pack_section, write_entries}
use embedded_overlay.Packer.Layout.{
  gap, placed, after, entries_from, bytes_from, end_from, end_from-le,
}

-- Entries that fit their fields, written one after another, are a listing.
abbrev pub AllFit : List OverlayDirectoryEntry → Type 0
AllFit [] = Unit
AllFit (entry ∷ entries) = DirectoryFits entry × AllFit entries

pub write_entries-IsListing :
    (start i : ℕ) (entries : List OverlayDirectoryEntry) (before rest : List ℕ)
    → length before ≡ start + i * Entry.size
    → AllFit entries
    → IsListing (before ++ (write_entries entries ++ rest)) start i entries
unfolding write_entries
write_entries-IsListing start i [] before rest e fits = tt
write_entries-IsListing start i (entry ∷ entries) before rest e (fit, fits) =
    let bytes = directory_to_bytes entry in
    let tail = write_entries entries in
    let size = length-directory_to_bytes entry in
    let regroup : (before ++ bytes) ++ (tail ++ rest) ≡ before ++ ((bytes ++ tail) ++ rest) =
      append_assoc before bytes (tail ++ rest)
      ∙ ap (λ t. before ++ t) (sym (append_assoc bytes tail rest)) in
    let here : slice (start + i * Entry.size) Entry.size (before ++ (bytes ++ (tail ++ rest)))
        ≡ bytes =
      slice-append_middle (start + i * Entry.size) Entry.size before bytes (tail ++ rest) e size in
    let there : IsListing ((before ++ bytes) ++ (tail ++ rest)) start (suc i) entries =
      write_entries-IsListing start (suc i) entries (before ++ bytes) rest
        (omega (arith, length-append before bytes)) fits in
    (
      fit,
      ap (λ t. slice (start + i * Entry.size) Entry.size (before ++ t))
            (append_assoc bytes tail rest)
          ∙ here,
      omega (
        arith,
        length-append before ((bytes ++ tail) ++ rest),
        length-append (bytes ++ tail) rest,
        length-append bytes tail,
      ),
      subst (λ t. IsListing t start (suc i) entries) regroup there,
    )

-- Every section is in the image, as the container of a module that its entry tells of.
abbrev pub IsPacked : List ℕ → List OverlayDirectoryEntry → List (List ℕ × List ℕ) → Type 0
IsPacked image [] [] = Unit
IsPacked image [] (section ∷ sections) = ⊥
IsPacked image (entry ∷ entries) [] = ⊥
IsPacked image (entry ∷ entries) ((fn_name, code) ∷ sections) =
    (entry.module_id ≡ fnv1a_hash fn_name)
    × IsStored image entry.flash_offset (fnv1a_hash fn_name) 0 0 code
    × IsPacked image entries sections

new-magic : (a b c d e : ℕ) → (Overlay.new a b c d e).magic ≡ Overlay.magic_bytes
unfolding Overlay.new
new-magic a b c d e = refl

container-IsStored :
    (before rest : List ℕ) (offset module_id : ℕ) (code : List ℕ)
    → length before ≡ offset
    → offset + Overlay.size + length code < 2 ^ 32
    → module_id < 2 ^ 32
    → IsStored (before ++ (container module_id code ++ rest)) offset module_id 0 0 code
unfolding container
container-IsStored before rest offset module_id code e bound id_lt =
    let header = Overlay.to_bytes (Overlay.new module_id (as_u32 (length code)) 0 0 (crc32 code)) in
    let image = before ++ ((header ++ code) ++ rest) in
    let size : length header ≡ Overlay.size =
      OverlayLaws.length-to_bytes (Overlay.new module_id (as_u32 (length code)) 0 0 (crc32 code))
        (new-magic module_id (as_u32 (length code)) 0 0 (crc32 code)) in
    let whole : as_u32 (length code) ≡ length code = omega arith in
    let flat : image ≡ before ++ (header ++ (code ++ rest)) =
      ap (λ t. before ++ t) (append_assoc header code rest) in
    let moved : image ≡ (before ++ header) ++ (code ++ rest) =
      flat ∙ sym (append_assoc before header (code ++ rest)) in
    record {
      header =
          ap (slice offset Overlay.size) flat
          ∙ slice-append_middle offset Overlay.size before header (code ++ rest) e size
          ∙ ap (λ n. Overlay.to_bytes (Overlay.new module_id n 0 0 (crc32 code))) whole;
      payload =
          ap (slice (offset + Overlay.size) (length code)) moved
          ∙ slice-append_middle (offset + Overlay.size) (length code) (before ++ header) code rest
              (omega (arith, length-append before header)) refl;
      inside = omega (
        arith,
        length-append before ((header ++ code) ++ rest),
        length-append (header ++ code) rest,
        length-append header code,
      );
      addressable = omega arith;
      module_id_lt = id_lt;
      code_size_lt = omega arith;
      entry_offset_lt = omega arith;
      ram_target_addr_lt = omega arith;
    }

pub length-container :
    (module_id : ℕ) (code : List ℕ) → length (container module_id code) ≡ Overlay.size + length code
unfolding container
length-container module_id code =
    let header = Overlay.to_bytes (Overlay.new module_id (as_u32 (length code)) 0 0 (crc32 code)) in
    omega (
      arith,
      length-append header code,
      OverlayLaws.length-to_bytes (Overlay.new module_id (as_u32 (length code)) 0 0 (crc32 code))
          (new-magic module_id (as_u32 (length code)) 0 0 (crc32 code)),
    )

pub entries_from-AllFit :
    (o : ℕ) (sections : List (List ℕ × List ℕ))
    → end_from o (map pack_section sections) < 2 ^ 32
    → AllFit (entries_from o (map pack_section sections))
unfolding pack_section
entries_from-AllFit o [] bound = tt
entries_from-AllFit o ((fn_name, code) ∷ sections) bound =
    let m = pack_section (fn_name, code) in
    (
      record {
        module_id = fnv1a_hash-lt fn_name;
        flash_offset = omega (arith, end_from-le (after o m) (map pack_section sections));
        code_size = omega arith;
        crc32 = crc32-lt m.ovl_data;
      },
      entries_from-AllFit (after o m) sections bound,
    )

pub bytes_from-IsPacked :
    (o : ℕ) (sections : List (List ℕ × List ℕ)) (before : List ℕ)
    → length before ≡ o
    → end_from o (map pack_section sections) < 2 ^ 32
    → IsPacked
        (before ++ bytes_from o (map pack_section sections))
        (entries_from o (map pack_section sections))
        sections
unfolding pack_section
bytes_from-IsPacked o [] before e bound = tt
bytes_from-IsPacked o ((fn_name, code) ∷ sections) before e bound =
    let id = fnv1a_hash fn_name in
    let m = pack_section (fn_name, code) in
    let modules = map pack_section sections in
    let pad : List ℕ = replicate (gap o) 0 in
    let ovl = container id code in
    let rest = bytes_from (after o m) modules in
    let long = length-container id code in
    let at : length (before ++ pad) ≡ placed o =
      omega (arith, length-append before pad, length-replicate {A = ℕ} (gap o) 0) in
    let grouped : (before ++ pad) ++ (ovl ++ rest) ≡ before ++ (pad ++ (ovl ++ rest)) =
      append_assoc before pad (ovl ++ rest) in
    let stored : IsStored ((before ++ pad) ++ (ovl ++ rest)) (placed o) id 0 0 code =
      container-IsStored (before ++ pad) rest (placed o) id code at
        (omega (arith, end_from-le (after o m) modules, long)) (fnv1a_hash-lt fn_name) in
    let past : length ((before ++ pad) ++ ovl) ≡ after o m =
      omega (arith, length-append (before ++ pad) ovl, at) in
    let others : IsPacked (((before ++ pad) ++ ovl) ++ rest) (entries_from (after o m) modules)
        sections =
      bytes_from-IsPacked (after o m) sections ((before ++ pad) ++ ovl) past bound in
    (
      refl,
      subst (λ t. IsStored t (placed o) id 0 0 code) grouped stored,
      subst (λ t. IsPacked t (entries_from (after o m) modules) sections)
          (append_assoc (before ++ pad) ovl rest ∙ grouped) others,
    )
