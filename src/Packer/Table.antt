-- ===== src/Packer/Table.antt =====
-- overlay-packer/src/main.rs: the table and the contents that `pack_vfs` writes, as the reader finds them.
use embedded_overlay.Base.{
  ℕ, zero, suc, ◌+◌, ◌*◌, ◌^◌, ◌≤◌, ◌<◌, List, [], ◌∷◌, ◌++◌, length, length-append, slice,
  replicate, length-replicate, slice-append_middle, get_elem?, append_assoc, ◌==◌, true, false,
  some, ◌≡◌, refl, sym, ap, ◌∙◌, arith,
}
use mathlib.Core.Path.{subst, ap₂}
use mathlib.Core.Option.{some-injective}
use embedded_overlay.Error.{ok}
use embedded_overlay.Header.Entry
use embedded_overlay.Header.Entry.{VfsAssetEntry, asset_to_bytes}
use embedded_overlay.Header.Entry.Laws.{AssetFits, length-asset_to_bytes}
use embedded_overlay.Vfs.Indexed.{IsTable, lookup}
use embedded_overlay.Packer.Assets.{write_entries}
use embedded_overlay.Packer.Filesystem.{following, asset_entry, entries_of, data_of, room}
use embedded_overlay.Packer.Layout.{gap}

-- Entries that fit their fields.
abbrev pub AllFit : List VfsAssetEntry → Type 0
AllFit [] = Unit
AllFit (entry ∷ entries) = AssetFits entry × AllFit entries

pub entries_of-AllFit :
    (id o : ℕ) (contents : List (List ℕ))
    → id + length contents < 2 ^ 32
    → o + room contents < 2 ^ 32
    → AllFit (entries_of id o contents)
entries_of-AllFit id o [] ids bound = tt
entries_of-AllFit id o (content ∷ contents) ids bound = (
  record {
    asset_id = omega arith;
    flash_offset = omega arith;
    length = omega arith;
    flags = omega arith;
    crc16 = omega arith;
  },
  entries_of-AllFit (suc id) (following o (length content)) contents (omega arith) (omega arith),
)

pub write_entries-IsTable :
    (start i : ℕ) (entries : List VfsAssetEntry) (before rest : List ℕ)
    → length before ≡ start + i * Entry.size
    → AllFit entries
    → IsTable (before ++ (write_entries entries ++ rest)) start i entries
unfolding write_entries
write_entries-IsTable start i [] before rest e fits = tt
write_entries-IsTable start i (entry ∷ entries) before rest e (fit, fits) =
    let bytes = asset_to_bytes entry in
    let tail = write_entries entries in
    let size = length-asset_to_bytes entry in
    let regroup : (before ++ bytes) ++ (tail ++ rest) ≡ before ++ ((bytes ++ tail) ++ rest) =
      append_assoc before bytes (tail ++ rest)
      ∙ ap (λ t. before ++ t) (sym (append_assoc bytes tail rest)) in
    let here : slice (start + i * Entry.size) Entry.size (before ++ (bytes ++ (tail ++ rest)))
        ≡ bytes =
      slice-append_middle (start + i * Entry.size) Entry.size before bytes (tail ++ rest) e size in
    let there : IsTable ((before ++ bytes) ++ (tail ++ rest)) start (suc i) entries =
      write_entries-IsTable start (suc i) entries (before ++ bytes) rest
        (omega (arith, length-append before bytes)) fits in
    (
      fit,
      ap (λ t. slice (start + i * Entry.size) Entry.size (before ++ t))
            (append_assoc bytes tail rest)
          ∙ here,
      omega (
        arith,
        length-append before ((bytes ++ tail) ++ rest),
        length-append (bytes ++ tail) rest,
        length-append bytes tail,
      ),
      subst (λ t. IsTable t start (suc i) entries) regroup there,
    )

pub length-write_entries :
    (entries : List VfsAssetEntry) → length (write_entries entries) ≡ length entries * Entry.size
unfolding write_entries
length-write_entries [] = refl
length-write_entries (entry ∷ entries) = omega (
  arith,
  length-append (asset_to_bytes entry) (write_entries entries),
  length-asset_to_bytes entry,
  length-write_entries entries,
)

-- The entry of an asset is found by its id, and tells where its contents are.
pub record IsFound (image : List ℕ) (base id : ℕ) (entries : List VfsAssetEntry) (content : List ℕ)
    : Type 0 where
  pub offset : ℕ
  pub found : lookup entries id ≡ ok (asset_entry id offset content)
  pub contents : slice (base + offset) (length content) image ≡ content
  pub inside : base + offset + length content ≤ length image

pub data_of-IsFound :
    (base id o k : ℕ) (contents : List (List ℕ)) (content before : List ℕ)
    → length before ≡ base + o
    → get_elem? contents k ≡ some content
    → IsFound (before ++ data_of o contents) base (id + k) (entries_of id o contents) content
data_of-IsFound base id o k [] content before e at = cc
data_of-IsFound base id o zero (first ∷ contents) content before e at =
    let same : first ≡ content = some-injective _ _ at in
    let start : id + 0 ≡ id = omega arith in
    let rest =
      replicate (gap (o + length first)) 0 ++ data_of (following o (length first)) contents in
    let here : (id == (id + 0)) ≡ true = ground arith in
    record {
      offset = o;
      found = rw here (ap₂ (λ c i. ok (asset_entry i o c)) same (sym start));
      contents =
          ap (λ c. slice (base + o) (length c) (before ++ (first ++ rest))) (sym same)
          ∙ slice-append_middle (base + o) (length first) before first rest e refl
          ∙ same;
      inside = omega (
        arith,
        ap length same,
        e,
        length-append before (first ++ rest),
        length-append first rest,
      );
    }
data_of-IsFound base id o (suc k) (first ∷ contents) content before e at =
    let zeros : List ℕ = replicate (gap (o + length first)) 0 in
    let rest = data_of (following o (length first)) contents in
    let before' = before ++ (first ++ zeros) in
    let long : length before' ≡ base + following o (length first) = omega (
      arith,
      length-append before (first ++ zeros),
      length-append first zeros,
      length-replicate {A = ℕ} (gap (o + length first)) 0,
    ) in
    let later =
      data_of-IsFound base (suc id) (following o (length first)) k contents content before' long
        at in
    let elsewhere : (id == (id + suc k)) ≡ false = ground arith in
    let number : suc id + k ≡ id + suc k = omega arith in
    let regroup : before' ++ rest ≡ before ++ (first ++ (zeros ++ rest)) =
      append_assoc before (first ++ zeros) rest
      ∙ ap (λ t. before ++ t) (append_assoc first zeros rest) in
    subst (λ t. IsFound t base (id + suc k) (entries_of id o (first ∷ contents)) content) regroup
      (record {
        offset = later.offset;
        found = rw elsewhere (
            ap (lookup (entries_of (suc id) (following o (length first)) contents)) (sym number)
            ∙ later.found
            ∙ ap (λ i. ok (asset_entry i later.offset content)) number);
        contents = later.contents;
        inside = later.inside;
      })
