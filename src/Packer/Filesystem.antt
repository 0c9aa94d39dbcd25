-- ===== src/Packer/Filesystem.antt =====
-- overlay-packer/src/main.rs: what `pack_vfs` writes, against the reader of the filesystem.
use embedded_overlay.Base.{
  ℕ, zero, suc, ◌+◌, ◌*◌, ◌%◌, ◌^◌, ◌≤◌, ◌<◌, List, [], ◌∷◌, ◌++◌, length, length-append, replicate,
  length-replicate, append_assoc, ◌==◌, true, false, ◌≡◌, refl, sym, ap, ◌∙◌, arith,
}
use mathlib.Core.Path.{ap₂}
use mathlib.Core.List.{append-nil}
use embedded_overlay.Arith.{Profile, as_u32, u32_value_lem}
use embedded_overlay.Error.{ok}
use embedded_overlay.Exec.{pure, >>=-ok}
use embedded_overlay.Header.Entry
use embedded_overlay.Header.Entry.{VfsAssetEntry, asset_to_bytes}
use embedded_overlay.Packer.Assets.{Build, pad, add_asset, add_assets}
use embedded_overlay.Packer.Layout.{gap}
use embedded_overlay.Packer.Numbers.{IoError}

-- The offset of the asset after one of `n` bytes at `o`.
abbrev pub following : ℕ → ℕ → ℕ
following o n = o + n + gap (o + n)

abbrev pub asset_entry : ℕ → ℕ → List ℕ → VfsAssetEntry
asset_entry id o content = record {
  asset_id = id;
  flash_offset = o;
  length = length content;
  flags = 0;
  crc16 = 0;
}

-- The entries and the bytes of assets with the ids from `id` on, laid out from `o` on.
abbrev pub entries_of : ℕ → ℕ → List (List ℕ) → List VfsAssetEntry
entries_of id o [] = []
entries_of id o (content ∷ contents) =
    asset_entry id o content ∷ entries_of (suc id) (following o (length content)) contents

abbrev pub data_of : ℕ → List (List ℕ) → List ℕ
data_of o [] = []
data_of o (content ∷ contents) =
    content
    ++ (replicate (gap (o + length content)) 0 ++ data_of (following o (length content)) contents)

-- At most this many bytes are written for the assets, after the superblock.
abbrev pub room : List (List ℕ) → ℕ
room [] = 0
room (content ∷ contents) = Entry.size + (3 + length content) + room contents

pub length-entries_of :
    (id o : ℕ) (contents : List (List ℕ)) → length (entries_of id o contents) ≡ length contents
length-entries_of id o [] = refl
length-entries_of id o (content ∷ contents) =
    ap suc (length-entries_of (suc id) (following o (length content)) contents)

pub length-data_of :
    (o : ℕ) (contents : List (List ℕ))
    → length (data_of o contents) + length contents * Entry.size ≤ room contents
length-data_of o [] = omega arith
length-data_of o (content ∷ contents) =
    let k = gap (o + length content) in
    let tail = data_of (following o (length content)) contents in
    omega (
      arith,
      length-append content (replicate k 0 ++ tail),
      length-append (replicate k 0) tail,
      length-replicate {A = ℕ} k 0,
      length-data_of (following o (length content)) contents,
    )

pad_lem :
    (n k : ℕ) (bytes : List ℕ)
    → gap (length bytes) ≡ k
    → k ≤ n
    → pad n bytes ≡ bytes ++ replicate k 0
unfolding pad
pad_lem zero zero bytes e h = sym (append-nil bytes)
pad_lem zero (suc k) bytes e h = absurd (omega arith)
pad_lem (suc n) zero bytes e h =
    let there : (length bytes % 4 == 0) ≡ true = ground arith in rw there (sym (append-nil bytes))
pad_lem (suc n) (suc k) bytes e h =
    let short : (length bytes % 4 == 0) ≡ false = ground arith in
    let longer = length-append bytes (0 ∷ []) in
    rw short (
      pad_lem n k (bytes ++ (0 ∷ [])) (omega (arith, longer)) (omega arith)
      ∙ append_assoc bytes (0 ∷ []) (replicate k 0))

module _ (profile : Profile) where
  add_asset_lem :
      (content : List ℕ) (s : Build)
      → length s.data_payload + length content < 2 ^ 32
      → s.asset_id + 1 < 2 ^ 32
      → add_asset profile content s ≡ (
        ok tt,
        record {
          entries = s.entries ++ (asset_entry s.asset_id (length s.data_payload) content ∷ []);
          data_payload =
              s.data_payload
              ++ (content ++ replicate (gap (length s.data_payload + length content)) 0);
          asset_id = s.asset_id + 1;
        },
      )
  unfolding add_asset
  add_asset_lem content s bound next =
      let o : as_u32 (length s.data_payload) ≡ length s.data_payload = omega arith in
      let n : as_u32 (length content) ≡ length content = omega arith in
      let sum = u32_value_lem {E = IoError} profile (s.asset_id + 1) next in
      let k = gap (length s.data_payload + length content) in
      let both = length-append s.data_payload content in
      let padded : pad 3 (s.data_payload ++ content)
          ≡ s.data_payload ++ (content ++ replicate k 0) =
        pad_lem 3 k (s.data_payload ++ content) (omega (arith, both)) (omega arith)
        ∙ append_assoc s.data_payload content (replicate k 0) in
      rw (add_asset, sum) (rw (o, n) (rw padded refl))

  -- The loop over the files.
  pub add_assets_lem :
      (contents : List (List ℕ)) (s : Build)
      → length s.data_payload + room contents < 2 ^ 32
      → s.asset_id + length contents < 2 ^ 32
      → (next : ℕ) × (add_assets profile contents s ≡ (
        ok tt,
        record {
          entries = s.entries ++ entries_of s.asset_id (length s.data_payload) contents;
          data_payload = s.data_payload ++ data_of (length s.data_payload) contents;
          asset_id = next;
        },
      ))
  unfolding add_assets pure
  add_assets_lem [] s bound ids = (
    s.asset_id,
    ap₂ (λ e d. (ok tt, record s { entries = e; data_payload = d })) (sym (append-nil s.entries))
        (sym (append-nil s.data_payload)),
  )
  add_assets_lem (content ∷ contents) s bound ids =
      let o = length s.data_payload in
      let k = gap (o + length content) in
      let zeros : List ℕ = replicate k 0 in
      let data' = s.data_payload ++ (content ++ zeros) in
      let entry = asset_entry s.asset_id o content in
      let s₁ : Build = record {
        entries = s.entries ++ (entry ∷ []);
        data_payload = data';
        asset_id = s.asset_id + 1;
      } in
      let long : length data' ≡ following o (length content) = omega (
        arith,
        length-append s.data_payload (content ++ zeros),
        length-append content zeros,
        length-replicate {A = ℕ} k 0,
      ) in
      let (next, run) = add_assets_lem contents s₁ (omega (arith, long)) (omega arith) in
      let id' : s.asset_id + 1 ≡ suc s.asset_id = omega arith in
      let es = entries_of (suc s.asset_id) (following o (length content)) contents in
      let ds = data_of (following o (length content)) contents in
      let entries' : (s.entries ++ (entry ∷ []))
            ++ entries_of (s.asset_id + 1) (length data') contents
          ≡ s.entries ++ (entry ∷ es) =
        ap₂ (λ i p. (s.entries ++ (entry ∷ [])) ++ entries_of i p contents) id' long
        ∙ append_assoc s.entries (entry ∷ []) es in
      let bytes' : data' ++ data_of (length data') contents
          ≡ s.data_payload ++ (content ++ (zeros ++ ds)) =
        ap (λ p. data' ++ data_of p contents) long
        ∙ append_assoc s.data_payload (content ++ zeros) ds
        ∙ ap (λ t. s.data_payload ++ t) (append_assoc content zeros ds) in
      (
        next,
        >>=-ok (add_asset profile content) (λ _. add_assets profile contents) s
              (add_asset_lem content s (omega arith) (omega arith))
            ∙ run
            ∙ ap₂ (λ e d. (ok tt, record { entries = e; data_payload = d; asset_id = next }))
                entries' bytes',
      )
