-- ===== src/Packer/Assets.antt =====
-- overlay-packer/src/main.rs: `pack_vfs`, from the contents of the files of a directory, in the order
-- in which `read_dir` gives them.
use embedded_overlay.Base.{
  ℕ, zero, suc, ◌*◌, ◌%◌, ◌^◌, List, [], ◌∷◌, ◌++◌, length, ◌==◌, if◌then◌else◌,
}
use embedded_overlay.Arith.{Profile, as_u32, add_u32}
use embedded_overlay.Error.{Result, ok, err, panic, ◌>>=◌}
use embedded_overlay.Exec.{Exec, pure, ◌>>◌}
use embedded_overlay.Header.Entry
use embedded_overlay.Header.Entry.{VfsAssetEntry, asset_to_bytes}
use embedded_overlay.Header.Vfs
use embedded_overlay.Packer.Numbers.{IoError}

-- The variables of the loop.
pub record Build : Type 0 where
  pub entries : List VfsAssetEntry
  pub data_payload : List ℕ
  pub asset_id : ℕ

-- `while data_payload.len() % 4 != 0`, for at most `n` rounds; three are enough.
unfoldable pub pad : ℕ → List ℕ → List ℕ
pad zero data_payload = data_payload
pad (suc n) data_payload =
    let rest = pad n (data_payload ++ (0 ∷ [])) in
    if length data_payload % 4 == 0 then data_payload else rest

-- The encodings of the entries, one after another.
unfoldable pub write_entries : List VfsAssetEntry → List ℕ
write_entries [] = []
write_entries (entry ∷ entries) = asset_to_bytes entry ++ write_entries entries

module _ (profile : Profile) where
  -- The body of the loop.
  unfoldable pub add_asset : List ℕ → Exec Build IoError (Unit {0})
  unfolding pad
  add_asset content s =
      let entry : VfsAssetEntry = record {
        asset_id = s.asset_id;
        flash_offset = as_u32 (length s.data_payload);
        length = as_u32 (length content);
        flags = 0;
        crc16 = 0;
      } in
      let s' : Build = record {
        entries = s.entries ++ (entry ∷ []);
        data_payload = pad 3 (s.data_payload ++ content);
        asset_id = s.asset_id;
      } in
      elim (add_u32 {E = IoError} profile s.asset_id 1) [
        | err e ↦ (err e, s')
        | panic ↦ (panic, s')
        | ok next ↦ (ok tt, record s' { asset_id = next })
      ]

  unfoldable pub add_assets : List (List ℕ) → Exec Build IoError (Unit {0})
  unfolding add_asset
  add_assets [] = pure tt
  add_assets (content ∷ contents) = add_asset content >> add_assets contents

  -- What is written after the loop.
  unfoldable pub write_image : Build → Result IoError (List ℕ)
  unfolding write_entries
  write_image s = do
    let count = length s.entries
    data_offset ← add_u32 profile Vfs.size (as_u32 (count * Entry.size))
    total_bytes ← add_u32 profile data_offset (as_u32 (length s.data_payload))
    let superblock = Vfs.new (count % 2 ^ 16) Vfs.size data_offset total_bytes
    ok (Vfs.to_bytes superblock ++ (write_entries s.entries ++ s.data_payload))

  abbrev pub built : Result IoError (Unit {0}) → Build → Result IoError (List ℕ)
  built (ok _) s = write_image s
  built (err e) s = err e
  built panic s = panic

  unfoldable pub pack_vfs : List (List ℕ) → Result IoError (List ℕ)
  unfolding add_assets write_image
  pack_vfs contents =
      let (r, s) = add_assets contents (record { entries = []; data_payload = []; asset_id = 1 }) in
      built r s
