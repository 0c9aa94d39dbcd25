-- ===== src/Packer/Modules.antt =====
-- overlay-packer/src/main.rs: `auto_pack`, from the sections that the linker made to the image with
-- its directory. A section is a name and its bytes, which readelf and objcopy give.
use embedded_overlay.Base.{
  ℕ, zero, suc, ◌%◌, ◌^◌, List, [], ◌∷◌, ◌++◌, length, ◌==◌, map, if◌then◌else◌, Option, none, some,
}
use embedded_overlay.Arith.{Profile, as_u32, add_u32, mul_u32}
use embedded_overlay.Crc.{crc32, fnv1a_hash}
use embedded_overlay.Error.{Result, ok, err, panic}
use embedded_overlay.Exec.{Exec, pure, lift, gets, modify, ◌>>=◌, ◌>>◌}
use embedded_overlay.Header.Directory
use embedded_overlay.Header.Entry
use embedded_overlay.Header.Entry.{OverlayDirectoryEntry, directory_to_bytes}
use embedded_overlay.Packer.{container}
use embedded_overlay.Packer.Numbers.{IoError}

-- An element of `packed_ovls`.
pub record PackedModule : Type 0 where
  pub module_id : ℕ
  pub code_size : ℕ
  pub ovl_data : List ℕ

unfoldable pub pack_section : List ℕ × List ℕ → PackedModule
unfolding container
pack_section (fn_name, dumped) = record {
  module_id = fnv1a_hash fn_name;
  code_size = as_u32 (length dumped);
  ovl_data = container (fnv1a_hash fn_name) dumped;
}

-- The variables of the loop that lays the modules out.
pub record Layout : Type 0 where
  pub current_offset : ℕ
  pub entries : List OverlayDirectoryEntry
  pub payload_bytes : List ℕ

-- The encodings of the entries, one after another.
unfoldable pub write_entries : List OverlayDirectoryEntry → List ℕ
write_entries [] = []
write_entries (entry ∷ entries) = directory_to_bytes entry ++ write_entries entries

module _ (profile : Profile) where
  -- `while current_offset % 4 != 0`, for at most `n` rounds; with none left it would panic.
  unfoldable pub align : ℕ → Exec Layout IoError (Unit {0})
  align zero s = (panic, s)
  align (suc n) s =
      let rest =
        (lift (add_u32 profile s.current_offset 1) >>= λ offset.
        modify (λ (t : Layout). record t { current_offset = offset }) >> align n)
          (record s { payload_bytes = s.payload_bytes ++ (0 ∷ []) }) in
      if s.current_offset % 4 == 0 then (ok tt, s) else rest

  -- The body of the loop, after the alignment.
  unfoldable pub push_module : PackedModule → Exec Layout IoError (Unit {0})
  push_module m = do
    offset ← gets (λ (s : Layout). s.current_offset)
    let entry : OverlayDirectoryEntry = record {
      module_id = m.module_id;
      flash_offset = offset;
      code_size = m.code_size;
      crc32 = crc32 m.ovl_data;
    }
    modify (λ (s : Layout). record s { entries = s.entries ++ (entry ∷ []) })
    end ← lift (add_u32 profile offset (as_u32 (length m.ovl_data)))
    modify (λ (s : Layout). record s {
      current_offset = end;
      payload_bytes = s.payload_bytes ++ m.ovl_data;
    })

  unfoldable pub layout : List PackedModule → Exec Layout IoError (Unit {0})
  unfolding align push_module
  layout [] = pure tt
  layout (m ∷ modules) = align 4 >> push_module m >> layout modules

  abbrev pub written : ℕ → Layout → List ℕ
  written entry_count s =
      Directory.to_bytes (Directory.new entry_count Directory.size s.current_offset)
      ++ (write_entries s.entries ++ s.payload_bytes)

  abbrev pub finished : ℕ → Result IoError (Unit {0}) → Layout → Result IoError (Option (List ℕ))
  finished entry_count (ok _) s = ok (some (written entry_count s))
  finished entry_count (err e) s = err e
  finished entry_count panic s = panic

  -- The image that is written to the file, or nothing when there are no sections.
  unfoldable pub auto_pack : List (List ℕ × List ℕ) → Result IoError (Option (List ℕ))
  unfolding pack_section layout write_entries
  auto_pack [] = ok none
  auto_pack (section ∷ sections) =
      let packed = map pack_section (section ∷ sections) in
      let entry_count = length packed % 2 ^ 16 in
      elim (mul_u32 {E = IoError} profile entry_count Entry.size) [
        | err e ↦ err e
        | panic ↦ panic
        | ok entries_size ↦ elim (add_u32 {E = IoError} profile Directory.size entries_size) [
          | err e ↦ err e
          | panic ↦ panic
          | ok payload_start ↦
              let (r, s) =
                layout packed
                  (record { current_offset = payload_start; entries = []; payload_bytes = [] }) in
              finished entry_count r s
        ]
      ]
