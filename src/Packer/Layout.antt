-- ===== src/Packer/Layout.antt =====
-- overlay-packer/src/main.rs: where `auto_pack` puts the entries and the containers.
use embedded_overlay.Base.{
  ℕ, zero, suc, ◌+◌, ◌-◌, ◌%◌, ◌^◌, ◌≤◌, ◌<◌, List, [], ◌∷◌, ◌++◌, length, length-append, replicate,
  length-replicate, ◌==◌, true, false, append_assoc, ◌≡◌, refl, sym, ap, ◌∙◌, arith,
}
use mathlib.Core.Path.{ap₂}
use mathlib.Core.List.{append-nil}
use embedded_overlay.Arith.{Profile, as_u32, add_u32, u32_value_lem}
use embedded_overlay.Crc.{crc32}
use embedded_overlay.Error.{ok}
use embedded_overlay.Exec.{lift, modify, pure, ◌>>=◌, ◌>>◌, >>=-ok}
use embedded_overlay.Header.Entry.{OverlayDirectoryEntry}
use embedded_overlay.Packer.Modules.{PackedModule, Layout, align, push_module, layout}
use embedded_overlay.Packer.Numbers.{IoError}

-- The bytes of padding up to a multiple of 4.
abbrev pub gap : ℕ → ℕ
gap o = (4 - o % 4) % 4

-- The offset of a module that comes next at `o`, and the offset after it.
abbrev pub placed : ℕ → ℕ
placed o = o + gap o

abbrev pub after : ℕ → PackedModule → ℕ
after o m = placed o + length m.ovl_data

abbrev pub entry_at : ℕ → PackedModule → OverlayDirectoryEntry
entry_at o m = record {
  module_id = m.module_id;
  flash_offset = o;
  code_size = m.code_size;
  crc32 = crc32 m.ovl_data;
}

-- The entries, the bytes and the end of modules laid out from `o` on.
abbrev pub entries_from : ℕ → List PackedModule → List OverlayDirectoryEntry
entries_from o [] = []
entries_from o (m ∷ modules) = entry_at (placed o) m ∷ entries_from (after o m) modules

abbrev pub bytes_from : ℕ → List PackedModule → List ℕ
bytes_from o [] = []
bytes_from o (m ∷ modules) = replicate (gap o) 0 ++ (m.ovl_data ++ bytes_from (after o m) modules)

abbrev pub end_from : ℕ → List PackedModule → ℕ
end_from o [] = o
end_from o (m ∷ modules) = end_from (after o m) modules

pub end_from-le : (o : ℕ) (modules : List PackedModule) → o ≤ end_from o modules
end_from-le o [] = omega arith
end_from-le o (m ∷ modules) = omega (arith, end_from-le (after o m) modules)

pub length-bytes_from :
    (o : ℕ) (modules : List PackedModule) → o + length (bytes_from o modules) ≡ end_from o modules
length-bytes_from o [] = omega arith
length-bytes_from o (m ∷ modules) =
    let tail = bytes_from (after o m) modules in
    omega (
      arith,
      length-append (replicate (gap o) 0) (m.ovl_data ++ tail),
      length-append m.ovl_data tail,
      length-replicate {A = ℕ} (gap o) 0,
      length-bytes_from (after o m) modules,
    )

pub length-entries_from :
    (o : ℕ) (modules : List PackedModule) → length (entries_from o modules) ≡ length modules
length-entries_from o [] = refl
length-entries_from o (m ∷ modules) = ap suc (length-entries_from (after o m) modules)

module _ (profile : Profile) where
  align_lem :
      (n k : ℕ) (s : Layout)
      → k < n
      → gap s.current_offset ≡ k
      → s.current_offset + k < 2 ^ 32
      → align profile n s ≡ (
        ok tt,
        record s {
          current_offset = s.current_offset + k;
          payload_bytes = s.payload_bytes ++ replicate k 0;
        },
      )
  unfolding align lift modify
  align_lem zero k s lt e bound = absurd (omega arith)
  align_lem (suc n) zero s lt e bound =
      let there : (s.current_offset % 4 == 0) ≡ true = ground arith in
      rw (align, there)
        (ap₂ (λ o b. (ok tt, record s { current_offset = o; payload_bytes = b })) (omega arith)
          (sym (append-nil s.payload_bytes)))
  align_lem (suc n) (suc k) s lt e bound =
      let short : (s.current_offset % 4 == 0) ≡ false = ground arith in
      let s₀ = record s { payload_bytes = s.payload_bytes ++ (0 ∷ []) } in
      let s₁ = record s₀ { current_offset = s.current_offset + 1 } in
      let sum : add_u32 {E = IoError} profile s.current_offset 1 ≡ ok (s.current_offset + 1) =
        u32_value_lem profile (s.current_offset + 1) (omega arith) in
      rw (align, short)
        (>>=-ok (lift (add_u32 profile s.current_offset 1)) _ s₀ (ap (λ r. (r, s₀)) sum)
          ∙ >>=-ok (modify (λ (t : Layout). record t { current_offset = s.current_offset + 1 }))
              (λ _. align profile n) s₀ refl
          ∙ align_lem n k s₁ (omega arith) (omega arith) (omega arith)
          ∙ ap₂ (λ o b. (ok tt, record s { current_offset = o; payload_bytes = b })) (omega arith)
              (append_assoc s.payload_bytes (0 ∷ []) (replicate k 0)))

  push_module_lem :
      (m : PackedModule) (s : Layout)
      → length m.ovl_data < 2 ^ 32
      → s.current_offset + length m.ovl_data < 2 ^ 32
      → push_module profile m s ≡ (
        ok tt,
        record {
          current_offset = s.current_offset + length m.ovl_data;
          entries = s.entries ++ (entry_at s.current_offset m ∷ []);
          payload_bytes = s.payload_bytes ++ m.ovl_data;
        },
      )
  unfolding push_module lift ◌>>=◌
  push_module_lem m s small bound =
      let offset = s.current_offset in
      let whole : as_u32 (length m.ovl_data) ≡ length m.ovl_data = omega arith in
      let sum : add_u32 {E = IoError} profile offset (as_u32 (length m.ovl_data))
          ≡ ok (offset + length m.ovl_data) =
        ap (add_u32 {E = IoError} profile offset) whole
        ∙ u32_value_lem profile (offset + length m.ovl_data) (omega arith) in
      let s₁ = record s { entries = s.entries ++ (entry_at offset m ∷ []) } in
      >>=-ok (lift (add_u32 profile offset (as_u32 (length m.ovl_data)))) _ s₁
        (ap (λ r. (r, s₁)) sum)

  -- The loop puts every module at the next multiple of 4.
  pub layout_lem :
      (modules : List PackedModule) (s : Layout)
      → end_from s.current_offset modules < 2 ^ 32
      → layout profile modules s ≡ (
        ok tt,
        record {
          current_offset = end_from s.current_offset modules;
          entries = s.entries ++ entries_from s.current_offset modules;
          payload_bytes = s.payload_bytes ++ bytes_from s.current_offset modules;
        },
      )
  unfolding layout pure
  layout_lem [] s bound =
      ap₂ (λ e b. (ok tt, record s { entries = e; payload_bytes = b })) (sym (append-nil s.entries))
        (sym (append-nil s.payload_bytes))
  layout_lem (m ∷ modules) s bound =
      let o = s.current_offset in
      let pad : List ℕ = replicate (gap o) 0 in
      let fits : after o m < 2 ^ 32 = omega (arith, end_from-le (after o m) modules) in
      let s₁ : Layout = record s {
        current_offset = placed o;
        payload_bytes = s.payload_bytes ++ pad;
      } in
      let s₂ : Layout = record {
        current_offset = after o m;
        entries = s.entries ++ (entry_at (placed o) m ∷ []);
        payload_bytes = (s.payload_bytes ++ pad) ++ m.ovl_data;
      } in
      let es = entries_from (after o m) modules in
      let bs = bytes_from (after o m) modules in
      let joined : ((s.payload_bytes ++ pad) ++ m.ovl_data) ++ bs
          ≡ s.payload_bytes ++ (pad ++ (m.ovl_data ++ bs)) =
        append_assoc (s.payload_bytes ++ pad) m.ovl_data bs
        ∙ append_assoc s.payload_bytes pad (m.ovl_data ++ bs) in
      >>=-ok (align profile 4 >> push_module profile m) (λ _. layout profile modules) s
        (>>=-ok (align profile 4) (λ _. push_module profile m) s
            (align_lem 4 (gap o) s (omega arith) refl (omega arith))
          ∙ push_module_lem m s₁ (omega arith) (omega arith))
      ∙ layout_lem modules s₂ bound
      ∙ ap₂
          (λ e b. (
            ok tt,
            record {
              current_offset = end_from (after o m) modules;
              entries = e;
              payload_bytes = b;
            },
          ))
          (append_assoc s.entries (entry_at (placed o) m ∷ []) es) joined
