-- ===== src/Header/Overlay/Laws.antt =====
-- The encoding of `OverlayHeader` and its validation, against each other.
use mathlib.Core.Path.{subst}
use embedded_overlay.Base.{
  ℕ, ◌^◌, ◌≤◌, ◌<◌, List, ◌++◌, length, take, take-append_le, length-append-le, take-take_le,
  take-append-drop, drop, ◌≡◌, ◌≢◌, ◌↔◌, refl, sym, ap, ◌∙◌, arith,
}
use embedded_overlay.Bytes.{
  IsBytes, to_le16, to_le32, bytes_eq→eq, bytes_eq_self, bytes_from, bytes_from-take, get_or-lt,
  from_le16-to_le16, from_le32-to_le32, to_le16-from_le16, to_le32-from_le32, from_le16-lt,
  from_le32-lt,
}
use embedded_overlay.Crc.{crc32}
use embedded_overlay.Crc.Detect.{crc32-lt}
use embedded_overlay.Header.Burst.{Burst, Burst-crc32, Burst-get_or}
use embedded_overlay.Error.{ok}
use embedded_overlay.Header.Overlay.{
  OverlayHeader, magic_bytes, version_number, size, to_bytes, new, fields, from_bytes,
}

-- Every field fits its width.
pub record Fits (h : OverlayHeader) : Type 0 where
  pub magic : h.magic ≡ magic_bytes
  pub version : h.version ≡ version_number
  pub flags : h.flags < 2 ^ 16
  pub module_id : h.module_id < 2 ^ 32
  pub code_size : h.code_size < 2 ^ 32
  pub entry_offset : h.entry_offset < 2 ^ 32
  pub ram_target_addr : h.ram_target_addr < 2 ^ 32
  pub payload_crc32 : h.payload_crc32 < 2 ^ 32

-- What `from_bytes` accepts.
pub record IsSealed (h : OverlayHeader) : Type 0 where
  pub fits : Fits h
  pub seal : h.header_crc32 ≡ crc32 (take 28 (to_bytes h))

-- The layout, field after field.
layout : List ℕ → OverlayHeader → List ℕ
layout magic h =
    magic
    ++ (to_le16 h.version
        ++ (to_le16 h.flags
            ++ (to_le32 h.module_id
                ++ (to_le32 h.code_size
                    ++ (to_le32 h.entry_offset
                        ++ (to_le32 h.ram_target_addr
                            ++ (to_le32 h.payload_crc32 ++ to_le32 h.header_crc32)))))))

to_bytes-layout : (h : OverlayHeader) → h.magic ≡ magic_bytes → to_bytes h ≡ layout magic_bytes h
unfolding to_bytes layout to_le16 to_le32
to_bytes-layout h e = rw e refl

pub length-to_bytes : (h : OverlayHeader) → h.magic ≡ magic_bytes → length (to_bytes h) ≡ size
unfolding to_bytes to_le16 to_le32
length-to_bytes h e = rw e refl

fields-to_bytes :
    (h : OverlayHeader) (rest : List ℕ)
    → Fits h
    → h.header_crc32 < 2 ^ 32
    → fields (to_bytes h ++ rest) ≡ h
unfolding fields layout to_le16 to_le32
fields-to_bytes h rest f c = rw (to_bytes-layout h f.magic) λ i. record {
  magic = sym f.magic i;
  version = from_le16-to_le16 h.version (omega arith) i;
  flags = from_le16-to_le16 h.flags f.flags i;
  module_id = from_le32-to_le32 h.module_id f.module_id i;
  code_size = from_le32-to_le32 h.code_size f.code_size i;
  entry_offset = from_le32-to_le32 h.entry_offset f.entry_offset i;
  ram_target_addr = from_le32-to_le32 h.ram_target_addr f.ram_target_addr i;
  payload_crc32 = from_le32-to_le32 h.payload_crc32 f.payload_crc32 i;
  header_crc32 = from_le32-to_le32 h.header_crc32 c i;
}

from_bytes_iff :
    (bytes : List ℕ) (h : OverlayHeader)
    → (from_bytes bytes ≡ ok h) ↔ (
        (size ≤ length bytes)
        × (fields bytes ≡ h)
        × (h.magic ≡ magic_bytes)
        × (h.version ≡ version_number)
        × (crc32 (take 28 bytes) ≡ h.header_crc32))
unfolding from_bytes
from_bytes_iff bytes h = ground (arith, bytes_eq→eq h.magic magic_bytes, bytes_eq_self magic_bytes)

-- A sealed header, written out, is read back whatever follows it.
pub from_bytes-to_bytes :
    (h : OverlayHeader) (rest : List ℕ) → IsSealed h → from_bytes (to_bytes h ++ rest) ≡ ok h
from_bytes-to_bytes h rest s =
    let c : h.header_crc32 < 2 ^ 32 = rw s.seal (crc32-lt (take 28 (to_bytes h))) in
    (from_bytes_iff (to_bytes h ++ rest) h).1 (
      length-append-le size (to_bytes h) rest (omega (arith, length-to_bytes h s.fits.magic)),
      fields-to_bytes h rest s.fits c,
      s.fits.magic,
      s.fits.version,
      ap crc32 (take-append_le 28 (to_bytes h) rest (omega (arith, length-to_bytes h s.fits.magic)))
          ∙ sym s.seal,
    )

-- `new` seals the header that it makes.
pub new-IsSealed :
    (module_id code_size entry_offset ram_target_addr payload_crc32 : ℕ)
    → module_id < 2 ^ 32
    → code_size < 2 ^ 32
    → entry_offset < 2 ^ 32
    → ram_target_addr < 2 ^ 32
    → payload_crc32 < 2 ^ 32
    → IsSealed (new module_id code_size entry_offset ram_target_addr payload_crc32)
unfolding new
new-IsSealed m c e r p hm hc he hr hp = record {
  fits = record {
    magic = refl;
    version = refl;
    flags = omega arith;
    module_id = hm;
    code_size = hc;
    entry_offset = he;
    ram_target_addr = hr;
    payload_crc32 = hp;
  };
  seal = unfold to_bytes to_le32 to_le16 in refl;
}

-- An accepted header determines the bytes it was read from
to_bytes-fields :
    (bytes : List ℕ)
    → IsBytes bytes
    → size ≤ length bytes
    → (fields bytes).magic ≡ magic_bytes
    → to_bytes (fields bytes) ≡ take size bytes
unfolding fields layout bytes_from
to_bytes-fields bytes w l m =
    let at = λ (i : ℕ). get_or-lt bytes i w in
    to_bytes-layout (fields bytes) m
    ∙ ap (λ t. layout t (fields bytes)) (sym m)
    ∙ rw
        (
          to_le16-from_le16 _ _ (at 4) (at 5),
          to_le16-from_le16 _ _ (at 6) (at 7),
          to_le32-from_le32 _ _ _ _ (at 8) (at 9) (at 10) (at 11),
          to_le32-from_le32 _ _ _ _ (at 12) (at 13) (at 14) (at 15),
          to_le32-from_le32 _ _ _ _ (at 16) (at 17) (at 18) (at 19),
          to_le32-from_le32 _ _ _ _ (at 20) (at 21) (at 22) (at 23),
          to_le32-from_le32 _ _ _ _ (at 24) (at 25) (at 26) (at 27),
          to_le32-from_le32 _ _ _ _ (at 28) (at 29) (at 30) (at 31),
        )
        (bytes_from-take size bytes l)

fields-Fits :
    (bytes : List ℕ)
    → IsBytes bytes
    → (fields bytes).magic ≡ magic_bytes
    → (fields bytes).version ≡ version_number
    → Fits (fields bytes)
unfolding fields
fields-Fits bytes w m v =
    let at = λ (i : ℕ). get_or-lt bytes i w in
    record {
      magic = m;
      version = v;
      flags = from_le16-lt _ _ (at 6) (at 7);
      module_id = from_le32-lt _ _ _ _ (at 8) (at 9) (at 10) (at 11);
      code_size = from_le32-lt _ _ _ _ (at 12) (at 13) (at 14) (at 15);
      entry_offset = from_le32-lt _ _ _ _ (at 16) (at 17) (at 18) (at 19);
      ram_target_addr = from_le32-lt _ _ _ _ (at 20) (at 21) (at 22) (at 23);
      payload_crc32 = from_le32-lt _ _ _ _ (at 24) (at 25) (at 26) (at 27);
    }

accepted :
    (bytes : List ℕ) (h : OverlayHeader)
    → IsBytes bytes
    → from_bytes bytes ≡ ok h
    → IsSealed h × (take size bytes ≡ to_bytes h)
accepted bytes h w e =
    let (long, read, magic, version, crc) = (from_bytes_iff bytes h).0 e in
    let m : (fields bytes).magic ≡ magic_bytes = ap (λ t. t.magic) read ∙ magic in
    let v : (fields bytes).version ≡ version_number = ap (λ t. t.version) read ∙ version in
    let same : to_bytes h ≡ take size bytes =
      ap to_bytes (sym read) ∙ to_bytes-fields bytes w long m in
    (
      record {
        fits = subst Fits read (fields-Fits bytes w m v);
        seal =
            sym crc
            ∙ ap crc32 (sym (take-take_le 28 size bytes (omega arith)) ∙ ap (take 28) (sym same));
      },
      sym same,
    )

-- `from_bytes` accepts exactly the byte strings that begin with the encoding of a sealed header,
-- and returns that header.
pub from_bytes-eq-ok_iff :
    (bytes : List ℕ) (h : OverlayHeader)
    → IsBytes bytes
    → (from_bytes bytes ≡ ok h) ↔ (IsSealed h × (take size bytes ≡ to_bytes h))
from_bytes-eq-ok_iff bytes h w = (
  accepted bytes h w,
  λ (s, e).
      ap from_bytes (sym (take-append-drop size bytes) ∙ ap (λ t. t ++ drop size bytes) e)
      ∙ from_bytes-to_bytes h (drop size bytes) s,
)

-- A damaged header is refused: after `from_bytes` accepts a byte string, overwriting up to four
-- adjacent bytes before the stored checksum with other bytes makes it fail.
pub from_bytes-Burst :
    (bytes damaged : List ℕ) (h : OverlayHeader)
    → from_bytes bytes ≡ ok h
    → Burst 28 bytes damaged
    → (h' : OverlayHeader) → from_bytes damaged ≢ ok h'
unfolding fields
from_bytes-Burst bytes damaged h e b h' e' =
    let (_, read, _, _, crc) = (from_bytes_iff bytes h).0 e in
    let (_, read', _, _, crc') = (from_bytes_iff damaged h').0 e' in
    let stored : (fields bytes).header_crc32 ≡ (fields damaged).header_crc32 = rw (
      Burst-get_or b 28 (omega arith),
      Burst-get_or b 29 (omega arith),
      Burst-get_or b 30 (omega arith),
      Burst-get_or b 31 (omega arith),
    ) in
    Burst-crc32 b (
      crc
      ∙ ap (λ t. t.header_crc32) (sym read)
      ∙ stored
      ∙ ap (λ t. t.header_crc32) read'
      ∙ sym crc')
