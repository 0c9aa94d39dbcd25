-- ===== src/Header/Vfs/Laws.antt =====
-- The encoding of `VfsSuperblock` and its validation, against each other.
use mathlib.Core.Path.{subst}
use embedded_overlay.Base.{
  ℕ, ◌^◌, ◌≤◌, ◌<◌, List, [], ◌∷◌, ◌++◌, length, take, take-append_le, length-append-le,
  take-take_le, take-append-drop, drop, ◌≡◌, ◌≢◌, ◌↔◌, refl, sym, ap, ◌∙◌, arith,
}
use embedded_overlay.Bytes.{
  IsBytes, to_le16, to_le32, bytes_eq→eq, bytes_eq_self, bytes_from, bytes_from-take, get_or-lt,
  from_le16-to_le16, from_le32-to_le32, to_le16-from_le16, to_le32-from_le32, from_le16-lt,
  from_le32-lt,
}
use embedded_overlay.Crc
use embedded_overlay.Crc.Detect.{crc32-lt}
use embedded_overlay.Header.Burst.{Burst, Burst-crc32, Burst-get_or}
use embedded_overlay.Error.{ok}
use embedded_overlay.Header.Vfs.{
  VfsSuperblock, magic_bytes, version_number, size, to_bytes, new, fields, from_bytes,
}

-- The constants are right, and every field fits its width.
pub record Fits (h : VfsSuperblock) : Type 0 where
  pub magic : h.magic ≡ magic_bytes
  pub version : h.version ≡ version_number
  pub asset_count : h.asset_count < 2 ^ 16
  pub index_offset : h.index_offset < 2 ^ 32
  pub data_offset : h.data_offset < 2 ^ 32
  pub total_bytes : h.total_bytes < 2 ^ 32
  pub reserved : h.reserved ≡ 0 ∷ 0 ∷ []

-- The stored checksum is that of the encoding's first 20 bytes.
pub record IsSealed (h : VfsSuperblock) : Type 0 where
  pub fits : Fits h
  pub seal : h.crc32 ≡ Crc.crc32 (take 20 (to_bytes h))

-- The written fields, one after the other.
layout : List ℕ → VfsSuperblock → List ℕ
layout magic h =
    magic
    ++ (to_le16 h.version
        ++ (to_le16 h.asset_count
            ++ (to_le32 h.index_offset
                ++ (to_le32 h.data_offset ++ (to_le32 h.total_bytes ++ to_le32 h.crc32)))))

written : ℕ
written = 24

to_bytes-layout :
    (h : VfsSuperblock) → h.magic ≡ magic_bytes → take written (to_bytes h) ≡ layout magic_bytes h
unfolding to_bytes layout to_le16 to_le32 written
to_bytes-layout h e = rw e refl

pub length-to_bytes : (h : VfsSuperblock) → h.magic ≡ magic_bytes → length (to_bytes h) ≡ size
unfolding to_bytes to_le16 to_le32
length-to_bytes h e = rw e refl

fields-layout :
    (h : VfsSuperblock) (rest : List ℕ)
    → Fits h
    → h.crc32 < 2 ^ 32
    → fields (layout magic_bytes h ++ rest) ≡ h
unfolding fields layout to_le16 to_le32
fields-layout h rest f c = λ i. record {
  magic = sym f.magic i;
  version = from_le16-to_le16 h.version (omega arith) i;
  asset_count = from_le16-to_le16 h.asset_count f.asset_count i;
  index_offset = from_le32-to_le32 h.index_offset f.index_offset i;
  data_offset = from_le32-to_le32 h.data_offset f.data_offset i;
  total_bytes = from_le32-to_le32 h.total_bytes f.total_bytes i;
  crc32 = from_le32-to_le32 h.crc32 c i;
  reserved = sym f.reserved i;
}

from_bytes_iff :
    (bytes : List ℕ) (h : VfsSuperblock)
    → (from_bytes bytes ≡ ok h) ↔ (
        (size ≤ length bytes)
        × (fields bytes ≡ h)
        × (h.magic ≡ magic_bytes)
        × (h.version ≡ version_number)
        × (Crc.crc32 (take 20 bytes) ≡ h.crc32))
unfolding from_bytes
from_bytes_iff bytes h = ground (arith, bytes_eq→eq h.magic magic_bytes, bytes_eq_self magic_bytes)

-- A byte string that is long enough and begins with the written fields of a sealed header.
read_back :
    (bytes : List ℕ) (h : VfsSuperblock)
    → IsSealed h
    → size ≤ length bytes
    → take written bytes ≡ take written (to_bytes h)
    → from_bytes bytes ≡ ok h
unfolding written
read_back bytes h s long e =
    let c : h.crc32 < 2 ^ 32 = rw s.seal (crc32-lt (take 20 (to_bytes h))) in
    let whole : bytes ≡ layout magic_bytes h ++ drop written bytes =
      sym (take-append-drop written bytes)
      ∙ ap (λ t. t ++ drop written bytes) (e ∙ to_bytes-layout h s.fits.magic) in
    let covered : take 20 bytes ≡ take 20 (to_bytes h) =
      sym (take-take_le 20 written bytes (omega arith))
      ∙ ap (take 20) e
      ∙ take-take_le 20 written (to_bytes h) (omega arith) in
    (from_bytes_iff bytes h).1 (
      long,
      ap fields whole ∙ fields-layout h (drop written bytes) s.fits c,
      s.fits.magic,
      s.fits.version,
      ap Crc.crc32 covered ∙ sym s.seal,
    )

-- A sealed header, written out, is read back whatever follows it.
pub from_bytes-to_bytes :
    (h : VfsSuperblock) (rest : List ℕ) → IsSealed h → from_bytes (to_bytes h ++ rest) ≡ ok h
from_bytes-to_bytes h rest s =
    let long : size ≤ length (to_bytes h) = omega (arith, length-to_bytes h s.fits.magic) in
    read_back (to_bytes h ++ rest) h s (length-append-le size (to_bytes h) rest long) (
      unfold written in
      take-append_le written (to_bytes h) rest (omega (arith, length-to_bytes h s.fits.magic)))

-- `new` seals the header that it makes.
pub new-IsSealed :
    (asset_count index_offset data_offset total_bytes : ℕ)
    → asset_count < 2 ^ 16
    → index_offset < 2 ^ 32
    → data_offset < 2 ^ 32
    → total_bytes < 2 ^ 32
    → IsSealed (new asset_count index_offset data_offset total_bytes)
unfolding new
new-IsSealed x0 x1 x2 x3 h0 h1 h2 h3 = record {
  fits = record {
    magic = refl;
    version = refl;
    asset_count = h0;
    index_offset = h1;
    data_offset = h2;
    total_bytes = h3;
    reserved = refl;
  };
  seal = unfold to_bytes to_le32 to_le16 in refl;
}

fields_bytes :
    (bytes : List ℕ)
    → IsBytes bytes
    → size ≤ length bytes
    → (fields bytes).magic ≡ magic_bytes
    → take written (to_bytes (fields bytes)) ≡ take written bytes
unfolding fields layout bytes_from written
fields_bytes bytes w l m =
    let at = λ (i : ℕ). get_or-lt bytes i w in
    to_bytes-layout (fields bytes) m
    ∙ ap (λ t. layout t (fields bytes)) (sym m)
    ∙ rw
        (
          to_le16-from_le16 _ _ (at 4) (at 5),
          to_le16-from_le16 _ _ (at 6) (at 7),
          to_le32-from_le32 _ _ _ _ (at 8) (at 9) (at 10) (at 11),
          to_le32-from_le32 _ _ _ _ (at 12) (at 13) (at 14) (at 15),
          to_le32-from_le32 _ _ _ _ (at 16) (at 17) (at 18) (at 19),
          to_le32-from_le32 _ _ _ _ (at 20) (at 21) (at 22) (at 23),
        )
        (bytes_from-take 24 bytes (omega arith))

fields-Fits :
    (bytes : List ℕ)
    → IsBytes bytes
    → (fields bytes).magic ≡ magic_bytes
    → (fields bytes).version ≡ version_number
    → Fits (fields bytes)
unfolding fields
fields-Fits bytes w m v =
    let at = λ (i : ℕ). get_or-lt bytes i w in
    record {
      magic = m;
      version = v;
      asset_count = from_le16-lt _ _ (at 6) (at 7);
      index_offset = from_le32-lt _ _ _ _ (at 8) (at 9) (at 10) (at 11);
      data_offset = from_le32-lt _ _ _ _ (at 12) (at 13) (at 14) (at 15);
      total_bytes = from_le32-lt _ _ _ _ (at 16) (at 17) (at 18) (at 19);
      reserved = refl;
    }

accepted :
    (bytes : List ℕ) (h : VfsSuperblock)
    → IsBytes bytes
    → from_bytes bytes ≡ ok h
    → IsSealed h × (size ≤ length bytes) × (take 24 bytes ≡ take 24 (to_bytes h))
unfolding written
accepted bytes h w e =
    let (long, read, magic, version, crc) = (from_bytes_iff bytes h).0 e in
    let m : (fields bytes).magic ≡ magic_bytes = ap (λ t. t.magic) read ∙ magic in
    let v : (fields bytes).version ≡ version_number = ap (λ t. t.version) read ∙ version in
    let same : take written (to_bytes h) ≡ take written bytes =
      ap (λ t. take written (to_bytes t)) (sym read) ∙ fields_bytes bytes w long m in
    let covered : take 20 bytes ≡ take 20 (to_bytes h) =
      sym (take-take_le 20 written bytes (omega arith))
      ∙ ap (take 20) (sym same)
      ∙ take-take_le 20 written (to_bytes h) (omega arith) in
    (
      record {
        fits = subst Fits read (fields-Fits bytes w m v);
        seal = sym crc ∙ ap Crc.crc32 covered;
      },
      long,
      sym same,
    )

-- `from_bytes` accepts exactly the byte strings of at least 32 bytes that begin with the 24
-- written bytes of a sealed header, and returns that header: the reserved words are not read.
pub superblock_from_bytes-eq-ok_iff :
    (bytes : List ℕ) (h : VfsSuperblock)
    → IsBytes bytes
    → (from_bytes bytes ≡ ok h)
      ↔ (IsSealed h × (size ≤ length bytes) × (take 24 bytes ≡ take 24 (to_bytes h)))
superblock_from_bytes-eq-ok_iff bytes h w =
    (accepted bytes h w, λ (s, long, e). read_back bytes h s long (unfold written in e))

-- After `from_bytes` accepts a byte string, overwriting up to four adjacent bytes before the
-- stored checksum with other bytes makes it fail.
pub superblock_from_bytes-Burst :
    (bytes damaged : List ℕ) (h : VfsSuperblock)
    → from_bytes bytes ≡ ok h
    → Burst 20 bytes damaged
    → (h' : VfsSuperblock) → from_bytes damaged ≢ ok h'
unfolding fields
superblock_from_bytes-Burst bytes damaged h e b h' e' =
    let (_, read, _, _, crc) = (from_bytes_iff bytes h).0 e in
    let (_, read', _, _, crc') = (from_bytes_iff damaged h').0 e' in
    let stored : (fields bytes).crc32 ≡ (fields damaged).crc32 = rw (
      Burst-get_or b 20 (omega arith),
      Burst-get_or b 21 (omega arith),
      Burst-get_or b 22 (omega arith),
      Burst-get_or b 23 (omega arith),
    ) in
    Burst-crc32 b (crc ∙ ap (λ t. t.crc32) (sym read) ∙ stored ∙ ap (λ t. t.crc32) read' ∙ sym crc')
