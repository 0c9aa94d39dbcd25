-- ===== src/Header/Directory/Laws.antt =====
-- The encoding of `OverlayDirectory` and its validation, against each other.
use mathlib.Core.Path.{subst}
use embedded_overlay.Base.{
  ℕ, ◌^◌, ◌≤◌, ◌<◌, List, [], ◌∷◌, ◌++◌, length, take, take-append_le, length-append-le,
  take-take_le, take-append-drop, drop, ◌≡◌, ◌≢◌, ◌↔◌, refl, sym, ap, ◌∙◌, arith,
}
use embedded_overlay.Bytes.{
  IsBytes, to_le16, to_le32, bytes_eq→eq, bytes_eq_self, bytes_from, bytes_from-take, get_or-lt,
  from_le16-to_le16, from_le32-to_le32, to_le16-from_le16, to_le32-from_le32, from_le16-lt,
  from_le32-lt,
}
use embedded_overlay.Crc
use embedded_overlay.Crc.Detect.{crc32-lt}
use embedded_overlay.Header.Burst.{Burst, Burst-crc32, Burst-get_or}
use embedded_overlay.Error.{ok}
use embedded_overlay.Header.Directory.{
  OverlayDirectory, magic_bytes, version_number, size, to_bytes, new, fields, from_bytes,
}

-- The constants are right, and every field fits its width.
pub record Fits (h : OverlayDirectory) : Type 0 where
  pub magic : h.magic ≡ magic_bytes
  pub version : h.version ≡ version_number
  pub entry_count : h.entry_count < 2 ^ 16
  pub index_offset : h.index_offset < 2 ^ 32
  pub total_bytes : h.total_bytes < 2 ^ 32
  pub reserved : h.reserved ≡ 0 ∷ 0 ∷ 0 ∷ []

-- The stored checksum is that of the encoding's first 16 bytes.
pub record IsSealed (h : OverlayDirectory) : Type 0 where
  pub fits : Fits h
  pub seal : h.crc32 ≡ Crc.crc32 (take 16 (to_bytes h))

-- The written fields, one after the other.
layout : List ℕ → OverlayDirectory → List ℕ
layout magic h =
    magic
    ++ (to_le16 h.version
        ++ (to_le16 h.entry_count
            ++ (to_le32 h.index_offset ++ (to_le32 h.total_bytes ++ to_le32 h.crc32))))

written : ℕ
written = 20

to_bytes-layout :
    (h : OverlayDirectory)
    → h.magic ≡ magic_bytes
    → take written (to_bytes h) ≡ layout magic_bytes h
unfolding to_bytes layout to_le16 to_le32 written
to_bytes-layout h e = rw e refl

pub length-to_bytes : (h : OverlayDirectory) → h.magic ≡ magic_bytes → length (to_bytes h) ≡ size
unfolding to_bytes to_le16 to_le32
length-to_bytes h e = rw e refl

fields-layout :
    (h : OverlayDirectory) (rest : List ℕ)
    → Fits h
    → h.crc32 < 2 ^ 32
    → fields (layout magic_bytes h ++ rest) ≡ h
unfolding fields layout to_le16 to_le32
fields-layout h rest f c = λ i. record {
  magic = sym f.magic i;
  version = from_le16-to_le16 h.version (omega arith) i;
  entry_count = from_le16-to_le16 h.entry_count f.entry_count i;
  index_offset = from_le32-to_le32 h.index_offset f.index_offset i;
  total_bytes = from_le32-to_le32 h.total_bytes f.total_bytes i;
  crc32 = from_le32-to_le32 h.crc32 c i;
  reserved = sym f.reserved i;
}

from_bytes_iff :
    (bytes : List ℕ) (h : OverlayDirectory)
    → (from_bytes bytes ≡ ok h) ↔ (
        (size ≤ length bytes)
        × (fields bytes ≡ h)
        × (h.magic ≡ magic_bytes)
        × (h.version ≡ version_number)
        × (Crc.crc32 (take 16 bytes) ≡ h.crc32))
unfolding from_bytes
from_bytes_iff bytes h = ground (arith, bytes_eq→eq h.magic magic_bytes, bytes_eq_self magic_bytes)

-- A byte string that is long enough and begins with the written fields of a sealed header.
read_back :
    (bytes : List ℕ) (h : OverlayDirectory)
    → IsSealed h
    → size ≤ length bytes
    → take written bytes ≡ take written (to_bytes h)
    → from_bytes bytes ≡ ok h
unfolding written
read_back bytes h s long e =
    let c : h.crc32 < 2 ^ 32 = rw s.seal (crc32-lt (take 16 (to_bytes h))) in
    let whole : bytes ≡ layout magic_bytes h ++ drop written bytes =
      sym (take-append-drop written bytes)
      ∙ ap (λ t. t ++ drop written bytes) (e ∙ to_bytes-layout h s.fits.magic) in
    let covered : take 16 bytes ≡ take 16 (to_bytes h) =
      sym (take-take_le 16 written bytes (omega arith))
      ∙ ap (take 16) e
      ∙ take-take_le 16 written (to_bytes h) (omega arith) in
    (from_bytes_iff bytes h).1 (
      long,
      ap fields whole ∙ fields-layout h (drop written bytes) s.fits c,
      s.fits.magic,
      s.fits.version,
      ap Crc.crc32 covered ∙ sym s.seal,
    )

-- A sealed header, written out, is read back whatever follows it.
pub from_bytes-to_bytes :
    (h : OverlayDirectory) (rest : List ℕ) → IsSealed h → from_bytes (to_bytes h ++ rest) ≡ ok h
from_bytes-to_bytes h rest s =
    let long : size ≤ length (to_bytes h) = omega (arith, length-to_bytes h s.fits.magic) in
    read_back (to_bytes h ++ rest) h s (length-append-le size (to_bytes h) rest long) (
      unfold written in
      take-append_le written (to_bytes h) rest (omega (arith, length-to_bytes h s.fits.magic)))

-- `new` seals the header that it makes.
pub new-IsSealed :
    (entry_count index_offset total_bytes : ℕ)
    → entry_count < 2 ^ 16
    → index_offset < 2 ^ 32
    → total_bytes < 2 ^ 32
    → IsSealed (new entry_count index_offset total_bytes)
unfolding new
new-IsSealed x0 x1 x2 h0 h1 h2 = record {
  fits = record {
    magic = refl;
    version = refl;
    entry_count = h0;
    index_offset = h1;
    total_bytes = h2;
    reserved = refl;
  };
  seal = unfold to_bytes to_le32 to_le16 in refl;
}

fields_bytes :
    (bytes : List ℕ)
    → IsBytes bytes
    → size ≤ length bytes
    → (fields bytes).magic ≡ magic_bytes
    → take written (to_bytes (fields bytes)) ≡ take written bytes
unfolding fields layout bytes_from written
fields_bytes bytes w l m =
    let at = λ (i : ℕ). get_or-lt bytes i w in
    to_bytes-layout (fields bytes) m
    ∙ ap (λ t. layout t (fields bytes)) (sym m)
    ∙ rw
        (
          to_le16-from_le16 _ _ (at 4) (at 5),
          to_le16-from_le16 _ _ (at 6) (at 7),
          to_le32-from_le32 _ _ _ _ (at 8) (at 9) (at 10) (at 11),
          to_le32-from_le32 _ _ _ _ (at 12) (at 13) (at 14) (at 15),
          to_le32-from_le32 _ _ _ _ (at 16) (at 17) (at 18) (at 19),
        )
        (bytes_from-take 20 bytes (omega arith))

fields-Fits :
    (bytes : List ℕ)
    → IsBytes bytes
    → (fields bytes).magic ≡ magic_bytes
    → (fields bytes).version ≡ version_number
    → Fits (fields bytes)
unfolding fields
fields-Fits bytes w m v =
    let at = λ (i : ℕ). get_or-lt bytes i w in
    record {
      magic = m;
      version = v;
      entry_count = from_le16-lt _ _ (at 6) (at 7);
      index_offset = from_le32-lt _ _ _ _ (at 8) (at 9) (at 10) (at 11);
      total_bytes = from_le32-lt _ _ _ _ (at 12) (at 13) (at 14) (at 15);
      reserved = refl;
    }

accepted :
    (bytes : List ℕ) (h : OverlayDirectory)
    → IsBytes bytes
    → from_bytes bytes ≡ ok h
    → IsSealed h × (size ≤ length bytes) × (take 20 bytes ≡ take 20 (to_bytes h))
unfolding written
accepted bytes h w e =
    let (long, read, magic, version, crc) = (from_bytes_iff bytes h).0 e in
    let m : (fields bytes).magic ≡ magic_bytes = ap (λ t. t.magic) read ∙ magic in
    let v : (fields bytes).version ≡ version_number = ap (λ t. t.version) read ∙ version in
    let same : take written (to_bytes h) ≡ take written bytes =
      ap (λ t. take written (to_bytes t)) (sym read) ∙ fields_bytes bytes w long m in
    let covered : take 16 bytes ≡ take 16 (to_bytes h) =
      sym (take-take_le 16 written bytes (omega arith))
      ∙ ap (take 16) (sym same)
      ∙ take-take_le 16 written (to_bytes h) (omega arith) in
    (
      record {
        fits = subst Fits read (fields-Fits bytes w m v);
        seal = sym crc ∙ ap Crc.crc32 covered;
      },
      long,
      sym same,
    )

-- `from_bytes` accepts exactly the byte strings of at least 32 bytes that begin with the 20
-- written bytes of a sealed header, and returns that header: the reserved words are not read.
pub index_from_bytes-eq-ok_iff :
    (bytes : List ℕ) (h : OverlayDirectory)
    → IsBytes bytes
    → (from_bytes bytes ≡ ok h)
      ↔ (IsSealed h × (size ≤ length bytes) × (take 20 bytes ≡ take 20 (to_bytes h)))
index_from_bytes-eq-ok_iff bytes h w =
    (accepted bytes h w, λ (s, long, e). read_back bytes h s long (unfold written in e))

-- After `from_bytes` accepts a byte string, overwriting up to four adjacent bytes before the
-- stored checksum with other bytes makes it fail.
pub index_from_bytes-Burst :
    (bytes damaged : List ℕ) (h : OverlayDirectory)
    → from_bytes bytes ≡ ok h
    → Burst 16 bytes damaged
    → (h' : OverlayDirectory) → from_bytes damaged ≢ ok h'
unfolding fields
index_from_bytes-Burst bytes damaged h e b h' e' =
    let (_, read, _, _, crc) = (from_bytes_iff bytes h).0 e in
    let (_, read', _, _, crc') = (from_bytes_iff damaged h').0 e' in
    let stored : (fields bytes).crc32 ≡ (fields damaged).crc32 = rw (
      Burst-get_or b 16 (omega arith),
      Burst-get_or b 17 (omega arith),
      Burst-get_or b 18 (omega arith),
      Burst-get_or b 19 (omega arith),
    ) in
    Burst-crc32 b (crc ∙ ap (λ t. t.crc32) (sym read) ∙ stored ∙ ap (λ t. t.crc32) read' ∙ sym crc')
