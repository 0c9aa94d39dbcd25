-- ===== src/Tests/Images.antt =====
-- overlay-packer/src/main.rs on concrete inputs.
use embedded_overlay.Base.{ℕ, List, [], ◌∷◌, some, none, length, ◌≡◌, refl, arith}
use embedded_overlay.Arith.{Profile}
use embedded_overlay.Crc.{fnv1a_hash}
use embedded_overlay.Engine.Directory.{IsDirectory}
use embedded_overlay.Error.{ok, err}
use embedded_overlay.Header.Directory
use embedded_overlay.Header.Entry
use embedded_overlay.Packer.{module_id_of}
use embedded_overlay.Packer.Listing.{IsPacked}
use embedded_overlay.Packer.Image.{auto_pack-IsDirectory}
use embedded_overlay.Packer.Modules.{auto_pack}
use embedded_overlay.Packer.Sections.{section_of}
use embedded_overlay.Packer.Numbers.{IoError, from_str_radix, parse_hex_or_dec}

-- Sections `.overlay.a` and `.overlay.b`, the first not a multiple of 4 bytes long.
abbrev first_section : List ℕ × List ℕ
first_section = (b'a' ∷ [], 0x70 ∷ 0x47 ∷ 0 ∷ [])

abbrev second_section : List ℕ × List ℕ
second_section = (b'b' ∷ [], 0x00 ∷ 0xBF ∷ 0x70 ∷ 0x47 ∷ [])

auto_pack-IsDirectory_example :
    (image : List ℕ) × (entries : List Entry.OverlayDirectoryEntry) × (auto_pack Profile.debug
        (first_section ∷ second_section ∷ [])
      ≡ ok (some image))
    × IsDirectory image 0 Directory.size (length image) entries
    × IsPacked image entries (first_section ∷ second_section ∷ [])
auto_pack-IsDirectory_example =
    auto_pack-IsDirectory Profile.debug first_section (second_section ∷ []) (omega arith)
      (omega arith)

no_sections : auto_pack Profile.debug [] ≡ ok none
unfolding auto_pack
no_sections = refl

hexadecimal : parse_hex_or_dec (b'0' ∷ b'x' ∷ b'1' ∷ b'F' ∷ []) ≡ ok 31
unfolding parse_hex_or_dec from_str_radix
hexadecimal = refl

-- 4294967296 is too large for `u32`.
too_large :
    parse_hex_or_dec (b'4' ∷ b'2' ∷ b'9' ∷ b'4' ∷ b'9' ∷ b'6' ∷ b'7' ∷ b'2' ∷ b'9' ∷ b'6' ∷ [])
    ≡ err IoError.invalid_input
unfolding parse_hex_or_dec from_str_radix
too_large = refl

-- A name is hashed.
hashed : module_id_of (b'a' ∷ []) ≡ ok 0xE40C_292C
unfolding module_id_of from_str_radix fnv1a_hash
hashed = refl

-- A line that readelf prints for a section, and one without.
overlay_line :
    section_of (
      b' ' ∷ b'.' ∷ b'o' ∷ b'v' ∷ b'e' ∷ b'r' ∷ b'l' ∷ b'a' ∷ b'y' ∷ b'.' ∷ b'a' ∷ b' ' ∷ b'P' ∷ [])
    ≡ some (b'.' ∷ b'o' ∷ b'v' ∷ b'e' ∷ b'r' ∷ b'l' ∷ b'a' ∷ b'y' ∷ b'.' ∷ b'a' ∷ [], b'a' ∷ [])
unfolding section_of
overlay_line = refl

other_line : section_of (b'.' ∷ b't' ∷ b'e' ∷ b'x' ∷ b't' ∷ []) ≡ none
unfolding section_of
other_line = refl
