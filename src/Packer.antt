-- ===== src/Packer.antt =====
-- overlay-packer/src/main.rs: the images that the host tool builds. Files are the lists of their bytes;
-- what a command writes is its result.
pub mod Numbers
pub mod Assets
pub mod Modules
pub mod Sections
pub mod Layout
pub mod Listing
pub mod Image
pub mod Program
pub mod Filesystem
pub mod Table
pub mod Roundtrip
use embedded_overlay.Base.{ℕ, ◌+◌, List, ◌++◌, length, if◌then◌else◌, Option, none, some}
use embedded_overlay.Arith.{as_u32}
use embedded_overlay.Bundle
use embedded_overlay.Crc.{crc32, fnv1a_hash}
use embedded_overlay.Error.{Result, ok, err, panic, ◌>>=◌, map_err}
use embedded_overlay.Header.Overlay
use embedded_overlay.Packer.Numbers.{IoError, from_str_radix, is_hex, digits_of, parse_hex_or_dec}

-- A container: the header, and then the code.
unfoldable pub container : ℕ → List ℕ → List ℕ
container module_id payload =
    Overlay.to_bytes (Overlay.new module_id (as_u32 (length payload)) 0 0 (crc32 payload))
    ++ payload

-- The id of the module on the command line: a number, or a name that is hashed.
unfoldable pub module_id_of : List ℕ → Result IoError ℕ
module_id_of s =
    if is_hex s
    then elim (from_str_radix 16 (digits_of s)) [ some n ↦ ok n | none ↦ err IoError.invalid_input ]
    else elim (from_str_radix 10 s) [ some n ↦ ok n | none ↦ ok (fnv1a_hash s) ]

-- The input is what `fs::read` gives for the path.
unfoldable pub pack_overlay : Result IoError (List ℕ) → List ℕ → Result IoError (List ℕ)
unfolding module_id_of container
pack_overlay input module_id_str = elim (module_id_of module_id_str) [
  | err e ↦ err e
  | panic ↦ panic
  | ok module_id ↦ elim input [
    | err e ↦ err e
    | panic ↦ panic
    | ok payload ↦ ok (container module_id payload)
  ]
]

-- The addresses come first, then the two files; `BundleHeader::new` returns no error.
unfoldable pub pack_bundle :
    Result IoError (List ℕ)
    → Result IoError (List ℕ)
    → List ℕ
    → List ℕ
    → List ℕ
    → Result IoError (List ℕ)
unfolding parse_hex_or_dec
pack_bundle internal external target_chip internal_addr_str external_addr_str = do
  internal_addr ← parse_hex_or_dec internal_addr_str
  external_addr ← parse_hex_or_dec external_addr_str
  internal_data ← internal
  external_data ← external
  header ←
      map_err (λ _. IoError.other)
        (Bundle.new target_chip internal_addr (as_u32 (length internal_data)) (crc32 internal_data)
          external_addr (as_u32 (length external_data)) (crc32 external_data))
  ok (Bundle.to_bytes header ++ internal_data ++ external_data)
