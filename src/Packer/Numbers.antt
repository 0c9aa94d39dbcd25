-- ===== src/Packer/Numbers.antt =====
-- overlay-packer/src/main.rs: numbers on the command line, with `u32::from_str_radix`.
use embedded_overlay.Base.{
  ℕ, ◌+◌, ◌-◌, ◌*◌, List, [], ◌∷◌, drop, Bool, false, ◌&&◌, ◌||◌, ◌==◌, ltb, leb, if◌then◌else◌,
  Option, none, some,
}
use embedded_overlay.Arith.{u32_mod}
use embedded_overlay.Error.{Result, ok, err}

-- The kinds of `io::Error` that the tool makes.
pub data IoError : Type 0 where
  invalid_input not_found other : IoError

-- `char::to_digit`
unfoldable pub to_digit : ℕ → ℕ → Option ℕ
to_digit radix b =
    let value =
      if leb b'0' b && leb b b'9'
      then b - b'0'
      else if leb b'a' b && leb b b'z'
      then b - b'a' + 10
      else if leb b'A' b && leb b b'Z'
      then b - b'A' + 10
      else 36 in
    if ltb value radix then some value else none

unfoldable pub digits_from : ℕ → ℕ → List ℕ → Option ℕ
unfolding to_digit
digits_from radix value [] = some value
digits_from radix value (b ∷ s) = elim (to_digit radix b) [
  | none ↦ none
  | some d ↦
      if ltb (value * radix + d) u32_mod then digits_from radix (value * radix + d) s else none
]

unfoldable pub some_digits : ℕ → List ℕ → Option ℕ
unfolding digits_from
some_digits radix [] = none
some_digits radix (b ∷ s) = digits_from radix 0 (b ∷ s)

-- `u32::from_str_radix`: a sign `+` is allowed, and at least one digit is needed.
unfoldable pub from_str_radix : ℕ → List ℕ → Option ℕ
unfolding some_digits
from_str_radix radix [] = none
from_str_radix radix (b ∷ s) = if b == b'+' then some_digits radix s else some_digits radix (b ∷ s)

-- `s.starts_with("0x") || s.starts_with("0X")`
abbrev pub is_hex : List ℕ → Bool
is_hex (a ∷ b ∷ s) = a == b'0' && (b == b'x' || b == b'X')
is_hex _ = false

-- `&s[2..]`
abbrev pub digits_of : List ℕ → List ℕ
digits_of s = drop 2 s

unfoldable pub parse_hex_or_dec : List ℕ → Result IoError ℕ
parse_hex_or_dec s =
    elim (if is_hex s then from_str_radix 16 (digits_of s) else from_str_radix 10 s) [
      | some n ↦ ok n
      | none ↦ err IoError.invalid_input
    ]
