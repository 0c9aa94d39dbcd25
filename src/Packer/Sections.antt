-- ===== src/Packer/Sections.antt =====
-- overlay-packer/src/main.rs: how `auto_pack` finds the sections of a program. The text is what readelf
-- prints, as the codes of its characters, which are taken to be ASCII; `dump` is what objcopy and the
-- read of its output give for a section.
use embedded_overlay.Base.{
  ℕ, List, [], ◌∷◌, Bool, ◌&&◌, ◌||◌, ◌==◌, leb, if◌then◌else◌, Option, none, some,
}
use embedded_overlay.Arith.{Profile}
use embedded_overlay.Error.{Result, ok, ◌>>=◌}
use embedded_overlay.Packer.Modules.{auto_pack}
use embedded_overlay.Packer.Numbers.{IoError}

-- `.overlay.`
abbrev pub prefix : List ℕ
prefix = b'.' ∷ b'o' ∷ b'v' ∷ b'e' ∷ b'r' ∷ b'l' ∷ b'a' ∷ b'y' ∷ b'.' ∷ []

-- `s.strip_prefix(p)`
unfoldable pub strip_prefix : List ℕ → List ℕ → Option (List ℕ)
strip_prefix [] s = some s
strip_prefix (c ∷ p) [] = none
strip_prefix (c ∷ p) (d ∷ s) = let rest = strip_prefix p s in if c == d then rest else none

-- `&line[idx..]`, from the first place where the prefix stands.
unfoldable pub find : List ℕ → Option (List ℕ)
unfolding strip_prefix
find [] = none
find (c ∷ s) =
    let rest = find s in elim (strip_prefix prefix (c ∷ s)) [ some _ ↦ some (c ∷ s) | none ↦ rest ]

abbrev pub is_whitespace : ℕ → Bool
is_whitespace c = c == b' ' || (leb 9 c && leb c 13)

-- `rest.split_whitespace().next()`, for a text that does not begin with whitespace.
unfoldable pub first_word : List ℕ → List ℕ
first_word [] = []
first_word (c ∷ s) = let rest = first_word s in if is_whitespace c then [] else c ∷ rest

-- The section that a line tells of: its name, and the name of the function.
unfoldable pub section_of : List ℕ → Option (List ℕ × List ℕ)
unfolding find first_word strip_prefix
section_of line = elim (find line) [
  | none ↦ none
  | some rest ↦ elim (strip_prefix prefix (first_word rest)) [
    | none ↦ none
    | some fn_name ↦ some (first_word rest, fn_name)
  ]
]

unfoldable pub overlays_in : List (List ℕ) → List (List ℕ × List ℕ)
unfolding section_of
overlays_in [] = []
overlays_in (line ∷ lines) =
    let rest = overlays_in lines in
    elim (section_of line) [ none ↦ rest | some found ↦ found ∷ rest ]

-- The sections with their bytes, in their order; the first that cannot be dumped ends the command.
unfoldable pub dump_all :
    (List ℕ → Result IoError (List ℕ))
    → List (List ℕ × List ℕ)
    → Result IoError (List (List ℕ × List ℕ))
dump_all dump [] = ok []
dump_all dump ((sec_name, fn_name) ∷ overlays) = do
  dumped ← dump sec_name
  rest ← dump_all dump overlays
  ok ((fn_name, dumped) ∷ rest)

-- The command, from the lines that readelf prints.
unfoldable pub auto_pack_lines :
    Profile → (List ℕ → Result IoError (List ℕ)) → List (List ℕ) → Result IoError (Option (List ℕ))
unfolding overlays_in dump_all auto_pack
auto_pack_lines profile dump lines = do
  sections ← dump_all dump (overlays_in lines)
  auto_pack profile sections
