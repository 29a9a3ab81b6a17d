-- ===== src/Primitives/Text.antt =====
-- Rust's `String`, as far as crates/miot-primitives/src/lib.rs uses it: a text is its list of `char`s,
-- and a length or a position counts bytes of its UTF-8 encoding.
use Prim.Native.Char.{code}
use Prim.Native.String.{String}
use akuma_miot.Prelude.{
  ℕ, ◌+◌, ◌-◌, ◌≤◌, Bool, true, false, ◌&&◌, ◌||◌, List, [], ◌∷◌, arith, ltb, leb, ◌==◌,
  if◌then◌else◌,
}
use mathlib.Core.List.{reverse}

abbrev pub Text : Type 0
Text = List ℕ

abbrev pub of_string : String → Text
of_string String.[] = []
of_string (String.◌∷◌ c s) = code c ∷ of_string s

-- `char::len_utf8`
unfoldable pub len_utf8 : ℕ → ℕ
len_utf8 c = if ltb c 0x80 then 1 else if ltb c 0x800 then 2 else if ltb c 0x10000 then 3 else 4

-- `str::len`
unfoldable pub len : Text → ℕ
unfolding len_utf8
len [] = 0
len (c ∷ cs) = len_utf8 c + len cs

-- `str::is_char_boundary`
unfoldable pub is_char_boundary : Text → ℕ → Bool
unfolding len_utf8
is_char_boundary [] i = i == 0
is_char_boundary (c ∷ cs) i = i == 0 || (leb (len_utf8 c) i && is_char_boundary cs (i - len_utf8 c))

-- `String::truncate` at a position that is a boundary.
unfoldable pub truncate : Text → ℕ → Text
unfolding len_utf8
truncate [] i = []
truncate (c ∷ cs) i = if ltb i (len_utf8 c) then [] else c ∷ truncate cs (i - len_utf8 c)

-- `char::is_whitespace`: the characters with the property White_Space.
unfoldable pub is_whitespace : ℕ → Bool
is_whitespace c =
    (leb 0x9 c && leb c 0xd)
    || c == 0x20
    || c == 0x85
    || c == 0xa0
    || c == 0x1680
    || (leb 0x2000 c && leb c 0x200a)
    || c == 0x2028
    || c == 0x2029
    || c == 0x202f
    || c == 0x205f
    || c == 0x3000

unfoldable pub trim_start : Text → Text
unfolding is_whitespace
trim_start [] = []
trim_start (c ∷ cs) = if is_whitespace c then trim_start cs else c ∷ cs

-- `str::trim`
unfoldable pub trim : Text → Text
unfolding trim_start
trim s = reverse (trim_start (reverse (trim_start s)))

-- A line that ended in "\r\n" loses the "\r" too; it stands here with its last character first.
abbrev strip_return : Text → Text
strip_return [] = []
strip_return (c ∷ cs) = if c == 13 then cs else c ∷ cs

abbrev last_line : Text → List Text
last_line [] = []
last_line (c ∷ cs) = reverse (c ∷ cs) ∷ []

lines_from : Text → Text → List Text
lines_from seen [] = last_line seen
lines_from seen (c ∷ cs) = elim (c == 10) [
  | true ↦ reverse (strip_return seen) ∷ lines_from [] cs
  | false ↦ lines_from (c ∷ seen) cs
]

-- `str::lines`
unfoldable pub lines : Text → List Text
unfolding lines_from
lines s = lines_from [] s

pub len_utf8_pos : (c : ℕ) → 1 ≤ len_utf8 c
unfolding len_utf8
len_utf8_pos c = ground arith
