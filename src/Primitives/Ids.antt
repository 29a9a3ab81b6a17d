-- ===== src/Primitives/Ids.antt =====
-- `MessageId` and `ArtifactId` of crates/miot-primitives/src/lib.rs.
pub mod RoundTrip
use akuma_miot.Prelude.{
  ℕ, zero, suc, ◌-◌, Bool, true, false, ◌&&◌, ◌||◌, Option, List, [], ◌∷◌, ◌++◌, none, leb, ◌==◌,
  if◌then◌else◌, all, length,
}
use akuma_miot.Primitives.Words.{saturating_sub}
use akuma_miot.Primitives.TaskId.{TaskId}
use akuma_miot.Primitives.Text.{Text, trim}
use akuma_miot.Primitives.Radix.{from_str_radix, hexes}

abbrev pub MessageId : Type 0
MessageId = ℕ

pub data ArtifactId : Type 0 where
  task : TaskId → ArtifactId
  note : ℕ → ArtifactId

abbrev pub largest_u64 : ℕ
largest_u64 = 18446744073709551615

abbrev pub is_ascii_digit : ℕ → Bool
is_ascii_digit c = leb 48 c && leb c 57

-- `trim_start_matches(['#', '0', 'x'])`
unfoldable pub strip_marks : Text → Text
strip_marks [] = []
strip_marks (c ∷ cs) = if c == b'#' || c == b'0' || c == b'x' then strip_marks cs else c ∷ cs

-- `trim_start_matches("x")`
unfoldable pub strip_x : Text → Text
strip_x [] = []
strip_x (c ∷ cs) = if c == b'x' then strip_x cs else c ∷ cs

-- The digits alone are read as decimal, and with a letter among them as hexadecimal.
unfoldable pub read_digits : Text → Option MessageId
unfolding all from_str_radix
read_digits [] = none
read_digits (c ∷ cs) =
    if all is_ascii_digit (c ∷ cs)
    then from_str_radix 10 largest_u64 (c ∷ cs)
    else from_str_radix 16 largest_u64 (c ∷ cs)

-- `MessageId::parse`
unfoldable pub parse : Text → Option MessageId
unfolding read_digits strip_x strip_marks trim
parse s = read_digits (strip_x (strip_marks (trim s)))

unfoldable pub zeros : ℕ → Text
zeros zero = []
zeros (suc k) = b'0' ∷ zeros k

-- `{:08x}`
unfoldable pub show : MessageId → Text
unfolding zeros hexes
show n = zeros (saturating_sub 8 (length (hexes 16 n))) ++ hexes 16 n
