-- ===== src/Primitives/Title.antt =====
-- `title_from_markdown` of crates/miot-primitives/src/lib.rs: the title of an artifact is the first
-- `# ` heading of its body, trimmed, and cut at a character boundary.
pub mod Cut
use mathlib.Core.Option
use akuma_miot.Prelude.{
  ℕ, zero, suc, ◌≤◌, ◌≡◌, refl, Bool, true, false, Option, none, some, List, [], ◌∷◌, arith, leb,
  ltb, ◌==◌, if◌then◌else◌, unwrap_or,
}
use akuma_miot.Primitives.Text.{Text, of_string, len, is_char_boundary, truncate, trim, lines}

-- `l.strip_prefix("# ")`
unfoldable pub strip_heading : Text → Option Text
strip_heading (h ∷ s ∷ rest) = if h == b'#' then (if s == b' ' then some rest else none) else none
strip_heading _ = none

-- `find_map` over the lines.
unfoldable pub first_heading : List Text → Option Text
unfolding strip_heading
first_heading [] = none
first_heading (l ∷ ls) =
    let rest = first_heading ls in elim (strip_heading l) [ some t ↦ some t | none ↦ rest ]

abbrev pub untitled : Text
untitled = of_string "untitled"

-- `.map(str::trim).filter(|t| !t.is_empty())`, and the fallback.
unfoldable pub heading_or_untitled : Option Text → Text
heading_or_untitled none = untitled
heading_or_untitled (some t) = elim (trim t) [ [] ↦ untitled | c ∷ cs ↦ c ∷ cs ]

-- `(0..=max).rev().find(|&i| out.is_char_boundary(i)).unwrap_or(0)`
unfoldable pub cut_at : Text → ℕ → ℕ
unfolding is_char_boundary
cut_at out zero = 0
cut_at out (suc i) = if is_char_boundary out (suc i) then suc i else cut_at out i

unfoldable pub cut_title : Text → ℕ → Text
unfolding cut_at truncate len
cut_title out max = if ltb max (len out) then truncate out (cut_at out max) else out

unfoldable pub full_title : Text → Text
unfolding first_heading heading_or_untitled lines
full_title body = heading_or_untitled (first_heading (lines body))

unfoldable pub title_from_markdown : Text → ℕ → Text
unfolding full_title cut_title
title_from_markdown body max = cut_title (full_title body) max
