-- ===== src/Primitives/Examples.antt =====
-- The theorems on the shared vocabulary (crates/miot-primitives/src/lib.rs) at small inputs.
use akuma_miot.Prelude.{some, ◌≡◌, refl, if◌then◌else◌, all, arith, none}
use akuma_miot.Primitives.Text.{Text, of_string, trim}
use akuma_miot.Primitives.Radix.{hexes, from_digits}
use akuma_miot.Primitives.Ids.{largest_u64, is_ascii_digit, parse, show}
use akuma_miot.Primitives.Ids.RoundTrip.{parse-show}
use akuma_miot.Primitives.Title.{full_title, title_from_markdown}
use akuma_miot.Primitives.Title.Cut.{IsLongestCut, title_from_markdown-IsLongestCut}

abbrev body : Text
body = of_string "intro\n# Serving tea in the garden\nwater first"

title_is_cut : title_from_markdown body 11 ≡ of_string "Serving tea"
unfolding title_from_markdown trim
title_is_cut = refl

title_from_markdown-IsLongestCut_example :
    IsLongestCut (full_title body) (title_from_markdown body 11) 11
title_from_markdown-IsLongestCut_example = title_from_markdown-IsLongestCut body 11

parse-show_example : parse (show 27) ≡ (
    if all is_ascii_digit (hexes 16 27)
    then from_digits 10 largest_u64 0 (hexes 16 27)
    else some 27)
parse-show_example = parse-show 27 (omega arith) (omega arith)

-- 27 is 1b, and 18 is 12, which is read as twelve.
letters_are_hex : parse (show 27) ≡ some 27
unfolding parse show
letters_are_hex = refl

digits_are_decimal : parse (show 18) ≡ some 12
unfolding parse show
digits_are_decimal = refl

zero_is_lost : parse (show 0) ≡ none
unfolding parse show
zero_is_lost = refl
