-- ===== src/Primitives/Radix.antt =====
-- Rust's `char::to_digit`, `from_str_radix`, `str::parse` on unsigned words, and `{:x}`, as far as
-- crates/miot-primitives/src/lib.rs uses them.
use akuma_miot.Prelude.{
  ℕ, zero, suc, ◌+◌, ◌-◌, ◌*◌, ◌/◌, ◌%◌, ◌^◌, ◌≤◌, ◌<◌, ◌≡◌, refl, ◌∙◌, ap, ◌&&◌, Option, none,
  some, [], ◌∷◌, ◌++◌, arith, ltb, leb, ◌==◌, if◌then◌else◌, append_assoc, All, All-append,
  Bool-cases, inl, inr,
}
use akuma_miot.Primitives.Text.{Text}

-- The value of a digit in base 36, and 36 for what is none.
abbrev pub any_digit : ℕ → ℕ
any_digit c =
    if leb 48 c && leb c 57
    then c - 48
    else if leb 97 c && leb c 122
    then c - 87
    else if leb 65 c && leb c 90
    then c - 55
    else 36

-- `char::to_digit`
unfoldable pub to_digit : ℕ → ℕ → Option ℕ
to_digit radix c = if ltb (any_digit c) radix then some (any_digit c) else none

-- The digits of a number that is to be at most `max`, after the digits that make `acc`.
unfoldable pub from_digits : ℕ → ℕ → ℕ → Text → Option ℕ
unfolding to_digit
from_digits radix max acc [] = some acc
from_digits radix max acc (c ∷ cs) = elim (to_digit radix c) [
  | none ↦ none
  | some d ↦ if leb (acc * radix + d) max then from_digits radix max (acc * radix + d) cs else none
]

-- `from_str_radix`: one `+` may stand in front, and there is at least one digit.
unfoldable pub unsigned : ℕ → ℕ → Text → Option ℕ
unfolding from_digits
unsigned radix max [] = none
unsigned radix max (c ∷ cs) = from_digits radix max 0 (c ∷ cs)

unfoldable pub from_str_radix : ℕ → ℕ → Text → Option ℕ
unfolding unsigned
from_str_radix radix max [] = none
from_str_radix radix max (c ∷ cs) =
    if c == b'+' then unsigned radix max cs else unsigned radix max (c ∷ cs)

abbrev pub hex_char : ℕ → ℕ
hex_char d = if ltb d 10 then 48 + d else 87 + d

-- `{:x}`, with fuel for the number of digits.
unfoldable pub hexes : ℕ → ℕ → Text
hexes zero n = []
hexes (suc f) n =
    let rest = hexes f (n / 16) in
    if ltb n 16 then hex_char n ∷ [] else rest ++ hex_char (n % 16) ∷ []

to_digit-hex_char : (d : ℕ) → d < 16 → to_digit 16 (hex_char d) ≡ some d
unfolding to_digit
to_digit-hex_char d lt = ground arith

from_digits-hex_char :
    (max acc d : ℕ) (xs : Text)
    → d < 16
    → acc * 16 + d ≤ max
    → from_digits 16 max acc (hex_char d ∷ xs) ≡ from_digits 16 max (acc * 16 + d) xs
unfolding from_digits
from_digits-hex_char max acc d xs lt le = ground (arith, to_digit-hex_char d lt)

-- Reading the digits of a number gives it back, if they are not too many and the bound allows it.
pub from_digits-hexes :
    (f n max : ℕ) (xs : Text)
    → n < 16 ^ f
    → n ≤ max
    → from_digits 16 max 0 (hexes f n ++ xs) ≡ from_digits 16 max n xs
unfolding hexes
from_digits-hexes zero n max xs lt le = ap (λ k. from_digits 16 max k xs) (omega arith)
from_digits-hexes (suc f) n max xs lt le = elim (Bool-cases (ltb n 16)) [
  | inl y ↦ rw y (
      from_digits-hex_char max 0 n xs (ground arith) (omega arith)
      ∙ ap (λ k. from_digits 16 max k xs) (omega arith))
  | inr h ↦
      rw (h, append_assoc (hexes f (n / 16)) (hex_char (n % 16) ∷ []) xs)
        (from_digits-hexes f (n / 16) max (hex_char (n % 16) ∷ xs) (omega arith) (omega arith)
          ∙ from_digits-hex_char max (n / 16) (n % 16) xs (omega arith) (omega arith)
          ∙ ap (λ k. from_digits 16 max k xs) (omega arith))
]

-- What every digit has, and what the first digit has, of a number that is not 0.
module _ (P : ℕ → Type 0) (h : (d : ℕ) → d < 16 → P (hex_char d)) where
  pub All-hexes : (f n : ℕ) → All P (hexes f n)
  unfolding hexes
  All-hexes zero n = tt
  All-hexes (suc f) n = elim (Bool-cases (ltb n 16)) [
    | inl y ↦ rw y (h n (ground arith), tt)
    | inr b ↦ rw b (
        All-append P (hexes f (n / 16)) (hex_char (n % 16) ∷ []) (All-hexes f (n / 16))
          (h (n % 16) (omega arith), tt))
  ]

pub hexes-head :
    (f n : ℕ)
    → 0 < n
    → n < 16 ^ f
    → (d : ℕ) × (rest : Text) × (0 < d) × (d < 16) × (hexes f n ≡ hex_char d ∷ rest)
unfolding hexes
hexes-head zero n pos lt = absurd (omega arith)
hexes-head (suc f) n pos lt = elim (Bool-cases (ltb n 16)) [
  | inl y ↦ rw y (n, [], pos, ground arith, refl)
  | inr b ↦
      let (d, rest, p, l, e) = hexes-head f (n / 16) (ground arith) (omega arith) in
      rw b (d, rest ++ hex_char (n % 16) ∷ [], p, l, ap (λ s. s ++ hex_char (n % 16) ∷ []) e)
]
