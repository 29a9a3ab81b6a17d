-- ===== src/Primitives/Ids/RoundTrip.antt =====
-- What `MessageId::parse` makes of what `Display` prints (crates/miot-primitives/src/lib.rs).
use mathlib.Core.List.{reverse, reverse-cons, reverse-reverse}
use akuma_miot.Prelude.{
  ℕ, zero, suc, ◌≤◌, ◌<◌, ◌≡◌, refl, sym, ap, ◌∙◌, false, some, [], ◌∷◌, ◌++◌, arith, if◌then◌else◌,
  all, length, All, All-append, append-nil,
}
use akuma_miot.Primitives.Words.{saturating_sub}
use akuma_miot.Primitives.Text.{Text, is_whitespace, trim_start, trim}
use akuma_miot.Primitives.Radix.{
  hex_char, hexes, unsigned, from_str_radix, from_digits, from_digits-hexes, All-hexes, hexes-head,
}
use akuma_miot.Primitives.Ids.{
  MessageId, largest_u64, is_ascii_digit, strip_marks, strip_x, read_digits, parse, zeros, show,
}

-- A character that `trim` leaves.
abbrev IsInk : ℕ → Type 0
IsInk c = is_whitespace c ≡ false

trim_start-IsInk : (s : Text) → All IsInk s → trim_start s ≡ s
unfolding trim_start
trim_start-IsInk [] h = refl
trim_start-IsInk (c ∷ s) h = rw h.0

All-reverse : (s : Text) → All IsInk s → All IsInk (reverse s)
All-reverse [] h = tt
All-reverse (c ∷ s) h =
    rw (reverse-cons c s) (All-append IsInk (reverse s) (c ∷ []) (All-reverse s h.1) (h.0, tt))

trim-IsInk : (s : Text) → All IsInk s → trim s ≡ s
unfolding trim
trim-IsInk s h =
    ap (λ t. reverse (trim_start (reverse t))) (trim_start-IsInk s h)
    ∙ ap reverse (trim_start-IsInk (reverse s) (All-reverse s h))
    ∙ reverse-reverse s

zeros-IsInk : (k : ℕ) → All IsInk (zeros k)
unfolding zeros is_whitespace
zeros-IsInk zero = tt
zeros-IsInk (suc k) = (refl, zeros-IsInk k)

hex_char-IsInk : (d : ℕ) → d < 16 → IsInk (hex_char d)
unfolding is_whitespace
hex_char-IsInk d lt = ground arith

trim-show : (n : ℕ) → trim (show n) ≡ show n
unfolding show
trim-show n = trim-IsInk (zeros (saturating_sub 8 (length (hexes 16 n))) ++ hexes 16 n) (
    All-append IsInk (zeros (saturating_sub 8 (length (hexes 16 n)))) (hexes 16 n)
      (zeros-IsInk (saturating_sub 8 (length (hexes 16 n)))) (All-hexes IsInk hex_char-IsInk 16 n))

strip_marks-zeros : (k : ℕ) (s : Text) → strip_marks (zeros k ++ s) ≡ strip_marks s
unfolding strip_marks zeros
strip_marks-zeros zero s = refl
strip_marks-zeros (suc k) s = strip_marks-zeros k s

-- A text that starts with a digit other than 0.
module _ (d : ℕ) (rest : Text) (pos : 0 < d) (lt : d < 16) where
  strip_marks-digit : strip_marks (hex_char d ∷ rest) ≡ hex_char d ∷ rest
  unfolding strip_marks
  strip_marks-digit = ground (arith, pos, lt)

  strip_x-digit : strip_x (hex_char d ∷ rest) ≡ hex_char d ∷ rest
  unfolding strip_x
  strip_x-digit = ground (arith, pos, lt)

  from_str_radix-digit :
      (radix max : ℕ)
      → from_str_radix radix max (hex_char d ∷ rest) ≡ from_digits radix max 0 (hex_char d ∷ rest)
  unfolding from_str_radix unsigned
  from_str_radix-digit radix max = ground (arith, pos, lt)

  read-digit : read_digits (hex_char d ∷ rest) ≡ (
      if all is_ascii_digit (hex_char d ∷ rest)
      then from_digits 10 largest_u64 0 (hex_char d ∷ rest)
      else from_digits 16 largest_u64 0 (hex_char d ∷ rest))
  unfolding read_digits
  read-digit = rw (from_str_radix-digit 10 largest_u64, from_str_radix-digit 16 largest_u64)

strip-show : (n : ℕ) → 0 < n → n ≤ largest_u64 → strip_x (strip_marks (trim (show n))) ≡ hexes 16 n
unfolding show
strip-show n pos le =
    let (d, rest, p, l, e) = hexes-head 16 n pos (omega arith) in
    ap (λ s. strip_x (strip_marks s)) (trim-show n)
    ∙ ap strip_x (strip_marks-zeros (saturating_sub 8 (length (hexes 16 n))) (hexes 16 n))
    ∙ ap (λ s. strip_x (strip_marks s)) e
    ∙ ap strip_x (strip_marks-digit d rest p l)
    ∙ strip_x-digit d rest p l
    ∙ sym e

read_none : (radix max n : ℕ) → from_digits radix max n [] ≡ some n
unfolding from_digits
read_none radix max n = refl

-- The id of a message other than 0 is read back from its own rendering, unless that rendering has no
-- letter among its hexadecimal digits: then those digits are read as a decimal number.
pub parse-show :
    (n : MessageId)
    → 0 < n
    → n ≤ largest_u64
    → parse (show n) ≡ (
        if all is_ascii_digit (hexes 16 n)
        then from_digits 10 largest_u64 0 (hexes 16 n)
        else some n)
unfolding parse
parse-show n pos le =
    let (d, rest, p, l, e) = hexes-head 16 n pos (omega arith) in
    ap read_digits (strip-show n pos le ∙ e)
    ∙ read-digit d rest p l
    ∙ ap
        (λ s.
          if all is_ascii_digit s
          then from_digits 10 largest_u64 0 s
          else from_digits 16 largest_u64 0 s)
        (sym e)
    ∙ ap
        (λ o.
          if all is_ascii_digit (hexes 16 n) then from_digits 10 largest_u64 0 (hexes 16 n) else o)
        hex_back
  where
    hex_back : from_digits 16 largest_u64 0 (hexes 16 n) ≡ some n
    hex_back =
        ap (from_digits 16 largest_u64 0) (sym (append-nil (hexes 16 n)))
        ∙ from_digits-hexes 16 n largest_u64 [] (omega arith) le
        ∙ read_none 16 largest_u64 n
