-- ===== src/Primitives/Title/Cut.antt =====
-- What `title_from_markdown` of crates/miot-primitives/src/lib.rs makes of a heading that is too long.
use akuma_miot.Prelude.{
  ℕ, zero, suc, ◌-◌, ◌≤◌, ◌≡◌, refl, ap, true, [], ◌∷◌, ◌++◌, arith, ltb, Bool-cases, inl, inr,
  append-nil,
}
use akuma_miot.Primitives.Text.{Text, len_utf8, len, is_char_boundary, truncate, len_utf8_pos}
use akuma_miot.Primitives.Title.{cut_at, cut_title, full_title, title_from_markdown}

boundary-zero : (t : Text) → is_char_boundary t 0 ≡ true
unfolding is_char_boundary
boundary-zero [] = refl
boundary-zero (c ∷ cs) = refl

len-truncate : (t : Text) (i : ℕ) → is_char_boundary t i ≡ true → len (truncate t i) ≡ i
unfolding len is_char_boundary truncate
len-truncate [] i h = ground arith
len-truncate (c ∷ cs) i h = ground (arith, len_utf8_pos c, len-truncate cs (i - len_utf8 c))

truncate-prefix : (t : Text) (i : ℕ) → (rest : Text) × (truncate t i ++ rest ≡ t)
unfolding truncate
truncate-prefix [] i = ([], refl)
truncate-prefix (c ∷ cs) i = elim (Bool-cases (ltb i (len_utf8 c))) [
  | inl y ↦ rw y (c ∷ cs, refl)
  | inr n ↦ let (rest, e) = truncate-prefix cs (i - len_utf8 c) in rw n (rest, ap (λ u. c ∷ u) e)
]

boundary-le-len : (t : Text) (i : ℕ) → is_char_boundary t i ≡ true → i ≤ len t
unfolding len is_char_boundary
boundary-le-len [] i h = ground arith
boundary-le-len (c ∷ cs) i h = ground (arith, boundary-le-len cs (i - len_utf8 c))

boundary-cut_at : (t : Text) (max : ℕ) → is_char_boundary t (cut_at t max) ≡ true
unfolding cut_at
boundary-cut_at t zero = boundary-zero t
boundary-cut_at t (suc i) = ground (arith, boundary-cut_at t i)

cut_at-le : (t : Text) (max : ℕ) → cut_at t max ≤ max
unfolding cut_at
cut_at-le t zero = omega arith
cut_at-le t (suc i) = ground (arith, cut_at-le t i)

cut_at-longest : (t : Text) (max i : ℕ) → is_char_boundary t i ≡ true → i ≤ max → i ≤ cut_at t max
unfolding cut_at
cut_at-longest t zero i h le = omega arith
cut_at-longest t (suc m) i h le = ground (arith, cut_at-longest t m i h, boundary-cut_at t m)

-- `title` is the longest prefix of `full` that ends between two characters and has at most `max` bytes.
pub record IsLongestCut (full title : Text) (max : ℕ) : Type 0 where
  pub fits : len title ≤ max
  pub prefix : (rest : Text) × (title ++ rest ≡ full)
  pub longest : (i : ℕ) → is_char_boundary full i ≡ true → i ≤ max → i ≤ len title

cut_title-IsLongestCut : (full : Text) (max : ℕ) → IsLongestCut full (cut_title full max) max
unfolding cut_title
cut_title-IsLongestCut full max = elim (Bool-cases (ltb max (len full))) [
  | inl y ↦ rw y (record {
    fits = rw (len-truncate full (cut_at full max) (boundary-cut_at full max)) (cut_at-le full max);
    prefix = truncate-prefix full (cut_at full max);
    longest = λ i h le.
        rw (len-truncate full (cut_at full max) (boundary-cut_at full max))
          (cut_at-longest full max i h le);
  })
  | inr n ↦ rw n (record {
    fits = ground arith;
    prefix = ([], append-nil full);
    longest = λ i h le. boundary-le-len full i h;
  })
]

-- The title of an artifact has at most `max` bytes, and is the longest prefix of the heading (or of
-- "untitled") that does and that ends between two characters.
pub title_from_markdown-IsLongestCut :
    (body : Text) (max : ℕ) → IsLongestCut (full_title body) (title_from_markdown body max) max
unfolding title_from_markdown
title_from_markdown-IsLongestCut body max = cut_title-IsLongestCut (full_title body) max
