-- ===== src/Store/Chains.antt =====
-- The blocks of a chain by height, after each operation of crates/miot-store/src/lib.rs.
use akuma_miot.Prelude.{
  ℕ, zero, suc, ◌+◌, ◌-◌, ◌<◌, ◌≤◌, ◌≡◌, refl, ap, Bool-cases, inl, inr, false, none, some, List,
  [], ◌∷◌, ◌++◌, arith, ◌==◌, leb, if◌then◌else◌, length,
}
use akuma_miot.Store.Bytes.{Bytes}
use akuma_miot.Store.Spec.{Chain, head_of, nth, block_at, drop, appended, compacted}

nth-snoc :
    (bs : List Bytes) (b : Bytes) (n : ℕ)
    → nth (bs ++ b ∷ []) n ≡ (if n == length bs then some b else nth bs n)
unfolding nth
nth-snoc [] b zero = refl
nth-snoc [] b (suc n) = ground arith
nth-snoc (x ∷ bs) b zero = ground arith
nth-snoc (x ∷ bs) b (suc n) = ground (arith, nth-snoc bs b n)

nth-beyond : (bs : List Bytes) (n : ℕ) → length bs ≤ n → nth bs n ≡ none
unfolding nth
nth-beyond [] n h = refl
nth-beyond (x ∷ bs) zero h = absurd (omega arith)
nth-beyond (x ∷ bs) (suc n) h = nth-beyond bs n (omega arith)

nth-drop : (k : ℕ) (bs : List Bytes) (n : ℕ) → nth (drop k bs) n ≡ nth bs (k + n)
unfolding nth drop
nth-drop zero bs n = ground arith
nth-drop (suc k) [] n = refl
nth-drop (suc k) (b ∷ bs) n = ground (arith, nth-drop k bs n)

pub length-drop : (k : ℕ) (bs : List Bytes) → length (drop k bs) ≡ length bs - k
unfolding drop
length-drop zero bs = omega arith
length-drop (suc k) [] = omega arith
length-drop (suc k) (b ∷ bs) = omega (arith, length-drop k bs)

module _ (c : Chain) (a : ℕ) where
  pub block_at-appended :
      (b : Bytes)
      → block_at (appended c b) a ≡ (if head_of c + 1 == a then some b else block_at c a)
  unfolding block_at
  block_at-appended b = ground (arith, nth-snoc c.blocks b (a - c.base - 1))

  pub block_at-beyond : head_of c < a → block_at c a ≡ none
  unfolding block_at
  block_at-beyond h = ground (arith, nth-beyond c.blocks (a - c.base - 1))

  pub block_at-below : a ≤ c.base → block_at c a ≡ none
  unfolding block_at
  block_at-below h = ground arith

  pub block_at-compacted :
      (height : ℕ) (state : Bytes)
      → c.base < height
      → block_at (compacted c height state) a ≡ (if leb a height then none else block_at c a)
  unfolding block_at
  block_at-compacted height state h = elim (Bool-cases (leb a height)) [
    | inl y ↦ ground arith
    | inr n ↦
        ground
          (arith, nth-drop (height - c.base) c.blocks (a - height - 1), ap (nth c.blocks) (shift n))
  ]
    where
      shift : leb a height ≡ false → height - c.base + (a - height - 1) ≡ a - c.base - 1
      shift n = ground arith
