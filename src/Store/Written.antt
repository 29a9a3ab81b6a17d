-- ===== src/Store/Written.antt =====
-- What the commits of crates/miot-store/src/lib.rs leave at each key.
use akuma_miot.Prelude.{
  ℕ, zero, suc, ◌+◌, ◌<◌, Result, ok, ◌≡◌, ◌∙◌, ap, refl, true, false, ◌&&◌, Option, none, List, [],
  ◌∷◌, ◌++◌, arith, ◌==◌, leb, ltb, if◌then◌else◌,
}
use akuma_miot.Mesh.Maps.{text_eq}
use akuma_miot.Store.Bytes.{Bytes, key, key-same, u64_count}
use akuma_miot.Store.Database.{Op, written}
use akuma_miot.Store.Log.{col_block, col_checkpoint, col_meta, delete_blocks, delete_checkpoint}

module _ {E : Type 0} where
  pub written-append :
      (xs ys : List Op) (col : ℕ) (k : Bytes) (old : Result E (Option Bytes))
      → written (xs ++ ys) col k old ≡ written ys col k (written xs col k old)
  unfolding written
  written-append [] ys col k old = refl
  written-append ((c, j, v) ∷ xs) ys col k old = written-append xs ys col k _

  -- Deleting the blocks of a range.
  pub written-delete_blocks :
      (h n a : ℕ) (old : Result E (Option Bytes))
      → h + n < u64_count
      → a < u64_count
      → written (delete_blocks h n) col_block (key a) old
        ≡ (if leb h a && ltb a (h + n) then ok none else old)
  unfolding written delete_blocks
  written-delete_blocks h zero a old l m = ground arith
  written-delete_blocks h (suc n) a old l m =
      written-delete_blocks (h + 1) n a (if true && text_eq (key h) (key a) then ok none else old)
        (omega arith) m
      ∙ ground (arith, key-same h a (omega arith) m)

  -- Deleting blocks touches no other column.
  pub written-delete_blocks_other :
      (h n col : ℕ) (k : Bytes) (old : Result E (Option Bytes))
      → (0 == col) ≡ false
      → written (delete_blocks h n) col k old ≡ old
  unfolding written delete_blocks
  written-delete_blocks_other h zero col k old c = refl
  written-delete_blocks_other h (suc n) col k old c =
      written-delete_blocks_other (h + 1) n col k _ c ∙ ground arith

  -- Forgetting the last checkpoint touches the checkpoint of that height alone.
  pub written-delete_checkpoint :
      (last a : ℕ) (old : Result E (Option Bytes))
      → last < u64_count
      → a < u64_count
      → written (delete_checkpoint last) col_checkpoint (key a) old
        ≡ (if ltb 0 last && last == a then ok none else old)
  unfolding written delete_checkpoint
  written-delete_checkpoint last a old l m = ground (arith, key-same last a l m)

  pub written-delete_checkpoint_other :
      (last col : ℕ) (k : Bytes) (old : Result E (Option Bytes))
      → (1 == col) ≡ false
      → written (delete_checkpoint last) col k old ≡ old
  unfolding written delete_checkpoint
  written-delete_checkpoint_other last col k old c = ground arith

-- The writes that both compaction and adoption end or begin with.
abbrev pub prune : ℕ → ℕ → ℕ → List Op
prune last h n = delete_checkpoint last ++ delete_blocks h n

module _ {E : Type 0} (last h n : ℕ) where
  pub written-prune_block :
      (a : ℕ) (old : Result E (Option Bytes))
      → h + n < u64_count
      → a < u64_count
      → written (prune last h n) col_block (key a) old
        ≡ (if leb h a && ltb a (h + n) then ok none else old)
  written-prune_block a old l m =
      rw
        (
          written-append (delete_checkpoint last) (delete_blocks h n) col_block (key a) old,
          written-delete_checkpoint_other last col_block (key a) old refl,
        )
        (written-delete_blocks h n a old l m)

  pub written-prune_checkpoint :
      (a : ℕ) (old : Result E (Option Bytes))
      → last < u64_count
      → a < u64_count
      → written (prune last h n) col_checkpoint (key a) old
        ≡ (if ltb 0 last && last == a then ok none else old)
  written-prune_checkpoint a old l m =
      written-append (delete_checkpoint last) (delete_blocks h n) col_checkpoint (key a) old
      ∙ written-delete_blocks_other h n col_checkpoint (key a) _ refl
      ∙ written-delete_checkpoint last a old l m

  pub written-prune_meta :
      (k : Bytes) (old : Result E (Option Bytes)) → written (prune last h n) col_meta k old ≡ old
  written-prune_meta k old =
      written-append (delete_checkpoint last) (delete_blocks h n) col_meta k old
      ∙ written-delete_blocks_other h n col_meta k _ refl
      ∙ written-delete_checkpoint_other last col_meta k old refl

-- The same before other writes.
module _ {E : Type 0} (rest : List Op) where
  pub written-delete_blocks-then :
      (h n a : ℕ) (old : Result E (Option Bytes))
      → h + n < u64_count
      → a < u64_count
      → written (delete_blocks h n ++ rest) col_block (key a) old
        ≡ written rest col_block (key a) (if leb h a && ltb a (h + n) then ok none else old)
  written-delete_blocks-then h n a old l m =
      written-append (delete_blocks h n) rest col_block (key a) old
      ∙ ap (written rest col_block (key a)) (written-delete_blocks h n a old l m)

  pub written-delete_blocks_other-then :
      (h n col : ℕ) (k : Bytes) (old : Result E (Option Bytes))
      → (0 == col) ≡ false
      → written (delete_blocks h n ++ rest) col k old ≡ written rest col k old
  written-delete_blocks_other-then h n col k old c =
      written-append (delete_blocks h n) rest col k old
      ∙ ap (written rest col k) (written-delete_blocks_other h n col k old c)

  pub written-delete_checkpoint_other-then :
      (last col : ℕ) (k : Bytes) (old : Result E (Option Bytes))
      → (1 == col) ≡ false
      → written (delete_checkpoint last ++ rest) col k old ≡ written rest col k old
  written-delete_checkpoint_other-then last col k old c =
      written-append (delete_checkpoint last) rest col k old
      ∙ ap (written rest col k) (written-delete_checkpoint_other last col k old c)
