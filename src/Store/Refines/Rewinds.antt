-- ===== src/Store/Refines/Rewinds.antt =====
-- What the writes of `rewind_for_fork` (crates/miot-store/src/lib.rs) leave.
use akuma_miot.Prelude.{◌+◌, ◌-◌, refl, ◌∙◌, none, some, [], ◌∷◌, ◌++◌, arith, ok}
use akuma_miot.Mesh.Maps.{text_eq}
use akuma_miot.Store.Bytes.{key, aux_key, key_head, key_last_cp, to_be_bytes}
use akuma_miot.Store.Database.{Database, IsLawful, written}
use akuma_miot.Store.Log.{Store, col_checkpoint, col_meta, delete_blocks}
use akuma_miot.Store.Written.{written-delete_blocks-then, written-delete_blocks_other-then}
use akuma_miot.Store.Spec.{Chain, Holds, head_of, block_at}
use akuma_miot.Store.Chains.{block_at-beyond, block_at-below}
use akuma_miot.Store.Refines.{Writes, number-of_be}

module _ {D : Database} (L : IsLawful D) (s : Store D) (c : Chain) (H : Holds s c) where
  -- A rewind to the last compaction.
  pub rewind-Writes :
      Writes s c
        (delete_blocks (c.base + 1) (head_of c - c.base)
          ++ ((col_meta, key_head, some (to_be_bytes c.base)) ∷ []))
        (record c { blocks = [] })
  unfolding written text_eq
  rewind-Writes = record {
    small = omega (arith, H.small);
    genesis = H.genesis;
    blocks = λ a la.
        written-delete_blocks-then _ (c.base + 1) (head_of c - c.base) a (ok (block_at c a))
          (omega (arith, H.small)) la
        ∙ ground (
          arith,
          block_at-beyond c a,
          block_at-below c a,
          block_at-beyond (record c { blocks = [] }) a,
          block_at-below (record c { blocks = [] }) a,
        );
    checkpoint = λ z.
        written-delete_blocks_other-then _ (c.base + 1) (head_of c - c.base) col_checkpoint
          (key c.base) _ refl
        ∙ H.checkpoint z;
    heads = (
      some (to_be_bytes c.base),
      written-delete_blocks_other-then _ (c.base + 1) (head_of c - c.base) col_meta key_head _ refl,
      number-of_be c.base (omega (arith, H.small)) ∙ omega arith,
    );
    lasts = (
      H.lasts.0,
      written-delete_blocks_other-then _ (c.base + 1) (head_of c - c.base) col_meta key_last_cp _
            refl
          ∙ H.lasts.1,
      H.lasts.2,
    );
    others = λ n.
        written-delete_blocks_other-then _ (c.base + 1) (head_of c - c.base) col_meta (aux_key n) _
          refl;
  }

  -- A rewind to genesis.
  pub restart-Writes :
      Writes s c
        (delete_blocks 1 (head_of c)
          ++ ((col_checkpoint, key c.base, none)
              ∷ (col_meta, key_last_cp, some (to_be_bytes 0))
              ∷ (col_meta, key_head, some (to_be_bytes 0))
              ∷ []))
        (record c { base = 0; state = none; blocks = [] })
  unfolding written text_eq
  restart-Writes = record {
    small = omega arith;
    genesis = λ z. refl;
    blocks = λ a la.
        written-delete_blocks-then _ 1 (head_of c) a (ok (block_at c a)) (omega (arith, H.small)) la
        ∙ ground (
          arith,
          block_at-beyond c a,
          block_at-below c a,
          block_at-beyond (record c { base = 0; state = none; blocks = [] }) a,
          block_at-below (record c { base = 0; state = none; blocks = [] }) a,
        );
    checkpoint = λ z. absurd (omega arith);
    heads = (
      some (to_be_bytes 0),
      written-delete_blocks_other-then _ 1 (head_of c) col_meta key_head _ refl,
      number-of_be 0 (omega arith),
    );
    lasts = (
      some (to_be_bytes 0),
      written-delete_blocks_other-then _ 1 (head_of c) col_meta key_last_cp _ refl,
      number-of_be 0 (omega arith),
    );
    others = λ n. written-delete_blocks_other-then _ 1 (head_of c) col_meta (aux_key n) _ refl;
  }
