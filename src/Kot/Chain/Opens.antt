-- ===== src/Kot/Chain/Opens.antt =====
-- The chain of a node (`advance` of crates/kot/src/node.rs) after a block is closed, compacted or not, and
-- the state with the next block open.
use akuma_miot.Prelude.{
  ℕ, ◌+◌, ◌-◌, ◌<◌, ◌≡◌, zero, suc, refl, sym, ap, subst, ◌∙◌, true, false, List, [], ◌∷◌, arith,
  length, Eq,
}
use akuma_miot.Primitives.Effect.{Effect}
use akuma_miot.Tasks.Tick.{tick}
use akuma_miot.Tasks.Replay.{tick-IsFold}
use akuma_miot.Store.Bytes.{Bytes}
use akuma_miot.Store.Database.{Database}
use akuma_miot.Store.Log.{next}
use akuma_miot.Store.Spec
use akuma_miot.Store.Spec.{Chain, Holds, head_of, compacted}
use akuma_miot.Litter.Storage.{Storage}
use akuma_miot.Litter.Runtime.{table}
use akuma_miot.Litter.Calls.{put_table}
use akuma_miot.Litter.Blocks.{on_initialize, set_replaying, replay_all}
use akuma_miot.Litter.Replica.{replay_all-table}
use akuma_miot.Litter.Replica.Tabled.{tick-AreTabled}
use akuma_miot.Litter.Replica.Blocks.{IsUnswept, on_initialize-tick, replay_all-set_replaying}
use akuma_miot.Kot.Chain.{Node, absorb, drain_absorb, drained, open_block}
use akuma_miot.Kot.Chain.Bodies.{Frame, Ext, IsRestored, initialize}
use akuma_miot.Kot.Chain.Rebuilt.{View, fold_blocks, absorb-Absorbs}
use akuma_miot.Kot.Chain.Recovery.{Makes, Starts}
use akuma_miot.Kot.Chain.Follows.{IsFollowed, Awaits, absorb-IsFollowed}

drop-all : (bs : List Bytes) (n : ℕ) → n ≡ length bs → Spec.drop n bs ≡ []
unfolding Spec.drop
drop-all [] zero h = refl
drop-all [] (suc n) h = refl
drop-all (b ∷ bs) zero h = absurd (omega (arith, h))
drop-all (b ∷ bs) (suc n) h = drop-all bs n (omega (arith, h))

module _ {A C : Type 0} ⦃e : Eq A⦄ (F : Frame A C) (g : View A C) where
  -- A compaction at the head makes the state that was encoded.
  pub compacted-Makes :
      (c : Chain) (x : Ext A C)
      → 0 < head_of c
      → IsRestored F x
      → Makes F g (compacted c (head_of c) (F.encode_snapshot x)) (
        (on_initialize F.runtime (set_replaying x.storage true) (next (head_of c))).0,
        next (head_of c),
      )
  unfolding fold_blocks
  compacted-Makes c x l k = (
    _,
    Starts.at_checkpoint (F.encode_snapshot x) x l refl (k),
    ap (fold_blocks F _ (head_of c + 1)) (drop-all c.blocks (head_of c - c.base) (omega arith)),
  )

  pub head-compacted :
      (c : Chain) (state : Bytes) → head_of (compacted c (head_of c) state) ≡ head_of c
  head-compacted c state =
      ap (λ (bs : List Bytes). head_of c + length bs)
        (drop-all c.blocks (head_of c - c.base) (omega arith))
      ∙ (omega arith)

module _ {D : Database} {A C H : Type 0} ⦃e : Eq A⦄ (F : Frame A C) (g : View A C) where
  pub hook-Awaits :
      (n : Node D A C H) (c : Chain) (b : ℕ)
      → Holds n.store c
      → b ≡ head_of c + 1
      → n.pending ≡ []
      → n.ext.storage.replaying ≡ false
      → IsUnswept F.runtime b n.ext.storage
      → Makes F g c (set_replaying n.ext.storage true, b)
      → Awaits F g (drained (open_block F n b)) c (on_initialize F.runtime n.ext.storage b).1 false
  unfolding open_block initialize replay_all
  hook-Awaits n c b h o p l u k = record {
    holds = h;
    opened = o;
    numbered = refl;
    live = ap (λ (r : Storage A C × List (Effect A)). r.0.replaying) ticked ∙ l;
    emptied = refl;
    ahead = λ d. (
      set_replaying st true,
      k,
      ap
            (λ ps.
              replay_all F.runtime (replay_all F.runtime (set_replaying st true) ps b)
                (on_initialize F.runtime st b).1 b)
            p
          ∙ replay_all-set_replaying F.runtime b st (on_initialize F.runtime st b).1 true
          ∙ ap (λ u. set_replaying u true) told,
    );
  }
    where
      st : Storage A C
      st = n.ext.storage

      ticked :
          on_initialize F.runtime st b
          ≡ (put_table st (tick (table F.runtime st) b).0, (tick (table F.runtime st) b).1)
      ticked = on_initialize-tick F.runtime b st l u

      told :
          replay_all F.runtime st (on_initialize F.runtime st b).1 b
          ≡ (on_initialize F.runtime st b).0
      told =
          ap (λ (r : Storage A C × List (Effect A)). replay_all F.runtime st r.1 b) ticked
          ∙ replay_all-table F.runtime b st (tick (table F.runtime st) b).1
              (tick-AreTabled (table F.runtime st) b)
          ∙ ap (put_table st) (sym (tick-IsFold (table F.runtime st) b))
          ∙ ap (λ (r : Storage A C × List (Effect A)). r.0) (sym ticked)

  pub hook-IsFollowed :
      (n : Node D A C H) (c : Chain) (b : ℕ)
      → Awaits F g (drained (open_block F n b)) c (on_initialize F.runtime n.ext.storage b).1 false
      → n.pending_compaction ≡ false
      → IsFollowed F g (drain_absorb (open_block F n b)) c
  unfolding drain_absorb open_block initialize
  hook-IsFollowed n c b h d =
      subst (λ f. IsFollowed F g (record m { pending_compaction = f }) c)
        (sym (
          (absorb-Absorbs (drained (open_block F n b))
            (on_initialize F.runtime n.ext.storage b).1).compaction
          ∙ d))
        (absorb-IsFollowed F g (drained (open_block F n b)) c
          (on_initialize F.runtime n.ext.storage b).1 false h)
    where
      m : Node D A C H
      m = absorb (drained (open_block F n b)) (on_initialize F.runtime n.ext.storage b).1
