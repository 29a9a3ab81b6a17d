-- ===== src/Kot/Chain/Recovery.antt =====
-- A node (`replay` of crates/kot/src/node.rs) over a store that holds a chain rebuilds the state of the
-- chain.
use akuma_miot.Prelude.{
  ℕ, ◌+◌, ◌-◌, ◌<◌, ◌≡◌, refl, sym, ap, subst, ◌∙◌, true, false, not, Option, none, some, [], arith,
  leb, ◌==◌, length, if-rule, Eq, Result, ok,
}
use akuma_miot.Store.Bytes.{Bytes, key}
use akuma_miot.Store.Database.{Database}
use akuma_miot.Store.Log.{Store, Error, next, block, checkpoint_state, lift, col_checkpoint}
use akuma_miot.Store.Spec.{Chain, Holds, head_of, block_at, nth}
use akuma_miot.Litter.Blocks.{on_initialize, set_replaying}
use akuma_miot.Kot.Feed.{no_feed}
use akuma_miot.Kot.Chain.{Node, reread_patrons, open_block, drained}
use akuma_miot.Kot.Chain.Bodies.{Frame, Ext, initialize}
use akuma_miot.Kot.Chain.Replays.{replay_from, replay, replay_above, restore_from_snapshot}
use akuma_miot.Kot.Chain.Rebuilt.{View, view, fold_blocks}
use akuma_miot.Kot.Chain.Reads.{replay_from-Folds, next_of}

module _ {A C : Type 0} ⦃e : Eq A⦄ (F : Frame A C) (g : View A C) (c : Chain) where
  -- The state above a checkpoint, with the next block opened by a node that does not produce.
  abbrev pub restored : Ext A C → View A C
  restored x =
      ((on_initialize F.runtime (set_replaying x.storage true) (next c.base)).0, next c.base)

  -- What the blocks of the chain are folded onto: genesis is `g`, a checkpoint is what was encoded.
  pub data Starts : View A C → Type 0 where
    at_genesis : c.base ≡ 0 → Starts g
    at_checkpoint :
        (blob : Bytes) (x : Ext A C)
        → 0 < c.base
        → c.state ≡ some blob
        → F.decode_snapshot blob ≡ some x
        → Starts (restored x)

  -- The chain makes the state `w`.
  abbrev pub Makes : View A C → Type 0
  Makes w = (v : View A C) × Starts v × (fold_blocks F v (c.base + 1) c.blocks ≡ some w)

module _ {D : Database} where
  block-Holds :
      (s : Store D) (c : Chain)
      → Holds s c
      → (i : ℕ) → i < length c.blocks
      → block s (c.base + 1 + i) ≡ ok (nth c.blocks i)
  unfolding block block_at
  block-Holds s c h i l =
      ap lift (h.blocks (c.base + 1 + i) (omega (arith, l, h.small))) ∙ ap ok (at i)
    where
      at : (j : ℕ) → block_at c (c.base + 1 + j) ≡ nth c.blocks j
      at j =
          if-rule (λ (x : Option Bytes). x ≡ nth c.blocks j) (leb (c.base + 1 + j) c.base) none
            (nth c.blocks (c.base + 1 + j - c.base - 1)) (λ y. ground (arith, y))
            (λ n. ap (nth c.blocks) (omega arith))

  pub checkpoint_state-Holds :
      (s : Store D) (c : Chain) → Holds s c → 0 < c.base → checkpoint_state s ≡ ok c.state
  unfolding checkpoint_state
  checkpoint_state-Holds s c h l =
      if-rule (λ (x : Result (Error D.DbError) (Option Bytes)). x ≡ ok c.state)
        (s.last_checkpoint == 0) (ok none)
        (lift (D.get s.db col_checkpoint (key s.last_checkpoint)))
        (λ y. ground (arith, y, h.last, l))
        (λ n. ap (λ k. lift (D.get s.db col_checkpoint (key k))) h.last ∙ ap lift (h.checkpoint l))

module _ {D : Database} {A C H : Type 0} ⦃e : Eq A⦄ (F : Frame A C) where
  replay_above-Folds :
      (n : Node D A C H) (c : Chain) (v w : View A C)
      → Holds n.store c
      → view n.ext ≡ v
      → n.block ≡ c.base + 1
      → fold_blocks F v (c.base + 1) c.blocks ≡ some w
      → (m : Node D A C H) × (replay_above F n c.base ≡ some m)
        × (view m.ext ≡ w)
        × (m.block ≡ head_of c + 1)
  unfolding reread_patrons
  replay_above-Folds n c v w h s b k =
      let r =
        replay_from-Folds F c.blocks n v w (c.base + 1) (block-Holds n.store c h)
          (omega (arith, h.small)) s b k in
      (
        reread_patrons r.0,
        ap
              (λ j. elim (replay_from F n (c.base + 1) j) [
                | none ↦ none
                | some m ↦ some (reread_patrons m)
              ])
              (omega (arith, h.head))
            ∙ ap (λ o. elim o [ none ↦ none | some m ↦ some (reread_patrons m) ]) r.1,
        r.2.seen,
        omega (arith, r.2.block),
      )

  restore-seen :
      (n : Node D A C H) (height : ℕ) (blob : Bytes) (x : Ext A C)
      → n.producing ≡ false
      → F.decode_snapshot blob ≡ some x
      → (m : Node D A C H) × (restore_from_snapshot F n height blob ≡ some m)
        × (view m.ext ≡ (
          (on_initialize F.runtime (set_replaying x.storage true) (next height)).0,
          next height,
        ))
        × (m.block ≡ next height)
        × (m.store ≡ n.store)
  unfolding restore_from_snapshot open_block initialize
  restore-seen n height blob x p d = (
    restored-node x,
    ap (λ o. elim o [ none ↦ none | some x ↦ some (restored-node x) ]) d,
    ap
        (λ b. (
          (on_initialize F.runtime (set_replaying x.storage (not b)) (next height)).0,
          next height,
        ))
        p,
    refl,
    refl,
  )
    where
      restored-node : Ext A C → Node D A C H
      restored-node x = drained (
          open_block F
            (record n {
              ext = record x { storage = set_replaying x.storage (not n.producing) };
              feed = no_feed;
              pending = [];
            })
            (next height))

  replay-genesis :
      (n : Node D A C H) → n.store.last_checkpoint ≡ 0 → replay F n ≡ replay_above F n 0
  unfolding replay
  replay-genesis n h = ground (arith, h)

  replay-checkpoint :
      (n m : Node D A C H) (blob : Bytes)
      → 0 < n.store.last_checkpoint
      → checkpoint_state n.store ≡ ok (some blob)
      → restore_from_snapshot F n n.store.last_checkpoint blob ≡ some m
      → replay F n ≡ replay_above F m n.store.last_checkpoint
  unfolding replay
  replay-checkpoint n m blob l h k = ground (arith, l, h, k)

  -- A node that does not produce, over a store that holds a chain: the replay succeeds, and gives the state
  -- that the chain makes, with the block above the head open.
  pub replay-Makes :
      (n : Node D A C H) (c : Chain) (g w : View A C)
      → n.producing ≡ false
      → Holds n.store c
      → (c.base ≡ 0 → (view n.ext ≡ g) × (n.block ≡ 1))
      → Makes F g c w
      → (m : Node D A C H) × (replay F n ≡ some m) × (view m.ext ≡ w) × (m.block ≡ head_of c + 1)
  replay-Makes n c g w p h b (v, Starts.at_genesis z, k) =
      let r = replay_above-Folds n c v w h (b z).0 (omega (arith, (b z).1, z)) k in
      (r.0, replay-genesis n (h.last ∙ z) ∙ ap (replay_above F n) (sym z) ∙ r.1, r.2, r.3)
  replay-Makes n c g w p h b (v, Starts.at_checkpoint blob x l st d, k) =
      let q = restore-seen n n.store.last_checkpoint blob x p d in
      let m = q.0 in
      let r =
        replay_above-Folds m c v w (subst (λ s. Holds s c) (sym q.4) h)
          (q.2
            ∙ ap
                (λ j. ((on_initialize F.runtime (set_replaying x.storage true) (next j)).0, next j))
                h.last)
          (q.3 ∙ ap next h.last ∙ next_of c.base (omega (arith, h.small))) k in
      (
        r.0,
        replay-checkpoint n m blob (omega (arith, l, h.last))
              (checkpoint_state-Holds n.store c h l ∙ ap ok st) q.1
            ∙ ap (replay_above F m) h.last
            ∙ r.1,
        r.2,
        r.3,
      )
