-- ===== src/Kot/Chain/Replays.antt =====
-- How a node (crates/kot/src/node.rs) folds a block and rebuilds its state from the store.
use akuma_miot.Prelude.{
  ℕ, ◌+◌, ◌-◌, zero, suc, Bool, false, not, ltb, if◌then◌else◌, Option, none, some, List, [], ◌∷◌,
  ok, err, Eq,
}
use akuma_miot.Primitives.Text.{Text}
use akuma_miot.Primitives.Effect.{Effect}
use akuma_miot.Store.Bytes.{Bytes}
use akuma_miot.Store.Database.{Database}
use akuma_miot.Store.Log.{next, block, checkpoint_state}
use akuma_miot.Litter.Storage.{build}
use akuma_miot.Litter.Blocks.{replay_all, set_replaying}
use akuma_miot.Kot.Readers.{trusted_accounts, members_of}
use akuma_miot.Kot.Feed.{stamp_block, no_feed}
use akuma_miot.Kot.Chain.{Node, absorb, drained, open_block, reread_patrons}
use akuma_miot.Kot.Chain.Bodies.{Frame, Ext, open_body, initialize}

module _ {A C : Type 0} ⦃e : Eq A⦄ (F : Frame A C) where
  -- `for m in &all { catnip(m) }`
  abbrev pub catnip_all : List A → C → C
  catnip_all [] c = c
  catnip_all (a ∷ rest) c = catnip_all rest (F.catnip a c)

  -- A chain at genesis with its block 1 open.
  unfoldable pub genesis : A → A → List (Text × A) → Bool → Ext A C
  unfolding initialize trusted_accounts
  genesis root leader roster replaying =
      let x =
        initialize F
          (record {
            storage =
                set_replaying
                  (build F.no_providers
                    (record { root = some root; leader = some leader; roster = roster }))
                  replaying;
            number = 0;
            events = [];
          })
          1 in
      record x {
        storage = record x.storage {
          providers =
              catnip_all (trusted_accounts (members_of roster) root leader) x.storage.providers;
        };
      }

module _ {D : Database} {A C H : Type 0} ⦃e : Eq A⦄ (F : Frame A C) where
  unfoldable pub apply_block : Node D A C H → ℕ → List (Effect A) → Option ℕ → Node D A C H
  unfolding replay_all absorb stamp_block open_block
  apply_block n height effects at =
      let m = record n {
        ext = record n.ext { storage = replay_all F.runtime n.ext.storage effects n.ext.number };
      } in
      let a = absorb m effects in
      let b = record a { feed = stamp_block a.feed height at; pending = [] } in
      drained (open_block F b (next height))

  -- The block `h` of the store and `count` in all; none when an `expect` fails.
  unfoldable pub replay_from : Node D A C H → ℕ → ℕ → Option (Node D A C H)
  unfolding block open_body apply_block
  replay_from n h zero = some n
  replay_from n h (suc count) = elim (block n.store h) [
    | ok (some body) ↦ elim (open_body F body) [
      | some (effects, at) ↦
          replay_from (apply_block (record n { block = h }) h effects at) (h + 1) count
      | none ↦ none
    ]
    | ok none ↦ none
    | err x ↦ none
  ]

  -- `initialize_block` of the block above a checkpoint, in the role of this node.
  unfoldable pub restore_from_snapshot : Node D A C H → ℕ → Bytes → Option (Node D A C H)
  unfolding open_block
  restore_from_snapshot n height blob = elim (F.decode_snapshot blob) [
    | none ↦ none
    | some x ↦ some (
        drained (
          open_block F
            (record n {
              ext = record x { storage = set_replaying x.storage (not n.producing) };
              feed = no_feed;
              pending = [];
            })
            (next height)))
  ]

  -- The blocks above the checkpoint, and the patrons of the state.
  abbrev pub replay_above : Node D A C H → ℕ → Option (Node D A C H)
  replay_above n cp = elim (replay_from n (cp + 1) (n.store.head - cp)) [
    | none ↦ none
    | some m ↦ some (reread_patrons m)
  ]

  unfoldable pub replay : Node D A C H → Option (Node D A C H)
  unfolding checkpoint_state restore_from_snapshot replay_from reread_patrons
  replay n =
      if ltb 0 n.store.last_checkpoint
      then elim (checkpoint_state n.store) [
        | ok (some blob) ↦ elim (restore_from_snapshot n n.store.last_checkpoint blob) [
          | none ↦ none
          | some m ↦ replay_above m n.store.last_checkpoint
        ]
        | ok none ↦ none
        | err x ↦ none
      ]
      else replay_above n 0

  unfoldable pub reload_from_store : Node D A C H → Option (Node D A C H)
  unfolding genesis replay
  reload_from_store n = replay (record n {
    ext =
        genesis F n.access.genesis_root n.access.genesis_leader n.genesis_roster (not n.producing);
    block = 1;
    feed = no_feed;
    pending = [];
    pending_compaction = false;
  })
