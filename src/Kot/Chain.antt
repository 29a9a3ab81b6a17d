-- ===== src/Kot/Chain.antt =====
-- The chain part of a node (`Node` of crates/kot/src/node.rs): the state, the open block, and the store
-- of the blocks that are sealed. Hashes of headers, and what is printed, are left out.
pub mod Bodies
pub mod Replays
pub mod Calls
pub mod Effects
pub mod Stored
pub mod Rebuilt
pub mod Reads
pub mod Recovery
pub mod Follows
pub mod Submits
pub mod Advances
pub mod Opens
pub mod Runs
pub mod Examples
use akuma_miot.Prelude.{
  ℕ, ◌+◌, ◌-◌, ◌*◌, zero, suc, Bool, true, false, not, ◌||◌, ◌==◌, ltb, if◌then◌else◌, Option, none,
  some, List, [], ◌∷◌, ◌++◌, map, any, keep, length, Result, ok, err, Eq,
}
use akuma_miot.Primitives.Text.{Text}
use akuma_miot.Primitives.Effect.{Effect}
use akuma_miot.Mesh.State.{Mesh, Hard, take_dirty, appended}
use akuma_miot.Store.Bytes.{Bytes}
use akuma_miot.Store.Database.{Database}
use akuma_miot.Store.Log.{Store, Error, next, append, compact, block, checkpoint_state, put_aux}
use akuma_miot.Litter.Storage.{Storage, Patron, GenesisConfig, build}
use akuma_miot.Litter.Blocks.{on_initialize, replay_all, set_replaying}
use akuma_miot.Litter.Dispatch.{Call, dispatch}
use akuma_miot.Kot.Queues.{Extrinsics, seal}
use akuma_miot.Kot.Readers.{Access, refresh_patrons}
use akuma_miot.Kot.Feed.{Feed, Entry, log_all, stamp_block, no_feed}
use akuma_miot.Kot.Chain.Bodies.{Frame, Ext, seal_body, open_body, initialize}

-- The fields of `Node` that its chain is about. Hashes of extrinsics are of the type `H`.
pub record Node (D : Database) (A C H : Type 0) : Type 0 where
  pub ext : Ext A C
  pub feed : Feed A
  pub block : ℕ
  pub store : Store D
  pub pending : List (Effect A)
  pub pending_compaction : Bool
  pub genesis_roster : List (Text × A)
  pub access : Access Text A
  pub mesh : Mesh
  pub producing : Bool
  pub extrinsics : Extrinsics H

-- The name of `put_aux` for the election's state, `AUX_MESH`.
abbrev pub aux_mesh : Bytes
aux_mesh = 109 ∷ 101 ∷ 115 ∷ 104 ∷ []

module _ {A : Type 0} where
  abbrev pub is_patron_move : Effect A → Bool
  is_patron_move (Effect.patron_approved who name by) = true
  is_patron_move (Effect.patron_revoked who by) = true
  is_patron_move _ = false

  -- `!matches!(&e, Effect::Said { off_record: true, .. })`
  abbrev pub is_recorded : Effect A → Bool
  is_recorded (Effect.said from to body from_root no_ack off_record) = not off_record
  is_recorded _ = true

module _ {D : Database} {A C H : Type 0} where
  -- `Node::refresh_patrons`, with the patrons of the state.
  unfoldable pub reread_patrons : ⦃e : Eq A⦄ → Node D A C H → Node D A C H
  unfolding refresh_patrons
  reread_patrons n = record n {
    access =
        refresh_patrons n.access
          (map (λ (x : A × Patron A). (x.1.name, x.0)) n.ext.storage.patrons);
  }

  unfoldable pub absorb : ⦃e : Eq A⦄ → Node D A C H → List (Effect A) → Node D A C H
  unfolding reread_patrons log_all any keep
  absorb n effects =
      let m = if any is_patron_move effects then reread_patrons n else n in
      record m {
        feed = log_all m.feed m.block effects;
        pending = m.pending ++ keep is_recorded effects;
      }

  -- What the pallet deposited since the last time, and the events that are left.
  abbrev pub drained : Node D A C H → Node D A C H
  drained n = record n { ext = record n.ext { events = [] } }

  -- `let fx = self.drain(); self.absorb(fx)`
  unfoldable pub drain_absorb : ⦃e : Eq A⦄ → Node D A C H → Node D A C H
  unfolding absorb
  drain_absorb n = absorb (drained n) n.ext.events

module _ {D : Database} {A C H : Type 0} ⦃e : Eq A⦄ (F : Frame A C) where
  -- A write that fails is printed.
  unfoldable pub save_hard : Node D A C H → Node D A C H
  unfolding put_aux
  save_hard n =
      let (mesh, dirty) = take_dirty n.mesh in
      elim dirty [
        | none ↦ record n { mesh = mesh }
        | some h ↦ elim (put_aux n.store aux_mesh (F.encode_hard h)) [
          | ok store ↦ record n { mesh = mesh; store = store }
          | err x ↦ record n { mesh = mesh }
        ]
      ]

  -- What became of an append.
  unfoldable pub after_append : Node D A C H → Result (Error D.DbError) (Store D) → Node D A C H
  unfolding save_hard
  after_append n (ok store) = save_hard (record n { store = store; mesh = appended n.mesh })
  after_append n (err x) = n

  -- `at` is the clock.
  unfoldable pub persist : Node D A C H → ℕ → ℕ → Node D A C H
  unfolding append seal_body stamp_block after_append
  persist n height at =
      let m = record n { feed = stamp_block n.feed height (some at) } in
      record (after_append m (append m.store height (seal_body F n.pending at))) { pending = [] }

  unfoldable pub compact_at : Node D A C H → ℕ → Node D A C H
  unfolding compact
  compact_at n height = elim (compact n.store height (F.encode_snapshot n.ext)) [
    | ok r ↦ record n { store = r.0 }
    | err x ↦ n
  ]

  -- `Executive::initialize_block` of the block `height`, as the open one.
  unfoldable pub open_block : Node D A C H → ℕ → Node D A C H
  unfolding initialize
  open_block n height = record n { block = height; ext = initialize F n.ext height }

  -- A compaction that is due, and the flag down.
  unfoldable pub compact_due : Node D A C H → ℕ → Node D A C H
  unfolding compact_at
  compact_due n closing =
      if n.pending_compaction
      then record (compact_at n closing) { pending_compaction = false }
      else n

  -- `advance` once the block that closes is persisted.
  unfoldable pub advance_from : ℕ → Node D A C H → Node D A C H
  unfolding seal compact_due open_block drain_absorb
  advance_from closing n =
      let q = compact_due (record n { extrinsics = seal n.extrinsics closing }) closing in
      drain_absorb (open_block q (next q.block))

  unfoldable pub advance : Node D A C H → ℕ → Node D A C H
  unfolding persist advance_from
  advance n at = advance_from n.block (persist n n.block at)
