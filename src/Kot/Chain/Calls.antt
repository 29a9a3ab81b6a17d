-- ===== src/Kot/Chain/Calls.antt =====
-- How a node (crates/kot/src/node.rs) takes an extrinsic, and how it takes the role of the producer or
-- gives it up.
use akuma_miot.Prelude.{Bool, true, false, if◌then◌else◌, Option, some, ◌++◌, Result, ok, err, Eq}
use akuma_miot.Store.Database.{Database}
use akuma_miot.Litter.Storage
use akuma_miot.Litter.Blocks.{set_replaying, tick_now}
use akuma_miot.Litter.Dispatch.{Call, dispatch}
use akuma_miot.Kot.Chain.{Node, drain_absorb}
use akuma_miot.Kot.Chain.Bodies.{Frame, Ext}
use akuma_miot.Kot.Chain.Replays.{reload_from_store}

-- Why an extrinsic is not in the block: FRAME did not admit it, or the call was refused.
pub data Refusal : Type 0 where
  rejected : Refusal
  failed : Storage.Error → Refusal

module _ {A : Type 0} where
  abbrev pub wants_compaction : Call A → Bool
  wants_compaction Call.clears = true
  wants_compaction Call.compacts = true
  wants_compaction _ = false

module _ {A C : Type 0} ⦃e : Eq A⦄ (F : Frame A C) where
  -- What `apply_extrinsic` leaves; `admitted` is what FRAME says of the signature and the nonce.
  unfoldable pub applied : Ext A C → A → Call A → Result Refusal (Ext A C)
  unfolding dispatch
  applied x who c = elim (dispatch F.runtime x.storage x.number who c) [
    | ok r ↦ ok (record x { storage = r.0; events = x.events ++ r.1 })
    | err why ↦ err (Refusal.failed why)
  ]

module _ {D : Database} {A C H : Type 0} ⦃e : Eq A⦄ (F : Frame A C) where
  -- The events are drained whatever became of the extrinsic.
  unfoldable pub settled :
      Node D A C H → Call A → Result Refusal (Ext A C) → Node D A C H × Result Refusal (Unit {0})
  unfolding drain_absorb
  settled n c (ok x) =
      let m = drain_absorb (record n { ext = x }) in
      (
        record m { pending_compaction = if wants_compaction c then true else m.pending_compaction },
        ok tt,
      )
  settled n c (err why) = (drain_absorb n, err why)

  unfoldable pub submit :
      Node D A C H → A → Call A → Bool → Node D A C H × Result Refusal (Unit {0})
  unfolding applied settled
  submit n who c admitted =
      settled n c (if admitted then applied F n.ext who c else err Refusal.rejected)

  -- The half of `follow_mesh` about the role: `lead` is what the election says.
  unfoldable pub take_role : Node D A C H → Bool → Option (Node D A C H)
  unfolding tick_now drain_absorb reload_from_store
  take_role n lead =
      if lead
      then some (if n.producing then n else promoted)
      else if n.producing
      then reload_from_store F (record n { producing = false })
      else some n
    where
      -- Events that the pallet deposited stay until they are drained.
      promoted : Node D A C H
      promoted =
          let t = tick_now F.runtime (set_replaying n.ext.storage false) n.ext.number in
          drain_absorb (record n {
            producing = true;
            ext = record n.ext { storage = t.0; events = n.ext.events ++ t.1 };
          })
