-- ===== src/Litter/Dispatch.antt =====
-- The call enum of crates/pallet-litter/src/lib.rs, and a block as the calls that its extrinsics make.
use akuma_miot.Prelude.{ℕ, Bool, Option, List, [], ◌∷◌, ◌++◌, Eq, ok, err}
use akuma_miot.Primitives.Text.{Text}
use akuma_miot.Primitives.TaskId.{TaskId}
use akuma_miot.Primitives.Ids.{MessageId, ArtifactId}
use akuma_miot.Primitives.Vocabulary.{Act, PlanItem}
use akuma_miot.Primitives.Effect.{Effect}
use akuma_miot.Litter.Storage.{Storage}
use akuma_miot.Litter.Runtime.{Runtime}
use akuma_miot.Litter.Calls.{
  Receipt, open_task, plan, update, set_leader, say, clear_all, reassign,
  publish_standalone_artifact, request_compaction,
}
use akuma_miot.Litter.Talk.{report_stats, report_stats2, post, react, vote}
use akuma_miot.Litter.Patrons.{
  carry_patron_request, approve_patron, reject_patron_request, revoke_patron,
}
use akuma_miot.Litter.Blocks.{on_initialize, replay_all}

-- One constructor for each call that an account signs; `set_root` is for the chain's own origin alone.
pub data Call {ℓ} (A : Type ℓ) : Type ℓ where
  opens : (text : Text) → Call A
  plans : (parent : TaskId) (assignments : List (PlanItem A)) → Call A
  updates : (task : TaskId) (act : Act) (text : Text) → Call A
  elects : (leader : A) → Call A
  reassigns : (task : TaskId) (to : A) → Call A
  says : (to : Option A) (body : Text) (no_ack off_record : Bool) → Call A
  clears : Call A
  publishes : (text : Text) → Call A
  compacts : Call A
  reports : (turns tool_calls tokens ms : ℕ) → Call A
  reports2 : (turns tool_calls messages tokens ms : ℕ) → Call A
  posts :
      (id : MessageId) (to : Option A) (body : Text) (parent : Option MessageId)
      (artifact_id : Option ArtifactId) (tags : List Text) (no_ack off_record : Bool)
      → Call A
  reacts : (target : MessageId) (emoji : Text) → Call A
  votes : (artifact : ArtifactId) (up : Bool) → Call A
  carries : (requester : A) (name note : Text) (sig : List ℕ) → Call A
  approves : (requester : A) → Call A
  rejects : (requester : A) → Call A
  revokes : (patron : A) → Call A

module _ {ℓ} {A C : Type ℓ} where
  -- A refused call leaves the storage of FRAME as it was.
  abbrev pub outcome : Storage A C → Receipt A C → Storage A C × List (Effect A)
  outcome s (ok r) = r
  outcome s (err x) = (s, [])

module _ {ℓ} {A C : Type ℓ} ⦃e : Eq A⦄ (rt : Runtime A C) where
  -- The call `c` of the account `who` in the block `now`.
  unfoldable pub dispatch : Storage A C → ℕ → A → Call A → Receipt A C
  unfolding open_task plan update set_leader say clear_all reassign publish_standalone_artifact
      request_compaction report_stats report_stats2 post react vote carry_patron_request
      approve_patron reject_patron_request revoke_patron
  dispatch s now who (Call.opens text) = open_task rt s now who text
  dispatch s now who (Call.plans parent items) = plan rt s now who parent items
  dispatch s now who (Call.updates task act text) = update rt s now who task act text
  dispatch s now who (Call.elects leader) = set_leader rt s now who leader
  dispatch s now who (Call.reassigns task to) = reassign rt s now who task to
  dispatch s now who (Call.says to body no_ack off_record) = say rt s who to body no_ack off_record
  dispatch s now who Call.clears = clear_all rt s now who
  dispatch s now who (Call.publishes text) = publish_standalone_artifact rt s now who text
  dispatch s now who Call.compacts = request_compaction rt s who
  dispatch s now who (Call.reports turns tool_calls tokens ms) =
      report_stats rt s who turns tool_calls tokens ms
  dispatch s now who (Call.reports2 turns tool_calls messages tokens ms) =
      report_stats2 rt s who turns tool_calls messages tokens ms
  dispatch s now who (Call.posts id to body parent artifact_id tags no_ack off_record) =
      post rt s now who id to body parent artifact_id tags no_ack off_record
  dispatch s now who (Call.reacts target emoji) = react rt s who target emoji
  dispatch s now who (Call.votes artifact up) = vote rt s who artifact up
  dispatch s now who (Call.carries requester name note sig) =
      carry_patron_request rt s now who requester name note sig
  dispatch s now who (Call.approves requester) = approve_patron rt s now who requester
  dispatch s now who (Call.rejects requester) = reject_patron_request rt s now who requester
  dispatch s now who (Call.revokes patron) = revoke_patron rt s now who patron

  unfoldable pub step : Storage A C → ℕ → A × Call A → Storage A C × List (Effect A)
  unfolding dispatch
  step s now (who, c) = outcome s (dispatch s now who c)

  -- The calls of a block, and the effects of it in order.
  unfoldable pub run : Storage A C → ℕ → List (A × Call A) → Storage A C × List (Effect A)
  unfolding step
  run s now [] = (s, [])
  run s now (x ∷ xs) =
      let (s', effects) = step s now x in let (end, more) = run s' now xs in (end, effects ++ more)

  -- A block of the node that produces it: the hook, then the extrinsics.
  unfoldable pub block : Storage A C → ℕ → List (A × Call A) → Storage A C × List (Effect A)
  unfolding on_initialize run
  block s now xs =
      let (s', effects) = on_initialize rt s now in
      let (end, more) = run s' now xs in (end, effects ++ more)

  -- A block of a node that folds it: the hook, then the effects that the block carries.
  unfoldable pub follow : Storage A C → ℕ → List (Effect A) → Storage A C
  unfolding on_initialize replay_all
  follow s now effects = replay_all rt (on_initialize rt s now).0 effects now
