-- ===== src/Litter/Invariant/Runs.antt =====
-- A block of crates/pallet-litter/src/lib.rs keeps the storage sound.
use akuma_miot.Prelude.{ℕ, refl, List, [], ◌∷◌, arith, Eq, ok, err, if-rule}
use akuma_miot.Primitives.Effect.{Effect}
use akuma_miot.Tasks.Table.{TaskTable}
use akuma_miot.Tasks.Gc.{gc}
use akuma_miot.Tasks.Invariant.Verdicts.{
  Leaves, Leaves-ok, Leaves-check, Leaves-guard, Leaves-ok_or,
}
use akuma_miot.Litter.Storage.{Storage, GenesisConfig, build}
use akuma_miot.Litter.Runtime.{Runtime}
use akuma_miot.Litter.Calls.{
  Receipt, apply, open_task, plan, update, set_leader, say, clear_all, reassign,
  publish_standalone_artifact, request_compaction,
}
use akuma_miot.Litter.Talk.{report_stats, report_stats2, post, react, vote}
use akuma_miot.Litter.Patrons.{
  carry_patron_request, approve_patron, reject_patron_request, revoke_patron, settle_patron,
}
use akuma_miot.Litter.Blocks.{on_initialize, finish_hook, hook_tick}
use akuma_miot.Litter.Dispatch.{outcome, Call, dispatch, step, run, block}
use akuma_miot.Litter.Invariant.{IsSound, put_vote-IsSound, taken}
use akuma_miot.Litter.Maps.{lookup}
use akuma_miot.Litter.Maps.Keys.{named}
use akuma_miot.Litter.Invariant.Calls.{
  epoch-IsSound, IsSoundAfter, put_table-IsSound, settle-IsSound, next_epoch-IsSound,
  put_stats-IsSound, put_messages-IsSound, comment_if-IsSound, requested-IsSound, rejected-IsSound,
  revoked-IsSound, approved-IsSound,
}

ruleset sound = (
  Leaves-ok, Leaves-check, Leaves-guard, Leaves-ok_or, put_table-IsSound, settle-IsSound,
  put_stats-IsSound, put_messages-IsSound, comment_if-IsSound, put_vote-IsSound, requested-IsSound,
  rejected-IsSound, revoked-IsSound, approved-IsSound,
)

module _ {A C : Type 0} ⦃e : Eq A⦄ (rt : Runtime A C) (now : ℕ) where
  dispatch-IsSound :
      (s : Storage A C) (who : A) (c : Call A)
      → IsSound s
      → Leaves IsSoundAfter (dispatch rt s now who c)
  unfolding dispatch open_task plan update set_leader say clear_all reassign
      publish_standalone_artifact request_compaction report_stats report_stats2 post react vote
      carry_patron_request approve_patron reject_patron_request revoke_patron apply settle_patron
  dispatch-IsSound s who (Call.opens text) h = search sound depth 12
  dispatch-IsSound s who (Call.plans parent items) h = search sound depth 12
  dispatch-IsSound s who (Call.updates task act text) h = search sound depth 12
  dispatch-IsSound s who (Call.elects leader) h = search sound depth 12
  dispatch-IsSound s who (Call.reassigns task to) h = search sound depth 12
  dispatch-IsSound s who (Call.says to body no_ack off_record) h = search sound depth 12
  dispatch-IsSound s who (Call.publishes text) h = search sound depth 12
  dispatch-IsSound s who (Call.reports turns tool_calls tokens ms) h = search sound depth 12
  dispatch-IsSound s who (Call.reports2 turns tool_calls messages tokens ms) h =
      search sound depth 12
  dispatch-IsSound s who (Call.posts id to body parent artifact_id tags no_ack off_record) h =
      search sound depth 12
  dispatch-IsSound s who (Call.reacts target emoji) h = search sound depth 12
  dispatch-IsSound s who (Call.votes artifact up) h = search sound depth 12
  dispatch-IsSound s who (Call.carries requester name note sig) h = search sound depth 16
  dispatch-IsSound s who (Call.approves requester) h = search sound depth 12
  dispatch-IsSound s who (Call.rejects requester) h = search sound depth 12
  dispatch-IsSound s who (Call.revokes patron) h = search sound depth 12
  dispatch-IsSound s who Call.clears h = search (sound, next_epoch-IsSound) depth 12
  dispatch-IsSound s who Call.compacts h = search (sound, epoch-IsSound s h) depth 12

  outcome-IsSound :
      (s : Storage A C) (v : Receipt A C)
      → IsSound s
      → Leaves IsSoundAfter v
      → IsSoundAfter (outcome s v)
  outcome-IsSound s (ok r) h k = k.left
  outcome-IsSound s (err x) h k = h

  step-IsSound : (s : Storage A C) (x : A × Call A) → IsSound s → IsSoundAfter (step rt s now x)
  unfolding step
  step-IsSound s x h =
      outcome-IsSound s (dispatch rt s now x.0 x.1) h (dispatch-IsSound s x.0 x.1 h)

  pub run-IsSound :
      (s : Storage A C) (xs : List (A × Call A)) → IsSound s → IsSoundAfter (run rt s now xs)
  unfolding run
  run-IsSound s [] h = h
  run-IsSound s (x ∷ xs) h = run-IsSound (step rt s now x).0 xs (step-IsSound s x h)

  finish_hook-IsSound :
      (s : Storage A C) (r : TaskTable A × List (Effect A)) (swept : TaskTable A × ℕ)
      → IsSound s
      → IsSoundAfter (finish_hook s r swept)
  unfolding finish_hook
  finish_hook-IsSound s r swept h =
      if-rule IsSoundAfter _ _ _ (λ _. put_table-IsSound s h swept.0) (λ _. h)

  block-IsSound :
      (s : Storage A C) (xs : List (A × Call A)) → IsSound s → IsSoundAfter (block rt s now xs)
  unfolding block on_initialize
  block-IsSound s xs h =
      let ticked = hook_tick rt s now s.replaying in
      run-IsSound _ xs (finish_hook-IsSound s ticked (gc ticked.0 now rt.constants.gc_keep_for) h)

module _ {A C : Type 0} ⦃e : Eq A⦄ (rt : Runtime A C) where
  -- The storage after blocks of calls.
  unfoldable pub blocks : Storage A C → List (ℕ × List (A × Call A)) → Storage A C
  unfolding block
  blocks s [] = s
  blocks s ((now, xs) ∷ log) = blocks (block rt s now xs).0 log

  blocks_from-IsSound :
      (s : Storage A C) (log : List (ℕ × List (A × Call A))) → IsSound s → IsSound (blocks s log)
  unfolding blocks
  blocks_from-IsSound s [] h = h
  blocks_from-IsSound s ((now, xs) ∷ log) h =
      blocks_from-IsSound (block rt s now xs).0 log (block-IsSound rt now s xs h)

  build-IsSound : (providers : C) (g : GenesisConfig A) → IsSound (build providers g)
  unfolding taken named lookup
  build-IsSound providers g = record {
    tallies = tt;
    threads = tt;
    door = record {
      pending = omega arith;
      patron_keys = tt;
      request_keys = tt;
      strangers = λ a p. refl;
      names = λ n. ground arith;
    };
  }

  -- From genesis on, after any blocks of any calls: each tally has each voter once, no artifact has more
  -- than 64 comments, at most 16 patron requests wait, nobody both waits and is a patron, and no name
  -- is taken twice by patrons and requests, or by one of them and the roster.
  pub blocks-IsSound :
      (providers : C) (g : GenesisConfig A) (log : List (ℕ × List (A × Call A)))
      → IsSound (blocks (build providers g) log)
  blocks-IsSound providers g log =
      blocks_from-IsSound (build providers g) log (build-IsSound providers g)
