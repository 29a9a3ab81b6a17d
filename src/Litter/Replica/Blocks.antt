-- ===== src/Litter/Replica/Blocks.antt =====
-- A whole block of crates/pallet-litter/src/lib.rs, produced by one node and folded by another.
use akuma_miot.Prelude.{
  ℕ, ◌≡◌, refl, sym, ap, ◌∙◌, Bool, true, false, List, [], ◌∷◌, ◌++◌, arith, Eq, ok, err, All,
}
use akuma_miot.Primitives.Effect.{Effect}
use akuma_miot.Tasks.Replay.{tick-IsFold}
use akuma_miot.Tasks.Tick.{tick}
use akuma_miot.Tasks.Gc.{gc}
use akuma_miot.Tasks.Invariant.Verdicts.{Leaves}
use akuma_miot.Litter.Storage.{Storage}
use akuma_miot.Litter.Runtime.{Runtime, table}
use akuma_miot.Litter.Calls.{Receipt, put_table}
use akuma_miot.Litter.Talk.{put_stats, put_messages, put_vote, comment_on}
use akuma_miot.Litter.Patrons.{fold_patron}
use akuma_miot.Tasks.Table.{TaskTable}
use akuma_miot.Tasks.Apply.{apply_all}
use akuma_miot.Litter.Blocks.{
  replay_effect, replay_all, on_initialize, hook_tick, set_replaying, finish_hook,
}
use akuma_miot.Litter.Dispatch.{outcome, Call, dispatch, step, run, block, follow}
use akuma_miot.Litter.Replica.{IsReplayed, replay_all-table, replay_all-append}
use akuma_miot.Litter.Replica.Tabled.{tick-AreTabled}
use akuma_miot.Litter.Replica.Calls.{
  is_announced, open_task-IsReplayed, publish-IsReplayed, plan-IsReplayed, update-IsReplayed,
  reassign-IsReplayed, say-IsReplayed, set_leader-IsReplayed, report_stats-IsReplayed,
  report_stats2-IsReplayed, post-IsReplayed, react-IsReplayed, carry-IsReplayed, approve-IsReplayed,
  reject-IsReplayed, revoke-IsReplayed, vote-IsReplayed,
}

abbrev pub AreAnnounced : {A : Type 0} → List (A × Call A) → Type 0
AreAnnounced {A} = All (λ (x : A × Call A). is_announced x.1 ≡ true)

module _ {A C : Type 0} ⦃e : Eq A⦄ (rt : Runtime A C) (now : ℕ) where
  pub dispatch-IsReplayed :
      (s : Storage A C) (who : A) (c : Call A)
      → is_announced c ≡ true
      → Leaves (IsReplayed rt now s) (dispatch rt s now who c)
  unfolding dispatch
  dispatch-IsReplayed s who (Call.opens text) h = open_task-IsReplayed rt s now who text
  dispatch-IsReplayed s who (Call.plans parent items) h = plan-IsReplayed rt s now who parent items
  dispatch-IsReplayed s who (Call.updates task act text) h =
      update-IsReplayed rt s now who task act text
  dispatch-IsReplayed s who (Call.elects leader) h = set_leader-IsReplayed rt s now who leader
  dispatch-IsReplayed s who (Call.reassigns task to) h = reassign-IsReplayed rt s now who task to
  dispatch-IsReplayed s who (Call.says to body no_ack off_record) h =
      say-IsReplayed rt s now who to body no_ack off_record
  dispatch-IsReplayed s who (Call.publishes text) h = publish-IsReplayed rt s now who text
  dispatch-IsReplayed s who (Call.reports turns tool_calls tokens ms) h =
      report_stats-IsReplayed rt s now who turns tool_calls tokens ms
  dispatch-IsReplayed s who (Call.reports2 turns tool_calls messages tokens ms) h =
      report_stats2-IsReplayed rt s now who turns tool_calls messages tokens ms
  dispatch-IsReplayed s who (Call.posts id to body parent artifact_id tags no_ack off_record) h =
      post-IsReplayed rt s now who id to body parent artifact_id tags no_ack off_record
  dispatch-IsReplayed s who (Call.reacts target emoji) h =
      react-IsReplayed rt s now who target emoji
  dispatch-IsReplayed s who (Call.votes artifact up) h = vote-IsReplayed rt s now who artifact up
  dispatch-IsReplayed s who (Call.carries requester name note sig) h =
      carry-IsReplayed rt s now who requester name note sig
  dispatch-IsReplayed s who (Call.approves requester) h = approve-IsReplayed rt s now who requester
  dispatch-IsReplayed s who (Call.rejects requester) h = reject-IsReplayed rt s now who requester
  dispatch-IsReplayed s who (Call.revokes patron) h = revoke-IsReplayed rt s now who patron
  dispatch-IsReplayed s who Call.clears h = cc
  dispatch-IsReplayed s who Call.compacts h = cc

  outcome-IsReplayed :
      (s : Storage A C) (v : Receipt A C)
      → Leaves (IsReplayed rt now s) v
      → IsReplayed rt now s (outcome s v)
  unfolding replay_all
  outcome-IsReplayed s (ok r) h = h.left
  outcome-IsReplayed s (err x) h = refl

  pub step-IsReplayed :
      (s : Storage A C) (x : A × Call A)
      → is_announced x.1 ≡ true
      → IsReplayed rt now s (step rt s now x)
  unfolding step
  step-IsReplayed s x h =
      outcome-IsReplayed s (dispatch rt s now x.0 x.1) (dispatch-IsReplayed s x.0 x.1 h)

  IsReplayed-append :
      (s s' : Storage A C) (xs : List (Effect A)) (r : Storage A C × List (Effect A))
      → IsReplayed rt now s (s', xs)
      → IsReplayed rt now s' r
      → IsReplayed rt now s (r.0, xs ++ r.1)
  IsReplayed-append s s' xs r h k =
      replay_all-append rt now s xs r.1 ∙ ap (λ u. replay_all rt u r.1 now) h ∙ k

  pub run-IsReplayed :
      (s : Storage A C) (xs : List (A × Call A))
      → AreAnnounced xs
      → IsReplayed rt now s (run rt s now xs)
  unfolding run replay_all
  run-IsReplayed s [] h = refl
  run-IsReplayed s (x ∷ xs) h =
      IsReplayed-append s (step rt s now x).0 (step rt s now x).1
        (run rt (step rt s now x).0 now xs) (step-IsReplayed s x h.0)
        (run-IsReplayed (step rt s now x).0 xs h.1)

  replay_effect-set_replaying :
      (s : Storage A C) (x : Effect A) (on : Bool)
      → replay_effect rt (set_replaying s on) x now ≡ set_replaying (replay_effect rt s x now) on
  unfolding replay_effect put_stats put_messages put_vote fold_patron comment_on
  replay_effect-set_replaying s x on = ground arith

  pub replay_all-set_replaying :
      (s : Storage A C) (xs : List (Effect A)) (on : Bool)
      → replay_all rt (set_replaying s on) xs now ≡ set_replaying (replay_all rt s xs now) on
  unfolding replay_all
  replay_all-set_replaying s [] on = refl
  replay_all-set_replaying s (x ∷ xs) on =
      rw (replay_effect-set_replaying s x on)
        (replay_all-set_replaying (replay_effect rt s x now) xs on)

module _ {A C : Type 0} ⦃e : Eq A⦄ (rt : Runtime A C) (now : ℕ) (s : Storage A C) where
  -- No parent is old enough to be swept, before the tick of the block or after it.
  abbrev pub IsUnswept : Type 0
  IsUnswept =
      (gc (table rt s) now rt.constants.gc_keep_for ≡ (table rt s, 0))
      × (gc (tick (table rt s) now).0 now rt.constants.gc_keep_for ≡ ((tick (table rt s) now).0, 0))

  finish_hook-quiet :
      (r : TaskTable A × List (Effect A))
      → r.0 ≡ apply_all (table rt s) r.1 now
      → finish_hook s r (r.0, 0) ≡ (put_table s r.0, r.1)
  unfolding finish_hook apply_all
  finish_hook-quiet (t, []) h = ap (λ u. (put_table s u, [])) (sym h)
  finish_hook-quiet (t, x ∷ xs) h = refl

  hook-tick :
      (replaying : Bool)
      → replaying ≡ false
      → IsUnswept
      → finish_hook s
          (hook_tick rt s now replaying)
          (gc (hook_tick rt s now replaying).0 now rt.constants.gc_keep_for)
        ≡ (put_table s (tick (table rt s) now).0, (tick (table rt s) now).1)
  unfolding hook_tick
  hook-tick false h k =
      rw k.1 (finish_hook-quiet (tick (table rt s) now) (tick-IsFold (table rt s) now))
  hook-tick true h k = cc

  pub on_initialize-tick :
      s.replaying ≡ false
      → IsUnswept
      → on_initialize rt s now ≡ (put_table s (tick (table rt s) now).0, (tick (table rt s) now).1)
  unfolding on_initialize
  on_initialize-tick h k = hook-tick s.replaying h k

  pub on_initialize-replaying :
      IsUnswept → (on_initialize rt (set_replaying s true) now).0 ≡ set_replaying s true
  unfolding on_initialize hook_tick finish_hook
  on_initialize-replaying k = rw k.0 refl

  -- A block of calls that each deposit all that they do, at which no parent is swept: a replica in the
  -- same state that folds the effects of the block is left in the state of the node that produced it.
  pub follow-block :
      (xs : List (A × Call A))
      → s.replaying ≡ false
      → IsUnswept
      → AreAnnounced xs
      → follow rt (set_replaying s true) now (block rt s now xs).1
        ≡ set_replaying (block rt s now xs).0 true
  unfolding follow block
  follow-block xs h k a =
      rw (on_initialize-replaying k, on_initialize-tick h k)
        (replay_all-set_replaying rt now s (ticked.1 ++ (run rt s' now xs).1) true
          ∙ ap (λ u. set_replaying u true)
              (IsReplayed-append rt now s s' ticked.1 (run rt s' now xs)
                (replay_all-table rt now s ticked.1 (tick-AreTabled (table rt s) now)
                  ∙ ap (put_table s) (sym (tick-IsFold (table rt s) now)))
                (run-IsReplayed rt now s' xs a)))
    where
      ticked : TaskTable A × List (Effect A)
      ticked = tick (table rt s) now

      s' : Storage A C
      s' = put_table s ticked.0
