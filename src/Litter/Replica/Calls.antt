-- ===== src/Litter/Replica/Calls.antt =====
-- Every call of crates/pallet-litter/src/lib.rs, folded by a replica.
use akuma_miot.Prelude.{
  ℕ, refl, sym, ap, ◌∙◌, Bool, true, false, Option, none, some, List, Eq, Result, ok, err, not,
  holds, ◌>>◌,
}
use akuma_miot.Primitives.Text.{Text}
use akuma_miot.Primitives.Ids.{ArtifactId, MessageId}
use akuma_miot.Primitives.TaskId.{TaskId}
use akuma_miot.Primitives.Vocabulary
use akuma_miot.Primitives.Vocabulary.{Act, Authority, PlanItem}
use akuma_miot.Primitives.Effect.{Effect}
use akuma_miot.Tasks.Table.{TaskTable}
use akuma_miot.Tasks.Acts
use akuma_miot.Tasks.Acts.{Verdict}
use akuma_miot.Tasks.Update
use akuma_miot.Tasks.Replay
use akuma_miot.Tasks.Replay.{IsFold}
use akuma_miot.Tasks.Invariant.Verdicts.{
  Leaves, Leaves-ok, Leaves-check, Leaves-guard, Leaves-ok_or,
}
use akuma_miot.Litter.Storage.{Storage, Error}
use akuma_miot.Litter.Runtime.{Runtime, table}
use akuma_miot.Litter.Calls.{
  open_task, plan, update, set_leader, say, reassign, publish_standalone_artifact, authority_of,
  forget_id, apply, is_patron, ensure_not_patron, put_table,
}
use akuma_miot.Litter.Talk.{report_stats, report_stats2, post, react, vote, comment_if}
use akuma_miot.Litter.Patrons.{
  carry_patron_request, approve_patron, reject_patron_request, revoke_patron, settle_patron,
}
use akuma_miot.Litter.Blocks.{replay_effect, replay_all}
use akuma_miot.Litter.Dispatch.{Call}
use akuma_miot.Litter.Replica.Tabled
use akuma_miot.Litter.Replica.Tabled.{IsTabledResult}
use akuma_miot.Litter.Replica.{IsReplayed, settle-IsReplayed, replay_all-table}

-- The calls whose whole effect on storage is in the effects that they deposit: `clear_all` and
-- `request_compaction` move the epoch too.
abbrev pub is_announced {ℓ} : {A : Type ℓ} → Call A → Bool
is_announced Call.clears = false
is_announced Call.compacts = false
is_announced _ = true

forget_id-Leaves :
    {A : Type 0} {B : Type 0} (P : TaskTable A × List (Effect A) → Type 0)
    (v : Result Vocabulary.Error (B × (TaskTable A × List (Effect A))))
    → Leaves (λ r. P r.1) v
    → Leaves P (forget_id v)
forget_id-Leaves P (ok r) h = record { left = h.left }
forget_id-Leaves P (err x) h = record { left = tt }

module _ {A C : Type 0} ⦃e : Eq A⦄ (rt : Runtime A C) (s : Storage A C) (now : ℕ) where
  ruleset folding = (Leaves-ok, Leaves-check, Leaves-guard, Leaves-ok_or, refl)

  apply-IsReplayed :
      (who : A) (verb : TaskTable A → Authority → Verdict A)
      → ((auth : Authority) → Leaves (IsFold (table rt s) now) (verb (table rt s) auth))
      → ((auth : Authority) → Leaves IsTabledResult (verb (table rt s) auth))
      → Leaves (IsReplayed rt now s) (apply rt s who verb)
  unfolding apply
  apply-IsReplayed who verb h k =
      settle-IsReplayed rt now s (verb (table rt s) (authority_of rt s who)) (h _) (k _)

  member-IsReplayed :
      (who : A) (verb : TaskTable A → Authority → Verdict A)
      → ((auth : Authority) → Leaves (IsFold (table rt s) now) (verb (table rt s) auth))
      → ((auth : Authority) → Leaves IsTabledResult (verb (table rt s) auth))
      → Leaves (IsReplayed rt now s) (ensure_not_patron rt s who >> apply rt s who verb)
  member-IsReplayed who verb h k =
      Leaves-guard (not (is_patron rt s who)) Error.not_authorized (apply rt s who verb)
        (λ _. apply-IsReplayed who verb h k)

  pub open_task-IsReplayed :
      (who : A) (text : Text) → Leaves (IsReplayed rt now s) (open_task rt s now who text)
  unfolding open_task
  open_task-IsReplayed who text =
      member-IsReplayed who (λ t auth. forget_id (Acts.open_task t who auth text now))
        (λ auth. forget_id-Leaves _ _ (Replay.open_task-IsFold (table rt s) now who auth text))
        (λ auth. forget_id-Leaves _ _ (Tabled.open_task-AreTabled (table rt s) now who auth text))

  pub publish-IsReplayed :
      (who : A) (text : Text)
      → Leaves (IsReplayed rt now s) (publish_standalone_artifact rt s now who text)
  unfolding publish_standalone_artifact
  publish-IsReplayed who text =
      member-IsReplayed who (λ t _. forget_id (Acts.publish_standalone_artifact t who text now))
        (λ auth. forget_id-Leaves _ _ (Replay.publish-IsFold (table rt s) now who text))
        (λ auth. forget_id-Leaves _ _ (Tabled.publish-AreTabled (table rt s) now who text))

  pub plan-IsReplayed :
      (who : A) (parent : TaskId) (items : List (PlanItem A))
      → Leaves (IsReplayed rt now s) (plan rt s now who parent items)
  unfolding plan
  plan-IsReplayed who parent items =
      member-IsReplayed who (λ t auth. Acts.plan t who auth parent items now)
        (λ auth. Replay.plan-IsFold (table rt s) now who auth parent items)
        (λ auth. Tabled.plan-AreTabled (table rt s) now who auth parent items)

  pub update-IsReplayed :
      (who : A) (task : TaskId) (act : Act) (text : Text)
      → Leaves (IsReplayed rt now s) (update rt s now who task act text)
  unfolding update
  update-IsReplayed who task act text =
      member-IsReplayed who (λ t auth. Update.update t who auth task act text now)
        (λ auth. Replay.update-IsFold (table rt s) now who auth task act text)
        (λ auth. Tabled.update-AreTabled (table rt s) now who auth task act text)

  pub reassign-IsReplayed :
      (who : A) (task : TaskId) (to : A)
      → Leaves (IsReplayed rt now s) (reassign rt s now who task to)
  unfolding reassign
  reassign-IsReplayed who task to =
      member-IsReplayed who (λ t auth. Acts.reassign t who auth task to now)
        (λ auth. Replay.reassign-IsFold (table rt s) now who auth task to)
        (λ auth. Tabled.reassign-AreTabled (table rt s) now who auth task to)

  pub say-IsReplayed :
      (who : A) (to : Option A) (body : Text) (no_ack off_record : Bool)
      → Leaves (IsReplayed rt now s) (say rt s who to body no_ack off_record)
  unfolding say
  say-IsReplayed who to body no_ack off_record =
      apply-IsReplayed who (λ t auth. Acts.say t who auth to body no_ack off_record)
        (λ auth. Replay.say-IsFold (table rt s) now who auth to body no_ack off_record)
        (λ auth. Tabled.say-AreTabled (table rt s) now who auth to body no_ack off_record)

  pub set_leader-IsReplayed :
      (who leader : A) → Leaves (IsReplayed rt now s) (set_leader rt s now who leader)
  unfolding set_leader
  set_leader-IsReplayed who leader =
      Leaves-guard (holds s.litter.root who) Error.not_authorized _ (λ _. Leaves-ok _ (
        replay_all-table rt now s _ (Tabled.set_leader-AreTabled (table rt s) now leader)
        ∙ ap (put_table s) (sym (Replay.set_leader-IsFold (table rt s) now leader))))

  pub report_stats-IsReplayed :
      (who : A) (turns tool_calls tokens ms : ℕ)
      → Leaves (IsReplayed rt now s) (report_stats rt s who turns tool_calls tokens ms)
  unfolding report_stats replay_all replay_effect
  report_stats-IsReplayed who turns tool_calls tokens ms = search folding depth 12

  pub report_stats2-IsReplayed :
      (who : A) (turns tool_calls messages tokens ms : ℕ)
      → Leaves (IsReplayed rt now s) (report_stats2 rt s who turns tool_calls messages tokens ms)
  unfolding report_stats2 replay_all replay_effect
  report_stats2-IsReplayed who turns tool_calls messages tokens ms = search folding depth 12

  pub post-IsReplayed :
      (who : A) (id : MessageId) (to : Option A) (body : Text) (parent : Option MessageId)
      (artifact_id : Option ArtifactId) (tags : List Text) (no_ack off_record : Bool)
      → Leaves
          (IsReplayed rt now s)
          (post rt s now who id to body parent artifact_id tags no_ack off_record)
  unfolding post replay_all replay_effect comment_if
  post-IsReplayed who id to body parent none tags no_ack off_record = search folding depth 12
  post-IsReplayed who id to body parent (some a) tags no_ack off_record = search folding depth 12

  pub react-IsReplayed :
      (who : A) (target : MessageId) (emoji : Text)
      → Leaves (IsReplayed rt now s) (react rt s who target emoji)
  unfolding react replay_all replay_effect
  react-IsReplayed who target emoji = search folding depth 12

  pub carry-IsReplayed :
      (carrier who : A) (name note : Text) (sig : List ℕ)
      → Leaves (IsReplayed rt now s) (carry_patron_request rt s now carrier who name note sig)
  unfolding carry_patron_request settle_patron replay_all replay_effect
  carry-IsReplayed carrier who name note sig = search folding depth 16

  pub approve-IsReplayed :
      (by who : A) → Leaves (IsReplayed rt now s) (approve_patron rt s now by who)
  unfolding approve_patron settle_patron replay_all replay_effect
  approve-IsReplayed by who = search folding depth 12

  pub reject-IsReplayed :
      (by who : A) → Leaves (IsReplayed rt now s) (reject_patron_request rt s now by who)
  unfolding reject_patron_request settle_patron replay_all replay_effect
  reject-IsReplayed by who = search folding depth 12

  pub revoke-IsReplayed :
      (by who : A) → Leaves (IsReplayed rt now s) (revoke_patron rt s now by who)
  unfolding revoke_patron settle_patron replay_all replay_effect
  revoke-IsReplayed by who = search folding depth 12

  pub vote-IsReplayed :
      (who : A) (artifact : ArtifactId) (up : Bool)
      → Leaves (IsReplayed rt now s) (vote rt s who artifact up)
  unfolding vote replay_all replay_effect
  vote-IsReplayed who artifact up = search folding depth 12
