-- ===== src/Tasks/Replay.antt =====
-- Folding the effects that a verb of crates/miot-tasks/src/lib.rs handed back rebuilds the table that
-- the verb left: `apply` is at once what a verb does and what a replica does.
use akuma_miot.Prelude.{
  ℕ, ◌≡◌, refl, sym, Bool, Option, none, some, List, Eq, Bool-cases, inl, inr, holds,
}
use akuma_miot.Primitives.Text.{Text}
use akuma_miot.Primitives.TaskId.{TaskId}
use akuma_miot.Primitives.Vocabulary.{Authority, Act, Outcome, PlanItem}
use akuma_miot.Primitives.Effect.{Effect}
use akuma_miot.Tasks.Table.{TaskTable}
use akuma_miot.Tasks.Apply.{apply_all}
use akuma_miot.Tasks.Acts.{open_task, plan, say, publish_standalone_artifact, reassign, set_leader}
use akuma_miot.Tasks.Update.{claim, submit, clear, reopen, commit_artifact, update}
use akuma_miot.Tasks.Tick.{tick, lead, after_stage1, stage1}
use akuma_miot.Tasks.Tick.Pointwise.{apply_all-append}
use akuma_miot.Tasks.Invariant.Verdicts.{
  Leaves, Leaves-ok, Leaves-check, Leaves-guard, Leaves-ok_or,
}

ruleset checks = (Leaves-ok, Leaves-check, Leaves-guard, Leaves-ok_or, refl)

module _ {A : Type 0} (s : TaskTable A) (now : ℕ) where
  -- The table is what the effects make of the one before.
  abbrev pub IsFold : TaskTable A × List (Effect A) → Type 0
  IsFold r = r.0 ≡ apply_all s r.1 now

  lead-IsFold : (o : Option A) → IsFold (lead o (after_stage1 s now) (stage1 s.cfg now s.tasks) now)
  unfolding lead after_stage1
  lead-IsFold none = refl
  lead-IsFold (some leader) = sym (apply_all-append s (stage1 s.cfg now s.tasks) _ now)

  pub tick-IsFold : IsFold (tick s now)
  unfolding tick
  tick-IsFold = lead-IsFold (after_stage1 s now).leader

  clear-IsFold :
      (who : A) (auth : Authority) (id : TaskId) → Leaves IsFold (clear s who auth id now)
  unfolding clear
  clear-IsFold who auth id = search checks depth 12

  reopen-IsFold :
      (who : A) (auth : Authority) (id : TaskId) → Leaves IsFold (reopen s who auth id now)
  unfolding reopen
  reopen-IsFold who auth id = search checks depth 12

  commit_artifact-IsFold :
      (who : A) (auth : Authority) (id : TaskId) (body : Text)
      → Leaves IsFold (commit_artifact s who auth id body now)
  unfolding commit_artifact
  commit_artifact-IsFold who auth id body = search checks depth 12

  pub say-IsFold :
      (who : A) (auth : Authority) (to : Option A) (body : Text) (no_ack off_record : Bool)
      → Leaves IsFold (say s who auth to body no_ack off_record)
  unfolding say apply_all
  say-IsFold who auth to body no_ack off_record = search checks depth 12

  pub open_task-IsFold :
      (who : A) (auth : Authority) (text : Text)
      → Leaves (λ r. IsFold r.1) (open_task s who auth text now)
  unfolding open_task
  open_task-IsFold who auth text = search checks depth 12

  pub publish-IsFold :
      (who : A) (body : Text)
      → Leaves (λ r. IsFold r.1) (publish_standalone_artifact s who body now)
  unfolding publish_standalone_artifact
  publish-IsFold who body = search checks depth 12

module _ {A : Type 0} ⦃e : Eq A⦄ (s : TaskTable A) (now : ℕ) where
  claim-IsFold : (who : A) (id : TaskId) → Leaves (IsFold s now) (claim s who id now)
  unfolding claim
  claim-IsFold who id = search checks depth 12

  submit-IsFold :
      (who : A) (id : TaskId) (o : Outcome) → Leaves (IsFold s now) (submit s who id o now)
  unfolding submit
  submit-IsFold who id (Outcome.done x) = search checks depth 12
  submit-IsFold who id (Outcome.failed x) = search checks depth 12

  pub update-IsFold :
      (who : A) (auth : Authority) (id : TaskId) (act : Act) (text : Text)
      → Leaves (IsFold s now) (update s who auth id act text now)
  unfolding update
  update-IsFold who auth id Act.claim text = claim-IsFold who id
  update-IsFold who auth id Act.done text = submit-IsFold who id (Outcome.done text)
  update-IsFold who auth id Act.failed text = submit-IsFold who id (Outcome.failed text)
  update-IsFold who auth id Act.clear text = clear-IsFold s now who auth id
  update-IsFold who auth id Act.reopen text = reopen-IsFold s now who auth id
  update-IsFold who auth id Act.artifact text = commit_artifact-IsFold s now who auth id text

  pub reassign-IsFold :
      (who : A) (auth : Authority) (id : TaskId) (to : A)
      → Leaves (IsFold s now) (reassign s who auth id to now)
  unfolding reassign
  reassign-IsFold who auth id to = search checks depth 12

  pub plan-IsFold :
      (who : A) (auth : Authority) (id : TaskId) (items : List (PlanItem A))
      → Leaves (IsFold s now) (plan s who auth id items now)
  unfolding plan
  plan-IsFold who auth id items = search checks depth 14

  pub set_leader-IsFold : (who : A) → IsFold s now (set_leader s who now)
  unfolding set_leader
  set_leader-IsFold who = elim (Bool-cases (holds s.leader who)) [ inl y ↦ rw y | inr n ↦ rw n ]
