-- ===== src/Litter/Replica/Tabled.antt =====
-- The effects of crates/miot-tasks/src/lib.rs are those that `replay_effect` of
-- crates/pallet-litter/src/lib.rs hands to the table.
use akuma_miot.Prelude.{
  ℕ, ◌+◌, ◌≡◌, refl, Bool, true, false, Option, none, some, List, [], ◌∷◌, All, All-append, Eq,
  if-rule, holds, arith,
}
use akuma_miot.Primitives.Text.{Text}
use akuma_miot.Primitives.TaskId.{TaskId}
use akuma_miot.Primitives.Vocabulary.{Authority, Act, Outcome, PlanItem, Directive}
use akuma_miot.Primitives.Config.{Config}
use akuma_miot.Primitives.Effect.{Effect}
use akuma_miot.Tasks.Table.{Task, TaskTable}
use akuma_miot.Tasks.Acts.{
  open_task, plan, plan_effects, say, publish_standalone_artifact, reassign, set_leader, clear_all,
  clear_effects,
}
use akuma_miot.Tasks.Update.{claim, submit, clear, reopen, commit_artifact, update, offer}
use akuma_miot.Tasks.Tick.{
  tick, lead, after_stage1, stage1, stage2, direct, due, row_effects, by_status, chase, reoffer,
  nag,
}
use akuma_miot.Tasks.Invariant.Verdicts.{
  Leaves, Leaves-ok, Leaves-check, Leaves-guard, Leaves-ok_or,
}

abbrev pub is_tabled {ℓ} : {A : Type ℓ} → Effect A → Bool
is_tabled (Effect.stats_reported who turns tool_calls tokens ms) = false
is_tabled (Effect.stats_reported2 who turns tool_calls messages tokens ms) = false
is_tabled (Effect.voted who artifact up) = false
is_tabled (Effect.patron_requested who name note carrier) = false
is_tabled (Effect.patron_approved who name by) = false
is_tabled (Effect.patron_rejected who by) = false
is_tabled (Effect.patron_revoked who by) = false
is_tabled (Effect.message id from to body parent (some a) tags from_root no_ack off_record) = false
is_tabled _ = true

module _ {A : Type 0} where
  abbrev pub AreTabled : List (Effect A) → Type 0
  AreTabled = All (λ (x : Effect A). is_tabled x ≡ true)

  abbrev pub IsTabledResult : TaskTable A × List (Effect A) → Type 0
  IsTabledResult r = AreTabled r.1

  assignee-AreTabled :
      (o : Option A) (id : TaskId) (what expect : Text)
      → AreTabled (elim o [ none ↦ [] | some to ↦ Effect.assigned to id what expect ∷ [] ])
  assignee-AreTabled none id what expect = tt
  assignee-AreTabled (some to) id what expect = (refl, tt)

  offer-AreTabled : (t : Task A) (id : TaskId) → AreTabled (offer t id)
  offer-AreTabled t id = assignee-AreTabled t.assignee id t.text t.expect

  plan_effects-AreTabled :
      (p i : ℕ) (items : List (PlanItem A)) → AreTabled (plan_effects p i items)
  unfolding plan_effects
  plan_effects-AreTabled p i [] = tt
  plan_effects-AreTabled p i (it ∷ items) = (refl, plan_effects-AreTabled p (i + 1) items)

  clear_effects-AreTabled : (ts : List (Task A)) → AreTabled (clear_effects ts)
  unfolding clear_effects
  clear_effects-AreTabled [] = tt
  clear_effects-AreTabled (t ∷ ts) = (refl, clear_effects-AreTabled ts)

  ruleset tabling = (
    Leaves-ok, Leaves-check, Leaves-guard, Leaves-ok_or, refl, offer-AreTabled,
    plan_effects-AreTabled, clear_effects-AreTabled,
  )

module _ {A : Type 0} (s : TaskTable A) (now : ℕ) where
  pub open_task-AreTabled :
      (who : A) (auth : Authority) (text : Text)
      → Leaves (λ r. IsTabledResult r.1) (open_task s who auth text now)
  unfolding open_task
  open_task-AreTabled who auth text = search tabling depth 12

  reopen-AreTabled :
      (who : A) (auth : Authority) (id : TaskId) → Leaves IsTabledResult (reopen s who auth id now)
  unfolding reopen
  reopen-AreTabled who auth id = search tabling depth 12

  pub clear_all-AreTabled : (auth : Authority) → Leaves IsTabledResult (clear_all s auth now)
  unfolding clear_all
  clear_all-AreTabled auth = search tabling depth 12

  clear-AreTabled :
      (who : A) (auth : Authority) (id : TaskId) → Leaves IsTabledResult (clear s who auth id now)
  unfolding clear
  clear-AreTabled who auth id = search tabling depth 12

  commit_artifact-AreTabled :
      (who : A) (auth : Authority) (id : TaskId) (body : Text)
      → Leaves IsTabledResult (commit_artifact s who auth id body now)
  unfolding commit_artifact
  commit_artifact-AreTabled who auth id body = search tabling depth 12

  pub say-AreTabled :
      (who : A) (auth : Authority) (to : Option A) (body : Text) (no_ack off_record : Bool)
      → Leaves IsTabledResult (say s who auth to body no_ack off_record)
  unfolding say
  say-AreTabled who auth to body no_ack off_record = search tabling depth 12

  pub publish-AreTabled :
      (who : A) (body : Text)
      → Leaves (λ r. IsTabledResult r.1) (publish_standalone_artifact s who body now)
  unfolding publish_standalone_artifact
  publish-AreTabled who body = search tabling depth 12

module _ {A : Type 0} ⦃e : Eq A⦄ (s : TaskTable A) (now : ℕ) where
  claim-AreTabled : (who : A) (id : TaskId) → Leaves IsTabledResult (claim s who id now)
  unfolding claim
  claim-AreTabled who id = search tabling depth 12

  submit-AreTabled :
      (who : A) (id : TaskId) (o : Outcome) → Leaves IsTabledResult (submit s who id o now)
  unfolding submit
  submit-AreTabled who id (Outcome.done x) = search tabling depth 12
  submit-AreTabled who id (Outcome.failed x) = search tabling depth 12

  pub update-AreTabled :
      (who : A) (auth : Authority) (id : TaskId) (act : Act) (text : Text)
      → Leaves IsTabledResult (update s who auth id act text now)
  unfolding update
  update-AreTabled who auth id Act.claim text = claim-AreTabled who id
  update-AreTabled who auth id Act.done text = submit-AreTabled who id (Outcome.done text)
  update-AreTabled who auth id Act.failed text = submit-AreTabled who id (Outcome.failed text)
  update-AreTabled who auth id Act.clear text = clear-AreTabled s now who auth id
  update-AreTabled who auth id Act.reopen text = reopen-AreTabled s now who auth id
  update-AreTabled who auth id Act.artifact text = commit_artifact-AreTabled s now who auth id text

  pub reassign-AreTabled :
      (who : A) (auth : Authority) (id : TaskId) (to : A)
      → Leaves IsTabledResult (reassign s who auth id to now)
  unfolding reassign
  reassign-AreTabled who auth id to = search tabling depth 12

  pub plan-AreTabled :
      (who : A) (auth : Authority) (id : TaskId) (items : List (PlanItem A))
      → Leaves IsTabledResult (plan s who auth id items now)
  unfolding plan
  plan-AreTabled who auth id items = search tabling depth 14

  pub set_leader-AreTabled : (who : A) → IsTabledResult (set_leader s who now)
  unfolding set_leader
  set_leader-AreTabled who =
      if-rule IsTabledResult (holds s.leader who) _ _ (λ y. tt) (λ n. (refl, tt))

-- What a tick says.
module _ {A : Type 0} (cfg : Config) (now : ℕ) where
  nag-AreTabled : (t : Task A) → AreTabled (nag cfg t)
  unfolding nag
  nag-AreTabled t = ground arith

  chase-AreTabled : (t : Task A) → AreTabled (chase cfg now t)
  unfolding chase
  chase-AreTabled t = ground (arith, nag-AreTabled t, offer-AreTabled t t.id)

  reoffer-AreTabled : (t : Task A) → AreTabled (reoffer cfg now t)
  unfolding reoffer
  reoffer-AreTabled t = ground (arith, offer-AreTabled t t.id)

  row_effects-AreTabled : (t : Task A) → AreTabled (row_effects cfg now t)
  unfolding row_effects by_status
  row_effects-AreTabled t = ground (arith, chase-AreTabled t, reoffer-AreTabled t)

  stage1-AreTabled : (ts : List (Task A)) → AreTabled (stage1 cfg now ts)
  unfolding stage1
  stage1-AreTabled [] = tt
  stage1-AreTabled (t ∷ ts) =
      All-append _ (row_effects cfg now t) _ (row_effects-AreTabled t) (stage1-AreTabled ts)

  direct-AreTabled :
      (tasks : List (Task A)) (leader : A) (ds : List (TaskId × Directive))
      → AreTabled (direct cfg tasks leader ds)
  unfolding direct
  direct-AreTabled tasks leader [] = tt
  direct-AreTabled tasks leader (d ∷ ds) = ground (arith, direct-AreTabled tasks leader ds)

module _ {A : Type 0} (s : TaskTable A) (now : ℕ) where
  lead-AreTabled :
      (o : Option A) (s' : TaskTable A) (effects : List (Effect A))
      → AreTabled effects
      → IsTabledResult (lead o s' effects now)
  unfolding lead stage2
  lead-AreTabled none s' effects h = h
  lead-AreTabled (some leader) s' effects h =
      All-append _ effects _ h
        (direct-AreTabled s'.cfg now s'.tasks leader (due s'.cfg s'.tasks now s'.tasks))

  pub tick-AreTabled : IsTabledResult (tick s now)
  unfolding tick
  tick-AreTabled =
      lead-AreTabled (after_stage1 s now).leader (after_stage1 s now) _
        (stage1-AreTabled s.cfg now s.tasks)
