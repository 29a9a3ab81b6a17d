-- ===== src/Tasks/History/Parents.antt =====
-- What a step of a history keeps: the configuration, and the numbers of parents but for one
-- (crates/miot-tasks/src/lib.rs).
use akuma_miot.Prelude.{
  ℕ, ◌+◌, ◌≡◌, refl, ◌∙◌, Bool, true, false, Option, List, [], ◌∷◌, arith, All, Eq,
}
use akuma_miot.Primitives.Text.{Text}
use akuma_miot.Primitives.TaskId.{TaskId}
use akuma_miot.Primitives.Vocabulary.{Authority, Act, Outcome, PlanItem}
use akuma_miot.Primitives.Effect.{Effect}
use akuma_miot.Tasks.Table.{Task, TaskTable}
use akuma_miot.Tasks.Apply.{apply, apply_all}
use akuma_miot.Tasks.Acts.{plan, plan_effects, reassign, say, publish_standalone_artifact}
use akuma_miot.Tasks.Update.{claim, submit, clear, reopen, commit_artifact, update, offer}
use akuma_miot.Tasks.Invariant.Verdicts.{
  Leaves, Leaves-ok, Leaves-check, Leaves-guard, Leaves-ok_or,
}

module _ {A : Type 0} where
  -- An effect that takes no number of a parent.
  abbrev pub takes_none : Effect A → Bool
  takes_none (Effect.opened who task text) = false
  takes_none _ = true

  pub apply-cfg : (s : TaskTable A) (e : Effect A) (now : ℕ) → (apply s e now).cfg ≡ s.cfg
  unfolding apply
  apply-cfg s e now = ground arith

  pub apply-next_parent :
      (s : TaskTable A) (e : Effect A) (now : ℕ)
      → takes_none e ≡ true
      → (apply s e now).next_parent ≡ s.next_parent
  unfolding apply
  apply-next_parent s e now h = ground arith

  pub apply_all-cfg :
      (s : TaskTable A) (es : List (Effect A)) (now : ℕ) → (apply_all s es now).cfg ≡ s.cfg
  unfolding apply_all
  apply_all-cfg s [] now = refl
  apply_all-cfg s (e ∷ es) now = apply_all-cfg (apply s e now) es now ∙ apply-cfg s e now

  abbrev pub TakesNone : List (Effect A) → Type 0
  TakesNone es = All (λ e. takes_none e ≡ true) es

  pub apply_all-next_parent :
      (s : TaskTable A) (es : List (Effect A)) (now : ℕ)
      → TakesNone es
      → (apply_all s es now).next_parent ≡ s.next_parent
  unfolding apply_all
  apply_all-next_parent s [] now h = refl
  apply_all-next_parent s (e ∷ es) now h =
      apply_all-next_parent (apply s e now) es now h.1 ∙ apply-next_parent s e now h.0

  offer-TakesNone : (t : Task A) (id : TaskId) → TakesNone (offer t id)
  offer-TakesNone t id = ground arith

  plan_effects-TakesNone :
      (p i : ℕ) (items : List (PlanItem A)) → TakesNone (plan_effects p i items)
  unfolding plan_effects
  plan_effects-TakesNone p i [] = tt
  plan_effects-TakesNone p i (it ∷ items) = (refl, plan_effects-TakesNone p (i + 1) items)

ruleset checks = (
  Leaves-ok, Leaves-check, Leaves-guard, Leaves-ok_or, refl, offer-TakesNone,
  plan_effects-TakesNone,
)

module _ {A : Type 0} (s : TaskTable A) (now : ℕ) where
  clear-TakesNone :
      (who : A) (auth : Authority) (id : TaskId)
      → Leaves (λ r. TakesNone r.1) (clear s who auth id now)
  unfolding clear
  clear-TakesNone who auth id = search checks depth 12

  reopen-TakesNone :
      (who : A) (auth : Authority) (id : TaskId)
      → Leaves (λ r. TakesNone r.1) (reopen s who auth id now)
  unfolding reopen
  reopen-TakesNone who auth id = search checks depth 12

  commit_artifact-TakesNone :
      (who : A) (auth : Authority) (id : TaskId) (body : Text)
      → Leaves (λ r. TakesNone r.1) (commit_artifact s who auth id body now)
  unfolding commit_artifact
  commit_artifact-TakesNone who auth id body = search checks depth 12

  pub say-TakesNone :
      (who : A) (auth : Authority) (to : Option A) (body : Text) (no_ack off_record : Bool)
      → Leaves (λ r. TakesNone r.1) (say s who auth to body no_ack off_record)
  unfolding say
  say-TakesNone who auth to body no_ack off_record = search checks depth 12

  pub publish-TakesNone :
      (who : A) (body : Text)
      → Leaves (λ r. TakesNone r.1.1) (publish_standalone_artifact s who body now)
  unfolding publish_standalone_artifact
  publish-TakesNone who body = search checks depth 12

module _ {A : Type 0} ⦃e : Eq A⦄ (s : TaskTable A) (now : ℕ) where
  claim-TakesNone : (who : A) (id : TaskId) → Leaves (λ r. TakesNone r.1) (claim s who id now)
  unfolding claim
  claim-TakesNone who id = search checks depth 12

  submit-TakesNone :
      (who : A) (id : TaskId) (o : Outcome) → Leaves (λ r. TakesNone r.1) (submit s who id o now)
  unfolding submit
  submit-TakesNone who id (Outcome.done x) = search checks depth 12
  submit-TakesNone who id (Outcome.failed x) = search checks depth 12

  pub update-TakesNone :
      (who : A) (auth : Authority) (id : TaskId) (act : Act) (text : Text)
      → Leaves (λ r. TakesNone r.1) (update s who auth id act text now)
  unfolding update
  update-TakesNone who auth id Act.claim text = claim-TakesNone who id
  update-TakesNone who auth id Act.done text = submit-TakesNone who id (Outcome.done text)
  update-TakesNone who auth id Act.failed text = submit-TakesNone who id (Outcome.failed text)
  update-TakesNone who auth id Act.clear text = clear-TakesNone s now who auth id
  update-TakesNone who auth id Act.reopen text = reopen-TakesNone s now who auth id
  update-TakesNone who auth id Act.artifact text = commit_artifact-TakesNone s now who auth id text

  pub reassign-TakesNone :
      (who : A) (auth : Authority) (id : TaskId) (to : A)
      → Leaves (λ r. TakesNone r.1) (reassign s who auth id to now)
  unfolding reassign
  reassign-TakesNone who auth id to = search checks depth 12

  pub plan-TakesNone :
      (who : A) (auth : Authority) (id : TaskId) (items : List (PlanItem A))
      → Leaves (λ r. TakesNone r.1) (plan s who auth id items now)
  unfolding plan
  plan-TakesNone who auth id items = search checks depth 14
