-- ===== src/Tasks/Update/Accepted.antt =====
-- Which acts are accepted (`TaskTable::update` of crates/miot-tasks/src/lib.rs), said in one place and
-- without the order of the checks.
use akuma_miot.Prelude.{
  ℕ, ◌≡◌, refl, Bool, true, false, not, ◌&&◌, ◌||◌, List, [], ◌∷◌, arith, leb, any, all,
  is_some_and, Eq, holds, Result, ok, err,
}
use akuma_miot.Primitives.TaskId.{TaskId, is_parent}
use akuma_miot.Primitives.Text.{Text, len}
use akuma_miot.Primitives.Vocabulary.{TaskStatus, Authority, Act, status_eq, Outcome}
use akuma_miot.Tasks.Table.{
  Task, TaskTable, is_parent_task, has_status, is_cleared, find_task, subtasks,
}
use akuma_miot.Tasks.Acts.{is_leader}
use akuma_miot.Tasks.Update.{
  clear, reopen, commit_artifact, claim, submit, update, check_submittable,
}

abbrev pub is_ok {ℓ} : {E : Type 0} {B : Type ℓ} → Result E B → Bool
is_ok (ok b) = true
is_ok (err e) = false

module _ {A : Type 0} ⦃e : Eq A⦄ where
  -- Who may answer a task: its holder while it is in progress, and its assignee before that.
  abbrev pub may_submit : A → Task A → Bool
  may_submit who t =
      not (is_parent_task t)
      && ((has_status TaskStatus.in_progress t && holds t.holder who)
          || (has_status TaskStatus.pending t && holds t.assignee who))

  abbrev pub may_claim : A → Task A → Bool
  may_claim who t =
      not (is_parent_task t) && has_status TaskStatus.pending t && holds t.assignee who

  -- A sub-task whose answer waits for the leader.
  abbrev pub is_waiting : Task A → Bool
  is_waiting t = not (is_parent_task t) && has_status TaskStatus.awaiting_clearance t

  -- The whole condition under which an act is accepted.
  abbrev pub is_allowed : TaskTable A → A → Authority → TaskId → Act → Text → Bool
  is_allowed s who auth id Act.claim body = is_some_and (may_claim who) (find_task id s.tasks)
  is_allowed s who auth id Act.done body =
      leb (len body) s.cfg.limits.max_result && is_some_and (may_submit who) (find_task id s.tasks)
  is_allowed s who auth id Act.failed body =
      leb (len body) s.cfg.limits.max_result && is_some_and (may_submit who) (find_task id s.tasks)
  is_allowed s who auth id Act.clear body =
      is_leader auth && is_some_and is_waiting (find_task id s.tasks)
  is_allowed s who auth id Act.reopen body =
      is_leader auth && is_some_and is_waiting (find_task id s.tasks)
  is_allowed s who auth id Act.artifact body =
      is_leader auth
      && is_parent id
      && leb (len body) s.cfg.limits.max_artifact
      && is_some_and (has_status TaskStatus.planned) (find_task id s.tasks)
      && all is_cleared (subtasks s.tasks id)

not-any-not : {X : Type 0} (p : X → Bool) (xs : List X) → not (any (λ x. not (p x)) xs) ≡ all p xs
unfolding any all
not-any-not p [] = refl
not-any-not p (x ∷ xs) = ground (arith, not-any-not p xs)

module _ {A : Type 0} ⦃e : Eq A⦄ (s : TaskTable A) (who : A) (auth : Authority) (id : TaskId)
    (now : ℕ) where
  claim-is_allowed :
      (body : Text) → is_ok (claim s who id now) ≡ is_allowed s who auth id Act.claim body
  unfolding claim status_eq
  claim-is_allowed body = ground arith

  done-is_allowed :
      (body : Text)
      → is_ok (submit s who id (Outcome.done body) now) ≡ is_allowed s who auth id Act.done body
  unfolding submit check_submittable status_eq
  done-is_allowed body = ground arith

  failed-is_allowed :
      (body : Text)
      → is_ok (submit s who id (Outcome.failed body) now) ≡ is_allowed s who auth id Act.failed body
  unfolding submit check_submittable status_eq
  failed-is_allowed body = ground arith

  clear-is_allowed :
      (body : Text) → is_ok (clear s who auth id now) ≡ is_allowed s who auth id Act.clear body
  unfolding clear
  clear-is_allowed body = ground arith

  reopen-is_allowed :
      (body : Text) → is_ok (reopen s who auth id now) ≡ is_allowed s who auth id Act.reopen body
  unfolding reopen
  reopen-is_allowed body = ground arith

  artifact-is_allowed :
      (body : Text)
      → is_ok (commit_artifact s who auth id body now) ≡ is_allowed s who auth id Act.artifact body
  unfolding commit_artifact
  artifact-is_allowed body = ground (arith, not-any-not is_cleared (subtasks s.tasks id))

  -- An act is accepted exactly when it is allowed: a claim by the assignee of a pending sub-task; an
  -- answer within its limit by the holder of a sub-task in progress or the assignee of a pending one;
  -- a verdict by the leader on a sub-task that waits for one; an artifact within its limit by the
  -- leader on a split parent all of whose sub-tasks are cleared.
  pub update-is_allowed :
      (act : Act) (body : Text)
      → is_ok (update s who auth id act body now) ≡ is_allowed s who auth id act body
  unfolding update
  update-is_allowed Act.claim body = claim-is_allowed body
  update-is_allowed Act.done body = done-is_allowed body
  update-is_allowed Act.failed body = failed-is_allowed body
  update-is_allowed Act.clear body = clear-is_allowed body
  update-is_allowed Act.reopen body = reopen-is_allowed body
  update-is_allowed Act.artifact body = artifact-is_allowed body
