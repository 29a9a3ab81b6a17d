-- ===== src/Tasks/Update/Outcomes.antt =====
-- What an accepted act does to the statuses of a table (`TaskTable::update` of crates/miot-tasks/src/lib.rs).
use akuma_miot.Prelude.{
  ℕ, ◌≡◌, refl, ◌∙◌, not, Option, none, some, List, arith, leb, any, if◌then◌else◌, Eq, holds, ok,
  Option-cases, inl, inr,
}
use akuma_miot.Primitives.TaskId.{TaskId, same, parent_id, is_parent}
use akuma_miot.Primitives.Text.{Text, len}
use akuma_miot.Primitives.Vocabulary.{TaskStatus, Authority, Act, Outcome, Error}
use akuma_miot.Primitives.Effect.{Effect}
use akuma_miot.Tasks.Table.{
  Task, TaskTable, has_status, is_cleared, is_parent_task, find_task, modify, subtasks,
}
use akuma_miot.Tasks.Apply.{
  apply, apply_all, apply_record, set_claimed, set_nudged, set_submitted, set_cleared, set_reopened,
  set_closed, rearm,
}
use akuma_miot.Tasks.Acts.{is_leader}
use akuma_miot.Tasks.Update.{
  clear, reopen, commit_artifact, claim, submit, update, check_claimable, check_submittable,
  check_planned, offer,
}
use akuma_miot.Tasks.Invariant.Verdicts.{
  Leaves, Leaves-ok, Leaves-check, Leaves-guard, Leaves-ok_or,
}
use akuma_miot.Tasks.Statuses.{
  status_of, status_of-kept, status_of-set, find-modify, status_of-assign,
}

-- The status that an act gives to its task.
abbrev pub status_after : Act → TaskStatus
status_after Act.claim = TaskStatus.in_progress
status_after Act.done = TaskStatus.awaiting_clearance
status_after Act.failed = TaskStatus.awaiting_clearance
status_after Act.clear = TaskStatus.cleared
status_after Act.reopen = TaskStatus.pending
status_after Act.artifact = TaskStatus.closed

module _ {A : Type 0} (s : TaskTable A) (who : A) (id : TaskId) (now : ℕ) (i : TaskId) where
  -- The status of the task `i` after the act, which is on the task `id`.
  abbrev Sets : Act → TaskTable A × List (Effect A) → Type 0
  Sets act r =
      status_of i r.0.tasks ≡ (if same id i then some (status_after act) else status_of i s.tasks)

  -- A recorded answer or verdict, which re-arms the parent.
  recorded-Sets :
      (f : Task A → Task A) (st : TaskStatus) (t : Task A)
      → ((u : Task A) → (f u).id ≡ u.id)
      → ((u : Task A) → (f u).status ≡ st)
      → find_task id s.tasks ≡ some t
      → status_of i (modify (parent_id id) (rearm now) (modify id f s.tasks))
        ≡ (if same id i then some st else status_of i s.tasks)
  recorded-Sets f st t k q e =
      status_of-kept i (parent_id id) (rearm now) (modify id f s.tasks) (λ u. refl) (λ u. refl)
      ∙ status_of-set i id f st t s.tasks k q e

  offered-Sets :
      (t : Task A)
      → find_task id s.tasks ≡ some t
      → status_of i
          (apply_all
            (record s { tasks = modify id (set_reopened now) s.tasks })
            (offer t id)
            now).tasks
        ≡ (if same id i then some TaskStatus.pending else status_of i s.tasks)
  unfolding apply_all apply
  offered-Sets t e = elim (Option-cases t.assignee) [
    | inl n ↦
        rw (n, offer)
          (status_of-set i id (set_reopened now) TaskStatus.pending t s.tasks (λ u. refl)
            (λ u. refl) e)
    | inr (to, n) ↦
        let (v, g) = find-modify id (set_reopened now) t s.tasks (λ u. refl) e in
        rw (n, offer)
          (ground (
            arith,
            status_of-assign i id to t.text t.expect now v (modify id (set_reopened now) s.tasks) g,
            status_of-set i id (set_reopened now) TaskStatus.pending t s.tasks (λ u. refl)
                (λ u. refl) e,
          ))
  ]

  clear-Sets : (auth : Authority) → Leaves (Sets Act.clear) (clear s who auth id now)
  unfolding clear apply_all apply apply_record
  clear-Sets auth = Leaves-guard (is_leader auth) Error.not_authorized _ λ _.
      Leaves-ok_or (find_task id s.tasks) Error.no_such_task _ λ t f.
        Leaves-guard (not (is_parent_task t)) Error.wrong_kind _ λ _.
          Leaves-guard (has_status TaskStatus.awaiting_clearance t) Error.wrong_status _ λ _.
            Leaves-ok _ (recorded-Sets set_cleared TaskStatus.cleared t (λ u. refl) (λ u. refl) f)

  reopen-Sets : (auth : Authority) → Leaves (Sets Act.reopen) (reopen s who auth id now)
  unfolding reopen apply_all apply apply_record
  reopen-Sets auth = Leaves-guard (is_leader auth) Error.not_authorized _ λ _.
      Leaves-ok_or (find_task id s.tasks) Error.no_such_task _ λ t f.
        Leaves-guard (not (is_parent_task t)) Error.wrong_kind _ λ _.
          Leaves-guard (has_status TaskStatus.awaiting_clearance t) Error.wrong_status _
            λ _. Leaves-ok _ (offered-Sets t f)

  planned_parent : (o : Option (Task A)) → check_planned o ≡ ok tt → (t : Task A) × (o ≡ some t)
  planned_parent none h = cc
  planned_parent (some t) h = (t, refl)

  artifact-Sets :
      (auth : Authority) (body : Text)
      → Leaves (Sets Act.artifact) (commit_artifact s who auth id body now)
  unfolding commit_artifact apply_all apply apply_record
  artifact-Sets auth body = Leaves-guard (is_leader auth) Error.not_authorized _ λ _.
      Leaves-guard (is_parent id) Error.wrong_kind _ λ _.
        Leaves-guard (leb (len body) s.cfg.limits.max_artifact) Error.too_long _ λ _.
          Leaves-check (check_planned (find_task id s.tasks)) _ λ p.
            Leaves-guard (not (any (λ t. not (is_cleared t)) (subtasks s.tasks id)))
              Error.subtasks_outstanding _
              λ _. Leaves-ok _ (
                let (t, f) = planned_parent (find_task id s.tasks) p in
                status_of-set i id (set_closed TaskStatus.closed now) TaskStatus.closed t s.tasks
                  (λ u. refl) (λ u. refl) f)

module _ {A : Type 0} ⦃e : Eq A⦄ (s : TaskTable A) (who : A) (id : TaskId) (now : ℕ)
    (i : TaskId) where
  claim-Sets : Leaves (Sets s who id now i Act.claim) (claim s who id now)
  unfolding claim apply_all apply apply_record
  claim-Sets = Leaves-ok_or (find_task id s.tasks) Error.no_such_task _ λ t f.
      Leaves-guard (not (is_parent_task t)) Error.wrong_kind _ λ _.
        Leaves-check (check_claimable t.status) _ λ _.
          Leaves-guard (holds t.assignee who) Error.not_yours _ λ _. Leaves-ok _ (
            status_of-kept i id (set_nudged s.cfg s.cfg.timers.max_nudges now)
              (modify id (set_claimed s.cfg who now) s.tasks) (λ u. refl) (λ u. refl)
            ∙ status_of-set i id (set_claimed s.cfg who now) TaskStatus.in_progress t s.tasks
                (λ u. refl) (λ u. refl) f)

  done-Sets :
      (body : Text)
      → Leaves (Sets s who id now i Act.done) (submit s who id (Outcome.done body) now)
  unfolding submit apply_all apply apply_record
  done-Sets body = Leaves-guard (leb (len body) s.cfg.limits.max_result) Error.too_long _ λ _.
      Leaves-ok_or (find_task id s.tasks) Error.no_such_task _ λ t f.
        Leaves-guard (not (is_parent_task t)) Error.wrong_kind _ λ _.
          Leaves-check (check_submittable t.status t who) _ λ _. Leaves-ok _ (
            recorded-Sets s who id now i (set_submitted who (Outcome.done body))
              TaskStatus.awaiting_clearance t (λ u. refl) (λ u. refl) f)

  failed-Sets :
      (body : Text)
      → Leaves (Sets s who id now i Act.failed) (submit s who id (Outcome.failed body) now)
  unfolding submit apply_all apply apply_record
  failed-Sets body = Leaves-guard (leb (len body) s.cfg.limits.max_result) Error.too_long _ λ _.
      Leaves-ok_or (find_task id s.tasks) Error.no_such_task _ λ t f.
        Leaves-guard (not (is_parent_task t)) Error.wrong_kind _ λ _.
          Leaves-check (check_submittable t.status t who) _ λ _. Leaves-ok _ (
            recorded-Sets s who id now i (set_submitted who (Outcome.failed body))
              TaskStatus.awaiting_clearance t (λ u. refl) (λ u. refl) f)

  -- An act that is accepted changes the status of its own task and of no other: a claim to in progress,
  -- an answer to awaiting clearance, a clearance to cleared, a reopening to pending, an artifact to
  -- closed.
  pub update-status_of :
      (auth : Authority) (act : Act) (body : Text)
      → Leaves
          (λ (r : TaskTable A × List (Effect A)).
            status_of i r.0.tasks
            ≡ (if same id i then some (status_after act) else status_of i s.tasks))
          (update s who auth id act body now)
  unfolding update
  update-status_of auth Act.claim body = claim-Sets
  update-status_of auth Act.done body = done-Sets body
  update-status_of auth Act.failed body = failed-Sets body
  update-status_of auth Act.clear body = clear-Sets s who id now i auth
  update-status_of auth Act.reopen body = reopen-Sets s who id now i auth
  update-status_of auth Act.artifact body = artifact-Sets s who id now i auth body
