-- ===== src/Tasks/Update.antt =====
-- `TaskTable::update` of crates/miot-tasks/src/lib.rs and the acts under it: `claim`, `submit`, `clear`,
-- `reopen` and `commit_artifact`.
pub mod Accepted
pub mod Outcomes
use akuma_miot.Prelude.{
  ℕ, false, not, Option, none, some, List, [], ◌∷◌, leb, any, if◌then◌else◌, Eq, holds, ok, err,
  ◌>>=◌, ◌>>◌, guard, ok_or, Result,
}
use akuma_miot.Primitives.TaskId.{TaskId, is_parent}
use akuma_miot.Primitives.Text.{Text, len}
use akuma_miot.Primitives.Title.{title_from_markdown}
use akuma_miot.Primitives.Vocabulary.{
  TaskStatus, Authority, Act, Outcome, text, is_failed, Requeue, Error,
}
use akuma_miot.Primitives.Effect.{Effect}
use akuma_miot.Tasks.Table.{
  Task, TaskTable, is_parent_task, has_status, is_cleared, find_task, subtasks,
}
use akuma_miot.Tasks.Apply.{apply_all}
use akuma_miot.Tasks.Acts.{Verdict, is_leader, commit}

module _ {ℓ} {A : Type ℓ} where
  unfoldable pub clear : TaskTable A → A → Authority → TaskId → ℕ → Verdict A
  unfolding apply_all find_task
  clear s who auth id now = do
    guard (is_leader auth) Error.not_authorized
    t ← ok_or (find_task id s.tasks) Error.no_such_task
    guard (not (is_parent_task t)) Error.wrong_kind
    guard (has_status TaskStatus.awaiting_clearance t) Error.wrong_status
    ok (commit s (Effect.recorded who id Act.clear [] ∷ []) now)

  -- An offer of this row to its assignee, if it has one.
  abbrev pub offer : Task A → TaskId → List (Effect A)
  offer t id = elim t.assignee [ none ↦ [] | some to ↦ Effect.assigned to id t.text t.expect ∷ [] ]

  unfoldable pub reopen : TaskTable A → A → Authority → TaskId → ℕ → Verdict A
  unfolding apply_all find_task
  reopen s who auth id now = do
    guard (is_leader auth) Error.not_authorized
    t ← ok_or (find_task id s.tasks) Error.no_such_task
    guard (not (is_parent_task t)) Error.wrong_kind
    guard (has_status TaskStatus.awaiting_clearance t) Error.wrong_status
    ok (
        commit s
          (Effect.recorded who id Act.reopen []
            ∷ Effect.requeued id none Requeue.reopened
            ∷ offer t id)
          now)

  -- The parent of an artifact is there, and split.
  abbrev pub check_planned : Option (Task A) → Result Error (Unit {0})
  check_planned none = err Error.no_such_task
  check_planned (some t) = guard (has_status TaskStatus.planned t) Error.wrong_status

  unfoldable pub commit_artifact : TaskTable A → A → Authority → TaskId → Text → ℕ → Verdict A
  unfolding apply_all find_task subtasks len title_from_markdown any
  commit_artifact s who auth id body now = do
    guard (is_leader auth) Error.not_authorized
    guard (is_parent id) Error.wrong_kind
    guard (leb (len body) s.cfg.limits.max_artifact) Error.too_long
    check_planned (find_task id s.tasks)
    guard (not (any (λ t. not (is_cleared t)) (subtasks s.tasks id))) Error.subtasks_outstanding
    let title = title_from_markdown body s.cfg.limits.max_title
    ok (
        commit s (Effect.recorded who id Act.artifact [] ∷ Effect.closed id title body who ∷ [])
          now)

-- `match t.status` of `claim`
abbrev pub check_claimable : TaskStatus → Result Error (Unit {0})
check_claimable TaskStatus.pending = ok tt
check_claimable TaskStatus.in_progress = err Error.already_claimed
check_claimable _ = err Error.wrong_status

module _ {ℓ} {A : Type ℓ} ⦃e : Eq A⦄ where
  unfoldable pub claim : TaskTable A → A → TaskId → ℕ → Verdict A
  unfolding apply_all find_task
  claim s who id now = do
    t ← ok_or (find_task id s.tasks) Error.no_such_task
    guard (not (is_parent_task t)) Error.wrong_kind
    check_claimable t.status
    guard (holds t.assignee who) Error.not_yours
    ok (
        commit s
          (Effect.recorded who id Act.claim []
            ∷ Effect.nudge who id s.cfg.timers.max_nudges false
            ∷ [])
          now)

  -- `match t.status` of `submit`
  unfoldable pub check_submittable : TaskStatus → Task A → A → Result Error (Unit {0})
  check_submittable TaskStatus.in_progress t who = guard (holds t.holder who) Error.not_yours
  check_submittable TaskStatus.pending t who = guard (holds t.assignee who) Error.not_yours
  check_submittable TaskStatus.awaiting_clearance t who = err Error.already_submitted
  check_submittable _ t who = err Error.wrong_status

  unfoldable pub submit : TaskTable A → A → TaskId → Outcome → ℕ → Verdict A
  unfolding apply_all find_task check_submittable len
  submit s who id outcome now = do
    guard (leb (len (text outcome)) s.cfg.limits.max_result) Error.too_long
    let act = if is_failed outcome then Act.failed else Act.done
    t ← ok_or (find_task id s.tasks) Error.no_such_task
    guard (not (is_parent_task t)) Error.wrong_kind
    check_submittable t.status t who
    ok (commit s (Effect.recorded who id act (text outcome) ∷ []) now)

  unfoldable pub update : TaskTable A → A → Authority → TaskId → Act → Text → ℕ → Verdict A
  unfolding claim submit clear reopen commit_artifact
  update s who auth id Act.claim text now = claim s who id now
  update s who auth id Act.done text now = submit s who id (Outcome.done text) now
  update s who auth id Act.failed text now = submit s who id (Outcome.failed text) now
  update s who auth id Act.clear text now = clear s who auth id now
  update s who auth id Act.reopen text now = reopen s who auth id now
  update s who auth id Act.artifact text now = commit_artifact s who auth id text now
