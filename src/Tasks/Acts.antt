-- ===== src/Tasks/Acts.antt =====
-- The verbs of crates/miot-tasks/src/lib.rs that are not acts on one task by its worker: `set_leader`,
-- `open`, `plan`, `say`, `publish_standalone_artifact`, `clear_all` and `reassign`.
pub mod Plans
pub mod Finds
pub mod Accepted
use akuma_miot.Prelude.{
  ℕ, ◌+◌, Bool, true, false, not, ◌&&◌, ◌||◌, Option, none, some, List, [], ◌∷◌, leb, if◌then◌else◌,
  is_empty, keep, length, Eq, holds, Result, ok, err, ◌>>=◌, ◌>>◌, guard, ok_or,
}
use akuma_miot.Primitives.Words.{wrap_u16, wrap_u32}
use akuma_miot.Primitives.TaskId.{TaskId, parent, sub, is_parent}
use akuma_miot.Primitives.Text.{Text, len}
use akuma_miot.Primitives.Title.{title_from_markdown}
use akuma_miot.Primitives.Vocabulary.{TaskStatus, Authority, PlanItem, Directive, Requeue, Error}
use akuma_miot.Primitives.Config.{Limits}
use akuma_miot.Primitives.Effect.{Effect}
use akuma_miot.Tasks.Table.{Task, TaskTable, is_parent_task, has_status, find_task}
use akuma_miot.Tasks.Apply.{apply_all}
use akuma_miot.Tasks.Gc.{gc}

-- What a verb gives: the table after it and the effects to fan out, or why it was refused.
abbrev pub Verdict {ℓ} : Type ℓ → Type ℓ
Verdict A = Result Error (TaskTable A × List (Effect A))

abbrev pub is_leader : Authority → Bool
is_leader Authority.leader = true
is_leader _ = false

abbrev pub is_root : Authority → Bool
is_root Authority.root = true
is_root _ = false

module _ {ℓ} {A : Type ℓ} where
  -- Every verb ends so: its effects are folded into the table, one after the other.
  abbrev pub commit : TaskTable A → List (Effect A) → ℕ → TaskTable A × List (Effect A)
  commit s effects now = (apply_all s effects now, effects)

  unfoldable pub open_task :
      TaskTable A
      → A
      → Authority
      → Text
      → ℕ
      → Result Error (TaskId × (TaskTable A × List (Effect A)))
  unfolding len apply_all
  open_task s who auth text now = do
    guard (is_root auth || is_leader auth) Error.not_authorized
    guard (leb (len text) s.cfg.limits.max_text) Error.too_long
    guard (leb (length s.tasks + 1 + s.cfg.limits.max_subtasks) s.cfg.limits.max_tasks)
        Error.too_many_tasks
    let id = parent s.next_parent
    ok (id, commit s (Effect.opened who id text ∷ []) now)

  unfoldable pub say : TaskTable A → A → Authority → Option A → Text → Bool → Bool → Verdict A
  unfolding len
  say s who auth to body no_ack off_record = do
    guard (leb (len body) s.cfg.limits.max_message) Error.too_long
    ok (s, Effect.said who to body (is_root auth) no_ack off_record ∷ [])

  unfoldable pub publish_standalone_artifact :
      TaskTable A → A → Text → ℕ → Result Error (ℕ × (TaskTable A × List (Effect A)))
  unfolding len apply_all title_from_markdown
  publish_standalone_artifact s who body now = do
    guard (leb (len body) s.cfg.limits.max_artifact) Error.too_long
    let id = s.next_standalone_artifact
    let title = title_from_markdown body s.cfg.limits.max_title
    ok (id, commit s (Effect.standalone_artifact who id title body ∷ []) now)

  -- A parent that `clear_all` fails.
  abbrev pub is_open_parent : Task A → Bool
  is_open_parent t =
      is_parent_task t && (has_status TaskStatus.opening t || has_status TaskStatus.planned t)

  unfoldable pub clear_effects : List (Task A) → List (Effect A)
  clear_effects [] = []
  clear_effects (t ∷ ts) = Effect.failed t.id ∷ clear_effects ts

  unfoldable pub clear_all : TaskTable A → Authority → ℕ → Verdict A
  unfolding apply_all gc keep clear_effects
  clear_all s auth now = do
    guard (is_root auth) Error.not_authorized
    let effects = clear_effects (keep is_open_parent s.tasks)
    ok ((gc (apply_all s effects now) now 0).0, effects)

  -- The effects of `plan`, from the index of the first item.
  unfoldable pub plan_effects : ℕ → ℕ → List (PlanItem A) → List (Effect A)
  plan_effects p i [] = []
  plan_effects p i (it ∷ items) =
      Effect.assigned it.who (sub p (wrap_u16 (i + 1))) it.what it.expect
      ∷ plan_effects p (i + 1) items

  -- The last check of `plan`: the parent is there, and was not split.
  unfoldable pub check_unsplit : Option (Task A) → Result Error (Unit {0})
  check_unsplit none = err Error.no_such_task
  check_unsplit (some t) =
      if has_status TaskStatus.opening t
      then ok tt
      else if has_status TaskStatus.planned t
      then err Error.already_planned
      else err Error.wrong_status

module _ {ℓ} {A : Type ℓ} ⦃e : Eq A⦄ where
  unfoldable pub set_leader : TaskTable A → A → ℕ → TaskTable A × List (Effect A)
  unfolding apply_all
  set_leader s who now =
      if holds s.leader who
      then (s, [])
      else commit s (Effect.directed who (parent 0) Directive.leader_elected ∷ []) now

  -- The loop of `plan` over the items: the first that may not stand ends it.
  unfoldable pub check_items : Limits → Option A → List (PlanItem A) → Result Error (Unit {0})
  unfolding len
  check_items limits root [] = ok tt
  check_items limits root (it ∷ items) = do
    guard (not (holds root it.who)) Error.root_not_assignable
    guard (leb (len it.what) limits.max_text && leb (len it.expect) limits.max_text) Error.too_long
    check_items limits root items

  unfoldable pub plan : TaskTable A → A → Authority → TaskId → List (PlanItem A) → ℕ → Verdict A
  unfolding check_items check_unsplit plan_effects apply_all find_task
  plan s who auth id items now = do
    guard (is_leader auth) Error.not_authorized
    guard (is_parent id) Error.wrong_kind
    guard (not (is_empty items)) Error.empty_plan
    guard (leb (length items) s.cfg.limits.max_subtasks) Error.too_many_subtasks
    check_items s.cfg.limits s.root items
    check_unsplit (find_task id s.tasks)
    ok (
        commit s (Effect.planned who id (wrap_u32 (length items)) ∷ plan_effects id.parent 0 items)
          now)

  unfoldable pub reassign : TaskTable A → A → Authority → TaskId → A → ℕ → Verdict A
  unfolding apply_all find_task
  reassign s who auth id to now = do
    guard (is_leader auth) Error.not_authorized
    guard (not (holds s.root to)) Error.root_not_assignable
    t ← ok_or (find_task id s.tasks) Error.no_such_task
    guard (not (is_parent_task t)) Error.wrong_kind
    guard (has_status TaskStatus.pending t || has_status TaskStatus.awaiting_clearance t)
        Error.wrong_status
    ok (
        commit s
          (Effect.rehomed id t.assignee to
            ∷ Effect.requeued id none Requeue.rehomed
            ∷ Effect.assigned to id t.text t.expect
            ∷ [])
          now)
