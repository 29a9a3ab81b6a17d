-- ===== src/Tasks/Table.antt =====
-- `Task`, `State` and `TaskTable` of crates/miot-tasks/src/lib.rs, and the ways to look into a table.
use akuma_miot.Prelude.{
  ℕ, Bool, not, ◌&&◌, Option, none, List, [], ◌∷◌, ◌==◌, if◌then◌else◌, keep, find, length,
}
use akuma_miot.Primitives.TaskId.{TaskId, is_parent, parent_id, same}
use akuma_miot.Primitives.Text.{Text}
use akuma_miot.Primitives.Vocabulary.{TaskStatus, status_eq, Outcome, Artifact}
use akuma_miot.Primitives.Config.{Config}

pub record Task {ℓ} (A : Type ℓ) : Type ℓ where
  pub id : TaskId
  pub status : TaskStatus
  pub text : Text
  pub expect : Text
  pub assignee : Option A
  pub holder : Option A
  pub outcome : Option Outcome
  pub opened_by : A
  pub opened_at : ℕ
  pub offered_at : Option ℕ
  pub lease_until : Option ℕ
  pub next_nag : Option ℕ
  pub nudges_used : ℕ
  pub reoffers : ℕ
  pub budget_announced : Bool
  pub next_directive : ℕ
  pub directive_nudges_used : ℕ
  pub closed_at : Option ℕ

-- The part of the table that is stored.
pub record State {ℓ} (A : Type ℓ) : Type ℓ where
  pub tasks : List (Task A)
  pub artifacts : List (TaskId × Artifact A)
  pub standalone_artifacts : List (ℕ × Artifact A)
  pub next_parent : ℕ
  pub next_standalone_artifact : ℕ
  pub leader : Option A
  pub root : Option A

pub record TaskTable {ℓ} (A : Type ℓ) : Type ℓ where
  pub tasks : List (Task A)
  pub artifacts : List (TaskId × Artifact A)
  pub standalone_artifacts : List (ℕ × Artifact A)
  pub next_parent : ℕ
  pub next_standalone_artifact : ℕ
  pub leader : Option A
  pub root : Option A
  pub cfg : Config

module _ {ℓ} {A : Type ℓ} where
  -- `Task::is_parent`
  abbrev pub is_parent_task : Task A → Bool
  is_parent_task t = is_parent t.id

  abbrev pub has_status : TaskStatus → Task A → Bool
  has_status status t = status_eq t.status status

  abbrev pub is_cleared : Task A → Bool
  is_cleared t = has_status TaskStatus.cleared t

  -- `State::default`
  abbrev pub default_state : State A
  default_state = record {
    tasks = [];
    artifacts = [];
    standalone_artifacts = [];
    next_parent = 1;
    next_standalone_artifact = 1;
    leader = none;
    root = none;
  }

  -- `TaskTable::new`
  abbrev pub new : Config → Option A → TaskTable A
  new cfg root = record {
    tasks = [];
    artifacts = [];
    standalone_artifacts = [];
    next_parent = 1;
    next_standalone_artifact = 1;
    leader = none;
    root = root;
    cfg = cfg;
  }

  abbrev pub from_state : State A → Config → TaskTable A
  from_state s cfg = record {
    tasks = s.tasks;
    artifacts = s.artifacts;
    standalone_artifacts = s.standalone_artifacts;
    next_parent = s.next_parent;
    next_standalone_artifact = s.next_standalone_artifact;
    leader = s.leader;
    root = s.root;
    cfg = cfg;
  }

  abbrev pub into_state : TaskTable A → State A
  into_state s = record {
    tasks = s.tasks;
    artifacts = s.artifacts;
    standalone_artifacts = s.standalone_artifacts;
    next_parent = s.next_parent;
    next_standalone_artifact = s.next_standalone_artifact;
    leader = s.leader;
    root = s.root;
  }

  abbrev pub has_id : TaskId → Task A → Bool
  has_id id t = same t.id id

  -- The read half of `task_mut`, and `get`: the first row with this id.
  unfoldable pub find_task : TaskId → List (Task A) → Option (Task A)
  unfolding find
  find_task id tasks = find (has_id id) tasks

  -- The write half of `task_mut`: the first row with this id is changed, if there is one.
  unfoldable pub modify : TaskId → (Task A → Task A) → List (Task A) → List (Task A)
  modify id f [] = []
  modify id f (t ∷ ts) = if has_id id t then f t ∷ ts else t ∷ modify id f ts

  unfoldable pub get : TaskTable A → TaskId → Option (Task A)
  unfolding find_task
  get s id = find_task id s.tasks

  abbrev pub is_subtask_of : ℕ → Task A → Bool
  is_subtask_of p t = t.id.parent == p && not (is_parent_task t)

  unfoldable pub subtasks : List (Task A) → TaskId → List (Task A)
  unfolding keep
  subtasks tasks parent = keep (is_subtask_of parent.parent) tasks

  unfoldable pub artifact : TaskTable A → TaskId → Option (TaskId × Artifact A)
  unfolding find
  artifact s parent = find (λ a. same a.0 (parent_id parent)) s.artifacts

  unfoldable pub standalone : TaskTable A → ℕ → Option (ℕ × Artifact A)
  unfolding find
  standalone s id = find (λ a. a.0 == id) s.standalone_artifacts

  -- `len`
  abbrev pub rows : TaskTable A → ℕ
  rows s = length s.tasks
