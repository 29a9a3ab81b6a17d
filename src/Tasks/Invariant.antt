-- ===== src/Tasks/Invariant.antt =====
-- What holds of every table that crates/miot-tasks/src/lib.rs makes: of each row, and of the rows
-- together.
pub mod Changes
pub mod Ticks
pub mod Verdicts
pub mod RowChanges
pub mod Updates
pub mod Pushes
pub mod Opens
pub mod Sweeps
use akuma_miot.Prelude.{
  ℕ, ◌≤◌, ◌<◌, ◌≡◌, Bool, true, false, not, ◌&&◌, ◌||◌, none, List, if◌then◌else◌, is_some, any,
  All,
}
use akuma_miot.Primitives.Vocabulary.{TaskStatus}
use akuma_miot.Primitives.Config.{Config}
use akuma_miot.Tasks.Table.{Task, TaskTable, is_parent_task, has_status, is_subtask_of}
use akuma_miot.Tasks.Rows.{Unique}

-- The statuses that a parent walks through; the others are for sub-tasks.
abbrev pub is_parent_status : TaskStatus → Bool
is_parent_status TaskStatus.opening = true
is_parent_status TaskStatus.planned = true
is_parent_status TaskStatus.closed = true
is_parent_status TaskStatus.failed = true
is_parent_status _ = false

abbrev pub is_answered : TaskStatus → Bool
is_answered TaskStatus.awaiting_clearance = true
is_answered TaskStatus.cleared = true
is_answered _ = false

module _ {A : Type 0} where
  -- A row in order: its status is one of its kind, a claim has a holder and a lease, an offer has no
  -- holder and a date, an answer is there once it is in, a sub-task has an assignee, and the three
  -- budgets are not overdrawn.
  pub record RowIsOk (cfg : Config) (t : Task A) : Type 0 where
    pub kind : is_parent_status t.status ≡ is_parent_task t
    pub claimed :
        t.status ≡ TaskStatus.in_progress → is_some t.holder && is_some t.lease_until ≡ true
    pub offered :
        t.status ≡ TaskStatus.pending → not (is_some t.holder) && is_some t.offered_at ≡ true
    pub answered : is_answered t.status ≡ true → is_some t.outcome ≡ true
    pub assigned : is_parent_task t ≡ false → is_some t.assignee ≡ true
    pub nudges : t.nudges_used ≤ cfg.timers.max_nudges
    pub offers : t.reoffers ≤ cfg.timers.max_reoffers
    pub directives : t.directive_nudges_used ≤ cfg.timers.max_directive_nudges

  abbrev pub is_unsplit : Task A → Bool
  is_unsplit t = is_parent_task t && has_status TaskStatus.opening t

  -- A parent that was not split has no sub-tasks.
  abbrev pub HasNoSubtasks : List (Task A) → Task A → Type 0
  HasNoSubtasks ts t = is_unsplit t ≡ true → any (is_subtask_of t.id.parent) ts ≡ false

  pub record IsWellFormed (s : TaskTable A) : Type 0 where
    pub unique : Unique s.tasks
    pub rows : All (RowIsOk s.cfg) s.tasks
    pub below : All (λ (t : Task A). t.id.parent < s.next_parent) s.tasks
    pub unsplit : All (HasNoSubtasks s.tasks) s.tasks
