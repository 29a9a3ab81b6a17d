-- ===== src/Tasks/Apply.antt =====
-- `TaskTable::apply` of crates/miot-tasks/src/lib.rs: what one effect does to the table. The rows of an
-- effect have a function each, named for the effect.
use akuma_miot.Prelude.{
  ℕ, ◌+◌, true, false, none, some, List, [], ◌∷◌, ◌++◌, map, max, if◌then◌else◌,
}
use akuma_miot.Primitives.Words.{saturating_add_u32, saturating_add_u8, saturating_sub, wrap_u32}
use akuma_miot.Primitives.TaskId.{TaskId, parent_id}
use akuma_miot.Primitives.Text.{Text}
use akuma_miot.Primitives.Vocabulary.{TaskStatus, Act, Outcome, Directive, Requeue}
use akuma_miot.Primitives.Config.{Config}
use akuma_miot.Primitives.Effect.{Effect}
use akuma_miot.Tasks.Table.{Task, TaskTable, is_parent_task, find_task, modify}

module _ {ℓ} {A : Type ℓ} where
  -- The row that `Opened` pushes.
  abbrev pub opened_row : A → TaskId → Text → ℕ → Task A
  opened_row who task text now = record {
    id = task;
    status = TaskStatus.opening;
    text = text;
    expect = [];
    assignee = none;
    holder = none;
    outcome = none;
    opened_by = who;
    opened_at = now;
    offered_at = none;
    lease_until = none;
    next_nag = none;
    nudges_used = 0;
    reoffers = 0;
    budget_announced = false;
    next_directive = now;
    directive_nudges_used = 0;
    closed_at = none;
  }

  -- The row that a first `Assigned` pushes.
  abbrev pub offered_row : A → TaskId → Text → Text → ℕ → Task A
  offered_row to task what expect now = record {
    id = task;
    status = TaskStatus.pending;
    text = what;
    expect = expect;
    assignee = some to;
    holder = none;
    outcome = none;
    opened_by = to;
    opened_at = now;
    offered_at = some now;
    lease_until = none;
    next_nag = none;
    nudges_used = 0;
    reoffers = 0;
    budget_announced = false;
    next_directive = now;
    directive_nudges_used = 0;
    closed_at = none;
  }

  abbrev pub set_planned : Config → ℕ → Task A → Task A
  set_planned cfg now p = record p {
    status = TaskStatus.planned;
    next_directive = saturating_add_u32 now cfg.timers.directive_nag;
    directive_nudges_used = 0;
  }

  abbrev pub set_assigned : A → Text → Text → ℕ → Task A → Task A
  set_assigned to what expect now t = record t {
    assignee = some to;
    status = TaskStatus.pending;
    text = what;
    expect = expect;
    offered_at = some now;
  }

  -- The directive of this parent is due at once, with its budget afresh.
  abbrev pub rearm : ℕ → Task A → Task A
  rearm now p = record p { next_directive = now; directive_nudges_used = 0 }

  abbrev pub rearm_parent : ℕ → Task A → Task A
  rearm_parent now t = if is_parent_task t then rearm now t else t

  abbrev pub set_directed : Config → ℕ → Task A → Task A
  set_directed cfg now p = record p {
    next_directive = saturating_add_u32 now cfg.timers.directive_nag;
    directive_nudges_used = saturating_add_u8 p.directive_nudges_used 1;
  }

  abbrev pub set_nudged : Config → ℕ → ℕ → Task A → Task A
  set_nudged cfg remaining now t = record t {
    nudges_used = saturating_sub cfg.timers.max_nudges remaining;
    next_nag = some (saturating_add_u32 now cfg.timers.work_nag);
  }

  abbrev pub set_claimed : Config → A → ℕ → Task A → Task A
  set_claimed cfg who now t = record t {
    status = TaskStatus.in_progress;
    holder = some who;
    lease_until = some (saturating_add_u32 now cfg.timers.lease);
    next_nag = some (saturating_add_u32 now cfg.timers.work_nag);
    nudges_used = 0;
    reoffers = 0;
    budget_announced = false;
    offered_at = none;
  }

  abbrev pub set_submitted : A → Outcome → Task A → Task A
  set_submitted who outcome t = record t {
    status = TaskStatus.awaiting_clearance;
    outcome = some outcome;
    holder = some who;
    lease_until = none;
    next_nag = none;
    offered_at = none;
    nudges_used = 0;
  }

  abbrev pub set_cleared : Task A → Task A
  set_cleared t = record t { status = TaskStatus.cleared }

  abbrev pub set_reopened : ℕ → Task A → Task A
  set_reopened now t = record t {
    status = TaskStatus.pending;
    outcome = none;
    holder = none;
    offered_at = some now;
    lease_until = none;
    next_nag = none;
    nudges_used = 0;
    budget_announced = false;
  }

  abbrev pub set_reoffered : ℕ → Task A → Task A
  set_reoffered now t = record t {
    offered_at = some now;
    reoffers = saturating_add_u8 t.reoffers 1;
  }

  abbrev pub set_expired : ℕ → Task A → Task A
  set_expired now t = record t {
    status = TaskStatus.pending;
    holder = none;
    offered_at = some now;
    lease_until = none;
    next_nag = none;
    nudges_used = 0;
    budget_announced = false;
  }

  abbrev pub set_rehomed : A → ℕ → Task A → Task A
  set_rehomed to now t = record t {
    assignee = some to;
    status = TaskStatus.pending;
    holder = none;
    outcome = none;
    offered_at = some now;
    lease_until = none;
    next_nag = none;
    nudges_used = 0;
    reoffers = 0;
    budget_announced = false;
  }

  abbrev pub set_budget_spent : Task A → Task A
  set_budget_spent t = record t { budget_announced = true; next_nag = none }

  abbrev pub set_closed : TaskStatus → ℕ → Task A → Task A
  set_closed status now p = record p { status = status; closed_at = some now }

  -- `if let Ok(t) = self.task_mut(id) { … }`
  abbrev pub on_task : TaskTable A → TaskId → (Task A → Task A) → TaskTable A
  on_task s id f = record s { tasks = modify id f s.tasks }

  -- The `Assigned` arm: an old row is offered anew, a missing one is pushed.
  unfoldable pub assign : List (Task A) → A → TaskId → Text → Text → ℕ → List (Task A)
  unfolding find_task modify
  assign tasks to task what expect now = elim (find_task task tasks) [
    | some _ ↦ modify task (set_assigned to what expect now) tasks
    | none ↦ tasks ++ offered_row to task what expect now ∷ []
  ]

  -- The `Record` arm, by the act.
  unfoldable pub apply_record : TaskTable A → A → TaskId → Act → Text → ℕ → TaskTable A
  unfolding modify
  apply_record s who task Act.claim text now = on_task s task (set_claimed s.cfg who now)
  apply_record s who task Act.done text now =
      on_task (on_task s task (set_submitted who (Outcome.done text))) (parent_id task) (rearm now)
  apply_record s who task Act.failed text now =
      on_task (on_task s task (set_submitted who (Outcome.failed text))) (parent_id task)
        (rearm now)
  apply_record s who task Act.clear text now =
      on_task (on_task s task set_cleared) (parent_id task) (rearm now)
  apply_record s who task Act.reopen text now = on_task s task (set_reopened now)
  apply_record s who task Act.artifact text now = s

  -- The `Requeued` arm, by the reason.
  unfoldable pub apply_requeued : TaskTable A → TaskId → Requeue → ℕ → TaskTable A
  unfolding modify
  apply_requeued s task Requeue.unclaimed now = on_task s task (set_reoffered now)
  apply_requeued s task Requeue.lease_expired now = on_task s task (set_expired now)
  apply_requeued s task Requeue.rehomed now = s
  apply_requeued s task Requeue.reopened now = s

  -- The `Directed` arm, by the directive.
  unfoldable pub apply_directed : TaskTable A → A → TaskId → Directive → ℕ → TaskTable A
  unfolding modify
  apply_directed s to task Directive.leader_elected now = record s {
    leader = some to;
    tasks = map (rearm_parent now) s.tasks;
  }
  apply_directed s to task _ now = on_task s task (set_directed s.cfg now)

  unfoldable pub apply : TaskTable A → Effect A → ℕ → TaskTable A
  unfolding assign apply_record apply_requeued apply_directed modify
  apply s (Effect.opened who task text) now = record s {
    next_parent = max s.next_parent (wrap_u32 (task.parent + 1));
    tasks = s.tasks ++ opened_row who task text now ∷ [];
  }
  apply s (Effect.planned who task count) now = on_task s task (set_planned s.cfg now)
  apply s (Effect.assigned to task what expect) now = record s {
    tasks = assign s.tasks to task what expect now;
  }
  apply s (Effect.directed to task directive) now = apply_directed s to task directive now
  apply s (Effect.nudge to task remaining last) now =
      on_task s task (set_nudged s.cfg remaining now)
  apply s (Effect.recorded who task act text) now = apply_record s who task act text now
  apply s (Effect.requeued task from why) now = apply_requeued s task why now
  apply s (Effect.rehomed task from to) now = on_task s task (set_rehomed to now)
  apply s (Effect.nudge_budget_spent holder task) now = on_task s task set_budget_spent
  apply s (Effect.closed task title body author) now = record s {
    artifacts =
        s.artifacts
        ++ (parent_id task, record { title = title; body = body; author = author; at = now }) ∷ [];
    tasks = modify task (set_closed TaskStatus.closed now) s.tasks;
  }
  apply s (Effect.failed task) now = on_task s task (set_closed TaskStatus.failed now)
  apply s (Effect.standalone_artifact author id title body) now = record s {
    next_standalone_artifact = max s.next_standalone_artifact (wrap_u32 (id + 1));
    standalone_artifacts =
        s.standalone_artifacts
        ++ (id, record { title = title; body = body; author = author; at = now }) ∷ [];
  }
  -- Chat, votes, statistics and patrons touch no task.
  apply s _ now = s

  -- `for e in &effects { self.apply(e, now); }`
  unfoldable pub apply_all : TaskTable A → List (Effect A) → ℕ → TaskTable A
  unfolding apply
  apply_all s [] now = s
  apply_all s (e ∷ es) now = apply_all (apply s e now) es now
