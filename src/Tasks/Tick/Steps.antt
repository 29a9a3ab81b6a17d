-- ===== src/Tasks/Tick/Steps.antt =====
-- What a tick is to do to each row, said row by row and with no effects: the description that
-- `TaskTable::tick` of crates/miot-tasks/src/lib.rs is held against.
use akuma_miot.Prelude.{
  ℕ, ◌+◌, true, false, not, ◌&&◌, Option, none, some, List, leb, ltb, if◌then◌else◌, is_some_and,
  map,
}
use akuma_miot.Primitives.Words.{saturating_add_u32, saturating_add_u8}
use akuma_miot.Primitives.Vocabulary.{TaskStatus, Directive}
use akuma_miot.Primitives.Config.{Config}
use akuma_miot.Tasks.Table.{Task, is_parent_task}
use akuma_miot.Tasks.Tick.{is_due, directive_for}

module _ {ℓ} {A : Type ℓ} where
  -- Back in the queue, with the same assignee if it has one.
  abbrev pub requeue_step : ℕ → Task A → Task A
  requeue_step now t = record t {
    status = TaskStatus.pending;
    holder = none;
    offered_at = some now;
    lease_until = none;
    next_nag = none;
    nudges_used = 0;
    budget_announced = false;
  }

  abbrev pub nag_step : Config → ℕ → Task A → Task A
  nag_step cfg now t = elim t.holder [
    | none ↦ t
    | some _ ↦
        if ltb t.nudges_used cfg.timers.max_nudges
        then record t {
          nudges_used = t.nudges_used + 1;
          next_nag = some (saturating_add_u32 now cfg.timers.work_nag);
        }
        else if not t.budget_announced
        then record t { budget_announced = true; next_nag = none }
        else t
  ]

  abbrev pub chase_step : Config → ℕ → Task A → Task A
  chase_step cfg now t =
      if is_due now t.lease_until
      then requeue_step now t
      else if is_due now t.next_nag
      then nag_step cfg now t
      else t

  abbrev pub reoffer_step : Config → ℕ → Task A → Task A
  reoffer_step cfg now t =
      if ltb t.reoffers cfg.timers.max_reoffers
        && is_some_and (λ o. leb (saturating_add_u32 o cfg.timers.claim_window) now) t.offered_at
      then record t { offered_at = some now; reoffers = saturating_add_u8 t.reoffers 1 }
      else t

  abbrev pub status_step : TaskStatus → Config → ℕ → Task A → Task A
  status_step TaskStatus.in_progress cfg now t = chase_step cfg now t
  status_step TaskStatus.pending cfg now t = reoffer_step cfg now t
  status_step _ cfg now t = t

  -- Stage 1 at one row.
  unfoldable pub work_step : Config → ℕ → Task A → Task A
  work_step cfg now t = if is_parent_task t then t else status_step t.status cfg now t

  abbrev pub told_step : Config → ℕ → Option Directive → Task A → Task A
  told_step cfg now none t = t
  told_step cfg now (some d) t =
      if leb cfg.timers.max_directive_nudges t.directive_nudges_used
      then record t { status = TaskStatus.failed; closed_at = some now }
      else record t {
        next_directive = saturating_add_u32 now cfg.timers.directive_nag;
        directive_nudges_used = saturating_add_u8 t.directive_nudges_used 1;
      }

  -- Stage 2 at one row, in the table that stage 1 leaves.
  unfoldable pub lead_step : Config → List (Task A) → ℕ → Task A → Task A
  lead_step cfg tasks now t =
      if is_parent_task t && leb t.next_directive now
      then told_step cfg now (directive_for cfg tasks t) t
      else t

  -- The rows after a tick, with and without a leader.
  unfoldable pub tick_rows : Config → Option A → ℕ → List (Task A) → List (Task A)
  unfolding work_step lead_step
  tick_rows cfg none now tasks = map (work_step cfg now) tasks
  tick_rows cfg (some leader) now tasks =
      map (lead_step cfg (map (work_step cfg now) tasks) now) (map (work_step cfg now) tasks)
