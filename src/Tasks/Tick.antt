-- ===== src/Tasks/Tick.antt =====
-- `TaskTable::tick` of crates/miot-tasks/src/lib.rs: every deadline that has passed is resolved, the
-- rows of sub-tasks first and the directives to the leader after.
pub mod Steps
pub mod Pointwise
pub mod Quiet
use akuma_miot.Prelude.{
  ℕ, ◌+◌, ◌-◌, Bool, not, ◌&&◌, Option, none, some, List, [], ◌∷◌, ◌++◌, leb, ltb, ◌==◌,
  if◌then◌else◌, is_some_and, any, all, is_empty,
}
use akuma_miot.Primitives.Words.{saturating_add_u32}
use akuma_miot.Primitives.TaskId.{TaskId}
use akuma_miot.Primitives.Vocabulary.{TaskStatus, Directive, Requeue}
use akuma_miot.Primitives.Config.{Config}
use akuma_miot.Primitives.Effect.{Effect}
use akuma_miot.Tasks.Table.{
  Task, TaskTable, is_parent_task, has_status, is_cleared, find_task, subtasks,
}
use akuma_miot.Tasks.Apply.{apply_all}
use akuma_miot.Tasks.Update.{offer}

-- `deadline.is_some_and(|d| now >= d)`
abbrev pub is_due : ℕ → Option ℕ → Bool
is_due now deadline = is_some_and (λ d. leb d now) deadline

module _ {ℓ} {A : Type ℓ} where
  -- A holder past its nag time is nudged while the budget lasts; then the table says so, once.
  unfoldable pub nag : Config → Task A → List (Effect A)
  nag cfg t = elim t.holder [
    | none ↦ []
    | some holder ↦
        if ltb t.nudges_used cfg.timers.max_nudges
        then (let remaining = cfg.timers.max_nudges - (t.nudges_used + 1) in
            Effect.nudge holder t.id remaining (remaining == 0) ∷ [])
        else if not t.budget_announced
        then Effect.nudge_budget_spent holder t.id ∷ []
        else []
  ]

  -- The arm of a sub-task in progress.
  unfoldable pub chase : Config → ℕ → Task A → List (Effect A)
  unfolding nag
  chase cfg now t =
      if is_due now t.lease_until
      then Effect.requeued t.id t.holder Requeue.lease_expired ∷ offer t t.id
      else if is_due now t.next_nag
      then nag cfg t
      else []

  -- The arm of a pending sub-task: an offer that nobody took in time is made again, a few times.
  unfoldable pub reoffer : Config → ℕ → Task A → List (Effect A)
  reoffer cfg now t =
      if ltb t.reoffers cfg.timers.max_reoffers
        && is_some_and (λ o. leb (saturating_add_u32 o cfg.timers.claim_window) now) t.offered_at
      then Effect.requeued t.id none Requeue.unclaimed ∷ offer t t.id
      else []

  unfoldable pub by_status : TaskStatus → Config → ℕ → Task A → List (Effect A)
  unfolding chase reoffer
  by_status TaskStatus.in_progress cfg now t = chase cfg now t
  by_status TaskStatus.pending cfg now t = reoffer cfg now t
  by_status _ cfg now t = []

  unfoldable pub row_effects : Config → ℕ → Task A → List (Effect A)
  unfolding by_status
  row_effects cfg now t = if is_parent_task t then [] else by_status t.status cfg now t

  -- Stage 1: the effects of every sub-task, read off the table before any is applied.
  unfoldable pub stage1 : Config → ℕ → List (Task A) → List (Effect A)
  unfolding row_effects
  stage1 cfg now [] = []
  stage1 cfg now (t ∷ ts) = row_effects cfg now t ++ stage1 cfg now ts

  -- A sub-task whose offers are used up, so that only the leader can move it.
  abbrev pub is_stuck : Config → Task A → Bool
  is_stuck cfg t = has_status TaskStatus.pending t && leb cfg.timers.max_reoffers t.reoffers

  -- The directive of a split parent, from its sub-tasks.
  unfoldable pub directive_of : Config → List (Task A) → Option Directive
  unfolding any all
  directive_of cfg subs =
      if is_empty subs
      then none
      else if any (is_stuck cfg) subs
      then some Directive.reassign_needed
      else if any (has_status TaskStatus.awaiting_clearance) subs
      then some Directive.clearance_needed
      else if all is_cleared subs
      then some Directive.artifact_needed
      else none

  unfoldable pub directive_by_status :
      TaskStatus → Config → List (Task A) → Task A → Option Directive
  unfolding directive_of subtasks
  directive_by_status TaskStatus.opening cfg tasks t = some Directive.plan_needed
  directive_by_status TaskStatus.planned cfg tasks t = directive_of cfg (subtasks tasks t.id)
  directive_by_status _ cfg tasks t = none

  unfoldable pub directive_for : Config → List (Task A) → Task A → Option Directive
  unfolding directive_by_status
  directive_for cfg tasks t = directive_by_status t.status cfg tasks t

  -- `due`: the parents whose directive is to be said now, with it.
  unfoldable pub due : Config → List (Task A) → ℕ → List (Task A) → List (TaskId × Directive)
  due cfg tasks now [] = []
  due cfg tasks now (t ∷ ts) =
      let rest = due cfg tasks now ts in
      if is_parent_task t && leb t.next_directive now
      then elim (directive_for cfg tasks t) [ none ↦ rest | some d ↦ (t.id, d) ∷ rest ]
      else rest

  -- The directive budget of this parent is spent.
  unfoldable pub is_exhausted : Config → List (Task A) → TaskId → Bool
  unfolding find_task
  is_exhausted cfg tasks id =
      is_some_and (λ (p : Task A). leb cfg.timers.max_directive_nudges p.directive_nudges_used)
        (find_task id tasks)

  unfoldable pub direct : Config → List (Task A) → A → List (TaskId × Directive) → List (Effect A)
  direct cfg tasks leader [] = []
  direct cfg tasks leader ((id, d) ∷ rest) =
      (if is_exhausted cfg tasks id then Effect.failed id else Effect.directed leader id d)
      ∷ direct cfg tasks leader rest

  -- Stage 2: what the leader is told, read off the table that stage 1 left.
  unfoldable pub stage2 : TaskTable A → A → ℕ → List (Effect A)
  unfolding due direct
  stage2 s leader now = direct s.cfg s.tasks leader (due s.cfg s.tasks now s.tasks)

  unfoldable pub after_stage1 : TaskTable A → ℕ → TaskTable A
  unfolding stage1 apply_all
  after_stage1 s now = apply_all s (stage1 s.cfg now s.tasks) now

  -- Stage 2, if there is a leader to tell.
  unfoldable pub lead : Option A → TaskTable A → List (Effect A) → ℕ → TaskTable A × List (Effect A)
  unfolding stage2
  lead none s' effects now = (s', effects)
  lead (some leader) s' effects now =
      (apply_all s' (stage2 s' leader now) now, effects ++ stage2 s' leader now)

  unfoldable pub tick : TaskTable A → ℕ → TaskTable A × List (Effect A)
  unfolding after_stage1 lead
  tick s now = let s' = after_stage1 s now in lead s'.leader s' (stage1 s.cfg now s.tasks) now
