-- ===== src/Tasks/Tick/Quiet.antt =====
-- Two ticks in one block (`TaskTable::tick` of crates/miot-tasks/src/lib.rs).
use akuma_miot.Prelude.{
  ℕ, ◌<◌, ◌≡◌, refl, ap, ◌∙◌, true, false, ◌&&◌, Option, none, some, List, [], ◌∷◌, map, arith, All,
  leb, keep, Bool-cases, inl, inr,
}
use akuma_miot.Primitives.Words.{u32_max}
use akuma_miot.Primitives.TaskId.{TaskId}
use akuma_miot.Primitives.Config.{Config}
use akuma_miot.Tasks.Table.{Task, TaskTable, is_parent_task, subtasks}
use akuma_miot.Tasks.Apply.{apply_all}
use akuma_miot.Tasks.Rows.{with_tasks, Unique}
use akuma_miot.Tasks.Tick.{
  nag, chase, reoffer, by_status, row_effects, stage1, directive_by_status, directive_for, due,
  direct, stage2, lead, tick, after_stage1,
}
use akuma_miot.Tasks.Tick.Steps.{status_step, work_step, lead_step, tick_rows}
use akuma_miot.Tasks.Tick.Pointwise.{tick_pointwise}

-- Every period of the configuration is at least a block, and the clock has not run out.
abbrev pub HasPeriods : Config → ℕ → Type 0
HasPeriods cfg now =
    (0 < cfg.timers.claim_window)
    × (0 < cfg.timers.work_nag)
    × (0 < cfg.timers.directive_nag)
    × (now < u32_max)

module _ {A : Type 0} (cfg : Config) (now : ℕ) (h : HasPeriods cfg now) where
  status_step-quiet :
      (t : Task A)
      → is_parent_task t ≡ false
      → row_effects cfg now (status_step t.status cfg now t) ≡ []
  unfolding row_effects by_status chase reoffer nag
  status_step-quiet t p = ground (arith, h)

  work_step-quiet : (t : Task A) → row_effects cfg now (work_step cfg now t) ≡ []
  unfolding work_step row_effects
  work_step-quiet t = elim (Bool-cases (is_parent_task t)) [
    | inl y ↦ rw (y, y)
    | inr n ↦ rw n (status_step-quiet t n)
  ]

  stage1-quiet :
      (ts : List (Task A)) → All (λ t. row_effects cfg now t ≡ []) ts → stage1 cfg now ts ≡ []
  unfolding stage1
  stage1-quiet [] k = refl
  stage1-quiet (t ∷ ts) k = rw (k.0, stage1-quiet ts k.1)

  -- A row that says nothing in stage 1 stays as it is.
  quiet-work_step :
      (t : Task A) → row_effects cfg now t ≡ [] → ◌≡◌ {A = Task A} (work_step cfg now t) t
  unfolding work_step row_effects by_status chase reoffer nag
  quiet-work_step t k = ground (arith, h)

  quiet-map :
      (ts : List (Task A))
      → All (λ t. row_effects cfg now t ≡ []) ts
      → map (work_step cfg now) ts ≡ ts
  quiet-map [] k = refl
  quiet-map (t ∷ ts) k =
      ap (λ u. u ∷ map (work_step cfg now) ts) (quiet-work_step t k.0)
      ∙ ap (λ us. t ∷ us) (quiet-map ts k.1)

  -- Stage 2 changes no sub-task.
  lead_step-subtasks :
      (tasks ts : List (Task A)) (id : TaskId)
      → subtasks (map (lead_step cfg tasks now) ts) id ≡ subtasks ts id
  unfolding subtasks keep lead_step
  lead_step-subtasks tasks [] id = refl
  lead_step-subtasks tasks (t ∷ ts) id = ground (arith, lead_step-subtasks tasks ts id)

  directive_for-lead_step :
      (tasks ts : List (Task A)) (t : Task A)
      → directive_for cfg (map (lead_step cfg tasks now) ts) t ≡ directive_for cfg ts t
  unfolding directive_for directive_by_status
  directive_for-lead_step tasks ts t = ground (arith, lead_step-subtasks tasks ts t.id)

  -- A parent after stage 2 has nothing more to ask for in this block.
  abbrev IsTold : List (Task A) → Task A → Type 0
  IsTold tasks t =
      is_parent_task t && leb t.next_directive now ≡ true → directive_for cfg tasks t ≡ none

  lead_step-IsTold : (tasks : List (Task A)) (t : Task A) → IsTold tasks (lead_step cfg tasks now t)
  unfolding lead_step directive_for directive_by_status
  lead_step-IsTold tasks t q = ground (arith, h)

  due-nil : (tasks ts : List (Task A)) → All (IsTold tasks) ts → due cfg tasks now ts ≡ []
  unfolding due
  due-nil tasks [] k = refl
  due-nil tasks (t ∷ ts) k = ground (arith, k.0, due-nil tasks ts k.1)

  -- Stage 2 gives a sub-task nothing to say, and a parent says nothing in stage 1.
  lead_step-quiet :
      (tasks : List (Task A)) (t : Task A)
      → row_effects cfg now t ≡ []
      → row_effects cfg now (lead_step cfg tasks now t) ≡ []
  unfolding lead_step row_effects
  lead_step-quiet tasks t k = ground (arith, k)

  worked-quiet :
      (ts : List (Task A)) → All (λ t. row_effects cfg now t ≡ []) (map (work_step cfg now) ts)
  worked-quiet [] = tt
  worked-quiet (t ∷ ts) = (work_step-quiet t, worked-quiet ts)

  told-quiet :
      (tasks ts : List (Task A))
      → All (λ t. row_effects cfg now t ≡ []) ts
      → All (λ t. row_effects cfg now t ≡ []) (map (lead_step cfg tasks now) ts)
  told-quiet tasks [] k = tt
  told-quiet tasks (t ∷ ts) k = (lead_step-quiet tasks t k.0, told-quiet tasks ts k.1)

  -- Nothing is due after stage 2, read off the table that it leaves.
  rows-IsTold :
      (tasks ts : List (Task A))
      → All (IsTold (map (lead_step cfg tasks now) tasks)) (map (lead_step cfg tasks now) ts)
  rows-IsTold tasks [] = tt
  rows-IsTold tasks (t ∷ ts) = (
    λ q.
        directive_for-lead_step tasks tasks (lead_step cfg tasks now t)
        ∙ lead_step-IsTold tasks t q,
    rows-IsTold tasks ts,
  )

module _ {A : Type 0} (now : ℕ) where
  after_stage1-quiet :
      (s : TaskTable A)
      → HasPeriods s.cfg now
      → All (λ t. row_effects s.cfg now t ≡ []) s.tasks
      → after_stage1 s now ≡ s
  unfolding after_stage1 apply_all
  after_stage1-quiet s h k = ap (λ fx. apply_all s fx now) (stage1-quiet s.cfg now h s.tasks k)

  no_leader-quiet :
      (s : TaskTable A)
      → HasPeriods s.cfg now
      → All (λ t. row_effects s.cfg now t ≡ []) s.tasks
      → s.leader ≡ none
      → (tick s now).1 ≡ []
  unfolding tick lead
  no_leader-quiet s h k l =
      ap (λ (r : TaskTable A). (lead r.leader r (stage1 s.cfg now s.tasks) now).1)
        (after_stage1-quiet s h k)
      ∙ ap (λ o. (lead o s (stage1 s.cfg now s.tasks) now).1) l
      ∙ stage1-quiet s.cfg now h s.tasks k

  leader-quiet :
      (s : TaskTable A) (leader : A) (h : HasPeriods s.cfg now)
      → All (λ t. row_effects s.cfg now t ≡ []) s.tasks
      → All (IsTold s.cfg now h s.tasks) s.tasks
      → s.leader ≡ some leader
      → (tick s now).1 ≡ []
  unfolding tick lead stage2 direct
  leader-quiet s leader h k told l =
      ap (λ (r : TaskTable A). (lead r.leader r (stage1 s.cfg now s.tasks) now).1)
        (after_stage1-quiet s h k)
      ∙ ap (λ o. (lead o s (stage1 s.cfg now s.tasks) now).1) l
      ∙ rw (stage1-quiet s.cfg now h s.tasks k, due-nil s.cfg now h s.tasks s.tasks told)

  rows-quiet :
      (s : TaskTable A) (o : Option A)
      → HasPeriods s.cfg now
      → s.leader ≡ o
      → (tick (with_tasks s (tick_rows s.cfg o now s.tasks)) now).1 ≡ []
  unfolding tick_rows
  rows-quiet s none h l =
      no_leader-quiet (with_tasks s (tick_rows s.cfg none now s.tasks)) h
        (worked-quiet s.cfg now h s.tasks) l
  rows-quiet s (some leader) h l =
      leader-quiet (with_tasks s (tick_rows s.cfg (some leader) now s.tasks)) leader h
        (told-quiet s.cfg now h ts ts (worked-quiet s.cfg now h s.tasks))
        (rows-IsTold s.cfg now h ts ts) l
    where
      ts : List (Task A)
      ts = map (work_step s.cfg now) s.tasks

  -- A second tick in the same block says nothing, so every deadline that a tick finds passed is dealt
  -- with once: if no two rows have one id, no period is 0 and the clock has not run out.
  pub tick-tick :
      (s : TaskTable A) → HasPeriods s.cfg now → Unique s.tasks → (tick (tick s now).0 now).1 ≡ []
  tick-tick s h u =
      ap (λ (r : TaskTable A). (tick r now).1) (tick_pointwise s now u)
      ∙ rows-quiet s s.leader h refl
