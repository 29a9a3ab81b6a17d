-- ===== src/Tasks/Tick/Pointwise.antt =====
-- `tick` decides its effects first and folds them afterwards, one by one; here it is shown to be one
-- step of every row at once.
use mathlib.Core.List.{append_assoc}
use akuma_miot.Prelude.{
  ℕ, ◌+◌, ◌-◌, ◌≡◌, ◌≢◌, refl, ap, ◌∙◌, true, Option, none, some, List, [], ◌∷◌, ◌++◌, map, arith,
  All, Bool-cases, inl, inr, Option-cases,
}
use akuma_miot.Primitives.TaskId.{same}
use akuma_miot.Primitives.Vocabulary.{TaskStatus, Directive, Requeue}
use akuma_miot.Primitives.Config.{Config}
use akuma_miot.Primitives.Effect.{Effect}
use akuma_miot.Tasks.Table.{Task, TaskTable, is_parent_task, find_task, modify}
use akuma_miot.Tasks.Apply.{
  apply, apply_all, apply_requeued, assign, set_assigned, set_expired, set_reoffered, set_directed,
  set_closed, set_nudged, set_budget_spent,
}
use akuma_miot.Tasks.Update.{offer}
use akuma_miot.Tasks.Rows.{
  same_refl, Absent, Unique, Apart, with_tasks, modify_middle, find_middle, Apart-snoc, Apart-nil,
  find_self, map-Unique,
}
use akuma_miot.Tasks.Tick.{
  is_due, nag, chase, reoffer, by_status, row_effects, stage1, directive_for, due, is_exhausted,
  direct, stage2, lead, tick, after_stage1,
}
use akuma_miot.Tasks.Tick.Steps.{
  requeue_step, nag_step, chase_step, reoffer_step, status_step, work_step, lead_step, tick_rows,
}

module _ {A : Type 0} where
  pub apply_all-append :
      (s : TaskTable A) (xs ys : List (Effect A)) (now : ℕ)
      → apply_all s (xs ++ ys) now ≡ apply_all (apply_all s xs now) ys now
  unfolding apply_all
  apply_all-append s [] ys now = refl
  apply_all-append s (x ∷ xs) ys now = apply_all-append (apply s x now) xs ys now

-- One row, with the rows `xs` before it and `ys` after it.
module _ {A : Type 0} (s : TaskTable A) (now : ℕ) (xs ys : List (Task A)) where
  assigned_at :
      (to : A) (t u : Task A)
      → same u.id t.id ≡ true
      → Absent t.id xs
      → apply (with_tasks s (xs ++ u ∷ ys)) (Effect.assigned to t.id t.text t.expect) now
        ≡ with_tasks s (xs ++ set_assigned to t.text t.expect now u ∷ ys)
  unfolding apply assign
  assigned_at to t u e h =
      rw (find_middle t.id xs u ys e h, assign)
        (ap (with_tasks s) (modify_middle t.id (set_assigned to t.text t.expect now) xs u ys e h))

  -- A row that is pending since `now` takes the offer to its own assignee without a change.
  offer_at :
      (t u : Task A)
      → same u.id t.id ≡ true
      → Absent t.id xs
      → ((to : A)
          → t.assignee ≡ some to
          → ◌≡◌ {A = Task A} (set_assigned to t.text t.expect now u) u)
      → apply_all (with_tasks s (xs ++ u ∷ ys)) (offer t t.id) now ≡ with_tasks s (xs ++ u ∷ ys)
  unfolding apply_all
  offer_at t u e h k = elim (Option-cases t.assignee) [
    | inl n ↦ rw (n, offer)
    | inr (to, n) ↦
        rw (n, offer)
          (assigned_at to t u e h ∙ ap (λ (v : Task A). with_tasks s (xs ++ v ∷ ys)) (k to n))
  ]

  -- An effect that changes the row `t` by `f`.
  changed_at :
      (f : Task A → Task A) (t : Task A)
      → Absent t.id xs
      → with_tasks s (modify t.id f (xs ++ t ∷ ys)) ≡ with_tasks s (xs ++ f t ∷ ys)
  changed_at f t h = ap (with_tasks s) (modify_middle t.id f xs t ys (same_refl t.id) h)

  expired_at :
      (t : Task A)
      → Absent t.id xs
      → apply_all
          (with_tasks s (xs ++ t ∷ ys))
          (Effect.requeued t.id t.holder Requeue.lease_expired ∷ offer t t.id)
          now
        ≡ with_tasks s (xs ++ requeue_step now t ∷ ys)
  unfolding apply_all apply_requeued
  expired_at t h =
      ap (λ st. apply_all st (offer t t.id) now) (changed_at (set_expired now) t h)
      ∙ (offer_at t (requeue_step now t) (same_refl t.id) h (λ to n. ground arith))

  reoffered_at :
      (t : Task A)
      → t.status ≡ TaskStatus.pending
      → Absent t.id xs
      → apply_all
          (with_tasks s (xs ++ t ∷ ys))
          (Effect.requeued t.id none Requeue.unclaimed ∷ offer t t.id)
          now
        ≡ with_tasks s (xs ++ set_reoffered now t ∷ ys)
  unfolding apply_all apply_requeued
  reoffered_at t p h =
      ap (λ st. apply_all st (offer t t.id) now) (changed_at (set_reoffered now) t h)
      ∙ (offer_at t (set_reoffered now t) (same_refl t.id) h (λ to n. ground arith))

  nag_at :
      (t : Task A)
      → Absent t.id xs
      → apply_all (with_tasks s (xs ++ t ∷ ys)) (nag s.cfg t) now
        ≡ with_tasks s (xs ++ nag_step s.cfg now t ∷ ys)
  unfolding nag apply_all apply
  nag_at t h = ground (
    arith,
    changed_at (set_nudged s.cfg (s.cfg.timers.max_nudges - (t.nudges_used + 1)) now) t h,
    changed_at set_budget_spent t h,
  )

  chase_at :
      (t : Task A)
      → Absent t.id xs
      → apply_all (with_tasks s (xs ++ t ∷ ys)) (chase s.cfg now t) now
        ≡ with_tasks s (xs ++ chase_step s.cfg now t ∷ ys)
  unfolding chase apply_all
  chase_at t h = elim (Bool-cases (is_due now t.lease_until)) [
    | inl e ↦ rw (e, chase) (expired_at t h)
    | inr e ↦
        rw (e, chase)
          (elim (Bool-cases (is_due now t.next_nag)) [ inl d ↦ rw d (nag_at t h) | inr d ↦ rw d ])
  ]

  reoffer_at :
      (t : Task A)
      → t.status ≡ TaskStatus.pending
      → Absent t.id xs
      → apply_all (with_tasks s (xs ++ t ∷ ys)) (reoffer s.cfg now t) now
        ≡ with_tasks s (xs ++ reoffer_step s.cfg now t ∷ ys)
  unfolding reoffer apply_all
  reoffer_at t p h = ground (arith, reoffered_at t p h)

  by_status_at :
      (status : TaskStatus) (t : Task A)
      → t.status ≡ status
      → Absent t.id xs
      → apply_all (with_tasks s (xs ++ t ∷ ys)) (by_status status s.cfg now t) now
        ≡ with_tasks s (xs ++ status_step status s.cfg now t ∷ ys)
  unfolding by_status apply_all
  by_status_at TaskStatus.in_progress t e h = chase_at t h
  by_status_at TaskStatus.pending t e h = reoffer_at t e h
  by_status_at _ t e h = refl

  -- The effects of one row make its step and leave the other rows alone.
  row_at :
      (t : Task A)
      → Absent t.id xs
      → apply_all (with_tasks s (xs ++ t ∷ ys)) (row_effects s.cfg now t) now
        ≡ with_tasks s (xs ++ work_step s.cfg now t ∷ ys)
  unfolding row_effects work_step apply_all
  row_at t h = elim (Bool-cases (is_parent_task t)) [
    | inl e ↦ rw e
    | inr e ↦ rw e (by_status_at t.status t refl h)
  ]

pub work_step-id :
    {A : Type 0} (cfg : Config) (now : ℕ) (t : Task A) → (work_step cfg now t).id ≡ t.id
unfolding work_step
work_step-id cfg now t = ground arith

module _ {A : Type 0} (s : TaskTable A) (now : ℕ) where
  stage1_from :
      (xs ts : List (Task A))
      → Apart xs ts
      → Unique ts
      → apply_all (with_tasks s (xs ++ ts)) (stage1 s.cfg now ts) now
        ≡ with_tasks s (xs ++ map (work_step s.cfg now) ts)
  unfolding stage1 apply_all
  stage1_from xs [] h u = refl
  stage1_from xs (t ∷ ts) h u =
      apply_all-append (with_tasks s (xs ++ t ∷ ts)) (row_effects s.cfg now t) (stage1 s.cfg now ts)
        now
      ∙ ap (λ st. apply_all st (stage1 s.cfg now ts) now) (row_at s now xs ts t h.0)
      ∙ rw
          (
            ← append_assoc xs (t' ∷ []) ts,
            ← append_assoc xs (t' ∷ []) (map (work_step s.cfg now) ts),
          )
          (stage1_from (xs ++ t' ∷ []) ts
            (Apart-snoc xs t' ts (rw (work_step-id s.cfg now t) u.0) h.1) u.1)
    where
      t' : Task A
      t' = work_step s.cfg now t

  -- Stage 1 makes the step of every sub-task at once.
  pub stage1_lem :
      Unique s.tasks → after_stage1 s now ≡ with_tasks s (map (work_step s.cfg now) s.tasks)
  unfolding after_stage1
  stage1_lem u = stage1_from [] s.tasks (Apart-nil s.tasks) u

module _ {A : Type 0} where
  -- The table names no election among the directives that are due.
  directive_for-ne-elected :
      (cfg : Config) (tasks : List (Task A)) (t : Task A)
      → directive_for cfg tasks t ≢ some Directive.leader_elected
  unfolding directive_for
  directive_for-ne-elected cfg tasks t = ground arith

-- Stage 2, told to `leader` about the rows `all_rows`.
module _ {A : Type 0} (s : TaskTable A) (leader : A) (now : ℕ) (all_rows : List (Task A)) where
  -- What stage 2 says of one row.
  abbrev told : Task A → List (Effect A)
  told t = direct s.cfg all_rows leader (due s.cfg all_rows now (t ∷ []))

  told_at :
      (xs ys : List (Task A)) (t : Task A)
      → Absent t.id xs
      → find_task t.id all_rows ≡ some t
      → apply_all (with_tasks s (xs ++ t ∷ ys)) (told t) now
        ≡ with_tasks s (xs ++ lead_step s.cfg all_rows now t ∷ ys)
  unfolding due direct lead_step is_exhausted apply_all apply
  told_at xs ys t h f = ground (
    arith,
    changed_at s now xs ys (set_directed s.cfg now) t h,
    changed_at s now xs ys (set_closed TaskStatus.failed now) t h,
    directive_for-ne-elected s.cfg all_rows t,
  )

  pub lead_step-id : (t : Task A) → (lead_step s.cfg all_rows now t).id ≡ t.id
  unfolding lead_step
  lead_step-id t = ground arith

  due_cons :
      (t : Task A) (ts : List (Task A))
      → direct s.cfg all_rows leader (due s.cfg all_rows now (t ∷ ts))
        ≡ told t ++ direct s.cfg all_rows leader (due s.cfg all_rows now ts)
  unfolding due direct
  due_cons t ts = ground arith

  stage2_from :
      (xs ts : List (Task A))
      → Apart xs ts
      → Unique ts
      → All (λ (t : Task A). find_task t.id all_rows ≡ some t) ts
      → apply_all
          (with_tasks s (xs ++ ts))
          (direct s.cfg all_rows leader (due s.cfg all_rows now ts))
          now
        ≡ with_tasks s (xs ++ map (lead_step s.cfg all_rows now) ts)
  stage2_from xs [] h u f = unfold apply_all due direct in refl
  stage2_from xs (t ∷ ts) h u f =
      ap (λ fx. apply_all (with_tasks s (xs ++ t ∷ ts)) fx now) (due_cons t ts)
      ∙ apply_all-append (with_tasks s (xs ++ t ∷ ts)) (told t) rest now
      ∙ ap (λ st. apply_all st rest now) (told_at xs ts t h.0 f.0)
      ∙ rw
          (
            ← append_assoc xs (t' ∷ []) ts,
            ← append_assoc xs (t' ∷ []) (map (lead_step s.cfg all_rows now) ts),
          )
          (stage2_from (xs ++ t' ∷ []) ts (Apart-snoc xs t' ts (rw (lead_step-id t) u.0) h.1) u.1
            f.1)
    where
      t' : Task A
      t' = lead_step s.cfg all_rows now t

      rest : List (Effect A)
      rest = direct s.cfg all_rows leader (due s.cfg all_rows now ts)

module _ {A : Type 0} (s : TaskTable A) (now : ℕ) where
  -- The rows after stage 1.
  abbrev worked : List (Task A)
  worked = map (work_step s.cfg now) s.tasks

  stage2_lem :
      (leader : A)
      → Unique s.tasks
      → apply_all (with_tasks s worked) (stage2 (with_tasks s worked) leader now) now
        ≡ with_tasks s (map (lead_step s.cfg worked now) worked)
  unfolding stage2
  stage2_lem leader u =
      stage2_from s leader now worked [] worked (Apart-nil worked) u' (find_self worked u')
    where
      u' : Unique worked
      u' = map-Unique (work_step s.cfg now) s.tasks (work_step-id s.cfg now) u

  lead_lem :
      (o : Option A) (effects : List (Effect A))
      → Unique s.tasks
      → (lead o (with_tasks s worked) effects now).0 ≡ with_tasks s (tick_rows s.cfg o now s.tasks)
  unfolding lead tick_rows
  lead_lem none effects u = refl
  lead_lem (some leader) effects u = stage2_lem leader u

  -- A tick, which folds the effects of stage 1 and then those of stage 2 one after the other, changes
  -- the rows as `tick_rows` says of each row on its own, and nothing else of the table, provided
  -- that no two rows have one id.
  pub tick_pointwise :
      Unique s.tasks → (tick s now).0 ≡ with_tasks s (tick_rows s.cfg s.leader now s.tasks)
  unfolding tick
  tick_pointwise u =
      ap (λ (r : TaskTable A). (lead r.leader r (stage1 s.cfg now s.tasks) now).0)
        (stage1_lem s now u)
      ∙ lead_lem s.leader (stage1 s.cfg now s.tasks) u
