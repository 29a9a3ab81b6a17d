-- ===== src/Tasks/Invariant/Opens.antt =====
-- `open`, `plan`, `set_leader`, `clear_all`, `publish_standalone_artifact`, `say` and `gc` keep a table
-- well formed (crates/miot-tasks/src/lib.rs).
use akuma_miot.Prelude.{
  ℕ, ◌+◌, ◌<◌, ◌≡◌, refl, sym, subst, ap, ◌∙◌, true, false, not, ◌||◌, Option, none, some, List, [],
  ◌∷◌, ◌++◌, map, arith, any, All, length, leb, is_empty, Bool-cases, inl, inr, Eq, holds, ok,
}
use akuma_miot.Primitives.Words.{wrap_u32, u32_max}
use akuma_miot.Primitives.Text.{Text, len}
use akuma_miot.Primitives.TaskId.{TaskId, parent, same, is_parent, same_iff}
use akuma_miot.Primitives.Vocabulary.{TaskStatus, PlanItem, Authority, Error}
use akuma_miot.Primitives.Effect.{Effect}
use akuma_miot.Tasks.Table.{
  Task, TaskTable, is_parent_task, is_subtask_of, has_status, find_task, modify,
}
use akuma_miot.Tasks.Apply.{opened_row, apply_all, set_planned, rearm_parent, apply_directed}
use akuma_miot.Tasks.Acts.{
  is_root, is_leader, open_task, plan, plan_effects, check_items, check_unsplit, set_leader,
}
use akuma_miot.Tasks.Rows.{Absent, with_tasks}
use akuma_miot.Tasks.Invariant.{RowIsOk, is_unsplit, HasNoSubtasks, IsWellFormed}
use akuma_miot.Tasks.Invariant.Changes.{
  All-find, same-find, modify-IsWellFormed, map-IsWellFormed, subtasks-modify,
}
use akuma_miot.Tasks.Invariant.RowChanges.{planned-RowIsOk, rearmed-RowIsOk}
use akuma_miot.Tasks.Invariant.Pushes.{
  push-IsWellFormed, plan_rows, plan_effects_lem, plan_rows-IsWellFormed, SubsUpTo-none,
  Others-planned,
}
use akuma_miot.Tasks.Invariant.Verdicts.{Leaves, Leaves-ok, Leaves-check, Leaves-guard}

module _ {A : Type 0} (s : TaskTable A) (w : IsWellFormed s) (now : ℕ) where
  above-Absent :
      (m : ℕ) (ts : List (Task A)) → All (λ (t : Task A). t.id.parent < m) ts → Absent (parent m) ts
  unfolding same
  above-Absent m [] h = tt
  above-Absent m (t ∷ ts) h = (ground arith, above-Absent m ts h.1)

  above-subtasks :
      (m : ℕ) (ts : List (Task A))
      → All (λ (t : Task A). t.id.parent < m) ts
      → any (is_subtask_of m) ts ≡ false
  unfolding any
  above-subtasks m [] h = refl
  above-subtasks m (t ∷ ts) h = ground (arith, above-subtasks m ts h.1)

  -- The row that `open` adds.
  pub opened-IsWellFormed :
      (who : A) (text : Text)
      → s.next_parent < u32_max
      → IsWellFormed (apply_all s (Effect.opened who (parent s.next_parent) text ∷ []) now)
  unfolding apply_all
  opened-IsWellFormed who text lt =
      push-IsWellFormed s _ (opened_row who (parent s.next_parent) text now) w (omega arith)
        (above-Absent s.next_parent s.tasks w.below) (ground arith) (omega arith) (go s.tasks)
        (λ q. above-subtasks s.next_parent s.tasks w.below)
    where
      go :
          (ts : List (Task A))
          → All
              (λ (u : Task A).
                is_unsplit u ≡ true
                → is_subtask_of u.id.parent (opened_row who (parent s.next_parent) text now)
                  ≡ false)
              ts
      go [] = tt
      go (t ∷ ts) = ((λ q. ground arith), go ts)

  is_unsplit_of :
      (p : ℕ) (t : Task A)
      → t.id ≡ parent p
      → has_status TaskStatus.opening t ≡ true
      → is_unsplit t ≡ true
  is_unsplit_of p t e st = rw (e, st)

  -- The rows of a plan, once its parent `p` is found unsplit.
  pub planned_tasks :
      (who : A) (p : ℕ) (count : ℕ) (items : List (PlanItem A))
      → any (is_subtask_of p) s.tasks ≡ false
      → length items < 65536
      → apply_all s (Effect.planned who (parent p) count ∷ plan_effects p 0 items) now
        ≡ with_tasks s
            (modify (parent p) (set_planned s.cfg now) s.tasks ++ plan_rows p 0 items now)
  unfolding apply_all
  planned_tasks who p count items none_yet lt =
      plan_effects_lem s (modify (parent p) (set_planned s.cfg now) s.tasks) p 0 items now
        (SubsUpTo-none p _
          (subtasks-modify (parent p) (set_planned s.cfg now) (λ u. refl) p s.tasks ∙ none_yet))
        (omega arith)

  -- An unsplit parent that is found has no sub-tasks.
  pub found_unsplit :
      (p : ℕ) (t : Task A)
      → find_task (parent p) s.tasks ≡ some t
      → has_status TaskStatus.opening t ≡ true
      → any (is_subtask_of p) s.tasks ≡ false
  found_unsplit p t f st =
      let e = (same_iff t.id (parent p)).0 (same-find (parent p) t s.tasks f) in
      subst (λ i. any (is_subtask_of i.parent) s.tasks ≡ false) e
        (All-find (HasNoSubtasks s.tasks) (parent p) t s.tasks f w.unsplit (is_unsplit_of p t e st))

  planned-IsWellFormed :
      (who : A) (p : ℕ) (t : Task A) (count : ℕ) (items : List (PlanItem A))
      → find_task (parent p) s.tasks ≡ some t
      → has_status TaskStatus.opening t ≡ true
      → length items < 65536
      → IsWellFormed
          (apply_all s (Effect.planned who (parent p) count ∷ plan_effects p 0 items) now)
  planned-IsWellFormed who p t count items f st lt =
      subst IsWellFormed (sym (planned_tasks who p count items none_yet lt)) (
        plan_rows-IsWellFormed s ts p 0 items now
          (modify-IsWellFormed (parent p) (set_planned s.cfg now) (λ u. refl) s t f
            (planned-RowIsOk s.cfg now t (ap (λ i. is_parent i) e)
              (All-find (RowIsOk s.cfg) (parent p) t s.tasks f w.rows))
            (λ q. is_unsplit_of p t e st) w)
          (SubsUpTo-none p ts
            (subtasks-modify (parent p) (set_planned s.cfg now) (λ u. refl) p s.tasks ∙ none_yet))
          (Others-planned s.cfg p now s.tasks w.unique)
          (subst (λ i. i.parent < s.next_parent) e
            (All-find (λ (u : Task A). u.id.parent < s.next_parent) (parent p) t s.tasks f
              w.below)))
    where
      ts : List (Task A)
      ts = modify (parent p) (set_planned s.cfg now) s.tasks

      e : t.id ≡ parent p
      e = (same_iff t.id (parent p)).0 (same-find (parent p) t s.tasks f)

      none_yet : any (is_subtask_of p) s.tasks ≡ false
      none_yet = found_unsplit p t f st

  pub unsplit_row :
      (o : Option (Task A))
      → check_unsplit o ≡ ok tt
      → (t : Task A) × (o ≡ some t) × (has_status TaskStatus.opening t ≡ true)
  unfolding check_unsplit
  unsplit_row none h = cc
  unsplit_row (some t) h = (t, refl, ground arith)

pub parent_eta : (id : TaskId) → is_parent id ≡ true → parent id.parent ≡ id
parent_eta id p = ground arith

module _ {A : Type 0} (s : TaskTable A) (w : IsWellFormed s) (now : ℕ) where
  -- Opening a task, accepted or refused, leaves a well-formed table, while numbers of parents are left.
  pub open_task-IsWellFormed :
      (who : A) (auth : Authority) (text : Text)
      → s.next_parent < u32_max
      → Leaves (λ r. IsWellFormed r.1.0) (open_task s who auth text now)
  unfolding open_task
  open_task-IsWellFormed who auth text lt =
      Leaves-guard (is_root auth || is_leader auth) Error.not_authorized _ λ _.
        Leaves-guard (leb (len text) s.cfg.limits.max_text) Error.too_long _ λ _.
          Leaves-guard (leb (length s.tasks + 1 + s.cfg.limits.max_subtasks) s.cfg.limits.max_tasks)
            Error.too_many_tasks _ λ _. Leaves-ok _ (opened-IsWellFormed s w now who text lt)

module _ {A : Type 0} ⦃e : Eq A⦄ (s : TaskTable A) (w : IsWellFormed s) (now : ℕ) where
  -- A plan, accepted or refused, leaves a well-formed table, if the limit on the items of a plan keeps
  -- the number of a sub-task within a `u16`.
  pub plan-IsWellFormed :
      (who : A) (auth : Authority) (id : TaskId) (items : List (PlanItem A))
      → s.cfg.limits.max_subtasks < 65536
      → Leaves (λ r. IsWellFormed r.0) (plan s who auth id items now)
  unfolding plan
  plan-IsWellFormed who auth id items lt = Leaves-guard (is_leader auth) Error.not_authorized _ λ _.
      Leaves-guard (is_parent id) Error.wrong_kind _ λ p.
        Leaves-guard (not (is_empty items)) Error.empty_plan _ λ _.
          Leaves-guard (leb (length items) s.cfg.limits.max_subtasks) Error.too_many_subtasks _
            λ few. Leaves-check (check_items s.cfg.limits s.root items) _ λ _.
              Leaves-check (check_unsplit (find_task id s.tasks)) _ λ fresh. Leaves-ok _ (
                subst
                  (λ i. IsWellFormed (
                    apply_all s
                      (Effect.planned who i (wrap_u32 (length items))
                        ∷ plan_effects i.parent 0 items)
                      now))
                  (parent_eta id p)
                  (let (t, f, st) = unsplit_row s w now (find_task id s.tasks) fresh in
                    planned-IsWellFormed s w now who id.parent t (wrap_u32 (length items)) items
                      (subst (λ i. find_task i s.tasks ≡ some t) (sym (parent_eta id p)) f) st
                      (ground arith)))

  -- An election re-arms the parents and keeps the rest.
  pub set_leader-IsWellFormed : (who : A) → IsWellFormed (set_leader s who now).0
  unfolding set_leader apply_directed
  set_leader-IsWellFormed who = elim (Bool-cases (holds s.leader who)) [
    | inl y ↦ rw y w
    | inr n ↦ rw n (
        again
          (map-IsWellFormed (rearm_parent now) (λ u. ground arith) s fine (λ u q. ground arith) w))
  ]
    where
      fine : (u : Task A) → RowIsOk s.cfg u → RowIsOk s.cfg (rearm_parent now u)
      fine u h = elim (Bool-cases (is_parent_task u)) [
        | inl y ↦ rw y (rearmed-RowIsOk s.cfg now u h)
        | inr n ↦ rw n h
      ]

      again :
          IsWellFormed (with_tasks s (map (rearm_parent now) s.tasks))
          → IsWellFormed (record s { leader = some who; tasks = map (rearm_parent now) s.tasks })
      again v = record { unique = v.unique; rows = v.rows; below = v.below; unsplit = v.unsplit }
