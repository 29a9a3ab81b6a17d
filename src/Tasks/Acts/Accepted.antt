-- ===== src/Tasks/Acts/Accepted.antt =====
-- When `open` and `reassign` of crates/miot-tasks/src/lib.rs are accepted, and what is found afterwards.
use akuma_miot.Prelude.{
  ℕ, ◌+◌, ◌≡◌, refl, ap, ◌∙◌, Bool, false, not, ◌&&◌, ◌||◌, Option, none, some, List, [], ◌∷◌,
  arith, length, leb, is_some_and, Eq, holds,
}
use akuma_miot.Primitives.Text.{Text, len}
use akuma_miot.Primitives.TaskId.{TaskId, same, same_iff, parent}
use akuma_miot.Primitives.Vocabulary.{TaskStatus, status_eq, Authority, Requeue, Error}
use akuma_miot.Primitives.Effect.{Effect}
use akuma_miot.Tasks.Table.{
  Task, TaskTable, has_status, is_parent_task, find_task, modify, subtasks,
}
use akuma_miot.Tasks.Apply.{
  apply, apply_all, apply_requeued, assign, opened_row, set_rehomed, set_assigned,
}
use akuma_miot.Tasks.Acts.{is_leader, is_root, open_task, reassign}
use akuma_miot.Tasks.Acts.Finds.{
  find-above, find-push, find-push_other, subtasks-push, find-modify_other, find-modify_same,
}
use akuma_miot.Tasks.Invariant.{IsWellFormed}
use akuma_miot.Tasks.Invariant.Verdicts.{Leaves, Leaves-ok, Leaves-guard, Leaves-ok_or}
use akuma_miot.Tasks.Update.Accepted.{is_ok}

module _ {A : Type 0} (s : TaskTable A) where
  -- A new parent: nothing had its id, and now an open task with this text and this opener has it, whom
  -- nobody answers and that nothing is part of; every other task is found as before.
  pub record Opens (who : A) (request : Text) (r : TaskId × (TaskTable A × List (Effect A)))
      : Type 0 where
    pub fresh : find_task r.0 s.tasks ≡ none
    pub task : Task A
    pub found : find_task r.0 r.1.0.tasks ≡ some task
    pub status : task.status ≡ TaskStatus.opening
    pub text : task.text ≡ request
    pub opener : task.opened_by ≡ who
    pub assignee : task.assignee ≡ none
    pub holder : task.holder ≡ none
    pub whole : subtasks r.1.0.tasks r.0 ≡ []
    pub others : (i : TaskId) → same r.0 i ≡ false → find_task i r.1.0.tasks ≡ find_task i s.tasks
    pub told : r.1.1 ≡ Effect.opened who r.0 request ∷ []

  -- A task that was there is pending, with this assignee and offered now, and holds nothing of the claim or
  -- the answer before; its text and what it expects are as they were, and so is every other task.
  pub record Moves (id : TaskId) (to : A) (now : ℕ) (r : TaskTable A × List (Effect A))
      : Type 0 where
    pub before : Task A
    pub was : find_task id s.tasks ≡ some before
    pub task : Task A
    pub found : find_task id r.0.tasks ≡ some task
    pub status : task.status ≡ TaskStatus.pending
    pub assignee : task.assignee ≡ some to
    pub holder : task.holder ≡ none
    pub lease : task.lease_until ≡ none
    pub outcome : task.outcome ≡ none
    pub offered : task.offered_at ≡ some now
    pub reoffers : task.reoffers ≡ 0
    pub text : task.text ≡ before.text
    pub expect : task.expect ≡ before.expect
    pub others : (i : TaskId) → same id i ≡ false → find_task i r.0.tasks ≡ find_task i s.tasks
    pub told :
        r.1
        ≡ Effect.rehomed id before.assignee to
          ∷ Effect.requeued id none Requeue.rehomed
          ∷ Effect.assigned to id before.text before.expect
          ∷ []

module _ {A : Type 0} (s : TaskTable A) (now : ℕ) where
  opened-Opens :
      (who : A) (text : Text)
      → IsWellFormed s
      → Opens s who text (
        parent s.next_parent,
        (
          apply_all s (Effect.opened who (parent s.next_parent) text ∷ []) now,
          Effect.opened who (parent s.next_parent) text ∷ [],
        ),
      )
  unfolding apply_all apply
  opened-Opens who text w =
      let row = opened_row who (parent s.next_parent) text now in
      record {
        fresh = find-above s.next_parent s.tasks w.below;
        task = row;
        found =
            find-push (parent s.next_parent) row s.tasks ((same_iff row.id row.id).1 refl)
              (find-above s.next_parent s.tasks w.below);
        status = refl;
        text = refl;
        opener = refl;
        assignee = refl;
        holder = refl;
        whole = subtasks-push s.next_parent row s.tasks refl w.below;
        others = λ i n. find-push_other i row s.tasks n;
        told = refl;
      }

  -- Only the root and the leader may open a task, and exactly if its text is within the limit and the
  -- table has room for it and a full plan. In a well-formed table an open that is accepted hands back an
  -- id that nothing had; an open task with this text and this opener is found by it, unassigned and
  -- without sub-tasks, every other task is found as before, and the one effect handed back says so.
  pub open_task-Opens :
      (who : A) (auth : Authority) (text : Text)
      → IsWellFormed s
      → (is_ok (open_task s who auth text now)
          ≡ (is_root auth || is_leader auth)
            && leb (len text) s.cfg.limits.max_text
            && leb (length s.tasks + 1 + s.cfg.limits.max_subtasks) s.cfg.limits.max_tasks)
        × Leaves (Opens s who text) (open_task s who auth text now)
  unfolding open_task
  open_task-Opens who auth text w = (
    ground arith,
    Leaves-guard (is_root auth || is_leader auth) Error.not_authorized _ λ _.
        Leaves-guard (leb (len text) s.cfg.limits.max_text) Error.too_long _ λ _.
          Leaves-guard (leb (length s.tasks + 1 + s.cfg.limits.max_subtasks) s.cfg.limits.max_tasks)
            Error.too_many_tasks _ λ _. Leaves-ok _ (opened-Opens who text w),
  )

module _ {A : Type 0} where
  -- A sub-task that the leader may give to somebody else: it is pending or awaits clearance.
  abbrev pub is_movable : Task A → Bool
  is_movable t =
      not (is_parent_task t)
      && (has_status TaskStatus.pending t || has_status TaskStatus.awaiting_clearance t)

module _ {A : Type 0} ⦃e : Eq A⦄ (s : TaskTable A) (now : ℕ) where
  assign-found :
      (to : A) (id : TaskId) (what expect : Text) (t : Task A) (ts : List (Task A))
      → find_task id ts ≡ some t
      → assign ts to id what expect now ≡ modify id (set_assigned to what expect now) ts
  unfolding assign
  assign-found to id what expect t ts f = rw (assign, f) refl

  -- The rows after the three effects.
  rehomed_rows :
      (id : TaskId) (from : Option A) (to : A) (t : Task A)
      → find_task id s.tasks ≡ some t
      → (apply_all s
          (Effect.rehomed id from to
            ∷ Effect.requeued id none Requeue.rehomed
            ∷ Effect.assigned to id t.text t.expect
            ∷ [])
          now).tasks
        ≡ modify id (set_assigned to t.text t.expect now) (modify id (set_rehomed to now) s.tasks)
  unfolding apply_all apply apply_requeued
  rehomed_rows id from to t f =
      assign-found to id t.text t.expect (set_rehomed to now t)
        (modify id (set_rehomed to now) s.tasks)
        (find-modify_same id (set_rehomed to now) t s.tasks (λ u. refl) f)

  moved-Moves :
      (id : TaskId) (to : A) (t : Task A) (r : TaskTable A)
      → find_task id s.tasks ≡ some t
      → r.tasks
        ≡ modify id (set_assigned to t.text t.expect now) (modify id (set_rehomed to now) s.tasks)
      → Moves s id to now (
        r,
        Effect.rehomed id t.assignee to
            ∷ Effect.requeued id none Requeue.rehomed
            ∷ Effect.assigned to id t.text t.expect
            ∷ [],
      )
  moved-Moves id to t r f rows = record {
    before = t;
    was = f;
    task = set_assigned to t.text t.expect now (set_rehomed to now t);
    found =
        ap (find_task id) rows
        ∙ find-modify_same id (set_assigned to t.text t.expect now) (set_rehomed to now t)
            (modify id (set_rehomed to now) s.tasks) (λ u. refl)
            (find-modify_same id (set_rehomed to now) t s.tasks (λ u. refl) f);
    status = refl;
    assignee = refl;
    holder = refl;
    lease = refl;
    outcome = refl;
    offered = refl;
    reoffers = refl;
    told = refl;
    text = refl;
    expect = refl;
    others = λ i n.
        ap (find_task i) rows
        ∙ find-modify_other id i (set_assigned to t.text t.expect now)
            (modify id (set_rehomed to now) s.tasks) (λ u. refl) n
        ∙ find-modify_other id i (set_rehomed to now) s.tasks (λ u. refl) n;
  }

  reassign-accepted :
      (who : A) (auth : Authority) (id : TaskId) (to : A)
      → is_ok (reassign s who auth id to now)
        ≡ is_leader auth && not (holds s.root to) && is_some_and is_movable (find_task id s.tasks)
  unfolding reassign status_eq
  reassign-accepted who auth id to = ground arith

  reassign-moved :
      (who : A) (auth : Authority) (id : TaskId) (to : A)
      → Leaves (Moves s id to now) (reassign s who auth id to now)
  unfolding reassign
  reassign-moved who auth id to = Leaves-guard (is_leader auth) Error.not_authorized _ λ _.
      Leaves-guard (not (holds s.root to)) Error.root_not_assignable _ λ _.
        Leaves-ok_or (find_task id s.tasks) Error.no_such_task _ λ t f.
          Leaves-guard (not (is_parent_task t)) Error.wrong_kind _ λ _.
            Leaves-guard
              (has_status TaskStatus.pending t || has_status TaskStatus.awaiting_clearance t)
              Error.wrong_status _
              λ _. Leaves-ok _ (moved-Moves id to t _ f (rehomed_rows id t.assignee to t f))

  -- The leader, and nobody else, may give a sub-task that is pending or awaits clearance to anybody but
  -- the root, and every other attempt is refused. After a reassignment that is accepted the task is
  -- pending, assigned to the account named and offered at this block with no offer repeated; its holder,
  -- its lease and its outcome are gone, its text and what it expects are kept, and every other task is
  -- found as before. The effects handed back name the assignee before and the one after.
  pub reassign-Moves :
      (who : A) (auth : Authority) (id : TaskId) (to : A)
      → (is_ok (reassign s who auth id to now)
          ≡ is_leader auth
            && not (holds s.root to)
            && is_some_and is_movable (find_task id s.tasks))
        × Leaves (Moves s id to now) (reassign s who auth id to now)
  reassign-Moves who auth id to = (reassign-accepted who auth id to, reassign-moved who auth id to)
