-- ===== src/Tasks/Invariant/Updates.antt =====
-- Every act under `update`, and `reassign`, keeps a table well formed
-- (crates/miot-tasks/src/lib.rs).
use akuma_miot.Prelude.{
  ℕ, ◌≡◌, refl, sym, subst, Bool, true, false, not, ◌||◌, Option, none, some, List, arith, Eq,
  holds, leb, ok, any,
}
use akuma_miot.Primitives.TaskId.{TaskId, parent_id, is_parent, same_iff}
use akuma_miot.Primitives.Text.{Text, len}
use akuma_miot.Primitives.Vocabulary.{
  TaskStatus, status_eq, status_sound, Error, Outcome, Authority, Artifact, Act,
}
use akuma_miot.Tasks.Table.{
  Task, TaskTable, find_task, modify, is_parent_task, has_status, subtasks, is_cleared,
}
use akuma_miot.Tasks.Apply.{
  apply_all, assign, set_claimed, set_nudged, set_submitted, set_cleared, set_reopened, set_rehomed,
  set_assigned, rearm, set_closed,
}
use akuma_miot.Tasks.Rows.{with_tasks}
use akuma_miot.Tasks.Acts.{is_leader, reassign}
use akuma_miot.Tasks.Update.{
  claim, submit, clear, reopen, commit_artifact, update, offer, check_claimable, check_submittable,
  check_planned,
}
use akuma_miot.Tasks.Invariant.{RowIsOk, is_unsplit, IsWellFormed}
use akuma_miot.Tasks.Invariant.Changes.{
  All-find, find-modify, same-find, modify-IsWellFormed, touch-IsWellFormed,
}
use akuma_miot.Tasks.Invariant.RowChanges.{
  claimed-RowIsOk, nudged-RowIsOk, submitted-RowIsOk, cleared-RowIsOk, reopened-RowIsOk,
  rehomed-RowIsOk, assigned-RowIsOk, rearmed-RowIsOk, closed-RowIsOk,
}
use akuma_miot.Tasks.Invariant.Verdicts.{
  Leaves, Leaves-ok, Leaves-check, Leaves-guard, Leaves-ok_or,
}

pub not-true : (b : Bool) → not b ≡ true → b ≡ false
not-true b h = ground arith

module _ {A : Type 0} (s : TaskTable A) (w : IsWellFormed s) (id : TaskId) where
  pub row_of : (t : Task A) → find_task id s.tasks ≡ some t → RowIsOk s.cfg t
  row_of t f = All-find (RowIsOk s.cfg) id t s.tasks f w.rows

  -- A found sub-task, changed so that it is in order.
  pub change :
      (f : Task A → Task A) (t : Task A)
      → ((u : Task A) → (f u).id ≡ u.id)
      → find_task id s.tasks ≡ some t
      → RowIsOk s.cfg (f t)
      → is_parent_task t ≡ false
      → IsWellFormed (with_tasks s (modify id f s.tasks))
  change f t k e fine sub = modify-IsWellFormed id f k s t e fine (back (f t) (k t)) w
    where
      back : (u : Task A) → u.id ≡ t.id → is_unsplit u ≡ true → is_unsplit t ≡ true
      back u q h = let h' = rw (q, sub) at h in cc

  -- The parent of a sub-task is told again.
  pub rearm_at : (now : ℕ) → IsWellFormed (with_tasks s (modify id (rearm now) s.tasks))
  rearm_at now =
      touch-IsWellFormed id (rearm now) (λ u. refl) s (rearmed-RowIsOk s.cfg now) (λ u h. h) w

module _ {A : Type 0} where
  -- An offer of a row that is there changes that row.
  assign-found :
      (ts : List (Task A)) (to : A) (id : TaskId) (what expect : Text) (now : ℕ) (t : Task A)
      → find_task id ts ≡ some t
      → assign ts to id what expect now ≡ modify id (set_assigned to what expect now) ts
  unfolding assign
  assign-found ts to id what expect now t e = rw (e, assign)

  pub assign-IsWellFormed :
      (s : TaskTable A) (to : A) (id : TaskId) (what expect : Text) (now : ℕ) (t : Task A)
      → IsWellFormed s
      → find_task id s.tasks ≡ some t
      → is_parent_task t ≡ false
      → t.status ≡ TaskStatus.pending
      → IsWellFormed (with_tasks s (assign s.tasks to id what expect now))
  assign-IsWellFormed s to id what expect now t w e sub st =
      subst (λ ts. IsWellFormed (with_tasks s ts))
        (sym (assign-found s.tasks to id what expect now t e))
        (change s w id (set_assigned to what expect now) t (λ u. refl) e
          (assigned-RowIsOk s.cfg t (row_of s w id t e) sub to what expect now st) sub)

module _ {A : Type 0} (s : TaskTable A) (w : IsWellFormed s) (id : TaskId) (now : ℕ) where
  submitted :
      (who : A) (o : Outcome) (t : Task A)
      → find_task id s.tasks ≡ some t
      → is_parent_task t ≡ false
      → IsWellFormed (
          with_tasks s
            (modify (parent_id id) (rearm now) (modify id (set_submitted who o) s.tasks)))
  submitted who o t f sub =
      rearm_at (with_tasks s (modify id (set_submitted who o) s.tasks))
        (change s w id (set_submitted who o) t (λ u. refl) f
          (submitted-RowIsOk s.cfg t (row_of s w id t f) sub who o) sub)
        (parent_id id) now

  offered :
      (t : Task A) (o : Option A) (v : Task A) (r : TaskTable A)
      → IsWellFormed r
      → find_task id r.tasks ≡ some v
      → is_parent_task v ≡ false
      → v.status ≡ TaskStatus.pending
      → t.assignee ≡ o
      → IsWellFormed (apply_all r (offer t id) now)
  unfolding apply_all
  offered t none v r wr e sub st q = rw (q, offer) wr
  offered t (some to) v r wr e sub st q =
      rw (q, offer) (assign-IsWellFormed r to id t.text t.expect now v wr e sub st)

  cleared :
      (t : Task A)
      → find_task id s.tasks ≡ some t
      → is_parent_task t ≡ false
      → t.status ≡ TaskStatus.awaiting_clearance
      → IsWellFormed
          (with_tasks s (modify (parent_id id) (rearm now) (modify id set_cleared s.tasks)))
  cleared t f sub st =
      rearm_at (with_tasks s (modify id set_cleared s.tasks))
        (change s w id set_cleared t (λ u. refl) f
          (cleared-RowIsOk s.cfg t (row_of s w id t f) sub st) sub)
        (parent_id id) now

  claimed :
      (who : A) (t : Task A)
      → find_task id s.tasks ≡ some t
      → is_parent_task t ≡ false
      → IsWellFormed (
          with_tasks s (
            modify id
              (set_nudged s.cfg s.cfg.timers.max_nudges now)
              (modify id (set_claimed s.cfg who now) s.tasks)))
  claimed who t f sub =
      change (with_tasks s (modify id (set_claimed s.cfg who now) s.tasks))
        (change s w id (set_claimed s.cfg who now) t (λ u. refl) f fine sub) id
        (set_nudged s.cfg s.cfg.timers.max_nudges now) (set_claimed s.cfg who now t) (λ u. refl)
        (find-modify id (set_claimed s.cfg who now) t s.tasks f refl)
        (nudged-RowIsOk s.cfg (set_claimed s.cfg who now t) fine sub s.cfg.timers.max_nudges now)
        sub
    where
      fine : RowIsOk s.cfg (set_claimed s.cfg who now t)
      fine = claimed-RowIsOk s.cfg t (row_of s w id t f) sub who now

  reopened :
      (t : Task A)
      → find_task id s.tasks ≡ some t
      → is_parent_task t ≡ false
      → IsWellFormed
          (apply_all (with_tasks s (modify id (set_reopened now) s.tasks)) (offer t id) now)
  reopened t f sub =
      offered t t.assignee (set_reopened now t)
        (with_tasks s (modify id (set_reopened now) s.tasks))
        (change s w id (set_reopened now) t (λ u. refl) f
          (reopened-RowIsOk s.cfg t (row_of s w id t f) sub now) sub)
        (find-modify id (set_reopened now) t s.tasks f refl) sub refl refl

  rehomed :
      (to : A) (t : Task A)
      → find_task id s.tasks ≡ some t
      → is_parent_task t ≡ false
      → IsWellFormed
          (with_tasks s (assign (modify id (set_rehomed to now) s.tasks) to id t.text t.expect now))
  rehomed to t f sub =
      assign-IsWellFormed (with_tasks s (modify id (set_rehomed to now) s.tasks)) to id t.text
        t.expect now (set_rehomed to now t)
        (change s w id (set_rehomed to now) t (λ u. refl) f
          (rehomed-RowIsOk s.cfg t (row_of s w id t f) sub to now) sub)
        (find-modify id (set_rehomed to now) t s.tasks f refl) sub refl

  closed :
      (t : Task A) (artifacts : List (TaskId × Artifact A))
      → find_task id s.tasks ≡ some t
      → is_parent id ≡ true
      → IsWellFormed (record s {
        artifacts = artifacts;
        tasks = modify id (set_closed TaskStatus.closed now) s.tasks;
      })
  closed t artifacts f p =
      let v =
        modify-IsWellFormed id (set_closed TaskStatus.closed now) (λ u. refl) s t f
          (closed-RowIsOk s.cfg now t parent (row_of s w id t f))
          (λ q. unfold status_eq in ground arith) w in
      record { unique = v.unique; rows = v.rows; below = v.below; unsplit = v.unsplit }
    where
      parent : is_parent_task t ≡ true
      parent =
          subst (λ i. is_parent i ≡ true) (sym ((same_iff t.id id).0 (same-find id t s.tasks f))) p

planned_row :
    {A : Type 0} (o : Option (Task A)) → check_planned o ≡ ok tt → (t : Task A) × (o ≡ some t)
planned_row (some t) h = (t, refl)
planned_row none h = cc

module _ {A : Type 0} (s : TaskTable A) (w : IsWellFormed s) (who : A) (auth : Authority)
    (id : TaskId) (now : ℕ) where
  clear-IsWellFormed : Leaves (λ r. IsWellFormed r.0) (clear s who auth id now)
  unfolding clear
  clear-IsWellFormed = Leaves-guard (is_leader auth) Error.not_authorized _ λ _.
      Leaves-ok_or (find_task id s.tasks) Error.no_such_task _ λ t f.
        Leaves-guard (not (is_parent_task t)) Error.wrong_kind _ λ sub.
          Leaves-guard (has_status TaskStatus.awaiting_clearance t) Error.wrong_status _ λ st.
            Leaves-ok _ (
              cleared s w id now t f (not-true (is_parent_task t) sub)
                (status_sound t.status TaskStatus.awaiting_clearance st))

  reopen-IsWellFormed : Leaves (λ r. IsWellFormed r.0) (reopen s who auth id now)
  unfolding reopen
  reopen-IsWellFormed = Leaves-guard (is_leader auth) Error.not_authorized _ λ _.
      Leaves-ok_or (find_task id s.tasks) Error.no_such_task _ λ t f.
        Leaves-guard (not (is_parent_task t)) Error.wrong_kind _ λ sub.
          Leaves-guard (has_status TaskStatus.awaiting_clearance t) Error.wrong_status _
            λ st. Leaves-ok _ (reopened s w id now t f (not-true (is_parent_task t) sub))

  commit_artifact-IsWellFormed :
      (body : Text) → Leaves (λ r. IsWellFormed r.0) (commit_artifact s who auth id body now)
  unfolding commit_artifact
  commit_artifact-IsWellFormed body = Leaves-guard (is_leader auth) Error.not_authorized _ λ _.
      Leaves-guard (is_parent id) Error.wrong_kind _ λ p.
        Leaves-guard (leb (len body) s.cfg.limits.max_artifact) Error.too_long _ λ _.
          Leaves-check (check_planned (find_task id s.tasks)) _ λ planned.
            Leaves-guard (not (any (λ t. not (is_cleared t)) (subtasks s.tasks id)))
              Error.subtasks_outstanding _
              λ _. Leaves-ok _ (
                let (t, f) = planned_row (find_task id s.tasks) planned in
                closed s w id now t _ f p)

module _ {A : Type 0} ⦃e : Eq A⦄ (s : TaskTable A) (w : IsWellFormed s) (who : A) (id : TaskId)
    (now : ℕ) where
  claim-IsWellFormed : Leaves (λ r. IsWellFormed r.0) (claim s who id now)
  unfolding claim
  claim-IsWellFormed = Leaves-ok_or (find_task id s.tasks) Error.no_such_task _ λ t f.
      Leaves-guard (not (is_parent_task t)) Error.wrong_kind _ λ sub.
        Leaves-check (check_claimable t.status) _ λ _.
          Leaves-guard (holds t.assignee who) Error.not_yours _
            λ _. Leaves-ok _ (claimed s w id now who t f (not-true (is_parent_task t) sub))

  submit-IsWellFormed : (o : Outcome) → Leaves (λ r. IsWellFormed r.0) (submit s who id o now)
  unfolding submit
  submit-IsWellFormed (Outcome.done x) =
      Leaves-guard (leb (len x) s.cfg.limits.max_result) Error.too_long _ λ _.
        Leaves-ok_or (find_task id s.tasks) Error.no_such_task _ λ t f.
          Leaves-guard (not (is_parent_task t)) Error.wrong_kind _ λ sub.
            Leaves-check (check_submittable t.status t who) _ λ _.
              Leaves-ok _
                (submitted s w id now who (Outcome.done x) t f (not-true (is_parent_task t) sub))
  submit-IsWellFormed (Outcome.failed x) =
      Leaves-guard (leb (len x) s.cfg.limits.max_result) Error.too_long _ λ _.
        Leaves-ok_or (find_task id s.tasks) Error.no_such_task _ λ t f.
          Leaves-guard (not (is_parent_task t)) Error.wrong_kind _ λ sub.
            Leaves-check (check_submittable t.status t who) _ λ _.
              Leaves-ok _
                (submitted s w id now who (Outcome.failed x) t f (not-true (is_parent_task t) sub))

  pub reassign-IsWellFormed :
      (auth : Authority) (to : A) → Leaves (λ r. IsWellFormed r.0) (reassign s who auth id to now)
  unfolding reassign
  reassign-IsWellFormed auth to = Leaves-guard (is_leader auth) Error.not_authorized _ λ _.
      Leaves-guard (not (holds s.root to)) Error.root_not_assignable _ λ _.
        Leaves-ok_or (find_task id s.tasks) Error.no_such_task _ λ t f.
          Leaves-guard (not (is_parent_task t)) Error.wrong_kind _ λ sub.
            Leaves-guard
              (has_status TaskStatus.pending t || has_status TaskStatus.awaiting_clearance t)
              Error.wrong_status _
              λ _. Leaves-ok _ (rehomed s w id now to t f (not-true (is_parent_task t) sub))

  -- Whatever act is made on whatever row, by whomever, a table that was well formed is so afterwards.
  pub update-IsWellFormed :
      (auth : Authority) (act : Act) (body : Text)
      → Leaves (λ r. IsWellFormed r.0) (update s who auth id act body now)
  unfolding update
  update-IsWellFormed auth Act.claim body = claim-IsWellFormed
  update-IsWellFormed auth Act.done body = submit-IsWellFormed (Outcome.done body)
  update-IsWellFormed auth Act.failed body = submit-IsWellFormed (Outcome.failed body)
  update-IsWellFormed auth Act.clear body = clear-IsWellFormed s w who auth id now
  update-IsWellFormed auth Act.reopen body = reopen-IsWellFormed s w who auth id now
  update-IsWellFormed auth Act.artifact body = commit_artifact-IsWellFormed s w who auth id now body
