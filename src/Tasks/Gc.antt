-- ===== src/Tasks/Gc.antt =====
-- `TaskTable::gc` of crates/miot-tasks/src/lib.rs.
pub mod Survivors
use akuma_miot.Prelude.{
  ℕ, ◌-◌, Bool, not, ◌&&◌, ◌||◌, List, map, leb, ◌==◌, if◌then◌else◌, any, keep, length, is_empty,
  unwrap_or,
}
use akuma_miot.Primitives.Words.{saturating_sub}
use akuma_miot.Primitives.Vocabulary.{TaskStatus}
use akuma_miot.Tasks.Table.{Task, TaskTable, is_parent_task, has_status}

-- `doomed.contains(&n)`
unfoldable pub contains : List ℕ → ℕ → Bool
unfolding any
contains ns n = any (λ m. m == n) ns

module _ {ℓ} {A : Type ℓ} where
  -- A parent that ended `keep_for` blocks ago or earlier.
  abbrev pub is_doomed : ℕ → ℕ → Task A → Bool
  is_doomed now keep_for t =
      is_parent_task t
      && (has_status TaskStatus.closed t || has_status TaskStatus.failed t)
      && leb keep_for (saturating_sub now (unwrap_or now t.closed_at))

  unfoldable pub doomed : ℕ → ℕ → List (Task A) → List ℕ
  unfolding keep
  doomed now keep_for tasks =
      map (λ (t : Task A). t.id.parent) (keep (is_doomed now keep_for) tasks)

  -- The table without the rows of those parents, and how many went.
  unfoldable pub gc : TaskTable A → ℕ → ℕ → TaskTable A × ℕ
  unfolding doomed contains keep
  gc s now keep_for =
      let gone = doomed now keep_for s.tasks in
      let kept = keep (λ (t : Task A). not (contains gone t.id.parent)) s.tasks in
      if is_empty gone then (s, 0) else (record s { tasks = kept }, length s.tasks - length kept)
