-- ===== src/Tasks/Acts/Finds.antt =====
-- What is found by its id after a row is added or changed (crates/miot-tasks/src/lib.rs).
use akuma_miot.Prelude.{ℕ, ◌<◌, ◌≡◌, refl, true, false, none, some, List, [], ◌∷◌, ◌++◌, arith, All}
use akuma_miot.Primitives.TaskId.{TaskId, same, same_iff, parent}
use akuma_miot.Tasks.Table.{Task, find_task, modify, subtasks}

module _ {A : Type 0} where
  pub find-above :
      (m : ℕ) (ts : List (Task A))
      → All (λ (t : Task A). t.id.parent < m) ts
      → find_task (parent m) ts ≡ none
  unfolding find_task same
  find-above m [] h = refl
  find-above m (t ∷ ts) h = ground (arith, h.0, find-above m ts h.1)

  pub find-push_other :
      (i : TaskId) (t : Task A) (ts : List (Task A))
      → same t.id i ≡ false
      → find_task i (ts ++ t ∷ []) ≡ find_task i ts
  unfolding find_task
  find-push_other i t [] h = ground (arith, h)
  find-push_other i t (u ∷ ts) h = ground (arith, find-push_other i t ts h)

  pub find-push :
      (i : TaskId) (t : Task A) (ts : List (Task A))
      → same t.id i ≡ true
      → find_task i ts ≡ none
      → find_task i (ts ++ t ∷ []) ≡ some t
  unfolding find_task
  find-push i t [] h n = ground (arith, h)
  find-push i t (u ∷ ts) h n = ground (arith, n, find-push i t ts h)

  pub subtasks-push :
      (m : ℕ) (t : Task A) (ts : List (Task A))
      → t.id ≡ parent m
      → All (λ (u : Task A). u.id.parent < m) ts
      → subtasks (ts ++ t ∷ []) (parent m) ≡ []
  unfolding subtasks
  subtasks-push m t [] e h = ground (arith, e)
  subtasks-push m t (u ∷ ts) e h = ground (arith, h.0, subtasks-push m t ts e h.1)

  pub find-modify_other :
      (id i : TaskId) (f : Task A → Task A) (ts : List (Task A))
      → ((u : Task A) → (f u).id ≡ u.id)
      → same id i ≡ false
      → find_task i (modify id f ts) ≡ find_task i ts
  unfolding find_task modify
  find-modify_other id i f [] k h = refl
  find-modify_other id i f (u ∷ ts) k h =
      grind (arith, k u, same_iff u.id id, h, find-modify_other id i f ts k h)

  pub find-modify_same :
      (id : TaskId) (f : Task A → Task A) (t : Task A) (ts : List (Task A))
      → ((u : Task A) → (f u).id ≡ u.id)
      → find_task id ts ≡ some t
      → find_task id (modify id f ts) ≡ some (f t)
  unfolding find_task modify
  find-modify_same id f t [] k e = cc
  find-modify_same id f t (u ∷ ts) k e = grind (arith, k u, e, find-modify_same id f t ts k)
