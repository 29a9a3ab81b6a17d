-- ===== src/Tasks/Statuses.antt =====
-- The status of a task, found by its id, under changes of single rows (crates/miot-tasks/src/lib.rs).
use akuma_miot.Prelude.{
  ℕ, ◌≡◌, refl, ap, sym, true, Option, none, some, List, [], ◌∷◌, arith, if◌then◌else◌, Bool-cases,
  inl, inr,
}
use akuma_miot.Primitives.TaskId.{TaskId, same, same_iff}
use akuma_miot.Primitives.Text.{Text}
use akuma_miot.Primitives.Vocabulary.{TaskStatus}
use akuma_miot.Tasks.Table.{Task, has_id, find_task, modify}
use akuma_miot.Tasks.Apply.{assign, set_assigned}

same_as : (a b i : TaskId) → same a b ≡ true → same a i ≡ same b i
same_as a b i h = ap (λ x. same x i) ((same_iff a b).0 h)

same_into : (a b i : TaskId) → same b i ≡ true → same a i ≡ same a b
same_into a b i h = ap (same a) (sym ((same_iff b i).0 h))

module _ {A : Type 0} where
  abbrev pub status_in : Option (Task A) → Option TaskStatus
  status_in none = none
  status_in (some t) = some t.status

  -- The status of the task with this id, if it is there.
  abbrev pub status_of : TaskId → List (Task A) → Option TaskStatus
  status_of id ts = status_in (find_task id ts)

  -- A change that leaves ids and statuses alone.
  pub status_of-kept :
      (i id : TaskId) (f : Task A → Task A) (ts : List (Task A))
      → ((t : Task A) → (f t).id ≡ t.id)
      → ((t : Task A) → (f t).status ≡ t.status)
      → status_of i (modify id f ts) ≡ status_of i ts
  unfolding find_task modify
  status_of-kept i id f [] k st = refl
  status_of-kept i id f (t ∷ ts) k st = ground (arith, k t, st t, status_of-kept i id f ts k st)

  -- A change that gives one status to a task that is there.
  pub status_of-set :
      (i id : TaskId) (f : Task A → Task A) (st : TaskStatus) (t : Task A) (ts : List (Task A))
      → ((u : Task A) → (f u).id ≡ u.id)
      → ((u : Task A) → (f u).status ≡ st)
      → find_task id ts ≡ some t
      → status_of i (modify id f ts) ≡ (if same id i then some st else status_of i ts)
  unfolding find_task modify
  status_of-set i id f st t [] k s e = cc
  status_of-set i id f st t (u ∷ ts) k s e =
      ground (
        arith,
        k u,
        s u,
        e,
        same_as u.id id i,
        same_into u.id id i,
        status_of-set i id f st t ts k s,
      )

  -- The task is there after a change.
  pub find-modify :
      (id : TaskId) (f : Task A → Task A) (t : Task A) (ts : List (Task A))
      → ((u : Task A) → (f u).id ≡ u.id)
      → find_task id ts ≡ some t
      → (u : Task A) × (find_task id (modify id f ts) ≡ some u)
  unfolding find_task modify
  find-modify id f t [] k e = cc
  find-modify id f t (u ∷ ts) k e = elim (Bool-cases (has_id id u)) [
    | inl y ↦ (f u, ground (arith, y, k u))
    | inr n ↦
        let e' = rw n at e in let (v, g) = find-modify id f t ts k e' in (v, ground (arith, n, g))
  ]

  pub status_of-assign :
      (i id : TaskId) (to : A) (what expect : Text) (now : ℕ) (t : Task A) (ts : List (Task A))
      → find_task id ts ≡ some t
      → status_of i (assign ts to id what expect now)
        ≡ (if same id i then some TaskStatus.pending else status_of i ts)
  unfolding assign
  status_of-assign i id to what expect now t ts e =
      rw (e, assign)
        (status_of-set i id (set_assigned to what expect now) TaskStatus.pending t ts (λ u. refl)
          (λ u. refl) e)
