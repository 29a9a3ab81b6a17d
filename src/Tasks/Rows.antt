-- ===== src/Tasks/Rows.antt =====
-- Rows and their ids: what changing one row by its id does to a table (crates/miot-tasks/src/lib.rs).
use akuma_miot.Prelude.{
  ◌≡◌, refl, subst, append_assoc, true, false, none, some, List, [], ◌∷◌, ◌++◌, map, arith, All,
}
use akuma_miot.Primitives.TaskId.{TaskId, same, same_iff}
use akuma_miot.Tasks.Table.{Task, TaskTable, find_task, modify}

pub same_refl : (a : TaskId) → same a a ≡ true
same_refl a = (same_iff a a).1 refl

pub same_comm : (a b : TaskId) → same a b ≡ same b a
unfolding same
same_comm a b = ground arith

module _ {ℓ} {A : Type ℓ} where
  -- No row has this id.
  abbrev pub Absent : TaskId → List (Task A) → Type 0
  Absent id ts = All (λ (t : Task A). same t.id id ≡ false) ts

  -- No two rows have one id.
  abbrev pub Unique : List (Task A) → Type 0
  Unique [] = Unit
  Unique (t ∷ ts) = Absent t.id ts × Unique ts

  -- The ids of the second list do not occur in the first.
  abbrev pub Apart : List (Task A) → List (Task A) → Type 0
  Apart xs ts = All (λ (t : Task A). Absent t.id xs) ts

  -- The table with other rows.
  abbrev pub with_tasks : TaskTable A → List (Task A) → TaskTable A
  with_tasks s ts = record s { tasks = ts }

  pub modify_middle :
      (id : TaskId) (f : Task A → Task A) (xs : List (Task A)) (t : Task A) (ys : List (Task A))
      → same t.id id ≡ true
      → Absent id xs
      → modify id f (xs ++ t ∷ ys) ≡ xs ++ f t ∷ ys
  unfolding modify
  modify_middle id f [] t ys e h = rw e
  modify_middle id f (x ∷ xs) t ys e h = rw (h.0, modify_middle id f xs t ys e h.1)

  pub find_middle :
      (id : TaskId) (xs : List (Task A)) (t : Task A) (ys : List (Task A))
      → same t.id id ≡ true
      → Absent id xs
      → find_task id (xs ++ t ∷ ys) ≡ some t
  unfolding find_task
  find_middle id [] t ys e h = rw e
  find_middle id (x ∷ xs) t ys e h = rw h.0 (find_middle id xs t ys e h.1)

  pub modify-Absent :
      (id : TaskId) (f : Task A → Task A) (ts : List (Task A)) → Absent id ts → modify id f ts ≡ ts
  unfolding modify
  modify-Absent id f [] h = refl
  modify-Absent id f (t ∷ ts) h = rw (h.0, modify-Absent id f ts h.1)

  pub find-Absent : (id : TaskId) (ts : List (Task A)) → Absent id ts → find_task id ts ≡ none
  unfolding find_task
  find-Absent id [] h = refl
  find-Absent id (t ∷ ts) h = rw h.0 (find-Absent id ts h.1)

  pub Absent-append :
      (id : TaskId) (xs ys : List (Task A)) → Absent id xs → Absent id ys → Absent id (xs ++ ys)
  Absent-append id [] ys h k = k
  Absent-append id (x ∷ xs) ys h k = (h.0, Absent-append id xs ys h.1 k)

  -- A row that joins the first list keeps it apart, if its id is not among the others.
  pub Apart-snoc :
      (xs : List (Task A)) (t : Task A) (ts : List (Task A))
      → Absent t.id ts
      → Apart xs ts
      → Apart (xs ++ t ∷ []) ts
  Apart-snoc xs t [] h k = tt
  Apart-snoc xs t (u ∷ ts) h k = (
    Absent-append u.id xs (t ∷ []) k.0 (rw (same_comm t.id u.id) h.0, tt),
    Apart-snoc xs t ts h.1 k.1,
  )

  -- In a table of unique ids every row is found by its own.
  find_self-from :
      (xs ts : List (Task A))
      → Apart xs ts
      → Unique ts
      → All (λ (t : Task A). find_task t.id (xs ++ ts) ≡ some t) ts
  find_self-from xs [] h u = tt
  find_self-from xs (t ∷ ts) h u = (
    find_middle t.id xs t ts (same_refl t.id) h.0,
    subst (λ l. All (λ (u : Task A). find_task u.id l ≡ some u) ts) (append_assoc xs (t ∷ []) ts)
        (find_self-from (xs ++ t ∷ []) ts (Apart-snoc xs t ts u.0 h.1) u.1),
  )

  pub Apart-nil : (ts : List (Task A)) → Apart [] ts
  Apart-nil [] = tt
  Apart-nil (t ∷ ts) = (tt, Apart-nil ts)

  pub find_self :
      (ts : List (Task A)) → Unique ts → All (λ (t : Task A). find_task t.id ts ≡ some t) ts
  find_self ts u = find_self-from [] ts (Apart-nil ts) u

module _ {A : Type 0} where
  pub map-Unique :
      (f : Task A → Task A) (ts : List (Task A))
      → ((t : Task A) → (f t).id ≡ t.id)
      → Unique ts
      → Unique (map f ts)
  map-Unique f [] k u = tt
  map-Unique f (t ∷ ts) k u = (rw k (go ts u.0), map-Unique f ts k u.1)
    where
      go : (us : List (Task A)) → Absent t.id us → Absent t.id (map f us)
      go [] h = tt
      go (x ∷ us) h = (rw k h.0, go us h.1)
