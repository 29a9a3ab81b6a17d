-- ===== src/Tasks/Invariant/Changes.antt =====
-- Changes of single rows keep a table well formed.
use akuma_miot.Prelude.{
  ℕ, ◌<◌, ◌≡◌, refl, true, false, Option, none, some, List, [], ◌∷◌, any, All, All-map, All-mono,
  map, Option-cases, inl, inr, subst, sym, Bool-cases, ◌∙◌,
}
use akuma_miot.Primitives.TaskId.{TaskId, same}
use akuma_miot.Tasks.Table.{Task, TaskTable, is_subtask_of, find_task, modify, has_id}
use akuma_miot.Tasks.Rows.{Unique, Absent, with_tasks, map-Unique}
use akuma_miot.Tasks.Invariant.{RowIsOk, is_unsplit, HasNoSubtasks, IsWellFormed}

module _ {A : Type 0} where
  find-hit :
      (id : TaskId) {t : Task A} (x : Task A) (ts : List (Task A))
      → has_id id x ≡ true
      → find_task id (x ∷ ts) ≡ some t
      → x ≡ t
  unfolding find_task
  find-hit id x ts e h = let h' = rw e at h in cc

  find_skip :
      (id : TaskId) (x : Task A) (ts : List (Task A))
      → has_id id x ≡ false
      → find_task id (x ∷ ts) ≡ find_task id ts
  unfolding find_task
  find_skip id x ts e = rw e

  find-miss :
      (id : TaskId) {o : Option (Task A)} (x : Task A) (ts : List (Task A))
      → has_id id x ≡ false
      → find_task id (x ∷ ts) ≡ o
      → find_task id ts ≡ o
  unfolding find_task
  find-miss id x ts e h = rw e at h

  -- The first row with this id satisfies what every row does, and it has the id.
  pub All-find :
      (P : Task A → Type 0) (id : TaskId) (t : Task A) (ts : List (Task A))
      → find_task id ts ≡ some t
      → All P ts
      → P t
  All-find P id t [] e h = unfold find_task in cc e
  All-find P id t (x ∷ ts) e h = elim (Bool-cases (has_id id x)) [
    | inl y ↦ subst P (find-hit id x ts y e) h.0
    | inr n ↦ All-find P id t ts (find-miss id x ts n e) h.1
  ]

  pub same-find :
      (id : TaskId) (t : Task A) (ts : List (Task A))
      → find_task id ts ≡ some t
      → same t.id id ≡ true
  same-find id t [] e = unfold find_task in cc e
  same-find id t (x ∷ ts) e = elim (Bool-cases (has_id id x)) [
    | inl y ↦ subst (λ (u : Task A). same u.id id ≡ true) (find-hit id x ts y e) y
    | inr n ↦ same-find id t ts (find-miss id x ts n e)
  ]

  pub All-modify :
      (P : Task A → Type 0) (id : TaskId) (f : Task A → Task A) (t : Task A) (ts : List (Task A))
      → find_task id ts ≡ some t
      → P (f t)
      → All P ts
      → All P (modify id f ts)
  unfolding modify
  All-modify P id f t [] e p h = tt
  All-modify P id f t (x ∷ ts) e p h = elim (Bool-cases (has_id id x)) [
    | inl y ↦ rw y (subst (λ u. P (f u)) (sym (find-hit id x ts y e)) p, h.1)
    | inr n ↦ rw n (h.0, All-modify P id f t ts (find-miss id x ts n e) p h.1)
  ]

  -- After the change the row is found changed.
  pub find-modify :
      (id : TaskId) (f : Task A → Task A) (t : Task A) (ts : List (Task A))
      → find_task id ts ≡ some t
      → (f t).id ≡ t.id
      → find_task id (modify id f ts) ≡ some (f t)
  unfolding modify
  find-modify id f t [] e k = unfold find_task in cc e
  find-modify id f t (x ∷ ts) e k = elim (Bool-cases (has_id id x)) [
    | inl y ↦
        let q = find-hit id x ts y e in
        rw y (
          subst (λ u. find_task id (f u ∷ ts) ≡ some (f t)) (sym q)
            (unfold find_task in rw (k, same-find id t (x ∷ ts) e)))
    | inr n ↦
        rw n (find_skip id x (modify id f ts) n ∙ find-modify id f t ts (find-miss id x ts n e) k)
  ]

  pub modify-missing :
      (id : TaskId) (f : Task A → Task A) (ts : List (Task A))
      → find_task id ts ≡ none
      → modify id f ts ≡ ts
  unfolding modify
  modify-missing id f [] e = refl
  modify-missing id f (x ∷ ts) e = elim (Bool-cases (has_id id x)) [
    | inl y ↦ unfold find_task in (let e' = rw y at e in cc)
    | inr n ↦ rw (n, modify-missing id f ts (find-miss id x ts n e))
  ]

  -- A change that keeps ids keeps what is said by ids alone.
  module _ (id : TaskId) (f : Task A → Task A) (same_id : (u : Task A) → (f u).id ≡ u.id) where
    Absent-modify : (i : TaskId) (ts : List (Task A)) → Absent i ts → Absent i (modify id f ts)
    unfolding modify
    Absent-modify i [] h = tt
    Absent-modify i (x ∷ ts) h = elim (Bool-cases (has_id id x)) [
      | inl y ↦ rw y (rw (same_id x) h.0, h.1)
      | inr n ↦ rw n (h.0, Absent-modify i ts h.1)
    ]

    Unique-modify : (ts : List (Task A)) → Unique ts → Unique (modify id f ts)
    unfolding modify
    Unique-modify [] u = tt
    Unique-modify (x ∷ ts) u = elim (Bool-cases (has_id id x)) [
      | inl y ↦ rw y (rw (same_id x) u.0, u.1)
      | inr n ↦ rw n (Absent-modify x.id ts u.0, Unique-modify ts u.1)
    ]

    pub subtasks-modify :
        (p : ℕ) (ts : List (Task A))
        → any (is_subtask_of p) (modify id f ts) ≡ any (is_subtask_of p) ts
    unfolding modify any
    subtasks-modify p [] = refl
    subtasks-modify p (x ∷ ts) = elim (Bool-cases (has_id id x)) [
      | inl y ↦ rw (y, same_id x)
      | inr n ↦ rw (n, subtasks-modify p ts)
    ]

    -- One row that is found, and in order after the change, leaves the table well formed.
    pub modify-IsWellFormed :
        (s : TaskTable A) (t : Task A)
        → find_task id s.tasks ≡ some t
        → RowIsOk s.cfg (f t)
        → (is_unsplit (f t) ≡ true → is_unsplit t ≡ true)
        → IsWellFormed s
        → IsWellFormed (with_tasks s (modify id f s.tasks))
    modify-IsWellFormed s t e ok back w = record {
      unique = Unique-modify s.tasks w.unique;
      rows = All-modify (RowIsOk s.cfg) id f t s.tasks e ok w.rows;
      below =
          All-modify (λ (u : Task A). u.id.parent < s.next_parent) id f t s.tasks e
            (rw (same_id t)
              (All-find (λ (u : Task A). u.id.parent < s.next_parent) id t s.tasks e w.below))
            w.below;
      unsplit =
          All-mono (HasNoSubtasks s.tasks) (HasNoSubtasks (modify id f s.tasks))
            (modify id f s.tasks) (λ u h q. subtasks-modify u.id.parent s.tasks ∙ h q)
            (All-modify (HasNoSubtasks s.tasks) id f t s.tasks e
              (λ q.
                rw (same_id t) (All-find (HasNoSubtasks s.tasks) id t s.tasks e w.unsplit (back q)))
              w.unsplit);
    }

    -- So does a change that keeps every row in order, whether or not its row is there.
    pub touch-IsWellFormed :
        (s : TaskTable A)
        → ((u : Task A) → RowIsOk s.cfg u → RowIsOk s.cfg (f u))
        → ((u : Task A) → is_unsplit (f u) ≡ true → is_unsplit u ≡ true)
        → IsWellFormed s
        → IsWellFormed (with_tasks s (modify id f s.tasks))
    touch-IsWellFormed s ok back w = elim (Option-cases (find_task id s.tasks)) [
      | inl e ↦ subst (λ ts. IsWellFormed (with_tasks s ts)) (sym (modify-missing id f s.tasks e)) w
      | inr (t, e) ↦
          modify-IsWellFormed s t e (ok t (All-find (RowIsOk s.cfg) id t s.tasks e w.rows)) (back t)
            w
    ]

  -- A change of every row at once.
  module _ (f : Task A → Task A) (same_id : (u : Task A) → (f u).id ≡ u.id) where
    subtasks-map :
        (p : ℕ) (ts : List (Task A)) → any (is_subtask_of p) (map f ts) ≡ any (is_subtask_of p) ts
    unfolding any
    subtasks-map p [] = refl
    subtasks-map p (x ∷ ts) = rw (same_id x, subtasks-map p ts)

    pub map-IsWellFormed :
        (s : TaskTable A)
        → ((u : Task A) → RowIsOk s.cfg u → RowIsOk s.cfg (f u))
        → ((u : Task A) → is_unsplit (f u) ≡ true → is_unsplit u ≡ true)
        → IsWellFormed s
        → IsWellFormed (with_tasks s (map f s.tasks))
    map-IsWellFormed s ok back w = record {
      unique = map-Unique f s.tasks same_id w.unique;
      rows =
          All-map (RowIsOk s.cfg) f s.tasks
            (All-mono (RowIsOk s.cfg) (λ u. RowIsOk s.cfg (f u)) s.tasks ok w.rows);
      below =
          All-map (λ (u : Task A). u.id.parent < s.next_parent) f s.tasks
            (All-mono (λ (u : Task A). u.id.parent < s.next_parent)
              (λ u. (f u).id.parent < s.next_parent) s.tasks (λ u h. rw (same_id u) h) w.below);
      unsplit = All-map (HasNoSubtasks (map f s.tasks)) f s.tasks (
          All-mono (HasNoSubtasks s.tasks) (λ u. HasNoSubtasks (map f s.tasks) (f u)) s.tasks
            (λ u h q. subtasks-map (f u).id.parent s.tasks ∙ rw (same_id u) (h (back u q)))
            w.unsplit);
    }
