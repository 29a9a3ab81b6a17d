-- ===== src/Tasks/Invariant/Pushes.antt =====
-- New rows: what `open` and `plan` add to a table (crates/miot-tasks/src/lib.rs).
use akuma_miot.Prelude.{
  ℕ, ◌+◌, ◌≤◌, ◌<◌, ◌≡◌, ◌≢◌, refl, sym, subst, ap, ◌∙◌, Bool, true, false, List, [], ◌∷◌, ◌++◌,
  append_assoc, append-nil, arith, any, All, All-append, All-mono, length, Bool-cases, inl, inr,
}
use akuma_miot.Primitives.Words.{wrap_u16}
use akuma_miot.Primitives.Text.{Text}
use akuma_miot.Primitives.TaskId.{TaskId, parent, sub, same, same_iff}
use akuma_miot.Primitives.Vocabulary.{status_eq, PlanItem}
use akuma_miot.Primitives.Config.{Config}
use akuma_miot.Tasks.Table.{Task, TaskTable, is_subtask_of, has_id, modify}
use akuma_miot.Tasks.Apply.{offered_row, assign, apply, apply_all, set_planned}
use akuma_miot.Tasks.Acts.{plan_effects}
use akuma_miot.Tasks.Rows.{Unique, Absent, with_tasks, same_comm, find-Absent, Absent-append}
use akuma_miot.Tasks.Invariant.{RowIsOk, is_unsplit, HasNoSubtasks, IsWellFormed}

module _ {A : Type 0} where
  Unique-snoc :
      (ts : List (Task A)) (t : Task A) → Unique ts → Absent t.id ts → Unique (ts ++ t ∷ [])
  Unique-snoc [] t u h = (tt, tt)
  Unique-snoc (x ∷ ts) t u h = (
    Absent-append x.id ts (t ∷ []) u.0 (rw (same_comm t.id x.id) h.0, tt),
    Unique-snoc ts t u.1 h.1,
  )

  any-snoc :
      (p : Task A → Bool) (ts : List (Task A)) (t : Task A)
      → any p ts ≡ false
      → p t ≡ false
      → any p (ts ++ t ∷ []) ≡ false
  unfolding any
  any-snoc p [] t h k = rw k
  any-snoc p (x ∷ ts) t h k = ground (arith, any-snoc p ts t)

  -- A row that no other row has the id of, and that is no sub-task of a parent which is not split.
  pub push-IsWellFormed :
      (s : TaskTable A) (m : ℕ) (row : Task A)
      → IsWellFormed s
      → s.next_parent ≤ m
      → Absent row.id s.tasks
      → RowIsOk s.cfg row
      → row.id.parent < m
      → All (λ (u : Task A). is_unsplit u ≡ true → is_subtask_of u.id.parent row ≡ false) s.tasks
      → HasNoSubtasks s.tasks row
      → IsWellFormed (record s { next_parent = m; tasks = s.tasks ++ row ∷ [] })
  push-IsWellFormed s m row w le fresh fine below others own = record {
    unique = Unique-snoc s.tasks row w.unique fresh;
    rows = All-append (RowIsOk s.cfg) s.tasks (row ∷ []) w.rows (fine, tt);
    below =
        All-append (λ (u : Task A). u.id.parent < m) s.tasks (row ∷ [])
          (All-mono (λ (u : Task A). u.id.parent < s.next_parent) (λ u. u.id.parent < m) s.tasks
            (λ u h. omega arith) w.below)
          (below, tt);
    unsplit =
        All-append (HasNoSubtasks (s.tasks ++ row ∷ [])) s.tasks (row ∷ [])
          (go s.tasks w.unsplit others)
          ((λ q. any-snoc (is_subtask_of row.id.parent) s.tasks row (own q) (alone q)), tt);
  }
    where
      go :
          (ts : List (Task A))
          → All (HasNoSubtasks s.tasks) ts
          → All (λ (u : Task A). is_unsplit u ≡ true → is_subtask_of u.id.parent row ≡ false) ts
          → All (HasNoSubtasks (s.tasks ++ row ∷ [])) ts
      go [] h k = tt
      go (u ∷ ts) h k =
          ((λ q. any-snoc (is_subtask_of u.id.parent) s.tasks row (h.0 q) (k.0 q)), go ts h.1 k.1)

      alone : is_unsplit row ≡ true → is_subtask_of row.id.parent row ≡ false
      alone q = ground arith

  -- No row of parent `p` has a number above `i`.
  abbrev pub SubsUpTo : ℕ → ℕ → List (Task A) → Type 0
  SubsUpTo p i ts = All (λ (u : Task A). u.id.parent ≡ p → u.id.sub ≤ i) ts

  pub SubsUpTo-none :
      (p : ℕ) (ts : List (Task A)) → any (is_subtask_of p) ts ≡ false → SubsUpTo p 0 ts
  unfolding any
  SubsUpTo-none p [] h = tt
  SubsUpTo-none p (t ∷ ts) h = ((λ e. ground arith), SubsUpTo-none p ts (ground arith))

  SubsUpTo-Absent : (p i : ℕ) (ts : List (Task A)) → SubsUpTo p i ts → Absent (sub p (i + 1)) ts
  unfolding same
  SubsUpTo-Absent p i [] h = tt
  SubsUpTo-Absent p i (t ∷ ts) h = (ground (arith, h.0), SubsUpTo-Absent p i ts h.1)

  -- The rows that a plan adds, from the index of its first item.
  unfoldable pub plan_rows : ℕ → ℕ → List (PlanItem A) → ℕ → List (Task A)
  plan_rows p i [] now = []
  plan_rows p i (it ∷ items) now =
      offered_row it.who (sub p (i + 1)) it.what it.expect now ∷ plan_rows p (i + 1) items now

  assign-missing :
      (ts : List (Task A)) (to : A) (id : TaskId) (what expect : Text) (now : ℕ)
      → Absent id ts
      → assign ts to id what expect now ≡ ts ++ offered_row to id what expect now ∷ []
  unfolding assign
  assign-missing ts to id what expect now h = rw (find-Absent id ts h, assign)

  SubsUpTo-snoc :
      (p i : ℕ) (ts : List (Task A)) (t : Task A)
      → SubsUpTo p i ts
      → t.id ≡ sub p (i + 1)
      → SubsUpTo p (i + 1) (ts ++ t ∷ [])
  SubsUpTo-snoc p i [] t h e = ((λ q. ground arith), tt)
  SubsUpTo-snoc p i (x ∷ ts) t h e = ((λ q. omega (arith, h.0 q)), SubsUpTo-snoc p i ts t h.1 e)

  -- The effects of a plan add its rows, in the order of its items, under the numbers 1, 2, ….
  pub plan_effects_lem :
      (s : TaskTable A) (ts : List (Task A)) (p i : ℕ) (items : List (PlanItem A)) (now : ℕ)
      → SubsUpTo p i ts
      → i + length items < 65536
      → apply_all (with_tasks s ts) (plan_effects p i items) now
        ≡ with_tasks s (ts ++ plan_rows p i items now)
  unfolding apply_all apply plan_effects plan_rows
  plan_effects_lem s ts p i [] now h lt = ap (with_tasks s) (sym (append-nil ts))
  plan_effects_lem s ts p i (it ∷ items) now h lt =
      ap
        (λ n.
          apply_all (with_tasks s (assign ts it.who (sub p n) it.what it.expect now))
            (plan_effects p (i + 1) items) now)
        small
      ∙ ap (λ us. apply_all (with_tasks s us) (plan_effects p (i + 1) items) now)
          (assign-missing ts it.who (sub p (i + 1)) it.what it.expect now
            (SubsUpTo-Absent p i ts h))
      ∙ plan_effects_lem s (ts ++ row ∷ []) p (i + 1) items now (SubsUpTo-snoc p i ts row h refl)
          (omega arith)
      ∙ ap (with_tasks s) (append_assoc ts (row ∷ []) (plan_rows p (i + 1) items now))
    where
      row : Task A
      row = offered_row it.who (sub p (i + 1)) it.what it.expect now

      small : wrap_u16 (i + 1) ≡ i + 1
      small = omega arith

  -- The parent that a plan splits, and the rows that stand for it in no sub-task's way.
  abbrev pub Others : ℕ → List (Task A) → Type 0
  Others p ts = All (λ (u : Task A). is_unsplit u ≡ true → u.id.parent ≢ p) ts

  pub plan_rows-IsWellFormed :
      (s : TaskTable A) (ts : List (Task A)) (p i : ℕ) (items : List (PlanItem A)) (now : ℕ)
      → IsWellFormed (with_tasks s ts)
      → SubsUpTo p i ts
      → Others p ts
      → p < s.next_parent
      → IsWellFormed (with_tasks s (ts ++ plan_rows p i items now))
  unfolding plan_rows
  plan_rows-IsWellFormed s ts p i [] now w h o lt =
      subst (λ us. IsWellFormed (with_tasks s us)) (sym (append-nil ts)) w
  plan_rows-IsWellFormed s ts p i (it ∷ items) now w h o lt =
      subst (λ us. IsWellFormed (with_tasks s us))
        (append_assoc ts (row ∷ []) (plan_rows p (i + 1) items now))
        (plan_rows-IsWellFormed s (ts ++ row ∷ []) p (i + 1) items now
          (push-IsWellFormed (with_tasks s ts) s.next_parent row w (omega arith)
            (SubsUpTo-Absent p i ts h) fine lt (go ts o) (λ q. ground arith))
          (SubsUpTo-snoc p i ts row h refl)
          (All-append (λ (u : Task A). is_unsplit u ≡ true → u.id.parent ≢ p) ts (row ∷ []) o
            ((λ q. ground arith), tt))
          lt)
    where
      row : Task A
      row = offered_row it.who (sub p (i + 1)) it.what it.expect now

      fine : RowIsOk s.cfg row
      fine = ground arith

      go :
          (us : List (Task A))
          → Others p us
          → All (λ (u : Task A). is_unsplit u ≡ true → is_subtask_of u.id.parent row ≡ false) us
      go [] k = tt
      go (u ∷ us) k = ((λ q. ground (arith, k.0 q)), go us k.1)

  not_other :
      (p : ℕ) (u : Task A) → same u.id (parent p) ≡ false → is_unsplit u ≡ true → u.id.parent ≢ p
  unfolding same
  not_other p u h q e = ground arith

  Absent-Others : (p : ℕ) (ts : List (Task A)) → Absent (parent p) ts → Others p ts
  Absent-Others p [] h = tt
  Absent-Others p (t ∷ ts) h = (not_other p t h.0, Absent-Others p ts h.1)

  planned_split :
      (cfg : Config) (now : ℕ) (p : ℕ) (t : Task A)
      → is_unsplit (set_planned cfg now t) ≡ true
      → t.id.parent ≢ p
  unfolding status_eq
  planned_split cfg now p t h = ground arith

  -- Once its row is split, the rows have no unsplit parent of the number `p`.
  pub Others-planned :
      (cfg : Config) (p now : ℕ) (ts : List (Task A))
      → Unique ts
      → Others p (modify (parent p) (set_planned cfg now) ts)
  unfolding modify
  Others-planned cfg p now [] u = tt
  Others-planned cfg p now (x ∷ ts) u = elim (Bool-cases (has_id (parent p) x)) [
    | inl y ↦ rw y (
      planned_split cfg now p x,
      Absent-Others p ts (subst (λ i. Absent i ts) ((same_iff x.id (parent p)).0 y) u.0),
    )
    | inr n ↦ rw n (not_other p x n, Others-planned cfg p now ts u.1)
  ]
