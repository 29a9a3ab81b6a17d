-- ===== src/Tasks/Gc/Survivors.antt =====
-- Which rows `TaskTable::gc` of crates/miot-tasks/src/lib.rs leaves.
use akuma_miot.Prelude.{
  ℕ, ◌+◌, ◌-◌, ◌≡◌, refl, ap, ◌∙◌, sym, Bool, true, false, not, ◌&&◌, ◌||◌, Option, none, some, leb,
  List, [], ◌∷◌, arith, ◌==◌, any, keep, length, is_empty, All, All-mono, Bool-cases, inl, inr,
}
use akuma_miot.Primitives.TaskId.{same, parent}
use akuma_miot.Primitives.Vocabulary.{TaskStatus, status_eq}
use akuma_miot.Tasks.Table.{Task, TaskTable}
use akuma_miot.Tasks.Rows.{with_tasks}
use akuma_miot.Tasks.Gc.{contains, is_doomed, doomed, gc}

empty-contains : (ns : List ℕ) (n : ℕ) → is_empty ns ≡ true → contains ns n ≡ false
unfolding contains any
empty-contains [] n h = refl
empty-contains (m ∷ ns) n h = cc

keep-all : {X : Type 0} (q : X → Bool) (xs : List X) → ((x : X) → q x ≡ true) → keep q xs ≡ xs
unfolding keep
keep-all q [] h = refl
keep-all q (x ∷ xs) h = ground (arith, h x, keep-all q xs h)

-- The statuses in which a parent has ended.
abbrev pub is_ended : TaskStatus → Bool
is_ended TaskStatus.closed = true
is_ended TaskStatus.failed = true
is_ended _ = false

-- The block `at` in which it ended is `keep_for` blocks back or further; one that is not known is now.
abbrev pub is_long_ago : ℕ → ℕ → Option ℕ → Bool
is_long_ago now keep_for none = keep_for == 0
is_long_ago now keep_for (some at) = keep_for == 0 || leb (at + keep_for) now

module _ {A : Type 0} (now keep_for : ℕ) where
  -- A parent that ended long enough ago.
  abbrev pub is_over : Task A → Bool
  is_over p =
      same p.id (parent p.id.parent) && is_ended p.status && is_long_ago now keep_for p.closed_at

  -- The parent of this row, or the row itself, ended long enough ago.
  abbrev pub is_gone : List (Task A) → Task A → Bool
  is_gone ts t = any (λ (p : Task A). is_over p && p.id.parent == t.id.parent) ts

  doomed_over : (p : Task A) → is_doomed now keep_for p ≡ is_over p
  unfolding same status_eq
  doomed_over p = ground arith

  doomed-is_gone :
      (ts : List (Task A)) (t : Task A)
      → contains (doomed now keep_for ts) t.id.parent ≡ is_gone ts t
  unfolding doomed contains keep any
  doomed-is_gone [] t = refl
  doomed-is_gone (p ∷ ts) t = ground (arith, doomed_over p, doomed-is_gone ts t)

  keep-doomed :
      (ns : List (Task A)) (ts : List (Task A))
      → keep (λ (t : Task A). not (contains (doomed now keep_for ns) t.id.parent)) ts
        ≡ keep (λ t. not (is_gone ns t)) ts
  unfolding keep
  keep-doomed ns [] = refl
  keep-doomed ns (t ∷ ts) = ground (arith, keep-doomed ns ts, doomed-is_gone ns t)

  none-doomed :
      (ns ts : List (Task A))
      → is_empty (doomed now keep_for ns) ≡ true
      → keep (λ t. not (is_gone ns t)) ts ≡ ts
  unfolding keep
  none-doomed ns [] h = refl
  none-doomed ns (t ∷ ts) h = ground (
    arith,
    none-doomed ns ts h,
    empty-contains (doomed now keep_for ns) t.id.parent h,
    doomed-is_gone ns t,
  )

  -- `gc` drops exactly the rows of the parents that are closed or failed and that ended in a block `at` with
  -- `at + keep_for ≤ now`, with the parents themselves; if `keep_for` is 0, those of every parent that is
  -- closed or failed. An end that was not recorded counts as now. It leaves everything else of the table,
  -- artifacts included, in its order, and says how many rows went.
  pub gc-is_gone :
      (s : TaskTable A)
      → gc s now keep_for ≡ (
        with_tasks s (keep (λ t. not (is_gone s.tasks t)) s.tasks),
        length s.tasks - length (keep (λ t. not (is_gone s.tasks t)) s.tasks),
      )
  unfolding gc
  gc-is_gone s = elim (Bool-cases (is_empty (doomed now keep_for s.tasks))) [
    | inl y ↦ rw (y, none-doomed s.tasks s.tasks y) (ap (λ n. (s, n)) (omega arith))
    | inr n ↦ rw (n, keep-doomed s.tasks s.tasks)
  ]

  -- A parent that ended long enough ago is gone itself.
  IsCounted : List (Task A) → Task A → Type 0
  IsCounted ns p = is_over p ≡ true → is_gone ns p ≡ true

  self-IsCounted : (ts : List (Task A)) → All (IsCounted ts) ts
  unfolding any IsCounted
  self-IsCounted [] = tt
  self-IsCounted (t ∷ ts) = (
    λ d. ground (arith, d),
    All-mono (IsCounted ts) (IsCounted (t ∷ ts)) ts (λ u h d. ground (arith, h d))
        (self-IsCounted ts),
  )

  none_left :
      (ns ts : List (Task A)) (t : Task A)
      → All (IsCounted ns) ts
      → is_gone (keep (λ u. not (is_gone ns u)) ts) t ≡ false
  unfolding any keep IsCounted
  none_left ns [] t h = refl
  none_left ns (p ∷ ts) t h = ground (arith, h.0, none_left ns ts t h.1)

  -- Dropping rows a second time in the same block drops none.
  pub gc-gc : (s : TaskTable A) → gc (gc s now keep_for).0 now keep_for ≡ ((gc s now keep_for).0, 0)
  gc-gc s =
      ap (λ (r : TaskTable A × ℕ). gc r.0 now keep_for) (gc-is_gone s)
      ∙ gc-is_gone (with_tasks s left)
      ∙ ap (λ ts. (with_tasks s ts, length left - length ts)) same_rows
      ∙ ap (λ n. (with_tasks s left, n)) (omega arith)
      ∙ ap (λ (r : TaskTable A × ℕ). (r.0, 0)) (sym (gc-is_gone s))
    where
      left : List (Task A)
      left = keep (λ t. not (is_gone s.tasks t)) s.tasks

      same_rows : keep (λ t. not (is_gone left t)) left ≡ left
      same_rows =
          keep-all (λ t. not (is_gone left t)) left
            (λ t. ap not (none_left s.tasks s.tasks t (self-IsCounted s.tasks)))
