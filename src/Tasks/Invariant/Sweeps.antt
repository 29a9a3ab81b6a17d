-- ===== src/Tasks/Invariant/Sweeps.antt =====
-- `gc`, `clear_all`, `publish_standalone_artifact` and `say` keep a table well formed
-- (crates/miot-tasks/src/lib.rs).
use akuma_miot.Prelude.{
  ℕ, ◌<◌, ◌≡◌, refl, sym, subst, Bool, true, false, not, Option, List, [], ◌∷◌, arith, any, keep,
  All, All-keep, All-mono, leb, is_empty, Bool-cases, inl, inr, Option-cases,
}
use akuma_miot.Primitives.Text.{Text, len}
use akuma_miot.Primitives.TaskId.{TaskId, is_parent, same, same_iff}
use akuma_miot.Primitives.Vocabulary.{TaskStatus, status_eq, Authority, Error}
use akuma_miot.Tasks.Table.{Task, TaskTable, is_parent_task, is_subtask_of, find_task, modify}
use akuma_miot.Tasks.Apply.{apply_all, set_closed}
use akuma_miot.Tasks.Acts.{
  is_root, clear_all, clear_effects, is_open_parent, say, publish_standalone_artifact,
}
use akuma_miot.Tasks.Gc.{gc, doomed, contains}
use akuma_miot.Tasks.Rows.{Unique, with_tasks}
use akuma_miot.Tasks.Invariant.{RowIsOk, HasNoSubtasks, IsWellFormed}
use akuma_miot.Tasks.Invariant.Changes.{All-find, same-find, modify-IsWellFormed, modify-missing}
use akuma_miot.Tasks.Invariant.RowChanges.{failed-RowIsOk}
use akuma_miot.Tasks.Invariant.Verdicts.{Leaves, Leaves-ok, Leaves-guard}

module _ {A : Type 0} (p : Task A → Bool) where
  Unique-keep : (ts : List (Task A)) → Unique ts → Unique (keep p ts)
  unfolding keep
  Unique-keep [] u = tt
  Unique-keep (t ∷ ts) u = elim (Bool-cases (p t)) [
    | inl y ↦ rw y (All-keep (λ (v : Task A). same v.id t.id ≡ false) p ts u.0, Unique-keep ts u.1)
    | inr n ↦ rw n (Unique-keep ts u.1)
  ]

  any-keep : (q : Task A → Bool) (ts : List (Task A)) → any q ts ≡ false → any q (keep p ts) ≡ false
  unfolding keep any
  any-keep q [] h = refl
  any-keep q (t ∷ ts) h = ground (arith, any-keep q ts)

  -- Fewer rows are well formed too.
  pub keep-IsWellFormed :
      (s : TaskTable A) → IsWellFormed s → IsWellFormed (with_tasks s (keep p s.tasks))
  keep-IsWellFormed s w = record {
    unique = Unique-keep s.tasks w.unique;
    rows = All-keep (RowIsOk s.cfg) p s.tasks w.rows;
    below = All-keep (λ (u : Task A). u.id.parent < s.next_parent) p s.tasks w.below;
    unsplit = All-keep (HasNoSubtasks (keep p s.tasks)) p s.tasks (
        All-mono (HasNoSubtasks s.tasks) (HasNoSubtasks (keep p s.tasks)) s.tasks
          (λ u h q. any-keep (is_subtask_of u.id.parent) s.tasks (h q)) w.unsplit);
  }

module _ {A : Type 0} where
  pub gc-IsWellFormed :
      (s : TaskTable A) (now keep_for : ℕ) → IsWellFormed s → IsWellFormed (gc s now keep_for).0
  unfolding gc
  gc-IsWellFormed s now keep_for w = elim (Bool-cases (is_empty (doomed now keep_for s.tasks))) [
    | inl y ↦ rw y w
    | inr n ↦ rw n (
        keep-IsWellFormed (λ (t : Task A). not (contains (doomed now keep_for s.tasks) t.id.parent))
          s w)
  ]

  -- A parent that is failed, if it is there.
  fail-IsWellFormed :
      (s : TaskTable A) (id : TaskId) (now : ℕ)
      → is_parent id ≡ true
      → IsWellFormed s
      → IsWellFormed (with_tasks s (modify id (set_closed TaskStatus.failed now) s.tasks))
  unfolding status_eq
  fail-IsWellFormed s id now p w = elim (Option-cases (find_task id s.tasks)) [
    | inl n ↦
        subst (λ ts. IsWellFormed (with_tasks s ts))
          (sym (modify-missing id (set_closed TaskStatus.failed now) s.tasks n)) w
    | inr (t, f) ↦
        modify-IsWellFormed id (set_closed TaskStatus.failed now) (λ u. refl) s t f
          (failed-RowIsOk s.cfg now t
            (subst (λ i. is_parent i ≡ true) (sym ((same_iff t.id id).0 (same-find id t s.tasks f)))
              p)
            (All-find (RowIsOk s.cfg) id t s.tasks f w.rows))
          (λ q. ground arith) w
  ]

  clear_effects-IsWellFormed :
      (s : TaskTable A) (ts : List (Task A)) (now : ℕ)
      → IsWellFormed s
      → All (λ (t : Task A). is_parent_task t ≡ true) ts
      → IsWellFormed (apply_all s (clear_effects ts) now)
  unfolding apply_all clear_effects
  clear_effects-IsWellFormed s [] now w h = w
  clear_effects-IsWellFormed s (t ∷ ts) now w h =
      clear_effects-IsWellFormed
        (with_tasks s (modify t.id (set_closed TaskStatus.failed now) s.tasks)) ts now
        (fail-IsWellFormed s t.id now h.0 w) h.1

  open_parents :
      (ts : List (Task A)) → All (λ (t : Task A). is_parent_task t ≡ true) (keep is_open_parent ts)
  unfolding keep
  open_parents [] = tt
  open_parents (t ∷ ts) = elim (Bool-cases (is_open_parent t)) [
    | inl y ↦ rw y (ground arith, open_parents ts)
    | inr n ↦ rw n (open_parents ts)
  ]

  pub clear_all-IsWellFormed :
      (s : TaskTable A) (auth : Authority) (now : ℕ)
      → IsWellFormed s
      → Leaves (λ r. IsWellFormed r.0) (clear_all s auth now)
  unfolding clear_all
  clear_all-IsWellFormed s auth now w = Leaves-guard (is_root auth) Error.not_authorized _ λ _.
      Leaves-ok _ (
        gc-IsWellFormed _ now 0
          (clear_effects-IsWellFormed s (keep is_open_parent s.tasks) now w (open_parents s.tasks)))

  pub say-IsWellFormed :
      (s : TaskTable A) (who : A) (auth : Authority) (to : Option A) (body : Text)
      (no_ack off_record : Bool)
      → IsWellFormed s
      → Leaves (λ r. IsWellFormed r.0) (say s who auth to body no_ack off_record)
  unfolding say
  say-IsWellFormed s who auth to body no_ack off_record w =
      Leaves-guard (leb (len body) s.cfg.limits.max_message) Error.too_long _ λ _. Leaves-ok _ w

  pub publish-IsWellFormed :
      (s : TaskTable A) (who : A) (body : Text) (now : ℕ)
      → IsWellFormed s
      → Leaves (λ r. IsWellFormed r.1.0) (publish_standalone_artifact s who body now)
  unfolding publish_standalone_artifact
  publish-IsWellFormed s who body now w =
      Leaves-guard (leb (len body) s.cfg.limits.max_artifact) Error.too_long _ λ _.
        Leaves-ok _
          (record { unique = w.unique; rows = w.rows; below = w.below; unsplit = w.unsplit })
