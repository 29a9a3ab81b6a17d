-- ===== src/Tasks/History/Runs.antt =====
-- What holds after every history of a task table (crates/miot-tasks/src/lib.rs): it is well formed, and
-- the log alone rebuilds it.
use akuma_miot.Prelude.{
  ℕ, ◌+◌, ◌≤◌, ◌<◌, ◌≡◌, refl, sym, subst, ap, ◌∙◌, Bool, true, false, Option, List, [], ◌∷◌, arith,
  All, length, Eq, Result, ok, err, Bool-cases, inl, inr, holds, is_empty, keep, leb, ◌||◌,
}
use akuma_miot.Primitives.Words.{u32_max}
use akuma_miot.Primitives.Vocabulary.{Error, Authority}
use akuma_miot.Primitives.Text.{Text, len}
use akuma_miot.Primitives.Config.{Config}
use akuma_miot.Primitives.Effect.{Effect}
use akuma_miot.Tasks.Table.{Task, TaskTable, new}
use akuma_miot.Tasks.Apply.{apply_all}
use akuma_miot.Tasks.Acts.{
  Verdict, is_root, is_leader, open_task, clear_all, clear_effects, set_leader, is_open_parent,
}
use akuma_miot.Tasks.Tick.Pointwise.{tick_pointwise}
use akuma_miot.Tasks.Gc.{gc, doomed}
use akuma_miot.Tasks.Invariant.{IsWellFormed}
use akuma_miot.Tasks.Invariant.Verdicts.{Leaves, Leaves-ok, Leaves-guard}
use akuma_miot.Tasks.Invariant.Ticks.{tick-IsWellFormed}
use akuma_miot.Tasks.Invariant.Updates.{update-IsWellFormed, reassign-IsWellFormed}
use akuma_miot.Tasks.Invariant.Opens.{
  open_task-IsWellFormed, plan-IsWellFormed, set_leader-IsWellFormed,
}
use akuma_miot.Tasks.Invariant.Sweeps.{
  gc-IsWellFormed, clear_all-IsWellFormed, say-IsWellFormed, publish-IsWellFormed,
}
use akuma_miot.Tasks.Replay.{
  IsFold, tick-IsFold, update-IsFold, reassign-IsFold, plan-IsFold, say-IsFold, open_task-IsFold,
  publish-IsFold, set_leader-IsFold,
}
use akuma_miot.Tasks.History.{Command, after, after_with, replay, step, run}
use akuma_miot.Tasks.History.Parents.{
  apply_all-cfg, apply_all-next_parent, TakesNone, update-TakesNone, reassign-TakesNone,
  plan-TakesNone, say-TakesNone, publish-TakesNone,
}

-- A rule for what a step leaves: it holds of a result, and of no change.
module _ {A : Type 0} (P : TaskTable A × List (Effect A) → Type 0) (s : TaskTable A) where
  after-Leaves : (v : Verdict A) → P (s, []) → Leaves P v → P (after s v)
  after-Leaves (ok r) h l = l.left
  after-Leaves (err e) h l = h

  after_with-Leaves :
      {B : Type 0} (v : Result Error (B × (TaskTable A × List (Effect A))))
      → P (s, [])
      → Leaves (λ r. P r.1) v
      → P (after_with s v)
  after_with-Leaves (ok (b, r)) h l = l.left
  after_with-Leaves (err e) h l = h

-- A command whose whole effect on the table is in what it says: all but `clear_all` and `gc`, which
-- drop rows.
abbrev pub drops_rows : {A : Type 0} → Command A → Bool
drops_rows (Command.clears auth) = true
drops_rows (Command.sweeps keep_for) = true
drops_rows _ = false

module _ {A : Type 0} ⦃e : Eq A⦄ where
  step-IsFold :
      (s : TaskTable A) (now : ℕ) (c : Command A)
      → drops_rows c ≡ false
      → IsFold s now (step s now c)
  unfolding step apply_all
  step-IsFold s now (Command.opens who auth text) h =
      after_with-Leaves (IsFold s now) s _ refl (open_task-IsFold s now who auth text)
  step-IsFold s now (Command.plans who auth id items) h =
      after-Leaves (IsFold s now) s _ refl (plan-IsFold s now who auth id items)
  step-IsFold s now (Command.updates who auth id act text) h =
      after-Leaves (IsFold s now) s _ refl (update-IsFold s now who auth id act text)
  step-IsFold s now (Command.reassigns who auth id to) h =
      after-Leaves (IsFold s now) s _ refl (reassign-IsFold s now who auth id to)
  step-IsFold s now (Command.says who auth to body no_ack off_record) h =
      after-Leaves (IsFold s now) s _ refl (say-IsFold s now who auth to body no_ack off_record)
  step-IsFold s now (Command.publishes who body) h =
      after_with-Leaves (IsFold s now) s _ refl (publish-IsFold s now who body)
  step-IsFold s now (Command.elects who) h = set_leader-IsFold s now who
  step-IsFold s now Command.ticks h = tick-IsFold s now
  step-IsFold s now (Command.clears auth) h = cc
  step-IsFold s now (Command.sweeps keep_for) h = cc

  -- After any history of commands other than `clear_all` and `gc`, refused ones and ticks included,
  -- folding the logged effects block by block from the same start rebuilds the table exactly.
  pub replay-run :
      (s : TaskTable A) (cs : List (ℕ × Command A))
      → All (λ (c : ℕ × Command A). drops_rows c.1 ≡ false) cs
      → replay s (run s cs).1 ≡ (run s cs).0
  unfolding replay run
  replay-run s [] h = refl
  replay-run s ((now, c) ∷ cs) h =
      ap (λ r. replay r (run (step s now c).0 cs).1) (sym (step-IsFold s now c h.0))
      ∙ replay-run (step s now c).0 cs h.1

module _ {A : Type 0} where
  -- The configuration stays, and at most one number of a parent is taken.
  abbrev Stays : TaskTable A → TaskTable A → Type 0
  Stays s r = (r.cfg ≡ s.cfg) × (r.next_parent ≤ s.next_parent + 1)

  fold-Stays :
      (s : TaskTable A) (now : ℕ) (r : TaskTable A × List (Effect A))
      → IsFold s now r
      → TakesNone r.1
      → Stays s r.0
  fold-Stays s now r f n = (
    ap (λ (t : TaskTable A). t.cfg) f ∙ apply_all-cfg s r.1 now,
    omega (arith, ap (λ (t : TaskTable A). t.next_parent) f, apply_all-next_parent s r.1 now n),
  )

  gc-Stays : (s r : TaskTable A) (now keep_for : ℕ) → Stays s r → Stays s (gc r now keep_for).0
  unfolding gc
  gc-Stays s r now keep_for h = elim (Bool-cases (is_empty (doomed now keep_for r.tasks))) [
    | inl y ↦ rw y h
    | inr n ↦ rw n h
  ]

  clear_effects-TakesNone : (ts : List (Task A)) → TakesNone (clear_effects ts)
  unfolding clear_effects
  clear_effects-TakesNone [] = tt
  clear_effects-TakesNone (t ∷ ts) = (refl, clear_effects-TakesNone ts)

  clears-Stays :
      (s : TaskTable A) (auth : Authority) (now : ℕ)
      → Leaves (λ (r : TaskTable A × List (Effect A)). Stays s r.0) (clear_all s auth now)
  unfolding clear_all
  clears-Stays s auth now = Leaves-guard (is_root auth) Error.not_authorized _ λ _.
      Leaves-ok ((gc (apply_all s fx now) now 0).0, fx)
        (gc-Stays s (apply_all s fx now) now 0 (
          fold-Stays s now (apply_all s fx now, fx) refl
            (clear_effects-TakesNone (keep is_open_parent s.tasks))))
    where
      fx : List (Effect A)
      fx = clear_effects (keep is_open_parent s.tasks)

  opens-Stays :
      (s : TaskTable A) (who : A) (auth : Authority) (text : Text) (now : ℕ)
      → Leaves (λ r. Stays s r.1.0) (open_task s who auth text now)
  unfolding open_task
  opens-Stays s who auth text now =
      Leaves-guard (is_root auth || is_leader auth) Error.not_authorized _ λ _.
        Leaves-guard (leb (len text) s.cfg.limits.max_text) Error.too_long _ λ _.
          Leaves-guard (leb (length s.tasks + 1 + s.cfg.limits.max_subtasks) s.cfg.limits.max_tasks)
            Error.too_many_tasks _ λ _. Leaves-ok _ (refl, omega arith)

module _ {A : Type 0} ⦃e : Eq A⦄ where
  elects-TakesNone : (s : TaskTable A) (who : A) (now : ℕ) → TakesNone (set_leader s who now).1
  unfolding set_leader
  elects-TakesNone s who now = elim (Bool-cases (holds s.leader who)) [
    | inl y ↦ rw y tt
    | inr n ↦ rw n (refl, tt)
  ]

  step-Stays :
      (s : TaskTable A) (now : ℕ) (c : Command A) → IsWellFormed s → Stays s (step s now c).0
  unfolding step
  step-Stays s now (Command.opens who auth text) w =
      after_with-Leaves (λ r. Stays s r.0) s _ (refl, omega arith) (opens-Stays s who auth text now)
  step-Stays s now (Command.clears auth) w =
      after-Leaves (λ r. Stays s r.0) s _ (refl, omega arith) (clears-Stays s auth now)
  step-Stays s now (Command.sweeps keep_for) w = gc-Stays s s now keep_for (refl, omega arith)
  step-Stays s now Command.ticks w =
      subst (Stays s) (sym (tick_pointwise s now w.unique)) (refl, omega arith)
  step-Stays s now (Command.elects who) w =
      fold-Stays s now _ (set_leader-IsFold s now who) (elects-TakesNone s who now)
  step-Stays s now (Command.plans who auth id items) w =
      fold-Stays s now _ (step-IsFold s now (Command.plans who auth id items) refl)
        (after-Leaves (λ r. TakesNone r.1) s _ tt (plan-TakesNone s now who auth id items))
  step-Stays s now (Command.updates who auth id act text) w =
      fold-Stays s now _ (step-IsFold s now (Command.updates who auth id act text) refl)
        (after-Leaves (λ r. TakesNone r.1) s _ tt (update-TakesNone s now who auth id act text))
  step-Stays s now (Command.reassigns who auth id to) w =
      fold-Stays s now _ (step-IsFold s now (Command.reassigns who auth id to) refl)
        (after-Leaves (λ r. TakesNone r.1) s _ tt (reassign-TakesNone s now who auth id to))
  step-Stays s now (Command.says who auth to body no_ack off_record) w =
      fold-Stays s now _ (step-IsFold s now (Command.says who auth to body no_ack off_record) refl)
        (after-Leaves (λ r. TakesNone r.1) s _ tt
          (say-TakesNone s now who auth to body no_ack off_record))
  step-Stays s now (Command.publishes who body) w =
      fold-Stays s now _ (step-IsFold s now (Command.publishes who body) refl)
        (after_with-Leaves (λ r. TakesNone r.1) s _ tt (publish-TakesNone s now who body))

  step-IsWellFormed :
      (s : TaskTable A) (now : ℕ) (c : Command A)
      → s.cfg.limits.max_subtasks < 65536
      → s.next_parent < u32_max
      → IsWellFormed s
      → IsWellFormed (step s now c).0
  unfolding step
  step-IsWellFormed s now (Command.opens who auth text) few left w =
      after_with-Leaves (λ r. IsWellFormed r.0) s _ w
        (open_task-IsWellFormed s w now who auth text left)
  step-IsWellFormed s now (Command.clears auth) few left w =
      after-Leaves (λ r. IsWellFormed r.0) s _ w (clear_all-IsWellFormed s auth now w)
  step-IsWellFormed s now (Command.sweeps keep_for) few left w = gc-IsWellFormed s now keep_for w
  step-IsWellFormed s now Command.ticks few left w = tick-IsWellFormed s now w
  step-IsWellFormed s now (Command.elects who) few left w = set_leader-IsWellFormed s w now who
  step-IsWellFormed s now (Command.plans who auth id items) few left w =
      after-Leaves (λ r. IsWellFormed r.0) s _ w (plan-IsWellFormed s w now who auth id items few)
  step-IsWellFormed s now (Command.updates who auth id act text) few left w =
      after-Leaves (λ r. IsWellFormed r.0) s _ w (update-IsWellFormed s w who id now auth act text)
  step-IsWellFormed s now (Command.reassigns who auth id to) few left w =
      after-Leaves (λ r. IsWellFormed r.0) s _ w (reassign-IsWellFormed s w who id now auth to)
  step-IsWellFormed s now (Command.says who auth to body no_ack off_record) few left w =
      after-Leaves (λ r. IsWellFormed r.0) s _ w
        (say-IsWellFormed s who auth to body no_ack off_record w)
  step-IsWellFormed s now (Command.publishes who body) few left w =
      after_with-Leaves (λ r. IsWellFormed r.0) s _ w (publish-IsWellFormed s who body now w)

  -- From a well-formed table every history of commands, refused ones included, leads to a well-formed
  -- one, if a plan's items fit a `u16` and the numbers of parents do not run out on the way.
  pub run-IsWellFormed :
      (s : TaskTable A) (cs : List (ℕ × Command A))
      → s.cfg.limits.max_subtasks < 65536
      → s.next_parent + length cs ≤ u32_max
      → IsWellFormed s
      → IsWellFormed (run s cs).0
  unfolding run
  run-IsWellFormed s [] few left w = w
  run-IsWellFormed s ((now, c) ∷ cs) few left w =
      let (cfg, parents) = step-Stays s now c w in
      run-IsWellFormed (step s now c).0 cs (rw cfg few) (omega arith)
        (step-IsWellFormed s now c few (omega arith) w)

  -- A new table has no rows, and is well formed.
  pub new-IsWellFormed : (cfg : Config) (root : Option A) → IsWellFormed (new cfg root)
  new-IsWellFormed cfg root = record { unique = tt; rows = tt; below = tt; unsplit = tt }
