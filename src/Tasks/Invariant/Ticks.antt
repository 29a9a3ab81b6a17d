-- ===== src/Tasks/Invariant/Ticks.antt =====
-- A tick keeps a table well formed, resolves every lease that ran out, and spends no budget twice.
use akuma_miot.Prelude.{ℕ, ◌≡◌, subst, sym, true, Option, none, some, List, map, arith}
use akuma_miot.Primitives.Vocabulary.{status_eq}
use akuma_miot.Primitives.Config.{Config}
use akuma_miot.Tasks.Table.{Task, TaskTable}
use akuma_miot.Tasks.Rows.{with_tasks}
use akuma_miot.Tasks.Tick.{tick}
use akuma_miot.Tasks.Tick.Steps.{work_step, lead_step, tick_rows}
use akuma_miot.Tasks.Tick.Pointwise.{tick_pointwise, work_step-id, lead_step-id}
use akuma_miot.Tasks.Invariant.{RowIsOk, is_unsplit, IsWellFormed}
use akuma_miot.Tasks.Invariant.Changes.{map-IsWellFormed}

module _ {A : Type 0} where
  work_step-RowIsOk :
      (cfg : Config) (now : ℕ) (t : Task A) → RowIsOk cfg t → RowIsOk cfg (work_step cfg now t)
  unfolding work_step
  work_step-RowIsOk cfg now t ok = record {
    kind = ground (arith, ok.kind);
    claimed = ground (arith, ok.claimed);
    offered = ground (arith, ok.offered);
    answered = ground (arith, ok.answered);
    assigned = ground (arith, ok.assigned);
    nudges = ground (arith, ok.nudges);
    offers = ground (arith, ok.offers);
    directives = ground (arith, ok.directives);
  }

  lead_step-RowIsOk :
      (cfg : Config) (tasks : List (Task A)) (now : ℕ) (t : Task A)
      → RowIsOk cfg t
      → RowIsOk cfg (lead_step cfg tasks now t)
  unfolding lead_step
  lead_step-RowIsOk cfg tasks now t ok = record {
    kind = ground (arith, ok.kind);
    claimed = ground (arith, ok.claimed);
    offered = ground (arith, ok.offered);
    answered = ground (arith, ok.answered);
    assigned = ground (arith, ok.assigned);
    nudges = ground (arith, ok.nudges);
    offers = ground (arith, ok.offers);
    directives = ground (arith, ok.directives);
  }

  work_step-unsplit :
      (cfg : Config) (now : ℕ) (t : Task A)
      → is_unsplit (work_step cfg now t) ≡ true
      → is_unsplit t ≡ true
  unfolding work_step status_eq
  work_step-unsplit cfg now t h = ground arith

  lead_step-unsplit :
      (cfg : Config) (tasks : List (Task A)) (now : ℕ) (t : Task A)
      → is_unsplit (lead_step cfg tasks now t) ≡ true
      → is_unsplit t ≡ true
  unfolding lead_step status_eq
  lead_step-unsplit cfg tasks now t h = ground arith

  worked-IsWellFormed :
      (s : TaskTable A) (now : ℕ)
      → IsWellFormed s
      → IsWellFormed (with_tasks s (map (work_step s.cfg now) s.tasks))
  worked-IsWellFormed s now w =
      map-IsWellFormed (work_step s.cfg now) (work_step-id s.cfg now) s
        (work_step-RowIsOk s.cfg now) (work_step-unsplit s.cfg now) w

  tick_rows-IsWellFormed :
      (o : Option A) (s : TaskTable A) (now : ℕ)
      → IsWellFormed s
      → IsWellFormed (with_tasks s (tick_rows s.cfg o now s.tasks))
  unfolding tick_rows
  tick_rows-IsWellFormed none s now w = worked-IsWellFormed s now w
  tick_rows-IsWellFormed (some leader) s now w =
      map-IsWellFormed (lead_step s.cfg ts now) (lead_step-id s leader now ts) (with_tasks s ts)
        (lead_step-RowIsOk s.cfg ts now) (lead_step-unsplit s.cfg ts now)
        (worked-IsWellFormed s now w)
    where
      ts : List (Task A)
      ts = map (work_step s.cfg now) s.tasks

  -- A tick leaves a well-formed table well formed, whatever the block: ids stay unique, statuses fit
  -- their kind, claims have a holder and a lease, and no budget of nudges, of offers or of directives
  -- is overdrawn.
  pub tick-IsWellFormed : (s : TaskTable A) (now : ℕ) → IsWellFormed s → IsWellFormed (tick s now).0
  tick-IsWellFormed s now w =
      subst IsWellFormed (sym (tick_pointwise s now w.unique))
        (tick_rows-IsWellFormed s.leader s now w)
