-- ===== src/Tasks/History.antt =====
-- Histories of a task table: commands, one after the other, each at its block
-- (crates/miot-tasks/src/lib.rs). A refused command changes nothing and says nothing.
pub mod Parents
pub mod Runs
use akuma_miot.Prelude.{ℕ, Bool, true, false, Option, List, [], ◌∷◌, Eq, Result, ok, err}
use akuma_miot.Primitives.Text.{Text}
use akuma_miot.Primitives.TaskId.{TaskId}
use akuma_miot.Primitives.Vocabulary.{Authority, Act, PlanItem, Error}
use akuma_miot.Primitives.Effect.{Effect}
use akuma_miot.Tasks.Table.{TaskTable}
use akuma_miot.Tasks.Apply.{apply_all}
use akuma_miot.Tasks.Acts.{
  Verdict, open_task, plan, say, publish_standalone_artifact, clear_all, reassign, set_leader,
}
use akuma_miot.Tasks.Update.{update}
use akuma_miot.Tasks.Tick.{tick}
use akuma_miot.Tasks.Gc.{gc}

-- One constructor for each public method that may change a table.
pub data Command (A : Type 0) : Type 0 where
  opens : (who : A) (auth : Authority) (text : Text) → Command A
  plans : (who : A) (auth : Authority) (id : TaskId) (items : List (PlanItem A)) → Command A
  updates : (who : A) (auth : Authority) (id : TaskId) (act : Act) (text : Text) → Command A
  reassigns : (who : A) (auth : Authority) (id : TaskId) (to : A) → Command A
  says :
      (who : A) (auth : Authority) (to : Option A) (body : Text) (no_ack off_record : Bool)
      → Command A
  publishes : (who : A) (body : Text) → Command A
  elects : (who : A) → Command A
  ticks : Command A
  clears : (auth : Authority) → Command A
  sweeps : (keep_for : ℕ) → Command A

module _ {A : Type 0} where
  abbrev pub after : TaskTable A → Verdict A → TaskTable A × List (Effect A)
  after s (ok r) = r
  after s (err e) = (s, [])

  abbrev pub after_with :
      {B : Type 0}
      → TaskTable A
      → Result Error (B × (TaskTable A × List (Effect A)))
      → TaskTable A × List (Effect A)
  after_with s (ok (b, r)) = r
  after_with s (err e) = (s, [])

  -- What a replica has of a history: the effects of each block, in order.
  unfoldable pub replay : TaskTable A → List (ℕ × List (Effect A)) → TaskTable A
  replay s [] = s
  replay s ((now, effects) ∷ log) = replay (apply_all s effects now) log

module _ {A : Type 0} ⦃e : Eq A⦄ where
  unfoldable pub step : TaskTable A → ℕ → Command A → TaskTable A × List (Effect A)
  step s now (Command.opens who auth text) = after_with s (open_task s who auth text now)
  step s now (Command.plans who auth id items) = after s (plan s who auth id items now)
  step s now (Command.updates who auth id act text) = after s (update s who auth id act text now)
  step s now (Command.reassigns who auth id to) = after s (reassign s who auth id to now)
  step s now (Command.says who auth to body no_ack off_record) =
      after s (say s who auth to body no_ack off_record)
  step s now (Command.publishes who body) =
      after_with s (publish_standalone_artifact s who body now)
  step s now (Command.elects who) = set_leader s who now
  step s now Command.ticks = tick s now
  step s now (Command.clears auth) = after s (clear_all s auth now)
  step s now (Command.sweeps keep_for) = ((gc s now keep_for).0, [])

  -- The table at the end, and the log of what was said on the way.
  unfoldable pub run : TaskTable A → List (ℕ × Command A) → TaskTable A × List (ℕ × List (Effect A))
  unfolding step
  run s [] = (s, [])
  run s ((now, c) ∷ cs) =
      let (s', effects) = step s now c in let (end, log) = run s' cs in (end, (now, effects) ∷ log)
