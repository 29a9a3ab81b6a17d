-- ===== src/Tasks/Invariant/RowChanges.antt =====
-- Each change that an effect of a verb makes to a row keeps it in order
-- (crates/miot-tasks/src/lib.rs, `apply`).
use akuma_miot.Prelude.{ℕ, ◌≡◌, true, false, arith}
use akuma_miot.Primitives.Text.{Text}
use akuma_miot.Primitives.Config.{Config}
use akuma_miot.Primitives.Vocabulary.{TaskStatus, Outcome}
use akuma_miot.Tasks.Table.{Task, is_parent_task}
use akuma_miot.Tasks.Apply.{
  set_claimed, set_nudged, set_submitted, set_cleared, set_reopened, set_rehomed, set_assigned,
  rearm, set_closed, set_planned,
}
use akuma_miot.Tasks.Invariant.{RowIsOk}

-- One sub-task that is in order, changed as an effect changes it.
module _ {A : Type 0} (cfg : Config) (t : Task A) (ok : RowIsOk cfg t)
    (sub : is_parent_task t ≡ false) where
  pub claimed-RowIsOk : (who : A) (now : ℕ) → RowIsOk cfg (set_claimed cfg who now t)
  claimed-RowIsOk who now = ground (arith, ok.kind, ok.assigned)

  pub nudged-RowIsOk : (remaining now : ℕ) → RowIsOk cfg (set_nudged cfg remaining now t)
  nudged-RowIsOk remaining now = ground (arith, ok.kind, ok.claimed, ok.offered, ok.answered)

  pub submitted-RowIsOk : (who : A) (o : Outcome) → RowIsOk cfg (set_submitted who o t)
  submitted-RowIsOk who o = ground (arith, ok.assigned)

  pub cleared-RowIsOk : t.status ≡ TaskStatus.awaiting_clearance → RowIsOk cfg (set_cleared t)
  cleared-RowIsOk st = ground (arith, ok.answered)

  pub reopened-RowIsOk : (now : ℕ) → RowIsOk cfg (set_reopened now t)
  reopened-RowIsOk now = ground (arith, ok.assigned)

  pub rehomed-RowIsOk : (to : A) (now : ℕ) → RowIsOk cfg (set_rehomed to now t)
  rehomed-RowIsOk to now = ground arith

  pub assigned-RowIsOk :
      (to : A) (what expect : Text) (now : ℕ)
      → t.status ≡ TaskStatus.pending
      → RowIsOk cfg (set_assigned to what expect now t)
  assigned-RowIsOk to what expect now st = ground (arith, ok.offered)

-- The parent of a sub-task that was answered or accepted.
pub rearmed-RowIsOk :
    {A : Type 0} (cfg : Config) (now : ℕ) (t : Task A) → RowIsOk cfg t → RowIsOk cfg (rearm now t)
rearmed-RowIsOk cfg now t ok =
    ground (arith, ok.kind, ok.claimed, ok.offered, ok.answered, ok.assigned)

pub closed-RowIsOk :
    {A : Type 0} (cfg : Config) (now : ℕ) (t : Task A)
    → is_parent_task t ≡ true
    → RowIsOk cfg t
    → RowIsOk cfg (set_closed TaskStatus.closed now t)
closed-RowIsOk cfg now t p ok = ground (arith, ok.kind)

pub planned-RowIsOk :
    {A : Type 0} (cfg : Config) (now : ℕ) (t : Task A)
    → is_parent_task t ≡ true
    → RowIsOk cfg t
    → RowIsOk cfg (set_planned cfg now t)
planned-RowIsOk cfg now t p ok = ground (arith, ok.kind)

pub failed-RowIsOk :
    {A : Type 0} (cfg : Config) (now : ℕ) (t : Task A)
    → is_parent_task t ≡ true
    → RowIsOk cfg t
    → RowIsOk cfg (set_closed TaskStatus.failed now t)
failed-RowIsOk cfg now t p ok = ground (arith, ok.kind)
