-- ===== src/Tasks/Acts/Plans.antt =====
-- When `TaskTable::plan` of crates/miot-tasks/src/lib.rs accepts a plan, and the rows that it makes of one.
use akuma_miot.Prelude.{
  ℕ, ◌≡◌, refl, Bool, not, ◌&&◌, Option, List, [], ◌∷◌, arith, all, is_empty, is_some_and, length,
  leb, Eq, holds,
}
use akuma_miot.Primitives.Text.{len}
use akuma_miot.Primitives.TaskId.{TaskId, is_parent}
use akuma_miot.Primitives.Vocabulary.{TaskStatus, status_eq, PlanItem, Authority}
use akuma_miot.Primitives.Config.{Limits}
use akuma_miot.Primitives.Effect.{Effect}
use akuma_miot.Tasks.Table.{TaskTable, has_status, find_task}
use akuma_miot.Tasks.Acts.{is_leader, plan, check_items, check_unsplit}
use akuma_miot.Tasks.Update.Accepted.{is_ok}

module _ {A : Type 0} ⦃e : Eq A⦄ where
  -- An item may stand: it is not for the root, and both of its texts are within the limit.
  abbrev pub may_stand : Limits → Option A → PlanItem A → Bool
  may_stand limits root it =
      not (holds root it.who)
      && leb (len it.what) limits.max_text
      && leb (len it.expect) limits.max_text

  abbrev pub may_plan : TaskTable A → Authority → TaskId → List (PlanItem A) → Bool
  may_plan s auth id items =
      is_leader auth
      && is_parent id
      && not (is_empty items)
      && leb (length items) s.cfg.limits.max_subtasks
      && all (may_stand s.cfg.limits s.root) items
      && is_some_and (has_status TaskStatus.opening) (find_task id s.tasks)

  check_items-all :
      (limits : Limits) (root : Option A) (items : List (PlanItem A))
      → is_ok (check_items limits root items) ≡ all (may_stand limits root) items
  unfolding check_items all
  check_items-all limits root [] = refl
  check_items-all limits root (it ∷ items) = ground (arith, check_items-all limits root items)

  -- A plan is accepted exactly from the leader, for a parent that is there and was not split, with at
  -- least one item and at most `max_subtasks`, each within the limit on texts and none for the root.
  pub plan-may_plan :
      (s : TaskTable A) (who : A) (auth : Authority) (id : TaskId) (items : List (PlanItem A))
      (now : ℕ)
      → is_ok (plan s who auth id items now) ≡ may_plan s auth id items
  unfolding plan check_unsplit status_eq
  plan-may_plan s who auth id items now = ground (arith, check_items-all s.cfg.limits s.root items)
