-- ===== src/Tasks/Examples.antt =====
-- The theorems on the task table (crates/miot-tasks/src/lib.rs) at a small board: account 0 is the
-- root, 1 leads, 2 and 3 work.
use akuma_miot.Prelude.{
  ◌+◌, ◌||◌, leb, true, ◌&&◌, is_some_and, holds, keep, not, ◌-◌, length, if◌then◌else◌, ℕ, ◌≡◌,
  refl, some, List, [], ◌∷◌, arith, nat_eq,
}
use akuma_miot.Primitives.Text.{len, Text, of_string}
use akuma_miot.Tasks.Table.{find_task, TaskTable, new}
use akuma_miot.Tasks.Acts.{reassign, is_root, is_leader, open_task, plan, set_leader}
use akuma_miot.Tasks.Acts.Accepted.{Opens, Moves, open_task-Opens, is_movable, reassign-Moves}
use akuma_miot.Primitives.TaskId.{parent, sub, same}
use akuma_miot.Primitives.Vocabulary.{status_eq, Authority, Act, PlanItem}
use akuma_miot.Primitives.Config.{default_config}
use akuma_miot.Primitives.Effect.{Effect}
use akuma_miot.Tasks.Rows.{with_tasks}
use akuma_miot.Tasks.Gc.{gc}
use akuma_miot.Tasks.Statuses.{status_of}
use akuma_miot.Tasks.Gc.Survivors.{is_gone, gc-is_gone, gc-gc}
use akuma_miot.Tasks.Update.Outcomes.{status_after, update-status_of}
use akuma_miot.Tasks.Acts.Plans.{plan-may_plan, may_plan}
use akuma_miot.Tasks.Update.{update}
use akuma_miot.Tasks.Update.Accepted.{update-is_allowed, is_ok, is_allowed}
use akuma_miot.Tasks.Tick.{tick, directive_for}
use akuma_miot.Tasks.Tick.Steps.{tick_rows}
use akuma_miot.Tasks.Tick.Pointwise.{tick_pointwise}
use akuma_miot.Tasks.Tick.Quiet.{tick-tick}
use akuma_miot.Tasks.Invariant.{IsWellFormed}
use akuma_miot.Tasks.Invariant.Verdicts.{Leaves}
use akuma_miot.Tasks.Invariant.Ticks.{tick-IsWellFormed}
use akuma_miot.Tasks.Invariant.Updates.{update-IsWellFormed}
use akuma_miot.Tasks.Invariant.Opens.{open_task-IsWellFormed, plan-IsWellFormed}
use akuma_miot.Tasks.History.{Command, replay, run}
use akuma_miot.Tasks.History.Runs.{replay-run, run-IsWellFormed, new-IsWellFormed}

abbrev empty_board : TaskTable ℕ
empty_board = new default_config (some 0)

abbrev items : List (PlanItem ℕ)
items =
    record { who = 2; what = of_string "brew"; expect = of_string "tea" }
    ∷ record { who = 3; what = of_string "pour"; expect = [] }
    ∷ []

abbrev opening_script : List (ℕ × Command ℕ)
opening_script =
    (1, Command.elects 1) ∷ (2, Command.opens 0 Authority.root (of_string "serve tea")) ∷ []

abbrev script : List (ℕ × Command ℕ)
script =
    (1, Command.elects 1)
    ∷ (2, Command.opens 0 Authority.root (of_string "serve tea"))
    ∷ (3, Command.plans 1 Authority.leader (parent 1) items)
    ∷ (4, Command.updates 2 Authority.peer (sub 1 1) Act.claim [])
    ∷ (5, Command.updates 3 Authority.peer (sub 1 1) Act.claim [])
    ∷ (200, Command.ticks)
    ∷ []

-- A parent that is not split yet.
abbrev opened_board : TaskTable ℕ
opened_board = (run empty_board opening_script).0

-- The first sub-task was claimed, and its lease has passed.
abbrev board : TaskTable ℕ
board = (run empty_board script).0

opened_board-IsWellFormed : IsWellFormed opened_board
opened_board-IsWellFormed =
    run-IsWellFormed empty_board opening_script (omega arith) (omega arith)
      (new-IsWellFormed default_config (some 0))

board-IsWellFormed : IsWellFormed board
board-IsWellFormed =
    run-IsWellFormed empty_board script (omega arith) (omega arith)
      (new-IsWellFormed default_config (some 0))

run-IsWellFormed_example : IsWellFormed (run empty_board script).0
run-IsWellFormed_example =
    run-IsWellFormed empty_board script (omega arith) (omega arith)
      (new-IsWellFormed default_config (some 0))

replay-run_example : replay empty_board (run empty_board script).1 ≡ (run empty_board script).0
replay-run_example =
    replay-run empty_board script (refl, (refl, (refl, (refl, (refl, (refl, tt))))))

tick_pointwise_example :
    (tick board 300).0 ≡ with_tasks board (tick_rows board.cfg board.leader 300 board.tasks)
tick_pointwise_example = tick_pointwise board 300 board-IsWellFormed.unique

tick-tick_example : (tick (tick opened_board 300).0 300).1 ≡ []
unfolding run open_task set_leader
tick-tick_example =
    tick-tick 300 opened_board (omega arith, omega arith, omega arith, omega arith)
      opened_board-IsWellFormed.unique

tick-IsWellFormed_example : IsWellFormed (tick board 300).0
tick-IsWellFormed_example = tick-IsWellFormed board 300 board-IsWellFormed

update-IsWellFormed_example :
    Leaves
      (λ r. IsWellFormed r.0)
      (update board 2 Authority.peer (sub 1 1) Act.done (of_string "brewed") 6)
update-IsWellFormed_example =
    update-IsWellFormed board board-IsWellFormed 2 (sub 1 1) 6 Authority.peer Act.done
      (of_string "brewed")

update-is_allowed_example :
    is_ok (update board 3 Authority.peer (sub 1 2) Act.claim [] 6)
    ≡ is_allowed board 3 Authority.peer (sub 1 2) Act.claim []
update-is_allowed_example = update-is_allowed board 3 Authority.peer (sub 1 2) 6 Act.claim []

open_task-IsWellFormed_example :
    Leaves
      (λ r. IsWellFormed r.1.0)
      (open_task empty_board 0 Authority.root (of_string "serve tea") 2)
open_task-IsWellFormed_example =
    open_task-IsWellFormed empty_board (new-IsWellFormed default_config (some 0)) 2 0 Authority.root
      (of_string "serve tea") (omega arith)

plan-IsWellFormed_example :
    Leaves (λ r. IsWellFormed r.0) (plan opened_board 1 Authority.leader (parent 1) items 3)
unfolding run open_task set_leader
plan-IsWellFormed_example =
    plan-IsWellFormed opened_board opened_board-IsWellFormed 3 1 Authority.leader (parent 1) items
      (omega arith)

plan-may_plan_example :
    is_ok (plan opened_board 1 Authority.leader (parent 1) items 3)
    ≡ may_plan opened_board Authority.leader (parent 1) items
plan-may_plan_example = plan-may_plan opened_board 1 Authority.leader (parent 1) items 3

gc-is_gone_example : gc board 900 100 ≡ (
  with_tasks board (keep (λ t. not (is_gone 900 100 board.tasks t)) board.tasks),
  length board.tasks - length (keep (λ t. not (is_gone 900 100 board.tasks t)) board.tasks),
)
gc-is_gone_example = gc-is_gone 900 100 board

gc-gc_example : gc (gc board 900 100).0 900 100 ≡ ((gc board 900 100).0, 0)
gc-gc_example = gc-gc 900 100 board

update-status_of_example :
    Leaves
      (λ (r : TaskTable ℕ × List (Effect ℕ)). status_of (sub 1 2) r.0.tasks ≡ (
        if same (sub 1 2) (sub 1 2)
        then some (status_after Act.claim)
        else status_of (sub 1 2) board.tasks))
      (update board 3 Authority.peer (sub 1 2) Act.claim [] 6)
update-status_of_example =
    update-status_of board 3 (sub 1 2) 6 (sub 1 2) Authority.peer Act.claim []

abbrev request_text : Text
request_text = of_string "serve tea"

opens_on_the_board : is_ok (open_task board 0 Authority.root request_text 7) ≡ true
unfolding open_task run tick update plan set_leader same status_eq directive_for
opens_on_the_board = refl

moves_on_the_board : is_ok (reassign board 1 Authority.leader (sub 1 2) 2 6) ≡ true
unfolding reassign run tick update plan open_task set_leader same status_eq directive_for
moves_on_the_board = refl

open_task-Opens_example :
    (is_ok (open_task board 0 Authority.root request_text 7)
      ≡ (is_root Authority.root || is_leader Authority.root)
        && leb (len request_text) board.cfg.limits.max_text
        && leb (length board.tasks + 1 + board.cfg.limits.max_subtasks) board.cfg.limits.max_tasks)
    × Leaves (Opens board 0 request_text) (open_task board 0 Authority.root request_text 7)
open_task-Opens_example = open_task-Opens board 7 0 Authority.root request_text board-IsWellFormed

reassign-Moves_example :
    (is_ok (reassign board 1 Authority.leader (sub 1 2) 2 6)
      ≡ is_leader Authority.leader
        && not (holds board.root 2)
        && is_some_and is_movable (find_task (sub 1 2) board.tasks))
    × Leaves (Moves board (sub 1 2) 2 6) (reassign board 1 Authority.leader (sub 1 2) 2 6)
reassign-Moves_example = reassign-Moves board 6 1 Authority.leader (sub 1 2) 2
