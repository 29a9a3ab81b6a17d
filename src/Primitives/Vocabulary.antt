-- ===== src/Primitives/Vocabulary.antt =====
-- The enumerations and the small records of crates/miot-primitives/src/lib.rs.
use akuma_miot.Prelude.{ℕ, ◌≡◌, Bool, true, false, arith}
use akuma_miot.Primitives.Text.{Text, of_string}

-- `Open` is `opening` here, as `open` is a reserved word.
pub data TaskStatus : Type 0 where
  opening planned closed failed : TaskStatus
  pending in_progress awaiting_clearance cleared : TaskStatus

unfoldable pub status_eq : TaskStatus → TaskStatus → Bool
status_eq TaskStatus.opening TaskStatus.opening = true
status_eq TaskStatus.planned TaskStatus.planned = true
status_eq TaskStatus.closed TaskStatus.closed = true
status_eq TaskStatus.failed TaskStatus.failed = true
status_eq TaskStatus.pending TaskStatus.pending = true
status_eq TaskStatus.in_progress TaskStatus.in_progress = true
status_eq TaskStatus.awaiting_clearance TaskStatus.awaiting_clearance = true
status_eq TaskStatus.cleared TaskStatus.cleared = true
status_eq _ _ = false

pub status_sound : (a b : TaskStatus) → status_eq a b ≡ true → a ≡ b
unfolding status_eq
status_sound a b h = ground arith

pub data Act : Type 0 where
  claim done failed clear reopen artifact : Act

unfoldable pub as_str : Act → Text
as_str Act.claim = of_string "claim"
as_str Act.done = of_string "done"
as_str Act.failed = of_string "failed"
as_str Act.clear = of_string "clear"
as_str Act.reopen = of_string "reopen"
as_str Act.artifact = of_string "artifact"

-- What the caller is allowed to be, decided by the origin.
pub data Authority : Type 0 where
  root leader peer : Authority

pub record PlanItem {ℓ} (A : Type ℓ) : Type ℓ where
  pub who : A
  pub what : Text
  pub expect : Text

pub data Outcome : Type 0 where
  done failed : Text → Outcome

abbrev pub text : Outcome → Text
text (Outcome.done t) = t
text (Outcome.failed t) = t

abbrev pub is_failed : Outcome → Bool
is_failed (Outcome.done t) = false
is_failed (Outcome.failed t) = true

pub data Directive : Type 0 where
  plan_needed clearance_needed artifact_needed reassign_needed leader_elected : Directive

pub data Requeue : Type 0 where
  unclaimed rehomed lease_expired reopened : Requeue

pub data Error : Type 0 where
  not_authorized no_such_task wrong_status wrong_kind not_yours root_not_assignable empty_plan
        too_many_subtasks already_planned subtasks_outstanding too_long already_submitted
        already_claimed too_many_tasks :
      Error

pub record Artifact {ℓ} (A : Type ℓ) : Type ℓ where
  pub title : Text
  pub body : Text
  pub author : A
  pub at : ℕ
