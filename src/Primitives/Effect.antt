-- ===== src/Primitives/Effect.antt =====
-- `Effect` of crates/miot-primitives/src/lib.rs: what happened, for the caller to fan out and for a
-- replica to fold.
use akuma_miot.Prelude.{ℕ, Bool, true, false, Option, none, some, List, [], ◌∷◌, if◌then◌else◌}
use akuma_miot.Primitives.Ids.{MessageId, ArtifactId}
use akuma_miot.Primitives.TaskId.{TaskId}
use akuma_miot.Primitives.Text.{Text}
use akuma_miot.Primitives.Vocabulary.{Act, Directive, Requeue}

pub data Effect {ℓ} (A : Type ℓ) : Type ℓ where
  assigned : (to : A) (task : TaskId) (what expect : Text) → Effect A
  directed : (to : A) (task : TaskId) (directive : Directive) → Effect A
  nudge : (to : A) (task : TaskId) (remaining : ℕ) (last : Bool) → Effect A
  said : (from : A) (to : Option A) (body : Text) (from_root no_ack off_record : Bool) → Effect A
  opened : (who : A) (task : TaskId) (text : Text) → Effect A
  planned : (who : A) (task : TaskId) (count : ℕ) → Effect A
  recorded : (who : A) (task : TaskId) (act : Act) (text : Text) → Effect A
  requeued : (task : TaskId) (from : Option A) (why : Requeue) → Effect A
  nudge_budget_spent : (holder : A) (task : TaskId) → Effect A
  closed : (task : TaskId) (title body : Text) (author : A) → Effect A
  failed : (task : TaskId) → Effect A
  rehomed : (task : TaskId) (from : Option A) (to : A) → Effect A
  standalone_artifact : (author : A) (id : ℕ) (title body : Text) → Effect A
  stats_reported : (who : A) (turns tool_calls tokens ms : ℕ) → Effect A
  stats_reported2 : (who : A) (turns tool_calls messages tokens ms : ℕ) → Effect A
  message :
      (id : MessageId) (from : A) (to : Option A) (body : Text) (parent : Option MessageId)
      (artifact_id : Option ArtifactId) (tags : List Text) (from_root no_ack off_record : Bool)
      → Effect A
  reacted : (who : A) (target : MessageId) (emoji : Text) → Effect A
  voted : (who : A) (artifact : ArtifactId) (up : Bool) → Effect A
  patron_requested : (who : A) (name note : Text) (carrier : A) → Effect A
  patron_approved : (who : A) (name : Text) (by : A) → Effect A
  patron_rejected : (who by : A) → Effect A
  patron_revoked : (who by : A) → Effect A

module _ {ℓ} {A : Type ℓ} where
  unfoldable pub wakes : Effect A → Bool
  wakes (Effect.assigned to task what expect) = true
  wakes (Effect.directed to task directive) = true
  wakes (Effect.nudge to task remaining last) = true
  wakes (Effect.said from to body from_root no_ack off_record) = true
  wakes (Effect.message id from to body parent artifact_id tags from_root no_ack off_record) = true
  wakes _ = false

  -- `Effect::to`
  unfoldable pub addressee : Effect A → Option A
  addressee (Effect.assigned to task what expect) = some to
  addressee (Effect.directed to task directive) = some to
  addressee (Effect.nudge to task remaining last) = some to
  addressee (Effect.said from to body from_root no_ack off_record) = to
  addressee (Effect.message id from to body parent artifact_id tags from_root no_ack off_record) =
      to
  addressee _ = none

  -- The loop of `partition_waking`, over the two vectors that it fills.
  unfoldable pub partition_waking : List (Effect A) → List (Effect A) × List (Effect A)
  unfolding wakes
  partition_waking [] = ([], [])
  partition_waking (e ∷ es) =
      let (waking, quiet) = partition_waking es in
      if wakes e then (e ∷ waking, quiet) else (waking, e ∷ quiet)
