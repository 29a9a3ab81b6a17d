-- ===== src/Litter/Powers.antt =====
-- What the accounts of crates/pallet-litter/src/lib.rs may do: a patron never moves a task, and only the
-- root moves the epoch or names a leader.
use akuma_miot.Prelude.{
  ℕ, ◌≡◌, refl, Bool, true, false, not, ◌&&◌, Option, none, some, List, arith, Eq, ok, err,
  Bool-cases, inl, inr,
}
use akuma_miot.Prelude.{if◌then◌else◌}
use akuma_miot.Primitives.Words.{saturating_add_u32}
use akuma_miot.Primitives.Ids.{ArtifactId}
use akuma_miot.Primitives.Text.{Text}
use akuma_miot.Primitives.Effect.{Effect}
use akuma_miot.Tasks.Acts
use akuma_miot.Tasks.Acts.{Verdict}
use akuma_miot.Tasks.Invariant.Verdicts.{
  Leaves, Leaves-ok, Leaves-check, Leaves-guard, Leaves-ok_or,
}
use akuma_miot.Litter.Storage.{Storage, Error}
use akuma_miot.Litter.Runtime.{Runtime}
use akuma_miot.Litter.Calls.{
  Receipt, is_patron, is_operator, authority_of, apply, settle, open_task, plan, update, set_leader,
  say, clear_all, reassign, publish_standalone_artifact, request_compaction,
}
use akuma_miot.Litter.Talk.{
  report_stats, report_stats2, post, react, vote, put_vote, put_stats, put_messages, comment_if,
  comment_on,
}
use akuma_miot.Litter.Patrons.{
  carry_patron_request, approve_patron, reject_patron_request, revoke_patron, settle_patron,
  fold_patron,
}
use akuma_miot.Litter.Dispatch.{outcome, Call, dispatch, step}

-- The calls that are open to patrons.
abbrev pub is_open_to_patrons {ℓ} : {A : Type ℓ} → Call A → Bool
is_open_to_patrons (Call.says to body no_ack off_record) = true
is_open_to_patrons (Call.posts id to body parent artifact_id tags no_ack off_record) = true
is_open_to_patrons (Call.reacts target emoji) = true
is_open_to_patrons (Call.votes artifact up) = true
is_open_to_patrons (Call.approves requester) = true
is_open_to_patrons (Call.rejects requester) = true
is_open_to_patrons (Call.revokes patron) = true
is_open_to_patrons _ = false

module _ {A C : Type 0} ⦃e : Eq A⦄ (rt : Runtime A C) (s : Storage A C) (now : ℕ) (who : A) where
  -- A patron that is not the root is refused, as not authorized, every call but to talk, to vote and to
  -- answer for other patrons.
  pub dispatch-not_authorized :
      (c : Call A)
      → is_patron rt s who ≡ true
      → is_operator rt s who ≡ false
      → is_open_to_patrons c ≡ false
      → dispatch rt s now who c ≡ err Error.not_authorized
  unfolding dispatch open_task plan update set_leader clear_all reassign publish_standalone_artifact
      request_compaction report_stats report_stats2 carry_patron_request
  dispatch-not_authorized c p r o = ground arith

-- The calls that begin a new session.
abbrev pub is_boundary {ℓ} : {A : Type ℓ} → Call A → Bool
is_boundary Call.clears = true
is_boundary Call.compacts = true
is_boundary _ = false

module _ {A C : Type 0} (s : Storage A C) where
  -- The session goes on.
  abbrev Stays : Storage A C × List (Effect A) → Type 0
  Stays r = r.0.epoch ≡ s.epoch

  settle-Stays : (v : Verdict A) → Leaves Stays (settle s v)
  unfolding settle
  settle-Stays (ok r) = record { left = refl }
  settle-Stays (err x) = record { left = tt }

  comment_if-epoch :
      (a : Option ArtifactId) (now : ℕ) (who : A) (body : Text)
      → (comment_if a s now who body).epoch ≡ s.epoch
  unfolding comment_if comment_on
  comment_if-epoch none now who body = refl
  comment_if-epoch (some a) now who body = refl

  ruleset staying =
      (Leaves-ok, Leaves-check, Leaves-guard, Leaves-ok_or, refl, settle-Stays, comment_if-epoch)

  Stays-outcome : (v : Receipt A C) → Leaves Stays v → (outcome s v).0.epoch ≡ s.epoch
  Stays-outcome (ok r) h = h.left
  Stays-outcome (err x) h = refl

module _ {A C : Type 0} ⦃e : Eq A⦄ (rt : Runtime A C) (s : Storage A C) (now : ℕ) (who : A) where
  dispatch-Stays : (c : Call A) → is_boundary c ≡ false → Leaves (Stays s) (dispatch rt s now who c)
  unfolding dispatch open_task plan update set_leader say reassign publish_standalone_artifact
      report_stats report_stats2 post react vote carry_patron_request approve_patron
      reject_patron_request revoke_patron apply settle_patron fold_patron put_vote put_stats
      put_messages
  dispatch-Stays (Call.opens text) h = search staying depth 12
  dispatch-Stays (Call.plans parent items) h = search staying depth 12
  dispatch-Stays (Call.updates task act text) h = search staying depth 12
  dispatch-Stays (Call.elects leader) h = search staying depth 12
  dispatch-Stays (Call.reassigns task to) h = search staying depth 12
  dispatch-Stays (Call.says to body no_ack off_record) h = search staying depth 12
  dispatch-Stays (Call.publishes text) h = search staying depth 12
  dispatch-Stays (Call.reports turns tool_calls tokens ms) h = search staying depth 12
  dispatch-Stays (Call.reports2 turns tool_calls messages tokens ms) h = search staying depth 12
  dispatch-Stays (Call.posts id to body parent artifact_id tags no_ack off_record) h =
      search staying depth 12
  dispatch-Stays (Call.reacts target emoji) h = search staying depth 12
  dispatch-Stays (Call.votes artifact up) h = search staying depth 12
  dispatch-Stays (Call.carries requester name note sig) h = search staying depth 16
  dispatch-Stays (Call.approves requester) h = search staying depth 12
  dispatch-Stays (Call.rejects requester) h = search staying depth 12
  dispatch-Stays (Call.revokes patron) h = search staying depth 12
  dispatch-Stays Call.clears h = cc
  dispatch-Stays Call.compacts h = cc

  clears-epoch : (step rt s now (who, Call.clears)).0.epoch ≡ (
      if is_operator rt s who && not (is_patron rt s who)
      then saturating_add_u32 s.epoch 1
      else s.epoch)
  unfolding step dispatch clear_all apply settle authority_of Acts.clear_all
  clears-epoch = ground arith

  compacts-epoch : (step rt s now (who, Call.compacts)).0.epoch ≡ (
      if is_operator rt s who && not (is_patron rt s who)
      then saturating_add_u32 s.epoch 1
      else s.epoch)
  unfolding step dispatch request_compaction authority_of
  compacts-epoch = ground arith

  abbrev epoch_after : Call A → ℕ
  epoch_after c =
      if is_boundary c && is_operator rt s who && not (is_patron rt s who)
      then saturating_add_u32 s.epoch 1
      else s.epoch

  boundary-epoch :
      (c : Call A) → is_boundary c ≡ true → (step rt s now (who, c)).0.epoch ≡ epoch_after c
  boundary-epoch Call.clears h = clears-epoch
  boundary-epoch Call.compacts h = compacts-epoch
  boundary-epoch _ h = cc

  -- The epoch moves by one, up to its largest value, at a `clear_all` or a `request_compaction` of a root
  -- that is not a patron, and at no other call.
  pub step-epoch :
      (c : Call A)
      → (step rt s now (who, c)).0.epoch ≡ (
          if is_boundary c && is_operator rt s who && not (is_patron rt s who)
          then saturating_add_u32 s.epoch 1
          else s.epoch)
  unfolding step
  step-epoch c = elim (Bool-cases (is_boundary c)) [
    | inl y ↦ boundary-epoch c y
    | inr n ↦ rw n (Stays-outcome s (dispatch rt s now who c) (dispatch-Stays c n))
  ]
