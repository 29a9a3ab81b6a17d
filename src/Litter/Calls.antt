-- ===== src/Litter/Calls.antt =====
-- The calls of crates/pallet-litter/src/lib.rs that go through the task table. A call takes the account
-- that `ensure_signed` recovered, and gives the storage after it with the effects it deposits, or why
-- it is refused.
use akuma_miot.Prelude.{
  ℕ, Bool, not, Option, some, List, [], if◌then◌else◌, Eq, holds, Result, ok, err, ◌>>=◌, ◌>>◌,
  guard,
}
use akuma_miot.Primitives.Words.{saturating_add_u32}
use akuma_miot.Primitives.Text.{Text}
use akuma_miot.Primitives.TaskId.{TaskId}
use akuma_miot.Primitives.Vocabulary
use akuma_miot.Primitives.Vocabulary.{Act, Authority, PlanItem}
use akuma_miot.Primitives.Effect.{Effect}
use akuma_miot.Tasks.Table.{TaskTable, into_state}
use akuma_miot.Tasks.Acts
use akuma_miot.Tasks.Acts.{Verdict}
use akuma_miot.Tasks.Update
use akuma_miot.Litter.Maps.{lookup, contains_key}
use akuma_miot.Litter.Storage.{Storage, Error, from_task_error}
use akuma_miot.Litter.Runtime.{Runtime, table}

abbrev pub Receipt {ℓ} : Type ℓ → Type ℓ → Type ℓ
Receipt A C = Result Error (Storage A C × List (Effect A))

-- `.map(|(_, fx)| fx)`
abbrev pub forget_id {ℓ} :
    {A : Type ℓ} {B : Type 0}
    → Result Vocabulary.Error (B × (TaskTable A × List (Effect A)))
    → Verdict A
forget_id (ok (b, r)) = ok r
forget_id (err e) = err e

module _ {ℓ} {A C : Type ℓ} where
  -- `commit`: the table goes back into storage, and its effects are deposited.
  abbrev pub put_table : Storage A C → TaskTable A → Storage A C
  put_table s t = record s { litter = into_state t }

  abbrev pub commit : Storage A C → TaskTable A × List (Effect A) → Storage A C × List (Effect A)
  commit s (t, effects) = (put_table s t, effects)

  -- `map_err(Error::<T>::from)?`, and `commit`.
  unfoldable pub settle : Storage A C → Verdict A → Receipt A C
  settle s (ok r) = ok (commit s r)
  settle s (err e) = err (from_task_error e)

  -- `Epoch::mutate(|e| *e = e.saturating_add(1))`
  abbrev pub next_epoch : Storage A C × List (Effect A) → Storage A C × List (Effect A)
  next_epoch (s, effects) = (record s { epoch = saturating_add_u32 s.epoch 1 }, effects)

  -- Only the chain's own root origin reaches this call.
  abbrev pub set_root : Storage A C → A → Storage A C × List (Effect A)
  set_root s who = (record s { litter = record s.litter { root = some who } }, [])

module _ {ℓ} {A C : Type ℓ} ⦃e : Eq A⦄ (rt : Runtime A C) (s : Storage A C) where
  -- `Pallet::is_root`
  abbrev pub is_operator : A → Bool
  is_operator who = holds s.litter.root who

  unfoldable pub is_patron : A → Bool
  unfolding lookup
  is_patron who = contains_key who s.patrons

  abbrev pub ensure_not_patron : A → Result Error (Unit {0})
  ensure_not_patron who = guard (not (is_patron who)) Error.not_authorized

  unfoldable pub authority_of : A → Authority
  authority_of who =
      if holds s.litter.root who
      then Authority.root
      else if holds s.litter.leader who
      then Authority.leader
      else Authority.peer

  -- `Pallet::apply`: load, apply, store, emit.
  unfoldable pub apply : A → (TaskTable A → Authority → Verdict A) → Receipt A C
  unfolding authority_of settle
  apply who verb = settle s (verb (table rt s) (authority_of who))

  unfoldable pub open_task : ℕ → A → Text → Receipt A C
  unfolding is_patron apply Acts.open_task
  open_task now who text = do
    ensure_not_patron who
    apply who (λ t auth. forget_id (Acts.open_task t who auth text now))

  unfoldable pub plan : ℕ → A → TaskId → List (PlanItem A) → Receipt A C
  unfolding is_patron apply Acts.plan
  plan now who parent assignments = do
    ensure_not_patron who
    apply who (λ t auth. Acts.plan t who auth parent assignments now)

  unfoldable pub update : ℕ → A → TaskId → Act → Text → Receipt A C
  unfolding is_patron apply Update.update
  update now who task act text = do
    ensure_not_patron who
    apply who (λ t auth. Update.update t who auth task act text now)

  unfoldable pub set_leader : ℕ → A → A → Receipt A C
  unfolding Acts.set_leader
  set_leader now caller who = do
    guard (holds s.litter.root caller) Error.not_authorized
    ok (commit s (Acts.set_leader (table rt s) who now))

  unfoldable pub say : A → Option A → Text → Bool → Bool → Receipt A C
  unfolding apply Acts.say
  say who to body no_ack off_record =
      apply who (λ t auth. Acts.say t who auth to body no_ack off_record)

  unfoldable pub clear_all : ℕ → A → Receipt A C
  unfolding is_patron apply Acts.clear_all
  clear_all now who = do
    ensure_not_patron who
    r ← apply who (λ t auth. Acts.clear_all t auth now)
    ok (next_epoch r)

  unfoldable pub reassign : ℕ → A → TaskId → A → Receipt A C
  unfolding is_patron apply Acts.reassign
  reassign now who task to = do
    ensure_not_patron who
    apply who (λ t auth. Acts.reassign t who auth task to now)

  unfoldable pub publish_standalone_artifact : ℕ → A → Text → Receipt A C
  unfolding is_patron apply Acts.publish_standalone_artifact
  publish_standalone_artifact now who text = do
    ensure_not_patron who
    apply who (λ t _. forget_id (Acts.publish_standalone_artifact t who text now))

  unfoldable pub request_compaction : A → Receipt A C
  unfolding is_patron authority_of
  request_compaction who = do
    ensure_not_patron who
    guard (Acts.is_root (authority_of who)) Error.not_authorized
    ok (next_epoch (s, []))
