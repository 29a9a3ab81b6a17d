-- ===== src/Kot/Chain/Effects.antt =====
-- What the effects of a block of crates/kot/src/node.rs make of the state, those that are off the record
-- among them.
use akuma_miot.Prelude.{
  ℕ, ◌≡◌, refl, sym, ap, ◌∙◌, true, false, List, [], ◌∷◌, ◌++◌, arith, keep, if-rule, Eq, ok, err,
  ◌>>=◌,
}
use akuma_miot.Primitives.Effect.{Effect}
use akuma_miot.Litter.Storage.{Storage}
use akuma_miot.Litter.Runtime.{Runtime}
use akuma_miot.Litter.Talk.{put_stats, put_messages, put_vote, comment_on}
use akuma_miot.Litter.Patrons.{fold_patron}
use akuma_miot.Litter.Blocks.{replay_effect, replay_all}
use akuma_miot.Litter.Dispatch.{Call, dispatch}
use akuma_miot.Litter.Calls.{clear_all, request_compaction, apply, settle, next_epoch}
use akuma_miot.Litter.Replica.{replay_all-append}
use akuma_miot.Litter.Replica.Calls.{is_announced}
use akuma_miot.Tasks.Apply
use akuma_miot.Tasks.Acts.{Verdict}
use akuma_miot.Tasks.Invariant.Verdicts.{Leaves, Leaves-ok, Leaves-check, Leaves-guard}
use akuma_miot.Kot.Chain.{is_recorded}
use akuma_miot.Kot.Chain.Calls.{wants_compaction}

module _ {A C : Type 0} ⦃e : Eq A⦄ (rt : Runtime A C) (now : ℕ) where
  replay_effect-unrecorded :
      (s : Storage A C) (x : Effect A) → is_recorded x ≡ false → replay_effect rt s x now ≡ s
  unfolding replay_effect Apply.apply
  replay_effect-unrecorded s x h = ground arith

  -- What is said off the record leaves no trace in the state.
  pub replay_all-keep :
      (s : Storage A C) (xs : List (Effect A))
      → replay_all rt s (keep is_recorded xs) now ≡ replay_all rt s xs now
  unfolding replay_all keep
  replay_all-keep s [] = refl
  replay_all-keep s (x ∷ xs) =
      if-rule
        (λ (l : List (Effect A)).
          replay_all rt s l now ≡ replay_all rt (replay_effect rt s x now) xs now)
        (is_recorded x) (x ∷ keep is_recorded xs) (keep is_recorded xs)
        (λ y. replay_all-keep (replay_effect rt s x now) xs)
        (λ n.
          replay_all-keep s xs
          ∙ ap (λ u. replay_all rt u xs now) (sym (replay_effect-unrecorded s x n)))

  -- The effects that a block body has, after others.
  pub replay_all-recorded :
      (s : Storage A C) (xs es : List (Effect A))
      → replay_all rt s (xs ++ keep is_recorded es) now
        ≡ replay_all rt (replay_all rt s xs now) es now
  replay_all-recorded s xs es =
      replay_all-append rt now s xs (keep is_recorded es)
      ∙ replay_all-keep (replay_all rt s xs now) es

  replay_effect-replaying :
      (s : Storage A C) (x : Effect A) → (replay_effect rt s x now).replaying ≡ s.replaying
  unfolding replay_effect put_stats put_messages put_vote fold_patron comment_on
  replay_effect-replaying s x = ground arith

  pub replay_all-replaying :
      (s : Storage A C) (xs : List (Effect A)) → (replay_all rt s xs now).replaying ≡ s.replaying
  unfolding replay_all
  replay_all-replaying s [] = refl
  replay_all-replaying s (x ∷ xs) =
      replay_all-replaying (replay_effect rt s x now) xs ∙ replay_effect-replaying s x

pub wants-announced : {A : Type 0} (c : Call A) → wants_compaction c ≡ false → is_announced c ≡ true
wants-announced c h = ground arith

module _ {A C : Type 0} ⦃e : Eq A⦄ (rt : Runtime A C) (s : Storage A C) (now : ℕ) where
  abbrev StaysLive : Storage A C × List (Effect A) → Type 0
  StaysLive r = r.0.replaying ≡ s.replaying

  settle-StaysLive : (v : Verdict A) → Leaves StaysLive (settle s v >>= λ r. ok (next_epoch r))
  unfolding settle
  settle-StaysLive (ok r) = Leaves-ok _ refl
  settle-StaysLive (err x) = record { left = tt }

  -- The calls that ask for a compaction leave the flag of the node alone.
  pub dispatch-StaysLive :
      (who : A) (c : Call A)
      → wants_compaction c ≡ true
      → Leaves StaysLive (dispatch rt s now who c)
  unfolding dispatch clear_all request_compaction apply
  dispatch-StaysLive who Call.clears h = search (Leaves-check, settle-StaysLive) depth 6
  dispatch-StaysLive who Call.compacts h = search (Leaves-check, Leaves-guard, Leaves-ok) depth 6
  dispatch-StaysLive who _ h = cc
