-- ===== src/Litter/Replica.antt =====
-- A replica of the chain of crates/pallet-litter/src/lib.rs: what `replay_effect` makes of the effects
-- that a call deposited.
pub mod Tabled
pub mod Calls
pub mod Blocks
use akuma_miot.Prelude.{
  ℕ, ◌≡◌, refl, sym, ap, ◌∙◌, Bool, true, false, Option, none, some, List, [], ◌∷◌, ◌++◌, arith, Eq,
  Result, ok, err, All, is_some_and, not,
}
use akuma_miot.Primitives.Vocabulary
use akuma_miot.Primitives.Effect.{Effect}
use akuma_miot.Tasks.Table.{TaskTable, from_state, into_state}
use akuma_miot.Tasks.Apply
use akuma_miot.Tasks.Apply.{apply_all}
use akuma_miot.Tasks.Replay.{IsFold}
use akuma_miot.Tasks.History.Parents.{apply-cfg}
use akuma_miot.Tasks.Acts.{Verdict}
use akuma_miot.Tasks.Invariant.Verdicts.{
  Leaves, Leaves-ok, Leaves-check, Leaves-guard, Leaves-ok_or,
}
use akuma_miot.Litter.Storage.{Storage, Error}
use akuma_miot.Litter.Runtime.{Runtime, table, miot_config}
use akuma_miot.Litter.Calls.{Receipt, put_table, settle}
use akuma_miot.Litter.Blocks.{replay_effect, replay_all}
use akuma_miot.Litter.Replica.Tabled.{is_tabled, AreTabled, IsTabledResult}

module _ {A : Type 0} where
  from-into : (t : TaskTable A) (cfg : _) → t.cfg ≡ cfg → from_state (into_state t) cfg ≡ t
  from-into t cfg h = ap (λ c. record t { cfg = c }) (sym h)

module _ {A C : Type 0} ⦃e : Eq A⦄ (rt : Runtime A C) (now : ℕ) where
  replay_effect-table :
      (s : Storage A C) (x : Effect A)
      → is_tabled x ≡ true
      → replay_effect rt s x now ≡ put_table s (Apply.apply (table rt s) x now)
  unfolding replay_effect
  replay_effect-table s x h = ground arith

  -- The effects of the table alone are folded into the table alone.
  pub replay_all-table :
      (s : Storage A C) (xs : List (Effect A))
      → AreTabled xs
      → replay_all rt s xs now ≡ put_table s (apply_all (table rt s) xs now)
  unfolding replay_all apply_all
  replay_all-table s [] h = refl
  replay_all-table s (x ∷ xs) h = rw (replay_effect-table s x h.0) (
      replay_all-table (put_table s (Apply.apply (table rt s) x now)) xs h.1
      ∙ ap (λ t. put_table s (apply_all t xs now))
          (from-into (Apply.apply (table rt s) x now) (miot_config rt)
            (apply-cfg (table rt s) x now)))

  pub replay_all-append :
      (s : Storage A C) (xs ys : List (Effect A))
      → replay_all rt s (xs ++ ys) now ≡ replay_all rt (replay_all rt s xs now) ys now
  unfolding replay_all
  replay_all-append s [] ys = refl
  replay_all-append s (x ∷ xs) ys = replay_all-append (replay_effect rt s x now) xs ys

  -- The storage is what the effects make of the one before.
  abbrev pub IsReplayed : Storage A C → Storage A C × List (Effect A) → Type 0
  IsReplayed s r = replay_all rt s r.1 now ≡ r.0

  pub settle-IsReplayed :
      (s : Storage A C) (v : Verdict A)
      → Leaves (IsFold (table rt s) now) v
      → Leaves IsTabledResult v
      → Leaves (IsReplayed s) (settle s v)
  unfolding settle
  settle-IsReplayed s (ok r) h k =
      Leaves-ok _ (replay_all-table s r.1 k.left ∙ ap (put_table s) (sym h.left))
  settle-IsReplayed s (err x) h k = record { left = tt }
