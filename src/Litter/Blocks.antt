-- ===== src/Litter/Blocks.antt =====
-- What crates/pallet-litter/src/lib.rs does at a block without a call: the hook that opens it, the tick
-- of a node that was promoted, and the folding of effects that another node produced.
use akuma_miot.Prelude.{ℕ, ◌||◌, Bool, not, ltb, some, List, [], ◌∷◌, if◌then◌else◌, is_empty, Eq}
use akuma_miot.Primitives.Effect.{Effect}
use akuma_miot.Tasks.Table.{TaskTable}
use akuma_miot.Tasks.Apply
use akuma_miot.Tasks.Tick.{tick}
use akuma_miot.Tasks.Gc.{gc}
use akuma_miot.Litter.Storage.{Storage}
use akuma_miot.Litter.Runtime.{Runtime, table}
use akuma_miot.Litter.Calls.{put_table, commit}
use akuma_miot.Litter.Talk.{put_stats, put_messages, put_vote, comment_on}
use akuma_miot.Litter.Patrons.{fold_patron}

module _ {ℓ} {A C : Type ℓ} where
  abbrev pub set_replaying : Storage A C → Bool → Storage A C
  set_replaying s on = record s { replaying = on }

  -- A block at which nothing was said and nothing swept is not written.
  unfoldable pub finish_hook :
      Storage A C → TaskTable A × List (Effect A) → TaskTable A × ℕ → Storage A C × List (Effect A)
  finish_hook s ticked swept =
      if not (is_empty ticked.1) || ltb 0 swept.1 then commit s (swept.0, ticked.1) else (s, [])

module _ {ℓ} {A C : Type ℓ} (rt : Runtime A C) (s : Storage A C) (now : ℕ) where
  -- The tick, unless the block that is folded carries its effects.
  unfoldable pub hook_tick : Bool → TaskTable A × List (Effect A)
  unfolding tick
  hook_tick replaying = if replaying then (table rt s, []) else tick (table rt s) now

  unfoldable pub on_initialize : Storage A C × List (Effect A)
  unfolding hook_tick gc finish_hook
  on_initialize =
      let ticked = hook_tick s.replaying in
      finish_hook s ticked (gc ticked.0 now rt.constants.gc_keep_for)

  unfoldable pub tick_now : Storage A C × List (Effect A)
  unfolding tick
  tick_now =
      let (t, effects) = tick (table rt s) now in
      if is_empty effects then (s, []) else commit s (t, effects)

module _ {ℓ} {A C : Type ℓ} ⦃e : Eq A⦄ (rt : Runtime A C) where
  unfoldable pub replay_effect : Storage A C → Effect A → ℕ → Storage A C
  unfolding put_stats put_messages put_vote fold_patron comment_on Apply.apply
  replay_effect s (Effect.stats_reported who turns tool_calls tokens ms) now =
      put_stats s who turns tool_calls tokens ms
  replay_effect s (Effect.stats_reported2 who turns tool_calls messages tokens ms) now =
      put_messages (put_stats s who turns tool_calls tokens ms) who messages
  replay_effect s (Effect.voted who artifact up) now = put_vote s who artifact up
  replay_effect s (Effect.patron_requested who name note carrier) now =
      fold_patron rt s (Effect.patron_requested who name note carrier) now
  replay_effect s (Effect.patron_approved who name by) now =
      fold_patron rt s (Effect.patron_approved who name by) now
  replay_effect s (Effect.patron_rejected who by) now =
      fold_patron rt s (Effect.patron_rejected who by) now
  replay_effect s (Effect.patron_revoked who by) now =
      fold_patron rt s (Effect.patron_revoked who by) now
  replay_effect s (Effect.message id who to body parent (some a) tags from_root no_ack off_record)
        now =
      comment_on s now who a body
  replay_effect s effect now = put_table s (Apply.apply (table rt s) effect now)

  -- A block of effects, one after the other.
  unfoldable pub replay_all : Storage A C → List (Effect A) → ℕ → Storage A C
  unfolding replay_effect
  replay_all s [] now = s
  replay_all s (x ∷ xs) now = replay_all (replay_effect s x now) xs now
