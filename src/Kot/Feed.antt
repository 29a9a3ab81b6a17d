-- ===== src/Kot/Feed.antt =====
-- The log of effects that a node serves to cats (`Entry`, `Node::log`, `wake_target`, `stamp_block` and
-- `/events` of crates/kot/src/node.rs). An entry keeps the effect itself, where the source keeps its JSON.
pub mod Stamps
pub mod Counts
pub mod Tail
use akuma_miot.Prelude.{
  ℕ, Bool, true, false, not, ◌||◌, Option, none, some, List, [], ◌∷◌, ◌++◌, ◌==◌, leb, ltb,
  if◌then◌else◌, length, keep,
}
use akuma_miot.Primitives.Effect.{Effect, wakes, addressee}
use akuma_miot.Store.Log.{next}

-- Whom an entry wakes: an account (its hexadecimal rendering), or everyone ("*").
pub data Wake (A : Type 0) : Type 0 where
  one : (who : A) → Wake A
  everyone : Wake A

pub record Entry (A : Type 0) : Type 0 where
  pub seq : ℕ
  pub block : ℕ
  pub effect : Effect A
  pub wakes : Option (Wake A)
  pub at : Option ℕ

abbrev pub log_cap : ℕ
log_cap = 4096

-- The log, and the number of its last entry.
pub record Feed (A : Type 0) : Type 0 where
  pub log : List (Entry A)
  pub seq : ℕ

module _ {A : Type 0} where
  abbrev pub is_no_ack : Effect A → Bool
  is_no_ack (Effect.said from to body from_root no_ack off_record) = no_ack
  is_no_ack (Effect.message id from to body parent artifact_id tags from_root no_ack off_record) =
      no_ack
  is_no_ack _ = false

  -- `e.to().map(to_hex).unwrap_or_else(|| "*".to_string())`
  abbrev pub wake_of : Option A → Wake A
  wake_of none = Wake.everyone
  wake_of (some a) = Wake.one a

  unfoldable pub wake_target : Effect A → Option (Wake A)
  unfolding wakes addressee
  wake_target e = if is_no_ack e || not (wakes e) then none else some (wake_of (addressee e))

  -- `pop_front` of a log that is full.
  abbrev pub pop_front : List (Entry A) → List (Entry A)
  pop_front [] = []
  pop_front (e ∷ es) = es

  abbrev pub entry_of : ℕ → ℕ → Effect A → Entry A
  entry_of seq block e = record {
    seq = seq;
    block = block;
    effect = e;
    wakes = wake_target e;
    at = none;
  }

  -- What the loop of `absorb` does to the log for one effect.
  unfoldable pub log_effect : Feed A → ℕ → Effect A → Feed A
  unfolding wake_target
  log_effect f block e = record {
    log =
        (if leb log_cap (length f.log) then pop_front f.log else f.log)
        ++ entry_of (next f.seq) block e ∷ [];
    seq = next f.seq;
  }

  unfoldable pub log_all : Feed A → ℕ → List (Effect A) → Feed A
  unfolding log_effect
  log_all f block [] = f
  log_all f block (e ∷ es) = log_all (log_effect f block e) block es

  -- The loop of `stamp_block`, from the last entry on: whether it stopped, and the entries.
  unfoldable pub stamp_from : ℕ → Option ℕ → List (Entry A) → Bool × List (Entry A)
  stamp_from height at [] = (false, [])
  stamp_from height at (e ∷ es) =
      let rest = stamp_from height at es in
      if rest.0 || ltb e.block height
      then (true, e ∷ rest.1)
      else (false, (if e.block == height then record e { at = at } else e) ∷ rest.1)

  unfoldable pub stamp_block : Feed A → ℕ → Option ℕ → Feed A
  unfolding stamp_from
  stamp_block f height at = record f { log = (stamp_from height at f.log).1 }

  -- What `/events` answers.
  unfoldable pub events : Feed A → ℕ → List (Entry A)
  unfolding keep
  events f since = keep (λ (e : Entry A). ltb since e.seq) f.log

  abbrev pub no_feed : Feed A
  no_feed = record { log = []; seq = 0 }

-- What happens to the log of a node that keeps its state.
pub data Happening (A : Type 0) : Type 0 where
  absorbs : (block : ℕ) (effects : List (Effect A)) → Happening A
  stamps : (height : ℕ) (at : Option ℕ) → Happening A

module _ {A : Type 0} where
  unfoldable pub happen : Feed A → List (Happening A) → Feed A
  unfolding log_all stamp_block
  happen f [] = f
  happen f (Happening.absorbs block effects ∷ hs) = happen (log_all f block effects) hs
  happen f (Happening.stamps height at ∷ hs) = happen (stamp_block f height at) hs

  unfoldable pub absorbed : List (Happening A) → List (Effect A)
  absorbed [] = []
  absorbed (Happening.absorbs block effects ∷ hs) = effects ++ absorbed hs
  absorbed (Happening.stamps height at ∷ hs) = absorbed hs
