-- ===== src/Kot/Chain/Examples.antt =====
-- A producer and a reader of its store (crates/kot/src/node.rs), over a database in memory.
use akuma_miot.Prelude.{
  ℕ, ◌≡◌, refl, true, false, Option, none, some, List, [], ◌∷◌, ◌++◌, arith, is_empty,
  if◌then◌else◌, nat_eq,
}
use akuma_miot.Primitives.Text.{of_string}
use akuma_miot.Primitives.Ids.{ArtifactId}
use akuma_miot.Primitives.Effect.{Effect}
use akuma_miot.Tasks.Tick.{tick}
use akuma_miot.Tasks.Gc.{gc}
use akuma_miot.Store.Bytes.{Bytes}
use akuma_miot.Store.Examples
use akuma_miot.Store.Examples.{memory, memory-IsLawful, empty, empty-Holds}
use akuma_miot.Litter.Examples.{runtime, start}
use akuma_miot.Litter.Blocks.{set_replaying, replay_all}
use akuma_miot.Litter.Dispatch.{Call}
use akuma_miot.Mesh.State.{new}
use akuma_miot.Mesh.Examples.{node}
use akuma_miot.Kot.Queues.{no_extrinsics}
use akuma_miot.Kot.Readers.{open_access}
use akuma_miot.Kot.Feed.{no_feed}
use akuma_miot.Kot.Chain.{Node}
use akuma_miot.Kot.Chain.Bodies.{Frame, Ext}
use akuma_miot.Kot.Chain.Stored.{IsReliable}
use akuma_miot.Kot.Chain.Replays.{replay}
use akuma_miot.Kot.Chain.Rebuilt.{View, fold_blocks}
use akuma_miot.Kot.Chain.Recovery.{Starts}
use akuma_miot.Kot.Chain.Follows.{IsFollowed}
use akuma_miot.Kot.Chain.Runs.{Action, produce, RunsOn, replay-produce}

abbrev vote : Effect ℕ
vote = Effect.voted 2 (ArtifactId.note 4) true

-- The effects of a block are none or one vote.
abbrev decode : Bytes → Option (List (Effect ℕ) × Bytes)
decode [] = none
decode (b ∷ rest) = some (if nat_eq.beq b 0 then [] else vote ∷ [], rest)

abbrev opened : Ext ℕ ℕ
opened = record { storage = start; number = 1; events = [] }

abbrev frame : Frame ℕ ℕ
frame = record {
  runtime = runtime;
  no_providers = 0;
  catnip = λ a n. n;
  encode_effects = λ es. (if is_empty es then 0 else 1) ∷ [];
  decode_effects = decode;
  encode_u64 = λ n. n ∷ 0 ∷ 0 ∷ 0 ∷ 0 ∷ 0 ∷ 0 ∷ 0 ∷ [];
  decode_u64 = λ bytes. none;
  encode_snapshot = λ x. [];
  decode_snapshot = λ bytes. some opened;
  encode_hard = λ h. [];
}

abbrev producer : Node memory ℕ ℕ ℕ
producer = record {
  ext = opened;
  feed = no_feed;
  block = 1;
  store = empty;
  pending = [];
  pending_compaction = false;
  genesis_roster = (of_string "sora", 1) ∷ [];
  access = open_access (record {
    root = 0;
    leader = 1;
    roster = (of_string "sora", 1) ∷ [];
    patrons = [];
    identity = 1;
  });
  mesh = node;
  producing = true;
  extrinsics = no_extrinsics;
}

abbrev origin : View ℕ ℕ
origin = (set_replaying start true, 1)

producer-IsFollowed : IsFollowed frame origin producer Examples.genesis
unfolding fold_blocks replay_all
producer-IsFollowed = record {
  holds = empty-Holds;
  opened = refl;
  numbered = refl;
  live = refl;
  emptied = refl;
  ahead = λ d. (set_replaying start true, (origin, Starts.at_genesis refl, refl), refl);
}

memory-IsReliable : IsReliable memory
memory-IsReliable = record { commits = λ d ops. (d ++ ops, refl) }

-- A vote, a new block, and a call that FRAME does not admit.
abbrev actions : List (Action ℕ)
actions =
    Action.submits 2 (Call.votes (ArtifactId.note 4) true) true
    ∷ Action.advances 70
    ∷ Action.submits 2 (Call.votes (ArtifactId.note 4) true) false
    ∷ []

abbrev after : Node memory ℕ ℕ ℕ
after = produce frame producer actions

abbrev reader : Node memory ℕ ℕ ℕ
reader = record producer {
  store = after.store;
  producing = false;
  ext = record opened { storage = set_replaying start true };
}

actions-RunsOn : RunsOn frame producer actions
unfolding RunsOn tick gc
actions-RunsOn = ((refl, refl), ((λ rest. refl), (λ d. cc)), tt)

after-settled : after.pending_compaction ≡ false
unfolding produce new
after-settled = refl

replay-produce_example :
    (m : Node memory ℕ ℕ ℕ) × (replay frame reader ≡ some m)
    × (m.block ≡ after.block)
    × (replay_all runtime m.ext.storage after.pending m.block
        ≡ set_replaying after.ext.storage true)
replay-produce_example =
    replay-produce frame origin memory-IsLawful memory-IsReliable producer Examples.genesis actions
      reader producer-IsFollowed (omega arith) actions-RunsOn after-settled refl refl refl refl
