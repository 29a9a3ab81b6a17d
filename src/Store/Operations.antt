-- ===== src/Store/Operations.antt =====
-- The operations on a store of crates/miot-store/src/lib.rs, restarts of the program among them, and what
-- each makes of a chain.
use akuma_miot.Prelude.{
  ℕ, ◌+◌, ◌<◌, ◌≡◌, Bool, true, ◌&&◌, ◌==◌, leb, ltb, if◌then◌else◌, length, Result, ok, err,
}
use akuma_miot.Store.Bytes.{Bytes, u64_count}
use akuma_miot.Store.Database.{Database}
use akuma_miot.Store.Log.{
  Store, Error, Rewind, append, compact, adopt_checkpoint, rewind_for_fork, put_aux, open_store,
}
use akuma_miot.Store.Spec.{Chain, Holds, head_of, appended, compacted, adopted, rewound, noted}

pub data Operation : Type 0 where
  appends : (height : ℕ) (block : Bytes) → Operation
  compacts : (height : ℕ) (state : Bytes) → Operation
  adopts : (height : ℕ) (state : Bytes) → Operation
  rewinds : (fork_point : ℕ) → Operation
  notes : (name value : Bytes) → Operation
  reopens : Operation

-- The store that an operation leaves.
abbrev pub first :
    {D : Database} {B : Type 0}
    → Result (Error D.DbError) (Store D × B)
    → Result (Error D.DbError) (Store D)
first (ok r) = ok r.0
first (err e) = err e

module _ {D : Database} where
  unfoldable pub perform : Store D → Operation → Result (Error D.DbError) (Store D)
  unfolding append compact adopt_checkpoint rewind_for_fork put_aux open_store
  perform s (Operation.appends height block) = append s height block
  perform s (Operation.compacts height state) = first (compact s height state)
  perform s (Operation.adopts height state) = adopt_checkpoint s height state
  perform s (Operation.rewinds fork_point) = first (rewind_for_fork s fork_point)
  perform s (Operation.notes name value) = put_aux s name value
  perform s Operation.reopens = open_store D s.db

-- An append goes on at the head, a compaction lies above the last one and not above the head.
unfoldable pub is_allowed : Chain → Operation → Bool
is_allowed c (Operation.appends height block) = height == head_of c + 1
is_allowed c (Operation.compacts height state) = leb height (head_of c) && ltb c.base height
is_allowed c _ = true

unfoldable pub after : Chain → Operation → Chain
after c (Operation.appends height block) = appended c block
after c (Operation.compacts height state) = compacted c height state
after c (Operation.adopts height state) = adopted c height state
after c (Operation.rewinds fork_point) = rewound c fork_point
after c (Operation.notes name value) = noted c name value
after c Operation.reopens = c

-- Heights stay below the largest number of 64 bits.
abbrev pub IsSmall : Operation → Type 0
IsSmall (Operation.appends height block) = height + 1 < u64_count
IsSmall (Operation.adopts height state) = height + 1 < u64_count
IsSmall _ = Unit

module _ {D : Database} where
  -- A rewind leaves the chain rewound, and says where it landed, with which state, and how many heights
  -- lie between there and the head. Down to the last compaction these are the blocks that the store held;
  -- down to genesis they are the blocks that were pruned by the compaction as well.
  abbrev pub Rewound : Chain → ℕ → Store D × Rewind → Type 0
  Rewound c fork r =
      Holds r.0 (rewound c fork)
      × (r.1.height ≡ (rewound c fork).base)
      × (r.1.state ≡ (rewound c fork).state)
      × (r.1.dropped ≡ (if leb c.base fork then length c.blocks else c.base + length c.blocks))
