-- ===== src/Kot/Examples.antt =====
-- Runs of crates/kot/src/node.rs on small inputs.
use akuma_miot.Prelude.{
  ℕ, ◌+◌, ◌≤◌, ◌≡◌, refl, true, some, List, [], ◌∷◌, map, arith, length, nat_eq,
}
use akuma_miot.Kot.Queues.{Extrinsics, mempool_insert, mempool_remove, mark_carried, no_extrinsics}
use akuma_miot.Kot.Within.{Reached, Reached-length}
use akuma_miot.Kot.Readers.{
  Config, contains, trusted_set, open_access, refreshed, is_reader, is_trusted_signer, can_write,
}
use akuma_miot.Kot.Pins.{pins-agree}
use akuma_miot.Primitives.TaskId.{parent}
use akuma_miot.Primitives.Effect.{Effect}
use akuma_miot.Kot.Feed.{Entry, Happening, events, happen, absorbed, no_feed}
use akuma_miot.Kot.Feed.Tail.{events-happen}

-- One extrinsic that is queued, taken on by a peer, removed and queued again.
abbrev pub again : Extrinsics ℕ
again =
    mempool_insert
      (mempool_remove (mark_carried (mempool_insert no_extrinsics 7 (1 ∷ 2 ∷ []) 100) 7) 7) 7
      (1 ∷ 2 ∷ []) 200

again-Reached : Reached again
again-Reached =
    Reached.queues 7 (1 ∷ 2 ∷ []) 200
      (Reached.removes 7 (Reached.marks 7 (Reached.queues 7 (1 ∷ 2 ∷ []) 100 Reached.starts)))

Reached-length_example :
    (length again.mempool.entries ≤ 512)
    × (length again.mempool.order ≤ 512)
    × (length again.tx_status.entries ≤ 1024)
    × (length again.carried ≤ 64)
Reached-length_example = Reached-length again again-Reached

-- A hash that was removed and queued again stands in the order twice.
order_of_again : again.mempool.order ≡ 7 ∷ 7 ∷ []
unfolding mempool_insert mempool_remove mark_carried
order_of_again = refl

-- A root, a leader, a member, a patron of this node alone, and the node's own account.
abbrev pub config : Config ℕ ℕ
config = record {
  root = 1;
  leader = 2;
  roster = (20, 2) ∷ (30, 3) ∷ [];
  patrons = (40, 4) ∷ [];
  identity = 5;
}

-- An account that is approved on the chain, and one more.
abbrev pub reads : List (List (ℕ × ℕ))
reads = ((60, 6) ∷ []) ∷ ((60, 6) ∷ (70, 7) ∷ []) ∷ []

pins-agree_example :
    (contains (refreshed (open_access config) reads).tls_readers 6
      ≡ is_reader (refreshed (open_access config) reads) 6)
    × (contains (trusted_set (refreshed (open_access config) reads)) 6
        ≡ is_trusted_signer (refreshed (open_access config) reads) 6)
    × (can_write (refreshed (open_access config) reads) 6 ≡ true
        → is_reader (refreshed (open_access config) reads) 6 ≡ true)
pins-agree_example = pins-agree config reads 6

pins_of_config : (refreshed (open_access config) reads).tls_readers ≡ 2 ∷ 3 ∷ 1 ∷ 4 ∷ 5 ∷ 6 ∷ 7 ∷ []
unfolding refreshed open_access
pins_of_config = refl

-- Two effects in the block 1, its stamp, and one effect in the block 2.
abbrev pub early : List (Happening ℕ)
early = Happening.absorbs 1 (Effect.failed (parent 1) ∷ Effect.failed (parent 2) ∷ []) ∷ []

abbrev pub late : List (Happening ℕ)
late = Happening.stamps 1 (some 70) ∷ Happening.absorbs 2 (Effect.failed (parent 3) ∷ []) ∷ []

events-happen_example :
    (map
        (λ (e : Entry ℕ). e.effect)
        (events (happen (happen no_feed early) late) (happen no_feed early).seq)
      ≡ absorbed late)
    × ((happen (happen no_feed early) late).seq ≡ length (absorbed early) + length (absorbed late))
unfolding absorbed
events-happen_example = events-happen early late (omega arith) (omega arith)
