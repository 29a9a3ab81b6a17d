-- ===== src/Kot/Within.antt =====
-- What a node remembers of extrinsics (crates/kot/src/node.rs) is bounded, whatever reaches it.
use akuma_miot.Prelude.{
  ℕ, ◌+◌, ◌≤◌, ap, List, [], ◌∷◌, arith, length, length-append, leb, if◌then◌else◌, if-rule, Eq,
  Option-cases, inl, inr, is_some,
}
use akuma_miot.Litter.Maps.{lookup, insert, contains_key}
use akuma_miot.Kot.Queues.{
  Extrinsics, TxState, push, set_tx_status, mempool_insert, mempool_remove, mempool_expire,
  mark_carried, seal, seal_at, carry, is_alive, mark, mempool_cap, tx_status_cap, carried_keep,
  no_extrinsics, drop_oldest,
}
use akuma_miot.Kot.Sublists.{IsSublist}
use akuma_miot.Kot.QueueBounds.{
  IsCapped, length-IsCapped, push-IsCapped, insert-IsCapped, remove-IsCapped, keep-IsCapped,
  map-IsCapped,
}

module _ {H : Type 0} where
  pub record IsBounded (x : Extrinsics H) : Type 0 where
    pub mempool : IsCapped mempool_cap x.mempool
    pub statuses : IsCapped tx_status_cap x.tx_status
    pub carried : length x.carried ≤ carried_keep

  no_extrinsics-IsBounded : IsBounded no_extrinsics
  no_extrinsics-IsBounded = record {
    mempool = record { remembered = IsSublist.done; short = omega arith };
    statuses = record { remembered = IsSublist.done; short = omega arith };
    carried = omega arith;
  }

  length-drop_oldest : (hs : List H) → length (drop_oldest hs) + 1 ≤ length hs + 1
  length-drop_oldest [] = omega arith
  length-drop_oldest (h ∷ hs) = omega arith

  room-carried :
      (hs : List H)
      → length hs ≤ carried_keep
      → length (if leb carried_keep (length hs) then drop_oldest hs else hs) + 1 ≤ carried_keep
  room-carried [] h = ground arith
  room-carried (k ∷ hs) h = ground arith

  expire-IsBounded : (x : Extrinsics H) (now : ℕ) → IsBounded x → IsBounded (mempool_expire x now)
  unfolding mempool_expire
  expire-IsBounded x now h = record {
    mempool = keep-IsCapped mempool_cap (is_alive now) x.mempool h.mempool;
    statuses = h.statuses;
    carried = h.carried;
  }

  seal-IsBounded : (x : Extrinsics H) (closing : ℕ) → IsBounded x → IsBounded (seal x closing)
  unfolding seal
  seal-IsBounded x closing h = record {
    mempool = h.mempool;
    statuses = map-IsCapped tx_status_cap (seal_at closing) x.tx_status h.statuses;
    carried = h.carried;
  }

  carry-IsBounded : (x : Extrinsics H) (hash : H) → IsBounded x → IsBounded (carry x hash)
  unfolding carry
  carry-IsBounded x hash h = record {
    mempool = h.mempool;
    statuses = h.statuses;
    carried = omega (
      arith,
      length-append
          (if leb carried_keep (length x.carried) then drop_oldest x.carried else x.carried)
          (hash ∷ []),
      room-carried x.carried h.carried,
    );
  }

module _ {H : Type 0} ⦃e : Eq H⦄ where
  set_tx_status-IsBounded :
      (x : Extrinsics H) (hash : H) (st : TxState)
      → IsBounded x
      → IsBounded (set_tx_status x hash st)
  unfolding set_tx_status
  set_tx_status-IsBounded x hash st h = record {
    mempool = h.mempool;
    statuses =
        if-rule (IsCapped tx_status_cap) (contains_key hash x.tx_status.entries)
          (record x.tx_status { entries = insert hash st x.tx_status.entries })
          (push tx_status_cap hash st x.tx_status)
          (insert-IsCapped tx_status_cap hash st x.tx_status h.statuses)
          (push-IsCapped tx_status_cap hash st x.tx_status (omega arith) h.statuses);
    carried = h.carried;
  }

  insert-IsBounded :
      (x : Extrinsics H) (hash : H) (bytes : List ℕ) (now : ℕ)
      → IsBounded x
      → IsBounded (mempool_insert x hash bytes now)
  unfolding mempool_insert
  insert-IsBounded x hash bytes now h =
      if-rule IsBounded (contains_key hash x.mempool.entries) x _ (λ y. h)
        (λ n. set_tx_status-IsBounded _ hash TxState.pending (record {
          mempool = push-IsCapped mempool_cap hash _ x.mempool (omega arith) h.mempool n;
          statuses = h.statuses;
          carried = h.carried;
        }))

  remove-IsBounded : (x : Extrinsics H) (hash : H) → IsBounded x → IsBounded (mempool_remove x hash)
  unfolding mempool_remove
  remove-IsBounded x hash h = record {
    mempool = remove-IsCapped mempool_cap hash x.mempool h.mempool;
    statuses = h.statuses;
    carried = h.carried;
  }

  mark-IsBounded : (x : Extrinsics H) (hash : H) → IsBounded x → IsBounded (mark_carried x hash)
  unfolding mark_carried
  mark-IsBounded x hash h = elim (Option-cases (lookup hash x.mempool.entries)) [
    | inl n ↦ rw (mark_carried, n) h
    | inr (v, s) ↦
        rw (mark_carried, s)
          (record {
            mempool = insert-IsCapped mempool_cap hash (mark v) x.mempool h.mempool (ap is_some s);
            statuses = h.statuses;
            carried = h.carried;
          })
  ]

  -- What a node can remember: nothing when it starts, and then what any of the places that change it leave.
  pub data Reached : Extrinsics H → Type 0 where
    starts : Reached no_extrinsics
    sets :
        {x : Extrinsics H} (hash : H) (st : TxState) → Reached x → Reached (set_tx_status x hash st)
    queues :
        {x : Extrinsics H} (hash : H) (bytes : List ℕ) (now : ℕ)
        → Reached x
        → Reached (mempool_insert x hash bytes now)
    removes : {x : Extrinsics H} (hash : H) → Reached x → Reached (mempool_remove x hash)
    expires : {x : Extrinsics H} (now : ℕ) → Reached x → Reached (mempool_expire x now)
    marks : {x : Extrinsics H} (hash : H) → Reached x → Reached (mark_carried x hash)
    seals : {x : Extrinsics H} (closing : ℕ) → Reached x → Reached (seal x closing)
    carries : {x : Extrinsics H} (hash : H) → Reached x → Reached (carry x hash)

  Reached-IsBounded : {x : Extrinsics H} → Reached x → IsBounded x
  Reached-IsBounded Reached.starts = no_extrinsics-IsBounded
  Reached-IsBounded (Reached.sets hash st r) =
      set_tx_status-IsBounded _ hash st (Reached-IsBounded r)
  Reached-IsBounded (Reached.queues hash bytes now r) =
      insert-IsBounded _ hash bytes now (Reached-IsBounded r)
  Reached-IsBounded (Reached.removes hash r) = remove-IsBounded _ hash (Reached-IsBounded r)
  Reached-IsBounded (Reached.expires now r) = expire-IsBounded _ now (Reached-IsBounded r)
  Reached-IsBounded (Reached.marks hash r) = mark-IsBounded _ hash (Reached-IsBounded r)
  Reached-IsBounded (Reached.seals closing r) = seal-IsBounded _ closing (Reached-IsBounded r)
  Reached-IsBounded (Reached.carries hash r) = carry-IsBounded _ hash (Reached-IsBounded r)

  -- From a node that starts, through any statuses that are set, extrinsics that are queued, removed,
  -- expired, marked as carried by a peer, sealed, and handed on to the primary, in any order and with any
  -- hashes: at most 512 extrinsics are in the mempool and at most 512 hashes in its order, at most 1,024
  -- statuses are known, and at most 64 hashes are remembered as handed on.
  pub Reached-length :
      (x : Extrinsics H)
      → Reached x
      → (length x.mempool.entries ≤ 512)
        × (length x.mempool.order ≤ 512)
        × (length x.tx_status.entries ≤ 1024)
        × (length x.carried ≤ 64)
  Reached-length x r =
      let h = Reached-IsBounded r in
      (
        length-IsCapped mempool_cap _ h.mempool,
        h.mempool.short,
        length-IsCapped tx_status_cap _ h.statuses,
        h.carried,
      )
