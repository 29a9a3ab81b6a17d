-- ===== src/Kot/Queues.antt =====
-- The two bounded maps of a node (crates/kot/src/node.rs): extrinsics that wait for a route to the
-- primary, and what became of each extrinsic. Hashes are of a type `H` (`H256`).
use akuma_miot.Prelude.{
  ℕ, Bool, true, false, none, some, List, [], ◌∷◌, ◌++◌, map, ◌==◌, leb, ltb, if◌then◌else◌, length,
  keep, Eq,
}
use akuma_miot.Primitives.Words.{saturating_sub}
use akuma_miot.Litter.Maps.{lookup, contains_key, insert, remove}

pub record MempoolEntry : Type 0 where
  pub bytes : List ℕ
  pub inserted_at : ℕ
  pub carried : Bool

pub data TxState : Type 0 where
  pending : TxState
  applied sealed : (height : ℕ) → TxState

abbrev pub mempool_cap : ℕ
mempool_cap = 512

abbrev pub tx_status_cap : ℕ
tx_status_cap = 1024

abbrev pub mempool_ttl_ms : ℕ
mempool_ttl_ms = 900000

abbrev pub carried_keep : ℕ
carried_keep = 64

-- A map, and the order in which its keys came.
pub record Queue {ℓ} (H V : Type ℓ) : Type ℓ where
  pub entries : List (H × V)
  pub order : List H

-- What `Node` keeps of extrinsics.
pub record Extrinsics (H : Type 0) : Type 0 where
  pub mempool : Queue H MempoolEntry
  pub tx_status : Queue H TxState
  pub carried : List H

module _ {H V : Type 0} ⦃e : Eq H⦄ where
  -- `pop_front`, and the key goes from the map.
  unfoldable pub pop_oldest : List (H × V) → List H → Queue H V
  unfolding remove
  pop_oldest m [] = record { entries = m; order = [] }
  pop_oldest m (old ∷ rest) = record { entries = remove old m; order = rest }

  -- Room for one more under the cap.
  unfoldable pub make_room : ℕ → Queue H V → Queue H V
  unfolding pop_oldest
  make_room cap q = if leb cap (length q.order) then pop_oldest q.entries q.order else q

  -- A new key goes to the end of the order.
  unfoldable pub push : ℕ → H → V → Queue H V → Queue H V
  unfolding make_room insert
  push cap h v q =
      let r = make_room cap q in
      record { entries = insert h v r.entries; order = r.order ++ h ∷ [] }

-- A peer said that it carries this one.
abbrev pub mark : MempoolEntry → MempoolEntry
mark v = record v { carried = true }

-- The flip of `advance`: what was applied in the block that closes is sealed.
abbrev pub seal_at : ℕ → TxState → TxState
seal_at closing TxState.pending = TxState.pending
seal_at closing (TxState.applied height) =
    if height == closing then TxState.sealed height else TxState.applied height
seal_at closing (TxState.sealed height) = TxState.sealed height

module _ {H : Type 0} ⦃e : Eq H⦄ where
  unfoldable pub set_tx_status : Extrinsics H → H → TxState → Extrinsics H
  unfolding push insert lookup
  set_tx_status x hash st = record x {
    tx_status =
        if contains_key hash x.tx_status.entries
        then record x.tx_status { entries = insert hash st x.tx_status.entries }
        else push tx_status_cap hash st x.tx_status;
  }

  unfoldable pub mempool_insert : Extrinsics H → H → List ℕ → ℕ → Extrinsics H
  unfolding push lookup set_tx_status
  mempool_insert x hash bytes now =
      if contains_key hash x.mempool.entries
      then x
      else set_tx_status
          (record x {
            mempool =
                push mempool_cap hash (record { bytes = bytes; inserted_at = now; carried = false })
                  x.mempool;
          })
          hash TxState.pending

  -- `n.mempool.remove(&hash)`: the order keeps the hash.
  unfoldable pub mempool_remove : Extrinsics H → H → Extrinsics H
  unfolding remove
  mempool_remove x hash = record x {
    mempool = record x.mempool { entries = remove hash x.mempool.entries };
  }

  unfoldable pub mark_carried : Extrinsics H → H → Extrinsics H
  unfolding lookup insert
  mark_carried x hash = elim (lookup hash x.mempool.entries) [
    | none ↦ x
    | some v ↦ record x {
      mempool = record x.mempool { entries = insert hash (mark v) x.mempool.entries };
    }
  ]

module _ {H : Type 0} where
  -- The first thing that `mempool_round` does.
  abbrev pub is_alive : ℕ → H × MempoolEntry → Bool
  is_alive now (h, v) = ltb (saturating_sub now v.inserted_at) mempool_ttl_ms

  unfoldable pub mempool_expire : Extrinsics H → ℕ → Extrinsics H
  unfolding keep
  mempool_expire x now = record x {
    mempool = record x.mempool { entries = keep (is_alive now) x.mempool.entries };
  }

  -- The half of `advance` that touches the statuses.
  unfoldable pub seal : Extrinsics H → ℕ → Extrinsics H
  seal x closing = record x {
    tx_status = record x.tx_status {
      entries = map (λ (s : H × TxState). (s.0, seal_at closing s.1)) x.tx_status.entries;
    };
  }

  -- What `carry_offered` keeps of a hash that was handed on.
  abbrev pub drop_oldest : List H → List H
  drop_oldest [] = []
  drop_oldest (h ∷ hs) = hs

  unfoldable pub carry : Extrinsics H → H → Extrinsics H
  carry x hash = record x {
    carried =
        (if leb carried_keep (length x.carried) then drop_oldest x.carried else x.carried)
        ++ hash ∷ [];
  }

abbrev pub no_extrinsics : {H : Type 0} → Extrinsics H
no_extrinsics = record {
  mempool = record { entries = []; order = [] };
  tx_status = record { entries = []; order = [] };
  carried = [];
}
