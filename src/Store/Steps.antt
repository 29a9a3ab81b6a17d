-- ===== src/Store/Steps.antt =====
-- The writes of each operation of crates/miot-store/src/lib.rs, committed.
pub mod Rewinds
use akuma_miot.Prelude.{
  ℕ, zero, suc, ◌+◌, ◌-◌, ◌<◌, ◌≤◌, ◌≡◌, refl, sym, ap, subst, ◌∙◌, Bool, true, false, not, ◌&&◌,
  ◌||◌, Option, none, some, List, [], ◌∷◌, ◌++◌, arith, ◌==◌, leb, ltb, if◌then◌else◌, length,
  length-append, Result, ok, err, ◌>>=◌, ◌>>◌, guard, Bool-cases, inl, inr,
}
use akuma_miot.Tasks.Invariant.Verdicts.{Leaves, Leaves-ok, Leaves-guard}
use akuma_miot.Primitives.Words.{saturating_sub}
use akuma_miot.Store.Bytes.{Bytes, key, key_head, key_last_cp, aux_key, to_be_bytes, u64_count}
use akuma_miot.Store.Database.{Database, Op, IsLawful}
use akuma_miot.Store.Log.{
  Store, Error, Rewind, lift, col_block, col_checkpoint, col_meta, number_of, next, delete_blocks,
  delete_checkpoint, forget_checkpoint, append, compact, adopt_checkpoint, rewind_for_fork, put_aux,
  open_store,
}
use akuma_miot.Store.Spec.{
  Chain, Holds, head_of, block_at, appended, compacted, adopted, rewound, noted,
}
use akuma_miot.Store.Chains.{length-drop}
use akuma_miot.Store.Refines.{
  Writes, Leaves-lift, commit-Holds, append-Writes, compact-Writes, adopt-Writes, note-Writes,
}
use akuma_miot.Store.Refines.Rewinds.{rewind-Writes, restart-Writes}
use akuma_miot.Store.Operations.{Operation, first, perform, is_allowed, after, IsSmall, Rewound}

module _ {D : Database} where
  -- The store of a chain over a database.
  abbrev pub at : Chain → D.Db → Store D
  at c d = record { db = d; head = head_of c; last_checkpoint = c.base }

  abbrev pub Did : Chain → Operation → Store D → Type 0
  Did c op s' = (is_allowed c op ≡ true) × Holds s' (after c op)

  pub at-Holds :
      (s : Store D) (c : Chain)
      → s.head ≡ head_of c
      → s.last_checkpoint ≡ c.base
      → Holds (at c s.db) c
      → Holds s c
  at-Holds s c p q h = record {
    last = q;
    head = p;
    small = h.small;
    genesis = h.genesis;
    blocks = h.blocks;
    checkpoint = h.checkpoint;
    heads = h.heads;
    lasts = h.lasts;
    others = h.others;
  }

module _ {D : Database} (L : IsLawful D) (c : Chain) (d : D.Db) (H : Holds (at {D = D} c d) c) where
  pub append-Did :
      (height : ℕ) (b : Bytes) (d' : D.Db)
      → height + 1 < u64_count
      → height == next (head_of c) ≡ true
      → D.commit d
          ((col_block, key height, some b) ∷ (col_meta, key_head, some (to_be_bytes height)) ∷ [])
        ≡ ok d'
      → Did {D = D} c
          (Operation.appends height b)
          (record { db = d'; head = height; last_checkpoint = c.base })
  unfolding is_allowed after
  append-Did height b d' l e h = (
    ground (arith, p),
    at-Holds _ (appended c b) (omega (arith, p, length-append c.blocks (b ∷ []))) refl (
        commit-Holds L (at c d) c H _ (appended c b) d'
          (subst
            (λ n.
              D.commit d
                ((col_block, key n, some b) ∷ (col_meta, key_head, some (to_be_bytes n)) ∷ [])
              ≡ ok d')
            p h)
          (append-Writes L (at c d) c H b (omega (arith, p)))),
  )
    where
      p : height ≡ head_of c + 1
      p = ground (arith, H.small)

  pub compact-Did :
      (height : ℕ) (state : Bytes) (d' : D.Db)
      → not (ltb (head_of c) height || leb height c.base) ≡ true
      → D.commit d (
          (col_checkpoint, key height, some state)
          ∷ (col_meta, key_last_cp, some (to_be_bytes height))
          ∷ (delete_checkpoint c.base ++ delete_blocks (c.base + 1) (height - c.base)))
        ≡ ok d'
      → Did {D = D} c
          (Operation.compacts height state)
          (record { db = d'; head = head_of c; last_checkpoint = height })
  unfolding is_allowed after
  compact-Did height state d' e h = (
    ground arith,
    at-Holds _ (compacted c height state) (ground (arith, length-drop (height - c.base) c.blocks))
        refl
        (commit-Holds L (at c d) c H _ (compacted c height state) d' h
          (compact-Writes L (at c d) c H height state (ground arith) (ground arith))),
  )

  pub adopt-Did :
      (height : ℕ) (state : Bytes) (d' : D.Db)
      → height + 1 < u64_count
      → D.commit d (
          delete_blocks 1 (head_of c)
          ++ (delete_checkpoint c.base
              ++ ((col_checkpoint, key height, some state)
                  ∷ (col_meta, key_last_cp, some (to_be_bytes height))
                  ∷ (col_meta, key_head, some (to_be_bytes height))
                  ∷ [])))
        ≡ ok d'
      → Did {D = D} c
          (Operation.adopts height state)
          (record { db = d'; head = height; last_checkpoint = height })
  unfolding is_allowed after
  adopt-Did height state d' l h = (
    refl,
    at-Holds _ (adopted c height state) (omega arith) refl (
        commit-Holds L (at c d) c H _ (adopted c height state) d' h
          (adopt-Writes L (at c d) c H height state l)),
  )

  pub note-Did :
      (name value : Bytes) (d' : D.Db)
      → D.commit d ((col_meta, aux_key name, some value) ∷ []) ≡ ok d'
      → Did {D = D} c (Operation.notes name value) (at c d')
  unfolding is_allowed after
  note-Did name value d' h = (
    refl,
    commit-Holds L (at c d) c H _ (noted c name value) d' h (note-Writes L (at c d) c H name value),
  )
