-- ===== src/Store/Log.antt =====
-- `Store` of crates/miot-store/src/lib.rs. An operation that fails leaves the store as it was; what
-- `rewind_for_fork` leaves when its last read fails, after its commit, is not kept here.
use akuma_miot.Prelude.{
  ℕ, zero, suc, ◌+◌, ◌-◌, ◌%◌, ◌^◌, true, false, not, ◌&&◌, ◌||◌, Option, none, some, List, [], ◌∷◌,
  ◌++◌, ◌==◌, leb, ltb, if◌then◌else◌, unwrap_or, Result, ok, err, ◌>>=◌, ◌>>◌, guard,
}
use akuma_miot.Primitives.Words.{saturating_sub}
use akuma_miot.Mesh.Maps.{text_eq}
use akuma_miot.Store.Bytes.{Bytes, key, aux_key, key_head, key_last_cp, to_be_bytes, be}
use akuma_miot.Store.Database.{Database, Op}

abbrev pub col_block : ℕ
col_block = 0

abbrev pub col_checkpoint : ℕ
col_checkpoint = 1

abbrev pub col_meta : ℕ
col_meta = 2

pub data Error (E : Type 0) : Type 0 where
  db : E → Error E
  not_contiguous : (expected got : ℕ) → Error E
  bad_checkpoint : (head last got : ℕ) → Error E

-- `From<parity_db::Error> for Error`, at a `?`.
abbrev pub lift : {E A : Type 0} → Result E A → Result (Error E) A
lift (ok a) = ok a
lift (err e) = err (Error.db e)

pub record Rewind : Type 0 where
  pub height : ℕ
  pub state : Option Bytes
  pub dropped : ℕ

pub record Store (D : Database) : Type 0 where
  pub db : D.Db
  pub head : ℕ
  pub last_checkpoint : ℕ

-- `.and_then(be).unwrap_or(0)`
abbrev pub number_of : Option Bytes → ℕ
number_of none = 0
number_of (some v) = unwrap_or 0 (be v)

-- `u64` addition of one, in a release build.
abbrev pub next : ℕ → ℕ
next h = (h + 1) % 2 ^ 64

-- The block keys from `h` on, `n` of them, deleted.
unfoldable pub delete_blocks : ℕ → ℕ → List Op
delete_blocks h zero = []
delete_blocks h (suc n) = (col_block, key h, none) ∷ delete_blocks (h + 1) n

-- `if self.last_checkpoint > 0 { delete it }`
unfoldable pub delete_checkpoint : ℕ → List Op
delete_checkpoint last = if ltb 0 last then (col_checkpoint, key last, none) ∷ [] else []

module _ (D : Database) where
  unfoldable pub open_store : D.Db → Result (Error D.DbError) (Store D)
  unfolding be
  open_store d = do
    head ← lift (D.get d col_meta key_head)
    last ← lift (D.get d col_meta key_last_cp)
    ok (record { db = d; head = number_of head; last_checkpoint = number_of last })

module _ {D : Database} (s : Store D) where
  unfoldable pub append : ℕ → Bytes → Result (Error D.DbError) (Store D)
  append height block = do
    guard (height == next s.head) (Error.not_contiguous (next s.head) height)
    d ← lift (
        D.commit s.db (
          (col_block, key height, some block)
          ∷ (col_meta, key_head, some (to_be_bytes height))
          ∷ []))
    ok (record s { db = d; head = height })

  -- The store, and how many blocks were pruned.
  unfoldable pub compact : ℕ → Bytes → Result (Error D.DbError) (Store D × ℕ)
  unfolding delete_blocks delete_checkpoint
  compact height state = do
    guard (not (ltb s.head height || leb height s.last_checkpoint))
        (Error.bad_checkpoint s.head s.last_checkpoint height)
    let pruned = height - s.last_checkpoint
    d ← lift (
        D.commit s.db (
          (col_checkpoint, key height, some state)
          ∷ (col_meta, key_last_cp, some (to_be_bytes height))
          ∷ (delete_checkpoint s.last_checkpoint ++ delete_blocks (s.last_checkpoint + 1) pruned)))
    ok (record s { db = d; last_checkpoint = height }, pruned)

  unfoldable pub adopt_checkpoint : ℕ → Bytes → Result (Error D.DbError) (Store D)
  unfolding delete_blocks delete_checkpoint
  adopt_checkpoint height state = do
    d ← lift (
        D.commit s.db (
          delete_blocks 1 s.head
          ++ (delete_checkpoint s.last_checkpoint
              ++ ((col_checkpoint, key height, some state)
                  ∷ (col_meta, key_last_cp, some (to_be_bytes height))
                  ∷ (col_meta, key_head, some (to_be_bytes height))
                  ∷ []))))
    ok (record s { db = d; last_checkpoint = height; head = height })

  unfoldable pub block : ℕ → Result (Error D.DbError) (Option Bytes)
  block height = lift (D.get s.db col_block (key height))

  abbrev pub aux : Bytes → Result (Error D.DbError) (Option Bytes)
  aux name = lift (D.get s.db col_meta (aux_key name))

  unfoldable pub put_aux : Bytes → Bytes → Result (Error D.DbError) (Store D)
  put_aux name value = do
    d ← lift (D.commit s.db ((col_meta, aux_key name, some value) ∷ []))
    ok (record s { db = d })

  unfoldable pub checkpoint_state : Result (Error D.DbError) (Option Bytes)
  checkpoint_state =
      if s.last_checkpoint == 0
      then ok none
      else lift (D.get s.db col_checkpoint (key s.last_checkpoint))

  -- Where a rewind for this fork point lands.
  abbrev pub landing : ℕ → ℕ
  landing fork_point = if leb s.last_checkpoint fork_point then s.last_checkpoint else 0

  -- The last compaction is forgotten when the rewind lands at genesis.
  unfoldable pub forget_checkpoint : ℕ → List Op
  forget_checkpoint land =
      if land == 0 && ltb 0 s.last_checkpoint
      then (col_checkpoint, key s.last_checkpoint, none)
        ∷ (col_meta, key_last_cp, some (to_be_bytes 0))
        ∷ []
      else []

  unfoldable pub rewind_for_fork : ℕ → Result (Error D.DbError) (Store D × Rewind)
  unfolding delete_blocks forget_checkpoint
  rewind_for_fork fork_point = do
    let land = landing fork_point
    let dropped = saturating_sub s.head land
    d ← lift (
        D.commit s.db (
          delete_blocks (land + 1) dropped
          ++ (forget_checkpoint land ++ ((col_meta, key_head, some (to_be_bytes land)) ∷ []))))
    let s' = record s {
      db = d;
      head = land;
      last_checkpoint = if land == 0 then 0 else s.last_checkpoint;
    }
    state ← (if land == 0 then ok none else lift (D.get d col_checkpoint (key s.last_checkpoint)))
    ok (s', record { height = land; state = state; dropped = dropped })

  -- The loop of `fork_point`, at the height `h`.
  unfoldable pub agree_from : ℕ → ℕ → List Bytes → Result (Error D.DbError) ℕ
  unfolding block text_eq
  agree_from h agreed [] = ok agreed
  agree_from h agreed (t ∷ ts) = block h >>= λ ours. elim ours [
    | none ↦ ok agreed
    | some b ↦ elim (text_eq b t) [ true ↦ agree_from (h + 1) h ts | false ↦ ok agreed ]
  ]

  unfoldable pub fork_point : ℕ → List Bytes → Result (Error D.DbError) ℕ
  unfolding agree_from
  fork_point from theirs = agree_from from (saturating_sub from 1) theirs
