-- ===== src/Store/Spec.antt =====
-- What crates/miot-store/src/lib.rs promises, without a database: a run of blocks on top of the state at
-- the last compaction, and the values that are none of the log.
use akuma_miot.Prelude.{
  ℕ, zero, suc, ◌+◌, ◌-◌, ◌<◌, ◌≡◌, Option, none, some, List, [], ◌∷◌, ◌++◌, ◌==◌, leb,
  if◌then◌else◌, length, ok,
}
use akuma_miot.Mesh.Maps.{text_eq}
use akuma_miot.Store.Bytes.{Bytes, key, aux_key, key_head, key_last_cp, u64_count}
use akuma_miot.Store.Database.{Database}
use akuma_miot.Store.Log.{Store, col_block, col_checkpoint, col_meta, number_of}

pub record Chain : Type 0 where
  -- The height of the last compaction, 0 for genesis, and the state there.
  pub base : ℕ
  pub state : Option Bytes
  -- The blocks above it, the lowest first.
  pub blocks : List Bytes
  pub aux : Bytes → Option Bytes

abbrev pub head_of : Chain → ℕ
head_of c = c.base + length c.blocks

-- The `n`-th block from `base + 1` on.
unfoldable pub nth : List Bytes → ℕ → Option Bytes
nth [] n = none
nth (b ∷ bs) zero = some b
nth (b ∷ bs) (suc n) = nth bs n

unfoldable pub block_at : Chain → ℕ → Option Bytes
unfolding nth
block_at c h = if leb h c.base then none else nth c.blocks (h - c.base - 1)

unfoldable pub drop : ℕ → List Bytes → List Bytes
drop zero bs = bs
drop (suc n) [] = []
drop (suc n) (b ∷ bs) = drop n bs

abbrev pub appended : Chain → Bytes → Chain
appended c b = record c { blocks = c.blocks ++ b ∷ [] }

abbrev pub compacted : Chain → ℕ → Bytes → Chain
compacted c height state = record c {
  base = height;
  state = some state;
  blocks = drop (height - c.base) c.blocks;
}

abbrev pub adopted : Chain → ℕ → Bytes → Chain
adopted c height state = record c {
  base = height;
  state = if height == 0 then none else some state;
  blocks = [];
}

-- Down to the last compaction, or to genesis for a fork below it.
abbrev pub rewound : Chain → ℕ → Chain
rewound c fork_point =
    if leb c.base fork_point
    then record c { blocks = [] }
    else record c { base = 0; state = none; blocks = [] }

abbrev pub noted : Chain → Bytes → Bytes → Chain
noted c name value = record c { aux = λ n. if text_eq name n then some value else c.aux n }

-- The database of a store holds a chain, and the store knows its two heights.
pub record Holds {D : Database} (s : Store D) (c : Chain) : Type 0 where
  pub last : s.last_checkpoint ≡ c.base
  pub head : s.head ≡ head_of c
  pub small : head_of c + 1 < u64_count
  pub genesis : c.base ≡ 0 → c.state ≡ none
  pub blocks : (h : ℕ) → h < u64_count → D.get s.db col_block (key h) ≡ ok (block_at c h)
  pub checkpoint : 0 < c.base → D.get s.db col_checkpoint (key c.base) ≡ ok c.state
  pub heads : (v : Option Bytes) × (D.get s.db col_meta key_head ≡ ok v) × (number_of v ≡ head_of c)
  pub lasts : (v : Option Bytes) × (D.get s.db col_meta key_last_cp ≡ ok v) × (number_of v ≡ c.base)
  pub others : (name : Bytes) → D.get s.db col_meta (aux_key name) ≡ ok (c.aux name)
