-- ===== src/Kot/Chain/Bodies.antt =====
-- What crates/kot/src/node.rs is given by FRAME and its codec, and the bytes of a block (`seal_body`,
-- `open_body`).
use akuma_miot.Prelude.{ℕ, ◌≡◌, ap, Option, none, some, List, ◌++◌, ◌==◌, if◌then◌else◌, length}
use akuma_miot.Primitives.Effect.{Effect}
use akuma_miot.Mesh.State.{Hard}
use akuma_miot.Store.Bytes.{Bytes}
use akuma_miot.Litter.Storage.{Storage}
use akuma_miot.Litter.Runtime.{Runtime}
use akuma_miot.Litter.Blocks.{on_initialize}

-- The state under `TestExternalities`: the storage of the pallet, the block number and the events of the
-- system pallet.
pub record Ext (A C : Type 0) : Type 0 where
  pub storage : Storage A C
  pub number : ℕ
  pub events : List (Effect A)

pub record Frame (A C : Type 0) : Type 0 where
  pub runtime : Runtime A C
  -- The accounts of the system pallet at genesis, and one more of them with a balance (`catnip`).
  pub no_providers : C
  pub catnip : A → C → C
  -- SCALE: `Vec<Effect>`, `u64` and `Snapshot`; a decoder gives what it did not read.
  pub encode_effects : List (Effect A) → Bytes
  pub decode_effects : Bytes → Option (List (Effect A) × Bytes)
  pub encode_u64 : ℕ → Bytes
  pub decode_u64 : Bytes → Option ℕ
  pub encode_snapshot : Ext A C → Bytes
  pub decode_snapshot : Bytes → Option (Ext A C)
  -- JSON of the election's state.
  pub encode_hard : Hard → Bytes

module _ {A C : Type 0} (F : Frame A C) where
  -- What was encoded is decoded: the effects `es`, before any other bytes, and the state `x`.
  abbrev pub AreRead : List (Effect A) → Type 0
  AreRead es = (rest : Bytes) → F.decode_effects (F.encode_effects es ++ rest) ≡ some (es, rest)

  abbrev pub IsRestored : Ext A C → Type 0
  IsRestored x = F.decode_snapshot (F.encode_snapshot x) ≡ some x

module _ {A C : Type 0} (F : Frame A C) where
  unfoldable pub seal_body : List (Effect A) → ℕ → Bytes
  seal_body effects at = F.encode_effects effects ++ F.encode_u64 at

  -- The time after the effects, if eight bytes are left.
  abbrev pub time_of : List (Effect A) × Bytes → List (Effect A) × Option ℕ
  time_of (effects, rest) = (effects, if length rest == 8 then F.decode_u64 rest else none)

  unfoldable pub open_body : Bytes → Option (List (Effect A) × Option ℕ)
  open_body body = elim (F.decode_effects body) [ none ↦ none | some r ↦ some (time_of r) ]

  -- `Executive::initialize_block`: the events of the block before are gone, and the hook deposits its own.
  unfoldable pub initialize : Ext A C → ℕ → Ext A C
  unfolding on_initialize
  initialize x height =
      let (s, effects) = on_initialize F.runtime x.storage height in
      record { storage = s; number = height; events = effects }

module _ {A C : Type 0} (F : Frame A C) where
  pub open_body-decoded :
      (body : Bytes) (r : List (Effect A) × Bytes)
      → F.decode_effects body ≡ some r
      → open_body F body ≡ some (time_of F r)
  unfolding open_body
  open_body-decoded body r h = ap (λ o. elim o [ none ↦ none | some r ↦ some (time_of F r) ]) h
