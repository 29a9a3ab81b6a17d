-- ===== src/Store/Database.antt =====
-- The database under crates/miot-store/src/lib.rs (the crate parity_db, which is not in the repository):
-- columns of entries that are read one by one and written many at once.
use akuma_miot.Prelude.{ℕ, ◌≡◌, ◌&&◌, Option, List, [], ◌∷◌, ◌==◌, if◌then◌else◌, Result, ok}
use akuma_miot.Mesh.Maps.{text_eq}
use akuma_miot.Store.Bytes.{Bytes}

-- One write of a commit: a column, a key, and the value, or none to delete.
abbrev pub Op : Type 0
Op = ℕ × Bytes × Option Bytes

pub record Database : Type 1 where
  pub Db : Type 0
  pub DbError : Type 0
  pub get : Db → ℕ → Bytes → Result DbError (Option Bytes)
  pub commit : Db → List Op → Result DbError Db

-- What a read of a key gives after some writes, the last of which counts, if it gave `old` before.
unfoldable pub written :
    {E : Type 0} → List Op → ℕ → Bytes → Result E (Option Bytes) → Result E (Option Bytes)
unfolding text_eq
written [] col k old = old
written ((c, j, v) ∷ ops) col k old =
    written ops col k (if c == col && text_eq j k then ok v else old)

-- A commit that does not fail is read back, and leaves the other keys alone.
pub record IsLawful (D : Database) : Type 0 where
  pub get-commit :
      (d d' : D.Db) (ops : List Op) (col : ℕ) (k : Bytes)
      → D.commit d ops ≡ ok d'
      → D.get d' col k ≡ written ops col k (D.get d col k)
