-- ===== src/Litter/Maps.antt =====
-- `StorageMap` of FRAME as crates/pallet-litter/src/lib.rs uses it: a list of entries. What the code
-- reads of it does not depend on their order.
pub mod Keys
use akuma_miot.Prelude.{
  ℕ, ◌+◌, ◌==◌, ◌↔◌, ◌≡◌, ◌≢◌, refl, Bool, true, false, not, Option, none, some, List, [], ◌∷◌, map,
  arith, if◌then◌else◌, is_some, unwrap_or, length, Eq, All,
}
use akuma_miot.Primitives.TaskId.{same, same_iff}
use akuma_miot.Primitives.Ids.{ArtifactId}

-- The derived `PartialEq` of `ArtifactId`.
unfoldable pub artifact_eq : ArtifactId → ArtifactId → Bool
unfolding same
artifact_eq (ArtifactId.task a) (ArtifactId.task b) = same a b
artifact_eq (ArtifactId.note a) (ArtifactId.note b) = a == b
artifact_eq _ _ = false

pub artifact_eq_iff : (a b : ArtifactId) → (artifact_eq a b ≡ true) ↔ (a ≡ b)
unfolding artifact_eq
artifact_eq_iff (ArtifactId.task a) (ArtifactId.task b) = grind (arith, same_iff a b)
artifact_eq_iff (ArtifactId.note a) (ArtifactId.note b) = ground arith
artifact_eq_iff (ArtifactId.task a) (ArtifactId.note b) = ground arith
artifact_eq_iff (ArtifactId.note a) (ArtifactId.task b) = ground arith

instance abbrev pub artifact_keys : Eq ArtifactId
artifact_keys = record { beq = artifact_eq; beq_iff = artifact_eq_iff }

module _ {ℓ κ} {K : Type ℓ} {V : Type κ} ⦃e : Eq K⦄ where
  -- `StorageMap::get` of a map with `OptionQuery`.
  unfoldable pub lookup : K → List (K × V) → Option V
  lookup k [] = none
  lookup k ((j, v) ∷ m) = let rest = lookup k m in if e.beq j k then some v else rest

  abbrev pub contains_key : K → List (K × V) → Bool
  contains_key k m = is_some (lookup k m)

  unfoldable pub insert : K → V → List (K × V) → List (K × V)
  insert k v [] = (k, v) ∷ []
  insert k v ((j, w) ∷ m) =
      let rest = insert k v m in if e.beq j k then (k, v) ∷ m else (j, w) ∷ rest

  -- `StorageMap::remove`
  unfoldable pub remove : K → List (K × V) → List (K × V)
  remove k [] = []
  remove k ((j, w) ∷ m) = let rest = remove k m in if e.beq j k then rest else (j, w) ∷ rest

  -- `StorageMap::get` of a map with `ValueQuery`, whose default is `d`.
  abbrev pub get_or : V → K → List (K × V) → V
  get_or d k m = unwrap_or d (lookup k m)

  -- `StorageMap::mutate`
  unfoldable pub mutate : V → K → (V → V) → List (K × V) → List (K × V)
  unfolding insert lookup
  mutate d k f m = insert k (f (get_or d k m)) m

  -- A map has each key once.
  abbrev pub NodupKeys : List (K × V) → Type κ
  NodupKeys [] = Unit
  NodupKeys ((j, w) ∷ m) = (lookup j m ≡ none) × NodupKeys m

module _ {K : Type 0} ⦃e : Eq K⦄ where
  pub beq_refl : (k : K) → e.beq k k ≡ true
  beq_refl k = (e.beq_iff k k).1 refl

  pub beq-false : (j k : K) → j ≢ k → e.beq j k ≡ false
  beq-false j k h = grind (arith, e.beq_iff j k)

module _ {K V : Type 0} ⦃e : Eq K⦄ where
  pub lookup-insert_same : (k : K) (v : V) (m : List (K × V)) → lookup k (insert k v m) ≡ some v
  unfolding lookup insert
  lookup-insert_same k v [] = ground (arith, beq_refl k)
  lookup-insert_same k v ((j, w) ∷ m) = ground (arith, beq_refl k, lookup-insert_same k v m)

  pub lookup-insert_other :
      (j k : K) (v : V) (m : List (K × V))
      → e.beq k j ≡ false
      → lookup j (insert k v m) ≡ lookup j m
  unfolding lookup insert
  lookup-insert_other j k v [] h = ground arith
  lookup-insert_other j k v ((i, w) ∷ m) h =
      grind (arith, e.beq_iff i k, lookup-insert_other j k v m h)

  pub lookup-remove_same : (k : K) (m : List (K × V)) → lookup k (remove k m) ≡ none
  unfolding lookup remove
  lookup-remove_same k [] = refl
  lookup-remove_same k ((j, w) ∷ m) = ground (arith, lookup-remove_same k m)

  pub lookup-remove_other :
      (j k : K) (m : List (K × V)) → e.beq k j ≡ false → lookup j (remove k m) ≡ lookup j m
  unfolding lookup remove
  lookup-remove_other j k [] h = refl
  lookup-remove_other j k ((i, w) ∷ m) h = grind (arith, e.beq_iff i k, lookup-remove_other j k m h)
