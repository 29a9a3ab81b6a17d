-- ===== src/Litter/Votes.antt =====
-- Votes on artifacts: `cast_vote` of crates/pallet-litter/src/lib.rs.
pub mod Sides
use akuma_miot.Prelude.{ℕ, ◌+◌, Bool, true, false, List, [], ◌∷◌, ◌++◌, if◌then◌else◌, any, Eq}
use akuma_miot.Litter.Storage.{Tally}

module _ {ℓ} {A : Type ℓ} ⦃e : Eq A⦄ where
  -- `iter().position(|v| v == who)` followed by `remove(i)`
  unfoldable pub remove_first : A → List A → List A
  remove_first who [] = []
  remove_first who (v ∷ vs) = let rest = remove_first who vs in if e.beq v who then vs else v ∷ rest

  abbrev pub is_among : A → List A → Bool
  is_among who vs = any (λ v. e.beq v who) vs

  -- The side of the vote and the other one, after it.
  unfoldable pub switch_sides : A → List A → List A → List A × List A
  unfolding remove_first any
  switch_sides who own other =
      if is_among who own
      then (remove_first who own, other)
      else (own ++ who ∷ [], remove_first who other)

  unfoldable pub cast_vote : Tally A → A → Bool → Tally A
  unfolding switch_sides
  cast_vote t who true =
      let (own, other) = switch_sides who t.up t.down in record { up = own; down = other }
  cast_vote t who false =
      let (own, other) = switch_sides who t.down t.up in record { up = other; down = own }
