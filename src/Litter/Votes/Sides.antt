-- ===== src/Litter/Votes/Sides.antt =====
-- Where each voter stands in a tally of crates/pallet-litter/src/lib.rs.
use akuma_miot.Prelude.{
  ℕ, ◌+◌, ◌-◌, ◌≤◌, ◌≡◌, refl, Bool, true, false, Option, none, some, List, [], ◌∷◌, ◌++◌, arith,
  if◌then◌else◌, ltb, any, Eq,
}
use akuma_miot.Litter.Storage.{Tally, default_tally}
use akuma_miot.Litter.Votes.{cast_vote, switch_sides, remove_first, is_among}

-- A vote for one's own side withdraws it, any other vote is where one stands after.
abbrev pub side_after : Option Bool → Bool → Option Bool
side_after none up = some up
side_after (some true) true = none
side_after (some true) false = some false
side_after (some false) true = some true
side_after (some false) false = none

module _ {A : Type 0} ⦃e : Eq A⦄ where
  unfoldable pub count : A → List A → ℕ
  count a [] = 0
  count a (v ∷ vs) = (if e.beq v a then 1 else 0) + count a vs

  -- Each account is at most once in a tally.
  abbrev pub IsOneSided : Tally A → Type 0
  IsOneSided t = (a : A) → count a t.up + count a t.down ≤ 1

  -- `some true` for an account that voted up, `some false` for one that voted down.
  abbrev pub side_of : Tally A → A → Option Bool
  unfolding any
  side_of t a =
      if is_among a t.up then some true else if is_among a t.down then some false else none

  is_among-count : (a : A) (vs : List A) → is_among a vs ≡ ltb 0 (count a vs)
  unfolding any count
  is_among-count a [] = refl
  is_among-count a (v ∷ vs) = ground (arith, is_among-count a vs)

  count-append : (a : A) (xs ys : List A) → count a (xs ++ ys) ≡ count a xs + count a ys
  unfolding count
  count-append a [] ys = omega arith
  count-append a (x ∷ xs) ys = omega (arith, count-append a xs ys)

  count-remove_first :
      (a who : A) (vs : List A)
      → count a (remove_first who vs) ≡ count a vs - (if e.beq who a then 1 else 0)
  unfolding count remove_first
  count-remove_first a who [] = ground arith
  count-remove_first a who (v ∷ vs) =
      grind (arith, e.beq_iff v who, e.beq_iff v a, e.beq_iff who a, count-remove_first a who vs)

  count-one : (a who : A) → count a (who ∷ []) ≡ (if e.beq who a then 1 else 0)
  unfolding count
  count-one a who = ground arith

  side_of-count :
      (t : Tally A) (a : A)
      → side_of t a ≡ (
          if ltb 0 (count a t.up)
          then some true
          else if ltb 0 (count a t.down)
          then some false
          else none)
  unfolding any
  side_of-count t a = rw (is_among-count a t.up, is_among-count a t.down)

module _ {A : Type 0} ⦃e : Eq A⦄ (who : A) (own other : List A)
    (h : (a : A) → count a own + count a other ≤ 1) where
  -- One's own side after a switch, and the other one.
  switch-own :
      (a : A)
      → count a (switch_sides who own other).0
        ≡ (if e.beq who a then (if is_among who own then 0 else 1) else count a own)
  unfolding switch_sides any
  switch-own a = grind (
    arith,
    e.beq_iff who a,
    is_among-count who own,
    count-append a own (who ∷ []),
    count-one a who,
    count-remove_first a who own,
    h a,
  )

  switch-other :
      (a : A) → count a (switch_sides who own other).1 ≡ (if e.beq who a then 0 else count a other)
  unfolding switch_sides any
  switch-other a =
      grind (arith, e.beq_iff who a, is_among-count who own, count-remove_first a who other, h a)

module _ {A : Type 0} ⦃e : Eq A⦄ (t : Tally A) (who : A) (h : IsOneSided t) where
  -- A vote leaves every account at most once in the tally.
  pub cast_vote-IsOneSided : (up : Bool) → IsOneSided (cast_vote t who up)
  unfolding cast_vote any
  cast_vote-IsOneSided true a =
      ground (arith, switch-own who t.up t.down h a, switch-other who t.up t.down h a, h a)
  cast_vote-IsOneSided false a = ground (
    arith,
    switch-own who t.down t.up (λ b. omega (arith, h b)) a,
    switch-other who t.down t.up (λ b. omega (arith, h b)) a,
    h a,
  )

  -- A vote moves the voter alone: to the side that it votes for, or off the tally when it stood there.
  pub cast_vote-side_of :
      (up : Bool) (a : A)
      → side_of (cast_vote t who up) a
        ≡ (if e.beq who a then side_after (side_of t who) up else side_of t a)
  unfolding cast_vote any
  cast_vote-side_of true a =
      rw (side_of-count (cast_vote t who true) a, side_of-count t a, side_of-count t who)
        (grind (
          arith,
          e.beq_iff who a,
          is_among-count who t.up,
          switch-own who t.up t.down h a,
          switch-other who t.up t.down h a,
          h a,
          h who,
        ))
  cast_vote-side_of false a =
      rw (side_of-count (cast_vote t who false) a, side_of-count t a, side_of-count t who)
        (grind (
          arith,
          e.beq_iff who a,
          is_among-count who t.down,
          switch-own who t.down t.up (λ b. omega (arith, h b)) a,
          switch-other who t.down t.up (λ b. omega (arith, h b)) a,
          h a,
          h who,
        ))

pub default-IsOneSided : {A : Type 0} ⦃e : Eq A⦄ → IsOneSided {A = A} default_tally
unfolding count
default-IsOneSided a = omega arith
