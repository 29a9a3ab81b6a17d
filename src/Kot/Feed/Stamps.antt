-- ===== src/Kot/Feed/Stamps.antt =====
-- What a stamp leaves of the log of a node (`stamp_block` of crates/kot/src/node.rs).
use akuma_miot.Prelude.{
  ℕ, ◌≡◌, refl, sym, ap, subst, ◌∙◌, Bool, true, false, ◌||◌, Option, List, [], ◌∷◌, ◌++◌, map,
  ◌==◌, ltb, if◌then◌else◌, if-rule, All,
}
use akuma_miot.Primitives.Effect.{Effect}
use akuma_miot.Kot.Feed.{Entry, stamp_from}

module _ {A : Type 0} where
  -- What a stamp leaves alone of an entry.
  abbrev pub shown : Entry A → ℕ × Effect A
  shown e = (e.seq, e.effect)

  abbrev pub effects_of : List (Entry A) → List (Effect A)
  effects_of log = map (λ (e : Entry A). e.effect) log

  stamp-cons :
      (height : ℕ) (at : Option ℕ) (e : Entry A) (log : List (Entry A))
      → (e' : Entry A) × ((stamp_from height at (e ∷ log)).1 ≡ e' ∷ (stamp_from height at log).1)
        × (shown e' ≡ shown e)
  unfolding stamp_from
  stamp-cons height at e log =
      if-rule
        (λ (x : Bool × List (Entry A)).
          (e' : Entry A) × (x.1 ≡ e' ∷ (stamp_from height at log).1) × (shown e' ≡ shown e))
        ((stamp_from height at log).0 || ltb e.block height)
        (true, e ∷ (stamp_from height at log).1)
        (
          false,
          (if e.block == height then record e { at = at } else e) ∷ (stamp_from height at log).1,
        )
        (λ y. (e, refl, refl))
        (λ n. (
          (if e.block == height then record e { at = at } else e),
          refl,
          if-rule (λ (x : Entry A). shown x ≡ shown e) (e.block == height) (record e { at = at }) e
              (λ y. refl) (λ n. refl),
        ))

  pub stamp-split :
      (height : ℕ) (at : Option ℕ) (old new : List (Entry A))
      → (old' : List (Entry A)) × ((stamp_from height at (old ++ new)).1
          ≡ old' ++ (stamp_from height at new).1)
        × (map shown old' ≡ map shown old)
  stamp-split height at [] new = ([], refl, refl)
  stamp-split height at (e ∷ old) new =
      let c = stamp-cons height at e (old ++ new) in
      let r = stamp-split height at old new in
      (
        c.0 ∷ r.0,
        c.1 ∙ ap (λ l. c.0 ∷ l) r.1,
        ap (λ x. x ∷ map shown r.0) c.2 ∙ ap (λ l. shown e ∷ l) r.2,
      )

  pub stamp-shown :
      (height : ℕ) (at : Option ℕ) (log : List (Entry A))
      → map shown (stamp_from height at log).1 ≡ map shown log
  unfolding stamp_from
  stamp-shown height at [] = refl
  stamp-shown height at (e ∷ log) =
      let c = stamp-cons height at e log in
      ap (map shown) c.1
      ∙ ap (λ x. x ∷ map shown (stamp_from height at log).1) c.2
      ∙ ap (λ l. shown e ∷ l) (stamp-shown height at log)

  pub All-seqs :
      (P : ℕ → Type 0) (xs ys : List (Entry A))
      → map shown ys ≡ map shown xs
      → All (λ (e : Entry A). P e.seq) xs
      → All (λ (e : Entry A). P e.seq) ys
  All-seqs P [] [] h a = tt
  All-seqs P [] (y ∷ ys) h a = cc
  All-seqs P (x ∷ xs) [] h a = cc
  All-seqs P (x ∷ xs) (y ∷ ys) h a = (subst P (sym (cc)) a.0, All-seqs P xs ys (cc) a.1)

  pub effects-shown :
      (xs : List (Entry A)) → map (λ (x : ℕ × Effect A). x.1) (map shown xs) ≡ effects_of xs
  effects-shown [] = refl
  effects-shown (x ∷ xs) = ap (λ l. x.effect ∷ l) (effects-shown xs)
