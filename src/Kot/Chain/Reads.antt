-- ===== src/Kot/Chain/Reads.antt =====
-- The loop of `replay` (crates/kot/src/node.rs) reads every block of the store and makes the state that they
-- make.
use akuma_miot.Prelude.{
  ℕ, ◌+◌, ◌<◌, ◌≡◌, suc, refl, sym, ap, ◌∙◌, Option, none, some, List, [], ◌∷◌, arith, length, Eq,
  Option-cases, inl, inr, Result, ok, err,
}
use akuma_miot.Primitives.Effect.{Effect}
use akuma_miot.Store.Bytes.{Bytes, u64_count}
use akuma_miot.Store.Database.{Database}
use akuma_miot.Store.Log.{Store, Error, next, block}
use akuma_miot.Store.Spec.{nth}
use akuma_miot.Kot.Chain.{Node}
use akuma_miot.Kot.Chain.Bodies.{Frame, open_body}
use akuma_miot.Kot.Chain.Replays.{apply_block, replay_from}
use akuma_miot.Kot.Chain.Rebuilt.{
  View, view, followed, fold_blocks, fold_blocks-opened, fold_blocks-shut, Folds, apply_block-Folds,
}

pub next_of : (h : ℕ) → h + 1 < u64_count → next h ≡ h + 1
next_of h l = ground (arith, l)

module _ {D : Database} {A C H : Type 0} ⦃e : Eq A⦄ (F : Frame A C) where
  replay_from-read :
      (n : Node D A C H) (h count : ℕ) (b : Bytes) (r : List (Effect A) × Option ℕ)
      → block n.store h ≡ ok (some b)
      → open_body F b ≡ some r
      → replay_from F n h (suc count)
        ≡ replay_from F (apply_block F (record n { block = h }) h r.0 r.1) (h + 1) count
  unfolding replay_from
  replay_from-read n h count b r k o =
      ap
        (λ (x : Result (Error D.DbError) (Option Bytes)). elim x [
          | ok y ↦ elim y [
            | some body ↦ elim (open_body F body) [
              | some q ↦
                  replay_from F (apply_block F (record n { block = h }) h q.0 q.1) (h + 1) count
              | none ↦ none
            ]
            | none ↦ none
          ]
          | err z ↦ none
        ])
        k
      ∙ ap
          (λ x. elim x [
            | some q ↦
                replay_from F (apply_block F (record n { block = h }) h q.0 q.1) (h + 1) count
            | none ↦ none
          ])
          o

  -- From a state that is `v`, through blocks that make `w` of it.
  pub replay_from-Folds :
      (bs : List Bytes) (n : Node D A C H) (v w : View A C) (h : ℕ)
      → ((i : ℕ) → i < length bs → block n.store (h + i) ≡ ok (nth bs i))
      → h + length bs < u64_count
      → view n.ext ≡ v
      → n.block ≡ h
      → fold_blocks F v h bs ≡ some w
      → (m : Node D A C H) × (replay_from F n h (length bs) ≡ some m) × Folds n m w (h + length bs)
  unfolding replay_from fold_blocks nth
  replay_from-Folds [] n v w h stored l s b k =
      (n, refl, record { seen = s ∙ (cc); store = refl; block = omega (arith, b) })
  replay_from-Folds (x ∷ bs) n v w h stored l s b k = elim (Option-cases (open_body F x)) [
    | inl o ↦ absurd (cc (k, fold_blocks-shut F v h x bs o))
    | inr (q, o) ↦
        (let n' = apply_block F (record n { block = h }) h q.0 q.1 in
          let f = apply_block-Folds F (record n { block = h }) h q.0 q.1 in
          let r =
            replay_from-Folds bs n' (followed F v q.0 h) w (h + 1)
              (λ i j.
                ap (λ (u : Store D). block u (h + 1 + i)) f.store
                ∙ ap (block n.store) (omega arith)
                ∙ stored (suc i) (omega (arith, j)))
              (omega (arith, l)) (f.seen ∙ ap (λ u. followed F u q.0 h) s)
              (f.block ∙ next_of h (omega (arith, l)))
              (sym (fold_blocks-opened F v h x bs q o) ∙ k) in
          (
            r.0,
            replay_from-read n h (length bs) x q
                  (ap (block n.store) (omega arith) ∙ stored 0 (omega arith)) o
                ∙ r.1,
            record {
              seen = r.2.seen;
              store = r.2.store ∙ f.store;
              block = omega (arith, r.2.block);
            },
          ))
  ]
