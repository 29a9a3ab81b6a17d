-- ===== src/Store/Refines.antt =====
-- Each operation of crates/miot-store/src/lib.rs does to the database what the chain says.
pub mod Rewinds
use akuma_miot.Prelude.{
  ℕ, zero, suc, ◌+◌, ◌-◌, ◌<◌, ◌≤◌, ◌≡◌, refl, sym, ap, ◌∙◌, Bool, true, false, not, ◌&&◌, ◌||◌,
  Option, none, some, List, [], ◌∷◌, ◌++◌, arith, ◌==◌, leb, ltb, if◌then◌else◌, length,
  length-append, Result, ok, err, ◌>>=◌, ◌>>◌, guard, Bool-cases, inl, inr,
}
use akuma_miot.Tasks.Invariant.Verdicts.{Leaves, Leaves-ok, Leaves-guard}
use akuma_miot.Mesh.Maps.{text_eq}
use akuma_miot.Store.Bytes.{
  Bytes, key, key-same, aux_key, key_head, key_last_cp, to_be_bytes, be, be-to_be_bytes, u64_count,
}
use akuma_miot.Store.Database.{Database, Op, IsLawful, written}
use akuma_miot.Store.Log.{
  Store, Error, lift, col_block, col_checkpoint, col_meta, number_of, next, delete_blocks,
  delete_checkpoint, append, put_aux,
}
use akuma_miot.Store.Written.{
  prune, written-prune_block, written-prune_checkpoint, written-prune_meta,
  written-delete_blocks-then, written-delete_blocks_other-then,
  written-delete_checkpoint_other-then, written-append, written-delete_blocks,
  written-delete_blocks_other,
}
use akuma_miot.Store.Spec.{
  Chain, Holds, head_of, block_at, appended, compacted, adopted, rewound, noted,
}
use akuma_miot.Store.Chains.{
  block_at-appended, block_at-beyond, block_at-below, block_at-compacted, length-drop,
}

pub Leaves-lift :
    {E A X : Type 0} {P : X → Type 0} (m : Result E A) (k : A → Result (Error E) X)
    → ((a : A) → m ≡ ok a → Leaves P (k a))
    → Leaves P (lift m >>= k)
Leaves-lift (ok a) k h = h a refl
Leaves-lift (err x) k h = record { left = tt }

pub number-of_be : (n : ℕ) → n < u64_count → number_of (some (to_be_bytes n)) ≡ n
number-of_be n h = rw (be-to_be_bytes n h) refl

-- What some writes do to the keys of a store that holds the chain `c`: they then hold `c'`.
pub record Writes {D : Database} (s : Store D) (c : Chain) (ops : List Op) (c' : Chain)
    : Type 0 where
  pub small : head_of c' + 1 < u64_count
  pub genesis : c'.base ≡ 0 → c'.state ≡ none
  pub blocks :
      (a : ℕ)
      → a < u64_count
      → written {E = D.DbError} ops col_block (key a) (ok (block_at c a)) ≡ ok (block_at c' a)
  pub checkpoint :
      0 < c'.base
      → written ops col_checkpoint (key c'.base) (D.get s.db col_checkpoint (key c'.base))
        ≡ ok c'.state
  pub heads :
      (v : Option Bytes) × (written ops col_meta key_head (D.get s.db col_meta key_head) ≡ ok v)
      × (number_of v ≡ head_of c')
  pub lasts :
      (v : Option Bytes) × (written ops col_meta key_last_cp (D.get s.db col_meta key_last_cp)
        ≡ ok v)
      × (number_of v ≡ c'.base)
  pub others :
      (n : Bytes) → written {E = D.DbError} ops col_meta (aux_key n) (ok (c.aux n)) ≡ ok (c'.aux n)

module _ {D : Database} (L : IsLawful D) (s : Store D) (c : Chain) (H : Holds s c) where
  pub commit-Holds :
      (ops : List Op) (c' : Chain) (d : D.Db)
      → D.commit s.db ops ≡ ok d
      → Writes s c ops c'
      → Holds {D = D} (record { db = d; head = head_of c'; last_checkpoint = c'.base }) c'
  commit-Holds ops c' d h w = record {
    last = refl;
    head = refl;
    small = w.small;
    genesis = w.genesis;
    blocks = λ a la.
        reads col_block (key a)
        ∙ ap (written ops col_block (key a)) (H.blocks a la)
        ∙ w.blocks a la;
    checkpoint = λ p. reads col_checkpoint (key c'.base) ∙ w.checkpoint p;
    heads = (w.heads.0, reads col_meta key_head ∙ w.heads.1, w.heads.2);
    lasts = (w.lasts.0, reads col_meta key_last_cp ∙ w.lasts.1, w.lasts.2);
    others = λ n.
        reads col_meta (aux_key n)
        ∙ ap (written ops col_meta (aux_key n)) (H.others n)
        ∙ w.others n;
  }
    where
      reads : (col : ℕ) (k : Bytes) → D.get d col k ≡ written ops col k (D.get s.db col k)
      reads col k = L.get-commit s.db d ops col k h

  pub append-Writes :
      (b : Bytes)
      → head_of c + 2 < u64_count
      → Writes s c
          ((col_block, key (head_of c + 1), some b)
            ∷ (col_meta, key_head, some (to_be_bytes (head_of c + 1)))
            ∷ [])
          (appended c b)
  unfolding written text_eq
  append-Writes b l = record {
    small = omega (arith, length-append c.blocks (b ∷ []));
    genesis = H.genesis;
    blocks = λ a la.
        ground (arith, key-same (head_of c + 1) a (omega arith) la, block_at-appended c a b);
    checkpoint = λ p. H.checkpoint p;
    heads = (
      some (to_be_bytes (head_of c + 1)),
      refl,
      number-of_be (head_of c + 1) (omega arith) ∙ omega (arith, length-append c.blocks (b ∷ [])),
    );
    lasts = H.lasts;
    others = λ n. refl;
  }

  pub compact-Writes :
      (height : ℕ) (state : Bytes)
      → c.base < height
      → height ≤ head_of c
      → Writes s c
          ((col_checkpoint, key height, some state)
            ∷ (col_meta, key_last_cp, some (to_be_bytes height))
            ∷ prune c.base (c.base + 1) (height - c.base))
          (compacted c height state)
  unfolding written text_eq
  compact-Writes height state p q = record {
    small = omega (arith, length-drop (height - c.base) c.blocks, H.small);
    genesis = λ z. absurd (omega arith);
    blocks = λ a la.
        written-prune_block c.base (c.base + 1) (height - c.base) a (ok (block_at c a))
          (omega arith) la
        ∙ ground (arith, block_at-compacted c a height state p, block_at-below c a);
    checkpoint = λ z.
        written-prune_checkpoint c.base (c.base + 1) (height - c.base) height _ (omega arith)
          (omega arith)
        ∙ ground (arith, key-same height height);
    heads = (
      H.heads.0,
      written-prune_meta c.base (c.base + 1) (height - c.base) key_head _ ∙ H.heads.1,
      H.heads.2 ∙ omega (arith, length-drop (height - c.base) c.blocks),
    );
    lasts = (
      some (to_be_bytes height),
      written-prune_meta c.base (c.base + 1) (height - c.base) key_last_cp _,
      number-of_be height (omega arith),
    );
    others = λ n. written-prune_meta c.base (c.base + 1) (height - c.base) (aux_key n) _;
  }

  pub adopt-Writes :
      (height : ℕ) (state : Bytes)
      → height + 1 < u64_count
      → Writes s c
          (delete_blocks 1 (head_of c)
            ++ (delete_checkpoint c.base
                ++ ((col_checkpoint, key height, some state)
                    ∷ (col_meta, key_last_cp, some (to_be_bytes height))
                    ∷ (col_meta, key_head, some (to_be_bytes height))
                    ∷ [])))
          (adopted c height state)
  unfolding written text_eq
  adopt-Writes height state l = record {
    small = omega arith;
    genesis = λ z. ground arith;
    blocks = λ a la.
        written-delete_blocks-then _ 1 (head_of c) a (ok (block_at c a)) (omega arith) la
        ∙ written-delete_checkpoint_other-then _ c.base col_block (key a) _ refl
        ∙ ground (
          arith,
          block_at-beyond c a,
          block_at-below c a,
          block_at-beyond (adopted c height state) a,
          block_at-below (adopted c height state) a,
        );
    checkpoint = λ z.
        written-delete_blocks_other-then _ 1 (head_of c) col_checkpoint (key height) _ refl
        ∙ written-append (delete_checkpoint c.base) _ col_checkpoint (key height) _
        ∙ ground (arith, key-same height height);
    heads = (
      some (to_be_bytes height),
      written-delete_blocks_other-then _ 1 (head_of c) col_meta key_head _ refl
          ∙ written-delete_checkpoint_other-then _ c.base col_meta key_head _ refl,
      number-of_be height (omega arith) ∙ omega arith,
    );
    lasts = (
      some (to_be_bytes height),
      written-delete_blocks_other-then _ 1 (head_of c) col_meta key_last_cp _ refl
          ∙ written-delete_checkpoint_other-then _ c.base col_meta key_last_cp _ refl,
      number-of_be height (omega arith),
    );
    others = λ n.
        written-delete_blocks_other-then _ 1 (head_of c) col_meta (aux_key n) _ refl
        ∙ written-delete_checkpoint_other-then _ c.base col_meta (aux_key n) _ refl;
  }

  pub note-Writes :
      (name value : Bytes)
      → Writes s c ((col_meta, aux_key name, some value) ∷ []) (noted c name value)
  unfolding written text_eq block_at
  note-Writes name value = record {
    small = H.small;
    genesis = H.genesis;
    blocks = λ a la. refl;
    checkpoint = H.checkpoint;
    heads = H.heads;
    lasts = H.lasts;
    others = λ n. ground arith;
  }
