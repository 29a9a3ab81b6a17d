-- ===== src/Kot/Chain/Rebuilt.antt =====
-- The state that the blocks of a store make, one after the other, and the replay of a node
-- (crates/kot/src/node.rs) that reads them.
use akuma_miot.Prelude.{
  ℕ, ◌+◌, ◌≡◌, refl, sym, ap, ◌∙◌, Bool, true, false, Option, none, some, List, [], ◌∷◌, ◌++◌, any,
  keep, arith, length, if◌then◌else◌, Eq, Option-cases, inl, inr,
}
use akuma_miot.Primitives.Effect.{Effect}
use akuma_miot.Store.Bytes.{Bytes}
use akuma_miot.Store.Database.{Database}
use akuma_miot.Store.Log.{next}
use akuma_miot.Litter.Storage.{Storage}
use akuma_miot.Litter.Blocks.{on_initialize, replay_all}
use akuma_miot.Kot.Feed.{log_all}
use akuma_miot.Kot.Chain.{Node, absorb, reread_patrons, is_patron_move, is_recorded, open_block}
use akuma_miot.Kot.Chain.Bodies.{Frame, Ext, open_body, initialize}
use akuma_miot.Kot.Chain.Replays.{apply_block}

-- The state, and the number of the block that is open.
abbrev pub View : Type 0 → Type 0 → Type 0
View A C = Storage A C × ℕ

abbrev pub view : {A C : Type 0} → Ext A C → View A C
view x = (x.storage, x.number)

module _ {A C : Type 0} ⦃e : Eq A⦄ (F : Frame A C) where
  -- The block `h` with the effects `es`, folded, and the next one opened.
  abbrev pub followed : View A C → List (Effect A) → ℕ → View A C
  followed v es h = ((on_initialize F.runtime (replay_all F.runtime v.0 es v.1) (next h)).0, next h)

  unfoldable pub fold_blocks : View A C → ℕ → List Bytes → Option (View A C)
  fold_blocks v h [] = some v
  fold_blocks v h (b ∷ bs) = elim (open_body F b) [
    | none ↦ none
    | some r ↦ fold_blocks (followed v r.0 h) (h + 1) bs
  ]

  pub fold_blocks-opened :
      (v : View A C) (h : ℕ) (b : Bytes) (bs : List Bytes) (r : List (Effect A) × Option ℕ)
      → open_body F b ≡ some r
      → fold_blocks v h (b ∷ bs) ≡ fold_blocks (followed v r.0 h) (h + 1) bs
  unfolding fold_blocks
  fold_blocks-opened v h b bs r k =
      ap (λ o. elim o [ none ↦ none | some r ↦ fold_blocks (followed v r.0 h) (h + 1) bs ]) k

  pub fold_blocks-shut :
      (v : View A C) (h : ℕ) (b : Bytes) (bs : List Bytes)
      → open_body F b ≡ none
      → fold_blocks v h (b ∷ bs) ≡ none
  unfolding fold_blocks
  fold_blocks-shut v h b bs k =
      ap (λ o. elim o [ none ↦ none | some r ↦ fold_blocks (followed v r.0 h) (h + 1) bs ]) k

  -- One more block.
  pub fold_blocks-append :
      (bs : List Bytes) (v w : View A C) (h : ℕ) (b : Bytes) (r : List (Effect A) × Option ℕ)
      → fold_blocks v h bs ≡ some w
      → open_body F b ≡ some r
      → fold_blocks v h (bs ++ b ∷ []) ≡ some (followed w r.0 (h + length bs))
  unfolding fold_blocks
  fold_blocks-append [] v w h b r k o =
      fold_blocks-opened v h b [] r o
      ∙ ap (λ u. some (followed u r.0 h)) (cc)
      ∙ ap (λ n. some (followed w r.0 n)) (omega arith)
  fold_blocks-append (x ∷ bs) v w h b r k o = elim (Option-cases (open_body F x)) [
    | inl n ↦ absurd (cc (k, fold_blocks-shut v h x bs n))
    | inr (q, y) ↦
        fold_blocks-opened v h x (bs ++ b ∷ []) q y
        ∙ fold_blocks-append bs (followed v q.0 h) w (h + 1) b r
            (sym (fold_blocks-opened v h x bs q y) ∙ k) o
        ∙ ap (λ n. some (followed w r.0 n)) (omega arith)
  ]

module _ {D : Database} {A C H : Type 0} where
  -- What `absorb` leaves alone, and the block body.
  pub record Absorbs (n : Node D A C H) (es : List (Effect A)) (m : Node D A C H) : Type 0 where
    pub ext : m.ext ≡ n.ext
    pub store : m.store ≡ n.store
    pub block : m.block ≡ n.block
    pub compaction : m.pending_compaction ≡ n.pending_compaction
    pub producing : m.producing ≡ n.producing
    pub pending : m.pending ≡ n.pending ++ keep is_recorded es
    pub root : m.access.genesis_root ≡ n.access.genesis_root
    pub leader : m.access.genesis_leader ≡ n.access.genesis_leader
    pub roster : m.genesis_roster ≡ n.genesis_roster

module _ {D : Database} {A C H : Type 0} ⦃e : Eq A⦄ where
  pub absorb-Absorbs : (n : Node D A C H) (es : List (Effect A)) → Absorbs n es (absorb n es)
  unfolding absorb reread_patrons
  absorb-Absorbs n es = go (any is_patron_move es)
    where
      from : Node D A C H → Node D A C H
      from m = record m {
        feed = log_all m.feed m.block es;
        pending = m.pending ++ keep is_recorded es;
      }

      go : (b : Bool) → Absorbs n es (from (if b then reread_patrons n else n))
      go true = record {
        ext = refl;
        store = refl;
        block = refl;
        compaction = refl;
        producing = refl;
        pending = refl;
        root = refl;
        leader = refl;
        roster = refl;
      }
      go false = record {
        ext = refl;
        store = refl;
        block = refl;
        compaction = refl;
        producing = refl;
        pending = refl;
        root = refl;
        leader = refl;
        roster = refl;
      }

module _ {D : Database} {A C H : Type 0} where
  -- A node that folded some blocks.
  pub record Folds (n m : Node D A C H) (w : View A C) (h : ℕ) : Type 0 where
    pub seen : (m.ext.storage, m.ext.number) ≡ w
    pub store : m.store ≡ n.store
    pub block : m.block ≡ h

module _ {D : Database} {A C H : Type 0} ⦃e : Eq A⦄ (F : Frame A C) where
  pub apply_block-Folds :
      (n : Node D A C H) (h : ℕ) (es : List (Effect A)) (at : Option ℕ)
      → Folds n (apply_block F n h es at) (followed F ((n.ext.storage, n.ext.number)) es h) (next h)
  unfolding apply_block open_block initialize
  apply_block-Folds n h es at = record {
    seen = ap (λ (x : Ext A C). ((on_initialize F.runtime x.storage (next h)).0, next h)) k.ext;
    store = k.store;
    block = refl;
  }
    where
      m : Node D A C H
      m = record n {
        ext = record n.ext { storage = replay_all F.runtime n.ext.storage es n.ext.number };
      }

      k : Absorbs m es (absorb m es)
      k = absorb-Absorbs m es
