-- ===== src/Kot/Chain/Advances.antt =====
-- A node that produces closes its block and opens the next (`advance` of crates/kot/src/node.rs).
use akuma_miot.Prelude.{
  ℕ, ◌+◌, ◌<◌, ◌≡◌, refl, ap, ◌∙◌, Bool, true, false, Option, none, some, List, [], ◌∷◌, ◌++◌,
  arith, if◌then◌else◌, Eq, Result, ok, err,
}
use akuma_miot.Primitives.Effect.{Effect}
use akuma_miot.Mesh.State.{Mesh, Hard, take_dirty, appended}
use akuma_miot.Store.Bytes.{Bytes, u64_count}
use akuma_miot.Store.Database.{Database, IsLawful}
use akuma_miot.Store.Log.{Store, Error, append, compact, put_aux}
use akuma_miot.Store.Spec
use akuma_miot.Store.Spec.{Chain, Holds, head_of, compacted}
use akuma_miot.Litter.Storage.{Storage}
use akuma_miot.Kot.Feed.{stamp_block}
use akuma_miot.Kot.Chain.{Node, aux_mesh, save_hard, after_append, persist, compact_at, compact_due}
use akuma_miot.Kot.Chain.Bodies.{Frame, AreRead, seal_body, open_body-decoded}
use akuma_miot.Kot.Chain.Stored.{IsReliable, append-Holds, compact-Holds, put_aux-Holds}
use akuma_miot.Kot.Chain.Rebuilt.{View, followed, fold_blocks, fold_blocks-append}
use akuma_miot.Kot.Chain.Recovery.{Makes, Starts}

-- The same blocks with other values beside them.
abbrev pub beside : Chain → (Bytes → Option Bytes) → Chain
beside c aux = record c { aux = aux }

module _ {A C : Type 0} ⦃e : Eq A⦄ (F : Frame A C) (g : View A C) where
  pub Makes-beside :
      (c : Chain) (aux : Bytes → Option Bytes) (w : View A C)
      → Makes F g c w
      → Makes F g (beside c aux) w
  Makes-beside c aux w (v, Starts.at_genesis z, k) = (v, Starts.at_genesis z, k)
  Makes-beside c aux w (v, Starts.at_checkpoint blob x l s d, k) =
      (v, Starts.at_checkpoint blob x l s d, k)

  module _ (c : Chain) (s : Storage A C) (es : List (Effect A)) (at now : ℕ)
      (h : now ≡ head_of c + 1) (read : AreRead F es) where
    appended-fold :
        (v : View A C)
        → fold_blocks F v (c.base + 1) c.blocks ≡ some (s, now)
        → fold_blocks F v (c.base + 1) (c.blocks ++ seal_body F es at ∷ [])
          ≡ some (followed F (s, now) es now)
    unfolding seal_body
    appended-fold v k =
        fold_blocks-append F c.blocks v (s, now) (c.base + 1) (seal_body F es at) _ k
          (open_body-decoded F (seal_body F es at) (es, F.encode_u64 at) (read (F.encode_u64 at)))
        ∙ ap (λ n. some (followed F (s, now) es n)) (omega (arith, h))

    -- The chain with the body of the block that closes makes the state of the node, with the next block open.
    pub appended-Makes :
        Makes F g c (s, now)
        → Makes F g (Spec.appended c (seal_body F es at)) (followed F (s, now) es now)
    appended-Makes (v, Starts.at_genesis z, k) = (v, Starts.at_genesis z, appended-fold v k)
    appended-Makes (v, Starts.at_checkpoint blob x l t d, k) =
        (v, Starts.at_checkpoint blob x l t d, appended-fold v k)

module _ {D : Database} {A C H : Type 0} ⦃e : Eq A⦄ (F : Frame A C) (L : IsLawful D)
    (R : IsReliable D) where
  saved :
      (n : Node D A C H) (c : Chain)
      → Holds n.store c
      → (s : Store D) × (aux : Bytes → Option Bytes) × (save_hard F n
          ≡ record n { mesh = (take_dirty n.mesh).0; store = s })
        × Holds s (beside c aux)
  unfolding save_hard
  saved n c h = go (take_dirty n.mesh).1
    where
      go :
          (dirty : Option Hard)
          → (s : Store D) × (aux : Bytes → Option Bytes) × (elim dirty as (λ _. Node D A C H) [
            | none ↦ record n { mesh = (take_dirty n.mesh).0 }
            | some k ↦ elim (put_aux n.store aux_mesh (F.encode_hard k)) [
              | ok store ↦ record n { mesh = (take_dirty n.mesh).0; store = store }
              | err x ↦ record n { mesh = (take_dirty n.mesh).0 }
            ]
          ]
              ≡ record n { mesh = (take_dirty n.mesh).0; store = s })
            × Holds s (beside c aux)
      go none = (n.store, c.aux, refl, h)
      go (some k) =
          let r = put_aux-Holds L R n.store c h aux_mesh (F.encode_hard k) in
          (
            r.0,
            (Spec.noted c aux_mesh (F.encode_hard k)).aux,
            ap
                (λ (x : Result (Error D.DbError) (Store D)). elim x as (λ _. Node D A C H) [
                  | ok store ↦ record n { mesh = (take_dirty n.mesh).0; store = store }
                  | err x ↦ record n { mesh = (take_dirty n.mesh).0 }
                ])
                r.1,
            r.2,
          )

  pub persisted :
      (n : Node D A C H) (c : Chain) (at : ℕ)
      → Holds n.store c
      → n.block ≡ head_of c + 1
      → head_of c + 2 < u64_count
      → (mesh : Mesh) × (s : Store D) × (aux : Bytes → Option Bytes) × (persist F n n.block at
          ≡ record n {
            feed = stamp_block n.feed n.block (some at);
            mesh = mesh;
            store = s;
            pending = [];
          })
        × Holds s (beside (Spec.appended c (seal_body F n.pending at)) aux)
  unfolding persist after_append
  persisted n c at h b l =
      let body = seal_body F n.pending at in
      let m = record n { feed = stamp_block n.feed n.block (some at) } in
      let r = append-Holds L R n.store c h body l in
      let q = saved (record m { store = r.0; mesh = appended m.mesh }) (Spec.appended c body) r.2 in
      (
        (take_dirty (appended m.mesh)).0,
        q.0,
        q.1,
        ap (λ k. record (after_append F m (append m.store k body)) { pending = [] }) b
            ∙ ap (λ v. record (after_append F m v) { pending = [] }) r.1
            ∙ ap (λ (x : Node D A C H). record x { pending = [] }) q.2,
        q.3,
      )

  pub compacted_due :
      (q : Node D A C H) (c : Chain) (closing : ℕ)
      → Holds q.store c
      → closing ≡ head_of c
      → c.base < head_of c
      → (s : Store D) × (c' : Chain) × (compact_due F q closing
          ≡ record q { store = s; pending_compaction = false })
        × Holds s c'
        × (c' ≡ (
            if q.pending_compaction then compacted c (head_of c) (F.encode_snapshot q.ext) else c))
  unfolding compact_due compact_at
  compacted_due q c closing h k l = go q.pending_compaction refl
    where
      r :
          (r : Store D × ℕ) × (compact q.store (head_of c) (F.encode_snapshot q.ext) ≡ ok r)
          × Holds r.0 (compacted c (head_of c) (F.encode_snapshot q.ext))
      r = compact-Holds L R q.store c h (F.encode_snapshot q.ext) l

      go :
          (due : Bool)
          → q.pending_compaction ≡ due
          → (s : Store D) × (c' : Chain) × ((if due
                then record (compact_at F q closing) { pending_compaction = false }
                else q)
              ≡ record q { store = s; pending_compaction = false })
            × Holds s c'
            × (c' ≡ (if due then compacted c (head_of c) (F.encode_snapshot q.ext) else c))
      go false d = (q.store, c, ap (λ x. record q { pending_compaction = x }) d, h, refl)
      go true d = (
        r.0.0,
        compacted c (head_of c) (F.encode_snapshot q.ext),
        ap (λ j. record (compact_at F q j) { pending_compaction = false }) k
            ∙ ap
                (λ (v : Result (Error D.DbError) (Store D × ℕ)).
                  record (elim v as (λ _. Node D A C H) [
                    | ok r ↦ record q { store = r.0 }
                    | err x ↦ q
                  ]) { pending_compaction = false })
                r.1,
        r.2,
        refl,
      )
