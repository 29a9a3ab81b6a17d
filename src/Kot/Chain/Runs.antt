-- ===== src/Kot/Chain/Runs.antt =====
-- A node that produces takes extrinsics and closes blocks (crates/kot/src/node.rs), and another that reads its
-- store.
use akuma_miot.Prelude.{
  ℕ, ◌+◌, ◌<◌, ◌≡◌, refl, sym, ap, subst, ◌∙◌, Bool, true, false, some, List, [], ◌∷◌, arith,
  length, length-append, if◌then◌else◌, Eq,
}
use akuma_miot.Store.Bytes.{Bytes, u64_count}
use akuma_miot.Store.Database.{Database, IsLawful}
use akuma_miot.Store.Log.{next}
use akuma_miot.Store.Spec
use akuma_miot.Store.Spec.{Chain, Holds, head_of, compacted}
use akuma_miot.Litter.Storage.{Storage}
use akuma_miot.Litter.Blocks.{on_initialize, set_replaying, replay_all}
use akuma_miot.Litter.Dispatch.{Call}
use akuma_miot.Litter.Replica.Blocks.{IsUnswept, on_initialize-replaying}
use akuma_miot.Kot.Queues.{seal}
use akuma_miot.Kot.Feed.{stamp_block}
use akuma_miot.Kot.Chain.{Node, drain_absorb, open_block, advance_from, advance}
use akuma_miot.Kot.Chain.Bodies.{Frame, AreRead, IsRestored, seal_body}
use akuma_miot.Kot.Chain.Replays.{replay}
use akuma_miot.Kot.Chain.Calls.{submit}
use akuma_miot.Kot.Chain.Stored.{IsReliable}
use akuma_miot.Kot.Chain.Rebuilt.{View, view}
use akuma_miot.Kot.Chain.Reads.{next_of}
use akuma_miot.Kot.Chain.Recovery.{Makes, replay-Makes}
use akuma_miot.Kot.Chain.Follows.{IsFollowed}
use akuma_miot.Kot.Chain.Submits.{submit-IsFollowed}
use akuma_miot.Kot.Chain.Advances.{beside, Makes-beside, appended-Makes, persisted, compacted_due}
use akuma_miot.Kot.Chain.Opens.{compacted-Makes, head-compacted, hook-Awaits, hook-IsFollowed}

-- What a producer does: an extrinsic of an account, with what FRAME's checks said, or a new block.
pub data Action (A : Type 0) : Type 0 where
  submits : (who : A) (c : Call A) (admitted : Bool) → Action A
  advances : (at : ℕ) → Action A

module _ {D : Database} {A C H : Type 0} ⦃e : Eq A⦄ (F : Frame A C) where
  unfoldable pub act : Node D A C H → Action A → Node D A C H
  unfolding submit advance
  act n (Action.submits who c admitted) = (submit F n who c admitted).0
  act n (Action.advances at) = advance F n at

  unfoldable pub produce : Node D A C H → List (Action A) → Node D A C H
  unfolding act
  produce n [] = n
  produce n (x ∷ xs) = produce (act n x) xs

  -- At each new block: no parent is old enough to be swept, the effects of the block body are decoded as
  -- they were encoded, and so is the state of a compaction.
  abbrev pub IsCoded : Node D A C H → Type 0
  IsCoded n = AreRead F n.pending × (n.pending_compaction ≡ true → IsRestored F n.ext)

  unfoldable pub RunsOn : Node D A C H → List (Action A) → Type 0
  unfolding act
  RunsOn n [] = Unit
  RunsOn n (Action.submits who c admitted ∷ xs) = RunsOn (act n (Action.submits who c admitted)) xs
  RunsOn n (Action.advances at ∷ xs) =
      IsUnswept F.runtime (next n.block) n.ext.storage
      × IsCoded n
      × RunsOn (act n (Action.advances at)) xs

module _ {D : Database} {A C H : Type 0} ⦃e : Eq A⦄ (F : Frame A C) (g : View A C) (L : IsLawful D)
    (R : IsReliable D) where
  -- The chain after the block is closed.
  closed-Makes :
      (n : Node D A C H) (c : Chain) (at : ℕ) (aux : Bytes → _) (due : Bool)
      → IsFollowed F g n c
      → head_of c + 3 < u64_count
      → IsUnswept F.runtime (next n.block) n.ext.storage
      → IsCoded F n
      → n.pending_compaction ≡ due
      → (let c1 = beside (Spec.appended c (seal_body F n.pending at)) aux in
          let c2 = if due then compacted c1 (head_of c1) (F.encode_snapshot n.ext) else c1 in
          Makes F g c2 (set_replaying n.ext.storage true, next n.block)
          × (head_of c2 ≡ head_of c + 1))
  closed-Makes n c at aux false h l u k d =
      let a = h.ahead d in
      (
        subst (Makes F g (beside (Spec.appended c (seal_body F n.pending at)) aux))
            (ap (λ (s : Storage A C). ((on_initialize F.runtime s (next n.block)).0, next n.block))
                a.2
              ∙ ap (λ (s : Storage A C). (s, next n.block))
                  (on_initialize-replaying F.runtime (next n.block) n.ext.storage u))
            (Makes-beside F g (Spec.appended c (seal_body F n.pending at)) aux _
              (appended-Makes F g c a.0 n.pending at n.block h.opened k.0 a.1)),
        omega (arith, length-append c.blocks (seal_body F n.pending at ∷ [])),
      )
  closed-Makes n c at aux true h l u k d =
      let c1 = beside (Spec.appended c (seal_body F n.pending at)) aux in
      (
        subst (Makes F g (compacted c1 (head_of c1) (F.encode_snapshot n.ext)))
            (ap
                (λ (b : ℕ).
                  ((on_initialize F.runtime (set_replaying n.ext.storage true) (next b)).0, next b))
                top
              ∙ ap (λ (s : Storage A C). (s, next n.block))
                  (on_initialize-replaying F.runtime (next n.block) n.ext.storage u))
            (compacted-Makes F g c1 n.ext (omega (arith, top, h.opened)) (k.1 d)),
        head-compacted F g c1 (F.encode_snapshot n.ext) ∙ top ∙ h.opened,
      )
    where
      top : head_of (beside (Spec.appended c (seal_body F n.pending at)) aux) ≡ n.block
      top = omega (arith, h.opened, length-append c.blocks (seal_body F n.pending at ∷ []))

  advance-IsFollowed :
      (n : Node D A C H) (c : Chain) (at : ℕ)
      → IsFollowed F g n c
      → head_of c + 3 < u64_count
      → IsUnswept F.runtime (next n.block) n.ext.storage
      → IsCoded F n
      → (c' : Chain) × (head_of c' ≡ head_of c + 1) × IsFollowed F g (advance F n at) c'
  unfolding advance advance_from
  advance-IsFollowed n c at h l u k =
      let p = persisted F L R n c at h.holds h.opened (omega (arith, l)) in
      let c1 = beside (Spec.appended c (seal_body F n.pending at)) p.2 in
      let q = record n {
        feed = stamp_block n.feed n.block (some at);
        mesh = p.0;
        store = p.1;
        pending = [];
        extrinsics = seal n.extrinsics n.block;
      } in
      let r =
        compacted_due F L R q c1 n.block p.4
          (omega (arith, h.opened, length-append c.blocks (seal_body F n.pending at ∷ [])))
          (omega (arith, length-append c.blocks (seal_body F n.pending at ∷ []))) in
      let m = closed-Makes n c at p.2 n.pending_compaction h l u k refl in
      let q' = record q { store = r.0; pending_compaction = false } in
      let top = ap head_of r.4 ∙ m.1 in
      (
        r.1,
        top,
        subst (λ x. IsFollowed F g x r.1)
            (sym (
              ap (advance_from F n.block) p.3
              ∙ ap (λ (x : Node D A C H). drain_absorb (open_block F x (next x.block))) r.2))
            (hook-IsFollowed F g q' r.1 (next n.block)
              (hook-Awaits F g q' r.1 (next n.block) r.3
                (next_of n.block (omega (arith, l, h.opened)) ∙ (omega (arith, h.opened, top))) refl
                h.live u
                (subst (λ x. Makes F g x (set_replaying n.ext.storage true, next n.block)) (sym r.4)
                  m.0))
              refl),
      )

  produce-IsFollowed :
      (xs : List (Action A)) (n : Node D A C H) (c : Chain)
      → IsFollowed F g n c
      → head_of c + length xs + 3 < u64_count
      → RunsOn F n xs
      → (c' : Chain) × IsFollowed F g (produce F n xs) c'
  unfolding produce act RunsOn
  produce-IsFollowed [] n c h l u = (c, h)
  produce-IsFollowed (Action.submits who x admitted ∷ xs) n c h l u =
      produce-IsFollowed xs (submit F n who x admitted).0 c
        (submit-IsFollowed F g n c who x admitted h) (omega (arith, l)) u
  produce-IsFollowed (Action.advances at ∷ xs) n c h l u =
      let r = advance-IsFollowed n c at h (omega (arith, l)) u.0 u.1 in
      produce-IsFollowed xs (advance F n at) r.0 r.2 (omega (arith, l, r.1)) u.2

  -- A producer whose state is what the chain of its store makes, with the effects of the open block on top,
  -- takes any extrinsics, clears and compactions among them, and closes any blocks, over a database whose
  -- commits do not fail, while no parent is old enough to be swept as a block opens, and with a codec that
  -- decodes what this run encoded. When no compaction
  -- is due after that, a node in the state of genesis that does not produce and replays the same store
  -- succeeds: it has the same block open, and the recorded effects of the producer's open block make the
  -- producer's state of its own, so that it lacks these effects and nothing else.
  pub replay-produce :
      (n : Node D A C H) (c : Chain) (xs : List (Action A)) (reader : Node D A C H)
      → IsFollowed F g n c
      → head_of c + length xs + 3 < u64_count
      → RunsOn F n xs
      → (produce F n xs).pending_compaction ≡ false
      → reader.store ≡ (produce F n xs).store
      → reader.producing ≡ false
      → view reader.ext ≡ g
      → reader.block ≡ 1
      → (m : Node D A C H) × (replay F reader ≡ some m)
        × (m.block ≡ (produce F n xs).block)
        × (replay_all F.runtime m.ext.storage (produce F n xs).pending m.block
            ≡ set_replaying (produce F n xs).ext.storage true)
  replay-produce n c xs reader h l u due s p v b =
      let f = produce-IsFollowed xs n c h l u in
      let a = f.1.ahead due in
      let r =
        replay-Makes F reader f.0 g (a.0, (produce F n xs).block) p
          (subst (λ x. Holds x f.0) (sym s) f.1.holds) (λ z. (v, b)) a.1 in
      (
        r.0,
        r.1,
        r.3 ∙ sym f.1.opened,
        ap (λ (w : View A C). replay_all F.runtime w.0 (produce F n xs).pending r.0.block) r.2
            ∙ ap (replay_all F.runtime a.0 (produce F n xs).pending) (r.3 ∙ sym f.1.opened)
            ∙ a.2,
      )
