-- ===== src/Kot/Chain/Follows.antt =====
-- The state of a node that produces (crates/kot/src/node.rs) is what the chain of its store makes, with the
-- effects of the open block on top.
use akuma_miot.Prelude.{◌+◌, ◌≡◌, sym, ap, subst, ◌∙◌, Bool, true, false, List, [], ◌++◌, keep, Eq}
use akuma_miot.Primitives.Effect.{Effect}
use akuma_miot.Store.Database.{Database}
use akuma_miot.Store.Spec.{Chain, Holds, head_of}
use akuma_miot.Litter.Storage.{Storage}
use akuma_miot.Litter.Blocks.{set_replaying, replay_all}
use akuma_miot.Kot.Chain.{Node, absorb, is_recorded}
use akuma_miot.Kot.Chain.Bodies.{Frame, Ext}
use akuma_miot.Kot.Chain.Effects.{replay_all-recorded}
use akuma_miot.Kot.Chain.Rebuilt.{View, Absorbs, absorb-Absorbs}
use akuma_miot.Kot.Chain.Recovery.{Makes}

module _ {D : Database} {A C H : Type 0} ⦃e : Eq A⦄ (F : Frame A C) (g : View A C) where
  -- A node that produces, over a store that holds the chain `c`. While a compaction is due, nothing is
  -- said of the blocks: the state itself is about to go into the store.
  pub record IsFollowed (n : Node D A C H) (c : Chain) : Type 0 where
    pub holds : Holds n.store c
    pub opened : n.block ≡ head_of c + 1
    pub numbered : n.ext.number ≡ n.block
    pub live : n.ext.storage.replaying ≡ false
    pub emptied : n.ext.events ≡ []
    pub ahead :
        n.pending_compaction ≡ false
        → (s : Storage A C) × Makes F g c (s, n.block)
          × (replay_all F.runtime s n.pending n.block ≡ set_replaying n.ext.storage true)

  -- The same before the effects `es` are absorbed, for a node that will have `due` as its flag.
  pub record Awaits (n : Node D A C H) (c : Chain) (es : List (Effect A)) (due : Bool)
      : Type 0 where
    pub holds : Holds n.store c
    pub opened : n.block ≡ head_of c + 1
    pub numbered : n.ext.number ≡ n.block
    pub live : n.ext.storage.replaying ≡ false
    pub emptied : n.ext.events ≡ []
    pub ahead :
        due ≡ false
        → (s : Storage A C) × Makes F g c (s, n.block)
          × (replay_all F.runtime (replay_all F.runtime s n.pending n.block) es n.block
              ≡ set_replaying n.ext.storage true)

  absorbed-IsFollowed :
      (n m : Node D A C H) (c : Chain) (es : List (Effect A)) (due : Bool)
      → Awaits n c es due
      → Absorbs n es m
      → IsFollowed (record m { pending_compaction = due }) c
  absorbed-IsFollowed n m c es due h k = record {
    holds = subst (λ s. Holds s c) (sym k.store) h.holds;
    opened = k.block ∙ h.opened;
    numbered = ap (λ (x : Ext A C). x.number) k.ext ∙ h.numbered ∙ sym k.block;
    live = ap (λ (x : Ext A C). x.storage.replaying) k.ext ∙ h.live;
    emptied = ap (λ (x : Ext A C). x.events) k.ext ∙ h.emptied;
    ahead = λ d.
        (let a = h.ahead d in
          (
            a.0,
            subst (λ b. Makes F g c (a.0, b)) (sym k.block) a.1,
            ap (λ p. replay_all F.runtime a.0 p m.block) k.pending
                ∙ ap (replay_all F.runtime a.0 (n.pending ++ keep is_recorded es)) k.block
                ∙ replay_all-recorded F.runtime n.block a.0 n.pending es
                ∙ a.2
                ∙ ap (λ (x : Ext A C). set_replaying x.storage true) (sym k.ext),
          ));
  }

  pub absorb-IsFollowed :
      (n : Node D A C H) (c : Chain) (es : List (Effect A)) (due : Bool)
      → Awaits n c es due
      → IsFollowed (record (absorb n es) { pending_compaction = due }) c
  absorb-IsFollowed n c es due h =
      absorbed-IsFollowed n (absorb n es) c es due h (absorb-Absorbs n es)
