-- ===== src/Kot/Chain/Submits.antt =====
-- An extrinsic that a node takes (`submit` of crates/kot/src/node.rs), accepted, refused or not admitted.
use akuma_miot.Prelude.{
  ◌≡◌, refl, sym, ap, subst, ◌∙◌, Bool, true, false, List, [], ◌++◌, arith, if◌then◌else◌, Eq,
  Bool-cases, inl, inr, Result, ok, err,
}
use akuma_miot.Primitives.Effect.{Effect}
use akuma_miot.Tasks.Invariant.Verdicts.{Leaves}
use akuma_miot.Store.Database.{Database}
use akuma_miot.Store.Spec.{Chain}
use akuma_miot.Litter.Storage
use akuma_miot.Litter.Storage.{Storage}
use akuma_miot.Litter.Blocks.{set_replaying, replay_all}
use akuma_miot.Litter.Dispatch.{Call, dispatch}
use akuma_miot.Litter.Replica.Blocks.{dispatch-IsReplayed, replay_all-set_replaying}
use akuma_miot.Kot.Chain.{Node, absorb, drain_absorb, drained}
use akuma_miot.Kot.Chain.Bodies.{Frame, Ext}
use akuma_miot.Kot.Chain.Calls.{applied, settled, submit, wants_compaction, Refusal}
use akuma_miot.Kot.Chain.Effects.{replay_all-replaying, wants-announced, dispatch-StaysLive}
use akuma_miot.Kot.Chain.Rebuilt.{View, absorb-Absorbs}
use akuma_miot.Kot.Chain.Follows.{IsFollowed, absorb-IsFollowed}

Leaves-left : {E X : Type 0} (P : X → Type 0) (v : Result E X) (x : X) → v ≡ ok x → Leaves P v → P x
Leaves-left P (ok y) x k h = subst P (cc) h.left
Leaves-left P (err y) x k h = cc

flag-false : (b due : Bool) → (if b then true else due) ≡ false → (b ≡ false) × (due ≡ false)
flag-false b due h = ground arith

module _ {A C : Type 0} ⦃e : Eq A⦄ (F : Frame A C) where
  -- What an accepted call leaves: the effects tell it, unless it asks for a compaction.
  record Tells (c : Call A) (x y : Ext A C) : Type 0 where
    number : y.number ≡ x.number
    live : y.storage.replaying ≡ x.storage.replaying
    told : wants_compaction c ≡ false → replay_all F.runtime x.storage y.events x.number ≡ y.storage

  dispatched-Tells :
      (x : Ext A C) (who : A) (c : Call A) (r : Storage A C × List (Effect A))
      → x.events ≡ []
      → dispatch F.runtime x.storage x.number who c ≡ ok r
      → Tells c x (record x { storage = r.0; events = x.events ++ r.1 })
  dispatched-Tells x who c r n d = record {
    number = refl;
    live = elim (Bool-cases (wants_compaction c)) [
      | inl y ↦
          Leaves-left _ (dispatch F.runtime x.storage x.number who c) r d
            (dispatch-StaysLive F.runtime x.storage x.number who c y)
      | inr quiet ↦
          ap (λ s. s.replaying) (sym (announced quiet))
          ∙ replay_all-replaying F.runtime x.number x.storage r.1
    ];
    told =
        λ quiet. ap (λ l. replay_all F.runtime x.storage (l ++ r.1) x.number) n ∙ announced quiet;
  }
    where
      announced : wants_compaction c ≡ false → replay_all F.runtime x.storage r.1 x.number ≡ r.0
      announced quiet =
          Leaves-left _ (dispatch F.runtime x.storage x.number who c) r d
            (dispatch-IsReplayed F.runtime x.number x.storage who c (wants-announced c quiet))

module _ {D : Database} {A C H : Type 0} ⦃e : Eq A⦄ (F : Frame A C) (g : View A C) where
  accepted-IsFollowed :
      (n : Node D A C H) (ch : Chain) (c : Call A) (x : Ext A C)
      → IsFollowed F g n ch
      → Tells F c n.ext x
      → IsFollowed F g (settled F n c (ok x)).0 ch
  unfolding settled drain_absorb
  accepted-IsFollowed n ch c x h t =
      subst
        (λ b.
          IsFollowed F g (record m { pending_compaction = if wants_compaction c then true else b })
            ch)
        (sym (absorb-Absorbs from x.events).compaction)
        (absorb-IsFollowed F g from ch x.events
          (if wants_compaction c then true else n.pending_compaction)
          (record {
            holds = h.holds;
            opened = h.opened;
            numbered = t.number ∙ h.numbered;
            live = t.live ∙ h.live;
            emptied = refl;
            ahead = λ d.
                (let f = flag-false (wants_compaction c) n.pending_compaction d in
                  let a = h.ahead f.1 in
                  (
                    a.0,
                    a.1,
                    ap (λ u. replay_all F.runtime u x.events n.block) a.2
                        ∙ replay_all-set_replaying F.runtime n.block n.ext.storage x.events true
                        ∙ ap (λ u. set_replaying u true)
                            (ap (replay_all F.runtime n.ext.storage x.events) (sym h.numbered)
                              ∙ t.told f.0),
                  ));
          }))
    where
      from : Node D A C H
      from = drained (record n { ext = x })

      m : Node D A C H
      m = absorb from x.events

  quiet-IsFollowed :
      (n : Node D A C H) (ch : Chain) → IsFollowed F g n ch → IsFollowed F g (drain_absorb n) ch
  unfolding drain_absorb replay_all
  quiet-IsFollowed n ch h =
      subst (λ b. IsFollowed F g (record m { pending_compaction = b }) ch)
        (sym (absorb-Absorbs (drained n) n.ext.events).compaction)
        (absorb-IsFollowed F g (drained n) ch n.ext.events n.pending_compaction (record {
          holds = h.holds;
          opened = h.opened;
          numbered = h.numbered;
          live = h.live;
          emptied = refl;
          ahead = λ d.
              (let a = h.ahead d in
                (
                  a.0,
                  a.1,
                  ap
                        (λ l.
                          replay_all F.runtime (replay_all F.runtime a.0 n.pending n.block) l
                            n.block)
                        h.emptied
                      ∙ a.2,
                ));
        }))
    where
      m : Node D A C H
      m = absorb (drained n) n.ext.events

  answered-IsFollowed :
      (n : Node D A C H) (ch : Chain) (who : A) (c : Call A)
      (v : Result Storage.Error (Storage A C × List (Effect A)))
      → dispatch F.runtime n.ext.storage n.ext.number who c ≡ v
      → IsFollowed F g n ch
      → IsFollowed F g
          (settled F n c (elim v [
            | ok r ↦ ok (record n.ext { storage = r.0; events = n.ext.events ++ r.1 })
            | err why ↦ err (Refusal.failed why)
          ])).0
          ch
  unfolding settled
  answered-IsFollowed n ch who c (ok r) k h =
      accepted-IsFollowed n ch c _ h (dispatched-Tells F n.ext who c r h.emptied k)
  answered-IsFollowed n ch who c (err x) k h = quiet-IsFollowed n ch h

  pub submit-IsFollowed :
      (n : Node D A C H) (ch : Chain) (who : A) (c : Call A) (admitted : Bool)
      → IsFollowed F g n ch
      → IsFollowed F g (submit F n who c admitted).0 ch
  unfolding submit applied settled
  submit-IsFollowed n ch who c true h = answered-IsFollowed n ch who c _ refl h
  submit-IsFollowed n ch who c false h = quiet-IsFollowed n ch h
