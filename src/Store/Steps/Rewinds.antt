-- ===== src/Store/Steps/Rewinds.antt =====
-- A rewind and a restart of a store of crates/miot-store/src/lib.rs.
use akuma_miot.Prelude.{
  length, ℕ, ◌+◌, ◌-◌, ◌<◌, ◌≡◌, refl, sym, ap, subst, ◌∙◌, Bool, true, false, Option, none, some,
  List, [], ◌∷◌, ◌++◌, arith, ◌==◌, leb, if◌then◌else◌, Result, ok,
}
use akuma_miot.Primitives.Words.{saturating_sub}
use akuma_miot.Store.Bytes.{Bytes, key, key_head, key_last_cp, to_be_bytes}
use akuma_miot.Store.Database.{Database, Op, IsLawful}
use akuma_miot.Store.Log.{
  Store, lift, col_checkpoint, col_meta, number_of, delete_blocks, forget_checkpoint,
}
use akuma_miot.Store.Spec.{Chain, Holds, head_of}
use akuma_miot.Store.Refines.{commit-Holds}
use akuma_miot.Store.Refines.Rewinds.{rewind-Writes, restart-Writes}
use akuma_miot.Store.Operations.{Operation, is_allowed, after, Rewound}
use akuma_miot.Store.Steps.{at, Did, at-Holds}

module _ {D : Database} (L : IsLawful D) (c : Chain) (d : D.Db) (H : Holds (at {D = D} c d) c) where
  -- The rewind lands at the last compaction if `b`, and at genesis if not.
  abbrev rewind_ops : ℕ → List Op
  rewind_ops land =
      delete_blocks (land + 1) (head_of c - land)
      ++ (forget_checkpoint (at {D = D} c d) land
          ++ ((col_meta, key_head, some (to_be_bytes land)) ∷ []))

  forget-kept : forget_checkpoint (at {D = D} c d) c.base ≡ []
  unfolding forget_checkpoint
  forget-kept = ground arith

  forget-all :
      0 < c.base
      → forget_checkpoint (at {D = D} c d) 0
        ≡ (col_checkpoint, key c.base, none) ∷ (col_meta, key_last_cp, some (to_be_bytes 0)) ∷ []
  unfolding forget_checkpoint
  forget-all p = ground arith

  rewind-Holds :
      (b : Bool) (d' : D.Db) (fork : ℕ)
      → leb c.base fork ≡ b
      → D.commit d (rewind_ops (if b then c.base else 0)) ≡ ok d'
      → Holds {D = D}
          (record {
            db = d';
            head = if b then c.base else 0;
            last_checkpoint = if (if b then c.base else 0) == 0 then 0 else c.base;
          })
          (if b then record c { blocks = [] } else record c { base = 0; state = none; blocks = [] })
  rewind-Holds true d' fork e h =
      at-Holds _ (record c { blocks = [] }) (omega arith) (ground arith)
        (commit-Holds L (at c d) c H _ (record c { blocks = [] }) d'
          (subst
            (λ xs.
              D.commit d (
                delete_blocks (c.base + 1) (head_of c - c.base)
                ++ (xs ++ ((col_meta, key_head, some (to_be_bytes c.base)) ∷ [])))
              ≡ ok d')
            forget-kept h)
          (rewind-Writes L (at c d) c H))
  rewind-Holds false d' fork e h =
      at-Holds _ (record c { base = 0; state = none; blocks = [] }) refl refl
        (commit-Holds L (at c d) c H _ (record c { base = 0; state = none; blocks = [] }) d'
          (subst
            (λ xs.
              D.commit d (
                delete_blocks 1 (head_of c)
                ++ (xs ++ ((col_meta, key_head, some (to_be_bytes 0)) ∷ [])))
              ≡ ok d')
            (forget-all (ground arith))
            (subst
              (λ n.
                D.commit d (
                  delete_blocks 1 n
                  ++ (forget_checkpoint (at {D = D} c d) 0
                      ++ ((col_meta, key_head, some (to_be_bytes 0)) ∷ [])))
                ≡ ok d')
              (omega arith) h))
          (restart-Writes L (at c d) c H))

  -- What the rewind hands back is the height and the state of the chain that is left.
  rewind-state :
      (b : Bool) (s' : Store D) (state : Option Bytes)
      → Holds s'
          (if b then record c { blocks = [] } else record c { base = 0; state = none; blocks = [] })
      → (if (if b then c.base else 0) == 0
          then ok none
          else lift (D.get s'.db col_checkpoint (key c.base)))
        ≡ ok state
      → state
        ≡ (if b
            then record c { blocks = [] }
            else record c { base = 0; state = none; blocks = [] }).state
  rewind-state true s' state h e = ground (arith, h.checkpoint, h.genesis)
  rewind-state false s' state h e = cc

  pub rewind_for_fork-Did :
      (fork : ℕ) (d' : D.Db) (state : Option Bytes)
      → D.commit d (rewind_ops (if leb c.base fork then c.base else 0)) ≡ ok d'
      → (if (if leb c.base fork then c.base else 0) == 0
          then ok none
          else lift (D.get d' col_checkpoint (key c.base)))
        ≡ ok state
      → Rewound {D = D} c fork (
        record {
          db = d';
          head = if leb c.base fork then c.base else 0;
          last_checkpoint = if (if leb c.base fork then c.base else 0) == 0 then 0 else c.base;
        },
        record {
          height = if leb c.base fork then c.base else 0;
          state = state;
          dropped = saturating_sub (head_of c) (if leb c.base fork then c.base else 0);
        },
      )
  rewind_for_fork-Did fork d' state h e = (
    rewind-Holds (leb c.base fork) d' fork refl h,
    base (leb c.base fork),
    rewind-state (leb c.base fork) _ state (rewind-Holds (leb c.base fork) d' fork refl h) e,
    between (leb c.base fork),
  )
    where
      base :
          (b : Bool)
          → (if b then c.base else 0)
            ≡ (if b
                then record c { blocks = [] }
                else record c { base = 0; state = none; blocks = [] }).base
      base true = refl
      base false = refl

      between :
          (b : Bool)
          → saturating_sub (head_of c) (if b then c.base else 0)
            ≡ (if b then length c.blocks else c.base + length c.blocks)
      between true = omega arith
      between false = omega arith

  pub reopened-Did :
      (head last : Option Bytes)
      → D.get d col_meta key_head ≡ ok head
      → D.get d col_meta key_last_cp ≡ ok last
      → Did {D = D} c Operation.reopens
          (record { db = d; head = number_of head; last_checkpoint = number_of last })
  unfolding is_allowed after
  reopened-Did head last p q = (
    refl,
    at-Holds _ c (ap number_of (got head H.heads.0 (sym p ∙ H.heads.1)) ∙ H.heads.2)
        (ap number_of (got last H.lasts.0 (sym q ∙ H.lasts.1)) ∙ H.lasts.2) H,
  )
    where
      got : (a b : Option Bytes) → ◌≡◌ {A = Result D.DbError (Option Bytes)} (ok a) (ok b) → a ≡ b
      got a b e = cc
