-- ===== src/Kot/Chain/Stored.antt =====
-- What a node (crates/kot/src/node.rs) finds in its store, over a database whose commits do not fail.
use akuma_miot.Prelude.{
  ℕ, ◌+◌, ◌<◌, ◌≡◌, refl, ap, subst, Bool, true, false, List, arith, Result, ok, err, guard, ◌>>=◌,
  ◌>>◌,
}
use akuma_miot.Tasks.Invariant.Verdicts.{Leaves}
use akuma_miot.Store.Bytes.{Bytes, u64_count}
use akuma_miot.Store.Database.{Database, Op, IsLawful}
use akuma_miot.Store.Log.{Store, Error, lift, append, compact, put_aux}
use akuma_miot.Store.Spec.{Chain, Holds, head_of, appended, compacted, noted}
use akuma_miot.Store.Operations.{Operation, first, perform, after, IsSmall}
use akuma_miot.Store.Steps.{Did}
use akuma_miot.Store.Runs.{perform-Holds}

pub record IsReliable (D : Database) : Type 0 where
  pub commits : (d : D.Db) (ops : List Op) → (d' : D.Db) × (D.commit d ops ≡ ok d')

abbrev Succeeds : {E X : Type 0} → Result E X → Type 0
Succeeds {X = X} v = (x : X) × (v ≡ ok x)

Succeeds-ok : {E X : Type 0} (x : X) → Succeeds {E = E} (ok x)
Succeeds-ok x = (x, refl)

Succeeds-guard :
    {E X : Type 0} (b : Bool) (e : E) (k : Result E X)
    → b ≡ true
    → Succeeds k
    → Succeeds (guard b e >> k)
Succeeds-guard true e k h s = s
Succeeds-guard false e k h s = cc

Succeeds-lift :
    {E A X : Type 0} (m : Result E A) (k : A → Result (Error E) X)
    → Succeeds m
    → ((a : A) → Succeeds (k a))
    → Succeeds (lift m >>= k)
Succeeds-lift (ok a) k h f = f a
Succeeds-lift (err e) k h f = cc

module _ {D : Database} where
  left-Did :
      (c : Chain) (op : Operation) (v : Result (Error D.DbError) (Store D)) (s' : Store D)
      → v ≡ ok s'
      → Leaves (Did {D = D} c op) v
      → Did {D = D} c op s'
  left-Did c op (ok r) s' e h = subst (Did {D = D} c op) (cc) h.left
  left-Did c op (err x) s' e h = cc

module _ {D : Database} (L : IsLawful D) (R : IsReliable D) (s : Store D) (c : Chain)
    (H : Holds s c) where
  found : (ops : List Op) → Succeeds (D.commit s.db ops)
  found ops = R.commits s.db ops

  performed :
      (op : Operation) (s' : Store D) → IsSmall op → perform s op ≡ ok s' → Holds s' (after c op)
  performed op s' l e = (left-Did c op (perform s op) s' e (perform-Holds L s c op H l)).1

  appending : (b : Bytes) → head_of c + 1 < u64_count → Succeeds (append s (head_of c + 1) b)
  unfolding append
  appending b l =
      Succeeds-guard _ _ _ (ground (arith, H.head, l))
        (Succeeds-lift _ _ (found _) (λ d. Succeeds-ok _))

  compacting : (state : Bytes) → c.base < head_of c → Succeeds (compact s (head_of c) state)
  unfolding compact
  compacting state l =
      Succeeds-guard _ _ _ (ground (arith, H.head, H.last, l))
        (Succeeds-lift _ _ (found _) (λ d. Succeeds-ok _))

  noting : (name value : Bytes) → Succeeds (put_aux s name value)
  unfolding put_aux
  noting name value = Succeeds-lift _ _ (found _) (λ d. Succeeds-ok _)

  pub append-Holds :
      (b : Bytes)
      → head_of c + 2 < u64_count
      → (s' : Store D) × (append s (head_of c + 1) b ≡ ok s') × Holds s' (appended c b)
  unfolding perform after
  append-Holds b l =
      (r.0, r.1, performed (Operation.appends (head_of c + 1) b) r.0 (omega (arith, l)) r.1)
    where
      r : Succeeds (append s (head_of c + 1) b)
      r = appending b (omega (arith, l))

  pub compact-Holds :
      (state : Bytes)
      → c.base < head_of c
      → (r : Store D × ℕ) × (compact s (head_of c) state ≡ ok r)
        × Holds r.0 (compacted c (head_of c) state)
  unfolding perform after
  compact-Holds state l =
      (r.0, r.1, performed (Operation.compacts (head_of c) state) r.0.0 tt (ap first r.1))
    where
      r : Succeeds (compact s (head_of c) state)
      r = compacting state l

  pub put_aux-Holds :
      (name value : Bytes)
      → (s' : Store D) × (put_aux s name value ≡ ok s') × Holds s' (noted c name value)
  unfolding perform after
  put_aux-Holds name value = (r.0, r.1, performed (Operation.notes name value) r.0 tt r.1)
    where
      r : Succeeds (put_aux s name value)
      r = noting name value
