-- ===== src/Store/Runs.antt =====
-- Runs of operations on a store of crates/miot-store/src/lib.rs.
use akuma_miot.Prelude.{All}
use akuma_miot.Prelude.{
  ℕ, ◌+◌, ◌≡◌, refl, sym, ap, subst, ◌∙◌, false, Option, none, some, List, [], ◌∷◌, arith,
  if◌then◌else◌, Result, ok, err, ◌>>=◌,
}
use akuma_miot.Tasks.Invariant.Verdicts.{Leaves, Leaves-ok, Leaves-guard}
use akuma_miot.Store.Database.{Database, IsLawful}
use akuma_miot.Store.Log.{
  Store, Error, Rewind, append, compact, adopt_checkpoint, rewind_for_fork, put_aux, open_store,
}
use akuma_miot.Store.Spec.{Chain, Holds, head_of}
use akuma_miot.Store.Refines.{Leaves-lift}
use akuma_miot.Store.Operations.{Operation, first, perform, is_allowed, after, IsSmall, Rewound}
use akuma_miot.Store.Steps.{at, Did, append-Did, compact-Did, adopt-Did, note-Did}
use akuma_miot.Store.Steps.Rewinds.{rewind_for_fork-Did, reopened-Did}

Leaves-mono :
    {E X : Type 0} {P Q : X → Type 0} {v : Result E X}
    → ((x : X) → P x → Q x)
    → Leaves P v
    → Leaves Q v
Leaves-mono {v = ok x} f h = record { left = f x h.left }
Leaves-mono {v = err x} f h = record { left = tt }

first-Leaves :
    {D : Database} {B : Type 0} (P : Store D → Type 0) (v : Result (Error D.DbError) (Store D × B))
    → Leaves (λ r. P r.0) v
    → Leaves P (first {D = D} v)
first-Leaves P (ok r) h = record { left = h.left }
first-Leaves P (err x) h = record { left = tt }

Leaves-chain :
    {E A X : Type 0} {P : A → Type 0} {Q : X → Type 0} (m : Result E A) (k : A → Result E X)
    → Leaves P m
    → ((a : A) → P a → Leaves Q (k a))
    → Leaves Q (m >>= k)
Leaves-chain (ok a) k h f = f a h.left
Leaves-chain (err x) k h f = record { left = tt }

Leaves-bind :
    {E A X : Type 0} {P : X → Type 0} (m : Result E A) (k : A → Result E X)
    → ((a : A) → m ≡ ok a → Leaves P (k a))
    → Leaves P (m >>= k)
Leaves-bind (ok a) k h = h a refl
Leaves-bind (err x) k h = record { left = tt }

module _ {D : Database} (L : IsLawful D) (c : Chain) where
  rewind-at :
      (d : D.Db) (fork : ℕ)
      → Holds (at {D = D} c d) c
      → Leaves (Rewound {D = D} c fork) (rewind_for_fork (at c d) fork)
  unfolding rewind_for_fork
  rewind-at d fork H =
      search (Leaves-lift, Leaves-bind, Leaves-ok, rewind_for_fork-Did L c d H) depth 8

  pub perform-at :
      (d : D.Db) (op : Operation)
      → Holds (at {D = D} c d) c
      → IsSmall op
      → Leaves (Did {D = D} c op) (perform (at c d) op)
  unfolding perform append compact adopt_checkpoint rewind_for_fork put_aux open_store is_allowed
      after
  perform-at d (Operation.appends height block) H l =
      search (Leaves-guard, Leaves-lift, Leaves-ok, append-Did L c d H) depth 8
  perform-at d (Operation.compacts height state) H l =
      first-Leaves _ _ (search (Leaves-guard, Leaves-lift, Leaves-ok, compact-Did L c d H) depth 8)
  perform-at d (Operation.adopts height state) H l =
      search (Leaves-lift, Leaves-ok, adopt-Did L c d H) depth 8
  perform-at d (Operation.rewinds fork_point) H l =
      first-Leaves _ _ (Leaves-mono (λ r h. (refl, h.0)) (rewind-at d fork_point H))
  perform-at d (Operation.notes name value) H l =
      search (Leaves-lift, Leaves-ok, note-Did L c d H) depth 8
  perform-at d Operation.reopens H l = search (Leaves-lift, Leaves-ok, reopened-Did L c d H) depth 8

module _ {D : Database} where
  normal : (s : Store D) (c : Chain) → Holds s c → s ≡ at c s.db
  normal s c H =
      ap (λ n. record s { head = n }) H.head
      ∙ ap (λ n. record s { head = head_of c; last_checkpoint = n }) H.last

module _ {D : Database} (L : IsLawful D) where
  pub perform-Holds :
      (s : Store D) (c : Chain) (op : Operation)
      → Holds s c
      → IsSmall op
      → Leaves (Did {D = D} c op) (perform s op)
  perform-Holds s c op H l =
      subst (λ r. Leaves (Did {D = D} c op) (perform r op)) (sym (normal s c H))
        (perform-at L c s.db op (subst (λ r. Holds r c) (normal s c H) H) l)

-- What an operation that is not allowed is answered.
abbrev pub refusal : {E : Type 0} → Chain → Operation → Error E
refusal c (Operation.appends height block) = Error.not_contiguous (head_of c + 1) height
refusal c (Operation.compacts height state) = Error.bad_checkpoint (head_of c) c.base height
refusal c _ = Error.not_contiguous 0 0

module _ {D : Database} where
  -- The operations one after the other, up to the first that fails.
  unfoldable pub run : Store D → List Operation → Result (Error D.DbError) (Store D)
  unfolding perform
  run s [] = ok s
  run s (op ∷ ops) = perform s op >>= λ s'. run s' ops

-- A run of a chain, up to the first operation that is not allowed.
unfoldable pub run_chain : Chain → List Operation → Option Chain
unfolding after is_allowed
run_chain c [] = some c
run_chain c (op ∷ ops) =
    let rest = run_chain (after c op) ops in if is_allowed c op then rest else none

module _ {D : Database} where
  -- An append that does not go on at the head, and a compaction that is above the head or not above the
  -- last one, are refused with the heights that say why.
  pub perform-refusal :
      (s : Store D) (c : Chain) (op : Operation)
      → Holds s c
      → is_allowed c op ≡ false
      → perform s op ≡ err (refusal c op)
  unfolding perform append compact is_allowed
  perform-refusal s c (Operation.appends height block) H h = ground (arith, H.head, H.small)
  perform-refusal s c (Operation.compacts height state) H h = ground (arith, H.head, H.last)
  perform-refusal s c (Operation.adopts height state) H h = cc
  perform-refusal s c (Operation.rewinds fork) H h = cc
  perform-refusal s c (Operation.notes name value) H h = cc
  perform-refusal s c Operation.reopens H h = cc

module _ {D : Database} (L : IsLawful D) where
  ran-Holds :
      (ops : List Operation) (s : Store D) (c : Chain)
      → Holds s c
      → All IsSmall ops
      → Leaves (λ s'. (c' : Chain) × (run_chain c ops ≡ some c') × Holds s' c') (run s ops)
  unfolding run run_chain
  ran-Holds [] s c H l = Leaves-ok s (c, refl, H)
  ran-Holds (op ∷ ops) s c H l =
      Leaves-chain (perform s op) (λ s'. run s' ops) (perform-Holds L s c op H l.0)
        (λ s' h.
          Leaves-mono (λ r k. (k.0, rw h.0 k.1, k.2)) (ran-Holds ops s' (after c op) h.1 l.1))

  -- A run of operations that succeeds, restarts of the program among them, is a run of the chain, and
  -- leaves its chain in the database: every block, the state at the last compaction, and the values that
  -- are none of the log are read back as they were written.
  pub run-Holds :
      (ops : List Operation) (s s' : Store D) (c : Chain)
      → Holds s c
      → All IsSmall ops
      → run s ops ≡ ok s'
      → (c' : Chain) × (run_chain c ops ≡ some c') × Holds s' c'
  run-Holds ops s s' c H l h = left (run s ops) (ran-Holds ops s c H l) h
    where
      left :
          (v : Result (Error D.DbError) (Store D))
          → Leaves (λ r. (c' : Chain) × (run_chain c ops ≡ some c') × Holds r c') v
          → v ≡ ok s'
          → (c' : Chain) × (run_chain c ops ≡ some c') × Holds s' c'
      left (ok r) k e =
          subst (λ x. (c' : Chain) × (run_chain c ops ≡ some c') × Holds x c') (cc) k.left
      left (err x) k e = cc

  -- A rewind that succeeds lands at the last compaction, or at genesis for a fork below it, with no block
  -- above; it hands back that height and the state there. What it calls dropped is the number of blocks
  -- that the store held when it lands at the last compaction, and the height of the head when it lands at
  -- genesis, which counts the blocks that the compaction pruned before.
  pub rewind_for_fork-Rewound :
      (s s' : Store D) (c : Chain) (fork : ℕ) (r : Rewind)
      → Holds s c
      → rewind_for_fork s fork ≡ ok (s', r)
      → Rewound c fork (s', r)
  rewind_for_fork-Rewound s s' c fork r H h =
      left (rewind_for_fork s fork)
        (subst (λ x. Leaves (Rewound {D = D} c fork) (rewind_for_fork x fork)) (sym (normal s c H))
          (rewind-at L c s.db fork (subst (λ x. Holds x c) (normal s c H) H)))
        h
    where
      left :
          (v : Result (Error D.DbError) (Store D × Rewind))
          → Leaves (Rewound {D = D} c fork) v
          → v ≡ ok (s', r)
          → Rewound c fork (s', r)
      left (ok x) k e = subst (Rewound c fork) (cc) k.left
      left (err x) k e = cc
