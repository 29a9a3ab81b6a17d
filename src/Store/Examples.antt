-- ===== src/Store/Examples.antt =====
-- The theorems on the store (crates/miot-store/src/lib.rs) over a database in memory.
use akuma_miot.Prelude.{
  ℕ, ◌≡◌, refl, ap, sym, subst, Option, ◌∙◌, none, some, List, [], ◌∷◌, ◌++◌, ◌+◌, ◌-◌, arith,
  Result, ok, err,
}
use akuma_miot.Store.Bytes.{Bytes, key, key_head, key_last_cp, aux_key, to_be_bytes, be}
use akuma_miot.Store.Database.{Database, Op, IsLawful, written}
use akuma_miot.Store.Log.{Store, rewind_for_fork, fork_point}
use akuma_miot.Store.Spec.{Chain, Holds, block_at, nth, drop}
use akuma_miot.Store.Written.{written-append}
use akuma_miot.Store.Operations.{Operation, perform, Rewound, is_allowed, after}
use akuma_miot.Store.Forks.{PartsAfter, fork_point-PartsAfter}
use akuma_miot.Store.Runs.{
  run, run_chain, refusal, run-Holds, perform-refusal, rewind_for_fork-Rewound,
}

-- A database that keeps all that was ever written to it, and never fails.
abbrev pub memory : Database
memory = record {
  Db = List Op;
  DbError = ℕ;
  get = λ d col k. written d col k (ok none);
  commit = λ d ops. ok (d ++ ops);
}

reads :
    (d d' ops : List Op) (col : ℕ) (k : Bytes)
    → memory.commit d ops ≡ ok d'
    → memory.get d' col k ≡ written ops col k (memory.get d col k)
reads d d' ops col k h =
    ap (λ x. written x col k (ok none)) (sym (same (d ++ ops) d' h))
    ∙ written-append d ops col k (ok none)
  where
    same : (x y : List Op) → ◌≡◌ {A = Result ℕ (List Op)} (ok x) (ok y) → x ≡ y
    same x y e = cc

pub memory-IsLawful : IsLawful memory
memory-IsLawful = record { get-commit = λ d d' ops col k h. reads d d' ops col k h }

abbrev pub empty : Store memory
empty = record { db = []; head = 0; last_checkpoint = 0 }

abbrev pub genesis : Chain
genesis = record { base = 0; state = none; blocks = []; aux = λ name. none }

pub empty-Holds : Holds empty genesis
unfolding written block_at nth
empty-Holds = record {
  last = refl;
  head = refl;
  small = omega arith;
  genesis = λ h. refl;
  blocks = λ h l. ground arith;
  checkpoint = λ h. absurd (omega arith);
  heads = (none, refl, refl);
  lasts = (none, refl, refl);
  others = λ name. refl;
}

abbrev operations : List Operation
operations =
    Operation.appends 1 (7 ∷ [])
    ∷ Operation.notes (104 ∷ []) (5 ∷ [])
    ∷ Operation.compacts 1 (9 ∷ [])
    ∷ Operation.reopens
    ∷ []

abbrev stored : Store memory
stored = record {
  db =
      (0, key 1, some (7 ∷ []))
      ∷ (2, key_head, some (to_be_bytes 1))
      ∷ (2, aux_key (104 ∷ []), some (5 ∷ []))
      ∷ (1, key 1, some (9 ∷ []))
      ∷ (2, key_last_cp, some (to_be_bytes 1))
      ∷ (0, key 1, none)
      ∷ [];
  head = 1;
  last_checkpoint = 1;
}

run-Holds_example : (c' : Chain) × (run_chain genesis operations ≡ some c') × Holds stored c'
unfolding run be key to_be_bytes written
run-Holds_example =
    run-Holds memory-IsLawful operations empty stored genesis empty-Holds
      (omega arith, (tt, (tt, (tt, tt)))) refl

perform-refusal_example :
    perform empty (Operation.appends 5 (7 ∷ []))
    ≡ err (refusal genesis (Operation.appends 5 (7 ∷ [])))
unfolding is_allowed
perform-refusal_example =
    perform-refusal empty genesis (Operation.appends 5 (7 ∷ [])) empty-Holds refl

-- A store with a compaction at 1 and one block above.
abbrev longer : Store memory
longer = record {
  db =
      (0, key 1, some (7 ∷ []))
      ∷ (2, key_head, some (to_be_bytes 1))
      ∷ (1, key 1, some (9 ∷ []))
      ∷ (2, key_last_cp, some (to_be_bytes 1))
      ∷ (0, key 1, none)
      ∷ (0, key 2, some (8 ∷ []))
      ∷ (2, key_head, some (to_be_bytes 2))
      ∷ [];
  head = 2;
  last_checkpoint = 1;
}

abbrev longer_chain : Chain
longer_chain = record {
  base = 1;
  state = some (9 ∷ []);
  blocks = (8 ∷ []) ∷ [];
  aux = λ name. none;
}

abbrev growing : List Operation
growing =
    Operation.appends 1 (7 ∷ []) ∷ Operation.compacts 1 (9 ∷ []) ∷ Operation.appends 2 (8 ∷ []) ∷ []

grown : run empty growing ≡ ok longer
unfolding run
grown = refl

grown_chain : run_chain genesis growing ≡ some longer_chain
unfolding run_chain after is_allowed drop
grown_chain = refl

longer-Holds : Holds longer longer_chain
longer-Holds =
    let r =
      run-Holds memory-IsLawful growing empty longer genesis empty-Holds
        (omega arith, (tt, (omega arith, tt))) grown in
    subst (Holds longer) (same r.0 longer_chain (sym r.1 ∙ grown_chain)) r.2
  where
    same : (x y : Chain) → ◌≡◌ {A = Option Chain} (some x) (some y) → x ≡ y
    same x y e = cc

-- A fork below the compaction: everything goes, and the pruned block is counted as dropped.
rewind_for_fork-Rewound_example : Rewound {D = memory} longer_chain 0 (
  record {
    db =
        longer.db
        ++ (0, key 1, none)
          ∷ (0, key 2, none)
          ∷ (1, key 1, none)
          ∷ (2, key_last_cp, some (to_be_bytes 0))
          ∷ (2, key_head, some (to_be_bytes 0))
          ∷ [];
    head = 0;
    last_checkpoint = 0;
  },
  record { height = 0; state = none; dropped = 2 },
)
unfolding rewind_for_fork
rewind_for_fork-Rewound_example =
    rewind_for_fork-Rewound memory-IsLawful longer _ longer_chain 0 _ longer-Holds refl

fork_point-PartsAfter_example :
    (n : ℕ) × (fork_point empty 1 ((3 ∷ []) ∷ []) ≡ ok (1 - 1 + n))
    × PartsAfter genesis 1 ((3 ∷ []) ∷ []) n
fork_point-PartsAfter_example =
    fork_point-PartsAfter empty genesis empty-Holds 1 ((3 ∷ []) ∷ []) (omega arith) (omega arith)
