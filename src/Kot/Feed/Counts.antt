-- ===== src/Kot/Feed/Counts.antt =====
-- The numbers of the entries in the log of a node (crates/kot/src/node.rs).
use akuma_miot.Prelude.{
  ℕ, ◌+◌, ◌≤◌, ◌<◌, ◌≡◌, List, [], ◌∷◌, arith, leb, if◌then◌else◌, if-rule, length, length-append,
  All, All-append, All-mono,
}
use akuma_miot.Primitives.Effect.{Effect}
use akuma_miot.Store.Bytes.{u64_count}
use akuma_miot.Store.Log.{next}
use akuma_miot.Kot.Feed.{
  Entry, Feed, Happening, log_cap, log_effect, log_all, stamp_from, stamp_block, happen, absorbed,
  entry_of, pop_front,
}
use akuma_miot.Kot.Feed.Stamps.{stamp-shown, All-seqs}

pub next-small : (n : ℕ) → n + 1 < u64_count → next n ≡ n + 1
next-small n h = ground (arith, h)

module _ {A : Type 0} where
  -- No entry has a number above the last.
  unfoldable pub IsCounted : Feed A → Type 0
  IsCounted f = All (λ (e : Entry A). e.seq ≤ f.seq) f.log

  pop_front-All : (P : Entry A → Type 0) (log : List (Entry A)) → All P log → All P (pop_front log)
  pop_front-All P [] h = tt
  pop_front-All P (e ∷ log) h = h.1

  step-IsCounted :
      (f : Feed A) (block : ℕ) (e : Effect A)
      → f.seq + 1 < u64_count
      → IsCounted f
      → IsCounted (log_effect f block e)
  unfolding log_effect IsCounted
  step-IsCounted f block e l h =
      All-append (λ (x : Entry A). x.seq ≤ next f.seq)
        (if leb log_cap (length f.log) then pop_front f.log else f.log)
        (entry_of (next f.seq) block e ∷ [])
        (if-rule (All (λ (x : Entry A). x.seq ≤ next f.seq)) (leb log_cap (length f.log))
          (pop_front f.log) f.log
          (λ y. pop_front-All (λ (x : Entry A). x.seq ≤ next f.seq) f.log wide) (λ n. wide))
        (omega arith, tt)
    where
      wide : All (λ (x : Entry A). x.seq ≤ next f.seq) f.log
      wide =
          All-mono (λ (x : Entry A). x.seq ≤ f.seq) (λ (x : Entry A). x.seq ≤ next f.seq) f.log
            (λ x k. omega (arith, k, next-small f.seq l)) h

  log_all-IsCounted :
      (block : ℕ) (es : List (Effect A)) (f : Feed A)
      → f.seq + length es < u64_count
      → IsCounted f
      → IsCounted (log_all f block es) × ((log_all f block es).seq ≡ f.seq + length es)
  unfolding log_all log_effect
  log_all-IsCounted block [] f l h = (h, omega arith)
  log_all-IsCounted block (e ∷ es) f l h =
      let r =
        log_all-IsCounted block es (log_effect f block e)
          (omega (arith, l, next-small f.seq (omega (arith, l))))
          (step-IsCounted f block e (omega (arith, l)) h) in
      (r.0, omega (arith, r.1, next-small f.seq (omega (arith, l))))

  pub happen-IsCounted :
      (hs : List (Happening A)) (f : Feed A)
      → f.seq + length (absorbed hs) < u64_count
      → IsCounted f
      → IsCounted (happen f hs) × ((happen f hs).seq ≡ f.seq + length (absorbed hs))
  unfolding happen absorbed stamp_block IsCounted
  happen-IsCounted [] f l h = (h, omega arith)
  happen-IsCounted (Happening.absorbs block es ∷ hs) f l h =
      let r = log_all-IsCounted block es f (omega (arith, l, length-append es (absorbed hs))) h in
      let q =
        happen-IsCounted hs (log_all f block es)
          (omega (arith, l, r.1, length-append es (absorbed hs))) r.0 in
      (q.0, omega (arith, q.1, r.1, length-append es (absorbed hs)))
  happen-IsCounted (Happening.stamps height at ∷ hs) f l h =
      happen-IsCounted hs (stamp_block f height at) l (
        All-seqs (λ n. n ≤ f.seq) f.log (stamp_from height at f.log).1 (stamp-shown height at f.log)
          h)
