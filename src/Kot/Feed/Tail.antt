-- ===== src/Kot/Feed/Tail.antt =====
-- What a cat reads from the log of a node (crates/kot/src/node.rs) after the last entry that it saw.
use akuma_miot.Prelude.{
  ℕ, suc, ◌+◌, ◌≤◌, ◌<◌, ◌≡◌, refl, sym, ap, subst, ◌∙◌, Bool, Option, List, [], ◌∷◌, ◌++◌, map,
  map-append, append-nil, append_assoc, arith, leb, ltb, if◌then◌else◌, if-rule, length,
  length-append, keep, All, All-append,
}
use akuma_miot.Primitives.Effect.{Effect}
use akuma_miot.Store.Bytes.{u64_count}
use akuma_miot.Store.Log.{next}
use akuma_miot.Kot.Feed.{
  Entry, Feed, Happening, log_cap, log_effect, log_all, stamp_from, stamp_block, events, happen,
  absorbed, entry_of, pop_front, no_feed,
}
use akuma_miot.Kot.Feed.Counts.{next-small, IsCounted, happen-IsCounted}
use akuma_miot.Kot.Feed.Stamps.{effects_of, stamp-split, stamp-shown, All-seqs, effects-shown}

module _ {A : Type 0} where
  -- The log has the effects `done` after the entry `seen`, and room for the old entries to go first.
  record IsSplit (seen : ℕ) (done : List (Effect A)) (f : Feed A) : Type 0 where
    old : List (Entry A)
    new : List (Entry A)
    log : f.log ≡ old ++ new
    before : All (λ (e : Entry A). e.seq ≤ seen) old
    after : All (λ (e : Entry A). seen < e.seq) new
    effects : effects_of new ≡ done
    last : f.seq ≡ seen + length done

  length-effects_of : (log : List (Entry A)) → length (effects_of log) ≡ length log
  length-effects_of [] = refl
  length-effects_of (e ∷ log) = ap suc (length-effects_of log)

  -- A full log loses an old entry, as long as the new ones do not fill it.
  pop_front-append :
      (old new : List (Entry A)) (seen : ℕ)
      → length new < log_cap
      → log_cap ≤ length (old ++ new)
      → All (λ (e : Entry A). e.seq ≤ seen) old
      → (rest : List (Entry A)) × (pop_front (old ++ new) ≡ rest ++ new)
        × All (λ (e : Entry A). e.seq ≤ seen) rest
  pop_front-append [] new seen l c h = absurd (omega (arith, l, c))
  pop_front-append (e ∷ old) new seen l c h = (old, refl, h.1)

  room :
      (old new : List (Entry A)) (seen : ℕ)
      → length new < log_cap
      → All (λ (e : Entry A). e.seq ≤ seen) old
      → (rest : List (Entry A)) × ((if leb log_cap (length (old ++ new))
            then pop_front (old ++ new)
            else (old ++ new))
          ≡ rest ++ new)
        × All (λ (e : Entry A). e.seq ≤ seen) rest
  room old new seen l h =
      if-rule
        (λ (x : List (Entry A)).
          (rest : List (Entry A)) × (x ≡ rest ++ new) × All (λ (e : Entry A). e.seq ≤ seen) rest)
        (leb log_cap (length (old ++ new))) (pop_front (old ++ new)) (old ++ new)
        (λ y. pop_front-append old new seen l (ground (arith, y)) h) (λ n. (old, refl, h))

  step-IsSplit :
      (seen block : ℕ) (done : List (Effect A)) (f : Feed A) (e : Effect A)
      → length done < log_cap
      → f.seq + 1 < u64_count
      → IsSplit seen done f
      → IsSplit seen (done ++ e ∷ []) (log_effect f block e)
  unfolding log_effect
  step-IsSplit seen block done f e l small h = record {
    old = kept.0;
    new = h.new ++ entry_of (next f.seq) block e ∷ [];
    log =
        ap (λ x. x ++ entry_of (next f.seq) block e ∷ [])
          (subst (λ x. (if leb log_cap (length x) then pop_front x else x) ≡ kept.0 ++ h.new)
            (sym h.log) kept.1)
        ∙ append_assoc kept.0 h.new (entry_of (next f.seq) block e ∷ []);
    before = kept.2;
    after =
        All-append (λ (x : Entry A). seen < x.seq) h.new (entry_of (next f.seq) block e ∷ [])
          h.after (omega (arith, next-small f.seq small, h.last), tt);
    effects =
        map-append (λ (x : Entry A). x.effect) h.new (entry_of (next f.seq) block e ∷ [])
        ∙ ap (λ x. x ++ e ∷ []) h.effects;
    last = omega (arith, next-small f.seq small, h.last, length-append done (e ∷ []));
  }
    where
      kept :
          (rest : List (Entry A)) × ((if leb log_cap (length (h.old ++ h.new))
              then pop_front (h.old ++ h.new)
              else (h.old ++ h.new))
            ≡ rest ++ h.new)
          × All (λ (x : Entry A). x.seq ≤ seen) rest
      kept =
          room h.old h.new seen (omega (arith, l, length-effects_of h.new, ap length h.effects))
            h.before

  steps-IsSplit :
      (seen block : ℕ) (es done : List (Effect A)) (f : Feed A)
      → length done + length es ≤ log_cap
      → seen + length done + length es < u64_count
      → IsSplit seen done f
      → IsSplit seen (done ++ es) (log_all f block es)
  unfolding log_all
  steps-IsSplit seen block [] done f l small h =
      subst (λ x. IsSplit seen x f) (sym (append-nil done)) h
  steps-IsSplit seen block (e ∷ es) done f l small h =
      subst (λ x. IsSplit seen x (log_all (log_effect f block e) block es))
        (append_assoc done (e ∷ []) es)
        (steps-IsSplit seen block es (done ++ e ∷ []) (log_effect f block e)
          (omega (arith, l, length-append done (e ∷ [])))
          (omega (arith, small, length-append done (e ∷ [])))
          (step-IsSplit seen block done f e (omega (arith, l)) (omega (arith, small, h.last)) h))

  stamp-IsSplit :
      (seen height : ℕ) (at : Option ℕ) (done : List (Effect A)) (f : Feed A)
      → IsSplit seen done f
      → IsSplit seen done (stamp_block f height at)
  unfolding stamp_block
  stamp-IsSplit seen height at done f h =
      let r = stamp-split height at h.old h.new in
      record {
        old = r.0;
        new = (stamp_from height at h.new).1;
        log = ap (λ l. (stamp_from height at l).1) h.log ∙ r.1;
        before = All-seqs (λ n. n ≤ seen) h.old r.0 r.2 h.before;
        after =
            All-seqs (λ n. seen < n) h.new (stamp_from height at h.new).1
              (stamp-shown height at h.new) h.after;
        effects =
            sym (effects-shown (stamp_from height at h.new).1)
            ∙ ap (map (λ (x : ℕ × Effect A). x.1)) (stamp-shown height at h.new)
            ∙ effects-shown h.new
            ∙ h.effects;
        last = h.last;
      }

  happen-IsSplit :
      (seen : ℕ) (hs : List (Happening A)) (done : List (Effect A)) (f : Feed A)
      → length done + length (absorbed hs) ≤ log_cap
      → seen + length done + length (absorbed hs) < u64_count
      → IsSplit seen done f
      → IsSplit seen (done ++ absorbed hs) (happen f hs)
  unfolding happen absorbed
  happen-IsSplit seen [] done f l small h = subst (λ x. IsSplit seen x f) (sym (append-nil done)) h
  happen-IsSplit seen (Happening.absorbs block es ∷ hs) done f l small h =
      subst (λ x. IsSplit seen x (happen (log_all f block es) hs))
        (append_assoc done es (absorbed hs))
        (happen-IsSplit seen hs (done ++ es) (log_all f block es)
          (omega (arith, l, length-append done es, length-append es (absorbed hs)))
          (omega (arith, small, length-append done es, length-append es (absorbed hs)))
          (steps-IsSplit seen block es done f (omega (arith, l, length-append es (absorbed hs)))
            (omega (arith, small, length-append es (absorbed hs))) h))
  happen-IsSplit seen (Happening.stamps height at ∷ hs) done f l small h =
      happen-IsSplit seen hs done (stamp_block f height at) l small
        (stamp-IsSplit seen height at done f h)

  keep-none :
      (seen : ℕ) (xs : List (Entry A))
      → All (λ (e : Entry A). e.seq ≤ seen) xs
      → keep (λ (e : Entry A). ltb seen e.seq) xs ≡ []
  unfolding keep
  keep-none seen [] h = refl
  keep-none seen (x ∷ xs) h = ground (arith, h.0, keep-none seen xs h.1)

  keep-every :
      (seen : ℕ) (xs : List (Entry A))
      → All (λ (e : Entry A). seen < e.seq) xs
      → keep (λ (e : Entry A). ltb seen e.seq) xs ≡ xs
  unfolding keep
  keep-every seen [] h = refl
  keep-every seen (x ∷ xs) h = ground (arith, h.0, keep-every seen xs h.1)

  keep-append :
      (p : Entry A → Bool) (xs ys : List (Entry A)) → keep p (xs ++ ys) ≡ keep p xs ++ keep p ys
  unfolding keep
  keep-append p [] ys = refl
  keep-append p (x ∷ xs) ys = ground (arith, keep-append p xs ys)

  -- A cat saw the last entry of a log, after any effects and stamps, and asks again, from that entry, after
  -- the node absorbed at most 4,096 effects more, in any blocks and with any stamps between: it reads
  -- exactly these effects, each once and in their order, and the last number of the log is the count of all
  -- effects. The count stays below 2^64.
  pub events-happen :
      (before hs : List (Happening A))
      → length (absorbed hs) ≤ log_cap
      → length (absorbed before) + length (absorbed hs) < u64_count
      → (map
            (λ (e : Entry A). e.effect)
            (events (happen (happen no_feed before) hs) (happen no_feed before).seq)
          ≡ absorbed hs)
        × ((happen (happen no_feed before) hs).seq
            ≡ length (absorbed before) + length (absorbed hs))
  unfolding events IsCounted
  events-happen before hs l small = (
    ap (λ x. effects_of (keep (λ (e : Entry A). ltb f.seq e.seq) x)) h.log
        ∙ ap effects_of (keep-append (λ (e : Entry A). ltb f.seq e.seq) h.old h.new)
        ∙ ap (λ x. effects_of (x ++ keep (λ (e : Entry A). ltb f.seq e.seq) h.new))
            (keep-none f.seq h.old h.before)
        ∙ ap effects_of (keep-every f.seq h.new h.after)
        ∙ h.effects,
    omega (arith, h.last, b.1),
  )
    where
      f : Feed A
      f = happen no_feed before

      b : IsCounted f × (f.seq ≡ 0 + length (absorbed before))
      b = happen-IsCounted before no_feed (omega (arith, small)) tt

      h : IsSplit f.seq (absorbed hs) (happen f hs)
      h = happen-IsSplit f.seq hs [] f (omega (arith, l)) (omega (arith, small, b.1)) (record {
        old = f.log;
        new = [];
        log = sym (append-nil f.log);
        before = b.0;
        after = tt;
        effects = refl;
        last = omega arith;
      })
