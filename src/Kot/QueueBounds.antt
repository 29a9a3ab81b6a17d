-- ===== src/Kot/QueueBounds.antt =====
-- The maps of extrinsics of a node (crates/kot/src/node.rs) stay within their caps.
use akuma_miot.Prelude.{
  ℕ, suc, ◌+◌, ◌≤◌, ◌≡◌, refl, sym, ap, subst, Bool, true, false, not, List, [], ◌∷◌, ◌++◌, map,
  arith, length, length-append, keep, leb, if-rule, Eq,
}
use akuma_miot.Litter.Maps.{lookup, insert, remove, contains_key, beq_refl}
use akuma_miot.Litter.Maps.Keys.{contains-remove}
use akuma_miot.Kot.Queues.{Queue, push, make_room, pop_oldest}
use akuma_miot.Kot.Sublists.{
  IsSublist, length-IsSublist, snoc-IsSublist, keep-IsSublist, drop-IsSublist, trans-IsSublist,
}

module _ {H V : Type 0} where
  abbrev pub keys : List (H × V) → List H
  keys m = map (λ (x : H × V). x.0) m

  length-keys : (m : List (H × V)) → length (keys m) ≡ length m
  length-keys [] = refl
  length-keys (x ∷ m) = ap suc (length-keys m)

  -- The map remembers nothing that the order forgot, and the order is within the cap.
  pub record IsCapped (cap : ℕ) (q : Queue H V) : Type 0 where
    pub remembered : IsSublist (keys q.entries) q.order
    pub short : length q.order ≤ cap

  pub length-IsCapped : (cap : ℕ) (q : Queue H V) → IsCapped cap q → length q.entries ≤ cap
  length-IsCapped cap q h =
      omega (arith, length-IsSublist h.remembered, length-keys q.entries, h.short)

  keys-keep : (p : H × V → Bool) (m : List (H × V)) → IsSublist (keys (keep p m)) (keys m)
  unfolding keep
  keys-keep p [] = IsSublist.done
  keys-keep p (x ∷ m) =
      if-rule (λ (l : List (H × V)). IsSublist (keys l) (x.0 ∷ keys m)) (p x) (x ∷ keep p m)
        (keep p m) (λ y. IsSublist.take x.0 (keys-keep p m))
        (λ n. IsSublist.skip x.0 (keys-keep p m))

module _ {H V : Type 0} ⦃e : Eq H⦄ where
  keys-remove :
      (k : H) (m : List (H × V)) → keys (remove k m) ≡ keep (λ j. not (e.beq j k)) (keys m)
  unfolding remove keep
  keys-remove k [] = refl
  keys-remove k (x ∷ m) = ground (arith, keys-remove k m)

  keys-insert_old :
      (k : H) (v : V) (m : List (H × V)) → contains_key k m ≡ true → keys (insert k v m) ≡ keys m
  unfolding insert lookup
  keys-insert_old k v [] h = cc
  keys-insert_old k v (x ∷ m) h = grind (arith, e.beq_iff x.0 k, keys-insert_old k v m)

  keys-insert_new :
      (k : H) (v : V) (m : List (H × V))
      → contains_key k m ≡ false
      → keys (insert k v m) ≡ keys m ++ k ∷ []
  unfolding insert lookup
  keys-insert_new k v [] h = refl
  keys-insert_new k v (x ∷ m) h = ground (arith, keys-insert_new k v m)

  pop-IsSublist :
      (m : List (H × V)) (old : H) (rest : List H)
      → IsSublist (keys m) (old ∷ rest)
      → IsSublist (keys (remove old m)) rest
  pop-IsSublist m old rest s =
      subst (λ l. IsSublist l rest) (sym (keys-remove old m))
        (drop-IsSublist (λ j. not (e.beq j old)) (ap not (beq_refl old)) s)

  -- What `push` finds after it made room.
  record HasRoom (cap : ℕ) (k : H) (q : Queue H V) : Type 0 where
    remembered : IsSublist (keys q.entries) q.order
    room : length q.order + 1 ≤ cap
    new : contains_key k q.entries ≡ false

  pop_oldest-HasRoom :
      (cap : ℕ) (k : H) (m : List (H × V)) (order : List H)
      → 1 ≤ cap
      → IsSublist (keys m) order
      → length order ≤ cap
      → contains_key k m ≡ false
      → HasRoom cap k (pop_oldest m order)
  unfolding pop_oldest
  pop_oldest-HasRoom cap k m [] c s l n = record { remembered = s; room = c; new = n }
  pop_oldest-HasRoom cap k m (old ∷ rest) c s l n = record {
    remembered = pop-IsSublist m old rest s;
    room = omega (arith, l);
    new = ground (arith, contains-remove k old m, n);
  }

  make_room-HasRoom :
      (cap : ℕ) (k : H) (q : Queue H V)
      → 1 ≤ cap
      → IsCapped cap q
      → contains_key k q.entries ≡ false
      → HasRoom cap k (make_room cap q)
  unfolding make_room
  make_room-HasRoom cap k q c h n =
      if-rule (HasRoom cap k) (leb cap (length q.order)) (pop_oldest q.entries q.order) q
        (λ y. pop_oldest-HasRoom cap k q.entries q.order c h.remembered h.short n)
        (λ no. record { remembered = h.remembered; room = ground (arith, no); new = n })

  append-IsCapped :
      (cap : ℕ) (k : H) (v : V) (r : Queue H V)
      → HasRoom cap k r
      → IsCapped cap (record { entries = insert k v r.entries; order = r.order ++ k ∷ [] })
  append-IsCapped cap k v r h = record {
    remembered =
        subst (λ (l : List H). IsSublist l (r.order ++ k ∷ []))
          (sym (keys-insert_new k v r.entries h.new)) (snoc-IsSublist k h.remembered);
    short = omega (arith, length-append r.order (k ∷ []), h.room);
  }

  pub push-IsCapped :
      (cap : ℕ) (k : H) (v : V) (q : Queue H V)
      → 1 ≤ cap
      → IsCapped cap q
      → contains_key k q.entries ≡ false
      → IsCapped cap (push cap k v q)
  unfolding push
  push-IsCapped cap k v q c h n =
      append-IsCapped cap k v (make_room cap q) (make_room-HasRoom cap k q c h n)

  -- A key that is in the map already.
  pub insert-IsCapped :
      (cap : ℕ) (k : H) (v : V) (q : Queue H V)
      → IsCapped cap q
      → contains_key k q.entries ≡ true
      → IsCapped cap (record q { entries = insert k v q.entries })
  insert-IsCapped cap k v q h y = record {
    remembered =
        subst (λ (l : List H). IsSublist l q.order) (sym (keys-insert_old k v q.entries y))
          h.remembered;
    short = h.short;
  }

  pub remove-IsCapped :
      (cap : ℕ) (k : H) (q : Queue H V)
      → IsCapped cap q
      → IsCapped cap (record q { entries = remove k q.entries })
  remove-IsCapped cap k q h = record {
    remembered =
        subst (λ (l : List H). IsSublist l q.order) (sym (keys-remove k q.entries))
          (keep-IsSublist (λ j. not (e.beq j k)) h.remembered);
    short = h.short;
  }

module _ {H V : Type 0} where
  pub keep-IsCapped :
      (cap : ℕ) (p : H × V → Bool) (q : Queue H V)
      → IsCapped cap q
      → IsCapped cap (record q { entries = keep p q.entries })
  keep-IsCapped cap p q h = record {
    remembered = trans-IsSublist h.remembered (keys (keep p q.entries)) (keys-keep p q.entries);
    short = h.short;
  }

  keys-map : (f : V → V) (m : List (H × V)) → keys (map (λ (x : H × V). (x.0, f x.1)) m) ≡ keys m
  keys-map f [] = refl
  keys-map f (x ∷ m) = ap (λ (l : List H). x.0 ∷ l) (keys-map f m)

  pub map-IsCapped :
      (cap : ℕ) (f : V → V) (q : Queue H V)
      → IsCapped cap q
      → IsCapped cap (record q { entries = map (λ (x : H × V). (x.0, f x.1)) q.entries })
  map-IsCapped cap f q h = record {
    remembered =
        subst (λ (l : List H). IsSublist l q.order) (sym (keys-map f q.entries)) h.remembered;
    short = h.short;
  }
