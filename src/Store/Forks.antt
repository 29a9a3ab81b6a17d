-- ===== src/Store/Forks.antt =====
-- Where a store of crates/miot-store/src/lib.rs and the blocks of another one part.
use akuma_miot.Prelude.{
  ℕ, zero, suc, ◌+◌, ◌-◌, ◌<◌, ◌≤◌, ◌≡◌, ◌≢◌, refl, sym, ap, subst, ◌∙◌, Option, none, some, List,
  [], ◌∷◌, arith, length, ok, ◌⊎◌, Bool-cases, inl, inr,
}
use akuma_miot.Mesh.Maps.{text_eq, text_eq_iff}
use akuma_miot.Store.Bytes.{Bytes, u64_count}
use akuma_miot.Store.Database.{Database}
use akuma_miot.Store.Log.{Store, block, agree_from, fork_point}
use akuma_miot.Store.Spec.{Chain, Holds, block_at, nth}

-- From the height `h` on, the chain has the first `n` of these blocks, and not the next one.
abbrev pub PartsAfter : Chain → ℕ → List Bytes → ℕ → Type 0
PartsAfter c h theirs n =
    ((i : ℕ) → i < n → (t : Bytes) × (nth theirs i ≡ some t) × (block_at c (h + i) ≡ some t))
    × ((t : Bytes) → nth theirs n ≡ some t → block_at c (h + n) ≢ some t)

module _ (c : Chain) (h : ℕ) (t : Bytes) (ts : List Bytes) where
  parts-here : block_at c h ≢ some t → PartsAfter c h (t ∷ ts) 0
  unfolding nth
  parts-here d = (
    λ i l. absurd (omega arith),
    λ u e b. d (subst (λ k. block_at c k ≡ some t) (omega arith) (b ∙ sym e)),
  )

  parts-later :
      (n : ℕ) → block_at c h ≡ some t → PartsAfter c (h + 1) ts n → PartsAfter c h (t ∷ ts) (suc n)
  unfolding nth
  parts-later n b p =
      (λ i l. later i l, λ u e q. p.1 u e (subst (λ k. block_at c k ≡ some u) (omega arith) q))
    where
      later :
          (i : ℕ)
          → i < suc n
          → (u : Bytes) × (nth (t ∷ ts) i ≡ some u) × (block_at c (h + i) ≡ some u)
      later zero l = (t, refl, subst (λ k. block_at c k ≡ some t) (omega arith) b)
      later (suc i) l =
          let q = p.0 i (omega arith) in
          (q.0, q.1, subst (λ k. block_at c k ≡ some q.0) (omega arith) q.2)

same_or_not : (o : Option Bytes) (t : Bytes) → (o ≡ some t) ⊎ (o ≢ some t)
same_or_not none t = inr (λ e. cc)
same_or_not (some b) t = elim (Bool-cases (text_eq b t)) [
  | inl y ↦ inl (ap some ((text_eq_iff b t).0 y))
  | inr n ↦ inr (λ e. grind (arith, text_eq_iff b t))
]

module _ {D : Database} (s : Store D) (c : Chain) (H : Holds s c) where
  agree_from-same :
      (h a : ℕ) (t : Bytes) (ts : List Bytes)
      → h < u64_count
      → block_at c h ≡ some t
      → agree_from s h a (t ∷ ts) ≡ agree_from s (h + 1) h ts
  unfolding agree_from block
  agree_from-same h a t ts l b = rw (H.blocks h l, b) (ground (arith, text_eq_iff t t))

  agree_from-differs :
      (h a : ℕ) (t : Bytes) (ts : List Bytes)
      → h < u64_count
      → block_at c h ≢ some t
      → agree_from s h a (t ∷ ts) ≡ ok a
  unfolding agree_from block
  agree_from-differs h a t ts l b = rw (H.blocks h l) (grind (arith, text_eq_iff))

  agree_from-PartsAfter :
      (h : ℕ) (theirs : List Bytes)
      → 1 ≤ h
      → h + length theirs < u64_count
      → (n : ℕ) × (agree_from s h (h - 1) theirs ≡ ok (h - 1 + n)) × PartsAfter c h theirs n
  unfolding agree_from nth
  agree_from-PartsAfter h [] p l =
      (0, ap ok (omega arith), (λ i q. absurd (omega arith), λ t e. cc))
  agree_from-PartsAfter h (t ∷ ts) p l =
      let rest = agree_from-PartsAfter (h + 1) ts (omega arith) (omega arith) in
      elim (same_or_not (block_at c h) t) [
        | inl y ↦ (
          suc rest.0,
          agree_from-same h (h - 1) t ts (omega arith) y
              ∙ subst (λ k. agree_from s (h + 1) k ts ≡ ok (h - 1 + suc rest.0)) (omega arith)
                  (rest.1 ∙ ap ok (omega arith)),
          parts-later c h t ts rest.0 y rest.2,
        )
        | inr d ↦ (
          0,
          agree_from-differs h (h - 1) t ts (omega arith) d ∙ ap ok (omega arith),
          parts-here c h t ts d,
        )
      ]

  -- Against the blocks of another log from a height on, the fork point is the last height up to which
  -- the store has the same blocks: all those agree, and the next one, if there is one, does not.
  pub fork_point-PartsAfter :
      (from : ℕ) (theirs : List Bytes)
      → 1 ≤ from
      → from + length theirs < u64_count
      → (n : ℕ) × (fork_point s from theirs ≡ ok (from - 1 + n)) × PartsAfter c from theirs n
  unfolding fork_point
  fork_point-PartsAfter from theirs p l = agree_from-PartsAfter from theirs p l
