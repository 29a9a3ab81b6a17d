-- ===== src/Mesh/Sources.antt =====
-- The order in which a learner pulls (`pull_sources` of crates/miot-mesh/src/lib.rs).
use mathlib.Core.List.{Perm}
use mathlib.Core.List.Perm
use akuma_miot.Prelude.{
  ℕ, ◌+◌, ◌≤◌, ◌≡◌, refl, ap, subst, ◌∙◌, Bool, true, false, not, ◌&&◌, ◌||◌, Option, none, some,
  List, [], ◌∷◌, arith, leb, ltb, keep, map, if◌then◌else◌, Bool-cases, inl, inr,
}
use akuma_miot.Mesh.State.{Mesh, Route, Name, Role, Status}
use akuma_miot.Mesh.Sync.{
  Source, is_no_worse, place, sort, is_source, source_of, one_route, pull_sources,
}

-- What was heard of a peer: its route, when, and its status.
abbrev pub Heard : Type 0
Heard = Route × (ℕ × Status)

-- A peer with this role and head may come before one with that role and head: a leader comes before a
-- peer that does not lead, and among peers that are alike in this the higher head comes first.
abbrev pub Precedes : Role → ℕ → Role → ℕ → Type 0
Precedes Role.leader h Role.leader k = k ≤ h
Precedes Role.leader h _ k = Unit
Precedes _ h Role.leader k = true ≡ false
Precedes _ h _ k = k ≤ h

-- Each peer may come before the next.
abbrev pub IsRanked : List Heard → Type 0
IsRanked [] = Unit
IsRanked (a ∷ []) = Unit
IsRanked (a ∷ b ∷ bs) = Precedes a.1.1.role a.1.1.head b.1.1.role b.1.1.head × IsRanked (b ∷ bs)

-- The peer was heard no longer ago than an election window, in the term of the node, and follows a leader
-- or is one.
abbrev pub names_leader : Option Name → Bool
names_leader none = false
names_leader (some n) = true

abbrev pub is_current : Mesh → ℕ → Heard → Bool
is_current m now x =
    leb now (x.1.0 + m.timing.election_min_ms)
    && not (ltb x.1.1.term m.hard.term || ltb m.hard.term x.1.1.term)
    && names_leader x.1.1.leader

abbrev IsSorted : List Source → Type 0
IsSorted [] = Unit
IsSorted (a ∷ []) = Unit
IsSorted (a ∷ b ∷ bs) = (is_no_worse a b ≡ true) × IsSorted (b ∷ bs)

no_worse_total : (a b : Source) → is_no_worse a b ≡ false → is_no_worse b a ≡ true
no_worse_total a b h = ground (arith, h)

place-IsSorted : (a : Source) (bs : List Source) → IsSorted bs → IsSorted (place a bs)
unfolding place
place-IsSorted a [] h = tt
place-IsSorted a (b ∷ []) h = elim (Bool-cases (is_no_worse a b)) [
  | inl y ↦ rw y (y, tt)
  | inr n ↦ rw n (no_worse_total a b n, tt)
]
place-IsSorted a (b ∷ c ∷ bs) h = elim (Bool-cases (is_no_worse a b)) [
  | inl y ↦ rw y (y, h)
  | inr n ↦
      let rest = place-IsSorted a (c ∷ bs) h.1 in
      elim (Bool-cases (is_no_worse a c)) [
        | inl y ↦ rw (n, y) (no_worse_total a b n, (y, h.1))
        | inr k ↦ let rest' = rw k at rest in rw (n, k) (h.0, rest')
      ]
]

sort-IsSorted : (as_given : List Source) → IsSorted (sort as_given)
unfolding sort
sort-IsSorted [] = tt
sort-IsSorted (a ∷ rest) = place-IsSorted a (sort rest) (sort-IsSorted rest)

-- The sort of the sources is a sort of the peers.
place-source_of :
    (a : Heard) (bs : List Heard)
    → (zs : List Heard) × (place (source_of a) (map source_of bs) ≡ map source_of zs)
      × Perm zs (a ∷ bs)
unfolding place
place-source_of a [] = (a ∷ [], refl, Perm.refl (a ∷ []))
place-source_of a (b ∷ bs) = elim (Bool-cases (is_no_worse (source_of a) (source_of b))) [
  | inl y ↦ (a ∷ b ∷ bs, rw y refl, Perm.refl (a ∷ b ∷ bs))
  | inr n ↦
      let r = place-source_of a bs in
      (
        b ∷ r.0,
        rw n (ap (λ l. source_of b ∷ l) r.1),
        Perm.trans (Perm.cons b r.2) (Perm.swap a b bs),
      )
]

sort-source_of :
    (xs : List Heard)
    → (zs : List Heard) × (sort (map source_of xs) ≡ map source_of zs) × Perm zs xs
unfolding sort
sort-source_of [] = ([], refl, Perm.refl [])
sort-source_of (x ∷ xs) =
    let r = sort-source_of xs in
    let q = place-source_of x r.0 in
    (q.0, ap (place (source_of x)) r.1 ∙ q.1, Perm.trans q.2 (Perm.cons x r.2))

no_worse-Precedes :
    (a b : Heard)
    → is_no_worse (source_of a) (source_of b) ≡ true
    → Precedes a.1.1.role a.1.1.head b.1.1.role b.1.1.head
no_worse-Precedes a b h = ground (arith, h)

sorted-IsRanked : (xs : List Heard) → IsSorted (map source_of xs) → IsRanked xs
sorted-IsRanked [] h = tt
sorted-IsRanked (a ∷ []) h = tt
sorted-IsRanked (a ∷ b ∷ bs) h = (no_worse-Precedes a b h.0, sorted-IsRanked (b ∷ bs) h.1)

routes :
    (xs : List Heard) → map (λ (a : Source). a.1.1) (map source_of xs) ≡ map (λ (x : Heard). x.0) xs
routes [] = refl
routes (x ∷ xs) = ap (λ l. x.0 ∷ l) (routes xs)

source-is_current : (m : Mesh) (now : ℕ) (x : Heard) → is_source m now x ≡ is_current m now x
source-is_current m now x = ground arith

keep-is_current :
    (m : Mesh) (now : ℕ) (xs : List Heard) → keep (is_source m now) xs ≡ keep (is_current m now) xs
unfolding keep
keep-is_current m now [] = refl
keep-is_current m now (x ∷ xs) = ground (arith, source-is_current m now x, keep-is_current m now xs)

-- A learner pulls from exactly the peers that it heard no longer ago than an election window, that are in
-- its term, and that follow a leader or are one, each once. A peer that leads comes before those that do
-- not, and among peers that are alike in this none comes before one with a higher head.
pub pull_sources-IsRanked :
    (m : Mesh) (now : ℕ)
    → m.learner ≡ true
    → (ranked : List Heard) × (pull_sources m now ≡ map (λ (x : Heard). x.0) ranked)
      × IsRanked ranked
      × Perm ranked (keep (is_current m now) m.seen)
unfolding pull_sources
pull_sources-IsRanked m now l =
    let heard = keep (is_source m now) m.seen in
    let r = sort-source_of heard in
    (
      r.0,
      pulled (map (λ (a : Source). a.1.1) (sort (map source_of heard))) m.learner l
          ∙ ap (map (λ (a : Source). a.1.1)) r.1
          ∙ routes r.0,
      sorted-IsRanked r.0 (subst IsSorted r.1 (sort-IsSorted (map source_of heard))),
      subst (Perm r.0) (keep-is_current m now m.seen) r.2,
    )
  where
    pulled :
        (xs : List Route) (b : Bool)
        → b ≡ true
        → (if not b then one_route m.leader_route else xs) ≡ xs
    pulled xs true h = refl
    pulled xs false h = cc
