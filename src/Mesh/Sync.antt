-- ===== src/Mesh/Sync.antt =====
-- Whom a leader pushes blocks to, and whom a node pulls them from: `push_targets` and `pull_sources` of
-- crates/miot-mesh/src/lib.rs.
use akuma_miot.Prelude.{
  ℕ, Bool, not, ◌&&◌, ◌||◌, Option, none, some, List, [], ◌∷◌, leb, ltb, ◌==◌, if◌then◌else◌,
  is_some, keep, map,
}
use akuma_miot.Primitives.Words.{saturating_sub}
use akuma_miot.Mesh.Maps.{insert, remove, lookup, has_member, add_all}
use akuma_miot.Mesh.State.{Route, Status, Mesh, is_leader}

-- `entry(route).or_insert((head, now))`, begun again if the head has moved.
unfoldable pub since : ℕ → ℕ → Option (Route × (ℕ × ℕ)) → ℕ × ℕ
since head now none = (head, now)
since head now (some e) = if e.1.0 == head then e.1 else (head, now)

-- The loop of `push_targets` over `seen`, from the entries of `lagging`.
unfoldable pub push_loop :
    Mesh
    → ℕ
    → ℕ
    → List (Route × (ℕ × ℕ))
    → List (Route × (ℕ × Status))
    → List (Route × (ℕ × ℕ)) × List Route
unfolding insert remove lookup since has_member
push_loop m now head lagging [] = (lagging, [])
push_loop m now head lagging ((route, (at, st)) ∷ seen) =
    let quiet = ltb m.timing.election_min_ms (saturating_sub now at) || st.head == head in
    let mark = since st.head now (lookup route lagging) in
    let next = if quiet then remove route lagging else insert route mark lagging in
    let (end, out) = push_loop m now head next seen in
    (
      end,
      if not quiet
            && (has_member route m.pushed
                || leb m.timing.election_min_ms (saturating_sub now mark.1))
          then route ∷ out
          else out,
    )

unfoldable pub push_targets : Mesh → ℕ → ℕ → Mesh × List Route
unfolding push_loop add_all
push_targets m now head =
    if not (is_leader m.role)
    then (record m { lagging = []; pushed = [] }, [])
    else (let (lagging, out) = push_loop m now head m.lagging m.seen in
        (record m { lagging = lagging; pushed = add_all out m.pushed }, out))

-- A source of blocks: whether it leads, its head, and the route to it.
abbrev pub Source : Type 0
Source = Bool × (ℕ × Route)

-- `a` comes no later than `b` when they are sorted with the best first.
abbrev pub is_no_worse : Source → Source → Bool
is_no_worse a b = if a.0 then (not b.0 || leb b.1.0 a.1.0) else (not b.0 && leb b.1.0 a.1.0)

unfoldable pub place : Source → List Source → List Source
place a [] = a ∷ []
place a (b ∷ bs) = let rest = place a bs in if is_no_worse a b then a ∷ b ∷ bs else b ∷ rest

-- `sort_by`, which is stable.
unfoldable pub sort : List Source → List Source
unfolding place
sort [] = []
sort (a ∷ rest) = place a (sort rest)

-- A peer that a learner may pull from.
abbrev pub is_source : Mesh → ℕ → Route × (ℕ × Status) → Bool
is_source m now (r, (at, st)) =
    leb (saturating_sub now at) m.timing.election_min_ms
    && st.term == m.hard.term
    && is_some st.leader

abbrev pub source_of : Route × (ℕ × Status) → Source
source_of (r, (at, st)) = (is_leader st.role, (st.head, r))

abbrev pub one_route : Option Route → List Route
one_route none = []
one_route (some r) = r ∷ []

unfoldable pub pull_sources : Mesh → ℕ → List Route
unfolding sort keep
pull_sources m now =
    if not m.learner
    then one_route m.leader_route
    else map (λ (a : Source). a.1.1) (sort (map source_of (keep (is_source m now) m.seen)))
