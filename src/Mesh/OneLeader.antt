-- ===== src/Mesh/OneLeader.antt =====
-- The election safety of a mesh, over all of its histories (crates/miot-mesh/src/lib.rs).
use akuma_miot.Prelude.{
  ℕ, ◌+◌, ◌≤◌, ◌<◌, ◌≡◌, refl, sym, subst, true, false, List, [], ◌∷◌, ◌++◌, arith, any, length,
  All, if-rule, ◌⊎◌, inl, inr, Bool-cases,
}
use akuma_miot.Mesh.Maps.{text_eq, text_eq_iff, has_member}
use akuma_miot.Mesh.State.{Name, Role, Mesh, is_leader, is_candidate, is_pre_candidate, u64_max}
use akuma_miot.Mesh.History.{Event, step}
use akuma_miot.Mesh.Promises.{HasVoted}
use akuma_miot.Mesh.Ballots.{step-Follows}
use akuma_miot.Mesh.Quorums.{common_member, IsOrdered, Within}
use akuma_miot.Mesh.Cluster.{Ballot, Cast, Cluster, put, given, IsFair, advance, Reaches}
use akuma_miot.Mesh.Members.{NodeOk, NodeOk-more}
use akuma_miot.Mesh.Safety.{step-NodeOk}
use akuma_miot.Mesh.Elections.{Cast-split, given-GivenBy, given-one}

-- The whole mesh is in order: each member is, each vote on record is a member's and is held to, and no
-- member has two votes in one term on record.
pub record ClusterOk (members : List Name) (c : Cluster) : Type 0 where
  pub node : (n : Name) → has_member n members ≡ true → NodeOk members n c.ballots (c.nodes n)
  pub kept :
      (v : Name) (t : ℕ) (x : Name)
      → Cast v t x c.ballots
      → (has_member v members ≡ true) × HasVoted t x (c.nodes v)
  pub once : (v : Name) (t : ℕ) (x y : Name) → Cast v t x c.ballots → Cast v t y c.ballots → x ≡ y

module _ (members : List Name) (two : 2 ≤ length members) (c : Cluster) (k : ClusterOk members c)
    (n : Name) (e : Event) (is_in : has_member n members ≡ true)
    (fair : IsFair members n c.ballots e) (lt : (c.nodes n).hard.term < u64_max) where
  abbrev m : Mesh
  m = c.nodes n

  abbrev new : List Ballot
  new = given n m e

  own_ok : NodeOk members n c.ballots m
  own_ok = k.node n is_in

  self : text_eq n n ≡ true
  self = (text_eq_iff n n).1 refl

  node_after :
      (x : Name)
      → has_member x members ≡ true
      → NodeOk members x (new ++ c.ballots) (put n (step m e) c.nodes x)
  node_after x known =
      if-rule (NodeOk members x (new ++ c.ballots)) (text_eq x n) (step m e) (c.nodes x)
        (λ y.
          subst (λ z. NodeOk members z (new ++ c.ballots) (step m e)) (sym ((text_eq_iff x n).0 y))
            (step-NodeOk members two n is_in c.ballots m e own_ok fair lt))
        (λ _. NodeOk-more members x new c.ballots (c.nodes x) (k.node x known))

  kept_after :
      (v : Name) (t : ℕ) (x : Name)
      → Cast v t x new ⊎ Cast v t x c.ballots
      → (has_member v members ≡ true) × HasVoted t x (put n (step m e) c.nodes v)
  kept_after v t x (inl h) =
      let g = given-GivenBy members n c.ballots m own_ok e v t x h in
      (
        subst (λ z. has_member z members ≡ true) g.own is_in,
        if-rule (HasVoted t x) (text_eq v n) (step m e) (c.nodes v) (λ _. g.holds_to)
            (λ other. absurd (apart (subst (λ z. text_eq z n ≡ false) (sym g.own) other))),
      )
    where
      apart : text_eq n n ≡ false → ⊥
      apart other = let y = self in cc
  kept_after v t x (inr h) =
      let (known, p) = k.kept v t x h in
      (
        known,
        if-rule (HasVoted t x) (text_eq v n) (step m e) (c.nodes v)
            (λ y.
              (step-Follows m e own_ok.sound lt).votes t x
                (subst (λ z. HasVoted t x (c.nodes z)) ((text_eq_iff v n).0 y) p))
            (λ _. p),
      )

  -- A vote of this step is no second one.
  never_second : (v : Name) (t : ℕ) (x y : Name) → Cast v t x new → Cast v t y c.ballots → x ≡ y
  never_second v t x y h h' =
      let g = given-GivenBy members n c.ballots m own_ok e v t x h in
      g.only y (subst (λ z. HasVoted t y (c.nodes z)) (sym g.own) (k.kept v t y h').1)

  once_after :
      (v : Name) (t : ℕ) (x y : Name)
      → Cast v t x new ⊎ Cast v t x c.ballots
      → Cast v t y new ⊎ Cast v t y c.ballots
      → x ≡ y
  once_after v t x y (inl h) (inl h') = given-one members n c.ballots m own_ok e v t x y h h'
  once_after v t x y (inl h) (inr h') = never_second v t x y h h'
  once_after v t x y (inr h) (inl h') = sym (never_second v t y x h' h)
  once_after v t x y (inr h) (inr h') = k.once v t x y h h'

  advance-ClusterOk : ClusterOk members (advance c n e)
  unfolding advance
  advance-ClusterOk = record {
    node = node_after;
    kept = λ v t x h. kept_after v t x (Cast-split v t x new c.ballots h);
    once = λ v t x y h h'.
        once_after v t x y (Cast-split v t x new c.ballots h) (Cast-split v t y new c.ballots h');
  }

Reaches-ClusterOk :
    (members : List Name)
    → 2 ≤ length members
    → (c d : Cluster) → Reaches members c d
    → ClusterOk members c
    → ClusterOk members d
Reaches-ClusterOk members two c d (Reaches.stays _) k = k
Reaches-ClusterOk members two c d (Reaches.steps _ _ n e is_in fair lt r) k =
    Reaches-ClusterOk members two (advance c n e) d r
      (advance-ClusterOk members two c k n e is_in fair lt)

-- A mesh at the start of its record: every member follows, knows its name and the size of the mesh, and
-- counts no votes, whatever its term and its vote in it.
pub record IsFresh (members : List Name) (c : Cluster) : Type 0 where
  pub no_ballots : c.ballots ≡ []
  pub names : (n : Name) → has_member n members ≡ true → (c.nodes n).name ≡ n
  pub sizes :
      (n : Name) → has_member n members ≡ true → length (c.nodes n).routes + 1 ≡ length members
  pub roles : (n : Name) → has_member n members ≡ true → (c.nodes n).role ≡ Role.follower
  pub no_votes : (n : Name) → has_member n members ≡ true → (c.nodes n).votes ≡ []

none-Cast : (bs : List Ballot) (v : Name) (t : ℕ) (x : Name) → bs ≡ [] → Cast v t x bs → ⊥
none-Cast [] v t x e h = h
none-Cast (b ∷ bs) v t x e h = cc

IsFresh-ClusterOk : (members : List Name) (c : Cluster) → IsFresh members c → ClusterOk members c
IsFresh-ClusterOk members c f = record {
  node = λ n known. record {
    name = f.names n known;
    size = f.sizes n known;
    sound = λ h. let r = f.roles n known in absurd (pre n r h);
    set = subst IsOrdered (sym (f.no_votes n known)) tt;
    others = subst (All (λ r. text_eq n r ≡ false)) (sym (f.no_votes n known)) tt;
    within = subst (Within members) (sym (f.no_votes n known)) tt;
    stands = λ h. absurd (stood n (f.roles n known) h);
    leads = λ h. absurd (led n (f.roles n known) h);
  };
  kept = λ v t x h. absurd (none-Cast c.ballots v t x f.no_ballots h);
  once = λ v t x y h h'. absurd (none-Cast c.ballots v t x f.no_ballots h);
}
  where
    pre :
        (n : Name) → (c.nodes n).role ≡ Role.follower → is_pre_candidate (c.nodes n).role ≡ true → ⊥
    pre n r h = cc

    stood : (n : Name) → (c.nodes n).role ≡ Role.follower → is_candidate (c.nodes n).role ≡ true → ⊥
    stood n r h = cc

    led : (n : Name) → (c.nodes n).role ≡ Role.follower → is_leader (c.nodes n).role ≡ true → ⊥
    led n r h = cc

member-All : (P : Name → Type 0) (x : Name) (s : List Name) → has_member x s ≡ true → All P s → P x
unfolding has_member any
member-All P x [] h a = cc
member-All P x (k ∷ s) h a = elim (Bool-cases (text_eq x k)) [
  | inl y ↦ subst P (sym ((text_eq_iff x k).0 y)) a.0
  | inr z ↦ member-All P x s (ground (arith, h, z)) a.1
]

-- A term has at most one leader: in whatever state a mesh of two or more members gets to, by whatever
-- order of the nodes' steps, two members that lead in one term are the same. The network may lose,
-- delay, repeat and reorder what is said, but a vote that is counted was given, by another member, in
-- answer to a request of this node's; a node is sent no status under its own name, and takes no step
-- in a term that is the largest `u64`. At the start every member is a follower that counts no votes,
-- under its own name, with a route to each other member, which has the name of that member.
pub one_leader :
    (members : List Name) (c d : Cluster)
    → 2 ≤ length members
    → IsFresh members c
    → Reaches members c d
    → (n n' : Name) → has_member n members ≡ true
    → has_member n' members ≡ true
    → is_leader (d.nodes n).role ≡ true
    → is_leader (d.nodes n').role ≡ true
    → (d.nodes n).hard.term ≡ (d.nodes n').hard.term
    → n ≡ n'
one_leader members c d two f r n n' known known' leads leads' same =
    let k = Reaches-ClusterOk members two c d r (IsFresh-ClusterOk members c f) in
    let w = (k.node n known).leads leads in
    let w' = (k.node n' known').leads leads' in
    let (x, a, b) =
      common_member members w.winners w'.winners w.distinct w'.distinct w.within w'.within
        (omega (arith, w.many, w'.many)) in
    k.once x (d.nodes n).hard.term n n'
      (member-All (λ z. Cast z (d.nodes n).hard.term n d.ballots) x w.winners a w.cast)
      (subst (λ t. Cast x t n' d.ballots) (sym same)
        (member-All (λ z. Cast z (d.nodes n').hard.term n' d.ballots) x w'.winners b w'.cast))
