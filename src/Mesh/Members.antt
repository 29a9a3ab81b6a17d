-- ===== src/Mesh/Members.antt =====
-- What holds of each node of a mesh beside the record of the votes (crates/miot-mesh/src/lib.rs).
use akuma_miot.Prelude.{
  ℕ, ◌+◌, ◌<◌, ◌≡◌, sym, ap, subst, ◌∙◌, true, false, List, [], ◌∷◌, ◌++◌, arith, length, All,
  All-mono, ◌⊎◌, inl, inr,
}
use akuma_miot.Mesh.Maps.{text_eq}
use akuma_miot.Mesh.State.{Name, Route, Mesh, is_candidate, is_leader}
use akuma_miot.Mesh.Promises.{IsSound}
use akuma_miot.Mesh.Quorums.{IsOrdered, Distinct, Within}
use akuma_miot.Mesh.Quiet.{Quiet, is_idle}
use akuma_miot.Mesh.Cluster.{Ballot, Cast}

-- More than half of the members are on record with a vote for this node in this term.
pub record Won (members : List Name) (n : Name) (t : ℕ) (bs : List Ballot) : Type 0 where
  pub winners : List Name
  pub distinct : Distinct winners
  pub within : Within members winners
  pub many : length members < length winners + length winners
  pub cast : All (λ w. Cast w t n bs) winners

-- A node knows its name and the size of the mesh; the votes that it counts are a set of other members,
-- and on record once it is a candidate, as its own is; a leader has won.
pub record NodeOk (members : List Name) (n : Name) (bs : List Ballot) (m : Mesh) : Type 0 where
  pub name : m.name ≡ n
  pub size : length m.routes + 1 ≡ length members
  pub sound : IsSound m
  pub set : IsOrdered m.votes
  pub others : All (λ r. text_eq n r ≡ false) m.votes
  pub within : Within members m.votes
  pub stands :
      is_candidate m.role ≡ true
      → All (λ r. Cast r m.hard.term n bs) m.votes × Cast n m.hard.term n bs
  pub leads : is_leader m.role ≡ true → Won members n m.hard.term bs

pub Cast-more :
    (v : Name) (t : ℕ) (x : Name) (new bs : List Ballot) → Cast v t x bs → Cast v t x (new ++ bs)
Cast-more v t x [] bs h = h
Cast-more v t x (b ∷ new) bs h = inr (Cast-more v t x new bs h)

module _ (members : List Name) (n : Name) (new bs : List Ballot) where
  Won-more : (t : ℕ) → Won members n t bs → Won members n t (new ++ bs)
  Won-more t w = record {
    winners = w.winners;
    distinct = w.distinct;
    within = w.within;
    many = w.many;
    cast =
        All-mono (λ x. Cast x t n bs) (λ x. Cast x t n (new ++ bs)) w.winners
          (λ x h. Cast-more x t n new bs h) w.cast;
  }

  -- More votes on record.
  pub NodeOk-more : (m : Mesh) → NodeOk members n bs m → NodeOk members n (new ++ bs) m
  NodeOk-more m ok_m = record {
    name = ok_m.name;
    size = ok_m.size;
    sound = ok_m.sound;
    set = ok_m.set;
    others = ok_m.others;
    within = ok_m.within;
    stands = λ h. (
      All-mono (λ x. Cast x m.hard.term n bs) (λ x. Cast x m.hard.term n (new ++ bs)) m.votes
          (λ x k. Cast-more x m.hard.term n new bs k) (ok_m.stands h).0,
      Cast-more n m.hard.term n new bs (ok_m.stands h).1,
    );
    leads = λ h. Won-more m.hard.term (ok_m.leads h);
  }

  -- A quiet step.
  pub Quiet-NodeOk :
      (m m' : Mesh)
      → NodeOk members n bs m
      → Quiet m m'
      → IsSound m'
      → m'.name ≡ m.name
      → NodeOk members n (new ++ bs) m'
  Quiet-NodeOk m m' ok_m q s e = record {
    name = e ∙ ok_m.name;
    size = ap (λ rs. length rs + 1) q.routes ∙ ok_m.size;
    sound = s;
    set = keeps IsOrdered tt ok_m.set;
    others = keeps (All (λ r. text_eq n r ≡ false)) tt ok_m.others;
    within = keeps (Within members) tt ok_m.within;
    stands = stands_again q.role;
    leads = leads_again q.role;
  }
    where
      more : NodeOk members n (new ++ bs) m
      more = NodeOk-more m ok_m

      keeps : (P : List Route → Type 0) → P [] → P m.votes → P m'.votes
      keeps P z h = go q.votes
        where
          go : (m'.votes ≡ m.votes) ⊎ (m'.votes ≡ []) → P m'.votes
          go (inl v) = subst P (sym v) h
          go (inr v) = subst P (sym v) z

      stands_again :
          (is_idle m'.role ≡ true)
            ⊎ ((m'.role ≡ m.role) × (m'.votes ≡ m.votes) × (m'.hard.term ≡ m.hard.term))
          → is_candidate m'.role ≡ true
          → All (λ r. Cast r m'.hard.term n (new ++ bs)) m'.votes
            × Cast n m'.hard.term n (new ++ bs)
      stands_again (inl i) h = absurd (ground (arith, i, h))
      stands_again (inr k) h =
          let w = more.stands (ap is_candidate (sym k.0) ∙ h) in
          (
            subst (λ t. All (λ r. Cast r t n (new ++ bs)) m'.votes) (sym k.2)
                (subst (All (λ r. Cast r m.hard.term n (new ++ bs))) (sym k.1) w.0),
            subst (λ t. Cast n t n (new ++ bs)) (sym k.2) w.1,
          )

      leads_again :
          (is_idle m'.role ≡ true)
            ⊎ ((m'.role ≡ m.role) × (m'.votes ≡ m.votes) × (m'.hard.term ≡ m.hard.term))
          → is_leader m'.role ≡ true
          → Won members n m'.hard.term (new ++ bs)
      leads_again (inl i) h = absurd (ground (arith, i, h))
      leads_again (inr k) h =
          subst (λ t. Won members n t (new ++ bs)) (sym k.2)
            (more.leads (ap is_leader (sym k.0) ∙ h))
