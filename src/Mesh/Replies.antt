-- ===== src/Mesh/Replies.antt =====
-- What a reply makes of a node of a mesh (`on_vote_reply` of crates/miot-mesh/src/lib.rs).
use akuma_miot.Prelude.{
  ℕ, suc, ◌+◌, ◌/◌, ◌≤◌, ◌<◌, ◌≡◌, refl, subst, true, false, not, ◌&&◌, ◌||◌, Option, some, List,
  [], ◌∷◌, ◌++◌, arith, ltb, ◌==◌, length, if-rule, inl,
}
use akuma_miot.Mesh.Maps.{text_eq, has_member}
use akuma_miot.Mesh.State.{
  Name, Route, VoteRequest, VoteReply, Mesh, is_candidate, is_pre_candidate, reset_deadline,
}
use akuma_miot.Mesh.Clock.{become_leader}
use akuma_miot.Mesh.Votes.{
  on_vote_reply, on_pre_vote, on_real_vote, stand, count_vote, has_quorum, vote_request,
}
use akuma_miot.Mesh.Promises.{adopt_term-Follows}
use akuma_miot.Mesh.Quorums.{All-add, add-IsOrdered, IsOrdered-Distinct}
use akuma_miot.Mesh.Quiet.{adopt_term-Quiet}
use akuma_miot.Mesh.Cluster.{Ballot, Cast, own_vote}
use akuma_miot.Mesh.Members.{NodeOk, Quiet-NodeOk}

module _ (members : List Name) (n : Name) (bs : List Ballot)
    (is_in : has_member n members ≡ true) where
  -- One more vote, which is on record if the node is a candidate.
  count_vote-NodeOk :
      (m : Mesh) (from : Route)
      → NodeOk members n bs m
      → text_eq n from ≡ false
      → has_member from members ≡ true
      → (is_candidate m.role ≡ true → Cast from m.hard.term n bs)
      → NodeOk members n bs (count_vote m from)
  count_vote-NodeOk m from k other known cast = record {
    name = k.name;
    size = k.size;
    sound = k.sound;
    set = add-IsOrdered from m.votes k.set;
    others = All-add (λ r. text_eq n r ≡ false) from m.votes other k.others;
    within = All-add (λ r. has_member r members ≡ true) from m.votes known k.within;
    stands = λ h. (
      All-add (λ r. Cast r m.hard.term n bs) from m.votes (cast h) (k.stands h).0,
      (k.stands h).1,
    );
    leads = k.leads;
  }

  become_leader-NodeOk :
      (m : Mesh) (now : ℕ)
      → NodeOk members n bs m
      → is_candidate m.role ≡ true
      → has_quorum m ≡ true
      → NodeOk members n bs (become_leader m now)
  become_leader-NodeOk m now k c q = record {
    name = k.name;
    size = k.size;
    sound = λ h. cc;
    set = tt;
    others = tt;
    within = tt;
    stands = λ h. cc;
    leads = λ h. record {
      winners = n ∷ m.votes;
      distinct = (k.others, IsOrdered-Distinct m.votes k.set);
      within = (is_in, k.within);
      many = most (length m.votes) (length m.routes) k.size (ground (arith, q));
      cast = ((k.stands c).1, (k.stands c).0);
    };
  }
    where
      most :
          (v r : ℕ)
          → r + 1 ≡ length members
          → (r + 1) / 2 + 1 ≤ v + 1
          → length members < suc v + suc v
      most v r e le = omega (arith, e, le)

  stand-NodeOk :
      (m : Mesh) (now head : ℕ)
      → NodeOk members n bs m
      → NodeOk members n (own_vote n (some (vote_request (stand m now) head)) ++ bs) (stand m now)
  unfolding stand reset_deadline
  stand-NodeOk m now head k = record {
    name = k.name;
    size = k.size;
    sound = λ h. cc;
    set = tt;
    others = tt;
    within = tt;
    stands = λ h. (tt, inl (refl, refl, refl));
    leads = λ h. cc;
  }

  on_pre_vote-NodeOk :
      (m : Mesh) (from : Route) (req : VoteRequest) (now head : ℕ)
      → NodeOk members n bs m
      → text_eq n from ≡ false
      → has_member from members ≡ true
      → NodeOk members n
          (own_vote n (on_pre_vote m from req now head).1 ++ bs)
          (on_pre_vote m from req now head).0
  unfolding on_pre_vote
  on_pre_vote-NodeOk m from req now head k other known =
      if-rule P (not (is_pre_candidate m.role) || not (req.term == m.campaign_term)) _ _ (λ _. k)
        (λ a.
          let k1 = count_vote-NodeOk m from k other known (λ c. absurd (go a c)) in
          if-rule P (has_quorum (count_vote m from)) _ _
            (λ _. stand-NodeOk (count_vote m from) now head k1) (λ _. k1))
    where
      P : Mesh × Option VoteRequest → Type 0
      P r = NodeOk members n (own_vote n r.1 ++ bs) r.0

      go :
          (not (is_pre_candidate m.role) || not (req.term == m.campaign_term)) ≡ false
          → is_candidate m.role ≡ true
          → ⊥
      go a c = ground (arith, a, c)

  on_real_vote-NodeOk :
      (m : Mesh) (from : Route) (req : VoteRequest) (now : ℕ)
      → NodeOk members n bs m
      → text_eq n from ≡ false
      → has_member from members ≡ true
      → Cast from req.term n bs
      → NodeOk members n bs (on_real_vote m from req now)
  unfolding on_real_vote
  on_real_vote-NodeOk m from req now k other known cast =
      if-rule (NodeOk members n bs) (is_candidate m.role && req.term == m.hard.term) _ _
        (λ a.
          let k1 =
            count_vote-NodeOk m from k other known
              (λ c. subst (λ t. Cast from t n bs) (same_term a) cast) in
          if-rule (NodeOk members n bs) (has_quorum (count_vote m from)) _ _
            (λ q. become_leader-NodeOk (count_vote m from) now k1 (stood a) q) (λ _. k1))
        (λ _. k)
    where
      same_term : (is_candidate m.role && req.term == m.hard.term) ≡ true → req.term ≡ m.hard.term
      same_term a = ground (arith, a)

      stood : (is_candidate m.role && req.term == m.hard.term) ≡ true → is_candidate m.role ≡ true
      stood a = ground (arith, a)

  pub on_vote_reply-NodeOk :
      (m : Mesh) (from : Route) (req : VoteRequest) (reply : VoteReply) (now head : ℕ)
      → NodeOk members n bs m
      → text_eq n from ≡ false
      → has_member from members ≡ true
      → (reply.granted ≡ true → req.pre ≡ false → Cast from req.term n bs)
      → NodeOk members n
          (own_vote n (on_vote_reply m from req reply now head).1 ++ bs)
          (on_vote_reply m from req reply now head).0
  unfolding on_vote_reply
  on_vote_reply-NodeOk m from req reply now head k other known cast =
      if-rule P (ltb m.hard.term reply.term) _ _
        (λ h.
          let f = adopt_term-Follows m reply.term now (ground (arith, h)) in
          Quiet-NodeOk members n [] bs m _ k (adopt_term-Quiet m reply.term now) f.sound
            f.same_name)
        (λ _.
          if-rule P (not reply.granted) _ _ (λ _. k)
            (λ g.
              if-rule P req.pre _ _ (λ _. on_pre_vote-NodeOk m from req now head k other known)
                (λ real.
                  on_real_vote-NodeOk m from req now k other known
                    (cast (ground (arith, g)) real))))
    where
      P : Mesh × Option VoteRequest → Type 0
      P r = NodeOk members n (own_vote n r.1 ++ bs) r.0
