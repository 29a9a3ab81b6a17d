-- ===== src/Mesh/Quiet.antt =====
-- The calls of crates/miot-mesh/src/lib.rs that neither begin nor win a candidacy.
use akuma_miot.Prelude.{
  ℕ, ◌+◌, ◌≡◌, refl, ap, ◌∙◌, Bool, true, false, not, ◌&&◌, ◌||◌, Option, none, some, List, [],
  arith, ltb, leb, ◌==◌, if◌then◌else◌, is_some, holds, ◌⊎◌, inl, inr, if-rule, length,
}
use akuma_miot.Mesh.Maps.{text_eq, text_keys, insert}
use akuma_miot.Mesh.State.{
  Route, Role, Status, VoteRequest, VoteReply, Mesh, is_leader, is_follower, is_candidate, quorum,
  add_u64, reset_deadline, new, appended,
}
use akuma_miot.Mesh.Clock.{step_down, adopt_term, ask, campaign, check_quorum, fresh_names, tick}
use akuma_miot.Mesh.Peers.{follow, note_status, observe, on_status, on_inbound, hear, route_of}
use akuma_miot.Mesh.Sync.{push_targets}
use akuma_miot.Mesh.Votes.{vote, on_vote_request, is_free, up_to_date, leader_alive}
use akuma_miot.Mesh.History.{restarted}

-- Neither a candidate nor the leader.
abbrev pub is_idle : Role → Bool
is_idle r = not (is_candidate r) && not (is_leader r)

-- After the call the node is idle, or its candidacy or its lead is as before; its routes are as before.
pub record Quiet (m m' : Mesh) : Type 0 where
  pub routes : m'.routes ≡ m.routes
  pub votes : (m'.votes ≡ m.votes) ⊎ (m'.votes ≡ [])
  pub role :
      (is_idle m'.role ≡ true)
      ⊎ ((m'.role ≡ m.role) × (m'.votes ≡ m.votes) × (m'.hard.term ≡ m.hard.term))

pub Quiet-refl : (m : Mesh) → Quiet m m
Quiet-refl m = record { routes = refl; votes = inl refl; role = inr (refl, refl, refl) }

Quiet-trans : (m m' m'' : Mesh) → Quiet m m' → Quiet m' m'' → Quiet m m''
Quiet-trans m m' m'' f g = record {
  routes = g.routes ∙ f.routes;
  votes = both g.votes f.votes;
  role = roles g.role f.role;
}
  where
    both :
        (m''.votes ≡ m'.votes) ⊎ (m''.votes ≡ [])
        → (m'.votes ≡ m.votes) ⊎ (m'.votes ≡ [])
        → (m''.votes ≡ m.votes) ⊎ (m''.votes ≡ [])
    both (inr e) v = inr e
    both (inl e) (inl d) = inl (e ∙ d)
    both (inl e) (inr d) = inr (e ∙ d)

    roles :
        (is_idle m''.role ≡ true)
          ⊎ ((m''.role ≡ m'.role) × (m''.votes ≡ m'.votes) × (m''.hard.term ≡ m'.hard.term))
        → (is_idle m'.role ≡ true)
          ⊎ ((m'.role ≡ m.role) × (m'.votes ≡ m.votes) × (m'.hard.term ≡ m.hard.term))
        → (is_idle m''.role ≡ true)
          ⊎ ((m''.role ≡ m.role) × (m''.votes ≡ m.votes) × (m''.hard.term ≡ m.hard.term))
    roles (inl e) v = inl e
    roles (inr e) (inl d) = inl (ap is_idle e.0 ∙ d)
    roles (inr e) (inr d) = inr (e.0 ∙ d.0, e.1 ∙ d.1, e.2 ∙ d.2)

step_down-Quiet : (m : Mesh) (now : ℕ) → Quiet m (step_down m now)
unfolding step_down reset_deadline
step_down-Quiet m now = record { routes = refl; votes = inr refl; role = inl refl }

pub adopt_term-Quiet : (m : Mesh) (term now : ℕ) → Quiet m (adopt_term m term now)
unfolding adopt_term
adopt_term-Quiet m term now =
    if-rule (λ x. Quiet m (step_down x now)) (ltb m.hard.term term) _ m
      (λ _.
        unfold step_down reset_deadline in
        record { routes = refl; votes = inr refl; role = inl refl })
      (λ _. step_down-Quiet m now)

check_quorum-Quiet : (m : Mesh) (now : ℕ) → Quiet m (check_quorum m now)
unfolding check_quorum
check_quorum-Quiet m now =
    if-rule (Quiet m)
      (ltb 1 (quorum m) && leb (add_u64 m.leader_since m.timing.election_min_ms) now) _ m
      (λ _.
        if-rule (Quiet m) (ltb (length (fresh_names m now) + 1) (quorum m)) (step_down m now) m
          (λ _. step_down-Quiet m now) (λ _. Quiet-refl m))
      (λ _. Quiet-refl m)

-- Where there is somebody to ask.
campaign-Quiet :
    (m : Mesh) (now head : ℕ) → (quorum m == 1) ≡ false → Quiet m (campaign m now head).0
unfolding campaign ask reset_deadline
campaign-Quiet m now head more =
    if-rule (λ (r : Mesh × Option VoteRequest). Quiet m r.0) (quorum m == 1) _ _
      (λ one. absurd (ground (arith, one, more)))
      (λ _. record { routes = refl; votes = inr refl; role = inl refl })

pub tick-Quiet : (m : Mesh) (now head : ℕ) → (quorum m == 1) ≡ false → Quiet m (tick m now head).0
unfolding tick
tick-Quiet m now head more =
    if-rule P (is_leader m.role) _ _ (λ _. check_quorum-Quiet m now)
      (λ _.
        if-rule P (m.learner || ltb now m.deadline) _ _ (λ _. Quiet-refl m)
          (λ _. campaign-Quiet m now head more))
  where
    P : Mesh × Option VoteRequest → Type 0
    P r = Quiet m r.0

note_status-Quiet :
    (m : Mesh) (route : Option Route) (st : Status) (now : ℕ) → Quiet m (note_status m route st now)
unfolding note_status follow reset_deadline
note_status-Quiet m route st now =
    if-rule (Quiet m) (is_leader st.role && st.term == m.hard.term && not (is_leader m.role)) _ _
      (λ _. record { routes = refl; votes = inr refl; role = inl refl })
      (λ _.
        if-rule (Quiet m) (holds m.leader st.name && not (is_leader st.role)) _ _
          (λ _. record { routes = refl; votes = inl refl; role = inr (refl, refl, refl) })
          (λ _.
            if-rule (Quiet m)
              (m.learner && not (is_some m.leader) && st.term == m.hard.term && is_follower st.role)
              _ _ (λ _. record { routes = refl; votes = inl refl; role = inr (refl, refl, refl) })
              (λ _. Quiet-refl m)))

catch_up-Quiet :
    (m : Mesh) (term now : ℕ) → Quiet m (if ltb m.hard.term term then adopt_term m term now else m)
catch_up-Quiet m term now =
    if-rule (Quiet m) (ltb m.hard.term term) _ _ (λ _. adopt_term-Quiet m term now)
      (λ _. Quiet-refl m)

observe-Quiet :
    (m : Mesh) (route : Option Route) (st : Status) (now : ℕ) → Quiet m (observe m route st now)
unfolding observe
observe-Quiet m route st now =
    Quiet-trans m (if ltb m.hard.term st.term then adopt_term m st.term now else m) _
      (catch_up-Quiet m st.term now) (note_status-Quiet _ route st now)

-- Another record of what was seen or heard.
noted-Quiet :
    (m m1 m2 : Mesh)
    → m1.routes ≡ m.routes
    → m1.votes ≡ m.votes
    → m1.role ≡ m.role
    → m1.hard.term ≡ m.hard.term
    → Quiet m1 m2
    → Quiet m m2
noted-Quiet m m1 m2 r v o t q =
    Quiet-trans m m1 m2 (record { routes = r; votes = inl v; role = inr (o, v, t) }) q

pub on_status-Quiet :
    (m : Mesh) (from : Route) (st : Status) (now : ℕ)
    → text_eq st.name m.name ≡ false
    → Quiet m (on_status m from st now)
unfolding on_status
on_status-Quiet m from st now other =
    if-rule (Quiet m) (text_eq st.name m.name) _ _ (λ y. absurd (ground (arith, y, other)))
      (λ _.
        noted-Quiet m (record m { seen = insert from (now, st) m.seen }) _ refl refl refl refl
          (observe-Quiet (record m { seen = insert from (now, st) m.seen }) (some from) st now))

hear-Quiet :
    (m : Mesh) (o : Option (Route × (ℕ × Status))) (st : Status) (now : ℕ)
    → Quiet m (hear m o st now)
unfolding hear
hear-Quiet m none st now = observe-Quiet m none st now
hear-Quiet m (some e) st now =
    noted-Quiet m (record m { seen = insert e.0 (now, st) m.seen }) _ refl refl refl refl
      (observe-Quiet (record m { seen = insert e.0 (now, st) m.seen }) (some e.0) st now)

pub on_inbound-Quiet : (m : Mesh) (st : Status) (now : ℕ) → Quiet m (on_inbound m st now)
unfolding on_inbound
on_inbound-Quiet m st now =
    if-rule (Quiet m) (text_eq st.name m.name) _ _ (λ _. Quiet-refl m)
      (λ _.
        noted-Quiet m (record m { heard = insert st.name (now, st) m.heard }) _ refl refl refl refl
          (hear-Quiet (record m { heard = insert st.name (now, st) m.heard }) (route_of st m.seen)
            st now))

vote-Quiet : (m : Mesh) (req : VoteRequest) (now head : ℕ) → Quiet m (vote m req now head).0
unfolding vote reset_deadline
vote-Quiet m req now head =
    if-rule (λ (r : Mesh × VoteReply). Quiet m r.0)
      (is_free m req && up_to_date m req.head_term req.head head) _ _
      (λ _.
        if-rule (λ x. Quiet m (reset_deadline x now)) (holds m.hard.voted_for req.candidate) _ _
          (λ _. record { routes = refl; votes = inl refl; role = inr (refl, refl, refl) })
          (λ _. record { routes = refl; votes = inl refl; role = inr (refl, refl, refl) }))
      (λ _. Quiet-refl m)

pub on_vote_request-Quiet :
    (m : Mesh) (req : VoteRequest) (now head : ℕ) → Quiet m (on_vote_request m req now head).0
unfolding on_vote_request
on_vote_request-Quiet m req now head =
    if-rule P m.learner _ _ (λ _. Quiet-refl m)
      (λ _.
        if-rule P (leader_alive m now || text_eq req.candidate m.name) _ _ (λ _. Quiet-refl m)
          (λ _.
            if-rule P req.pre _ _ (λ _. Quiet-refl m)
              (λ _.
                if-rule P (ltb req.term m.hard.term) _ _ (λ _. Quiet-refl m)
                  (λ _.
                    Quiet-trans m
                      (if ltb m.hard.term req.term then adopt_term m req.term now else m) _
                      (catch_up-Quiet m req.term now) (vote-Quiet _ req now head)))))
  where
    P : Mesh × VoteReply → Type 0
    P r = Quiet m r.0

pub appended-Quiet : (m : Mesh) → Quiet m (appended m)
appended-Quiet m =
    if-rule (Quiet m) (m.hard.head_term == m.hard.term) _ _ (λ _. Quiet-refl m)
      (λ _. record { routes = refl; votes = inl refl; role = inr (refl, refl, refl) })

pub push_targets-Quiet : (m : Mesh) (now head : ℕ) → Quiet m (push_targets m now head).0
unfolding push_targets
push_targets-Quiet m now head =
    if-rule (λ (r : Mesh × List Route). Quiet m r.0) (not (is_leader m.role)) _ _
      (λ _. record { routes = refl; votes = inl refl; role = inr (refl, refl, refl) })
      (λ _. record { routes = refl; votes = inl refl; role = inr (refl, refl, refl) })

pub restarted-Quiet : (m : Mesh) (now seed : ℕ) → Quiet m (restarted m now seed)
unfolding restarted new reset_deadline
restarted-Quiet m now seed = record { routes = refl; votes = inr refl; role = inl refl }
