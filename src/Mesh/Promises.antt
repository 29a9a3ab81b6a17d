-- ===== src/Mesh/Promises.antt =====
-- What the calls of crates/miot-mesh/src/lib.rs keep of the term and the vote of a node.
use akuma_miot.Prelude.{
  ℕ, ◌+◌, ◌≤◌, ◌<◌, ◌≡◌, refl, ◌∙◌, true, not, ◌&&◌, ◌||◌, Option, none, some, [], arith, ltb, leb,
  ◌==◌, if◌then◌else◌, is_some, holds, ◌⊎◌, if-rule, sym, subst, length,
}
use akuma_miot.Mesh.Maps.{insert, text_eq, text_keys}
use akuma_miot.Mesh.State.{
  Name, Route, Hard, Status, VoteRequest, Mesh, is_leader, is_follower, is_pre_candidate, quorum,
  u64_max, add_u64, reset_deadline,
}
use akuma_miot.Mesh.Clock.{step_down, adopt_term, ask, campaign, check_quorum, fresh_names, tick}
use akuma_miot.Mesh.Peers.{follow, note_status, observe, on_status, on_inbound, hear, route_of}

-- A pre-candidate asks for the term after its own.
abbrev pub IsSound : Mesh → Type 0
IsSound m = is_pre_candidate m.role ≡ true → m.campaign_term ≡ m.hard.term + 1

-- The node is past this term, or has its vote in it with this candidate.
abbrev pub HasVoted : ℕ → Name → Mesh → Type 0
HasVoted t c m = (t < m.hard.term) ⊎ ((m.hard.term ≡ t) × (m.hard.voted_for ≡ some c))

-- What every step keeps of `m`: the term is no lower, a vote stands, and a pre-candidate is sound.
pub record Follows (m m' : Mesh) : Type 0 where
  pub terms : m.hard.term ≤ m'.hard.term
  pub votes : (t : ℕ) (c : Name) → HasVoted t c m → HasVoted t c m'
  pub sound : IsSound m'
  pub same_name : m'.name ≡ m.name

pub adopt_term-Follows :
    (m : Mesh) (term now : ℕ) → m.hard.term < term → Follows m (adopt_term m term now)
unfolding adopt_term step_down reset_deadline
adopt_term-Follows m term now h = record {
  terms = ground arith;
  votes = λ t c v. ground arith;
  sound = λ q. ground arith;
  same_name = ground arith;
}

-- A step that leaves the hard state alone.
pub same-Follows : (m m' : Mesh) → m'.hard ≡ m.hard → m'.name ≡ m.name → IsSound m' → Follows m m'
same-Follows m m' e n s = record {
  terms = rw e (omega arith);
  votes = λ t c v.
      subst (λ (h : Hard). (t < h.term) ⊎ ((h.term ≡ t) × (h.voted_for ≡ some c))) (sym e) v;
  sound = s;
  same_name = n;
}

pub Follows-refl : (m : Mesh) → IsSound m → Follows m m
Follows-refl m s = same-Follows m m refl refl s

pub Follows-trans : (m m' m'' : Mesh) → Follows m m' → Follows m' m'' → Follows m m''
Follows-trans m m' m'' f g = record {
  terms = omega (arith, f.terms, g.terms);
  votes = λ t c v. g.votes t c (f.votes t c v);
  sound = g.sound;
  same_name = g.same_name ∙ f.same_name;
}

step_down-Follows : (m : Mesh) (now : ℕ) → Follows m (step_down m now)
unfolding step_down reset_deadline
step_down-Follows m now = same-Follows m (step_down m now) refl refl (λ q. cc)

check_quorum-Follows : (m : Mesh) (now : ℕ) → IsSound m → Follows m (check_quorum m now)
unfolding check_quorum
check_quorum-Follows m now s =
    if-rule (Follows m)
      (ltb 1 (quorum m) && leb (add_u64 m.leader_since m.timing.election_min_ms) now) _ m
      (λ _.
        if-rule (Follows m) (ltb (length (fresh_names m now) + 1) (quorum m)) (step_down m now) m
          (λ _. step_down-Follows m now) (λ _. Follows-refl m s))
      (λ _. Follows-refl m s)

ask-Follows : (m : Mesh) (now head : ℕ) → m.hard.term < u64_max → Follows m (ask m now head).0
unfolding ask
ask-Follows m now head lt =
    if-rule (λ (r : Mesh × Option VoteRequest). Follows m r.0) (quorum m == 1) _ _
      (λ _. record {
        terms = omega arith;
        votes = λ t c v. ground arith;
        sound = λ q. cc;
        same_name = refl;
      })
      (λ _. record {
        terms = omega arith;
        votes = λ t c v. v;
        sound = λ q. omega arith;
        same_name = refl;
      })

campaign-Follows :
    (m : Mesh) (now head : ℕ) → m.hard.term < u64_max → Follows m (campaign m now head).0
unfolding campaign reset_deadline
campaign-Follows m now head lt =
    let f =
      ask-Follows (record (reset_deadline m now) { leader = none; leader_route = none; votes = [] })
        now head lt in
    record { terms = f.terms; votes = f.votes; sound = f.sound; same_name = f.same_name }

pub tick-Follows :
    (m : Mesh) (now head : ℕ) → IsSound m → m.hard.term < u64_max → Follows m (tick m now head).0
unfolding tick
tick-Follows m now head s lt =
    if-rule (λ (r : Mesh × Option VoteRequest). Follows m r.0) (is_leader m.role) _ _
      (λ _. check_quorum-Follows m now s)
      (λ _.
        if-rule (λ (r : Mesh × Option VoteRequest). Follows m r.0) (m.learner || ltb now m.deadline)
          _ _ (λ _. Follows-refl m s) (λ _. campaign-Follows m now head lt))

follow-Follows :
    (m : Mesh) (route : Option Route) (st : Status) (now : ℕ) → Follows m (follow m route st now)
unfolding follow reset_deadline
follow-Follows m route st now = same-Follows m (follow m route st now) refl refl (λ q. cc)

note_status-Follows :
    (m : Mesh) (route : Option Route) (st : Status) (now : ℕ)
    → IsSound m
    → Follows m (note_status m route st now)
unfolding note_status
note_status-Follows m route st now s =
    if-rule (Follows m) (is_leader st.role && st.term == m.hard.term && not (is_leader m.role)) _ _
      (λ _. follow-Follows m route st now)
      (λ _.
        if-rule (Follows m) (holds m.leader st.name && not (is_leader st.role)) _ _
          (λ _. same-Follows m _ refl refl s)
          (λ _.
            if-rule (Follows m)
              (m.learner && not (is_some m.leader) && st.term == m.hard.term && is_follower st.role)
              _ _ (λ _. same-Follows m _ refl refl s) (λ _. Follows-refl m s)))

-- A later term is adopted, and no other.
pub catch_up-Follows :
    (m : Mesh) (term now : ℕ)
    → IsSound m
    → Follows m (if ltb m.hard.term term then adopt_term m term now else m)
catch_up-Follows m term now s =
    if-rule (Follows m) (ltb m.hard.term term) _ _
      (λ h. adopt_term-Follows m term now (ground arith)) (λ _. Follows-refl m s)

observe-Follows :
    (m : Mesh) (route : Option Route) (st : Status) (now : ℕ)
    → IsSound m
    → Follows m (observe m route st now)
unfolding observe
observe-Follows m route st now s =
    let f = catch_up-Follows m st.term now s in
    Follows-trans m (if ltb m.hard.term st.term then adopt_term m st.term now else m) _ f
      (note_status-Follows _ route st now f.sound)

pub on_status-Follows :
    (m : Mesh) (from : Route) (st : Status) (now : ℕ)
    → IsSound m
    → Follows m (on_status m from st now)
unfolding on_status
on_status-Follows m from st now s =
    if-rule (Follows m) (text_eq st.name m.name) _ _ (λ _. same-Follows m _ refl refl s)
      (λ _.
        let m1 = record m { seen = insert from (now, st) m.seen } in
        Follows-trans m m1 _ (same-Follows m m1 refl refl s)
          (observe-Follows m1 (some from) st now s))

hear-Follows :
    (m : Mesh) (o : Option (Route × (ℕ × Status))) (st : Status) (now : ℕ)
    → IsSound m
    → Follows m (hear m o st now)
unfolding hear
hear-Follows m none st now s = observe-Follows m none st now s
hear-Follows m (some e) st now s =
    let m1 = record m { seen = insert e.0 (now, st) m.seen } in
    Follows-trans m m1 _ (same-Follows m m1 refl refl s) (observe-Follows m1 (some e.0) st now s)

pub on_inbound-Follows :
    (m : Mesh) (st : Status) (now : ℕ) → IsSound m → Follows m (on_inbound m st now)
unfolding on_inbound
on_inbound-Follows m st now s =
    if-rule (Follows m) (text_eq st.name m.name) _ _ (λ _. Follows-refl m s)
      (λ _.
        let m1 = record m { heard = insert st.name (now, st) m.heard } in
        Follows-trans m m1 _ (same-Follows m m1 refl refl s)
          (hear-Follows m1 (route_of st m.seen) st now s))
