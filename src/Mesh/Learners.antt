-- ===== src/Mesh/Learners.antt =====
-- Learners, the non-voting nodes of crates/miot-mesh/src/lib.rs.
use akuma_miot.Prelude.{
  ℕ, ◌≡◌, refl, true, false, not, ◌&&◌, ◌||◌, Option, none, some, List, [], ◌∷◌, arith, ltb, ◌==◌,
  if◌then◌else◌, if-rule, ap, subst, sym, Bool-cases, inl, inr,
}
use akuma_miot.Mesh.Maps.{text_eq, text_keys, insert}
use akuma_miot.Mesh.State.{
  Route, Role, Status, VoteRequest, VoteReply, Mesh, is_leader, is_pre_candidate, is_candidate,
  reset_deadline, new,
}
use akuma_miot.Mesh.Clock.{step_down, adopt_term, tick}
use akuma_miot.Mesh.Peers.{follow, note_status, observe, on_status, on_inbound, hear, route_of}
use akuma_miot.Mesh.Sync.{push_targets}
use akuma_miot.Mesh.Votes.{on_vote_request, on_vote_reply, on_pre_vote, on_real_vote, deny}
use akuma_miot.Mesh.History.{Event, restarted, step, run}

-- A learner that only follows.
abbrev pub IsLearner : Mesh → Type 0
IsLearner m = (m.learner ≡ true) × (m.role ≡ Role.follower)

adopt_term-IsLearner : (m : Mesh) (term now : ℕ) → IsLearner m → IsLearner (adopt_term m term now)
unfolding adopt_term step_down reset_deadline
adopt_term-IsLearner m term now l = ground (arith, l)

note_status-IsLearner :
    (m : Mesh) (route : Option Route) (st : Status) (now : ℕ)
    → IsLearner m
    → IsLearner (note_status m route st now)
unfolding note_status follow reset_deadline
note_status-IsLearner m route st now l = ground (arith, l)

observe-IsLearner :
    (m : Mesh) (route : Option Route) (st : Status) (now : ℕ)
    → IsLearner m
    → IsLearner (observe m route st now)
unfolding observe
observe-IsLearner m route st now l = note_status-IsLearner _ route st now (
    if-rule IsLearner (ltb m.hard.term st.term) (adopt_term m st.term now) m
      (λ _. adopt_term-IsLearner m st.term now l) (λ _. l))

on_status-IsLearner :
    (m : Mesh) (from : Route) (st : Status) (now : ℕ)
    → IsLearner m
    → IsLearner (on_status m from st now)
unfolding on_status
on_status-IsLearner m from st now l =
    if-rule IsLearner (text_eq st.name m.name) _ _ (λ _. l)
      (λ _.
        observe-IsLearner (record m { seen = insert from (now, st) m.seen }) (some from) st now l)

hear-IsLearner :
    (m : Mesh) (o : Option (Route × (ℕ × Status))) (st : Status) (now : ℕ)
    → IsLearner m
    → IsLearner (hear m o st now)
unfolding hear
hear-IsLearner m none st now l = observe-IsLearner m none st now l
hear-IsLearner m (some e) st now l =
    observe-IsLearner (record m { seen = insert e.0 (now, st) m.seen }) (some e.0) st now l

on_inbound-IsLearner :
    (m : Mesh) (st : Status) (now : ℕ) → IsLearner m → IsLearner (on_inbound m st now)
unfolding on_inbound
on_inbound-IsLearner m st now l =
    if-rule IsLearner (text_eq st.name m.name) _ _ (λ _. l)
      (λ _.
        hear-IsLearner (record m { heard = insert st.name (now, st) m.heard }) (route_of st m.seen)
          st now l)

module _ (m : Mesh) (l : IsLearner m) where
  learner-tick : (now head : ℕ) → tick m now head ≡ (m, none)
  unfolding tick
  learner-tick now head =
      if-rule (λ (r : Mesh × Option VoteRequest). r ≡ (m, none)) (is_leader m.role) _ _
        (λ h. absurd (leads h))
        (λ _.
          if-rule (λ (r : Mesh × Option VoteRequest). r ≡ (m, none))
            (m.learner || ltb now m.deadline) _ _ (λ _. refl) (λ n. absurd (follows n)))
    where
      leads : is_leader m.role ≡ true → ⊥
      leads h = let q = l.1 in cc

      follows : (m.learner || ltb now m.deadline) ≡ false → ⊥
      follows n = let q = l.0 in ground (arith, q, n)

  learner-request :
      (req : VoteRequest) (now head : ℕ) → on_vote_request m req now head ≡ (m, deny m)
  unfolding on_vote_request
  learner-request req now head =
      if-rule (λ (r : Mesh × VoteReply). r ≡ (m, deny m)) m.learner _ _ (λ _. refl)
        (λ n. absurd (go n))
    where
      go : m.learner ≡ false → ⊥
      go n = let q = l.0 in cc

  learner-pre_vote :
      (from : Route) (req : VoteRequest) (now head : ℕ)
      → on_pre_vote m from req now head ≡ (m, none)
  unfolding on_pre_vote
  learner-pre_vote from req now head =
      if-rule (λ (r : Mesh × Option VoteRequest). r ≡ (m, none))
        (not (is_pre_candidate m.role) || not (req.term == m.campaign_term)) _ _ (λ _. refl)
        (λ n. absurd (go n))
    where
      go : (not (is_pre_candidate m.role) || not (req.term == m.campaign_term)) ≡ false → ⊥
      go n = let q = l.1 in ground (arith, q, n)

  learner-real_vote : (from : Route) (req : VoteRequest) (now : ℕ) → on_real_vote m from req now ≡ m
  unfolding on_real_vote
  learner-real_vote from req now =
      if-rule (λ x. ◌≡◌ {A = Mesh} x m) (is_candidate m.role && req.term == m.hard.term) _ _
        (λ y. absurd (go y)) (λ _. refl)
    where
      go : (is_candidate m.role && req.term == m.hard.term) ≡ true → ⊥
      go y = let q = l.1 in ground (arith, q, y)

  -- A reply may only bring a learner into a later term.
  learner-reply :
      (from : Route) (req : VoteRequest) (reply : VoteReply) (now head : ℕ)
      → on_vote_reply m from req reply now head
        ≡ (if ltb m.hard.term reply.term then adopt_term m reply.term now else m, none)
  unfolding on_vote_reply
  learner-reply from req reply now head = elim (Bool-cases (ltb m.hard.term reply.term)) [
    | inl y ↦ rw y
    | inr n ↦ rw n (
        if-rule P (not reply.granted) _ _ (λ _. refl)
          (λ _.
            if-rule P req.pre _ _ (λ _. learner-pre_vote from req now head)
              (λ _. ap (λ x. (x, none)) (learner-real_vote from req now))))
  ]
    where
      P : Mesh × Option VoteRequest → Type 0
      P r = r ≡ (m, none)

step-IsLearner : (m : Mesh) (e : Event) → IsLearner m → IsLearner (step m e)
unfolding step push_targets restarted new reset_deadline
step-IsLearner m (Event.ticks now head) l =
    subst (λ (r : Mesh × Option VoteRequest). IsLearner r.0) (sym (learner-tick m l now head)) l
step-IsLearner m (Event.polled from st now) l = on_status-IsLearner m from st now l
step-IsLearner m (Event.called st now) l = on_inbound-IsLearner m st now l
step-IsLearner m (Event.asked req now head) l =
    subst (λ (r : Mesh × VoteReply). IsLearner r.0) (sym (learner-request m l req now head)) l
step-IsLearner m (Event.answered from req reply now head) l =
    subst (λ (r : Mesh × Option VoteRequest). IsLearner r.0)
      (sym (learner-reply m l from req reply now head))
      (if-rule IsLearner (ltb m.hard.term reply.term) (adopt_term m reply.term now) m
        (λ _. adopt_term-IsLearner m reply.term now l) (λ _. l))
step-IsLearner m Event.appends l =
    if-rule IsLearner (m.hard.head_term == m.hard.term) _ _ (λ _. l) (λ _. l)
step-IsLearner m (Event.pushes now head) l =
    if-rule (λ (r : Mesh × List Route). IsLearner r.0) (not (is_leader m.role)) _ _ (λ _. l)
      (λ _. l)
step-IsLearner m Event.persists l = l
step-IsLearner m (Event.restarts now seed) l = (l.0, refl)

run-IsLearner : (m : Mesh) (es : List Event) → IsLearner m → IsLearner (run m es)
unfolding run
run-IsLearner m [] l = l
run-IsLearner m (e ∷ es) l = run-IsLearner (step m e) es (step-IsLearner m e l)

-- What a learner does at a moment: it is a follower, grants no vote, and asks for none.
pub record StaysOut (m : Mesh) : Type 0 where
  pub role : m.role ≡ Role.follower
  pub grants_none :
      (req : VoteRequest) (now head : ℕ) → (on_vote_request m req now head).1.granted ≡ false
  pub asks_none : (now head : ℕ) → (tick m now head).1 ≡ none
  pub stands_never :
      (from : Route) (req : VoteRequest) (reply : VoteReply) (now head : ℕ)
      → (on_vote_reply m from req reply now head).1 ≡ none

IsLearner-StaysOut : (m : Mesh) → IsLearner m → StaysOut m
IsLearner-StaysOut m l = record {
  role = l.1;
  grants_none =
      λ req now head. ap (λ (r : Mesh × VoteReply). r.1.granted) (learner-request m l req now head);
  asks_none = λ now head. ap (λ (r : Mesh × Option VoteRequest). r.1) (learner-tick m l now head);
  stands_never = λ from req reply now head.
      ap (λ (r : Mesh × Option VoteRequest). r.1) (learner-reply m l from req reply now head);
}

-- A learner stays out of every election: whatever calls and restarts it goes through, it is a follower,
-- grants no vote, and asks for none, so it never leads.
pub learner-StaysOut :
    (m : Mesh) (es : List Event) → m.learner ≡ true → m.role ≡ Role.follower → StaysOut (run m es)
learner-StaysOut m es l r = IsLearner-StaysOut (run m es) (run-IsLearner m es (l, r))
