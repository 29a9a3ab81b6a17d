-- ===== src/Mesh/Ballots.antt =====
-- What the votes and the other calls keep over the life of a node of crates/miot-mesh/src/lib.rs, restarts included.
use akuma_miot.Prelude.{
  ℕ, ◌+◌, ◌≤◌, ◌<◌, ◌≡◌, refl, not, ◌&&◌, ◌||◌, Option, List, [], ◌∷◌, arith, ltb, ◌==◌,
  if◌then◌else◌, holds, if-rule,
}
use akuma_miot.Mesh.Maps.{text_eq, text_keys}
use akuma_miot.Mesh.State.{
  Route, VoteRequest, VoteReply, Mesh, is_leader, is_pre_candidate, is_candidate, u64_max,
  reset_deadline, new, appended,
}
use akuma_miot.Mesh.Clock.{adopt_term}
use akuma_miot.Mesh.Sync.{push_targets}
use akuma_miot.Mesh.Votes.{
  vote, on_vote_request, on_vote_reply, on_pre_vote, on_real_vote, stand, count_vote, has_quorum,
  is_free, up_to_date, leader_alive,
}
use akuma_miot.Mesh.History.{Event, restarted, step, run}
use akuma_miot.Mesh.Promises.{
  IsSound, Follows, same-Follows, Follows-refl, Follows-trans, adopt_term-Follows, catch_up-Follows,
  tick-Follows, on_status-Follows, on_inbound-Follows,
}

module _ (m : Mesh) (s : IsSound m) where
  vote-Follows : (req : VoteRequest) (now head : ℕ) → Follows m (vote m req now head).0
  unfolding vote
  vote-Follows req now head =
      if-rule (λ (r : Mesh × VoteReply). Follows m r.0)
        (is_free m req && up_to_date m req.head_term req.head head) _ _
        (λ g.
          if-rule (λ x. Follows m (reset_deadline x now)) (holds m.hard.voted_for req.candidate) _ _
            (λ _. unfold reset_deadline in same-Follows m _ refl refl s)
            (λ n.
              unfold reset_deadline in
              record {
                terms = omega arith;
                votes = λ t c v. ground (arith, g, n, v);
                sound = s;
                same_name = refl;
              }))
        (λ _. Follows-refl m s)

pub on_vote_request-Follows :
    (m : Mesh) (req : VoteRequest) (now head : ℕ)
    → IsSound m
    → Follows m (on_vote_request m req now head).0
unfolding on_vote_request
on_vote_request-Follows m req now head s =
    if-rule P m.learner _ _ (λ _. Follows-refl m s)
      (λ _.
        if-rule P (leader_alive m now || text_eq req.candidate m.name) _ _ (λ _. Follows-refl m s)
          (λ _.
            if-rule P req.pre _ _ (λ _. Follows-refl m s)
              (λ _.
                if-rule P (ltb req.term m.hard.term) _ _ (λ _. Follows-refl m s)
                  (λ _.
                    let f = catch_up-Follows m req.term now s in
                    Follows-trans m
                      (if ltb m.hard.term req.term then adopt_term m req.term now else m) _ f
                      (vote-Follows _ f.sound req now head)))))
  where
    P : Mesh × VoteReply → Type 0
    P r = Follows m r.0

stand-Follows : (m : Mesh) (now : ℕ) → m.campaign_term ≡ m.hard.term + 1 → Follows m (stand m now)
unfolding stand reset_deadline
stand-Follows m now e = record {
  terms = omega arith;
  votes = λ t c v. ground arith;
  sound = λ q. cc;
  same_name = refl;
}

on_pre_vote-Follows :
    (m : Mesh) (from : Route) (req : VoteRequest) (now head : ℕ)
    → IsSound m
    → Follows m (on_pre_vote m from req now head).0
unfolding on_pre_vote
on_pre_vote-Follows m from req now head s =
    if-rule P (not (is_pre_candidate m.role) || not (req.term == m.campaign_term)) _ _
      (λ _. Follows-refl m s)
      (λ a.
        if-rule P (has_quorum (count_vote m from)) _ _
          (λ _.
            let f = stand-Follows (count_vote m from) now (s (ground (arith, a))) in
            record { terms = f.terms; votes = f.votes; sound = f.sound; same_name = f.same_name })
          (λ _. same-Follows m _ refl refl s))
  where
    P : Mesh × Option VoteRequest → Type 0
    P r = Follows m r.0

on_real_vote-Follows :
    (m : Mesh) (from : Route) (req : VoteRequest) (now : ℕ)
    → IsSound m
    → Follows m (on_real_vote m from req now)
unfolding on_real_vote
on_real_vote-Follows m from req now s =
    if-rule (Follows m) (is_candidate m.role && req.term == m.hard.term) _ _
      (λ _.
        if-rule (Follows m) (has_quorum (count_vote m from)) _ _
          (λ _. same-Follows m _ refl refl (λ q. cc)) (λ _. same-Follows m _ refl refl s))
      (λ _. Follows-refl m s)

pub on_vote_reply-Follows :
    (m : Mesh) (from : Route) (req : VoteRequest) (reply : VoteReply) (now head : ℕ)
    → IsSound m
    → Follows m (on_vote_reply m from req reply now head).0
unfolding on_vote_reply
on_vote_reply-Follows m from req reply now head s =
    if-rule P (ltb m.hard.term reply.term) _ _
      (λ h. adopt_term-Follows m reply.term now (ground (arith, h)))
      (λ _.
        if-rule P (not reply.granted) _ _ (λ _. Follows-refl m s)
          (λ _.
            if-rule P req.pre _ _ (λ _. on_pre_vote-Follows m from req now head s)
              (λ _. on_real_vote-Follows m from req now s)))
  where
    P : Mesh × Option VoteRequest → Type 0
    P r = Follows m r.0

appended-Follows : (m : Mesh) → IsSound m → Follows m (appended m)
appended-Follows m s =
    if-rule (Follows m) (m.hard.head_term == m.hard.term) _ _ (λ _. Follows-refl m s)
      (λ _. record { terms = omega arith; votes = λ t c v. v; sound = s; same_name = refl })

push_targets-Follows : (m : Mesh) (now head : ℕ) → IsSound m → Follows m (push_targets m now head).0
unfolding push_targets
push_targets-Follows m now head s =
    if-rule (λ (r : Mesh × List Route). Follows m r.0) (not (is_leader m.role)) _ _
      (λ _. same-Follows m _ refl refl s) (λ _. same-Follows m _ refl refl s)

restarted-Follows : (m : Mesh) (now seed : ℕ) → Follows m (restarted m now seed)
unfolding restarted new reset_deadline
restarted-Follows m now seed = same-Follows m _ refl refl (λ q. cc)

pub step-Follows : (m : Mesh) (e : Event) → IsSound m → m.hard.term < u64_max → Follows m (step m e)
unfolding step
step-Follows m (Event.ticks now head) s lt = tick-Follows m now head s lt
step-Follows m (Event.polled from st now) s lt = on_status-Follows m from st now s
step-Follows m (Event.called st now) s lt = on_inbound-Follows m st now s
step-Follows m (Event.asked req now head) s lt = on_vote_request-Follows m req now head s
step-Follows m (Event.answered from req reply now head) s lt =
    on_vote_reply-Follows m from req reply now head s
step-Follows m Event.appends s lt = appended-Follows m s
step-Follows m (Event.pushes now head) s lt = push_targets-Follows m now head s
step-Follows m Event.persists s lt = same-Follows m _ refl refl s
step-Follows m (Event.restarts now seed) s lt = restarted-Follows m now seed

-- On the way through these events the node's term stays below the largest `u64`.
unfoldable pub TermsFit : Mesh → List Event → Type 0
TermsFit m [] = Unit
TermsFit m (e ∷ es) = (m.hard.term < u64_max) × TermsFit (step m e) es

pub run-Follows : (m : Mesh) (es : List Event) → IsSound m → TermsFit m es → Follows m (run m es)
unfolding run TermsFit
run-Follows m [] s fit = Follows-refl m s
run-Follows m (e ∷ es) s fit =
    let f = step-Follows m e s fit.0 in
    Follows-trans m (step m e) _ f (run-Follows (step m e) es f.sound fit.1)

-- The term of a node never goes back, through whatever calls and restarts, if no term on the way reaches
-- the largest `u64` and the node, as a pre-candidate, asks for the term after its own.
pub run-terms :
    (m : Mesh) (es : List Event) → IsSound m → TermsFit m es → m.hard.term ≤ (run m es).hard.term
run-terms m es s fit = (run-Follows m es s fit).terms
