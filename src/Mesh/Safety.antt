-- ===== src/Mesh/Safety.antt =====
-- The steps of a member of a mesh, fair ones, and what they keep of it (crates/miot-mesh/src/lib.rs).
use akuma_miot.Prelude.{
  ℕ, ◌+◌, ◌/◌, ◌≤◌, ◌<◌, ◌≡◌, refl, sym, subst, true, false, some, List, [], ◌++◌, arith, ◌==◌,
  length, inl, inr,
}
use akuma_miot.Mesh.Maps.{text_eq, has_member}
use akuma_miot.Mesh.State.{Name, Route, VoteRequest, VoteReply, Mesh, reset_deadline, u64_max}
use akuma_miot.Mesh.Votes.{on_vote_reply, on_pre_vote, stand}
use akuma_miot.Mesh.History.{Event, step}
use akuma_miot.Mesh.Promises.{IsSound}
use akuma_miot.Mesh.Ballots.{step-Follows}
use akuma_miot.Mesh.Quiet.{
  Quiet, tick-Quiet, on_status-Quiet, on_inbound-Quiet, on_vote_request-Quiet, appended-Quiet,
  push_targets-Quiet, restarted-Quiet,
}
use akuma_miot.Mesh.Cluster.{Ballot, given, IsFair}
use akuma_miot.Mesh.Members.{NodeOk, Quiet-NodeOk}
use akuma_miot.Mesh.Replies.{on_vote_reply-NodeOk}

module _ (members : List Name) (two : 2 ≤ length members) (n : Name)
    (is_in : has_member n members ≡ true) where
  not_alone : (r : ℕ) → r + 1 ≡ length members → ((r + 1) / 2 + 1 == 1) ≡ false
  not_alone r e = ground (arith, two, e)

  -- A fair step of a node that is in order leaves it in order.
  pub step-NodeOk :
      (bs : List Ballot) (m : Mesh) (e : Event)
      → NodeOk members n bs m
      → IsFair members n bs e
      → m.hard.term < u64_max
      → NodeOk members n (given n m e ++ bs) (step m e)
  unfolding given step IsFair
  step-NodeOk bs m (Event.answered from req reply now head) k (other, known, cast) lt =
      on_vote_reply-NodeOk members n bs is_in m from req reply now head k other known cast
  step-NodeOk bs m (Event.ticks now head) k fair lt =
      quiet (Event.ticks now head) (tick-Quiet m now head (not_alone (length m.routes) k.size))
    where
      quiet : (e : Event) → Quiet m (step m e) → NodeOk members n (given n m e ++ bs) (step m e)
      quiet e q =
          let f = step-Follows m e k.sound lt in
          Quiet-NodeOk members n (given n m e) bs m (step m e) k q f.sound f.same_name
  step-NodeOk bs m (Event.polled from st now) k fair lt =
      let f = step-Follows m (Event.polled from st now) k.sound lt in
      Quiet-NodeOk members n [] bs m (step m (Event.polled from st now)) k
        (on_status-Quiet m from st now (subst (λ x. text_eq st.name x ≡ false) (sym k.name) fair))
        f.sound f.same_name
  step-NodeOk bs m (Event.called st now) k fair lt =
      let f = step-Follows m (Event.called st now) k.sound lt in
      Quiet-NodeOk members n [] bs m (step m (Event.called st now)) k (on_inbound-Quiet m st now)
        f.sound f.same_name
  step-NodeOk bs m (Event.asked req now head) k fair lt =
      let f = step-Follows m (Event.asked req now head) k.sound lt in
      Quiet-NodeOk members n (given n m (Event.asked req now head)) bs m
        (step m (Event.asked req now head)) k (on_vote_request-Quiet m req now head) f.sound
        f.same_name
  step-NodeOk bs m Event.appends k fair lt =
      let f = step-Follows m Event.appends k.sound lt in
      Quiet-NodeOk members n [] bs m (step m Event.appends) k (appended-Quiet m) f.sound f.same_name
  step-NodeOk bs m (Event.pushes now head) k fair lt =
      let f = step-Follows m (Event.pushes now head) k.sound lt in
      Quiet-NodeOk members n [] bs m (step m (Event.pushes now head)) k
        (push_targets-Quiet m now head) f.sound f.same_name
  step-NodeOk bs m Event.persists k fair lt =
      let f = step-Follows m Event.persists k.sound lt in
      Quiet-NodeOk members n [] bs m (step m Event.persists) k
        (record { routes = refl; votes = inl refl; role = inr (refl, refl, refl) }) f.sound
        f.same_name
  step-NodeOk bs m (Event.restarts now seed) k fair lt =
      let f = step-Follows m (Event.restarts now seed) k.sound lt in
      Quiet-NodeOk members n [] bs m (step m (Event.restarts now seed)) k
        (restarted-Quiet m now seed) f.sound f.same_name

-- The vote of a step is this node's, and the node holds to it.
module _ (n : Name) (m : Mesh) (is_n : m.name ≡ n) where
  pre_vote-term :
      (from : Route) (req : VoteRequest) (now head : ℕ) (out : VoteRequest)
      → IsSound m
      → (on_pre_vote m from req now head).1 ≡ some out
      → out.term ≡ m.hard.term + 1
  unfolding on_pre_vote stand reset_deadline
  pre_vote-term from req now head out s q = ground (arith, q, s)

  pub stands-term :
      (from : Route) (req : VoteRequest) (reply : VoteReply) (now head : ℕ) (out : VoteRequest)
      → IsSound m
      → (on_vote_reply m from req reply now head).1 ≡ some out
      → out.term ≡ m.hard.term + 1
  unfolding on_vote_reply
  stands-term from req reply now head out s q =
      ground (arith, q, pre_vote-term from req now head out s)
