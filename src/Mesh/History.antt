-- ===== src/Mesh/History.antt =====
-- What happens to a node of crates/miot-mesh/src/lib.rs over time: the calls that `kot`'s node makes, one
-- after the other, and restarts, after which only the hard state is left.
use akuma_miot.Prelude.{ℕ, List, [], ◌∷◌}
use akuma_miot.Mesh.State.{Route, Status, VoteRequest, VoteReply, Mesh, new, take_dirty, appended}
use akuma_miot.Mesh.Clock.{tick}
use akuma_miot.Mesh.Peers.{on_status, on_inbound}
use akuma_miot.Mesh.Sync.{push_targets}
use akuma_miot.Mesh.Votes.{on_vote_request, on_vote_reply}

-- One constructor for each method that may change a node.
pub data Event : Type 0 where
  ticks : (now head : ℕ) → Event
  polled : (from : Route) (st : Status) (now : ℕ) → Event
  called : (st : Status) (now : ℕ) → Event
  asked : (req : VoteRequest) (now head : ℕ) → Event
  answered : (from : Route) (req : VoteRequest) (reply : VoteReply) (now head : ℕ) → Event
  appends : Event
  pushes : (now head : ℕ) → Event
  persists : Event
  restarts : (now seed : ℕ) → Event

-- The node after a restart, with the same configuration.
unfoldable pub restarted : Mesh → ℕ → ℕ → Mesh
unfolding new
restarted m now seed = record (new m.name m.routes m.timing m.hard now seed) { learner = m.learner }

unfoldable pub step : Mesh → Event → Mesh
unfolding tick on_status on_inbound on_vote_request on_vote_reply push_targets restarted
step m (Event.ticks now head) = (tick m now head).0
step m (Event.polled from st now) = on_status m from st now
step m (Event.called st now) = on_inbound m st now
step m (Event.asked req now head) = (on_vote_request m req now head).0
step m (Event.answered from req reply now head) = (on_vote_reply m from req reply now head).0
step m Event.appends = appended m
step m (Event.pushes now head) = (push_targets m now head).0
step m Event.persists = (take_dirty m).0
step m (Event.restarts now seed) = restarted m now seed

unfoldable pub run : Mesh → List Event → Mesh
unfolding step
run m [] = m
run m (e ∷ es) = run (step m e) es
