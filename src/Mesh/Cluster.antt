-- ===== src/Mesh/Cluster.antt =====
-- A whole mesh of nodes of crates/miot-mesh/src/lib.rs: each node makes its own steps, and every vote that
-- was ever given is on record.
use akuma_miot.Prelude.{
  ℕ, ◌<◌, ◌≡◌, Bool, true, false, not, ◌&&◌, Option, none, some, List, [], ◌∷◌, ◌++◌, if◌then◌else◌,
  ◌⊎◌,
}
use akuma_miot.Mesh.Maps.{text_eq, has_member}
use akuma_miot.Mesh.State.{Name, VoteRequest, Mesh, u64_max}
use akuma_miot.Mesh.Votes.{on_vote_request, on_vote_reply}
use akuma_miot.Mesh.History.{Event, step}

-- A vote: who gave it, in which term, to whom.
pub record Ballot : Type 0 where
  pub voter : Name
  pub term : ℕ
  pub candidate : Name

-- This vote is on record.
abbrev pub Cast : Name → ℕ → Name → List Ballot → Type 0
Cast v t c [] = ⊥
Cast v t c (b ∷ bs) = ((b.voter ≡ v) × (b.term ≡ t) × (b.candidate ≡ c)) ⊎ Cast v t c bs

pub record Cluster : Type 0 where
  pub nodes : Name → Mesh
  pub ballots : List Ballot

abbrev pub put : Name → Mesh → (Name → Mesh) → Name → Mesh
put n m nodes x = if text_eq x n then m else nodes x

abbrev pub one_if : Bool → Ballot → List Ballot
one_if true b = b ∷ []
one_if false b = []

-- A node that stands votes for itself.
abbrev pub own_vote : Name → Option VoteRequest → List Ballot
own_vote n none = []
own_vote n (some out) = record { voter = n; term = out.term; candidate = n } ∷ []

-- The votes that a node gives in one step.
unfoldable pub given : Name → Mesh → Event → List Ballot
unfolding on_vote_request on_vote_reply
given n m (Event.asked req now head) =
    one_if ((on_vote_request m req now head).1.granted && not req.pre)
      (record { voter = n; term = req.term; candidate = req.candidate })
given n m (Event.answered from req reply now head) =
    own_vote n (on_vote_reply m from req reply now head).1
given n m _ = []

-- What the network and the clock may bring to a node: no status of its own, and no vote that was not
-- given, by another member, in answer to its own request.
unfoldable pub IsFair : List Name → Name → List Ballot → Event → Type 0
IsFair members n bs (Event.polled from st now) = text_eq st.name n ≡ false
IsFair members n bs (Event.answered from req reply now head) =
    (text_eq n from ≡ false)
    × (has_member from members ≡ true)
    × (reply.granted ≡ true → req.pre ≡ false → Cast from req.term n bs)
IsFair members n bs _ = Unit

unfoldable pub advance : Cluster → Name → Event → Cluster
unfolding step given
advance c n e = record {
  nodes = put n (step (c.nodes n) e) c.nodes;
  ballots = given n (c.nodes n) e ++ c.ballots;
}

-- Histories of the mesh: one node after the other makes a step.
pub data Reaches (members : List Name) : Cluster → Cluster → Type 0 where
  stays : (c : Cluster) → Reaches members c c
  steps :
      (c d : Cluster) (n : Name) (e : Event)
      → has_member n members ≡ true
      → IsFair members n c.ballots e
      → (c.nodes n).hard.term < u64_max
      → Reaches members (advance c n e) d
      → Reaches members c d
