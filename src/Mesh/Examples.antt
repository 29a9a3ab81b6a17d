-- ===== src/Mesh/Examples.antt =====
-- The theorems on elections (crates/miot-mesh/src/lib.rs) at a mesh of three nodes.
use mathlib.Core.List.{Perm}
use akuma_miot.Prelude.{
  ◌+◌, false, if◌then◌else◌, if-rule, length, sym, inl, some, keep, map, ◌≤◌, ◌≡◌, refl, true, none,
  List, [], ◌∷◌, arith,
}
use akuma_miot.Mesh.Clock.{tick, step_down, adopt_term}
use akuma_miot.Mesh.State.{
  Route, xorshift, Status, Name, Role, VoteRequest, VoteReply, Mesh, default_timing, new,
  as_learner, reset_deadline,
}
use akuma_miot.Mesh.Maps.{text_eq_iff, has_member, text_ltb, text_eq, text_keys}
use akuma_miot.Mesh.Cluster.{Cluster, IsFair, Reaches, advance, given}
use akuma_miot.Mesh.OneLeader.{IsFresh, one_leader}
use akuma_miot.Mesh.Votes.{vote, on_vote_request, on_vote_reply, on_pre_vote, stand}
use akuma_miot.Mesh.Sync.{pull_sources}
use akuma_miot.Mesh.Sources.{Heard, is_current, IsRanked, pull_sources-IsRanked}
use akuma_miot.Primitives.Text.{of_string}
use akuma_miot.Mesh.History.{Event, restarted, step, run}
use akuma_miot.Mesh.Ballots.{TermsFit, run-terms}
use akuma_miot.Mesh.OneVote.{one_vote, stands-one_vote}
use akuma_miot.Mesh.Learners.{StaysOut, learner-StaysOut}

abbrev ash : Name
ash = of_string "ash"

abbrev birch : Name
birch = of_string "birch"

abbrev cedar : Name
cedar = of_string "cedar"

abbrev elm : Name
elm = of_string "elm"

abbrev fir : Name
fir = of_string "fir"

abbrev pub node : Mesh
node =
    new ash (birch ∷ cedar ∷ []) default_timing
      (record { term = 4; voted_for = none; head_term = 4 }) 1000 7

abbrev request : VoteRequest
request = record { term = 5; candidate = birch; head = 10; head_term = 4; pre = false }

-- A node that is about to win its pre-vote.
abbrev asking : Mesh
asking = record node { role = Role.pre_candidate; campaign_term = 5 }

abbrev pre_request : VoteRequest
pre_request = record { term = 5; candidate = ash; head = 10; head_term = 4; pre = true }

abbrev yes_reply : VoteReply
yes_reply = record { term = 4; granted = true }

abbrev standing : VoteRequest
standing = record { term = 5; candidate = ash; head = 10; head_term = 4; pre = false }

abbrev self_request : VoteRequest
self_request = record { term = 5; candidate = ash; head = 10; head_term = 4; pre = false }

abbrev events : List Event
events = Event.asked request 9000 10 ∷ Event.restarts 9500 7 ∷ []

run-terms_example : node.hard.term ≤ (run node events).hard.term
unfolding new reset_deadline TermsFit step on_vote_request vote adopt_term step_down text_eq
run-terms_example = run-terms node events (λ q. cc) (omega arith, (omega arith, tt))

one_vote_example : request.candidate ≡ birch
unfolding new reset_deadline TermsFit step on_vote_request vote adopt_term step_down text_eq run
    restarted
one_vote_example =
    one_vote node request 9000 10 (Event.restarts 9500 7 ∷ []) request 9600 10 (λ q. cc)
      (omega arith, tt) refl refl refl refl refl

stands-one_vote_example :
    (on_vote_request
      (run (on_vote_reply asking birch pre_request yes_reply 1100 10).0 events)
      request
      9600
      10).1.granted
    ≡ false
unfolding new reset_deadline TermsFit step on_vote_request on_vote_reply on_pre_vote stand vote
    adopt_term step_down text_eq run restarted
stands-one_vote_example =
    stands-one_vote asking birch pre_request 1100 10 yes_reply standing events request 9600 10
      (λ q. refl) refl (omega arith, (omega arith, tt)) refl refl

learner-StaysOut_example : StaysOut (run (as_learner node) events)
unfolding new reset_deadline
learner-StaysOut_example = learner-StaysOut (as_learner node) events refl refl

abbrev status_of_birch : Status
status_of_birch = record {
  name = birch;
  account = [];
  term = 4;
  role = Role.leader;
  leader = some birch;
  head = 12;
  head_term = 4;
}

-- A follower of it that is behind, one that is ahead, and one of an older term.
abbrev status_of_cedar : Status
status_of_cedar = record status_of_birch { name = cedar; role = Role.follower; head = 9 }

abbrev status_of_elm : Status
status_of_elm = record status_of_birch { name = elm; role = Role.follower; head = 20 }

abbrev status_of_fir : Status
status_of_fir = record status_of_birch { name = fir; term = 3; head = 30 }

-- A learner that has heard them all.
abbrev listener : Mesh
listener = record node {
  learner = true;
  seen =
      (cedar, (2000, status_of_cedar))
      ∷ (fir, (2000, status_of_fir))
      ∷ (elm, (2500, status_of_elm))
      ∷ (birch, (2000, status_of_birch))
      ∷ [];
}

-- The leader, and then the follower that is ahead; not the peer of the older term.
sources_of_listener : pull_sources listener 3000 ≡ birch ∷ elm ∷ cedar ∷ []
unfolding pull_sources new reset_deadline
sources_of_listener = refl

pull_sources-IsRanked_example :
    (ranked : List Heard) × (pull_sources listener 3000 ≡ map (λ (x : Heard). x.0) ranked)
    × IsRanked ranked
    × Perm ranked (keep (is_current listener 3000) listener.seen)
pull_sources-IsRanked_example = pull_sources-IsRanked listener 3000 refl

abbrev members : List Name
members = ash ∷ birch ∷ cedar ∷ []

abbrev member : Name → List Route → Mesh
member name routes =
    new name routes default_timing (record { term = 4; voted_for = none; head_term = 4 }) 1000 7

abbrev start : Cluster
start = record {
  nodes = λ x.
      if text_eq x ash
      then member ash (birch ∷ cedar ∷ [])
      else if text_eq x birch
      then member birch (ash ∷ cedar ∷ [])
      else member cedar (ash ∷ birch ∷ []);
  ballots = [];
}

-- Each member of the start is one of three.
start-all :
    (P : Mesh → Type 0)
    → P (member ash (birch ∷ cedar ∷ []))
    → P (member birch (ash ∷ cedar ∷ []))
    → P (member cedar (ash ∷ birch ∷ []))
    → (n : Name) → P (start.nodes n)
start-all P a b c n =
    if-rule P (text_eq n ash) _ _ (λ _. a) (λ _. if-rule P (text_eq n birch) _ _ (λ _. b) (λ _. c))

start-IsFresh : IsFresh members start
unfolding new reset_deadline has_member
start-IsFresh = record {
  no_ballots = refl;
  names = λ n known.
      if-rule (λ (x : Mesh). x.name ≡ n) (text_eq n ash) _ _ (λ y. sym ((text_eq_iff n ash).0 y))
        (λ a.
          if-rule (λ (x : Mesh). x.name ≡ n) (text_eq n birch) _ _
            (λ y. sym ((text_eq_iff n birch).0 y))
            (λ b. sym ((text_eq_iff n cedar).0 (last n known a b))));
  sizes = λ n known. start-all (λ x. length x.routes + 1 ≡ 3) refl refl refl n;
  roles = λ n known. start-all (λ x. x.role ≡ Role.follower) refl refl refl n;
  no_votes = λ n known. start-all (λ x. x.votes ≡ []) refl refl refl n;
}
  where
    last :
        (n : Name)
        → has_member n members ≡ true
        → text_eq n ash ≡ false
        → text_eq n birch ≡ false
        → text_eq n cedar ≡ true
    last n known a b = ground (arith, known, a, b)

-- ash campaigns, birch grants it a pre-vote and then its vote, and ash leads.
abbrev wakes_up : Event
wakes_up = Event.ticks 100000 10

abbrev is_preferred : Event
is_preferred = Event.answered birch pre_request yes_reply 100100 10

abbrev is_asked : Event
is_asked = Event.asked standing 100200 10

abbrev wins : Event
wins = Event.answered birch standing (record { term = 5; granted = true }) 100300 10

abbrev c1 : Cluster
c1 = advance start ash wakes_up

abbrev c2 : Cluster
c2 = advance c1 ash is_preferred

abbrev c3 : Cluster
c3 = advance c2 birch is_asked

abbrev c4 : Cluster
c4 = advance c3 ash wins

leads_at_last : (c4.nodes ash).role ≡ Role.leader
unfolding advance step tick on_vote_request on_vote_reply new xorshift has_member text_ltb
leads_at_last = refl

history : Reaches members start c4
unfolding advance step tick on_vote_request on_vote_reply new xorshift has_member text_ltb given
    IsFair
history = Reaches.steps start c4 ash wakes_up refl tt (omega arith) (
    Reaches.steps c1 c4 ash is_preferred refl (refl, refl, λ g real. cc) (omega arith)
      (Reaches.steps c2 c4 birch is_asked refl tt (omega arith) (
        Reaches.steps c3 c4 ash wins refl (refl, refl, λ g real. inl (refl, refl, refl))
          (omega arith) (Reaches.stays c4))))

one_leader_example : ash ≡ ash
unfolding advance step tick on_vote_request on_vote_reply new xorshift has_member text_ltb
one_leader_example =
    one_leader members start c4 (omega arith) start-IsFresh history ash ash refl refl refl refl refl
