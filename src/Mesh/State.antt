-- ===== src/Mesh/State.antt =====
-- The state of a node and the messages of crates/miot-mesh/src/lib.rs. Times are in milliseconds, and
-- every time, term and head is a `u64`.
use akuma_miot.Prelude.{
  ℕ, ◌+◌, ◌*◌, ◌/◌, ◌%◌, ◌^◌, Bool, true, false, Option, none, some, List, [], zero, suc, length,
  if◌then◌else◌, ◌==◌,
}
use akuma_miot.Primitives.Text.{Text}
use akuma_miot.Primitives.Words.{saturating_sub}

abbrev pub u64_max : ℕ
u64_max = 18446744073709551615

-- `+` on a `u64` in a release build.
abbrev pub add_u64 : ℕ → ℕ → ℕ
add_u64 a b = (a + b) % 2 ^ 64

-- `^`, bit by bit, on words of the given width.
unfoldable pub xor : ℕ → ℕ → ℕ → ℕ
xor zero a b = 0
xor (suc n) a b = (a % 2 + b % 2) % 2 + 2 * xor n (a / 2) (b / 2)

abbrev pub Name : Type 0
Name = Text

abbrev pub Route : Type 0
Route = Text

pub data Role : Type 0 where
  follower pre_candidate candidate leader : Role

abbrev pub is_follower : Role → Bool
is_follower Role.follower = true
is_follower _ = false

abbrev pub is_pre_candidate : Role → Bool
is_pre_candidate Role.pre_candidate = true
is_pre_candidate _ = false

abbrev pub is_candidate : Role → Bool
is_candidate Role.candidate = true
is_candidate _ = false

abbrev pub is_leader : Role → Bool
is_leader Role.leader = true
is_leader _ = false

pub record Hard : Type 0 where
  pub term : ℕ
  pub voted_for : Option Name
  pub head_term : ℕ

pub record Status : Type 0 where
  pub name : Name
  pub account : Text
  pub term : ℕ
  pub role : Role
  pub leader : Option Name
  pub head : ℕ
  pub head_term : ℕ

pub record VoteRequest : Type 0 where
  pub term : ℕ
  pub candidate : Name
  pub head : ℕ
  pub head_term : ℕ
  pub pre : Bool

pub record VoteReply : Type 0 where
  pub term : ℕ
  pub granted : Bool

pub record Timing : Type 0 where
  pub election_min_ms : ℕ
  pub election_max_ms : ℕ

abbrev pub default_timing : Timing
default_timing = record { election_min_ms = 4000; election_max_ms = 8000 }

pub record Mesh : Type 0 where
  pub name : Name
  pub routes : List Route
  pub timing : Timing
  pub hard : Hard
  pub hard_dirty : Bool
  pub role : Role
  pub leader : Option Name
  pub leader_route : Option Route
  pub last_leader_contact : Option ℕ
  pub leader_since : ℕ
  pub deadline : ℕ
  pub rng : ℕ
  pub votes : List Route
  pub campaign_term : ℕ
  pub seen : List (Route × (ℕ × Status))
  pub heard : List (Name × (ℕ × Status))
  pub lagging : List (Route × (ℕ × ℕ))
  pub pushed : List Route
  pub learner : Bool

-- The three shifts of xorshift64.
unfoldable pub xorshift : ℕ → ℕ
unfolding xor
xorshift r =
    let r1 = xor 64 r ((r * 2 ^ 13) % 2 ^ 64) in
    let r2 = xor 64 r1 (r1 / 2 ^ 7) in xor 64 r2 ((r2 * 2 ^ 17) % 2 ^ 64)

unfoldable pub reset_deadline : Mesh → ℕ → Mesh
unfolding xorshift
reset_deadline m now =
    let rng = xorshift m.rng in
    let span = add_u64 (saturating_sub m.timing.election_max_ms m.timing.election_min_ms) 1 in
    record m { rng = rng; deadline = add_u64 (add_u64 now m.timing.election_min_ms) (rng % span) }

-- `seed | 1`
abbrev pub odd_seed : ℕ → ℕ
odd_seed seed = if seed % 2 == 0 then seed + 1 else seed

-- `Mesh::new`
unfoldable pub new : Name → List Route → Timing → Hard → ℕ → ℕ → Mesh
unfolding reset_deadline
new name routes timing hard now seed =
    reset_deadline
      (record {
        name = name;
        routes = routes;
        timing = timing;
        hard = hard;
        hard_dirty = false;
        role = Role.follower;
        leader = none;
        leader_route = none;
        last_leader_contact = none;
        leader_since = 0;
        deadline = 0;
        rng = odd_seed seed;
        votes = [];
        campaign_term = 0;
        seen = [];
        heard = [];
        lagging = [];
        pushed = [];
        learner = false;
      })
      now

-- `Mesh::learner`
abbrev pub as_learner : Mesh → Mesh
as_learner m = record m { learner = true }

abbrev pub quorum : Mesh → ℕ
quorum m = (length m.routes + 1) / 2 + 1

-- `take_dirty`: what is to be persisted, if anything changed, and the flag down.
abbrev pub take_dirty : Mesh → Mesh × Option Hard
take_dirty m = (record m { hard_dirty = false }, if m.hard_dirty then some m.hard else none)

abbrev pub status : Mesh → ℕ → Text → Status
status m head account = record {
  name = m.name;
  account = account;
  term = m.hard.term;
  role = m.role;
  leader = m.leader;
  head = head;
  head_term = m.hard.head_term;
}

abbrev pub appended : Mesh → Mesh
appended m =
    if m.hard.head_term == m.hard.term
    then m
    else record m { hard = record m.hard { head_term = m.hard.term }; hard_dirty = true }
