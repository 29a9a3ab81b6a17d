-- ===== src/Mesh/Clock.antt =====
-- `Mesh::tick` of crates/miot-mesh/src/lib.rs and what it starts: a campaign, or the retreat of a leader
-- that no majority answers any more.
use akuma_miot.Prelude.{
  ℕ, ◌+◌, Bool, true, ◌&&◌, ◌||◌, Option, none, some, List, [], ◌++◌, length, leb, ltb, ◌==◌,
  if◌then◌else◌, keep, map,
}
use akuma_miot.Primitives.Words.{saturating_sub}
use akuma_miot.Mesh.Maps.{values, add_all}
use akuma_miot.Mesh.State.{
  Name, Role, Status, VoteRequest, Mesh, is_leader, quorum, add_u64, reset_deadline,
}

abbrev pub become_leader : Mesh → ℕ → Mesh
become_leader m now = record m {
  lagging = [];
  pushed = [];
  role = Role.leader;
  leader = some m.name;
  leader_route = none;
  leader_since = now;
  last_leader_contact = none;
  votes = [];
}

unfoldable pub step_down : Mesh → ℕ → Mesh
unfolding reset_deadline
step_down m now =
    reset_deadline
      (record m { role = Role.follower; leader = none; leader_route = none; votes = [] }) now

unfoldable pub adopt_term : Mesh → ℕ → ℕ → Mesh
unfolding step_down
adopt_term m term now =
    step_down
      (if ltb m.hard.term term
        then record m { hard = record m.hard { term = term; voted_for = none }; hard_dirty = true }
        else m)
      now

-- `campaign`, after it has let go of the old leader.
unfoldable pub ask : Mesh → ℕ → ℕ → Mesh × Option VoteRequest
ask m now head =
    if quorum m == 1
    then (
      become_leader
          (record m {
            hard = record m.hard { term = add_u64 m.hard.term 1; voted_for = some m.name };
            hard_dirty = true;
          })
          now,
      none,
    )
    else (
      record m { role = Role.pre_candidate; campaign_term = add_u64 m.hard.term 1 },
      some (record {
        term = add_u64 m.hard.term 1;
        candidate = m.name;
        head = head;
        head_term = m.hard.head_term;
        pre = true;
      }),
    )

unfoldable pub campaign : Mesh → ℕ → ℕ → Mesh × Option VoteRequest
unfolding ask reset_deadline
campaign m now head =
    ask (record (reset_deadline m now) { leader = none; leader_route = none; votes = [] }) now head

-- A peer that answered within an election window, in no later term.
abbrev pub is_fresh : Mesh → ℕ → ℕ × Status → Bool
is_fresh m now (at, st) =
    leb (saturating_sub now at) m.timing.election_min_ms && leb st.term m.hard.term

-- The names of those peers, polled or polling, each once.
unfoldable pub fresh_names : Mesh → ℕ → List Name
unfolding add_all keep
fresh_names m now =
    add_all
      (map (λ (e : ℕ × Status). e.1.name) (keep (is_fresh m now) (values m.seen ++ values m.heard)))
      []

-- A leader that sees no majority steps down.
unfoldable pub check_quorum : Mesh → ℕ → Mesh
unfolding fresh_names step_down
check_quorum m now =
    if ltb 1 (quorum m) && leb (add_u64 m.leader_since m.timing.election_min_ms) now
    then (if ltb (length (fresh_names m now) + 1) (quorum m) then step_down m now else m)
    else m

unfoldable pub tick : Mesh → ℕ → ℕ → Mesh × Option VoteRequest
unfolding check_quorum campaign
tick m now head =
    if is_leader m.role
    then (check_quorum m now, none)
    else if m.learner || ltb now m.deadline
    then (m, none)
    else campaign m now head
