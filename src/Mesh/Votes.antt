-- ===== src/Mesh/Votes.antt =====
-- `Mesh::on_vote_request` and `Mesh::on_vote_reply` of crates/miot-mesh/src/lib.rs.
use akuma_miot.Prelude.{
  ℕ, ◌+◌, Bool, true, false, not, ◌&&◌, ◌||◌, Option, none, some, [], length, leb, ltb, ◌==◌,
  if◌then◌else◌, is_some, is_some_and, holds,
}
use akuma_miot.Mesh.Maps.{text_eq, text_keys, add}
use akuma_miot.Mesh.State.{
  Route, Role, VoteRequest, VoteReply, Mesh, is_leader, is_candidate, is_pre_candidate, quorum,
  add_u64, reset_deadline,
}
use akuma_miot.Mesh.Clock.{become_leader, adopt_term}

-- `(head_term, head) >= (self.hard.head_term, my_head)`
abbrev pub up_to_date : Mesh → ℕ → ℕ → ℕ → Bool
up_to_date m head_term head my_head =
    ltb m.hard.head_term head_term || (head_term == m.hard.head_term && leb my_head head)

abbrev pub deny : Mesh → VoteReply
deny m = record { term = m.hard.term; granted = false }

-- A leader that was heard within the minimal election timeout, or this node itself.
abbrev pub leader_alive : Mesh → ℕ → Bool
leader_alive m now =
    is_leader m.role
    || (is_some_and (λ t. ltb now (add_u64 t m.timing.election_min_ms)) m.last_leader_contact
        && is_some m.leader)

-- `voted_for` is free for this candidate, or has it already.
abbrev pub is_free : Mesh → VoteRequest → Bool
is_free m req = if is_some m.hard.voted_for then holds m.hard.voted_for req.candidate else true

-- The vote itself, in a term that is not behind.
unfoldable pub vote : Mesh → VoteRequest → ℕ → ℕ → Mesh × VoteReply
unfolding reset_deadline text_eq
vote m req now head =
    if is_free m req && up_to_date m req.head_term req.head head
    then (
      reset_deadline
          (if holds m.hard.voted_for req.candidate then m else record m {
            hard = record m.hard { voted_for = some req.candidate };
            hard_dirty = true;
          })
          now,
      record { term = m.hard.term; granted = true },
    )
    else (m, deny m)

unfoldable pub on_vote_request : Mesh → VoteRequest → ℕ → ℕ → Mesh × VoteReply
unfolding vote adopt_term text_eq
on_vote_request m req now head =
    if m.learner
    then (m, deny m)
    else if leader_alive m now || text_eq req.candidate m.name
    then (m, deny m)
    else if req.pre
    then (
      m,
      record {
        term = m.hard.term;
        granted = ltb m.hard.term req.term && up_to_date m req.head_term req.head head;
      },
    )
    else if ltb req.term m.hard.term
    then (m, deny m)
    else vote (if ltb m.hard.term req.term then adopt_term m req.term now else m) req now head

-- The vote of one more route.
abbrev pub count_vote : Mesh → Route → Mesh
count_vote m from = record m { votes = add from m.votes }

-- Enough pre-votes: the real campaign, in the next term, with the vote for itself.
unfoldable pub stand : Mesh → ℕ → Mesh
unfolding reset_deadline
stand m now =
    reset_deadline
      (record m {
        hard = record m.hard { term = m.campaign_term; voted_for = some m.name };
        hard_dirty = true;
        role = Role.candidate;
        votes = [];
      })
      now

abbrev pub vote_request : Mesh → ℕ → VoteRequest
vote_request m head = record {
  term = m.hard.term;
  candidate = m.name;
  head = head;
  head_term = m.hard.head_term;
  pre = false;
}

-- `self.votes.len() + 1 >= self.quorum()`
abbrev pub has_quorum : Mesh → Bool
has_quorum m = leb (quorum m) (length m.votes + 1)

unfoldable pub on_pre_vote : Mesh → Route → VoteRequest → ℕ → ℕ → Mesh × Option VoteRequest
unfolding stand add
on_pre_vote m from req now head =
    if not (is_pre_candidate m.role) || not (req.term == m.campaign_term)
    then (m, none)
    else (let m1 = count_vote m from in
        if has_quorum m1
        then (let m2 = stand m1 now in (m2, some (vote_request m2 head)))
        else (m1, none))

unfoldable pub on_real_vote : Mesh → Route → VoteRequest → ℕ → Mesh
unfolding add
on_real_vote m from req now =
    if is_candidate m.role && req.term == m.hard.term
    then (let m1 = count_vote m from in if has_quorum m1 then become_leader m1 now else m1)
    else m

unfoldable pub on_vote_reply :
    Mesh → Route → VoteRequest → VoteReply → ℕ → ℕ → Mesh × Option VoteRequest
unfolding adopt_term on_pre_vote on_real_vote
on_vote_reply m from req reply now head =
    if ltb m.hard.term reply.term
    then (adopt_term m reply.term now, none)
    else if not reply.granted
    then (m, none)
    else if req.pre
    then on_pre_vote m from req now head
    else (on_real_vote m from req now, none)
