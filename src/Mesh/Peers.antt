-- ===== src/Mesh/Peers.antt =====
-- What a peer's status means (crates/miot-mesh/src/lib.rs): `on_status`, `on_inbound`, `observe` and
-- `accepts_push_from`.
use akuma_miot.Prelude.{
  ℕ, Bool, not, ◌&&◌, ◌||◌, Option, none, some, List, [], ltb, ◌==◌, if◌then◌else◌, is_some, keep,
  find, holds,
}
use akuma_miot.Mesh.Maps.{text_eq, text_keys, insert}
use akuma_miot.Mesh.State.{Route, Role, Status, Mesh, is_leader, is_follower, reset_deadline}
use akuma_miot.Mesh.Clock.{adopt_term}

-- A live leader of this term is followed, by the route to it unless that would lose one.
unfoldable pub follow : Mesh → Option Route → Status → ℕ → Mesh
unfolding reset_deadline text_eq
follow m route st now =
    reset_deadline
      (record m {
        role = Role.follower;
        votes = [];
        leader_route =
            if not (holds m.leader st.name) || is_some route then route else m.leader_route;
        leader = some st.name;
        last_leader_contact = some now;
      })
      now

-- `observe`, once the term is not behind.
unfoldable pub note_status : Mesh → Option Route → Status → ℕ → Mesh
unfolding follow text_eq
note_status m route st now =
    if is_leader st.role && st.term == m.hard.term && not (is_leader m.role)
    then follow m route st now
    else if holds m.leader st.name && not (is_leader st.role)
    then record m { leader = none; leader_route = none }
    else if m.learner && not (is_some m.leader) && st.term == m.hard.term && is_follower st.role
    then record m { leader = st.leader }
    else m

unfoldable pub observe : Mesh → Option Route → Status → ℕ → Mesh
unfolding note_status adopt_term
observe m route st now =
    note_status (if ltb m.hard.term st.term then adopt_term m st.term now else m) route st now

unfoldable pub on_status : Mesh → Route → Status → ℕ → Mesh
unfolding observe insert text_eq keep
on_status m from st now =
    if text_eq st.name m.name
    then record m { routes = keep (λ r. not (text_eq r from)) m.routes }
    else observe (record m { seen = insert from (now, st) m.seen }) (some from) st now

-- The route on which this peer has answered, if there is one.
unfoldable pub route_of : Status → List (Route × (ℕ × Status)) → Option (Route × (ℕ × Status))
unfolding find text_eq
route_of st seen = find (λ e. text_eq e.1.1.name st.name) seen

unfoldable pub hear : Mesh → Option (Route × (ℕ × Status)) → Status → ℕ → Mesh
unfolding observe insert
hear m (some e) st now = observe (record m { seen = insert e.0 (now, st) m.seen }) (some e.0) st now
hear m none st now = observe m none st now

unfoldable pub on_inbound : Mesh → Status → ℕ → Mesh
unfolding hear route_of insert text_eq
on_inbound m st now =
    if text_eq st.name m.name
    then m
    else hear (record m { heard = insert st.name (now, st) m.heard }) (route_of st m.seen) st now

unfoldable pub accepts_push_from : Mesh → Status → Bool
unfolding text_eq
accepts_push_from m st =
    not (is_leader m.role) && is_leader st.role && st.term == m.hard.term && holds m.leader st.name
