-- ===== src/Mesh.antt =====
-- crates/miot-mesh/src/lib.rs: the election of the node that produces blocks, as a state machine with
-- no clock and no network of its own.
pub mod Maps
pub mod State
pub mod Clock
pub mod Peers
pub mod Sync
pub mod Votes
pub mod History
pub mod Promises
pub mod Ballots
pub mod OneVote
pub mod Learners
pub mod Sources
pub mod Quorums
pub mod Quiet
pub mod Cluster
pub mod Members
pub mod Replies
pub mod Safety
pub mod Elections
pub mod OneLeader
pub mod Examples
