-- ===== src/Litter.antt =====
-- crates/pallet-litter/src/lib.rs: the task table as the state of a chain, with what is kept around it.
pub mod Maps
pub mod Storage
pub mod Runtime
pub mod Votes
pub mod Calls
pub mod Talk
pub mod Patrons
pub mod Blocks
pub mod Dispatch
pub mod Replica
pub mod Invariant
pub mod Powers
pub mod Examples
