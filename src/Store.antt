-- ===== src/Store.antt =====
-- crates/miot-store/src/lib.rs: the blocks of the chain on disk, with the state at the last compaction.
pub mod Bytes
pub mod Database
pub mod Log
pub mod Spec
pub mod Written
pub mod Chains
pub mod Refines
pub mod Operations
pub mod Steps
pub mod Runs
pub mod Forks
pub mod Examples
