-- ===== src/Tasks.antt =====
-- crates/miot-tasks/src/lib.rs: the task lifecycle as a state machine. The definitions stand in
-- `Table`, `Apply`, `Acts`, `Update`, `Tick` and `Gc`; what is proved of them in the other modules.
pub mod Table
pub mod Apply
pub mod Acts
pub mod Update
pub mod Tick
pub mod Gc
pub mod Rows
pub mod Statuses
pub mod Invariant
pub mod Replay
pub mod History
mod Examples
