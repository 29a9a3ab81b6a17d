-- ===== src/Primitives.antt =====
-- crates/miot-primitives/src/lib.rs: the vocabulary that the task machine, the pallet and the agents
-- share. Each part has a module of its own, passed on from here.
pub mod Words
pub mod TaskId
pub mod Radix
pub mod Ids
pub mod Vocabulary
pub mod Config
pub mod Effect
pub mod Text
pub mod Title
mod Examples
