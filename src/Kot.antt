-- ===== src/Kot.antt =====
-- crates/kot: the node that serves a cat, and what the agent beside it does to files and texts.
pub mod Queues
pub mod Sublists
pub mod QueueBounds
pub mod Within
pub mod Readers
pub mod Pins
pub mod Feed
pub mod Chain
pub mod Examples
