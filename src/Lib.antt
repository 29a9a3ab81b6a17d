-- ===== src/Lib.antt =====
-- akuma-miot: the task board of a mesh of agents, and the vocabulary that it shares with them.
--
-- The program keeps a table of tasks on a chain of blocks. A root or the leader opens a parent task;
-- the leader splits it into sub-tasks by a plan; workers claim and answer the sub-tasks; the leader
-- clears or reopens each answer and closes the parent with an artifact. Every verb decides a list of
-- effects and folds it into the table with `apply`; the same fold rebuilds the table on a replica. A
-- tick in each block resolves what is overdue. Nothing of this reads a clock or a network: the block
-- number is an argument of every function here, as it is in the source.
--
-- Files, and the code that each models (paths from the root of the repository):
--   Prelude        tests on native numbers, lists, results with `?` as bind, equality of accounts
--   Primitives     crates/miot-primitives/src/lib.rs: `Words` (u8, u16, u32), `TaskId`,
--                  `Radix` (digits and words), `Ids` (`MessageId::parse` and its `Display`),
--                  `Vocabulary` (the enumerations), `Config` (timers, limits), `Effect`, `Text` (what
--                  the source uses of `str`: byte lengths, character boundaries, lines, trim) and `Title`
--   Tasks          crates/miot-tasks/src/lib.rs: `Table` (`Task`, `TaskTable` and the readers), `Apply`
--                  (`apply`, one row function per arm), `Acts` (`set_leader`, `open`, `plan`, `say`,
--                  `publish_standalone_artifact`, `clear_all`, `reassign`), `Update` (`update` and its
--                  acts), `Tick` and `Gc`. A verb takes the table and gives the table after it with its
--                  effects, or an error and no change, as `Result`. `Rows`, `Statuses`,
--                  `Invariant`, `Replay` and `History` hold what is proved of them
--   Mesh           crates/miot-mesh/src/lib.rs: `Maps` (`BTreeMap`, `BTreeSet` and the order of `String`),
--                  `State` (`Mesh` and the messages), `Clock` (`tick`, `campaign`), `Peers` (`on_status`,
--                  `on_inbound`), `Sync` (`push_targets`, `pull_sources`) and `Votes` (`on_vote_request`,
--                  `on_vote_reply`). `History` has the calls as events, restarts among them; `Promises`,
--                  `Ballots`, `OneVote`, `Learners` and `Sources` hold what is proved
--                  of one node. `Cluster` has a whole mesh with the record of its votes; `Quorums`,
--                  `Quiet`, `Members`, `Replies`, `Safety`, `Elections` and `OneLeader` lead to what is
--                  proved of it. The mesh chooses the node whose
--                  blocks count; the table above runs on the blocks of that node
--   Litter         crates/pallet-litter/src/lib.rs: `Storage` (the storage items, the errors, genesis),
--                  `Runtime` (what the pallet is given), `Calls` (the calls that go through the table),
--                  `Votes`, `Talk` (stats, messages, reactions) and `Patrons`, `Blocks` (`on_initialize`,
--                  `tick_now`, `replay_effect`) and `Dispatch` (the call enum, a block). A call gives the
--                  storage after it and the effects that it deposits, or an error. `Maps` is a
--                  `StorageMap`; `Replica`, `Invariant` and `Powers` hold what is proved
--   Store          crates/miot-store/src/lib.rs: `Bytes` (the keys), `Database` (parity_db as an interface and
--                  its law), `Log` (the operations). `Spec` has the chain that a store stands for, and
--                  `Written`, `Chains`, `Refines`, `Operations`, `Steps`, `Runs` and `Forks` what is proved
--   Kot            crates/kot/src/node.rs: `Queues` (the mempool, the statuses of extrinsics, the hashes that
--                  were handed on), `Readers` (who may read, write and connect), `Feed` (the log that
--                  `/events` answers from) and `Chain` (the open block and the store: `persist`, `advance`,
--                  `compact_at`, `absorb`) with `Chain/Bodies` (a block body, and what FRAME and its codec are
--                  asked for), `Chain/Replays` (`apply_block`, `replay`, `reload_from_store`) and
--                  `Chain/Calls` (`submit`, and the role that the mesh gives). `Sublists`, `QueueBounds`,
--                  `Within`, `Pins`, `Feed/Tail` and its siblings, and the rest of `Chain` hold what is proved
--
-- Numbers: the source's u8, u16, u32 and u64 are natural numbers; casts wrap (`wrap_u16`, `wrap_u32`) and
-- saturating operations saturate, as written. `task.parent + 1` is read as in a release build, where it
-- wraps. `Text` is a list of characters, and its length counts the bytes of its UTF-8 encoding. The loops
-- of the modelled code run over a list, but for two: the cut of a title is recursion on the number, and
-- `hexes` prints at most 16 hexadecimal digits, which is enough for a `u64`, as `xor` with its 64 bits is.
--
-- Not modelled: the network, the disk, the terminal and the web interface, the signature library,
-- the FRAME macros, and the model service; of the crates that hold logic of their own,
-- the rest of the node of kot and its agent; and the parsing of artifact ids. What the pallet calls
-- outside the repository (the signature check, SCALE, Blake2, the providers of the system pallet) is
-- a field of `Runtime`; that FRAME undoes a refused call is what `outcome` says.
mod Prelude
pub mod Primitives
pub mod Tasks
pub mod Mesh
pub mod Litter
pub mod Store
pub mod Kot
