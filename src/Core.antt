-- ===== src/Core.antt =====
-- crates/raftcore/src/lib.rs: the sans-I/O state machine, a module for each group of its methods.
pub mod State
pub mod Log
pub mod Replicate
pub mod Election
pub mod Append
pub mod Commit
pub mod Snapshot
pub mod Applies
pub mod Node
