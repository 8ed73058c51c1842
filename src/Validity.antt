-- ===== src/Validity.antt =====
-- When a node (`RaftCore` of crates/raftcore/src/lib.rs) is well formed. The modules below show that its
-- methods keep it so and do not panic.
pub mod Election
pub mod Append
pub mod Commit
pub mod Snapshot
pub mod Step
use ferris_ferry.Prelude.{ℕ, ◌+◌, ◌≤◌, ◌<◌, ◌≡◌, length}
use ferris_ferry.Core.State.{RaftCore}
use ferris_ferry.Core.Log.Bounds.{HasRoom}

-- The range of election timeouts is not empty; what the snapshot holds is applied, what is committed is
-- exactly what is applied, and it is in the log; and the index after the last one is a `u64`.
pub record IsValid (c : RaftCore) : Type 0 where
  pub range : c.election_timeout_range.start < c.election_timeout_range.end
  pub included : c.last_included_index ≤ c.last_applied
  pub applied : c.last_applied ≡ c.commit_index
  pub committed : c.commit_index ≤ c.last_included_index + length c.log
  pub room : HasRoom c 1
