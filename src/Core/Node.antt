-- ===== src/Core/Node.antt =====
-- The public methods of `RaftCore` (crates/raftcore/src/lib.rs) as one step function, and the histories
-- of a node.
pub mod Votes
use ferris_ferry.Prelude.{ℕ, ◌≤◌, ◌≡◌, List, [], Result, ok, ◌>>=◌, unwrap_or}
use ferris_ferry.Types.{
  Bytes, SnapshotMetadata, Message, request_vote, request_vote_response, append_entries,
  append_entries_response, install_snapshot, install_snapshot_response, Action,
}
use ferris_ferry.Core.State.{Rng, RaftCore}
use ferris_ferry.Core.Replicate.{propose}
use ferris_ferry.Core.Election.{tick, handle_request_vote, handle_request_vote_response}
use ferris_ferry.Core.Append.{handle_append_entries}
use ferris_ferry.Core.Commit.{handle_append_entries_response, request_read_barrier}
use ferris_ferry.Core.Snapshot.{
  complete_snapshot, handle_install_snapshot, handle_install_snapshot_response,
}

-- the `match` of the event loop's `handle_message`
unfoldable pub receive : Rng → RaftCore → Message → Result (RaftCore × List Action)
receive rng c (request_vote req) = handle_request_vote rng c req
receive rng c (request_vote_response resp) = handle_request_vote_response rng c resp
receive rng c (append_entries req) = handle_append_entries rng c req
receive rng c (append_entries_response resp) = handle_append_entries_response rng c resp
receive rng c (install_snapshot req) = handle_install_snapshot rng c req
receive rng c (install_snapshot_response resp) = handle_install_snapshot_response rng c resp

pub data Input : Type 0 where
  ticked : Input
  proposed : Bytes → Input
  received : Message → Input
  read_requested : Input
  snapshot_stored : SnapshotMetadata → Input

unfoldable pub step : Rng → RaftCore → Input → Result (RaftCore × List Action)
step rng c ticked = tick rng c
step rng c (proposed command) = do result ← propose c command; ok (result.0, unwrap_or result.1 [])
step rng c (received message) = receive rng c message
step rng c read_requested = ok ((request_read_barrier c).0, [])
step rng c (snapshot_stored metadata) = do c' ← complete_snapshot c metadata; ok (c', [])

-- A node's history: inputs in any order, with any draws, each handled without a panic, and each met at
-- a term of at most `limit`.
pub data Reach (limit : ℕ) (c : RaftCore) : RaftCore → Type 0 where
  here : Reach limit c c
  next :
      {c₁ c₂ : RaftCore} (rng : Rng) (input : Input) (actions : List Action)
      → Reach limit c c₁
      → c₁.current_term ≤ limit
      → step rng c₁ input ≡ ok (c₂, actions)
      → Reach limit c c₂
