-- ===== src/Core/Replicate.antt =====
-- `propose`, `heartbeat` and what a leader sends, of crates/raftcore/src/lib.rs.
pub mod Frame
pub mod Build
use ferris_ferry.Prelude.{
  ℕ, ◌-◌, Option, none, some, List, [], ◌∷◌, ◌++◌, true, false, ltb, leb, if◌then◌else◌, unwrap_or,
  Result, ok, ◌>>=◌, map_result, wadd, lookup, insert,
}
use ferris_ferry.Types.{
  NodeId, Bytes, LogEntry, Action, send_message, send_install_snapshot, persist_log_entries,
  append_entries,
}
use ferris_ferry.Core.State.{RaftCore, is_leader}
use ferris_ferry.Core.Log.{last_log_index, log_term_at, log_slice}

unfoldable pub install_snapshot_for_peer : RaftCore → NodeId → Action
install_snapshot_for_peer c peer =
    send_install_snapshot peer c.current_term c.last_included_index c.last_included_term

abbrev pub peer_next_index : RaftCore → NodeId → ℕ
peer_next_index c peer = unwrap_or (lookup peer c.next_index) (last_log_index c)

abbrev pub peer_prev_log_index : RaftCore → NodeId → ℕ
peer_prev_log_index c peer = let next = peer_next_index c peer in if ltb 0 next then next - 1 else 0

-- The `AppendEntries` for a peer whose preceding entry has a known term.
unfoldable pub append_entries_message : RaftCore → NodeId → ℕ → Result Action
append_entries_message c peer prev_log_term = do
  entries ← log_slice c (peer_next_index c peer) (wadd (last_log_index c) 1)
  ok (
      send_message peer (
        append_entries (record {
          term = c.current_term;
          leader_id = c.id;
          prev_log_index = peer_prev_log_index c peer;
          prev_log_term = prev_log_term;
          entries = entries;
          leader_commit = c.commit_index;
        })))

unfoldable pub build_append_entries_for_peer : RaftCore → NodeId → Result Action
unfolding append_entries_message install_snapshot_for_peer
build_append_entries_for_peer c peer = elim (log_term_at c (peer_prev_log_index c peer)) [
  | none ↦ ok (install_snapshot_for_peer c peer)
  | some prev_log_term ↦ append_entries_message c peer prev_log_term
]

-- `append_entries` of `RaftCore`, which sends to every peer
unfoldable pub append_entries_to_peers : RaftCore → Result (List Action)
append_entries_to_peers c = map_result (build_append_entries_for_peer c) c.peers

unfoldable pub push_entry : RaftCore → LogEntry → RaftCore
push_entry c entry = record c { log = c.log ++ entry ∷ [] }

-- The leader appends an entry, and sends it to every peer.
unfoldable pub append_proposal : RaftCore → LogEntry → Result (RaftCore × Option (List Action))
unfolding push_entry
append_proposal c entry = do
  let c' = record (push_entry c entry) { ticks_since_last_heartbeat = 0 }
  entries ← log_slice c' (last_log_index c') (wadd (last_log_index c') 1)
  sent ← append_entries_to_peers c'
  ok (c', some (persist_log_entries (last_log_index c') entries ∷ sent))

unfoldable pub propose : RaftCore → Bytes → Result (RaftCore × Option (List Action))
unfolding append_proposal
propose c command =
    if is_leader c
    then append_proposal c (record { term = c.current_term; command = command })
    else ok (c, none)

unfoldable pub heartbeat : RaftCore → Result (RaftCore × List Action)
heartbeat c =
    if leb c.heartbeat_interval c.ticks_since_last_heartbeat
    then (do
      actions ← append_entries_to_peers c
      ok (record c { ticks_since_last_heartbeat = 0 }, actions))
    else ok (c, [])

-- `for id in &self.peers { next_index.insert(..); match_index.insert(..) }`
unfoldable pub track_peers : ℕ → List NodeId → RaftCore → RaftCore
track_peers next [] c = c
track_peers next (id ∷ ids) c =
    track_peers next ids (record c {
      next_index = insert id next c.next_index;
      match_index = insert id 0 c.match_index;
    })

unfoldable pub initialize_leader_state : RaftCore → Result (RaftCore × Action)
unfolding push_entry track_peers
initialize_leader_state c = do
  let pushed = push_entry c (record { term = c.current_term; command = [] })
  let c' = track_peers (wadd (last_log_index pushed) 1) pushed.peers pushed
  entries ← log_slice c' (last_log_index c') (wadd (last_log_index c') 1)
  ok (c', persist_log_entries (last_log_index c') entries)
