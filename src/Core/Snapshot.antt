-- ===== src/Core/Snapshot.antt =====
-- Snapshots of crates/raftcore/src/lib.rs: those a node takes, and those a leader sends.
use ferris_ferry.Prelude.{
  ℕ, ◌-◌, some, List, [], ◌∷◌, ltb, leb, eq_option, if◌then◌else◌, length, drop, Result, ok, panic,
  ◌>>=◌, unwrap, wadd, insert,
}
use ferris_ferry.Types.{
  SnapshotMetadata, InstallSnapshotRpc, InstallSnapshotResponseRpc, install_snapshot_response,
  Action, send_message, install_snapshot,
}
use ferris_ferry.Core.State.{Rng, RaftCore, reset_election_timeout, after_term_check, is_leader}
use ferris_ferry.Core.Log.{log_term_at}
use ferris_ferry.Core.Append.{step_down}

unfoldable pub prepare_snapshot : RaftCore → Result SnapshotMetadata
prepare_snapshot c = do
  term ← unwrap (log_term_at c c.last_applied)
  ok (record { last_applied = c.last_applied; last_applied_term = term })

-- `drain(..n)` panics past the end of the log; the subtraction is behind its guard.
unfoldable pub complete_snapshot : RaftCore → SnapshotMetadata → Result RaftCore
complete_snapshot c metadata =
    let n = metadata.last_applied - c.last_included_index in
    if leb metadata.last_applied c.last_included_index
    then ok c
    else if leb n (length c.log)
    then ok (record c {
      log = drop n c.log;
      last_included_index = metadata.last_applied;
      last_included_term = metadata.last_applied_term;
    })
    else panic

abbrev pub snapshot_response : RaftCore → InstallSnapshotRpc → ℕ → Action
snapshot_response c req index = send_message req.leader_id (
    install_snapshot_response
      (record { id = c.id; term = c.current_term; last_included_index = index }))

-- The whole log is replaced by the snapshot.
unfoldable pub load_snapshot : RaftCore → InstallSnapshotRpc → RaftCore
load_snapshot c req = record c {
  log = [];
  last_included_index = req.last_included_index;
  last_included_term = req.last_included_term;
  last_applied = req.last_included_index;
  commit_index = req.last_included_index;
}

-- A snapshot that is not newer, or whose last entry is in the log, changes nothing.
unfoldable pub take_snapshot : RaftCore → InstallSnapshotRpc → RaftCore × List Action
unfolding load_snapshot
take_snapshot c req =
    if leb req.last_included_index c.last_included_index
    then (c, snapshot_response c req c.last_included_index ∷ [])
    else if eq_option (log_term_at c req.last_included_index) (some req.last_included_term)
    then (c, snapshot_response c req req.last_included_index ∷ [])
    else (
      load_snapshot c req,
      install_snapshot req.last_included_index req.last_included_term req.payload
          ∷ snapshot_response c req req.last_included_index
          ∷ [],
    )

-- `handle_install_snapshot` after the check of the message's term
unfoldable pub receive_snapshot :
    Rng → RaftCore → InstallSnapshotRpc → Result (RaftCore × List Action)
unfolding take_snapshot
receive_snapshot rng start req =
    if ltb req.term start.current_term
    then ok (start, snapshot_response start req start.last_included_index ∷ [])
    else (do
      reset ← reset_election_timeout rng 1 (step_down start req.term)
      ok (take_snapshot (record reset { current_leader = some req.leader_id }) req))

unfoldable pub handle_install_snapshot :
    Rng → RaftCore → InstallSnapshotRpc → Result (RaftCore × List Action)
handle_install_snapshot rng c req =
    after_term_check rng c req.term (λ c'. receive_snapshot rng c' req)

unfoldable pub note_snapshot : RaftCore → InstallSnapshotResponseRpc → RaftCore
note_snapshot c resp =
    if is_leader c
    then record c {
      next_index = insert resp.id (wadd resp.last_included_index 1) c.next_index;
      match_index = insert resp.id resp.last_included_index c.match_index;
    }
    else c

unfoldable pub handle_install_snapshot_response :
    Rng → RaftCore → InstallSnapshotResponseRpc → Result (RaftCore × List Action)
unfolding note_snapshot
handle_install_snapshot_response rng c resp =
    after_term_check rng c resp.term (λ c'. ok (note_snapshot c' resp, []))
