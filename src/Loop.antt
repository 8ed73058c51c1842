-- ===== src/Loop.antt =====
-- `RaftDriver` of crates/raft-event-loop/src/lib.rs with its types (types.rs): one node's core, its
-- storage, and the clients that wait. The storage engine is an interface. Sends of the transport, to the
-- application and to clients are traces in the order they are made; a client is a number.
pub mod Tickets
pub mod Channels
pub mod Requests
pub mod Writes
pub mod Snapshots
pub mod Restart
use ferris_ferry.Prelude.{
  ℕ, Option, none, some, List, [], ◌∷◌, ◌++◌, Bool, true, false, not, ◌&&◌, leb, if◌then◌else◌,
  unwrap_or, is_empty, Result, ok, ◌>>=◌, unwrap, wadd, lookup, insert, remove, values, map,
}
use ferris_ferry.Types.{
  NodeId, Bytes, LogEntry, SnapshotMetadata, Message, request_vote, request_vote_response,
  append_entries, append_entries_response, install_snapshot, Action, send_message,
  apply_to_state_machine, persist_metadata, persist_log_entries, send_install_snapshot,
  read_barrier_ready,
}
use ferris_ferry.Core.State.{Range, RaftCore, Rng, new, restore, restore_with_snapshot, is_leader}
use ferris_ferry.Core.Replicate.{propose}
use ferris_ferry.Core.Election.{tick}
use ferris_ferry.Core.Commit.{request_read_barrier}
use ferris_ferry.Core.Snapshot.{prepare_snapshot, complete_snapshot}
use ferris_ferry.Core.Node.{receive}

pub record PersistedMetadata : Type 0 where
  pub term : ℕ
  pub voted_for : Option NodeId

pub record Snapshot : Type 0 where
  pub last_included_index : ℕ
  pub last_included_term : ℕ
  pub payload : Bytes

pub data ProposalError : Type 0 where
  follower_node : (leader : Option NodeId) → ProposalError
  lost_leadership : ProposalError
  other_error : ProposalError

-- `Result<(), ProposalError>`
pub data Answer : Type 0 where
  accepted : Answer
  refused : ProposalError → Answer

pub data AppliedEntry : Type 0 where
  applied_command : Bytes → AppliedEntry
  applied_snapshot : Bytes → AppliedEntry
  applied_snapshot_request : AppliedEntry

-- `trait Storage` over a state `S`. The driver unwraps every error, so that an `Err` is a panic here.
pub record Storage (S : Type 0) : Type 0 where
  pub store_metadata : S → PersistedMetadata → Result S
  pub restore_metadata : S → Result (Option PersistedMetadata)
  pub store_log_entries : S → ℕ → List LogEntry → Result S
  pub restore_log_entries : S → Result (Option (List LogEntry))
  pub store_snapshot : S → Snapshot → Result S
  pub truncate_log : S → Result S
  pub retrieve_snapshot_bytes : S → Result Bytes
  pub restore_snapshot : S → Result (Option Snapshot)

-- `RaftConfig`, less the transport and the storage
pub record RaftConfig : Type 0 where
  pub id : NodeId
  pub nodes : List NodeId
  pub heartbeat_interval : Option ℕ
  pub election_range : Range
  pub snapshot_threshold : ℕ

pub record RaftDriver (S : Type 0) : Type 0 where
  pub id : NodeId
  pub core : RaftCore
  pub pending_proposals : List (ℕ × ℕ)
  pub pending_reads : List (ℕ × ℕ)
  pub num_entries : ℕ
  pub snapshot_threshold : ℕ
  pub storage : S
  pub sent : List (NodeId × Message)
  pub applied : List AppliedEntry
  pub answers : List (ℕ × Answer)

-- what each client of a map is told when the leadership is lost
abbrev pub lost : List (ℕ × ℕ) → List (ℕ × Answer)
lost pending = map (λ client. (client, refused lost_leadership)) (values pending)

module _ {S : Type 0} where
  abbrev pub send : RaftDriver S → NodeId → Message → RaftDriver S
  send d target message = record d { sent = d.sent ++ (target, message) ∷ [] }

  abbrev pub deliver : RaftDriver S → AppliedEntry → RaftDriver S
  deliver d entry = record d { applied = d.applied ++ entry ∷ [] }

  abbrev pub respond : RaftDriver S → ℕ → Answer → RaftDriver S
  respond d client result = record d { answers = d.answers ++ (client, result) ∷ [] }

  -- `if let Some(channel) = self.pending_proposals.remove(&index)`
  abbrev pub notify_proposal : RaftDriver S → ℕ → Option ℕ → RaftDriver S
  notify_proposal d index none = d
  notify_proposal d index (some client) =
      respond (record d { pending_proposals = remove index d.pending_proposals }) client accepted

  unfoldable pub resolve_proposal : RaftDriver S → ℕ → RaftDriver S
  resolve_proposal d index = notify_proposal d index (lookup index d.pending_proposals)

  abbrev pub notify_read : RaftDriver S → ℕ → Option ℕ → RaftDriver S
  notify_read d id none = d
  notify_read d id (some client) =
      respond (record d { pending_reads = remove id d.pending_reads }) client accepted

  unfoldable pub resolve_read : RaftDriver S → ℕ → RaftDriver S
  resolve_read d id = notify_read d id (lookup id d.pending_reads)

  -- `drain()` of both maps: every client that waits is told that the leadership is lost.
  unfoldable pub drain_pending : RaftDriver S → RaftDriver S
  drain_pending d = record d {
    pending_proposals = [];
    pending_reads = [];
    answers = d.answers ++ (lost d.pending_proposals ++ lost d.pending_reads);
  }

  abbrev pub wait_proposal : RaftDriver S → Option ℕ → ℕ → RaftDriver S
  wait_proposal d none client = d
  wait_proposal d (some index) client = record d {
    pending_proposals = insert index client d.pending_proposals;
  }

  abbrev pub refuse : RaftDriver S → ℕ → RaftDriver S
  refuse d client = respond d client (refused (follower_node d.core.current_leader))

  abbrev pub after_read_request : RaftDriver S → Option ℕ → ℕ → RaftDriver S
  after_read_request d none client = refuse d client
  after_read_request d (some read_id) client = record d {
    pending_reads = insert read_id client d.pending_reads;
  }

  unfoldable pub on_read_request : RaftDriver S → ℕ → RaftDriver S
  on_read_request d client =
      let r = request_read_barrier d.core in after_read_request (record d { core = r.0 }) r.1 client

-- The index of the first `PersistLogEntries`.
unfoldable pub proposal_index : List Action → Option ℕ
proposal_index [] = none
proposal_index (persist_log_entries start_index entries ∷ rest) = some start_index
proposal_index (_ ∷ rest) = proposal_index rest

-- `application sent` is the state that the application answers to a snapshot request with, after all
-- that it was sent.
module _ {S : Type 0} (io : Storage S) (application : List AppliedEntry → Bytes) where
  unfoldable pub snapshot_application : RaftDriver S → Result (RaftDriver S)
  snapshot_application d = do
    let asked = deliver d applied_snapshot_request
    metadata ← prepare_snapshot asked.core
    stored ← io.store_snapshot asked.storage (record {
      last_included_index = metadata.last_applied;
      last_included_term = metadata.last_applied_term;
      payload = application asked.applied;
    })
    core ← complete_snapshot asked.core metadata
    cleared ← io.truncate_log stored
    ok (record asked { core = core; storage = cleared; num_entries = 0 })

  -- A command is delivered: one more since the last snapshot.
  unfoldable pub count_command : RaftDriver S → Result (RaftDriver S)
  unfolding snapshot_application
  count_command d =
      let counted = record d { num_entries = wadd d.num_entries 1 } in
      if leb counted.snapshot_threshold counted.num_entries
      then snapshot_application counted
      else ok counted

  unfoldable pub apply_command : RaftDriver S → ℕ → Bytes → Result (RaftDriver S)
  unfolding resolve_proposal count_command
  apply_command d index command =
      let resolved = resolve_proposal d index in
      if is_empty command
      then ok resolved
      else count_command (deliver resolved (applied_command command))

  unfoldable pub handle_action : RaftDriver S → Action → Result (RaftDriver S)
  unfolding apply_command resolve_read
  handle_action d (send_message target message) = ok (send d target message)
  handle_action d (persist_metadata term voted_for) = do
    s ← io.store_metadata d.storage (record { term = term; voted_for = voted_for })
    ok (record d { storage = s })
  handle_action d (persist_log_entries start_index entries) = do
    s ← io.store_log_entries d.storage start_index entries
    ok (record d { storage = s })
  handle_action d (install_snapshot index index_term payload) = do
    stored ←
        io.store_snapshot d.storage (record {
          last_included_index = index;
          last_included_term = index_term;
          payload = payload;
        })
    cleared ← io.truncate_log stored
    ok (record (deliver d (applied_snapshot payload)) { storage = cleared })
  handle_action d (send_install_snapshot target term index index_term) = do
    payload ← io.retrieve_snapshot_bytes d.storage
    ok (
        send d target (
          install_snapshot (record {
            term = term;
            leader_id = d.id;
            last_included_index = index;
            last_included_term = index_term;
            payload = payload;
          })))
  handle_action d (apply_to_state_machine index command) = apply_command d index command
  handle_action d (read_barrier_ready id) = ok (resolve_read d id)

  -- `for action in actions { self.handle_action(action).await; }`
  unfoldable pub handle_actions : RaftDriver S → List Action → Result (RaftDriver S)
  handle_actions d [] = ok d
  handle_actions d (action ∷ rest) = do d' ← handle_action d action; handle_actions d' rest

  unfoldable pub handle_message : Rng → RaftDriver S → Message → Result (RaftDriver S)
  handle_message rng d msg = do
    r ← receive rng d.core msg
    handle_actions (record d { core = r.0 }) r.1

  -- the arms of `select!` in `event_loop`
  unfoldable pub on_interval : Rng → RaftDriver S → Result (RaftDriver S)
  on_interval rng d = do r ← tick rng d.core; handle_actions (record d { core = r.0 }) r.1

  abbrev pub after_proposal : RaftDriver S → Option (List Action) → ℕ → Result (RaftDriver S)
  after_proposal d none client = ok (refuse d client)
  after_proposal d (some actions) client =
      handle_actions (wait_proposal d (proposal_index actions) client) actions

  unfoldable pub on_proposal : RaftDriver S → Bytes → ℕ → Result (RaftDriver S)
  on_proposal d command client = do
    r ← propose d.core command
    after_proposal (record d { core = r.0 }) r.1 client

  unfoldable pub on_message : Rng → RaftDriver S → Message → Result (RaftDriver S)
  unfolding drain_pending
  on_message rng d msg = do
    d' ← handle_message rng d msg
    ok (if is_leader d.core && not (is_leader d'.core) then drain_pending d' else d')

-- the three restored parts, of which a snapshot needs the other two
module _ (rng : Rng) (config : RaftConfig) where
  unfoldable pub restore_core :
      Option Snapshot → Option PersistedMetadata → Option (List LogEntry) → Result RaftCore
  restore_core (some snapshot) metadata entries = do
    m ← unwrap metadata
    es ← unwrap entries
    restore_with_snapshot rng config.id config.nodes config.heartbeat_interval config.election_range
        m.term m.voted_for es snapshot.last_included_index snapshot.last_included_term
  restore_core none (some m) entries =
      restore rng config.id config.nodes config.heartbeat_interval config.election_range m.term
        m.voted_for (unwrap_or entries [])
  restore_core none none entries =
      new rng config.id config.nodes config.heartbeat_interval config.election_range

  -- `RaftDriver::new`
  unfoldable pub start : {S : Type 0} → Storage S → S → Result (RaftDriver S)
  unfolding restore_core
  start io storage = do
    snapshot ← io.restore_snapshot storage
    metadata ← io.restore_metadata storage
    entries ← io.restore_log_entries storage
    core ← restore_core snapshot metadata entries
    ok (record {
      id = config.id;
      core = core;
      pending_proposals = [];
      pending_reads = [];
      num_entries = 0;
      snapshot_threshold = config.snapshot_threshold;
      storage = storage;
      sent = [];
      applied = [];
      answers = [];
    })
