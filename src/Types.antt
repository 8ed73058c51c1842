-- ===== src/Types.antt =====
-- crates/raftcore/src/types.rs: the messages between nodes and the actions for the event loop.
use ferris_ferry.Prelude.{ℕ, Bool, true, false, Option, List}

pub data RaftState : Type 0 where
  leader follower candidate : RaftState

abbrev pub NodeId : Type 0
NodeId = ℕ

-- `Vec<u8>`
abbrev pub Bytes : Type 0
Bytes = List ℕ

pub record LogEntry : Type 0 where
  pub term : ℕ
  pub command : Bytes

pub record RequestVoteRpc : Type 0 where
  pub term : ℕ
  pub candidate_id : ℕ
  pub last_log_index : ℕ
  pub last_log_term : ℕ

pub record RequestVoteResponseRpc : Type 0 where
  pub id : ℕ
  pub term : ℕ
  pub vote_granted : Bool

pub record AppendEntriesRpc : Type 0 where
  pub term : ℕ
  pub leader_id : NodeId
  pub prev_log_index : ℕ
  pub prev_log_term : ℕ
  pub entries : List LogEntry
  pub leader_commit : ℕ

pub record AppendEntriesResponseRpc : Type 0 where
  pub id : ℕ
  pub term : ℕ
  pub match_index : ℕ
  pub success : Bool
  pub first_conflicting_index : Option ℕ
  pub first_conflicting_term : Option ℕ

pub record SnapshotMetadata : Type 0 where
  pub last_applied : ℕ
  pub last_applied_term : ℕ

pub record InstallSnapshotRpc : Type 0 where
  pub term : ℕ
  pub leader_id : NodeId
  pub last_included_index : ℕ
  pub last_included_term : ℕ
  pub payload : Bytes

pub record InstallSnapshotResponseRpc : Type 0 where
  pub id : NodeId
  pub term : ℕ
  pub last_included_index : ℕ

pub data Message : Type 0 where
  request_vote : RequestVoteRpc → Message
  request_vote_response : RequestVoteResponseRpc → Message
  append_entries : AppendEntriesRpc → Message
  append_entries_response : AppendEntriesResponseRpc → Message
  install_snapshot : InstallSnapshotRpc → Message
  install_snapshot_response : InstallSnapshotResponseRpc → Message

pub data Action : Type 0 where
  send_message : (target : NodeId) → (message : Message) → Action
  apply_to_state_machine : (index : ℕ) → (command : Bytes) → Action
  persist_metadata : (term : ℕ) → (voted_for : Option NodeId) → Action
  persist_log_entries : (start_index : ℕ) → (entries : List LogEntry) → Action
  send_install_snapshot :
      (target : NodeId) → (term last_included_index last_included_term : ℕ) → Action
  install_snapshot : (last_included_index last_included_term : ℕ) → (payload : Bytes) → Action
  read_barrier_ready : (id : ℕ) → Action

abbrev pub is_leader_state : RaftState → Bool
is_leader_state leader = true
is_leader_state _ = false

abbrev pub is_follower_state : RaftState → Bool
is_follower_state follower = true
is_follower_state _ = false

abbrev pub is_candidate_state : RaftState → Bool
is_candidate_state candidate = true
is_candidate_state _ = false
