-- ===== src/Core/State.antt =====
-- `struct RaftCore` of crates/raftcore/src/lib.rs, its constructors and its clock. A draw of
-- `rng.random_range(range)` is an argument: `rng n start end` is the n-th draw of a method's call.
pub mod Rules
use ferris_ferry.Prelude.{
  ℕ, Bool, Option, none, some, List, [], ◌∷◌, ◌++◌, ltb, ◌==◌, if◌then◌else◌, unwrap_or, Result, ok,
  panic, ◌>>=◌,
}
use ferris_ferry.Types.{
  RaftState, follower, NodeId, LogEntry, Action, persist_metadata, is_leader_state,
}

-- `Range<u64>`
pub record Range : Type 0 where
  pub start : ℕ
  pub end : ℕ

pub record RaftCore : Type 0 where
  pub id : NodeId
  pub peers : List NodeId
  pub state : RaftState
  pub current_term : ℕ
  pub voted_for : Option NodeId
  pub log : List LogEntry
  pub commit_index : ℕ
  pub last_applied : ℕ
  pub current_leader : Option NodeId
  pub next_index : List (NodeId × ℕ)
  pub match_index : List (NodeId × ℕ)
  pub votes_received : List NodeId
  pub last_included_index : ℕ
  pub last_included_term : ℕ
  pub ticks_since_last_heartbeat : ℕ
  pub election_timeout_range : Range
  pub election_timeout : ℕ
  pub heartbeat_interval : ℕ
  pub append_entries_count : ℕ
  pub next_read_barrier_id : ℕ
  pub read_barriers : List (ℕ × ℕ)

abbrev pub Rng : Type 0
Rng = ℕ → ℕ → ℕ → ℕ

abbrev pub default_heartbeat : ℕ
default_heartbeat = 5

-- `nodes.iter().filter(|x| **x != id)`
unfoldable pub other_nodes : NodeId → List NodeId → List NodeId
other_nodes id [] = []
other_nodes id (x ∷ xs) = let rest = other_nodes id xs in if x == id then rest else x ∷ rest

-- `random_range` panics on an empty range.
unfoldable pub random_range : Rng → ℕ → Range → Result ℕ
random_range rng n r = if ltb r.start r.end then ok (rng n r.start r.end) else panic

unfoldable pub new : Rng → NodeId → List NodeId → Option ℕ → Range → Result RaftCore
new rng id nodes heartbeat_interval election_range = do
  election_timeout ← random_range rng 0 election_range
  ok (record {
    id = id;
    peers = other_nodes id nodes;
    state = follower;
    current_term = 0;
    voted_for = none;
    log = [];
    commit_index = 0;
    last_applied = 0;
    current_leader = none;
    next_index = [];
    match_index = [];
    votes_received = [];
    last_included_index = 0;
    last_included_term = 0;
    ticks_since_last_heartbeat = 0;
    election_timeout_range = election_range;
    election_timeout = election_timeout;
    heartbeat_interval = unwrap_or heartbeat_interval default_heartbeat;
    append_entries_count = 0;
    next_read_barrier_id = 0;
    read_barriers = [];
  })

unfoldable pub restore :
    Rng
    → NodeId
    → List NodeId
    → Option ℕ
    → Range
    → ℕ
    → Option NodeId
    → List LogEntry
    → Result RaftCore
restore rng id nodes heartbeat_interval election_range current_term voted_for log = do
  node ← new rng id nodes heartbeat_interval election_range
  ok (record node { current_term = current_term; voted_for = voted_for; log = log })

unfoldable pub restore_with_snapshot :
    Rng
    → NodeId
    → List NodeId
    → Option ℕ
    → Range
    → ℕ
    → Option NodeId
    → List LogEntry
    → ℕ
    → ℕ
    → Result RaftCore
restore_with_snapshot rng id nodes heartbeat_interval election_range current_term voted_for log
      last_included_index last_included_term =
    do
      node ← restore rng id nodes heartbeat_interval election_range current_term voted_for log
      ok (record node {
        last_included_index = last_included_index;
        last_included_term = last_included_term;
        commit_index = last_included_index;
        last_applied = last_included_index;
      })

abbrev pub is_leader : RaftCore → Bool
is_leader c = is_leader_state c.state

unfoldable pub reset_election_timeout : Rng → ℕ → RaftCore → Result RaftCore
unfolding random_range
reset_election_timeout rng n c = do
  election_timeout ← random_range rng n c.election_timeout_range
  ok (record c { ticks_since_last_heartbeat = 0; election_timeout = election_timeout })

-- A node steps down when it sees a higher term, and has its new term persisted.
unfoldable pub check_msg_term : Rng → RaftCore → ℕ → Result (RaftCore × Option (List Action))
unfolding reset_election_timeout
check_msg_term rng c msg_term =
    if ltb c.current_term msg_term
    then (do
      c' ←
          reset_election_timeout rng 0
            (record c { current_term = msg_term; state = follower; voted_for = none })
      ok (
        record c' { read_barriers = []; current_leader = none },
        some (persist_metadata msg_term none ∷ []),
      ))
    else ok (c, none)

-- The first lines of each handler: `if let Some(p) = self.check_msg_term(term) { actions.extend(p) }`.
unfoldable pub begin : Rng → RaftCore → ℕ → Result (RaftCore × List Action)
begin rng c msg_term = do
  checked ← check_msg_term rng c msg_term
  ok (checked.0, unwrap_or checked.1 [])

-- A handler: the check of the message's term, then the rest of the method, with the actions of both.
unfoldable pub after_term_check :
    Rng
    → RaftCore
    → ℕ
    → (RaftCore → Result (RaftCore × List Action))
    → Result (RaftCore × List Action)
after_term_check rng c msg_term body = do
  start ← begin rng c msg_term
  rest ← body start.0
  ok (rest.0, start.1 ++ rest.1)
