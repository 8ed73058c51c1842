-- ===== src/Tests/Fixtures.antt =====
-- Nodes of a cluster of three for the tests of crates/raftcore/src/lib.rs.
use ferris_ferry.Prelude.{ℕ, none, some, [], ◌∷◌}
use ferris_ferry.Types.{leader, follower, candidate, LogEntry}
use ferris_ferry.Core.State.{Rng, RaftCore}

-- every draw is the first number of its range
abbrev pub lowest : Rng
lowest n start end = start

abbrev pub entry : ℕ → ℕ → LogEntry
entry term command = record { term = term; command = command ∷ [] }

-- a new node 1 of the nodes 1, 2 and 3
abbrev pub fresh : RaftCore
fresh = record {
  id = 1;
  peers = 2 ∷ 3 ∷ [];
  state = follower;
  current_term = 0;
  voted_for = none;
  log = [];
  commit_index = 0;
  last_applied = 0;
  current_leader = none;
  next_index = [];
  match_index = [];
  votes_received = [];
  last_included_index = 0;
  last_included_term = 0;
  ticks_since_last_heartbeat = 0;
  election_timeout_range = record { start = 15; end = 31 };
  election_timeout = 15;
  heartbeat_interval = 5;
  append_entries_count = 0;
  next_read_barrier_id = 0;
  read_barriers = [];
}

-- a follower in term 2 with a snapshot up to index 2 and entries 3, 4 and 5, of which 3 is committed
abbrev pub behind : RaftCore
behind = record fresh {
  current_term = 2;
  log = entry 1 30 ∷ entry 1 40 ∷ entry 1 50 ∷ [];
  commit_index = 3;
  last_applied = 3;
  last_included_index = 2;
  last_included_term = 1;
}

-- the leader of term 2 with entries 1, 2 and 3, of which 1 is committed; peer 2 holds all of them
abbrev pub leading : RaftCore
leading = record fresh {
  state = leader;
  current_term = 2;
  voted_for = some 1;
  current_leader = some 1;
  log = entry 1 10 ∷ entry 2 20 ∷ entry 2 30 ∷ [];
  commit_index = 1;
  last_applied = 1;
  next_index = (2, 4) ∷ (3, 2) ∷ [];
  match_index = (2, 3) ∷ (3, 1) ∷ [];
}

-- a candidate of term 3 with two entries
abbrev pub running : RaftCore
running = record fresh {
  state = candidate;
  current_term = 3;
  voted_for = some 1;
  log = entry 1 10 ∷ entry 2 20 ∷ [];
  votes_received = 1 ∷ [];
}
