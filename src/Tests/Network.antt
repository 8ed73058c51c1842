-- ===== src/Tests/Network.antt =====
-- An election in a cluster of three of crates/raftcore/src/lib.rs.
use ferris_ferry.Prelude.{
  ℕ, ◌≡◌, refl, inl, inr, none, some, List, [], ◌∷◌, ◌++◌, map, ok, arith, contains, lookup, insert,
  true, wadd, wsub, map_result, insert_set,
}
use ferris_ferry.Types.{
  leader, candidate, NodeId, RequestVoteRpc, RequestVoteResponseRpc, request_vote,
  request_vote_response, Action, send_message, persist_metadata, persist_log_entries,
  append_entries,
}
use ferris_ferry.Core.State.{
  RaftCore, new, random_range, other_nodes, begin, check_msg_term, after_term_check,
  reset_election_timeout,
}
use ferris_ferry.Core.Log.{last_log_index, last_log_term, log_term_at, log_slice, log_entry_at}
use ferris_ferry.Core.Election.{
  tick, on_tick, election_timeout, handle_request_vote, answer_vote, handle_request_vote_response,
  count_vote, become_leader,
}
use ferris_ferry.Core.Replicate.{
  heartbeat, initialize_leader_state, append_entries_to_peers, build_append_entries_for_peer,
}
use ferris_ferry.Core.Election.Late.{late_vote-counts}
use ferris_ferry.Core.Node.{step, receive, ticked, received}
use ferris_ferry.Network.{Network, NetStep, acts, NetReach, here, next}
use ferris_ferry.Network.Election.{Starts, one_leader}
use ferris_ferry.Tests.Fixtures.{lowest, fresh}

abbrev pub three : List NodeId
three = 1 ∷ 2 ∷ 3 ∷ []

-- A node that stands for election at the first tick.
abbrev pub hasty : NodeId → List NodeId → RaftCore
hasty id peers = record fresh {
  id = id;
  peers = peers;
  election_timeout_range = record { start = 1; end = 2 };
  election_timeout = 1;
}

abbrev pub first : RaftCore
first = hasty 1 (2 ∷ 3 ∷ [])

abbrev pub second : RaftCore
second = hasty 2 (1 ∷ 3 ∷ [])

abbrev cluster : Network
cluster = record { nodes = (1, first) ∷ (2, second) ∷ (3, hasty 3 (1 ∷ 2 ∷ [])) ∷ []; history = [] }

begun :
    (id : NodeId) (peers : List NodeId)
    → other_nodes id three ≡ peers
    → new lowest id three none (record { start = 1; end = 2 }) ≡ ok (hasty id peers)
unfolding new random_range
begun id peers e = ground (arith, e)

cluster-Starts : Starts three cluster
unfolding contains other_nodes
cluster-Starts = record {
  begun = (
    (refl, lowest, none, record { start = 1; end = 2 }, begun 1 (2 ∷ 3 ∷ []) refl),
    (
      (refl, lowest, none, record { start = 1; end = 2 }, begun 2 (1 ∷ 3 ∷ []) refl),
      ((refl, lowest, none, record { start = 1; end = 2 }, begun 3 (1 ∷ 2 ∷ []) refl), tt),
    ),
  );
  silent = refl;
}

abbrev pub standing : RaftCore
standing = record first {
  current_term = 1;
  state = candidate;
  voted_for = some 1;
  votes_received = 1 ∷ [];
}

abbrev pub ask : RequestVoteRpc
ask = record { term = 1; candidate_id = 1; last_log_index = 0; last_log_term = 0 }

abbrev pub asks : List Action
asks =
    persist_metadata 1 (some 1)
    ∷ send_message 2 (request_vote ask)
    ∷ send_message 3 (request_vote ask)
    ∷ []

first-stands : step lowest first ticked ≡ ok (standing, asks)
unfolding step tick on_tick election_timeout last_log_term log_term_at last_log_index wadd
    reset_election_timeout
first-stands = refl

abbrev pub voter : RaftCore
voter = record second { current_term = 1; voted_for = some 1 }

abbrev pub yes_vote : RequestVoteResponseRpc
yes_vote = record { id = 2; term = 1; vote_granted = true }

abbrev pub answer : List Action
answer =
    persist_metadata 1 none
    ∷ persist_metadata 1 (some 1)
    ∷ send_message 1 (request_vote_response yes_vote)
    ∷ []

second-votes : step lowest second (received (request_vote ask)) ≡ ok (voter, answer)
unfolding step receive handle_request_vote after_term_check begin check_msg_term answer_vote
    last_log_term log_term_at last_log_index wadd reset_election_timeout
second-votes = refl

abbrev pub won : RaftCore
won = record standing {
  state = leader;
  current_leader = some 1;
  votes_received = 2 ∷ 1 ∷ [];
  log = record { term = 1; command = [] } ∷ [];
  next_index = (2, 2) ∷ (3, 2) ∷ [];
  match_index = (2, 0) ∷ (3, 0) ∷ [];
}

abbrev pub claim : NodeId → Action
claim peer = send_message peer (
    append_entries (record {
      term = 1;
      leader_id = 1;
      prev_log_index = 1;
      prev_log_term = 1;
      entries = [];
      leader_commit = 0;
    }))

abbrev pub claims : List Action
claims = persist_log_entries 1 (record { term = 1; command = [] } ∷ []) ∷ claim 2 ∷ claim 3 ∷ []

first-wins : step lowest standing (received (request_vote_response yes_vote)) ≡ ok (won, claims)
unfolding step receive handle_request_vote_response after_term_check begin check_msg_term count_vote
    become_leader last_log_term log_term_at last_log_index wadd reset_election_timeout
    initialize_leader_state log_slice append_entries_to_peers insert_set wsub map_result
    build_append_entries_for_peer lookup insert log_entry_at
first-wins = refl

-- The leader's next tick.
abbrev ticking : RaftCore
ticking = record won { ticks_since_last_heartbeat = 1 }

leader-ticks : step lowest won ticked ≡ ok (ticking, [])
unfolding step tick on_tick heartbeat wadd
leader-ticks = refl

abbrev pub history₁ : List (NodeId × Action)
history₁ = map (λ a. (1, a)) asks

abbrev pub history₂ : List (NodeId × Action)
history₂ = map (λ a. (2, a)) answer ++ history₁

abbrev history₃ : List (NodeId × Action)
history₃ = map (λ a. (1, a)) claims ++ history₂

abbrev among : RaftCore → RaftCore → List (NodeId × Action) → Network
among a b h = record { nodes = (1, a) ∷ (2, b) ∷ (3, hasty 3 (1 ∷ 2 ∷ [])) ∷ []; history = h }

stands_step : NetStep three cluster (among standing second history₁)
unfolding lookup insert
stands_step = acts 1 first standing lowest ticked asks refl tt tt (omega arith) first-stands refl

votes_step : NetStep three (among standing second history₁) (among standing voter history₂)
unfolding lookup insert
votes_step =
    acts 2 second voter lowest (received (request_vote ask)) answer refl tt tt (omega arith)
      second-votes refl

wins_step : NetStep three (among standing voter history₂) (among won voter history₃)
unfolding lookup insert
wins_step =
    acts 1 standing won lowest (received (request_vote_response yes_vote)) claims refl
      (2, inr (inr (inl refl))) (omega arith) (omega arith) first-wins refl

elects : NetReach three cluster (among won voter history₃)
elects = next (next (next here stands_step) votes_step) wins_step

goes_on : NetReach three (among won voter history₃) (among ticking voter history₃)
unfolding lookup insert
goes_on = next here (acts 1 won ticking lowest ticked [] refl tt tt (omega arith) leader-ticks refl)

one_leader_example : ◌≡◌ {A = ℕ} 1 1
unfolding contains lookup
one_leader_example =
    one_leader three cluster (among won voter history₃) (among ticking voter history₃) 1 1 won
      ticking (refl, (refl, (refl, tt))) (omega arith) cluster-Starts elects goes_on refl refl refl
      refl refl

-- A candidate of term 2 wins with a vote that was given to it in term 1.
abbrev again : RaftCore
again = record standing { current_term = 2 }

late_vote-counts_example :
    handle_request_vote_response lowest again yes_vote
    ≡ handle_request_vote_response lowest again (record yes_vote { term = 2 })
late_vote-counts_example = late_vote-counts lowest again yes_vote (omega arith)
