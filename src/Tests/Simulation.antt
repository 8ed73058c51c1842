-- ===== src/Tests/Simulation.antt =====
-- The simulated cluster of crates/raftcore/src/lib.rs at concrete inputs.
use ferris_ferry.Prelude.{
  some, true, false, modify, ℕ, Bool, Option, Result, panic, ◌==◌, ◌&&◌, values, ◌≡◌, refl, inl,
  inr, none, List, [], ◌∷◌, ok, arith, contains, lookup, insert, wadd, wsub, map_result, insert_set,
}
use ferris_ferry.Types.{NodeId, request_vote_response, Action, persist_log_entries}
use ferris_ferry.Core.State.{
  is_leader, new, random_range, other_nodes, RaftCore, begin, check_msg_term, after_term_check,
  reset_election_timeout,
}
use ferris_ferry.Core.Replicate.{
  initialize_leader_state, append_entries_to_peers, build_append_entries_for_peer,
}
use ferris_ferry.Core.Election.{
  tick, on_tick, election_timeout, handle_request_vote, answer_vote, handle_request_vote_response,
  count_vote, become_leader,
}
use ferris_ferry.Core.Log.{last_log_index, log_term_at, log_slice, log_entry_at, last_log_term}
use ferris_ferry.Core.Append.{
  handle_append_entries, receive_entries, accept_entries, store_request, store_entries, store_entry,
  persist_appended, follow_commit,
}
use ferris_ferry.Core.Commit.{handle_append_entries_response, note_response, advance_commit}
use ferris_ferry.Core.Node.{receive}
use ferris_ferry.Network.{NetStep}
use ferris_ferry.Simulation.{
  new_with_leader, new_cluster, insert_nodes, elect_leader, tick_until_candidate, tick_times,
  tick_node, deliver_times, send_entries, all_committed, Envelope, TestCluster, deliver_message,
  deliver_one, deliver_each, deliver_all, collect_actions, messages, other_actions,
}
use ferris_ferry.Simulation.Delivery.{Isolated, deliver_all-Isolated}
use ferris_ferry.Simulation.Refines.{AllSent, as_network, deliver_message-NetStep}
use ferris_ferry.Tests.Fixtures.{lowest}
use ferris_ferry.Tests.Network.{three, hasty, standing, voter, yes_vote, won, claims, history₂}

-- the vote of node 2 on its way to the candidate
abbrev vote : Envelope
vote = record { sender = 2; recipient = 1; message = request_vote_response yes_vote }

abbrev among : RaftCore → List Envelope → List NodeId → TestCluster
among n es away = record {
  nodes = (1, n) ∷ (2, voter) ∷ (3, hasty 3 (1 ∷ 2 ∷ [])) ∷ [];
  pending_messages = es;
  partitioned = away;
  leader = none;
}

abbrev noop : List Action
noop = persist_log_entries 1 (record { term = 1; command = [] } ∷ []) ∷ []

vote-delivered :
    deliver_message lowest vote (among standing [] (3 ∷ []))
    ≡ ok (among won (messages 1 claims) (3 ∷ []), noop)
unfolding deliver_message collect_actions messages other_actions receive
    handle_request_vote_response after_term_check begin check_msg_term count_vote become_leader
    last_log_index wadd wsub reset_election_timeout initialize_leader_state log_slice log_entry_at
    log_term_at append_entries_to_peers build_append_entries_for_peer map_result insert_set insert
    lookup contains
vote-delivered = refl

deliver_message-NetStep_example :
    (history' : List (NodeId × Action)) × NetStep three
      (as_network (among standing [] (3 ∷ [])) history₂)
      (as_network (among won (messages 1 claims) (3 ∷ [])) history')
    × AllSent (messages 1 claims) history'
unfolding lookup
deliver_message-NetStep_example =
    deliver_message-NetStep three lowest vote (among standing [] (3 ∷ []))
      (among won (messages 1 claims) (3 ∷ [])) noop history₂ standing (inr (inr (inl refl)), tt)
      refl (omega arith) (omega arith) vote-delivered

-- the same vote, and one for the node that is cut off
abbrev queue : List Envelope
queue = record { sender = 2; recipient = 3; message = request_vote_response yes_vote } ∷ vote ∷ []

all-delivered :
    deliver_all (λ n. lowest) (among standing queue (3 ∷ []))
    ≡ ok (among won (messages 1 claims) (3 ∷ []), (1, noop) ∷ [])
unfolding deliver_all deliver_each deliver_one contains insert lookup
all-delivered = rw vote-delivered refl

deliver_all-Isolated_example :
    Isolated 3 (among standing queue (3 ∷ [])) (among won (messages 1 claims) (3 ∷ []))
unfolding contains
deliver_all-Isolated_example =
    deliver_all-Isolated 3 (λ n. lowest) (among standing queue (3 ∷ []))
      (among won (messages 1 claims) (3 ∷ [])) ((1, noop) ∷ []) refl (refl, (refl, tt))
      all-delivered

-- The node leads, and has committed this many entries.
abbrev leads : ℕ → Option RaftCore → Bool
leads index none = false
leads index (some n) = is_leader n && n.commit_index == index

abbrev leads_in : ℕ → Result TestCluster → Bool
leads_in index panic = false
leads_in index (ok c) = leads index (lookup 1 c.nodes)

-- The tests' start: node 1 is elected in a cluster of three, and its first entry is committed everywhere.
three-elects : leads_in 1 (new_with_leader (λ n. lowest) (λ a b c. lowest) three 1) ≡ true
unfolding new_with_leader new_cluster insert_nodes new random_range other_nodes elect_leader
    tick_until_candidate tick_times tick_node deliver_times deliver_all deliver_each deliver_one
    deliver_message collect_actions messages other_actions send_entries all_committed values lookup
    insert contains tick on_tick election_timeout last_log_index wadd wsub log_term_at log_entry_at
    log_slice reset_election_timeout begin check_msg_term after_term_check receive
    handle_request_vote answer_vote handle_request_vote_response count_vote become_leader
    initialize_leader_state append_entries_to_peers build_append_entries_for_peer map_result
    insert_set last_log_term handle_append_entries receive_entries handle_append_entries_response
    note_response modify accept_entries store_request store_entries store_entry persist_appended
    follow_commit advance_commit
three-elects = refl
