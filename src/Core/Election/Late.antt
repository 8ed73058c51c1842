-- ===== src/Core/Election/Late.antt =====
-- `handle_request_vote_response` of crates/raftcore/src/lib.rs on an answer that arrives late.
use ferris_ferry.Prelude.{◌≤◌, ◌≡◌, arith}
use ferris_ferry.Types.{RequestVoteResponseRpc}
use ferris_ferry.Core.State.{Rng, RaftCore, after_term_check, begin, check_msg_term}
use ferris_ferry.Core.Election.{handle_request_vote_response, count_vote}

-- A node does not tell a vote of an earlier term from one of its own term: an answer whose term is at
-- most the node's has the same result as the answer with the node's term in it.
pub late_vote-counts :
    (rng : Rng) (c : RaftCore) (resp : RequestVoteResponseRpc)
    → resp.term ≤ c.current_term
    → handle_request_vote_response rng c resp
      ≡ handle_request_vote_response rng c (record resp { term = c.current_term })
unfolding handle_request_vote_response after_term_check begin check_msg_term count_vote
late_vote-counts rng c resp h = ground arith
