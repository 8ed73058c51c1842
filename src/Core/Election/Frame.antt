-- ===== src/Core/Election/Frame.antt =====
-- What the election methods of crates/raftcore/src/lib.rs leave alone.
use ferris_ferry.Prelude.{ℕ, ◌≡◌, List, some, ok, arith, >>=-eq-ok}
use ferris_ferry.Types.{leader, RequestVoteRpc, RequestVoteResponseRpc, Action}
use ferris_ferry.Core.State.{Rng, RaftCore, reset_election_timeout}
use ferris_ferry.Core.Replicate.{initialize_leader_state}
use ferris_ferry.Core.Replicate.Frame.{initialize_leader_state-frame}
use ferris_ferry.Core.Election.{answer_vote, become_leader, count_vote}

pub answer_vote-frame :
    (rng : Rng) (c : RaftCore) (req : RequestVoteRpc) {r : RaftCore × List Action}
    → answer_vote rng c req ≡ ok r
    → r.0 ≡ record c {
      voted_for = r.0.voted_for;
      ticks_since_last_heartbeat = r.0.ticks_since_last_heartbeat;
      election_timeout = r.0.election_timeout;
    }
unfolding answer_vote reset_election_timeout
answer_vote-frame rng c req h = ground arith

pub reset-frame :
    (rng : Rng) (n : ℕ) (c : RaftCore) {c' : RaftCore}
    → reset_election_timeout rng n c ≡ ok c'
    → c' ≡ record c {
      ticks_since_last_heartbeat = c'.ticks_since_last_heartbeat;
      election_timeout = c'.election_timeout;
    }
unfolding reset_election_timeout
reset-frame rng n c h = ground arith

pub become_leader-frame :
    (rng : Rng) (c : RaftCore) {r : RaftCore × List Action}
    → become_leader rng c ≡ ok r
    → r.0 ≡ record c {
      state = leader;
      current_leader = some c.id;
      log = r.0.log;
      next_index = r.0.next_index;
      match_index = r.0.match_index;
      ticks_since_last_heartbeat = r.0.ticks_since_last_heartbeat;
      election_timeout = r.0.election_timeout;
    }
unfolding become_leader
become_leader-frame rng c h =
    let (i, p, q) = >>=-eq-ok (initialize_leader_state _) _ h in
    let (c', p', q') = >>=-eq-ok (reset_election_timeout rng 1 i.0) _ q in
    ground (arith, initialize_leader_state-frame _ p, reset-frame rng 1 i.0 p')

-- A vote is counted, or not, in the state of a candidate; it may make a leader.
pub count_vote-frame :
    (rng : Rng) (c : RaftCore) (resp : RequestVoteResponseRpc) {r : RaftCore × List Action}
    → count_vote rng c resp ≡ ok r
    → r.0 ≡ record c {
      state = r.0.state;
      current_leader = r.0.current_leader;
      votes_received = r.0.votes_received;
      log = r.0.log;
      next_index = r.0.next_index;
      match_index = r.0.match_index;
      ticks_since_last_heartbeat = r.0.ticks_since_last_heartbeat;
      election_timeout = r.0.election_timeout;
    }
unfolding count_vote
count_vote-frame rng c resp h = grind (arith, become_leader-frame)
