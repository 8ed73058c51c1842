-- ===== src/Validity/Election.antt =====
-- Construction, the clock, proposals and elections (crates/raftcore/src/lib.rs) keep a node valid.
use ferris_ferry.Prelude.{
  ℕ, ◌+◌, ◌<◌, refl, Option, List, ◌∷◌, [], arith, length, Returns, u64_mod, ltb, lt→ltb,
  length-snoc, ◌++◌, Returns-if, Returns-bind, insert_set, wadd, some, leb, ◌&&◌,
}
use ferris_ferry.Types.{
  RaftState, leader, follower, candidate, NodeId, Bytes, LogEntry, RequestVoteRpc,
  RequestVoteResponseRpc, is_candidate_state,
}
use ferris_ferry.Core.State.{
  Rng, RaftCore, Range, new, restore, restore_with_snapshot, is_leader, random_range,
}
use ferris_ferry.Core.State.Rules.{
  with_timeout, reset_election_timeout-eq, checked, after_term_check-Returns,
}
use ferris_ferry.Core.Log.{last_log_index}
use ferris_ferry.Core.Log.Bounds.{HasRoom, last_log_term-ok}
use ferris_ferry.Core.Replicate.{
  heartbeat, append_proposal, push_entry, propose, track_peers, initialize_leader_state,
}
use ferris_ferry.Core.Replicate.Frame.{track_peers-frame}
use ferris_ferry.Core.Replicate.Build.{log_slice-last, append_entries_to_peers-ok}
use ferris_ferry.Core.Election.{
  become_candidate, election_timeout, on_tick, tick, become_leader, count_vote, has_majority,
  handle_request_vote_response, can_vote, log_check, answer_vote, handle_request_vote,
}
use ferris_ferry.Validity.{IsValid}

-- Restoring a node from a snapshot and a log that fit below 2^64 does not panic, for a range of timeouts
-- that is not empty, and the node is valid.
pub restore_with_snapshot-IsValid :
    (rng : Rng) (id : NodeId) (nodes : List NodeId) (interval : Option ℕ) (range : Range) (term : ℕ)
    (vote : Option NodeId) (log : List LogEntry) (index index_term : ℕ)
    → range.start < range.end
    → index + length log + 1 < u64_mod
    → Returns
        (restore_with_snapshot rng id nodes interval range term vote log index index_term)
        IsValid
unfolding restore_with_snapshot restore new random_range
restore_with_snapshot-IsValid rng id nodes interval range term vote log index index_term h r =
    rw (lt→ltb range.start range.end h) (_, refl, omega arith)

-- The check of a message's term keeps a node valid.
pub checked-IsValid : (rng : Rng) (c : RaftCore) (t : ℕ) → IsValid c → IsValid (checked rng c t)
unfolding checked
checked-IsValid rng c t v = ground arith

heartbeat-IsValid : (c : RaftCore) → IsValid c → Returns (heartbeat c) (λ r. IsValid r.0)
unfolding heartbeat
heartbeat-IsValid c v =
    Returns-if (leb c.heartbeat_interval c.ticks_since_last_heartbeat) _ _
      (λ due.
        let (sent, e) = append_entries_to_peers-ok c v.room in
        ((record c { ticks_since_last_heartbeat = 0 }, sent), rw e refl, omega arith))
      (λ early. (_, refl, v))

election_timeout-IsValid :
    (rng : Rng) (c : RaftCore) → IsValid c → Returns (election_timeout rng c) (λ r. IsValid r.0)
unfolding election_timeout
election_timeout-IsValid rng c v =
    Returns-if (leb c.election_timeout c.ticks_since_last_heartbeat) _ _
      (λ due.
        let c' = with_timeout rng 0 (become_candidate c) in
        let (t, e) = last_log_term-ok c' (omega arith) in
        rw (reset_election_timeout-eq rng 0 (become_candidate c) v.range)
          (rw e (_, refl, omega arith)))
      (λ early. (_, refl, v))

on_tick-IsValid :
    (s : RaftState) (rng : Rng) (c : RaftCore)
    → IsValid c
    → Returns (on_tick s rng c) (λ r. IsValid r.0)
unfolding on_tick
on_tick-IsValid leader rng c v = heartbeat-IsValid c v
on_tick-IsValid candidate rng c v = election_timeout-IsValid rng c v
on_tick-IsValid follower rng c v = election_timeout-IsValid rng c v

-- A tick of a valid node never panics and leaves it valid.
pub tick-IsValid : (rng : Rng) (c : RaftCore) → IsValid c → Returns (tick rng c) (λ r. IsValid r.0)
unfolding tick
tick-IsValid rng c v = on_tick-IsValid c.state rng _ (omega arith)

append_proposal-IsValid :
    (c : RaftCore) (e : LogEntry)
    → IsValid c
    → HasRoom c 2
    → Returns (append_proposal c e) (λ r. IsValid r.0)
unfolding append_proposal push_entry
append_proposal-IsValid c e v room =
    let c' = record c { log = c.log ++ e ∷ []; ticks_since_last_heartbeat = 0 } in
    let v' : IsValid c' = omega (arith, length-snoc c.log e) in
    let (sent, p) = append_entries_to_peers-ok c' v'.room in
    rw (log_slice-last c' v'.room) (rw p (_, refl, v'))

-- A proposal to a valid node that has room for one more entry never panics and leaves it valid.
pub propose-IsValid :
    (c : RaftCore) (command : Bytes)
    → IsValid c
    → HasRoom c 2
    → Returns (propose c command) (λ r. IsValid r.0)
unfolding propose
propose-IsValid c command v room =
    Returns-if (is_leader c) _ _
      (λ lead.
        append_proposal-IsValid c (record { term = c.current_term; command = command }) v room)
      (λ other. (_, refl, v))

answer_vote-IsValid :
    (rng : Rng) (c : RaftCore) (req : RequestVoteRpc)
    → IsValid c
    → Returns (answer_vote rng c req) (λ r. IsValid r.0)
unfolding answer_vote
answer_vote-IsValid rng c req v =
    let (t, e) = last_log_term-ok c (omega arith) in
    Returns-if (ltb req.term c.current_term) _ _ (λ stale. (_, refl, v))
      (λ fresh. rw e (
        Returns-if (can_vote c.voted_for req.candidate_id && log_check req (last_log_index c) t) _ _
          (λ granted. rw (reset_election_timeout-eq rng 1 c v.range) (_, refl, omega arith))
          (λ refused. (_, refl, v))))

-- A request for a vote never makes a valid node panic and leaves it valid, whatever the request.
pub handle_request_vote-IsValid :
    (rng : Rng) (c : RaftCore) (req : RequestVoteRpc)
    → IsValid c
    → Returns (handle_request_vote rng c req) (λ r. IsValid r.0)
unfolding handle_request_vote
handle_request_vote-IsValid rng c req v =
    after_term_check-Returns IsValid rng c req.term _ v.range
      (answer_vote-IsValid rng (checked rng c req.term) req (checked-IsValid rng c req.term v))

initialize_leader_state-IsValid :
    (c : RaftCore)
    → IsValid c
    → HasRoom c 2
    → Returns (initialize_leader_state c) (λ r. IsValid r.0)
unfolding initialize_leader_state push_entry
initialize_leader_state-IsValid c v room =
    let noop : LogEntry = record { term = c.current_term; command = [] } in
    let pushed = record c { log = c.log ++ noop ∷ [] } in
    let v₁ : IsValid pushed = omega (arith, length-snoc c.log noop) in
    let next = wadd (last_log_index pushed) 1 in
    let v₂ : IsValid (track_peers next pushed.peers pushed) =
      rw (track_peers-frame next pushed.peers pushed) (omega arith) in
    rw (log_slice-last (track_peers next pushed.peers pushed) v₂.room) (_, refl, v₂)

become_leader-IsValid :
    (rng : Rng) (c : RaftCore)
    → IsValid c
    → HasRoom c 2
    → Returns (become_leader rng c) (λ r. IsValid r.0)
unfolding become_leader
become_leader-IsValid rng c v room =
    Returns-bind (initialize_leader_state _) _
      (initialize_leader_state-IsValid (record c { state = leader; current_leader = some c.id })
        (omega arith) room)
      λ i w.
        let w' : IsValid (with_timeout rng 1 i.0) = omega arith in
        let (sent, e) = append_entries_to_peers-ok (with_timeout rng 1 i.0) w'.room in
        rw (reset_election_timeout-eq rng 1 i.0 w.range) (rw e (_, refl, w'))

count_vote-IsValid :
    (rng : Rng) (c : RaftCore) (resp : RequestVoteResponseRpc)
    → IsValid c
    → HasRoom c 2
    → Returns (count_vote rng c resp) (λ r. IsValid r.0)
unfolding count_vote
count_vote-IsValid rng c resp v room =
    Returns-if (is_candidate_state c.state && resp.vote_granted) _ _
      (λ counted.
        let c' = record c { votes_received = insert_set resp.id c.votes_received } in
        Returns-if (has_majority c') _ _ (λ won. become_leader-IsValid rng c' (omega arith) room)
          (λ waits. (_, refl, omega arith)))
      (λ ignored. (_, refl, v))

-- A vote never makes a valid node panic and leaves it valid, also if it makes the node a leader, which
-- appends an entry: there must be room for it.
pub handle_request_vote_response-IsValid :
    (rng : Rng) (c : RaftCore) (resp : RequestVoteResponseRpc)
    → IsValid c
    → HasRoom c 2
    → Returns (handle_request_vote_response rng c resp) (λ r. IsValid r.0)
unfolding handle_request_vote_response
handle_request_vote_response-IsValid rng c resp v room =
    after_term_check-Returns IsValid rng c resp.term _ v.range (
      count_vote-IsValid rng (checked rng c resp.term) resp (checked-IsValid rng c resp.term v)
        (unfold checked in ground arith))
