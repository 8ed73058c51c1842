-- ===== src/Core/Election.antt =====
-- Elections of crates/raftcore/src/lib.rs: timeouts, `handle_request_vote` and its response.
pub mod Frame
pub mod Late
use ferris_ferry.Prelude.{
  ℕ, ◌/◌, Option, none, some, List, [], ◌∷◌, Bool, true, false, ◌&&◌, ◌||◌, ltb, leb, ◌==◌,
  if◌then◌else◌, length, Result, ok, ◌>>=◌, map, wadd, insert_set,
}
use ferris_ferry.Types.{
  RaftState, leader, follower, candidate, NodeId, RequestVoteRpc, RequestVoteResponseRpc,
  request_vote, request_vote_response, Action, send_message, persist_metadata, is_candidate_state,
}
use ferris_ferry.Core.State.{Rng, RaftCore, reset_election_timeout, after_term_check}
use ferris_ferry.Core.Log.{last_log_index, last_log_term}
use ferris_ferry.Core.Replicate.{append_entries_to_peers, initialize_leader_state, heartbeat}

-- The node votes for itself in a new term.
abbrev pub become_candidate : RaftCore → RaftCore
become_candidate c = record c {
  current_term = wadd c.current_term 1;
  state = candidate;
  current_leader = none;
  votes_received = c.id ∷ [];
  voted_for = some c.id;
}

unfoldable pub election_timeout : Rng → RaftCore → Result (RaftCore × List Action)
election_timeout rng c =
    if leb c.election_timeout c.ticks_since_last_heartbeat
    then (do
      c' ← reset_election_timeout rng 0 (become_candidate c)
      last_term ← last_log_term c'
      let request = request_vote (record {
        term = c'.current_term;
        candidate_id = c'.id;
        last_log_index = last_log_index c';
        last_log_term = last_term;
      })
      ok (
        c',
        persist_metadata c'.current_term c'.voted_for
            ∷ map (λ peer_id. send_message peer_id request) c'.peers,
      ))
    else ok (c, [])

-- `match self.state` of `tick`
unfoldable pub on_tick : RaftState → Rng → RaftCore → Result (RaftCore × List Action)
on_tick leader rng c = heartbeat c
on_tick candidate rng c = election_timeout rng c
on_tick follower rng c = election_timeout rng c

unfoldable pub tick : Rng → RaftCore → Result (RaftCore × List Action)
tick rng c =
    let c' = record c { ticks_since_last_heartbeat = wadd c.ticks_since_last_heartbeat 1 } in
    on_tick c'.state rng c'

abbrev pub vote_response : RaftCore → NodeId → Bool → Action
vote_response c target granted =
    send_message target
      (request_vote_response (record { id = c.id; term = c.current_term; vote_granted = granted }))

unfoldable pub can_vote : Option NodeId → NodeId → Bool
can_vote none candidate_id = true
can_vote (some id) candidate_id = id == candidate_id

-- The candidate's log is at least as up to date as one that ends at the given index and term.
unfoldable pub log_check : RequestVoteRpc → ℕ → ℕ → Bool
log_check req last_index last_term =
    ltb last_term req.last_log_term
    || (req.last_log_term == last_term && leb last_index req.last_log_index)

unfoldable pub grant_vote : Rng → RaftCore → NodeId → Result (RaftCore × List Action)
grant_vote rng c candidate_id = do
  c' ← reset_election_timeout rng 1 c
  ok (
    record c' { voted_for = some candidate_id },
    persist_metadata c'.current_term (some candidate_id) ∷ vote_response c' candidate_id true ∷ [],
  )

-- `handle_request_vote` after the check of the message's term
unfoldable pub answer_vote : Rng → RaftCore → RequestVoteRpc → Result (RaftCore × List Action)
unfolding can_vote log_check grant_vote
answer_vote rng c req =
    if ltb req.term c.current_term then ok (c, vote_response c req.candidate_id false ∷ []) else (do
      last_term ← last_log_term c
      if can_vote c.voted_for req.candidate_id && log_check req (last_log_index c) last_term
          then grant_vote rng c req.candidate_id
          else ok (c, vote_response c req.candidate_id false ∷ []))

unfoldable pub handle_request_vote :
    Rng → RaftCore → RequestVoteRpc → Result (RaftCore × List Action)
handle_request_vote rng c req = after_term_check rng c req.term (λ c'. answer_vote rng c' req)

-- The candidate won: it appends its no-op and sends it to every peer.
unfoldable pub become_leader : Rng → RaftCore → Result (RaftCore × List Action)
become_leader rng c = do
  initialized ← initialize_leader_state (record c { state = leader; current_leader = some c.id })
  c' ← reset_election_timeout rng 1 initialized.0
  sent ← append_entries_to_peers c'
  ok (c', initialized.1 ∷ sent)

unfoldable pub has_majority : RaftCore → Bool
has_majority c = ltb (wadd (length c.peers) 1 / 2) (length c.votes_received)

-- `handle_request_vote_response` after the check of the message's term
unfoldable pub count_vote :
    Rng → RaftCore → RequestVoteResponseRpc → Result (RaftCore × List Action)
unfolding has_majority
count_vote rng c resp =
    if is_candidate_state c.state && resp.vote_granted
    then (let c' = record c { votes_received = insert_set resp.id c.votes_received } in
        if has_majority c' then become_leader rng c' else ok (c', []))
    else ok (c, [])

unfoldable pub handle_request_vote_response :
    Rng → RaftCore → RequestVoteResponseRpc → Result (RaftCore × List Action)
handle_request_vote_response rng c resp =
    after_term_check rng c resp.term (λ c'. count_vote rng c' resp)
