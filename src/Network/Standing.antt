-- ===== src/Network/Standing.antt =====
-- The effect on votes of the elections and heartbeats of crates/raftcore/src/lib.rs.
use ferris_ferry.Prelude.{
  ◌≤◌, ◌≡◌, refl, ap, ◌∙◌, subst, ◌⊎◌, inl, inr, some, List, [], ◌∷◌, true, Bool-cases, ◌&&◌, leb,
  ok, >>=-eq-ok, ok-injective, insert_set, arith,
}
use ferris_ferry.Types.{
  RaftState, leader, follower, candidate, RequestVoteRpc, RequestVoteResponseRpc, request_vote,
  request_vote_response, Action, persist_metadata, is_leader_state, is_candidate_state,
}
use ferris_ferry.Core.State.{Rng, RaftCore, reset_election_timeout}
use ferris_ferry.Core.Log.{last_log_index, last_log_term}
use ferris_ferry.Core.Replicate.{heartbeat, initialize_leader_state}
use ferris_ferry.Core.Replicate.Frame.{heartbeat-frame}
use ferris_ferry.Core.Election.{
  become_candidate, election_timeout, vote_response, answer_vote, grant_vote, become_leader,
  count_vote, has_majority,
}
use ferris_ferry.Core.Election.Frame.{reset-frame, become_leader-frame}
use ferris_ferry.Core.Node.{Input, received}
use ferris_ferry.Network.Ballots.{ballots, append_entries_to_peers-ballots, map_ask-ballots}
use ferris_ferry.Network.Effects.{quiet, stands, grants, counts, NodeEffect, still}

pub answer_vote-Effect :
    (rng : Rng) (c : RaftCore) (req : RequestVoteRpc) (input : Input) (r : RaftCore × List Action)
    → answer_vote rng c req ≡ ok r
    → NodeEffect c input r.0 r.1
unfolding answer_vote grant_vote reset_election_timeout ballots
answer_vote-Effect rng c req input r h = elim (answer_cases) [
  | inl (e, v, i, p, s, t, w) ↦ record {
    id = i;
    peers = p;
    effect = grants req.candidate_id e v (inr (s, t, w));
  }
  | inr (e, i, p, s, t, w) ↦ record { id = i; peers = p; effect = quiet e (inr (s, t, w)) }
]
  where
    answer_cases :
        ((ballots r.1
            ≡ persist_metadata r.0.current_term (some req.candidate_id)
              ∷ vote_response r.0 req.candidate_id true
              ∷ [])
          × (r.0.voted_for ≡ some req.candidate_id)
          × (r.0.id ≡ c.id)
          × (r.0.peers ≡ c.peers)
          × (r.0.state ≡ c.state)
          × (r.0.current_term ≡ c.current_term)
          × (r.0.votes_received ≡ c.votes_received))
        ⊎ ((ballots r.1 ≡ [])
            × (r.0.id ≡ c.id)
            × (r.0.peers ≡ c.peers)
            × (r.0.state ≡ c.state)
            × (r.0.current_term ≡ c.current_term)
            × (r.0.votes_received ≡ c.votes_received))
    answer_cases = ground arith

pub election_timeout-Effect :
    (rng : Rng) (c : RaftCore) (input : Input) (r : RaftCore × List Action)
    → election_timeout rng c ≡ ok r
    → NodeEffect c input r.0 r.1
unfolding election_timeout
election_timeout-Effect rng c input r h =
    elim (Bool-cases (leb c.election_timeout c.ticks_since_last_heartbeat)) [
      | inr e ↦
          subst (λ (x : RaftCore × List Action). NodeEffect c input x.0 x.1)
            (ok-injective (rw e at h))
            (still c input c [] refl refl (unfold ballots in refl) (inr (refl, refl, refl)))
      | inl e ↦
          (let (c', p, q) =
              >>=-eq-ok (reset_election_timeout rng 0 (become_candidate c)) _ (rw e at h) in
            let (t, p', q') = >>=-eq-ok (last_log_term c') _ q in
            let f = reset-frame rng 0 (become_candidate c) p in
            let sent =
              map_ask-ballots
                (request_vote (record {
                  term = c'.current_term;
                  candidate_id = c'.id;
                  last_log_index = last_log_index c';
                  last_log_term = t;
                }))
                c'.peers (λ x. refl) in
            subst (λ (x : RaftCore × List Action). NodeEffect c input x.0 x.1) (ok-injective q')
              (record {
                id = ap (λ (x : RaftCore). x.id) f;
                peers = ap (λ (x : RaftCore). x.peers) f;
                effect =
                    stands (unfold ballots in ground (arith, f, sent))
                      (ap (λ (x : RaftCore). x.voted_for) f) (ap (λ (x : RaftCore). x.state) f)
                      (ap (λ (x : RaftCore). x.votes_received) f);
              }))
    ]

pub heartbeat-Effect :
    (c : RaftCore) (input : Input) (r : RaftCore × List Action)
    → heartbeat c ≡ ok r
    → NodeEffect c input r.0 r.1
heartbeat-Effect c input r h =
    let f = heartbeat-frame c h in
    still c input r.0 r.1 (ap (λ (x : RaftCore). x.id) f) (ap (λ (x : RaftCore). x.peers) f)
      (unfold heartbeat ballots in grind (arith, append_entries_to_peers-ballots))
      (inr (
        ap (λ (x : RaftCore). x.state) f,
        ap (λ (x : RaftCore). x.current_term) f,
        ap (λ (x : RaftCore). x.votes_received) f,
      ))

become_leader-ballots :
    (rng : Rng) (c : RaftCore) (r : RaftCore × List Action)
    → become_leader rng c ≡ ok r
    → ballots r.1 ≡ []
unfolding become_leader initialize_leader_state ballots
become_leader-ballots rng c r h = grind (arith, append_entries_to_peers-ballots)

pub majority_same :
    (a b : RaftCore)
    → a.peers ≡ b.peers
    → a.votes_received ≡ b.votes_received
    → has_majority a ≡ has_majority b
unfolding has_majority
majority_same a b p v = cc

pub count_vote-Effect :
    (rng : Rng) (c : RaftCore) (resp : RequestVoteResponseRpc) (r : RaftCore × List Action)
    → resp.term ≤ c.current_term
    → count_vote rng c resp ≡ ok r
    → NodeEffect c (received (request_vote_response resp)) r.0 r.1
unfolding count_vote
count_vote-Effect rng c resp r l h =
    let input = received (request_vote_response resp) in
    let c' = record c { votes_received = insert_set resp.id c.votes_received } in
    elim (Bool-cases (is_candidate_state c.state && resp.vote_granted)) [
      | inl e ↦ elim (Bool-cases (has_majority c')) [
        | inl won ↦
            (let lead = rw (e, won) at h in
              let f = become_leader-frame rng c' lead in
              record {
                id = ap (λ (x : RaftCore). x.id) f;
                peers = ap (λ (x : RaftCore). x.peers) f;
                effect =
                    counts resp (become_leader-ballots rng c' r lead) refl (ground (arith, e)) l
                      (candidate-of c.state (ground (arith, e)))
                      (ap (λ (x : RaftCore). x.current_term) f)
                      (ap (λ (x : RaftCore). x.votes_received) f)
                      (λ now.
                        majority_same r.0 c' (ap (λ (x : RaftCore). x.peers) f)
                          (ap (λ (x : RaftCore). x.votes_received) f)
                        ∙ won);
              })
        | inr waits ↦
            subst (λ (x : RaftCore × List Action). NodeEffect c input x.0 x.1)
              (ok-injective (rw (e, waits) at h))
              (record {
                id = refl;
                peers = refl;
                effect =
                    counts resp (unfold ballots in refl) refl (ground (arith, e)) l
                      (candidate-of c.state (ground (arith, e))) refl refl
                      (λ now. absurd (no_leader c.state (ground (arith, e)) now));
              })
      ]
      | inr e ↦
          subst (λ (x : RaftCore × List Action). NodeEffect c input x.0 x.1)
            (ok-injective (rw e at h))
            (still c input c [] refl refl (unfold ballots in refl) (inr (refl, refl, refl)))
    ]
  where
    candidate-of : (s : RaftState) → is_candidate_state s ≡ true → s ≡ candidate
    candidate-of candidate e = refl
    candidate-of leader e = cc
    candidate-of follower e = cc

    no_leader : (s : RaftState) → is_candidate_state s ≡ true → is_leader_state s ≡ true → ⊥
    no_leader candidate e l = cc
    no_leader leader e l = cc
    no_leader follower e l = cc
