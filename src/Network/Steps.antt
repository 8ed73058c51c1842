-- ===== src/Network/Steps.antt =====
-- The effect on votes of every method of crates/raftcore/src/lib.rs.
use ferris_ferry.Prelude.{
  ℕ, ◌≡◌, refl, ap, subst, ◌⊎◌, inr, Option, List, [], ok, >>=-eq-ok, ok-injective, unwrap_or,
  arith, wadd,
}
use ferris_ferry.Types.{
  RaftState, leader, follower, candidate, Bytes, AppendEntriesRpc, AppendEntriesResponseRpc,
  InstallSnapshotRpc, InstallSnapshotResponseRpc, Message, request_vote, request_vote_response,
  append_entries, append_entries_response, install_snapshot, install_snapshot_response, Action,
}
use ferris_ferry.Core.State.{Rng, RaftCore, reset_election_timeout}
use ferris_ferry.Core.Replicate.{propose, append_proposal}
use ferris_ferry.Core.Replicate.Frame.{propose-frame}
use ferris_ferry.Core.Election.{on_tick, tick, handle_request_vote, handle_request_vote_response}
use ferris_ferry.Core.Append.{
  accept_entries, persist_appended, follow_commit, receive_entries, hear_leader,
  handle_append_entries,
}
use ferris_ferry.Core.Append.Frame.{accept_entries-frame}
use ferris_ferry.Core.Commit.{
  note_response, advance_commit, handle_append_entries_response, request_read_barrier,
}
use ferris_ferry.Core.Snapshot.{
  complete_snapshot, receive_snapshot, note_snapshot, handle_install_snapshot,
  handle_install_snapshot_response,
}
use ferris_ferry.Core.Node.{
  receive, step, Input, ticked, proposed, received, read_requested, snapshot_stored,
}
use ferris_ferry.Network.Ballots.{
  ballots, ballots-append, build-ballots, append_entries_to_peers-ballots, apply_actions-ballots,
  ready_barriers-ballots,
}
use ferris_ferry.Network.Effects.{
  Follows, Effect, quiet, stands, grants, counts, NodeEffect, still, after_term_check-Effect,
}
use ferris_ferry.Network.Standing.{
  answer_vote-Effect, election_timeout-Effect, heartbeat-Effect, count_vote-Effect,
}

receive_entries-ballots :
    (rng : Rng) (c : RaftCore) (req : AppendEntriesRpc) (r : RaftCore × List Action)
    → receive_entries rng c req ≡ ok r
    → ballots r.1 ≡ []
unfolding receive_entries hear_leader ballots accept_entries persist_appended follow_commit
receive_entries-ballots rng c req r h = grind (arith, ballots-append, apply_actions-ballots)

-- The fields that a part of a method leaves alone.
pub record SameRole (c c' : RaftCore) : Type 0 where
  pub id : c'.id ≡ c.id
  pub peers : c'.peers ≡ c.peers
  pub role : Follows c c'

quiet_step :
    (c : RaftCore) (input : Input) (c' : RaftCore) (actions : List Action)
    → SameRole c c'
    → ballots actions ≡ []
    → NodeEffect c input c' actions
quiet_step c input c' actions s b = still c input c' actions s.id s.peers b s.role

receive_entries-Effect :
    (rng : Rng) (c : RaftCore) (req : AppendEntriesRpc) (input : Input) (r : RaftCore × List Action)
    → receive_entries rng c req ≡ ok r
    → NodeEffect c input r.0 r.1
receive_entries-Effect rng c req input r h =
    quiet_step c input r.0 r.1 same (receive_entries-ballots rng c req r h)
  where
    kind :
        (r.0.id ≡ c.id)
        × (r.0.peers ≡ c.peers)
        × ((r.0.state ≡ follower)
            ⊎ ((r.0.state ≡ c.state)
                × (r.0.current_term ≡ c.current_term)
                × (r.0.votes_received ≡ c.votes_received)))
    kind =
        unfold receive_entries hear_leader reset_election_timeout in
        grind (arith, accept_entries-frame)

    same : SameRole c r.0
    same = record { id = kind.0; peers = kind.1; role = kind.2 }

note_response-Effect :
    (c : RaftCore) (resp : AppendEntriesResponseRpc) (input : Input) (r : RaftCore × List Action)
    → note_response c resp ≡ ok r
    → NodeEffect c input r.0 r.1
unfolding note_response advance_commit
note_response-Effect c resp input r h =
    quiet_step c input r.0 r.1
      (record {
        id = ground arith;
        peers = ground arith;
        role = inr (ground arith, ground arith, ground arith);
      })
      (unfold ballots in
        grind (arith, ballots-append, apply_actions-ballots, ready_barriers-ballots, build-ballots))

receive_snapshot-Effect :
    (rng : Rng) (c : RaftCore) (req : InstallSnapshotRpc) (input : Input)
    (r : RaftCore × List Action)
    → receive_snapshot rng c req ≡ ok r
    → NodeEffect c input r.0 r.1
unfolding receive_snapshot reset_election_timeout
receive_snapshot-Effect rng c req input r h =
    quiet_step c input r.0 r.1 (record { id = ground arith; peers = ground arith; role = kind })
      (unfold ballots in ground arith)
  where
    kind :
        (r.0.state ≡ follower)
        ⊎ ((r.0.state ≡ c.state)
            × (r.0.current_term ≡ c.current_term)
            × (r.0.votes_received ≡ c.votes_received))
    kind = ground arith

note_snapshot-Effect :
    (c : RaftCore) (resp : InstallSnapshotResponseRpc) (input : Input)
    → NodeEffect c input (note_snapshot c resp) []
unfolding note_snapshot
note_snapshot-Effect c resp input =
    quiet_step c input (note_snapshot c resp) []
      (record {
        id = ground arith;
        peers = ground arith;
        role = inr (ground arith, ground arith, ground arith);
      })
      (unfold ballots in refl)

propose-Effect :
    (c : RaftCore) (command : Bytes) (input : Input) (r : RaftCore × Option (List Action))
    → propose c command ≡ ok r
    → NodeEffect c input r.0 (unwrap_or r.1 [])
propose-Effect c command input r h =
    let f = propose-frame c command h in
    quiet_step c input r.0 (unwrap_or r.1 [])
      (record {
        id = ap (λ (x : RaftCore). x.id) f;
        peers = ap (λ (x : RaftCore). x.peers) f;
        role = inr (
          ap (λ (x : RaftCore). x.state) f,
          ap (λ (x : RaftCore). x.current_term) f,
          ap (λ (x : RaftCore). x.votes_received) f,
        );
      })
      (unfold propose append_proposal ballots in grind (arith, append_entries_to_peers-ballots))

on_tick-Effect :
    (s : RaftState) (rng : Rng) (c : RaftCore) (input : Input) (r : RaftCore × List Action)
    → on_tick s rng c ≡ ok r
    → NodeEffect c input r.0 r.1
unfolding on_tick
on_tick-Effect leader rng c input r h = heartbeat-Effect c input r h
on_tick-Effect candidate rng c input r h = election_timeout-Effect rng c input r h
on_tick-Effect follower rng c input r h = election_timeout-Effect rng c input r h

-- The effect does not depend on the clock.
ticked-Effect :
    (c : RaftCore) (t : ℕ) (input : Input) (c' : RaftCore) (b : List Action)
    → Effect (record c { ticks_since_last_heartbeat = t }) input c' b
    → Effect c input c' b
ticked-Effect c t input c' b (quiet e f) = quiet e f
ticked-Effect c t input c' b (stands e v s w) = stands e v s w
ticked-Effect c t input c' b (grants j e v f) = grants j e v f
ticked-Effect c t input c' b (counts resp e p g l s k w m) = counts resp e p g l s k w m

receive-Effect :
    (rng : Rng) (c : RaftCore) (m : Message) (r : RaftCore × List Action)
    → receive rng c m ≡ ok r
    → NodeEffect c (received m) r.0 r.1
unfolding receive handle_request_vote handle_request_vote_response handle_append_entries
    handle_append_entries_response handle_install_snapshot handle_install_snapshot_response
receive-Effect rng c (request_vote req) r e =
    after_term_check-Effect rng c req.term (received (request_vote req)) _ r
      (λ c' s l h. answer_vote-Effect rng c' req (received (request_vote req)) s h) e
receive-Effect rng c (request_vote_response resp) r e =
    after_term_check-Effect rng c resp.term (received (request_vote_response resp)) _ r
      (λ c' s l h. count_vote-Effect rng c' resp s l h) e
receive-Effect rng c (append_entries req) r e =
    after_term_check-Effect rng c req.term (received (append_entries req)) _ r
      (λ c' s l h. receive_entries-Effect rng c' req (received (append_entries req)) s h) e
receive-Effect rng c (append_entries_response resp) r e =
    after_term_check-Effect rng c resp.term (received (append_entries_response resp)) _ r
      (λ c' s l h. note_response-Effect c' resp (received (append_entries_response resp)) s h) e
receive-Effect rng c (install_snapshot req) r e =
    after_term_check-Effect rng c req.term (received (install_snapshot req)) _ r
      (λ c' s l h. receive_snapshot-Effect rng c' req (received (install_snapshot req)) s h) e
receive-Effect rng c (install_snapshot_response resp) r e =
    after_term_check-Effect rng c resp.term (received (install_snapshot_response resp)) _ r
      (λ c' s l h.
        subst
          (λ (x : RaftCore × List Action).
            NodeEffect c' (received (install_snapshot_response resp)) x.0 x.1)
          (ok-injective h)
          (note_snapshot-Effect c' resp (received (install_snapshot_response resp))))
      e

pub step-Effect :
    (rng : Rng) (c : RaftCore) (input : Input) (r : RaftCore × List Action)
    → step rng c input ≡ ok r
    → NodeEffect c input r.0 r.1
unfolding step tick
step-Effect rng c ticked r e =
    let n =
      on_tick-Effect c.state rng
        (record c { ticks_since_last_heartbeat = wadd c.ticks_since_last_heartbeat 1 }) ticked r
        e in
    record {
      id = n.id;
      peers = n.peers;
      effect = ticked-Effect c _ ticked r.0 (ballots r.1) n.effect;
    }
step-Effect rng c (proposed command) r e =
    let (s, p, q) = >>=-eq-ok (propose c command) _ e in
    subst (λ (x : RaftCore × List Action). NodeEffect c (proposed command) x.0 x.1) (ok-injective q)
      (propose-Effect c command (proposed command) s p)
step-Effect rng c (received message) r e = receive-Effect rng c message r e
step-Effect rng c read_requested r e =
    subst (λ (x : RaftCore × List Action). NodeEffect c read_requested x.0 x.1) (ok-injective e)
      (quiet_step c read_requested (request_read_barrier c).0 []
        (unfold request_read_barrier in
          record {
            id = ground arith;
            peers = ground arith;
            role = inr (ground arith, ground arith, ground arith);
          })
        (unfold ballots in refl))
step-Effect rng c (snapshot_stored metadata) r e =
    let (c', p, q) = >>=-eq-ok (complete_snapshot c metadata) _ e in
    subst (λ (x : RaftCore × List Action). NodeEffect c (snapshot_stored metadata) x.0 x.1)
      (ok-injective q)
      (quiet_step c (snapshot_stored metadata) c' []
        (unfold complete_snapshot in
          record {
            id = ground arith;
            peers = ground arith;
            role = inr (ground arith, ground arith, ground arith);
          })
        (unfold ballots in refl))
