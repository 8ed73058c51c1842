-- ===== src/Core/Node/Votes.antt =====
-- Terms and votes of a node, over all that crates/raftcore/src/lib.rs does with them.
use ferris_ferry.Prelude.{
  ℕ, ◌+◌, ◌≤◌, ◌<◌, ◌≡◌, some, List, ok, arith, u64_mod, wadd, wadd-eq-add, >>=-eq-ok,
}
use ferris_ferry.Types.{
  RaftState, leader, follower, candidate, RequestVoteRpc, AppendEntriesRpc,
  AppendEntriesResponseRpc, InstallSnapshotRpc, InstallSnapshotResponseRpc, Message, request_vote,
  request_vote_response, append_entries, append_entries_response, install_snapshot,
  install_snapshot_response, Action,
}
use ferris_ferry.Core.State.{Rng, RaftCore, begin, check_msg_term, reset_election_timeout}
use ferris_ferry.Core.State.Rules.{after_term_check-rule}
use ferris_ferry.Core.Replicate.{propose}
use ferris_ferry.Core.Replicate.Frame.{heartbeat-frame, propose-frame}
use ferris_ferry.Core.Election.{
  answer_vote, election_timeout, tick, on_tick, handle_request_vote, handle_request_vote_response,
}
use ferris_ferry.Core.Election.Frame.{count_vote-frame}
use ferris_ferry.Core.Append.{receive_entries, hear_leader, handle_append_entries}
use ferris_ferry.Core.Append.Frame.{accept_entries-frame}
use ferris_ferry.Core.Commit.{
  note_response, advance_commit, handle_append_entries_response, request_read_barrier,
}
use ferris_ferry.Core.Snapshot.{
  receive_snapshot, note_snapshot, complete_snapshot, handle_install_snapshot,
  handle_install_snapshot_response,
}
use ferris_ferry.Core.Node.{
  receive, step, Input, ticked, proposed, received, read_requested, snapshot_stored, Reach, here,
  next,
}

-- The term never falls, and a vote is not changed within a term.
pub record KeepsVote (c c' : RaftCore) : Type 0 where
  pub term_le : c.current_term ≤ c'.current_term
  pub vote :
      (v : ℕ) → c.current_term ≡ c'.current_term → c.voted_for ≡ some v → c'.voted_for ≡ some v

KeepsVote-trans : (a b c : RaftCore) → KeepsVote a b → KeepsVote b c → KeepsVote a c
KeepsVote-trans a b c p q = record {
  term_le = omega arith;
  vote = λ v e h. q.vote v (omega arith) (p.vote v (omega arith) h);
}

-- A part that leaves the term and the vote alone.
same :
    (c c' : RaftCore)
    → c'.current_term ≡ c.current_term
    → c'.voted_for ≡ c.voted_for
    → KeepsVote c c'
same c c' t v = record { term_le = omega arith; vote = λ w e h. cc }

begin-KeepsVote :
    (rng : Rng) (c : RaftCore) (t : ℕ) (r : RaftCore × List Action)
    → begin rng c t ≡ ok r
    → KeepsVote c r.0
unfolding begin check_msg_term
begin-KeepsVote rng c t r e = record { term_le = ground arith; vote = λ v s h. ground arith }

answer_vote-KeepsVote :
    (rng : Rng) (c : RaftCore) (req : RequestVoteRpc) (r : RaftCore × List Action)
    → answer_vote rng c req ≡ ok r
    → KeepsVote c r.0
unfolding answer_vote reset_election_timeout
answer_vote-KeepsVote rng c req r e = record {
  term_le = ground arith;
  vote = λ v s h. ground arith;
}

election_timeout-KeepsVote :
    (rng : Rng) (c : RaftCore) (r : RaftCore × List Action)
    → c.current_term + 1 < u64_mod
    → election_timeout rng c ≡ ok r
    → KeepsVote c r.0
unfolding election_timeout reset_election_timeout
election_timeout-KeepsVote rng c r h e = record {
  term_le = ground (arith, wadd-eq-add c.current_term 1);
  vote = λ v s g. ground (arith, wadd-eq-add c.current_term 1);
}

on_tick-KeepsVote :
    (s : RaftState) (rng : Rng) (c : RaftCore) (r : RaftCore × List Action)
    → c.current_term + 1 < u64_mod
    → on_tick s rng c ≡ ok r
    → KeepsVote c r.0
unfolding on_tick
on_tick-KeepsVote leader rng c r h e =
    same c r.0 (ground (arith, heartbeat-frame c e)) (ground (arith, heartbeat-frame c e))
on_tick-KeepsVote candidate rng c r h e = election_timeout-KeepsVote rng c r h e
on_tick-KeepsVote follower rng c r h e = election_timeout-KeepsVote rng c r h e

tick-KeepsVote :
    (rng : Rng) (c : RaftCore) (r : RaftCore × List Action)
    → c.current_term + 1 < u64_mod
    → tick rng c ≡ ok r
    → KeepsVote c r.0
unfolding tick
tick-KeepsVote rng c r h e =
    let k =
      on_tick-KeepsVote c.state rng
        (record c { ticks_since_last_heartbeat = wadd c.ticks_since_last_heartbeat 1 }) r h e in
    record { term_le = k.term_le; vote = k.vote }

receive_entries-KeepsVote :
    (rng : Rng) (c : RaftCore) (req : AppendEntriesRpc) (r : RaftCore × List Action)
    → receive_entries rng c req ≡ ok r
    → KeepsVote c r.0
unfolding receive_entries hear_leader reset_election_timeout
receive_entries-KeepsVote rng c req r e =
    same c r.0 (grind (arith, accept_entries-frame)) (grind (arith, accept_entries-frame))

note_response-KeepsVote :
    (c : RaftCore) (resp : AppendEntriesResponseRpc) (r : RaftCore × List Action)
    → note_response c resp ≡ ok r
    → KeepsVote c r.0
unfolding note_response advance_commit
note_response-KeepsVote c resp r e = same c r.0 (ground arith) (ground arith)

receive_snapshot-KeepsVote :
    (rng : Rng) (c : RaftCore) (req : InstallSnapshotRpc) (r : RaftCore × List Action)
    → receive_snapshot rng c req ≡ ok r
    → KeepsVote c r.0
unfolding receive_snapshot reset_election_timeout
receive_snapshot-KeepsVote rng c req r e = same c r.0 (ground arith) (ground arith)

note_snapshot-KeepsVote :
    (c : RaftCore) (resp : InstallSnapshotResponseRpc) → KeepsVote c (note_snapshot c resp)
unfolding note_snapshot
note_snapshot-KeepsVote c resp = same c _ (ground arith) (ground arith)

receive-KeepsVote :
    (rng : Rng) (c : RaftCore) (m : Message) (r : RaftCore × List Action)
    → receive rng c m ≡ ok r
    → KeepsVote c r.0
unfolding receive handle_request_vote handle_request_vote_response handle_append_entries
    handle_append_entries_response handle_install_snapshot handle_install_snapshot_response
receive-KeepsVote rng c (request_vote req) r e =
    after_term_check-rule KeepsVote KeepsVote-trans rng c req.term _
      (begin-KeepsVote rng c req.term) (λ c' s h. answer_vote-KeepsVote rng c' req s h) e
receive-KeepsVote rng c (request_vote_response resp) r e =
    after_term_check-rule KeepsVote KeepsVote-trans rng c resp.term _
      (begin-KeepsVote rng c resp.term)
      (λ c' s h.
        same c' s.0 (ground (arith, count_vote-frame rng c' resp h))
          (ground (arith, count_vote-frame rng c' resp h)))
      e
receive-KeepsVote rng c (append_entries req) r e =
    after_term_check-rule KeepsVote KeepsVote-trans rng c req.term _
      (begin-KeepsVote rng c req.term) (λ c' s h. receive_entries-KeepsVote rng c' req s h) e
receive-KeepsVote rng c (append_entries_response resp) r e =
    after_term_check-rule KeepsVote KeepsVote-trans rng c resp.term _
      (begin-KeepsVote rng c resp.term) (λ c' s h. note_response-KeepsVote c' resp s h) e
receive-KeepsVote rng c (install_snapshot req) r e =
    after_term_check-rule KeepsVote KeepsVote-trans rng c req.term _
      (begin-KeepsVote rng c req.term) (λ c' s h. receive_snapshot-KeepsVote rng c' req s h) e
receive-KeepsVote rng c (install_snapshot_response resp) r e =
    after_term_check-rule KeepsVote KeepsVote-trans rng c resp.term _
      (begin-KeepsVote rng c resp.term) (λ c' s h. ground (arith, note_snapshot-KeepsVote c' resp))
      e

-- Whatever the input, a step that starts below the largest term neither lowers the term nor changes
-- a vote within the term.
pub step-KeepsVote :
    (rng : Rng) (c : RaftCore) (input : Input) (r : RaftCore × List Action)
    → c.current_term + 1 < u64_mod
    → step rng c input ≡ ok r
    → KeepsVote c r.0
unfolding step
step-KeepsVote rng c ticked r h e = unfold tick in tick-KeepsVote rng c r h e
step-KeepsVote rng c (proposed command) r h e =
    let (s, p, q) = >>=-eq-ok (propose c command) _ e in
    same c r.0 (ground (arith, propose-frame c command p))
      (ground (arith, propose-frame c command p))
step-KeepsVote rng c (received message) r h e = receive-KeepsVote rng c message r e
step-KeepsVote rng c read_requested r h e =
    unfold request_read_barrier in same c r.0 (ground arith) (ground arith)
step-KeepsVote rng c (snapshot_stored metadata) r h e =
    unfold complete_snapshot in same c r.0 (ground arith) (ground arith)

-- In any history of a node below the largest term, the term never falls, and as long as the term stays
-- the same a vote that was given in it stays the same: a node votes for one candidate in a term.
pub Reach-KeepsVote :
    (limit : ℕ) (c c' : RaftCore) → limit + 1 < u64_mod → Reach limit c c' → KeepsVote c c'
Reach-KeepsVote limit c c' h here = record { term_le = omega arith; vote = λ v e g. g }
Reach-KeepsVote limit c c' h (next {c₁} rng input actions r b e) =
    KeepsVote-trans c c₁ c' (Reach-KeepsVote limit c c₁ h r)
      (step-KeepsVote rng c₁ input (c', actions) (omega arith) e)
