-- ===== src/Durable/Handlers.antt =====
-- Every method of crates/raftcore/src/lib.rs has what it changes of the durable state written, and
-- written before it sends.
use ferris_ferry.Prelude.{
  ℕ, ◌+◌, ◌-◌, ◌≡◌, refl, sym, ap, ap₂, ◌∙◌, Option, some, List, [], ◌∷◌, ◌++◌, true, ok, Result,
  arith, >>=-eq-ok, ok-injective, insert_set, length-snoc, length-drop, ◌&&◌, subst, Bool-cases,
  inl, inr, length, unwrap_or,
}
use ferris_ferry.Types.{
  RaftState, leader, follower, candidate, LogEntry, persist_log_entries, is_candidate_state,
  RequestVoteRpc, RequestVoteResponseRpc, AppendEntriesResponseRpc, InstallSnapshotRpc, Action,
}
use ferris_ferry.Core.State.{
  Rng, RaftCore, begin, check_msg_term, reset_election_timeout, after_term_check,
}
use ferris_ferry.Core.Log.{last_log_index}
use ferris_ferry.Core.Log.Bounds.{last_log_index-eq, HasRoom}
use ferris_ferry.Core.Replicate.{push_entry, append_entries_to_peers, append_proposal, heartbeat}
use ferris_ferry.Core.Replicate.Build.{entries_from, log_slice-last}
use ferris_ferry.Core.Election.{
  election_timeout, on_tick, answer_vote, become_leader, has_majority, count_vote,
}
use ferris_ferry.Core.Election.Frame.{reset-frame}
use ferris_ferry.Core.Commit.{advance_commit, note_success, note_response}
use ferris_ferry.Core.Snapshot.{receive_snapshot}
use ferris_ferry.Durable.{
  image, persist_all, no_persist, persists_first, all_contiguous, all_contiguous-append,
  all_contiguous-cons, all_contiguous-no_persist, persist_all-append, no_persist-append,
  persist_all-no_persist, persists_first-no_persist, IsDurable, quiet,
}
use ferris_ferry.Durable.Replication.{
  append_entries_to_peers-no_persist, ready_barriers-no_persist, build-no_persist,
  map_send-no_persist, noop, tracked, image-tracked, initialize_leader_state-eq,
  apply_actions-no_persist, pushed-persist,
}

-- The check of a message's term, ahead of other actions.
record Begins (c : RaftCore) (s : RaftCore × List Action) : Type 0 where
  written : persist_all (image c) s.1 ≡ image s.0
  log : s.0.log ≡ c.log
  index : s.0.last_included_index ≡ c.last_included_index
  ranged : all_contiguous (image c) s.1 ≡ true

begin-Begins :
    (rng : Rng) (c : RaftCore) (t : ℕ) {s : RaftCore × List Action}
    → begin rng c t ≡ ok s
    → Begins c s
unfolding begin check_msg_term persist_all all_contiguous
begin-Begins rng c t h = record {
  written = ground arith;
  log = ground arith;
  index = ground arith;
  ranged = ground arith;
}

begin-first :
    (rng : Rng) (c : RaftCore) (t : ℕ) {s : RaftCore × List Action} (xs : List Action)
    → begin rng c t ≡ ok s
    → persists_first xs ≡ true
    → persists_first (s.1 ++ xs) ≡ true
unfolding begin check_msg_term persists_first
begin-first rng c t xs h k = ground arith

-- A handler is durable if its body is, from any node with the same log.
pub after_term_check-IsDurable :
    (rng : Rng) (c : RaftCore) (t : ℕ) (body : RaftCore → Result (RaftCore × List Action))
    {r : RaftCore × List Action}
    → ((c' : RaftCore) (s : RaftCore × List Action)
        → c'.log ≡ c.log
        → c'.last_included_index ≡ c.last_included_index
        → body c' ≡ ok s
        → IsDurable c' s)
    → after_term_check rng c t body ≡ ok r
    → IsDurable c r
unfolding after_term_check
after_term_check-IsDurable rng c t body rest h =
    let (s, p, q) = >>=-eq-ok (begin rng c t) _ h in
    let (s', p', q') = >>=-eq-ok (body s.0) _ q in
    let b = begin-Begins rng c t p in
    let d = rest s.0 s' b.log b.index p' in
    subst (IsDurable c) (ok-injective q') (record {
      written =
          persist_all-append (image c) s.1 s'.1
          ∙ ap (λ i. persist_all i s'.1) b.written
          ∙ d.written;
      first = begin-first rng c t s'.1 p d.first;
      ranged =
          all_contiguous-append (image c) s.1 s'.1
          ∙ ap₂ ◌&&◌ b.ranged (ap (λ i. all_contiguous i s'.1) b.written ∙ d.ranged);
    })

pub answer_vote-IsDurable :
    (rng : Rng) (c : RaftCore) (req : RequestVoteRpc) {r : RaftCore × List Action}
    → answer_vote rng c req ≡ ok r
    → IsDurable c r
unfolding answer_vote reset_election_timeout persist_all persists_first all_contiguous
answer_vote-IsDurable rng c req h = record {
  written = ground arith;
  first = ground arith;
  ranged = ground arith;
}

heartbeat-IsDurable :
    (c : RaftCore) {r : RaftCore × List Action} → heartbeat c ≡ ok r → IsDurable c r
unfolding heartbeat no_persist
heartbeat-IsDurable c {r} h =
    quiet c r (ground arith) (grind (arith, append_entries_to_peers-no_persist))

election_timeout-IsDurable :
    (rng : Rng) (c : RaftCore) {r : RaftCore × List Action}
    → election_timeout rng c ≡ ok r
    → IsDurable c r
unfolding election_timeout reset_election_timeout persists_first persist_all all_contiguous
election_timeout-IsDurable rng c h = record {
  written = grind (arith, map_send-no_persist, persist_all-no_persist);
  first = grind (arith, map_send-no_persist, persists_first-no_persist);
  ranged = grind (arith, map_send-no_persist, all_contiguous-no_persist);
}

pub on_tick-IsDurable :
    (s : RaftState) (rng : Rng) (c : RaftCore) {r : RaftCore × List Action}
    → on_tick s rng c ≡ ok r
    → IsDurable c r
unfolding on_tick
on_tick-IsDurable leader rng c h = heartbeat-IsDurable c h
on_tick-IsDurable candidate rng c h = election_timeout-IsDurable rng c h
on_tick-IsDurable follower rng c h = election_timeout-IsDurable rng c h

advance_commit-IsDurable :
    (c : RaftCore) {r : RaftCore × List Action} → advance_commit c ≡ ok r → IsDurable c r
unfolding advance_commit
advance_commit-IsDurable c {r} h =
    quiet c r (ground arith)
      (grind (arith, no_persist-append, apply_actions-no_persist, ready_barriers-no_persist))

pub note_response-IsDurable :
    (c : RaftCore) (resp : AppendEntriesResponseRpc) {r : RaftCore × List Action}
    → note_response c resp ≡ ok r
    → IsDurable c r
unfolding note_response
note_response-IsDurable c resp {r} h = elim (Bool-cases resp.success) [
  | inl e ↦
      let d = advance_commit-IsDurable (note_success c resp) (rw e at h) in
      record { written = d.written; first = d.first; ranged = d.ranged }
  | inr e ↦ quiet c r (ground arith) (grind (arith, build-no_persist))
]

pub receive_snapshot-IsDurable :
    (rng : Rng) (c : RaftCore) (req : InstallSnapshotRpc) {r : RaftCore × List Action}
    → receive_snapshot rng c req ≡ ok r
    → IsDurable c r
unfolding receive_snapshot reset_election_timeout persist_all persists_first all_contiguous
receive_snapshot-IsDurable rng c req h = record {
  written = ground arith;
  first = ground arith;
  ranged = ground arith;
}

-- One entry is appended and written, and then messages are sent.
entry_then_sent :
    (c c' : RaftCore) (e : LogEntry) (sent : List Action)
    → HasRoom (push_entry c e) 1
    → image c' ≡ image (push_entry c e)
    → no_persist sent ≡ true
    → IsDurable c (
      c',
      persist_log_entries
            (last_log_index (push_entry c e))
            (entries_from (push_entry c e) (c.last_included_index + length (push_entry c e).log))
          ∷ sent,
    )
entry_then_sent c c' e sent room same n = record {
  written =
      unfold persist_all in
      persist_all-no_persist _ sent n
      ∙ pushed-persist (image c) c e room refl refl
      ∙ unfold push_entry in sym same;
  first = unfold persists_first in persists_first-no_persist sent n;
  ranged =
      all_contiguous-cons (image c) _ sent
        (unfold push_entry in
          ground (
            arith,
            room,
            last_log_index-eq (push_entry c e) (omega (arith, room)),
            length-snoc c.log e,
            length-drop
                (c.last_included_index
                  + length (push_entry c e).log
                  - (push_entry c e).last_included_index
                  - 1)
                (c.log ++ e ∷ []),
          ))
        (all_contiguous-no_persist _ sent n);
}

become_leader-IsDurable :
    (rng : Rng) (c : RaftCore) {r : RaftCore × List Action}
    → HasRoom c 2
    → become_leader rng c ≡ ok r
    → IsDurable c r
unfolding become_leader
become_leader-IsDurable rng c {r} room h =
    let lead = record c { state = leader; current_leader = some c.id } in
    let (c', p, q) =
      >>=-eq-ok (reset_election_timeout rng 1 (tracked lead)) _
        (rw (initialize_leader_state-eq lead room) at h) in
    let (sent, p', q') = >>=-eq-ok (append_entries_to_peers c') _ q in
    let d =
      entry_then_sent lead c' (noop lead) sent
        (unfold push_entry in omega (arith, length-snoc c.log (noop lead), room))
        (ap image (reset-frame rng 1 (tracked lead) p) ∙ image-tracked lead)
        (append_entries_to_peers-no_persist c' p') in
    subst (IsDurable c) (ok-injective q')
      (record { written = d.written; first = d.first; ranged = d.ranged })

pub count_vote-IsDurable :
    (rng : Rng) (c : RaftCore) (resp : RequestVoteResponseRpc) {r : RaftCore × List Action}
    → HasRoom c 2
    → count_vote rng c resp ≡ ok r
    → IsDurable c r
unfolding count_vote
count_vote-IsDurable rng c resp {r} room h =
    let c' = record c { votes_received = insert_set resp.id c.votes_received } in
    elim (Bool-cases (is_candidate_state c.state && resp.vote_granted)) [
      | inl e ↦ elim (Bool-cases (has_majority c')) [
        | inl won ↦
            let d = become_leader-IsDurable rng c' room (rw (e, won) at h) in
            record { written = d.written; first = d.first; ranged = d.ranged }
        | inr waits ↦
            subst (IsDurable c) (ok-injective (rw (e, waits) at h))
              (quiet c (c', []) refl (unfold no_persist in refl))
      ]
      | inr e ↦
          subst (IsDurable c) (ok-injective (rw e at h))
            (quiet c (c, []) refl (unfold no_persist in refl))
    ]

pub append_proposal-IsDurable :
    (c : RaftCore) (e : LogEntry) {r : RaftCore × Option (List Action)}
    → HasRoom c 2
    → append_proposal c e ≡ ok r
    → IsDurable c (r.0, unwrap_or r.1 [])
unfolding append_proposal push_entry last_log_index
append_proposal-IsDurable c e {r} room h =
    let c' = record (push_entry c e) { ticks_since_last_heartbeat = 0 } in
    let room' : HasRoom c' 1 = omega (arith, length-snoc c.log e) in
    let (sent, p, q) =
      >>=-eq-ok (append_entries_to_peers c') _ (rw (log_slice-last c' room') at h) in
    let d =
      entry_then_sent c c' e sent (unfold push_entry in omega (arith, length-snoc c.log e, room))
        (unfold push_entry in refl) (append_entries_to_peers-no_persist c' p) in
    subst (λ (s : RaftCore × Option (List Action)). IsDurable c (s.0, unwrap_or s.1 []))
      (ok-injective q) d
