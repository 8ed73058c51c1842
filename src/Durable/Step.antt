-- ===== src/Durable/Step.antt =====
-- Crash safety of a node's steps (crates/raftcore/src/lib.rs): a message leaves a node only when all that
-- the step changed of its durable state is written.
use ferris_ferry.Prelude.{
  ◌+◌, ◌≤◌, ◌≡◌, refl, sym, ap, ◌∙◌, Option, List, [], ◌∷◌, ◌++◌, true, Bool-cases, inl, inr, ok,
  arith, >>=-eq-ok, ok-injective, subst, length, unwrap_or, wadd, ◌&&◌, ◌==◌,
}
use ferris_ferry.Types.{
  follower, Bytes, AppendEntriesRpc, InstallSnapshotResponseRpc, Message, request_vote,
  request_vote_response, append_entries, append_entries_response, install_snapshot,
  install_snapshot_response, Action, is_candidate_state,
}
use ferris_ferry.Core.State.{Rng, RaftCore, is_leader}
use ferris_ferry.Core.Log.Bounds.{HasRoom}
use ferris_ferry.Core.Replicate.{propose}
use ferris_ferry.Core.Election.{tick, handle_request_vote, handle_request_vote_response}
use ferris_ferry.Core.Append.{receive_entries, handle_append_entries}
use ferris_ferry.Core.Commit.{handle_append_entries_response, request_read_barrier}
use ferris_ferry.Core.Snapshot.{
  note_snapshot, handle_install_snapshot, handle_install_snapshot_response,
}
use ferris_ferry.Core.Node.{
  receive, step, Input, ticked, proposed, received, read_requested, snapshot_stored,
}
use ferris_ferry.Durable.{
  image, persist_all, no_persist, persists_first, is_send, persist_all-append,
  persist_all-no_persist, IsDurable, quiet,
}
use ferris_ferry.Durable.Appending.{hear_leader-IsDurable}
use ferris_ferry.Durable.Handlers.{
  after_term_check-IsDurable, on_tick-IsDurable, answer_vote-IsDurable, note_response-IsDurable,
  receive_snapshot-IsDurable, count_vote-IsDurable, append_proposal-IsDurable,
}

-- What a step needs: room in the log for what it may append, and entries that start at or after the
-- snapshot. That a snapshot is stored is not asked for by an action, so that step is left out.
abbrev pub IsOrdinary : RaftCore → Input → Type 0
IsOrdinary c (proposed command) = HasRoom c 2
IsOrdinary c (received (request_vote_response resp)) = HasRoom c 2
IsOrdinary c (received (append_entries req)) =
    (c.last_included_index ≤ req.prev_log_index) × HasRoom c (length req.entries + 1)
IsOrdinary c (snapshot_stored metadata) = ⊥
IsOrdinary c _ = Unit

receive_entries-IsDurable :
    (rng : Rng) (c : RaftCore) (req : AppendEntriesRpc) {r : RaftCore × List Action}
    → HasRoom c (length req.entries + 1)
    → c.last_included_index ≤ req.prev_log_index
    → receive_entries rng c req ≡ ok r
    → IsDurable c r
unfolding receive_entries
receive_entries-IsDurable rng c req room l h =
    elim (Bool-cases (req.term == c.current_term && is_candidate_state c.state)) [
      | inl e ↦
          let d =
            hear_leader-IsDurable rng (record c { state = follower }) req room l (rw e at h) in
          record { written = d.written; first = d.first; ranged = d.ranged }
      | inr e ↦ hear_leader-IsDurable rng c req room l (rw e at h)
    ]

image-note_snapshot :
    (c : RaftCore) (resp : InstallSnapshotResponseRpc) → image (note_snapshot c resp) ≡ image c
unfolding note_snapshot
image-note_snapshot c resp = ground arith

image-request_read_barrier : (c : RaftCore) → image (request_read_barrier c).0 ≡ image c
unfolding request_read_barrier
image-request_read_barrier c = ground arith

receive-IsDurable :
    (rng : Rng) (c : RaftCore) (m : Message) (r : RaftCore × List Action)
    → IsOrdinary c (received m)
    → receive rng c m ≡ ok r
    → IsDurable c r
unfolding receive handle_request_vote handle_request_vote_response handle_append_entries
    handle_append_entries_response handle_install_snapshot handle_install_snapshot_response
receive-IsDurable rng c (request_vote req) r o h =
    after_term_check-IsDurable rng c req.term _ (λ c' s p q k. answer_vote-IsDurable rng c' req k) h
receive-IsDurable rng c (request_vote_response resp) r o h =
    after_term_check-IsDurable rng c resp.term _
      (λ c' s p q k. count_vote-IsDurable rng c' resp (omega (arith, o, ap length p)) k) h
receive-IsDurable rng c (append_entries req) r o h =
    after_term_check-IsDurable rng c req.term _
      (λ c' s p q k.
        receive_entries-IsDurable rng c' req (omega (arith, o.1, ap length p)) (omega (arith, o.0))
          k)
      h
receive-IsDurable rng c (append_entries_response resp) r o h =
    after_term_check-IsDurable rng c resp.term _ (λ c' s p q k. note_response-IsDurable c' resp k) h
receive-IsDurable rng c (install_snapshot req) r o h =
    after_term_check-IsDurable rng c req.term _
      (λ c' s p q k. receive_snapshot-IsDurable rng c' req k) h
receive-IsDurable rng c (install_snapshot_response resp) r o h =
    after_term_check-IsDurable rng c resp.term _
      (λ c' s p q k. subst (IsDurable c') (ok-injective k) (
        quiet c' (note_snapshot c' resp, []) (image-note_snapshot c' resp)
          (unfold no_persist in refl)))
      h

propose-IsDurable :
    (c : RaftCore) (command : Bytes) {s : RaftCore × Option (List Action)}
    → HasRoom c 2
    → propose c command ≡ ok s
    → IsDurable c (s.0, unwrap_or s.1 [])
unfolding propose
propose-IsDurable c command o h = elim (Bool-cases (is_leader c)) [
  | inl e ↦ append_proposal-IsDurable c _ o (rw e at h)
  | inr e ↦
      subst (λ (s : RaftCore × Option (List Action)). IsDurable c (s.0, unwrap_or s.1 []))
        (ok-injective (rw e at h)) (quiet c (c, []) refl (unfold no_persist in refl))
]

pub step-IsDurable :
    (rng : Rng) (c : RaftCore) (input : Input) (r : RaftCore × List Action)
    → IsOrdinary c input
    → step rng c input ≡ ok r
    → IsDurable c r
unfolding step tick
step-IsDurable rng c ticked r o h =
    let d =
      on_tick-IsDurable c.state rng
        (record c { ticks_since_last_heartbeat = wadd c.ticks_since_last_heartbeat 1 }) h in
    record { written = d.written; first = d.first; ranged = d.ranged }
step-IsDurable rng c (proposed command) r o h =
    let (s, p, q) = >>=-eq-ok (propose c command) _ h in
    subst (IsDurable c) (ok-injective q) (propose-IsDurable c command o p)
step-IsDurable rng c (received message) r o h = receive-IsDurable rng c message r o h
step-IsDurable rng c read_requested r o h = subst (IsDurable c) (ok-injective h) (
    quiet c ((request_read_barrier c).0, []) (image-request_read_barrier c)
      (unfold no_persist in refl))
step-IsDurable rng c (snapshot_stored metadata) r o h = absurd o

no_persist-right : (xs ys : List Action) → no_persist (xs ++ ys) ≡ true → no_persist ys ≡ true
unfolding no_persist
no_persist-right [] ys h = h
no_persist-right (x ∷ xs) ys h = no_persist-right xs ys (ground arith)

after_send :
    (xs ys : List Action) (a : Action)
    → persists_first (xs ++ a ∷ ys) ≡ true
    → is_send a ≡ true
    → no_persist (a ∷ ys) ≡ true
unfolding persists_first
after_send [] ys a h s = ground arith
after_send (x ∷ xs) ys a h s = elim (Bool-cases (is_send x)) [
  | inl e ↦ no_persist-right xs (a ∷ ys) (rw e at h)
  | inr e ↦ after_send xs ys a (rw e at h) s
]

-- Let a node make any step but that of a stored snapshot, where the entries of a request to append start
-- after the node's snapshot (`prev_log_index` is the snapshot's index or a later one) and the log has room, in 64
-- bits, for them and one more entry, and for two more where a command is proposed or a vote comes in. What stands in storage when
-- the first message of the step is sent, and when any later one is, is exactly the node's term, vote, snapshot point
-- and log after the step: whatever was promised by a message survives a crash.
pub written-before-sent :
    (rng : Rng) (c : RaftCore) (input : Input) (c' : RaftCore) (before after : List Action)
    (a : Action)
    → IsOrdinary c input
    → step rng c input ≡ ok (c', before ++ a ∷ after)
    → is_send a ≡ true
    → persist_all (image c) before ≡ image c'
written-before-sent rng c input c' before after a o h s =
    let d = step-IsDurable rng c input (c', before ++ a ∷ after) o h in
    sym (
      persist_all-append (image c) before (a ∷ after)
      ∙ persist_all-no_persist (persist_all (image c) before) (a ∷ after)
          (after_send before after a d.first s))
    ∙ d.written
