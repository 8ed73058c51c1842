-- ===== src/Validity/Step.antt =====
-- Every method of a valid node (crates/raftcore/src/lib.rs) at once.
use ferris_ferry.Prelude.{
  ◌+◌, ◌-◌, ◌≤◌, ◌<◌, refl, leb, le→leb, length, drop, length-drop, u64_mod, Returns, Returns-if,
  Returns-bind, Returns-weaken, arith,
}
use ferris_ferry.Types.{
  SnapshotMetadata, InstallSnapshotResponseRpc, Message, request_vote, request_vote_response,
  append_entries, append_entries_response, install_snapshot, install_snapshot_response,
}
use ferris_ferry.Core.State.{Rng, RaftCore}
use ferris_ferry.Core.State.Rules.{checked, after_term_check-Returns}
use ferris_ferry.Core.Log.Bounds.{HasRoom}
use ferris_ferry.Core.Replicate.{propose}
use ferris_ferry.Core.Append.{handle_append_entries}
use ferris_ferry.Core.Commit.{handle_append_entries_response, request_read_barrier}
use ferris_ferry.Core.Commit.Quorum.{MatchBounded}
use ferris_ferry.Core.Snapshot.{complete_snapshot, note_snapshot, handle_install_snapshot_response}
use ferris_ferry.Core.Node.{
  Input, ticked, proposed, received, read_requested, snapshot_stored, receive, step,
}
use ferris_ferry.Validity.{IsValid}
use ferris_ferry.Validity.Election.{
  checked-IsValid, tick-IsValid, propose-IsValid, handle_request_vote-IsValid,
  handle_request_vote_response-IsValid,
}
use ferris_ferry.Validity.Append.{Fits, handle_append_entries-IsValid}
use ferris_ferry.Validity.Commit.{handle_append_entries_response-IsValid}
use ferris_ferry.Validity.Snapshot.{handle_install_snapshot-IsValid}

-- What the methods ask of their inputs: room in the log for an entry that may be appended, entries that fit, no
-- claim of more entries than there are, an index of a snapshot that has a next one, and a snapshot of what is
-- applied.
abbrev pub Admissible : RaftCore → Input → Type 0
Admissible c ticked = Unit
Admissible c (proposed command) = HasRoom c 2
Admissible c (received (request_vote req)) = Unit
Admissible c (received (request_vote_response resp)) = HasRoom c 2
Admissible c (received (append_entries req)) = Fits c req
Admissible c (received (append_entries_response resp)) =
    MatchBounded c × (resp.match_index ≤ c.last_included_index + length c.log)
Admissible c (received (install_snapshot req)) = req.last_included_index + 1 < u64_mod
Admissible c (received (install_snapshot_response resp)) = Unit
Admissible c read_requested = Unit
Admissible c (snapshot_stored metadata) = metadata.last_applied ≤ c.last_applied

read_barrier-IsValid : (c : RaftCore) → IsValid c → IsValid (request_read_barrier c).0
unfolding request_read_barrier
read_barrier-IsValid c v = ground arith

note_snapshot-IsValid :
    (c : RaftCore) (resp : InstallSnapshotResponseRpc) → IsValid c → IsValid (note_snapshot c resp)
unfolding note_snapshot
note_snapshot-IsValid c resp v = ground arith

complete_snapshot-IsValid :
    (c : RaftCore) (metadata : SnapshotMetadata)
    → IsValid c
    → metadata.last_applied ≤ c.last_applied
    → Returns (complete_snapshot c metadata) IsValid
unfolding complete_snapshot
complete_snapshot-IsValid c metadata v h =
    Returns-if (leb metadata.last_applied c.last_included_index) _ _ (λ old. (c, refl, v))
      (λ new.
        rw
          (le→leb (metadata.last_applied - c.last_included_index) (length c.log)
            (omega (arith, v.applied, v.committed)))
          (_, refl, shorter (ground (arith, new))))
  where
    shorter :
        c.last_included_index < metadata.last_applied
        → IsValid (record c {
          log = drop (metadata.last_applied - c.last_included_index) c.log;
          last_included_index = metadata.last_applied;
          last_included_term = metadata.last_applied_term;
        })
    shorter new =
        let l = length-drop (metadata.last_applied - c.last_included_index) c.log in
        record {
          range = v.range;
          included = h;
          applied = v.applied;
          committed = omega (arith, l, h, v.applied, v.committed);
          room = omega (arith, l, h, v.room, v.applied, v.committed);
        }

receive-IsValid :
    (rng : Rng) (c : RaftCore) (message : Message)
    → IsValid c
    → Admissible c (received message)
    → Returns (receive rng c message) (λ r. IsValid r.0)
unfolding receive
receive-IsValid rng c (request_vote req) v a = handle_request_vote-IsValid rng c req v
receive-IsValid rng c (request_vote_response resp) v a =
    handle_request_vote_response-IsValid rng c resp v a
receive-IsValid rng c (append_entries req) v a =
    Returns-weaken (handle_append_entries rng c req) (handle_append_entries-IsValid rng c req v a)
      (λ r k. k.0)
receive-IsValid rng c (append_entries_response resp) v a =
    Returns-weaken (handle_append_entries_response rng c resp)
      (handle_append_entries_response-IsValid rng c resp v a.0 a.1) (λ r k. k.0)
receive-IsValid rng c (install_snapshot req) v a = handle_install_snapshot-IsValid rng c req v a
receive-IsValid rng c (install_snapshot_response resp) v a =
    unfold handle_install_snapshot_response in
    after_term_check-Returns IsValid rng c resp.term _ v.range (
      _,
      refl,
      note_snapshot-IsValid (checked rng c resp.term) resp (checked-IsValid rng c resp.term v),
    )

-- A valid node never panics and stays valid, whatever it is asked or told: at a tick, a proposal, a message of any
-- kind, a request to read and a snapshot that was stored, where the input is one that the node can take.
pub step-IsValid :
    (rng : Rng) (c : RaftCore) (input : Input)
    → IsValid c
    → Admissible c input
    → Returns (step rng c input) (λ r. IsValid r.0)
unfolding step
step-IsValid rng c ticked v a = tick-IsValid rng c v
step-IsValid rng c (proposed command) v a =
    Returns-bind (propose c command) _ (propose-IsValid c command v a) (λ r k. (_, refl, k))
step-IsValid rng c (received message) v a = receive-IsValid rng c message v a
step-IsValid rng c read_requested v a = (_, refl, read_barrier-IsValid c v)
step-IsValid rng c (snapshot_stored metadata) v a =
    Returns-bind (complete_snapshot c metadata) _ (complete_snapshot-IsValid c metadata v a)
      (λ c' k. (_, refl, k))
