-- ===== src/Validity/Append.antt =====
-- `handle_append_entries` of crates/raftcore/src/lib.rs keeps a node valid, and what is committed stays.
use ferris_ferry.Prelude.{
  ℕ, ◌+◌, ◌-◌, ◌≤◌, ◌<◌, ◌≡◌, refl, List, [], ok, arith, length, take, drop, min, Returns,
  Returns-if, Returns-bind, ltb, ltb→lt, Bool-cases, inl, inr, true, not, ◌&&◌, ◌||◌, is_empty,
  length-append, length-take, length-drop, wadd-eq-add, some, ◌==◌, is_empty,
}
use ferris_ferry.Types.{
  LogEntry, AppendEntriesRpc, Action, follower, is_follower_state, is_candidate_state,
}
use ferris_ferry.Core.State.{Rng, RaftCore}
use ferris_ferry.Core.State.Rules.{
  with_timeout, reset_election_timeout-eq, checked-cases, after_term_check-Returns,
}
use ferris_ferry.Core.Log.{log_slice}
use ferris_ferry.Core.Log.Bounds.{HasRoom, last_log_index-eq}
use ferris_ferry.Core.Log.Slices.{log_slice-eq, log_slice-suffix}
use ferris_ferry.Core.Append.{
  valid_prev, persist_appended, follow_commit, accept_entries, receive_entries, hear_leader,
  handle_append_entries,
}
use ferris_ferry.Core.Append.Agreeing.{Agree, length-merge-ge, length-merge-le}
use ferris_ferry.Core.Append.Merge.{merge, stored, store_request-eq}
use ferris_ferry.Validity.{IsValid}

-- What a node needs of a request's entries: they start at or after its snapshot, they agree with its
-- committed entries, and there is room for them.
pub record Fits (c : RaftCore) (req : AppendEntriesRpc) : Type 0 where
  pub after_snapshot : c.last_included_index ≤ req.prev_log_index
  pub agrees :
      Agree
        (c.commit_index - req.prev_log_index)
        req.entries
        (drop (req.prev_log_index - c.last_included_index) c.log)
  pub room : HasRoom c (length req.entries + 1)

length-stored :
    (c : RaftCore) (req : AppendEntriesRpc)
    → c.last_included_index ≤ req.prev_log_index
    → req.prev_log_index ≤ c.last_included_index + length c.log
    → c.last_included_index + length (stored c req).log
      ≡ req.prev_log_index
        + length (merge req.entries (drop (req.prev_log_index - c.last_included_index) c.log))
length-stored c req h k = omega (
  arith,
  length-append (take (req.prev_log_index - c.last_included_index) c.log)
      (merge req.entries (drop (req.prev_log_index - c.last_included_index) c.log)),
  length-take (req.prev_log_index - c.last_included_index) c.log (omega arith),
)

stored-IsValid :
    (c : RaftCore) (req : AppendEntriesRpc)
    → IsValid c
    → Fits c req
    → req.prev_log_index ≤ c.last_included_index + length c.log
    → IsValid (stored c req)
stored-IsValid c req v f h = record {
  range = v.range;
  included = v.included;
  applied = v.applied;
  committed = omega (arith, length-stored c req f.after_snapshot h, kept, v.committed);
  room = omega (
    arith,
    length-stored c req f.after_snapshot h,
    bound,
    length-drop (req.prev_log_index - c.last_included_index) c.log,
    f.room,
    f.after_snapshot,
  );
}
  where
    old : List LogEntry
    old = drop (req.prev_log_index - c.last_included_index) c.log

    kept : c.commit_index - req.prev_log_index ≤ length (merge req.entries old)
    kept = length-merge-ge (c.commit_index - req.prev_log_index) req.entries old f.agrees (
        omega (
          arith,
          length-drop (req.prev_log_index - c.last_included_index) c.log,
          v.committed,
          f.after_snapshot,
        ))

    bound : length (merge req.entries old) ≤ length old + length req.entries
    bound = length-merge-le req.entries old

persist_appended-ok :
    (c : RaftCore) (req : AppendEntriesRpc)
    → HasRoom c 1
    → c.last_included_index ≤ req.prev_log_index
    → req.prev_log_index ≤ c.last_included_index + length c.log
    → (l : List Action) × (persist_appended c req ≡ ok l)
unfolding persist_appended
persist_appended-ok c req r h k = elim (Bool-cases (is_empty req.entries)) [
  | inl e ↦ rw e ([], refl)
  | inr e ↦ rw e (
      rw (wadd-eq-add req.prev_log_index 1 (omega arith))
        (rw (log_slice-suffix c (req.prev_log_index + 1) r (omega arith) (omega arith)) (_, refl)))
]

-- A valid node follows the leader's commit index as far as its log goes, and never back.
pub follow_commit-IsValid :
    (c : RaftCore) (n : ℕ)
    → IsValid c
    → Returns (follow_commit c n) (λ r. IsValid r.0 × (c.commit_index ≤ r.0.commit_index))
unfolding follow_commit
follow_commit-IsValid c n v =
    Returns-if (ltb c.commit_index n) _ _
      (λ behind. rw (last_log_index-eq c (omega (arith, v.room))) (
        rw (wadd-eq-add c.commit_index 1 (omega (arith, v.room, v.committed))) (
          rw (wadd-eq-add (min n (c.last_included_index + length c.log)) 1 (omega (arith, v.room)))
            (rw (slice (ltb→lt c.commit_index n behind))
              (_, refl, within (ltb→lt c.commit_index n behind))))))
      (λ level. (_, refl, (v, omega arith)))
  where
    within :
        c.commit_index < n
        → IsValid (record c {
          commit_index = min n (c.last_included_index + length c.log);
          last_applied = min n (c.last_included_index + length c.log);
        })
          × (c.commit_index ≤ min n (c.last_included_index + length c.log))
    within h = (omega arith, omega arith)

    slice :
        c.commit_index < n
        → log_slice c (c.commit_index + 1) (min n (c.last_included_index + length c.log) + 1)
          ≡ ok (
              take
                (min n (c.last_included_index + length c.log) + 1 - (c.commit_index + 1))
                (drop (c.commit_index + 1 - c.last_included_index - 1) c.log))
    slice h =
        log_slice-eq c (c.commit_index + 1) (min n (c.last_included_index + length c.log) + 1)
          v.room (omega arith) (omega arith) (omega arith)

accept_entries-IsValid :
    (c : RaftCore) (req : AppendEntriesRpc)
    → IsValid c
    → Fits c req
    → req.prev_log_index ≤ c.last_included_index + length c.log
    → Returns (accept_entries c req) (λ r. IsValid r.0 × (c.commit_index ≤ r.0.commit_index))
unfolding accept_entries
accept_entries-IsValid c req v f h =
    let w = stored-IsValid c req v f h in
    let (l, e) =
      persist_appended-ok (stored c req) req w.room f.after_snapshot
        (omega (arith, length-stored c req f.after_snapshot h)) in
    rw (store_request-eq c req f.room f.after_snapshot h) (
      rw e (
        Returns-bind (follow_commit (stored c req) req.leader_commit) _
          (follow_commit-IsValid (stored c req) req.leader_commit w) (λ r k. (_, refl, k))))

-- the entry before the new ones is not beyond the log
pub valid_prev-le :
    (c : RaftCore) (req : AppendEntriesRpc)
    → HasRoom c 1
    → valid_prev c req ≡ true
    → req.prev_log_index ≤ c.last_included_index + length c.log
unfolding valid_prev
valid_prev-le c req r h = ground (arith, last_log_index-eq c)

hear_leader-IsValid :
    (rng : Rng) (c : RaftCore) (req : AppendEntriesRpc)
    → IsValid c
    → Fits c req
    → Returns (hear_leader rng c req) (λ r. IsValid r.0 × (c.commit_index ≤ r.0.commit_index))
unfolding hear_leader
hear_leader-IsValid rng c req v f =
    let heard = record (with_timeout rng 1 c) { current_leader = some req.leader_id } in
    let w : IsValid heard = omega arith in
    let f' : Fits heard req = record {
      after_snapshot = f.after_snapshot;
      agrees = f.agrees;
      room = f.room;
    } in
    Returns-if (not (is_follower_state c.state) || ltb req.term c.current_term) _ _
      (λ refused. (_, refl, (v, omega arith)))
      (λ follows. rw (reset_election_timeout-eq rng 1 c v.range) (
        Returns-if (valid_prev heard req) _ _
          (λ valid. accept_entries-IsValid heard req w f' (valid_prev-le heard req w.room valid))
          (λ invalid. (_, refl, (w, omega arith)))))

receive_entries-IsValid :
    (rng : Rng) (c : RaftCore) (req : AppendEntriesRpc)
    → IsValid c
    → Fits c req
    → Returns (receive_entries rng c req) (λ r. IsValid r.0 × (c.commit_index ≤ r.0.commit_index))
unfolding receive_entries
receive_entries-IsValid rng c req v f =
    elim (Bool-cases (req.term == c.current_term && is_candidate_state c.state)) [
      | inl e ↦ rw e (
          hear_leader-IsValid rng (record c { state = follower }) req (omega arith)
            (record { after_snapshot = f.after_snapshot; agrees = f.agrees; room = f.room }))
      | inr e ↦ rw e (hear_leader-IsValid rng c req v f)
    ]

-- Entries that fit a valid node never make it panic and leave it valid, and its commit index does not
-- fall.
pub handle_append_entries-IsValid :
    (rng : Rng) (c : RaftCore) (req : AppendEntriesRpc)
    → IsValid c
    → Fits c req
    → Returns
        (handle_append_entries rng c req)
        (λ r. IsValid r.0 × (c.commit_index ≤ r.0.commit_index))
unfolding handle_append_entries
handle_append_entries-IsValid rng c req v f =
    after_term_check-Returns (λ c'. IsValid c' × (c.commit_index ≤ c'.commit_index)) rng c req.term
      _ v.range
      (checked-cases
        (λ c'.
          Returns (receive_entries rng c' req)
            (λ r. IsValid r.0 × (c.commit_index ≤ r.0.commit_index)))
        rng c req.term (receive_entries-IsValid rng c req v f)
        (receive_entries-IsValid rng _ req (omega arith)
          (record { after_snapshot = f.after_snapshot; agrees = f.agrees; room = f.room })))
