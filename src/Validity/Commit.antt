-- ===== src/Validity/Commit.antt =====
-- `handle_append_entries_response` and read barriers of crates/raftcore/src/lib.rs keep a node valid.
use ferris_ferry.Prelude.{
  ℕ, ◌+◌, ◌≤◌, refl, arith, length, Returns, Returns-if, Returns-bind, wadd-eq-add,
  values-insert-All,
}
use ferris_ferry.Types.{AppendEntriesResponseRpc}
use ferris_ferry.Core.State.{Rng, RaftCore}
use ferris_ferry.Core.State.Rules.{checked-cases, after_term_check-Returns}
use ferris_ferry.Core.Log.Slices.{log_slice-eq}
use ferris_ferry.Core.Replicate.Build.{build-ok}
use ferris_ferry.Core.Commit.{
  next_commit, advance_commit, note_success, note_failure, note_response,
  handle_append_entries_response, waiting_barriers, barrier_quorum,
}
use ferris_ferry.Core.Commit.Quorum.{MatchBounded, IsCommittable, next_commit-IsCommittable}
use ferris_ferry.Validity.{IsValid}

-- What the handler promises of the state that it leaves.
abbrev pub Advanced : RaftCore → RaftCore → Type 0
Advanced c c' = IsValid c' × (c.commit_index ≤ c'.commit_index) × MatchBounded c'

advance_commit-IsValid :
    (c : RaftCore) → IsValid c → MatchBounded c → Returns (advance_commit c) (λ r. Advanced c r.0)
unfolding advance_commit
advance_commit-IsValid c v m =
    Returns-bind (next_commit c) _
      (next_commit-IsCommittable c v.room (omega (arith, v.included, v.applied)) v.committed m)
      λ n k. rw (wadd-eq-add c.last_applied 1 (omega (arith, v.room, v.committed, v.applied))) (
        rw (wadd-eq-add n 1 (omega (arith, v.room, k.in_log))) (
          rw
            (log_slice-eq c (c.last_applied + 1) (n + 1) v.room (omega (arith, v.included))
              (omega (arith, v.applied, k.grows)) (omega (arith, k.in_log)))
            (_, refl, (valid n k, k.grows, m))))
  where
    valid :
        (n : ℕ)
        → IsCommittable c n
        → IsValid (record c {
          commit_index = n;
          last_applied = n;
          read_barriers =
              waiting_barriers c.append_entries_count (barrier_quorum c) c.read_barriers;
        })
    valid n k = omega arith

note_response-IsValid :
    (c : RaftCore) (resp : AppendEntriesResponseRpc)
    → IsValid c
    → MatchBounded c
    → resp.match_index ≤ c.last_included_index + length c.log
    → Returns (note_response c resp) (λ r. Advanced c r.0)
unfolding note_response note_success note_failure
note_response-IsValid c resp v m h =
    Returns-if resp.success _ _
      (λ taken. advance_commit-IsValid (unfold note_success in note_success c resp) (omega arith) (
        values-insert-All (λ (i : ℕ). i ≤ c.last_included_index + length c.log) resp.id
          resp.match_index c.match_index h m))
      (λ refused.
        let (a, e) = build-ok (note_failure c resp) resp.id v.room in
        rw e (_, refl, (omega arith, omega arith, m)))

-- If no peer is believed, or claims now, to hold more than the node's log, then the answer of a peer
-- never makes a valid node panic, leaves it valid, and the commit index does not fall.
pub handle_append_entries_response-IsValid :
    (rng : Rng) (c : RaftCore) (resp : AppendEntriesResponseRpc)
    → IsValid c
    → MatchBounded c
    → resp.match_index ≤ c.last_included_index + length c.log
    → Returns (handle_append_entries_response rng c resp) (λ r. Advanced c r.0)
unfolding handle_append_entries_response
handle_append_entries_response-IsValid rng c resp v m h =
    after_term_check-Returns (Advanced c) rng c resp.term _ v.range (
      checked-cases (λ c'. Returns (note_response c' resp) (λ r. Advanced c r.0)) rng c resp.term
        (note_response-IsValid c resp v m h) (note_response-IsValid _ resp (omega arith) m h))
