-- ===== src/Durable/Appending.antt =====
-- A follower that takes entries (crates/raftcore/src/lib.rs) writes what it changes of its log before it
-- answers.
use ferris_ferry.Prelude.{
  ℕ, ◌+◌, ◌≤◌, ◌≡◌, refl, sym, ap, ap₂, ◌∙◌, some, List, [], ◌∷◌, ◌++◌, true, ok, arith, >>=-eq-ok,
  ok-injective, ◌&&◌, ◌||◌, not, ltb, if◌then◌else◌, subst, Bool-cases, inl, inr, length,
}
use ferris_ferry.Types.{is_follower_state, AppendEntriesRpc, Action}
use ferris_ferry.Core.State.{Rng, RaftCore, reset_election_timeout}
use ferris_ferry.Core.Log.Bounds.{HasRoom}
use ferris_ferry.Core.Election.Frame.{reset-frame}
use ferris_ferry.Core.Append.{
  make_response, rejection, acceptance, conflict_response, follow_commit, accept_entries,
  hear_leader, valid_prev,
}
use ferris_ferry.Core.Append.Frame.{follow_commit-frame}
use ferris_ferry.Core.Append.Merge.{stored, store_request-eq}
use ferris_ferry.Validity.Append.{valid_prev-le}
use ferris_ferry.Durable.{
  image, persist_all, no_persist, all_contiguous, all_contiguous-append, all_contiguous-no_persist,
  persist_all-append, no_persist-append, persist_all-no_persist, persists_first-no_persist,
  IsDurable, quiet,
}
use ferris_ferry.Durable.Replication.{stored-HasRoom, apply_actions-no_persist, persist_appended-eq}

follow_commit-no_persist :
    (c : RaftCore) (n : ℕ) {r : RaftCore × List Action}
    → follow_commit c n ≡ ok r
    → no_persist r.1 ≡ true
unfolding follow_commit no_persist
follow_commit-no_persist c n h = grind (arith, apply_actions-no_persist)

accept_entries-IsDurable :
    (c : RaftCore) (req : AppendEntriesRpc) {r : RaftCore × List Action}
    → HasRoom c (length req.entries + 1)
    → c.last_included_index ≤ req.prev_log_index
    → req.prev_log_index ≤ c.last_included_index + length c.log
    → accept_entries c req ≡ ok r
    → IsDurable c r
unfolding accept_entries
accept_entries-IsDurable c req {r} room l k h =
    let (written, e, w, first, ranged) =
      persist_appended-eq c req (stored-HasRoom c req room l k) l k (image c) refl refl in
    let (followed, p, q) =
      >>=-eq-ok (follow_commit (stored c req) req.leader_commit) _
        (rw (store_request-eq c req room l k, e) at h) in
    let n =
      no_persist-append followed.1 (make_response req (acceptance followed.0) ∷ [])
        (follow_commit-no_persist (stored c req) req.leader_commit p) (unfold no_persist in refl) in
    subst (IsDurable c) (ok-injective q) (record {
      written =
          persist_all-append (image c) written _
          ∙ ap (λ i. persist_all i (followed.1 ++ make_response req (acceptance followed.0) ∷ [])) w
          ∙ persist_all-no_persist _ _ n
          ∙ sym (ap image (follow_commit-frame (stored c req) req.leader_commit p));
      first = first _ (persists_first-no_persist _ n);
      ranged =
          all_contiguous-append (image c) written _
          ∙ ap₂ ◌&&◌ ranged (all_contiguous-no_persist _ _ n);
    })

heard-IsDurable :
    (c : RaftCore) (req : AppendEntriesRpc) {r : RaftCore × List Action}
    → HasRoom c (length req.entries + 1)
    → c.last_included_index ≤ req.prev_log_index
    → (if valid_prev c req
        then accept_entries c req
        else ok (c, make_response req (conflict_response c req) ∷ []))
      ≡ ok r
    → IsDurable c r
heard-IsDurable c req {r} room l h = elim (Bool-cases (valid_prev c req)) [
  | inl e ↦ accept_entries-IsDurable c req room l (valid_prev-le c req (omega arith) e) (rw e at h)
  | inr e ↦ subst (IsDurable c) (ok-injective (rw e at h)) (
      quiet c (c, make_response req (conflict_response c req) ∷ []) refl
        (unfold no_persist in refl))
]

pub hear_leader-IsDurable :
    (rng : Rng) (c : RaftCore) (req : AppendEntriesRpc) {r : RaftCore × List Action}
    → HasRoom c (length req.entries + 1)
    → c.last_included_index ≤ req.prev_log_index
    → hear_leader rng c req ≡ ok r
    → IsDurable c r
unfolding hear_leader
hear_leader-IsDurable rng c req {r} room l h =
    elim (Bool-cases (not (is_follower_state c.state) || ltb req.term c.current_term)) [
      | inl e ↦
          subst (IsDurable c) (ok-injective (rw e at h))
            (quiet c (c, make_response req (rejection c) ∷ []) refl (unfold no_persist in refl))
      | inr e ↦
          let (reset, p, q) = >>=-eq-ok (reset_election_timeout rng 1 c) _ (rw e at h) in
          let heard = record reset { current_leader = some req.leader_id } in
          let d =
            heard-IsDurable heard req (ground (arith, reset-frame rng 1 c p))
              (ground (arith, reset-frame rng 1 c p)) q in
          record {
            written =
                ap (λ i. persist_all i r.1) (sym (ap image (reset-frame rng 1 c p))) ∙ d.written;
            first = d.first;
            ranged =
                ap (λ i. all_contiguous i r.1) (sym (ap image (reset-frame rng 1 c p))) ∙ d.ranged;
          }
    ]
