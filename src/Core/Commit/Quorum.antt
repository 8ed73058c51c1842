-- ===== src/Core/Commit/Quorum.antt =====
-- The commit index that a leader computes in `handle_append_entries_response` of
-- crates/raftcore/src/lib.rs.
use ferris_ferry.Prelude.{
  ℕ, zero, suc, ◌+◌, ◌-◌, ◌*◌, ◌/◌, ◌%◌, ◌≤◌, ◌<◌, ◌≡◌, refl, ◌⊎◌, inl, inr, ◌∙◌, ap, List, ◌∷◌, [],
  some, arith, length, All, dec_lt, Returns-weaken, false, Returns, ◌==◌, ==_iff, Bool-cases,
  get_elem?_of_lt, wadd-eq-add, values, length-append, All-append,
}
use ferris_ferry.Core.State.{RaftCore}
use ferris_ferry.Core.Log.{last_log_index, log_term_at}
use ferris_ferry.Core.Log.Bounds.{HasRoom, last_log_index-eq, log_term_at-some}
use ferris_ferry.Core.Commit.{sort, replicated_index, peer_indices, scan_commit, next_commit}
use ferris_ferry.Core.Commit.Sorting.{
  count_ge, count_ge-sort, length-sort, sort-All, sort-IsSorted, count_ge_sorted, All_get,
  count_ge_mono,
}

-- The index that is picked: at least half of the indices reach it, and it is below what bounds them all.
pub replicated_index-count :
    (xs : List ℕ) (bound : ℕ)
    → 0 < length xs
    → All (λ x. x ≤ bound) xs
    → Returns (replicated_index xs) (λ v. (length xs - length xs / 2 ≤ count_ge v xs) × (v ≤ bound))
unfolding replicated_index
replicated_index-count xs bound h a =
    let (v, e) = get_elem?_of_lt (sort xs) (length xs / 2) (omega (arith, length-sort xs)) in
    (
      v,
      rw e refl,
      (
        omega (
          arith,
          length-sort xs,
          count_ge-sort v xs,
          count_ge_sorted (sort xs) (length xs / 2) v (sort-IsSorted xs) e,
        ),
        All_get (λ x. x ≤ bound) (sort xs) (length xs / 2) v (sort-All (λ x. x ≤ bound) xs a) e,
      ),
    )

-- What the scan of a range of the log returns: the last index in it of the current term, or else the
-- index that it starts from.
abbrev pub LastOfTerm : RaftCore → ℕ → ℕ → ℕ → ℕ → Type 0
LastOfTerm c rounds first best n =
    ((n ≡ best) ⊎ ((first ≤ n) × (n < first + rounds) × (log_term_at c n ≡ some c.current_term)))
    × ((i : ℕ) → first ≤ i → i < first + rounds → log_term_at c i ≡ some c.current_term → i ≤ n)

after_same :
    (c : RaftCore) (rounds first best n : ℕ)
    → log_term_at c first ≡ some c.current_term
    → LastOfTerm c rounds (first + 1) first n
    → LastOfTerm c (suc rounds) first best n
after_same c rounds first best n e l = (inr (found l.0), last)
  where
    found :
        (n ≡ first)
          ⊎ ((first + 1 ≤ n) × (n < first + 1 + rounds) × (log_term_at c n ≡ some c.current_term))
        → (first ≤ n) × (n < first + suc rounds) × (log_term_at c n ≡ some c.current_term)
    found (inl p) = (omega arith, omega arith, rw p e)
    found (inr p) = (omega arith, omega arith, p.2)

    last :
        (i : ℕ) → first ≤ i → i < first + suc rounds → log_term_at c i ≡ some c.current_term → i ≤ n
    last i p q t = elim (dec_lt first i) [
      | yes h ↦ l.1 i (omega arith) (omega arith) t
      | no h ↦ let f = found l.0 in omega arith
    ]

after_other :
    (c : RaftCore) (rounds first best n t : ℕ)
    → log_term_at c first ≡ some t
    → (t == c.current_term) ≡ false
    → LastOfTerm c rounds (first + 1) best n
    → LastOfTerm c (suc rounds) first best n
after_other c rounds first best n t e d l = (found l.0, last)
  where
    found :
        (n ≡ best)
          ⊎ ((first + 1 ≤ n) × (n < first + 1 + rounds) × (log_term_at c n ≡ some c.current_term))
        → (n ≡ best)
          ⊎ ((first ≤ n) × (n < first + suc rounds) × (log_term_at c n ≡ some c.current_term))
    found (inl p) = inl p
    found (inr p) = inr (omega arith, omega arith, p.2)

    at_first : (i : ℕ) → i ≡ first → log_term_at c i ≡ some c.current_term → ⊥
    at_first i p u =
        let same : log_term_at c first ≡ some c.current_term = rw (← p) u in ground arith

    last :
        (i : ℕ) → first ≤ i → i < first + suc rounds → log_term_at c i ≡ some c.current_term → i ≤ n
    last i p q u = elim (dec_lt first i) [
      | yes h ↦ l.1 i (omega arith) (omega arith) u
      | no h ↦ absurd (at_first i (omega arith) u)
    ]

-- Over a range that lies in the log the scan does not panic.
pub scan_commit-LastOfTerm :
    (c : RaftCore) (rounds first best : ℕ)
    → c.last_included_index ≤ first
    → first + rounds ≤ c.last_included_index + length c.log + 1
    → Returns (scan_commit c rounds first best) (LastOfTerm c rounds first best)
unfolding scan_commit
scan_commit-LastOfTerm c zero first best l h =
    (best, refl, (inl refl, λ i p q e. absurd (omega arith)))
scan_commit-LastOfTerm c (suc rounds) first best l h =
    let (t, e) = log_term_at-some c first l (omega arith) in
    elim (Bool-cases (t == c.current_term)) [
      | inl same ↦ rw e (
          rw same (
            Returns-weaken (scan_commit c rounds (first + 1) first)
              (scan_commit-LastOfTerm c rounds (first + 1) first (omega arith) (omega arith))
              (λ n.
                after_same c rounds first best n (e ∙ ap some ((==_iff t c.current_term).0 same)))))
      | inr other ↦ rw e (
          rw other (
            Returns-weaken (scan_commit c rounds (first + 1) best)
              (scan_commit-LastOfTerm c rounds (first + 1) best (omega arith) (omega arith))
              (λ n. after_other c rounds first best n t e other)))
    ]

-- No peer is believed to hold more than the node's own log.
abbrev pub MatchBounded : RaftCore → Type 0
MatchBounded c = All (λ m. m ≤ c.last_included_index + length c.log) (values c.match_index)

-- What a leader may commit: the index is as before, or it is that of an entry of the current term that
-- lies in the log and that at least half of the nodes of which the leader knows an index, itself
-- included, hold (more than half, if their number is odd). It never falls.
pub record IsCommittable (c : RaftCore) (n : ℕ) : Type 0 where
  pub grows : c.commit_index ≤ n
  pub in_log : n ≤ c.last_included_index + length c.log
  pub of_term : (n ≡ c.commit_index) ⊎ (log_term_at c n ≡ some c.current_term)
  pub half : (n ≡ c.commit_index) ⊎ (length (peer_indices c) ≤ 2 * count_ge n (peer_indices c))
  pub majority :
      length (peer_indices c) % 2 ≡ 1
      → (n ≡ c.commit_index) ⊎ (length (peer_indices c) < 2 * count_ge n (peer_indices c))

committable :
    (c : RaftCore) (v n : ℕ)
    → c.commit_index ≤ c.last_included_index + length c.log
    → v ≤ c.last_included_index + length c.log
    → length (peer_indices c) - length (peer_indices c) / 2 ≤ count_ge v (peer_indices c)
    → LastOfTerm c (v + 1 - (c.commit_index + 1)) (c.commit_index + 1) c.commit_index n
    → IsCommittable c n
committable c v n h b k l = go l.0
  where
    go :
        (n ≡ c.commit_index)
          ⊎ ((c.commit_index + 1 ≤ n)
              × (n < c.commit_index + 1 + (v + 1 - (c.commit_index + 1)))
              × (log_term_at c n ≡ some c.current_term))
        → IsCommittable c n
    go (inl e) = record {
      grows = omega arith;
      in_log = omega arith;
      of_term = inl e;
      half = inl e;
      majority = λ o. inl e;
    }
    go (inr p) =
        let mono = count_ge_mono n v (peer_indices c) (omega arith) in
        record {
          grows = omega arith;
          in_log = omega arith;
          of_term = inr p.2;
          half = inr (omega arith);
          majority = λ o. inr (omega arith);
        }

-- If no peer is believed to hold more than the node's log, in which the commit index lies, then the
-- computation of the next commit index does not panic. The result is the commit index as it was, or a
-- later index of the log whose entry is of the current term and which at least half of the nodes of which
-- the leader knows an index, itself included, hold: more than half, if their number is odd.
pub next_commit-IsCommittable :
    (c : RaftCore)
    → HasRoom c 1
    → c.last_included_index ≤ c.commit_index
    → c.commit_index ≤ c.last_included_index + length c.log
    → MatchBounded c
    → Returns (next_commit c) (IsCommittable c)
unfolding next_commit
next_commit-IsCommittable c r l h m =
    let last = last_log_index-eq c (omega arith) in
    let (v, e, (k, b)) =
      replicated_index-count (peer_indices c) (c.last_included_index + length c.log)
        (omega (arith, length-append (values c.match_index) (last_log_index c ∷ [])))
        (All-append (λ (x : ℕ). x ≤ c.last_included_index + length c.log) (values c.match_index)
          (last_log_index c ∷ []) m (omega arith, tt)) in
    rw e (
      rw (wadd-eq-add c.commit_index 1 (omega arith)) (
        rw (wadd-eq-add v 1 (omega arith)) (
          Returns-weaken
            (scan_commit c (v + 1 - (c.commit_index + 1)) (c.commit_index + 1) c.commit_index)
            (scan_commit-LastOfTerm c (v + 1 - (c.commit_index + 1)) (c.commit_index + 1)
              c.commit_index (omega arith) (omega arith))
            (λ n s. committable c v n h b k s))))
