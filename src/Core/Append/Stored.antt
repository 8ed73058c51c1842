-- ===== src/Core/Append/Stored.antt =====
-- The log of a follower after the entries of a request (crates/raftcore/src/lib.rs).
use ferris_ferry.Prelude.{
  ℕ, suc, ◌+◌, ◌-◌, ◌≤◌, ◌≡◌, ◌⊎◌, false, refl, sym, ap, ◌∙◌, some, List, ◌++◌, Returns, length,
  take, drop, get_elem?, length-take, length-drop, get_elem?-drop, take-append-drop,
  take-append_plus, get_elem?-append_plus, get_elem?-take, arith, Bool-cases, inl, inr, leb,
}
use ferris_ferry.Types.{LogEntry, AppendEntriesRpc}
use ferris_ferry.Core.State.{RaftCore}
use ferris_ferry.Core.Log.{log_entry_at, log_term_at}
use ferris_ferry.Core.Log.Bounds.{HasRoom}
use ferris_ferry.Core.Append.{store_request}
use ferris_ferry.Core.Append.Agreeing.{Agree, take-merge, merge-terms, merge-entry}
use ferris_ferry.Core.Append.Merge.{merge, stored, store_request-eq}

-- Up to the entries that agree, the log is as it was.
stored-take :
    (p n : ℕ) (es log : List LogEntry)
    → p ≤ length log
    → Agree n es (drop p log)
    → n ≤ length (drop p log)
    → take (p + n) (take p log ++ merge es (drop p log)) ≡ take (p + n) log
stored-take p n es log h a k =
    ap (λ (m : ℕ). take m (take p log ++ merge es (drop p log))) {x = p + n}
      {y = length (take p log) + n} (omega (arith, length-take p log h))
    ∙ take-append_plus (take p log) (merge es (drop p log)) n
    ∙ ap (◌++◌ (take p log)) (take-merge n es (drop p log) a k)
    ∙ sym (take-append_plus (take p log) (drop p log) n)
    ∙ ap (λ (m : ℕ). take m (take p log ++ drop p log)) {x = length (take p log) + n} {y = p + n}
        (omega (arith, length-take p log h))
    ∙ ap (take (p + n)) (take-append-drop p log)

-- A follower that takes entries right after an index that it has, at or after its snapshot, does not panic.
-- Each of the entries then stands in its log with its term. What stands at its index is the entry itself, or the
-- old entry that was there, and then only if old and new entries agree in their terms up to and at this index. Where the first `n` of its old entries there
-- agree with the new ones in their terms, it keeps them, and all that was before them.
pub store_request-log :
    (c : RaftCore) (req : AppendEntriesRpc) (n : ℕ)
    → HasRoom c (length req.entries + 1)
    → c.last_included_index ≤ req.prev_log_index
    → req.prev_log_index + n ≤ c.last_included_index + length c.log
    → Agree n req.entries (drop (req.prev_log_index - c.last_included_index) c.log)
    → Returns (store_request c req) (λ c'.
      ((k : ℕ) (e : LogEntry)
        → get_elem? req.entries k ≡ some e
        → log_term_at c' (req.prev_log_index + 1 + k) ≡ some e.term)
      × ((k : ℕ) (e : LogEntry)
          → get_elem? req.entries k ≡ some e
          → (x : LogEntry) × (log_entry_at c' (req.prev_log_index + 1 + k) ≡ some x)
            × ((x ≡ e)
                ⊎ ((log_entry_at c (req.prev_log_index + 1 + k) ≡ some x)
                    × Agree
                        (suc k)
                        req.entries
                        (drop (req.prev_log_index - c.last_included_index) c.log))))
      × ((i : ℕ) → i ≤ req.prev_log_index + n → log_entry_at c' i ≡ log_entry_at c i))
store_request-log c req n room l h a =
    (stored c req, store_request-eq c req room l (omega arith), (terms, entries, kept))
  where
    p : ℕ
    p = req.prev_log_index - c.last_included_index

    terms :
        (k : ℕ) (e : LogEntry)
        → get_elem? req.entries k ≡ some e
        → log_term_at (stored c req) (req.prev_log_index + 1 + k) ≡ some e.term
    terms k e g =
        let (x, q, t) = merge-terms req.entries (drop p c.log) k e g in
        let at : get_elem? (stored c req).log
              (req.prev_log_index + 1 + k - c.last_included_index - 1)
            ≡ some x =
          ap (get_elem? (stored c req).log)
            {x = req.prev_log_index + 1 + k - c.last_included_index - 1}
            {y = length (take p c.log) + k} (omega (arith, length-take p c.log (omega arith)))
          ∙ get_elem?-append_plus (take p c.log) (merge req.entries (drop p c.log)) k
          ∙ q in
        unfold log_term_at log_entry_at in ground (arith, at, t)

    after : (k : ℕ) → leb (req.prev_log_index + 1 + k) c.last_included_index ≡ false
    after k = ground arith

    entries :
        (k : ℕ) (e : LogEntry)
        → get_elem? req.entries k ≡ some e
        → (x : LogEntry) × (log_entry_at (stored c req) (req.prev_log_index + 1 + k) ≡ some x)
          × ((x ≡ e)
              ⊎ ((log_entry_at c (req.prev_log_index + 1 + k) ≡ some x)
                  × Agree (suc k) req.entries (drop p c.log)))
    entries k e g =
        let (x, q, t) = merge-entry req.entries (drop p c.log) k e g in
        let place : req.prev_log_index + 1 + k - c.last_included_index - 1 ≡ p + k = omega arith in
        (
          x,
          unfold log_entry_at in
              rw (after k) (
                ap (get_elem? (stored c req).log)
                  {x = req.prev_log_index + 1 + k - c.last_included_index - 1}
                  {y = length (take p c.log) + k} (omega (arith, length-take p c.log (omega arith)))
                ∙ get_elem?-append_plus (take p c.log) (merge req.entries (drop p c.log)) k
                ∙ q),
          elim t [
            | inl same ↦ inl same
            | inr (o, a) ↦ inr (
              unfold log_entry_at in
                  rw (after k) (ap (get_elem? c.log) place ∙ sym (get_elem?-drop p k c.log) ∙ o),
              a,
            )
          ],
        )

    kept : (i : ℕ) → i ≤ req.prev_log_index + n → log_entry_at (stored c req) i ≡ log_entry_at c i
    kept i below =
        let x = i - c.last_included_index - 1 in
        elim (Bool-cases (leb i c.last_included_index)) [
          | inl s ↦ unfold log_entry_at in rw s refl
          | inr s ↦
              unfold log_entry_at in
              rw s (
                sym (get_elem?-take (p + n) x (stored c req).log (ground arith))
                ∙ ap (λ xs. get_elem? xs x)
                    (stored-take p n req.entries c.log (omega arith) a
                      (omega (arith, length-drop p c.log)))
                ∙ get_elem?-take (p + n) x c.log (ground arith))
        ]
