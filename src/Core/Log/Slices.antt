-- ===== src/Core/Log/Slices.antt =====
-- `log_slice` of crates/raftcore/src/lib.rs: the entries of a range of logical indices.
use ferris_ferry.Prelude.{
  ℕ, ◌+◌, ◌-◌, ◌≤◌, ◌<◌, ◌≡◌, ap, ◌∙◌, min, ok, arith, length, get_elem?, take, drop, wadd,
  wadd-eq-add, wsub-eq-sub, length-drop, take_of_length-le, Returns, leb-false, le→leb, length-take,
  get_elem?-take, get_elem?-drop,
}
use ferris_ferry.Core.State.{RaftCore}
use ferris_ferry.Core.Log.{last_log_index, log_entry_at, log_slice}
use ferris_ferry.Core.Log.Bounds.{HasRoom, last_log_index-eq}

-- Inside the log, a slice is a part of the list of entries.
pub log_slice-eq :
    (c : RaftCore) (from to : ℕ)
    → HasRoom c 1
    → c.last_included_index < from
    → from ≤ to
    → to ≤ c.last_included_index + length c.log + 1
    → log_slice c from to ≡ ok (take (to - from) (drop (from - c.last_included_index - 1) c.log))
unfolding log_slice
log_slice-eq c from to r l h k = rw (leb-false from c.last_included_index l) (
    rw (wsub-eq-sub to c.last_included_index (omega arith) (omega arith)) (
      rw (wsub-eq-sub (to - c.last_included_index) 1 (omega arith) (omega arith)) (
        rw
          (le→leb (from - c.last_included_index - 1)
            (min (to - c.last_included_index - 1) (length c.log)) (omega arith))
          (rw
            (le→leb (min (to - c.last_included_index - 1) (length c.log)) (length c.log)
              (omega arith))
            (ap (λ (n : ℕ). ok (take n (drop (from - c.last_included_index - 1) c.log)))
              (omega arith))))))

-- The entries from an index on.
pub log_slice-suffix :
    (c : RaftCore) (from : ℕ)
    → HasRoom c 1
    → c.last_included_index < from
    → from ≤ c.last_included_index + length c.log + 1
    → log_slice c from (wadd (last_log_index c) 1)
      ≡ ok (drop (from - c.last_included_index - 1) c.log)
log_slice-suffix c from r l h = rw (last_log_index-eq c (omega arith)) (
    rw (wadd-eq-add (c.last_included_index + length c.log) 1 (omega arith)) (
      log_slice-eq c from (c.last_included_index + length c.log + 1) r l h (omega arith)
      ∙ ap ok (
          take_of_length-le _ _
            (omega (arith, length-drop (from - c.last_included_index - 1) c.log)))))

-- A range of indices inside the log is sliced without a panic, to as many entries as the range has
-- indices, and the k-th of them is the log's entry at the k-th index of the range.
pub log_slice-entries :
    (c : RaftCore) (from to : ℕ)
    → HasRoom c 1
    → c.last_included_index < from
    → from ≤ to
    → to ≤ c.last_included_index + length c.log + 1
    → Returns (log_slice c from to) (λ entries.
      (length entries ≡ to - from)
      × ((k : ℕ) → k < to - from → get_elem? entries k ≡ log_entry_at c (from + k)))
log_slice-entries c from to r l h k = (
  _,
  log_slice-eq c from to r l h k,
  (
    length-take _ _ (omega (arith, length-drop (from - c.last_included_index - 1) c.log)),
    λ i b.
        get_elem?-take (to - from) i (drop (from - c.last_included_index - 1) c.log) b
        ∙ get_elem?-drop (from - c.last_included_index - 1) i c.log
        ∙ entry i,
  ),
)
  where
    entry :
        (i : ℕ) → get_elem? c.log (from - c.last_included_index - 1 + i) ≡ log_entry_at c (from + i)
    entry i =
        unfold log_entry_at in
        rw (leb-false (from + i) c.last_included_index (omega arith))
          (ap (get_elem? c.log) (omega arith))
