-- ===== src/Validity/Snapshot.antt =====
-- Snapshots (crates/raftcore/src/lib.rs) keep a node valid, and compaction keeps its logical log.
use ferris_ferry.Prelude.{
  ℕ, ◌+◌, ◌-◌, ◌≤◌, ◌<◌, ◌≡◌, refl, ◌∙◌, ap, sym, List, some, arith, length, drop, get_elem?, ltb,
  leb, leb→le, Returns, Returns-if, u64_mod, length-drop, Result, ◌>>=◌, get_elem?-drop, le→leb,
  leb-false, ltb-false, ==-false, dec_lt, Returns-weaken,
}
use mathlib.Core.Option
use ferris_ferry.Types.{LogEntry, InstallSnapshotRpc}
use ferris_ferry.Core.State.{Rng, RaftCore}
use ferris_ferry.Core.State.Rules.{reset_election_timeout-eq, checked, after_term_check-Returns}
use ferris_ferry.Core.Log.{log_entry_at, log_term_at}
use ferris_ferry.Core.Log.Bounds.{log_term_at-some}
use ferris_ferry.Core.Append.{step_down}
use ferris_ferry.Core.Snapshot.{
  prepare_snapshot, complete_snapshot, take_snapshot, receive_snapshot, handle_install_snapshot,
}
use ferris_ferry.Validity.{IsValid}
use ferris_ferry.Validity.Election.{checked-IsValid}

-- Taking a snapshot: what `prepare_snapshot` returns is handed to `complete_snapshot`.
abbrev pub compact : RaftCore → Result RaftCore
compact c = do metadata ← prepare_snapshot c; complete_snapshot c metadata

-- The compacted node has the snapshot's index and term for its last applied entry, and the entries
-- after it.
record Compacted (c c' : RaftCore) : Type 0 where
  index : c'.last_included_index ≡ c.last_applied
  term : some c'.last_included_term ≡ log_term_at c c.last_applied
  rest : c' ≡ record c {
    log = drop (c.last_applied - c.last_included_index) c.log;
    last_included_index = c'.last_included_index;
    last_included_term = c'.last_included_term;
  }

log_term_at_included :
    (c : RaftCore) → log_term_at c c.last_included_index ≡ some c.last_included_term
unfolding log_term_at
log_term_at_included c = ground arith

nothing_new : (c : RaftCore) → c.last_applied ≡ c.last_included_index → Compacted c c
nothing_new c p = record {
  index = sym p;
  term = sym (log_term_at_included c) ∙ ap (log_term_at c) (sym p);
  rest =
      ap (λ (n : ℕ). record c { log = drop n c.log }) {x = 0}
        {y = c.last_applied - c.last_included_index} (omega arith);
}

-- Taking a snapshot of a valid node never panics; afterwards the log starts behind the applied entries.
compact-Compacted : (c : RaftCore) → IsValid c → Returns (compact c) (Compacted c)
unfolding prepare_snapshot complete_snapshot
compact-Compacted c v =
    let (t, e) =
      log_term_at-some c c.last_applied v.included (omega (arith, v.applied, v.committed)) in
    rw e (
      Returns-if (leb c.last_applied c.last_included_index) _ _
        (λ old. (c, refl, nothing_new c (omega (arith, v.included, leb→le _ _ old))))
        (λ new.
          rw
            (le→leb (c.last_applied - c.last_included_index) (length c.log)
              (omega (arith, v.applied, v.committed)))
            (_, refl, record { index = refl; term = sym e; rest = refl })))

Compacted-IsValid : (c c' : RaftCore) → IsValid c → Compacted c c' → IsValid c'
Compacted-IsValid c c' v k = rw (k.rest) (
    let l = length-drop (c.last_applied - c.last_included_index) c.log in
    record {
      range = v.range;
      included = omega (arith, k.index);
      applied = v.applied;
      committed = omega (arith, k.index, v.applied, v.included, v.committed);
      room = omega (arith, k.index, v.room, v.applied, v.included, v.committed);
    })

Compacted-entry :
    (c c' : RaftCore) (i : ℕ)
    → IsValid c
    → Compacted c c'
    → c.last_applied < i
    → log_entry_at c' i ≡ log_entry_at c i
unfolding log_entry_at
Compacted-entry c c' i v k h = rw (leb-false i c'.last_included_index (omega (arith, k.index))) (
    rw (leb-false i c.last_included_index (omega (arith, v.included))) (
      ap (λ (l : List LogEntry). get_elem? l (i - c'.last_included_index - 1))
        (ap (λ (n : RaftCore). n.log) k.rest)
      ∙ get_elem?-drop (c.last_applied - c.last_included_index) (i - c'.last_included_index - 1)
          c.log
      ∙ ap (get_elem? c.log) (omega (arith, k.index, v.included))))

Compacted-term :
    (c c' : RaftCore) (i : ℕ)
    → IsValid c
    → Compacted c c'
    → c.last_applied ≤ i
    → log_term_at c' i ≡ log_term_at c i
Compacted-term c c' i v k h = elim (dec_lt c.last_applied i) [
  | yes later ↦
      unfold log_term_at in
      rw (ltb-false i c'.last_included_index (omega (arith, k.index))) (
        rw (ltb-false i c.last_included_index (omega (arith, v.included))) (
          rw (==-false i c'.last_included_index (omega (arith, k.index))) (
            rw (==-false i c.last_included_index (omega (arith, v.included)))
              (ap (Option.map (λ (e : LogEntry). e.term)) (Compacted-entry c c' i v k later)))))
  | no same ↦
      ap (log_term_at c') {x = i} {y = c'.last_included_index} (omega (arith, k.index))
      ∙ log_term_at_included c'
      ∙ k.term
      ∙ ap (log_term_at c) {x = c.last_applied} {y = i} (omega arith)
]

-- Taking a snapshot of a valid node never panics and leaves it valid. Nothing is lost: from the last
-- applied index on, every index has the term that it had, and every later index the entry that it had.
pub compact-keeps-log :
    (c : RaftCore)
    → IsValid c
    → Returns (compact c) (λ c'.
      IsValid c'
      × (c'.last_included_index ≡ c.last_applied)
      × ((i : ℕ) → c.last_applied ≤ i → log_term_at c' i ≡ log_term_at c i)
      × ((i : ℕ) → c.last_applied < i → log_entry_at c' i ≡ log_entry_at c i))
compact-keeps-log c v = Returns-weaken (compact c) (compact-Compacted c v) λ c' k. (
  Compacted-IsValid c c' v k,
  k.index,
  λ i. Compacted-term c c' i v k,
  λ i. Compacted-entry c c' i v k,
)

take_snapshot-IsValid :
    (c : RaftCore) (req : InstallSnapshotRpc)
    → IsValid c
    → req.last_included_index + 1 < u64_mod
    → IsValid (take_snapshot c req).0
unfolding take_snapshot
take_snapshot-IsValid c req v h = ground arith

receive_snapshot-IsValid :
    (rng : Rng) (c : RaftCore) (req : InstallSnapshotRpc)
    → IsValid c
    → req.last_included_index + 1 < u64_mod
    → Returns (receive_snapshot rng c req) (λ r. IsValid r.0)
unfolding receive_snapshot
receive_snapshot-IsValid rng c req v h =
    let w : IsValid (step_down c req.term) = ground arith in
    Returns-if (ltb req.term c.current_term) _ _ (λ stale. (_, refl, v))
      (λ fresh.
        rw (reset_election_timeout-eq rng 1 (step_down c req.term) w.range)
          (_, refl, take_snapshot-IsValid _ req (omega arith) h))

-- A snapshot from a leader never makes a valid node panic and leaves it valid, whatever the snapshot, as
-- long as the index after it is a `u64`.
pub handle_install_snapshot-IsValid :
    (rng : Rng) (c : RaftCore) (req : InstallSnapshotRpc)
    → IsValid c
    → req.last_included_index + 1 < u64_mod
    → Returns (handle_install_snapshot rng c req) (λ r. IsValid r.0)
unfolding handle_install_snapshot
handle_install_snapshot-IsValid rng c req v h =
    after_term_check-Returns IsValid rng c req.term _ v.range (
      receive_snapshot-IsValid rng (checked rng c req.term) req (checked-IsValid rng c req.term v)
        h)
