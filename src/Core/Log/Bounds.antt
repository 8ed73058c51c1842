-- ===== src/Core/Log/Bounds.antt =====
-- Which indices of the logical log of crates/raftcore/src/lib.rs are there, and that its last term is.
use ferris_ferry.Prelude.{
  ℕ, ◌+◌, ◌-◌, ◌≤◌, ◌<◌, ◌≡◌, none, some, ok, arith, length, u64_mod, wadd-eq-add, get_elem?_of_lt,
  get_elem?-none, Option-cases, ◌⊎◌, inl, inr,
}
use ferris_ferry.Types.{LogEntry}
use ferris_ferry.Core.State.{RaftCore}
use ferris_ferry.Core.Log.{last_log_index, log_entry_at, log_term_at, last_log_term}

-- `n` more entries leave the index of the last one below 2^64.
abbrev pub HasRoom : RaftCore → ℕ → Type 0
HasRoom c n = c.last_included_index + length c.log + n < u64_mod

pub last_log_index-eq :
    (c : RaftCore) → HasRoom c 0 → last_log_index c ≡ c.last_included_index + length c.log
unfolding last_log_index
last_log_index-eq c h = wadd-eq-add c.last_included_index (length c.log) (omega arith)

pub log_entry_at-some :
    (c : RaftCore) (i : ℕ)
    → c.last_included_index < i
    → i ≤ c.last_included_index + length c.log
    → (e : LogEntry) × (log_entry_at c i ≡ some e)
unfolding log_entry_at
log_entry_at-some c i h k =
    let (e, p) = get_elem?_of_lt c.log (i - c.last_included_index - 1) (omega arith) in
    (e, ground (arith, p))

pub log_term_at-some :
    (c : RaftCore) (i : ℕ)
    → c.last_included_index ≤ i
    → i ≤ c.last_included_index + length c.log
    → (t : ℕ) × (log_term_at c i ≡ some t)
unfolding log_term_at log_entry_at
log_term_at-some c i h k = elim (Option-cases (log_term_at c i)) [
  | inl n ↦ absurd (ground (arith, get_elem?_of_lt c.log (i - c.last_included_index - 1), n))
  | inr (t, p) ↦ (t, p)
]

pub log_term_at-none :
    (c : RaftCore) (i : ℕ)
    → (i < c.last_included_index) ⊎ (c.last_included_index + length c.log < i)
    → log_term_at c i ≡ none
unfolding log_term_at log_entry_at
log_term_at-none c i h = ground (arith, get_elem?-none c.log (i - c.last_included_index - 1))

-- The index of an entry with a known term lies between the snapshot and the end of the log.
pub log_term_at-bounds :
    (c : RaftCore) (i t : ℕ)
    → log_term_at c i ≡ some t
    → (c.last_included_index ≤ i) × (i ≤ c.last_included_index + length c.log)
unfolding log_term_at log_entry_at
log_term_at-bounds c i t h = ground (arith, get_elem?-none c.log (i - c.last_included_index - 1))

-- The `unwrap` of `last_log_term` does not fail.
pub last_log_term-ok : (c : RaftCore) → HasRoom c 0 → (t : ℕ) × (last_log_term c ≡ ok t)
unfolding last_log_term
last_log_term-ok c h =
    let (t, p) =
      log_term_at-some c (last_log_index c) (omega (arith, last_log_index-eq c h))
        (omega (arith, last_log_index-eq c h)) in
    (t, rw p)
