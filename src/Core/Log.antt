-- ===== src/Core/Log.antt =====
-- The logical log of crates/raftcore/src/lib.rs: `last_log_index` to `log_slice`. The in-memory log
-- holds the entries after `last_included_index`, and the index of an entry counts from there.
pub mod Bounds
pub mod Slices
use ferris_ferry.Prelude.{
  ℕ, ◌-◌, min, Option, none, some, List, [], ◌&&◌, ltb, leb, ◌==◌, if◌then◌else◌, length, get_elem?,
  take, drop, Result, ok, panic, unwrap, wadd, wsub,
}
use mathlib.Core.Option
use ferris_ferry.Types.{LogEntry}
use ferris_ferry.Core.State.{RaftCore}

unfoldable pub last_log_index : RaftCore → ℕ
last_log_index c = wadd c.last_included_index (length c.log)

-- the subtraction is behind its guard, so it does not wrap
unfoldable pub log_entry_at : RaftCore → ℕ → Option LogEntry
log_entry_at c index =
    if leb index c.last_included_index
    then none
    else get_elem? c.log (index - c.last_included_index - 1)

unfoldable pub log_term_at : RaftCore → ℕ → Option ℕ
log_term_at c index =
    if ltb index c.last_included_index
    then none
    else if index == c.last_included_index
    then some c.last_included_term
    else Option.map (λ (e : LogEntry). e.term) (log_entry_at c index)

unfoldable pub last_log_term : RaftCore → Result ℕ
last_log_term c = unwrap (log_term_at c (last_log_index c))

-- `&xs[from..to]`
unfoldable pub slice : List LogEntry → ℕ → ℕ → Result (List LogEntry)
slice xs from to =
    if leb from to && leb to (length xs) then ok (take (to - from) (drop from xs)) else panic

unfoldable pub log_slice : RaftCore → ℕ → ℕ → Result (List LogEntry)
unfolding slice
log_slice c from to =
    if leb from c.last_included_index
    then ok []
    else slice c.log (from - c.last_included_index - 1)
        (min (wsub (wsub to c.last_included_index) 1) (length c.log))
