-- ===== src/Tests/Log.antt =====
-- Theorems on the log and on what is applied (crates/raftcore/src/lib.rs) at concrete inputs.
use ferris_ferry.Core.Append.Agreeing.{Agree}
use ferris_ferry.Prelude.{
  suc, ◌⊎◌, ℕ, ◌+◌, ◌≤◌, ◌≡◌, refl, some, List, [], ◌∷◌, ◌++◌, Returns, get_elem?, values, arith,
}
use ferris_ferry.Types.{LogEntry, AppendEntriesRpc, Action}
use ferris_ferry.Core.Log.{log_entry_at, log_term_at}
use ferris_ferry.Core.Append.{store_request, follow_commit, find_conflict}
use ferris_ferry.Core.Append.Stored.{store_request-log}
use ferris_ferry.Core.Append.Conflict.{FirstOfTerm, find_conflict-FirstOfTerm}
use ferris_ferry.Core.Commit.{advance_commit, release_barriers}
use ferris_ferry.Core.Applies.{InOrder, follow_commit-InOrder, advance_commit-InOrder}
use ferris_ferry.Tests.Fixtures.{entry, behind, leading}

abbrev overwriting : AppendEntriesRpc
overwriting = record {
  term = 2;
  leader_id = 2;
  prev_log_index = 2;
  prev_log_term = 1;
  entries = entry 1 30 ∷ entry 2 41 ∷ [];
  leader_commit = 4;
}

-- entry 3 agrees and is kept, entry 4 is replaced, entry 5 goes
store_request-log_example : Returns (store_request behind overwriting) (λ c'.
    ((k : ℕ) (e : LogEntry)
      → get_elem? (entry 1 30 ∷ entry 2 41 ∷ []) k ≡ some e
      → log_term_at c' (2 + 1 + k) ≡ some e.term)
    × ((k : ℕ) (e : LogEntry)
        → get_elem? (entry 1 30 ∷ entry 2 41 ∷ []) k ≡ some e
        → (x : LogEntry) × (log_entry_at c' (2 + 1 + k) ≡ some x)
          × ((x ≡ e)
              ⊎ ((log_entry_at behind (2 + 1 + k) ≡ some x)
                  × Agree (suc k) (entry 1 30 ∷ entry 2 41 ∷ []) behind.log)))
    × ((i : ℕ) → i ≤ 2 + 1 → log_entry_at c' i ≡ log_entry_at behind i))
store_request-log_example =
    store_request-log behind overwriting 1 (omega arith) (omega arith) (omega arith) (refl, tt)

find_conflict-FirstOfTerm_example : FirstOfTerm leading 2 3 (find_conflict leading 2 3)
find_conflict-FirstOfTerm_example = find_conflict-FirstOfTerm leading 2 3 (omega arith)

follow_commit-InOrder_example :
    Returns
      (follow_commit behind 9)
      (λ r. (r.0.commit_index ≡ 5) × (3 ≤ r.0.commit_index) × InOrder behind 3 r.0.commit_index r.1)
follow_commit-InOrder_example =
    follow_commit-InOrder behind 9 (omega arith) (omega arith) (omega arith)

advance_commit-InOrder_example : Returns (advance_commit leading) (λ r.
    (1 ≤ r.0.commit_index)
    × (r.0.last_applied ≡ r.0.commit_index)
    × ((applied : List Action) × (r.1 ≡ applied ++ (release_barriers leading).1)
        × InOrder leading 1 r.0.commit_index applied))
unfolding values
advance_commit-InOrder_example =
    advance_commit-InOrder leading (omega arith) (omega arith) (omega arith) (omega arith)
      (omega arith, (omega arith, tt))
