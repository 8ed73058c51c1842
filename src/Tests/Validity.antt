-- ===== src/Tests/Validity.antt =====
-- Valid nodes of crates/raftcore/src/lib.rs under concrete inputs.
use ferris_ferry.Prelude.{ℕ, ◌≤◌, ◌<◌, ◌≡◌, refl, none, some, [], ◌∷◌, true, Returns, arith, values}
use ferris_ferry.Types.{
  AppendEntriesRpc, AppendEntriesResponseRpc, RequestVoteResponseRpc, request_vote_response,
}
use ferris_ferry.Core.State.{restore_with_snapshot}
use ferris_ferry.Core.Log.{log_term_at, log_entry_at}
use ferris_ferry.Core.Append.{handle_append_entries}
use ferris_ferry.Core.Commit.{handle_append_entries_response}
use ferris_ferry.Core.Node.{step, received}
use ferris_ferry.Validity.{IsValid}
use ferris_ferry.Validity.Step.{step-IsValid}
use ferris_ferry.Validity.Election.{restore_with_snapshot-IsValid}
use ferris_ferry.Validity.Append.{handle_append_entries-IsValid}
use ferris_ferry.Validity.Commit.{Advanced, handle_append_entries_response-IsValid}
use ferris_ferry.Validity.Snapshot.{compact, compact-keeps-log}
use ferris_ferry.Tests.Fixtures.{lowest, entry, behind, leading, running}

behind-IsValid : IsValid behind
behind-IsValid = omega arith

leading-IsValid : IsValid leading
leading-IsValid = omega arith

running-IsValid : IsValid running
running-IsValid = omega arith

restore_with_snapshot-IsValid_example :
    Returns
      (restore_with_snapshot lowest 1
        (1 ∷ 2 ∷ 3 ∷ [])
        none
        (record { start = 15; end = 31 })
        2
        (some 3)
        (entry 2 30 ∷ [])
        2
        1)
      IsValid
restore_with_snapshot-IsValid_example =
    restore_with_snapshot-IsValid lowest 1 (1 ∷ 2 ∷ 3 ∷ []) none (record { start = 15; end = 31 }) 2
      (some 3) (entry 2 30 ∷ []) 2 1 (omega arith) (omega arith)

abbrev vote : RequestVoteResponseRpc
vote = record { id = 2; term = 3; vote_granted = true }

abbrev entries : AppendEntriesRpc
entries = record {
  term = 2;
  leader_id = 2;
  prev_log_index = 2;
  prev_log_term = 1;
  entries = entry 1 30 ∷ entry 2 41 ∷ [];
  leader_commit = 4;
}

handle_append_entries-IsValid_example :
    Returns
      (handle_append_entries lowest behind entries)
      (λ r. IsValid r.0 × (3 ≤ r.0.commit_index))
handle_append_entries-IsValid_example =
    handle_append_entries-IsValid lowest behind entries behind-IsValid
      (record { after_snapshot = omega arith; agrees = (refl, tt); room = omega arith })

abbrev answer : AppendEntriesResponseRpc
answer = record {
  id = 3;
  term = 2;
  match_index = 3;
  success = true;
  first_conflicting_index = none;
  first_conflicting_term = none;
}

handle_append_entries_response-IsValid_example :
    Returns (handle_append_entries_response lowest leading answer) (λ r. Advanced leading r.0)
unfolding values
handle_append_entries_response-IsValid_example =
    handle_append_entries_response-IsValid lowest leading answer leading-IsValid
      (omega arith, (omega arith, tt)) (omega arith)

compact-keeps-log_example : Returns (compact behind) (λ c'.
    IsValid c'
    × (c'.last_included_index ≡ 3)
    × ((i : ℕ) → 3 ≤ i → log_term_at c' i ≡ log_term_at behind i)
    × ((i : ℕ) → 3 < i → log_entry_at c' i ≡ log_entry_at behind i))
compact-keeps-log_example = compact-keeps-log behind behind-IsValid

-- a vote that makes the candidate a leader
step-IsValid_example :
    Returns (step lowest running (received (request_vote_response vote))) (λ r. IsValid r.0)
step-IsValid_example =
    step-IsValid lowest running (received (request_vote_response vote)) running-IsValid
      (omega arith)
