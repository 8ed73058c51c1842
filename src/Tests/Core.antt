-- ===== src/Tests/Core.antt =====
-- Theorems about crates/raftcore/src/lib.rs at concrete inputs.
use ferris_ferry.Prelude.{
  ℕ, ◌+◌, ◌<◌, ◌≡◌, refl, none, some, [], ◌∷◌, wadd, ok, Returns, arith, length, get_elem?, values,
  true,
}
use ferris_ferry.Types.{
  RequestVoteRpc, request_vote, request_vote_response, Action, send_message, persist_metadata,
}
use ferris_ferry.Core.State.{RaftCore, begin, check_msg_term, after_term_check}
use ferris_ferry.Core.Log.{last_log_index, last_log_term, log_entry_at, log_term_at, log_slice}
use ferris_ferry.Core.Log.Slices.{log_slice-entries}
use ferris_ferry.Core.Election.{handle_request_vote, answer_vote}
use ferris_ferry.Core.Append.{store_entries}
use ferris_ferry.Core.Append.Merge.{merge, store_entries-merge}
use ferris_ferry.Core.Commit.{next_commit}
use ferris_ferry.Core.Commit.Quorum.{IsCommittable, next_commit-IsCommittable}
use ferris_ferry.Core.Node.{step, receive, received, here, next}
use ferris_ferry.Core.Node.Votes.{KeepsVote, Reach-KeepsVote}
use ferris_ferry.Durable.{persist_all, image}
use ferris_ferry.Durable.Step.{written-before-sent}
use ferris_ferry.Tests.Fixtures.{lowest, entry, fresh, behind, leading}

abbrev ask : RequestVoteRpc
ask = record { term = 1; candidate_id = 2; last_log_index = 0; last_log_term = 0 }

-- `fresh` after it gave its vote to node 2 in term 1
abbrev voted : RaftCore
voted = record fresh { current_term = 1; voted_for = some 2 }

abbrev granted : Action
granted = send_message 2 (request_vote_response (record { id = 1; term = 1; vote_granted = true }))

fresh-votes :
    step lowest fresh (received (request_vote ask))
    ≡ ok (voted, persist_metadata 1 none ∷ persist_metadata 1 (some 2) ∷ granted ∷ [])
unfolding step receive handle_request_vote after_term_check begin check_msg_term answer_vote
    last_log_term log_term_at last_log_index wadd
fresh-votes = refl

written-before-sent_example :
    persist_all (image fresh) (persist_metadata 1 none ∷ persist_metadata 1 (some 2) ∷ [])
    ≡ image voted
written-before-sent_example =
    written-before-sent lowest fresh (received (request_vote ask)) voted
      (persist_metadata 1 none ∷ persist_metadata 1 (some 2) ∷ []) [] granted tt fresh-votes refl

Reach-KeepsVote_example : KeepsVote fresh voted
Reach-KeepsVote_example =
    Reach-KeepsVote 5 fresh voted (omega arith)
      (next lowest (received (request_vote ask)) _ here (omega arith) fresh-votes)

-- entries 4 and 5 of term 2 over those of term 1
store_entries-merge_example :
    store_entries behind 4 (entry 1 40 ∷ entry 2 51 ∷ [])
    ≡ ok (record behind { log = entry 1 30 ∷ entry 1 40 ∷ entry 2 51 ∷ [] })
unfolding merge
store_entries-merge_example =
    store_entries-merge behind 4 (entry 1 40 ∷ entry 2 51 ∷ []) (omega arith) (omega arith)
      (omega arith)

log_slice-entries_example : Returns (log_slice behind 4 6) (λ entries.
    (length entries ≡ 2) × ((k : ℕ) → k < 2 → get_elem? entries k ≡ log_entry_at behind (4 + k)))
log_slice-entries_example =
    log_slice-entries behind 4 6 (omega arith) (omega arith) (omega arith) (omega arith)

next_commit-IsCommittable_example : Returns (next_commit leading) (IsCommittable leading)
unfolding values
next_commit-IsCommittable_example =
    next_commit-IsCommittable leading (omega arith) (omega arith) (omega arith)
      (omega arith, (omega arith, tt))
