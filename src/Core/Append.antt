-- ===== src/Core/Append.antt =====
-- `handle_append_entries` of crates/raftcore/src/lib.rs: a follower takes entries from a leader.
pub mod Frame
pub mod Merge
pub mod Agreeing
pub mod Stored
pub mod Conflict
use ferris_ferry.Prelude.{
  ℕ, zero, suc, ◌+◌, ◌-◌, min, Option, none, some, List, [], ◌∷◌, ◌++◌, Bool, true, false, not,
  ◌&&◌, ◌||◌, ltb, leb, ◌==◌, eq_option, if◌then◌else◌, unwrap_or, is_empty, length, take, Result,
  ok, ◌>>=◌, unwrap, wadd, wsub,
}
use ferris_ferry.Types.{
  follower, LogEntry, AppendEntriesRpc, AppendEntriesResponseRpc, append_entries_response, Action,
  send_message, persist_log_entries, apply_to_state_machine, is_candidate_state, is_follower_state,
}
use ferris_ferry.Core.State.{Rng, RaftCore, reset_election_timeout, after_term_check}
use ferris_ferry.Core.Log.{last_log_index, log_term_at, log_slice}
use ferris_ferry.Core.Replicate.{push_entry}

-- the response that the method starts from
abbrev pub rejection : RaftCore → AppendEntriesResponseRpc
rejection c = record {
  id = c.id;
  term = c.current_term;
  match_index = last_log_index c;
  success = false;
  first_conflicting_index = none;
  first_conflicting_term = none;
}

abbrev pub make_response : AppendEntriesRpc → AppendEntriesResponseRpc → Action
make_response req r = send_message req.leader_id (append_entries_response r)

unfoldable pub valid_prev : RaftCore → AppendEntriesRpc → Bool
valid_prev c req =
    req.prev_log_index == 0
    || (leb req.prev_log_index (last_log_index c)
        && eq_option (log_term_at c req.prev_log_index) (some req.prev_log_term))

-- `for i in (0..n).rev()`: the index after the last one below `n` whose term differs
unfoldable pub find_conflict : RaftCore → ℕ → ℕ → Option ℕ
find_conflict c conflicting_term zero = none
find_conflict c conflicting_term (suc i) =
    if unwrap_or (log_term_at c i) 0 == conflicting_term
    then find_conflict c conflicting_term i
    else some (wadd i 1)

unfoldable pub conflict_response : RaftCore → AppendEntriesRpc → AppendEntriesResponseRpc
unfolding find_conflict
conflict_response c req =
    if ltb (last_log_index c) req.prev_log_index
    then record (rejection c) { first_conflicting_index = some (wadd (last_log_index c) 1) }
    else (let conflicting_term = unwrap_or (log_term_at c req.prev_log_index) 0 in
        record (rejection c) {
          first_conflicting_index = find_conflict c conflicting_term req.prev_log_index;
          first_conflicting_term = some conflicting_term;
        })

-- `self.log.truncate(i - self.last_included_index - 1)`
unfoldable pub truncate_from : RaftCore → ℕ → RaftCore
truncate_from c i = record c { log = take (wsub (wsub i c.last_included_index) 1) c.log }

-- One round of the loop, for the entry at index `i`.
unfoldable pub store_entry : RaftCore → ℕ → LogEntry → Result RaftCore
unfolding push_entry truncate_from
store_entry c i new_entry =
    if leb i (last_log_index c)
    then (do
      term ← unwrap (log_term_at c i)
      ok (if term == new_entry.term then c else push_entry (truncate_from c i) new_entry))
    else ok (push_entry c new_entry)

unfoldable pub store_entries : RaftCore → ℕ → List LogEntry → Result RaftCore
store_entries c i [] = ok c
store_entries c i (new_entry ∷ rest) = do
  c' ← store_entry c i new_entry
  store_entries c' (i + 1) rest

-- The rounds of `for i in next..next + n`, none if the sum wraps.
abbrev rounds : ℕ → ℕ → ℕ
rounds next n = wadd next n - next

unfoldable pub store_request : RaftCore → AppendEntriesRpc → Result RaftCore
store_request c req =
    let next = wadd req.prev_log_index 1 in
    store_entries c next (take (rounds next (length req.entries)) req.entries)

unfoldable pub persist_appended : RaftCore → AppendEntriesRpc → Result (List Action)
persist_appended c req = if is_empty req.entries then ok [] else (do
  entries ← log_slice c (wadd req.prev_log_index 1) (wadd (last_log_index c) 1)
  ok (persist_log_entries (wadd req.prev_log_index 1) entries ∷ []))

-- `iter().enumerate()`, with `index + base + 1` for the index of an entry
unfoldable pub apply_actions : ℕ → ℕ → List LogEntry → List Action
apply_actions base index [] = []
apply_actions base index (entry ∷ rest) =
    apply_to_state_machine (wadd (wadd index base) 1) entry.command
    ∷ apply_actions base (index + 1) rest

unfoldable pub follow_commit : RaftCore → ℕ → Result (RaftCore × List Action)
unfolding apply_actions
follow_commit c leader_commit =
    if ltb c.commit_index leader_commit
    then (do
      let commit = min leader_commit (last_log_index c)
      apply_entries ← log_slice c (wadd c.commit_index 1) (wadd commit 1)
      ok (
        record c { commit_index = commit; last_applied = commit },
        apply_actions c.commit_index 0 apply_entries,
      ))
    else ok (c, [])

abbrev pub acceptance : RaftCore → AppendEntriesResponseRpc
acceptance c = record (rejection c) { success = true }

-- The entries are valid: the log takes them, and the commit index follows the leader's.
unfoldable pub accept_entries : RaftCore → AppendEntriesRpc → Result (RaftCore × List Action)
accept_entries c req = do
  stored ← store_request c req
  persisted ← persist_appended stored req
  committed ← follow_commit stored req.leader_commit
  ok (committed.0, persisted ++ (committed.1 ++ make_response req (acceptance committed.0) ∷ []))

-- A candidate that hears of a leader in its term steps down.
abbrev pub step_down : RaftCore → ℕ → RaftCore
step_down c term =
    if term == c.current_term && is_candidate_state c.state
    then record c { state = follower }
    else c

-- A follower, in the term of the request's leader or a later one.
unfoldable pub hear_leader : Rng → RaftCore → AppendEntriesRpc → Result (RaftCore × List Action)
unfolding valid_prev conflict_response
hear_leader rng c req =
    if not (is_follower_state c.state) || ltb req.term c.current_term
    then ok (c, make_response req (rejection c) ∷ [])
    else (do
      reset ← reset_election_timeout rng 1 c
      let heard = record reset { current_leader = some req.leader_id }
      if valid_prev heard req
          then accept_entries heard req
          else ok (heard, make_response req (conflict_response heard req) ∷ []))

-- `handle_append_entries` after the check of the message's term
unfoldable pub receive_entries : Rng → RaftCore → AppendEntriesRpc → Result (RaftCore × List Action)
unfolding hear_leader
receive_entries rng c req = hear_leader rng (step_down c req.term) req

unfoldable pub handle_append_entries :
    Rng → RaftCore → AppendEntriesRpc → Result (RaftCore × List Action)
handle_append_entries rng c req = after_term_check rng c req.term (λ c'. receive_entries rng c' req)
