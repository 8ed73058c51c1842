-- ===== src/Core/Commit.antt =====
-- `handle_append_entries_response` of crates/raftcore/src/lib.rs: replication progress, the commit index
-- and read barriers. Also `request_read_barrier`.
pub mod Sorting
pub mod Quorum
use ferris_ferry.Prelude.{
  ℕ, zero, suc, ◌+◌, ◌-◌, ◌/◌, ◌%◌, Option, none, some, List, [], ◌∷◌, ◌++◌, leb, ◌==◌,
  if◌then◌else◌, unwrap_or, length, get_elem?, Result, ok, ◌>>=◌, unwrap, wadd, insert, modify,
  values,
}
use ferris_ferry.Types.{AppendEntriesResponseRpc, Action, read_barrier_ready}
use ferris_ferry.Core.State.{Rng, RaftCore, after_term_check, is_leader}
use ferris_ferry.Core.Log.{last_log_index, log_term_at, log_slice}
use ferris_ferry.Core.Replicate.{build_append_entries_for_peer}
use ferris_ferry.Core.Append.{apply_actions}

-- `sort()` of a `Vec<u64>`
unfoldable pub insert_sorted : ℕ → List ℕ → List ℕ
insert_sorted x [] = x ∷ []
insert_sorted x (y ∷ ys) = if leb x y then x ∷ y ∷ ys else y ∷ insert_sorted x ys

unfoldable pub sort : List ℕ → List ℕ
unfolding insert_sorted
sort [] = []
sort (x ∷ xs) = insert_sorted x (sort xs)

-- What each peer is known to hold, and the leader's own log.
abbrev pub peer_indices : RaftCore → List ℕ
peer_indices c = values c.match_index ++ last_log_index c ∷ []

unfoldable pub replicated_index : List ℕ → Result ℕ
unfolding sort
replicated_index indices = unwrap (get_elem? (sort indices) (length indices / 2))

-- `for index in …`: the last index of the rounds whose entry is of the current term
unfoldable pub scan_commit : RaftCore → ℕ → ℕ → ℕ → Result ℕ
scan_commit c zero index new_commit = ok new_commit
scan_commit c (suc rounds) index new_commit = do
  term ← unwrap (log_term_at c index)
  scan_commit c rounds (index + 1) (if term == c.current_term then index else new_commit)

unfoldable pub next_commit : RaftCore → Result ℕ
unfolding scan_commit replicated_index
next_commit c = do
  replicated ← replicated_index (peer_indices c)
  let first = wadd c.commit_index 1
  scan_commit c (wadd replicated 1 - first) first c.commit_index

-- `(peers.len()).div_ceil(2)`
abbrev pub barrier_quorum : RaftCore → ℕ
barrier_quorum c = length c.peers / 2 + length c.peers % 2

-- `extract_if`: the barriers that are ready, and those that wait
unfoldable pub ready_barriers : ℕ → ℕ → List (ℕ × ℕ) → List Action
ready_barriers count quorum [] = []
ready_barriers count quorum ((id, create_count) ∷ rest) =
    let later = ready_barriers count quorum rest in
    if leb (wadd create_count quorum) count then read_barrier_ready id ∷ later else later

unfoldable pub waiting_barriers : ℕ → ℕ → List (ℕ × ℕ) → List (ℕ × ℕ)
waiting_barriers count quorum [] = []
waiting_barriers count quorum ((id, create_count) ∷ rest) =
    let later = waiting_barriers count quorum rest in
    if leb (wadd create_count quorum) count then later else (id, create_count) ∷ later

unfoldable pub release_barriers : RaftCore → RaftCore × List Action
unfolding ready_barriers waiting_barriers
release_barriers c = (
  record c {
    read_barriers = waiting_barriers c.append_entries_count (barrier_quorum c) c.read_barriers;
  },
  ready_barriers c.append_entries_count (barrier_quorum c) c.read_barriers,
)

-- A majority may have advanced: commit, apply, and release read barriers.
unfoldable pub advance_commit : RaftCore → Result (RaftCore × List Action)
unfolding next_commit release_barriers apply_actions
advance_commit c = do
  new_commit ← next_commit c
  entries ← log_slice c (wadd c.last_applied 1) (wadd new_commit 1)
  let released =
      release_barriers (record c { commit_index = new_commit; last_applied = new_commit })
  ok (released.0, apply_actions c.last_applied 0 entries ++ released.1)

unfoldable pub note_success : RaftCore → AppendEntriesResponseRpc → RaftCore
note_success c resp = record c {
  match_index = insert resp.id resp.match_index c.match_index;
  next_index = insert resp.id (wadd resp.match_index 1) c.next_index;
  append_entries_count = wadd c.append_entries_count 1;
}

unfoldable pub note_failure : RaftCore → AppendEntriesResponseRpc → RaftCore
note_failure c resp = record c {
  next_index = modify resp.id (unwrap_or resp.first_conflicting_index 0) c.next_index;
}

-- `handle_append_entries_response` after the check of the message's term
unfoldable pub note_response : RaftCore → AppendEntriesResponseRpc → Result (RaftCore × List Action)
unfolding note_success note_failure
note_response c resp = if resp.success then advance_commit (note_success c resp) else (do
  retry ← build_append_entries_for_peer (note_failure c resp) resp.id
  ok (note_failure c resp, retry ∷ []))

unfoldable pub handle_append_entries_response :
    Rng → RaftCore → AppendEntriesResponseRpc → Result (RaftCore × List Action)
handle_append_entries_response rng c resp =
    after_term_check rng c resp.term (λ c'. note_response c' resp)

unfoldable pub request_read_barrier : RaftCore → RaftCore × Option ℕ
request_read_barrier c =
    let id = wadd c.next_read_barrier_id 1 in
    if is_leader c
    then (
      record c {
        next_read_barrier_id = id;
        read_barriers = insert id c.append_entries_count c.read_barriers;
      },
      some id,
    )
    else (c, none)
