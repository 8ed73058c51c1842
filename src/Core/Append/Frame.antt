-- ===== src/Core/Append/Frame.antt =====
-- What `handle_append_entries` of crates/raftcore/src/lib.rs leaves alone: apart from the log and the
-- indices of what is committed and applied, taking entries changes no field.
use ferris_ferry.Prelude.{ℕ, ◌+◌, ◌≡◌, List, [], ◌∷◌, ok, arith, >>=-eq-ok}
use ferris_ferry.Types.{LogEntry, AppendEntriesRpc, Action}
use ferris_ferry.Core.State.{RaftCore}
use ferris_ferry.Core.Append.{
  store_entry, store_entries, store_request, follow_commit, persist_appended, accept_entries,
}

store_entry-frame :
    (c : RaftCore) (i : ℕ) (e : LogEntry) {c' : RaftCore}
    → store_entry c i e ≡ ok c'
    → c' ≡ record c { log = c'.log }
unfolding store_entry
store_entry-frame c i e h = ground arith

pub store_entries-frame :
    (c : RaftCore) (i : ℕ) (es : List LogEntry) {c' : RaftCore}
    → store_entries c i es ≡ ok c'
    → c' ≡ record c { log = c'.log }
unfolding store_entries
store_entries-frame c i [] h = ground arith
store_entries-frame c i (e ∷ es) {c'} h =
    let (c₁, p, q) = >>=-eq-ok (store_entry c i e) _ h in
    ground (arith, store_entry-frame c i e p, store_entries-frame c₁ (i + 1) es q)

pub store_request-frame :
    (c : RaftCore) (req : AppendEntriesRpc) {c' : RaftCore}
    → store_request c req ≡ ok c'
    → c' ≡ record c { log = c'.log }
unfolding store_request
store_request-frame c req h = store_entries-frame c _ _ h

pub follow_commit-frame :
    (c : RaftCore) (n : ℕ) {r : RaftCore × List Action}
    → follow_commit c n ≡ ok r
    → r.0 ≡ record c { commit_index = r.0.commit_index; last_applied = r.0.last_applied }
unfolding follow_commit
follow_commit-frame c n h = ground arith

pub accept_entries-frame :
    (c : RaftCore) (req : AppendEntriesRpc) {r : RaftCore × List Action}
    → accept_entries c req ≡ ok r
    → r.0
      ≡ record c { log = r.0.log; commit_index = r.0.commit_index; last_applied = r.0.last_applied }
unfolding accept_entries
accept_entries-frame c req h =
    let (stored, p, q) = >>=-eq-ok (store_request c req) _ h in
    let (persisted, p', q') = >>=-eq-ok (persist_appended stored req) _ q in
    let (committed, p'', q'') = >>=-eq-ok (follow_commit stored req.leader_commit) _ q' in
    ground
      (arith, store_request-frame c req p, follow_commit-frame stored req.leader_commit p'', q'')
