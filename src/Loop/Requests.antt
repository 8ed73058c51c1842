-- ===== src/Loop/Requests.antt =====
-- Requests of clients to the event loop of crates/raft-event-loop/src/lib.rs.
use ferris_ferry.Prelude.{
  ℕ, ◌≡◌, refl, sym, ◌∙◌, subst, Option, none, some, List, [], ◌∷◌, ◌++◌, true, false, ok,
  >>=-eq-ok, ok-injective, wadd, lookup, lookup-insert, arith,
}
use ferris_ferry.Types.{Bytes, Action}
use ferris_ferry.Core.State.{RaftCore, is_leader}
use ferris_ferry.Core.Replicate.{propose}
use ferris_ferry.Core.Commit.{request_read_barrier}
use ferris_ferry.Loop.{
  refused, follower_node, AppliedEntry, Storage, RaftDriver, after_proposal, on_proposal,
  on_read_request,
}

not_leading :
    (c : RaftCore) (command : Bytes) (r : RaftCore × Option (List Action))
    → is_leader c ≡ false
    → propose c command ≡ ok r
    → (c, none) ≡ r
unfolding propose
not_leading c command r l p = ok-injective (rw l at p)

module _ {S : Type 0} (io : Storage S) (application : List AppliedEntry → Bytes) where
  -- A node that does not lead answers who does, as far as it knows, and nothing else happens.
  pub on_proposal-follower :
      (d d' : RaftDriver S) (command : Bytes) (client : ℕ)
      → on_proposal io application d command client ≡ ok d'
      → is_leader d.core ≡ false
      → d' ≡ record d {
        answers = d.answers ++ (client, refused (follower_node d.core.current_leader)) ∷ [];
      }
  unfolding on_proposal
  on_proposal-follower d d' command client e l =
      let (r, p, q) = >>=-eq-ok (propose d.core command) _ e in
      let nothing = not_leading d.core command r l p in
      sym (
        ok-injective (
          subst
            (λ (x : RaftCore × Option (List Action)).
              after_proposal io application (record d { core = x.0 }) x.1 client ≡ ok d')
            (sym nothing) q))

module _ {S : Type 0} where
  -- A client asks a node to read. If the node leads, the client waits under the identifier after the last one that
  -- was given out, and under the same identifier the core keeps a barrier with the number of the successful
  -- answers of followers that the leader has counted so far. If it does not lead, the answer says who does, as far as the node knows, and
  -- nothing else happens.
  pub on_read_request-Tracked :
      (d : RaftDriver S) (client : ℕ)
      → (is_leader d.core ≡ true
          → (lookup (wadd d.core.next_read_barrier_id 1) (on_read_request d client).pending_reads
              ≡ some client)
            × (lookup
                  (wadd d.core.next_read_barrier_id 1)
                  (on_read_request d client).core.read_barriers
                ≡ some d.core.append_entries_count)
            × ((on_read_request d client).core.next_read_barrier_id
                ≡ wadd d.core.next_read_barrier_id 1)
            × ((on_read_request d client).answers ≡ d.answers))
        × (is_leader d.core ≡ false
            → on_read_request d client ≡ record d {
              answers = d.answers ++ (client, refused (follower_node d.core.current_leader)) ∷ [];
            })
  unfolding on_read_request request_read_barrier
  on_read_request-Tracked d client =
      let id = wadd d.core.next_read_barrier_id 1 in
      (
        λ l. rw l (
          lookup-insert id id client d.pending_reads ∙ ground arith,
          lookup-insert id id d.core.append_entries_count d.core.read_barriers ∙ ground arith,
          refl,
          refl,
        ),
        λ l. rw l refl,
      )
