-- ===== src/Kv/Handlers.antt =====
-- The handlers of the web server of crates/raft-kv/src/main.rs and their answers. What the node answers to a
-- proposal or a request to read is an argument; the bodies are those of `SetResponse`, `GetResponse` and
-- `DeleteResponse`.
use ferris_ferry.Prelude.{
  ℕ, ◌≤◌, ◌<◌, ◌≡◌, refl, ap, ◌∙◌, Option, none, some, List, [], ◌∷◌, ◌++◌, false, length, ok,
}
use ferris_ferry.Types.{NodeId, Bytes}
use ferris_ferry.Core.State.{is_leader}
use ferris_ferry.Files.{Codec}
use ferris_ferry.Loop.{
  Answer, accepted, refused, follower_node, AppliedEntry, Storage, RaftDriver, on_proposal,
}
use ferris_ferry.Loop.Requests.{on_proposal-follower}
use ferris_ferry.Kv.{
  KvCommand, set, delete, Store, get_key, KvError, redirect, no_leader, uncertain, internal, scheme,
  redirect_to, map_proposal_error,
}
use ferris_ferry.Kv.Startup.{Args, Started, startup}
use ferris_ferry.Kv.Addresses.{IsClientAddress}
use ferris_ferry.Kv.Cluster.{startup-redirects}

pub data Reply : Type 0 where
  success : Reply
  value : Option Bytes → Reply
  error : KvError → Reply

-- A response: its status and the two headers that it may have.
pub record Response : Type 0 where
  pub status : ℕ
  pub location : Option Bytes
  pub retry_after : Option ℕ

unfoldable pub into_response : KvError → Response
into_response (redirect url) = record { status = 307; location = some url; retry_after = none }
into_response no_leader = record { status = 503; location = none; retry_after = some 1 }
into_response uncertain = record { status = 503; location = none; retry_after = some 1 }
into_response internal = record { status = 500; location = none; retry_after = none }

module _ (http_addrs : List (NodeId × Bytes)) (path : Bytes) where
  -- `.map_err(|e| state.map_proposal_error(e, &uri))?`, and then the rest
  abbrev pub after_answer : Reply → Answer → Reply
  after_answer rest accepted = rest
  after_answer rest (refused e) = error (map_proposal_error http_addrs e path)

  abbrev pub propose_encoded : (Bytes → Answer) → Option Bytes → Reply
  propose_encoded propose none = error internal
  propose_encoded propose (some command) = after_answer success (propose command)

  unfoldable pub set_handler : Codec KvCommand → (Bytes → Answer) → Bytes → Bytes → Reply
  set_handler codec propose key new_value =
      propose_encoded propose (codec.to_allocvec (set key new_value))

  unfoldable pub delete_handler : Codec KvCommand → (Bytes → Answer) → Bytes → Reply
  delete_handler codec propose key = propose_encoded propose (codec.to_allocvec (delete key))

  -- The store is read once the node has answered.
  unfoldable pub get_handler : Answer → Store → Bytes → Reply
  get_handler read_answer store key = after_answer (value (get_key key store)) read_answer

-- A node that follows a leader of its cluster, started with whatever arguments, answers a proposal at once and
-- changes nothing else. The client that asked it to set a key gets a redirect, status 307, to the same path at the
-- address of the leader: the one of its number among the addresses for clients, or, if none are given, what stands
-- before the last colon of its own address, with the port of the arguments.
pub set_handler-redirects :
    {S : Type 0} (io : Storage S) (application : List AppliedEntry → Bytes)
    (codec : Codec KvCommand) (d d' : RaftDriver S) (args : Args) (hostname : Option Bytes)
    (c : Started) (leader : NodeId) (path key new_value command : Bytes) (client : ℕ)
    → startup args hostname ≡ ok c
    → 0 < leader
    → leader ≤ length args.nodes
    → codec.to_allocvec (set key new_value) ≡ some command
    → is_leader d.core ≡ false
    → d.core.current_leader ≡ some leader
    → on_proposal io application d command client ≡ ok d'
    → (answer : Answer) × (addr : Bytes) × IsClientAddress args args.http_nodes leader addr
      × (d' ≡ record d { answers = d.answers ++ (client, answer) ∷ [] })
      × (set_handler c.http_addrs path codec (λ b. answer) key new_value
          ≡ error (redirect_to path (some addr)))
      × (into_response (redirect_to path (some addr))
          ≡ record { status = 307; location = some (scheme ++ (addr ++ path)); retry_after = none })
unfolding set_handler into_response
set_handler-redirects io application codec d d' args hostname c leader path key new_value command
      client s l k e f h p =
    let (bounds, listens, (addr, address, found)) =
      startup-redirects args hostname c leader path s l k in
    let answer = refused (follower_node d.core.current_leader) in
    (
      answer,
      addr,
      address,
      on_proposal-follower io application d d' command client p f,
      ap (propose_encoded c.http_addrs path (λ b. answer)) e
          ∙ ap (λ o. error (map_proposal_error c.http_addrs (follower_node o) path)) h
          ∙ ap error found,
      refl,
    )
