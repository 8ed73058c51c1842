-- ===== src/Kv.antt =====
-- The key-value store of crates/raft-kv/src/main.rs: its commands, the task that applies entries, and the
-- answers to clients. A string is the list of its bytes. The encoding of values (the postcard crate) is a
-- parameter; the web server (the axum crate) is not modelled.
pub mod Replay
pub mod Startup
pub mod Hostname
pub mod Addresses
pub mod Cluster
pub mod Handlers
use ferris_ferry.Prelude.{
  ℕ, Option, none, some, List, [], ◌∷◌, ◌++◌, Bool, true, false, ◌&&◌, ◌==◌, if◌then◌else◌, Result,
  ok, ◌>>=◌, unwrap, lookup,
}
use ferris_ferry.Types.{NodeId, Bytes}
use ferris_ferry.Loop.{
  ProposalError, follower_node, lost_leadership, other_error, AppliedEntry, applied_command,
  applied_snapshot, applied_snapshot_request,
}
use ferris_ferry.Files.{Codec}

pub data KvCommand : Type 0 where
  get : (key : Bytes) → KvCommand
  set : (key value : Bytes) → KvCommand
  delete : (key : Bytes) → KvCommand

-- `HashMap<String, String>`
abbrev pub Store : Type 0
Store = List (Bytes × Bytes)

unfoldable pub eq_string : Bytes → Bytes → Bool
eq_string [] [] = true
eq_string (x ∷ xs) (y ∷ ys) = x == y && eq_string xs ys
eq_string _ _ = false

unfoldable pub get_key : Bytes → Store → Option Bytes
unfolding eq_string
get_key key [] = none
get_key key ((k, v) ∷ rest) = if eq_string k key then some v else get_key key rest

unfoldable pub insert_key : Bytes → Bytes → Store → Store
unfolding eq_string
insert_key key value [] = (key, value) ∷ []
insert_key key value ((k, v) ∷ rest) =
    if eq_string k key then (key, value) ∷ rest else (k, v) ∷ insert_key key value rest

unfoldable pub remove_key : Bytes → Store → Store
unfolding eq_string
remove_key key [] = []
remove_key key ((k, v) ∷ rest) =
    let kept = remove_key key rest in if eq_string k key then kept else (k, v) ∷ kept

-- `match kv_cmd`
unfoldable pub run_command : Store → KvCommand → Store
unfolding insert_key remove_key
run_command store (get key) = store
run_command store (set key value) = insert_key key value store
run_command store (delete key) = remove_key key store

-- A command that cannot be decoded is skipped.
abbrev pub run_decoded : Store → Option KvCommand → Store
run_decoded store none = store
run_decoded store (some command) = run_command store command

module _ (commands : Codec KvCommand) (stores : Codec Store) where
  -- The state that answers a request for a snapshot.
  abbrev pub current_state : Store → Result Bytes
  current_state store = unwrap (stores.to_allocvec store)

  -- One round of the task. A snapshot that cannot be decoded, or a store that cannot be encoded, ends it.
  unfoldable pub apply_entry : Store → AppliedEntry → Result Store
  unfolding run_command
  apply_entry store (applied_command command) = ok (run_decoded store (commands.from_bytes command))
  apply_entry store (applied_snapshot payload) = unwrap (stores.from_bytes payload)
  apply_entry store applied_snapshot_request = do answered ← current_state store; ok store

  unfoldable pub apply_entries : Store → List AppliedEntry → Result Store
  apply_entries store [] = ok store
  apply_entries store (entry ∷ rest) = do
    store' ← apply_entry store entry
    apply_entries store' rest

pub data KvError : Type 0 where
  redirect : (url : Bytes) → KvError
  no_leader uncertain internal : KvError

-- "http://"
abbrev pub scheme : Bytes
scheme = 104 ∷ 116 ∷ 116 ∷ 112 ∷ 58 ∷ 47 ∷ 47 ∷ []

abbrev pub redirect_to : Bytes → Option Bytes → KvError
redirect_to path none = no_leader
redirect_to path (some addr) = redirect (scheme ++ (addr ++ path))

unfoldable pub map_proposal_error : List (NodeId × Bytes) → ProposalError → Bytes → KvError
map_proposal_error http_addrs (follower_node none) path = no_leader
map_proposal_error http_addrs (follower_node (some id)) path =
    redirect_to path (lookup id http_addrs)
map_proposal_error http_addrs lost_leadership path = uncertain
map_proposal_error http_addrs other_error path = internal
