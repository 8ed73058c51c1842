-- ===== src/Tests/Handlers.antt =====
-- A request to a node that follows (crates/raft-kv/src/main.rs) at concrete inputs.
use ferris_ferry.Prelude.{◌≡◌, refl, none, some, [], ◌∷◌, ◌++◌, ok, arith}
use ferris_ferry.Types.{Bytes}
use ferris_ferry.Core.Replicate.{propose}
use ferris_ferry.Files.{Codec, FileStorage, file_storage}
use ferris_ferry.Loop.{Answer, RaftDriver, refused, follower_node, on_proposal}
use ferris_ferry.Kv.{KvCommand, get, set, delete, scheme, redirect_to}
use ferris_ferry.Kv.Handlers.{error, into_response, set_handler, set_handler-redirects}
use ferris_ferry.Kv.Addresses.{IsClientAddress}
use ferris_ferry.Tests.Loop.{application, follower_driver}
use ferris_ferry.Tests.Startup.{arguments, second, second-starts}
use ferris_ferry.Tests.Storage.{metadata_codec, entry_codec, snapshot_codec}

abbrev encode : KvCommand → Bytes
encode (get key) = 0 ∷ key
encode (set key new_value) = 1 ∷ (key ++ new_value)
encode (delete key) = 2 ∷ key

abbrev command_codec : Codec KvCommand
command_codec = record { to_allocvec = λ c. some (encode c); from_bytes = λ b. none }

-- a follower that knows its leader, node 1
abbrev following : RaftDriver FileStorage
following = record follower_driver {
  core = record follower_driver.core { current_leader = some 1 };
}

abbrev turned_away : RaftDriver FileStorage
turned_away = record following { answers = (70, refused (follower_node (some 1))) ∷ [] }

proposal-refused :
    on_proposal
      (file_storage metadata_codec entry_codec snapshot_codec)
      application
      following
      (1 ∷ 5 ∷ 6 ∷ [])
      70
    ≡ ok turned_away
unfolding on_proposal propose
proposal-refused = refl

set_handler-redirects_example :
    (answer : Answer) × (addr : Bytes) × IsClientAddress arguments none 1 addr
    × (turned_away ≡ record following { answers = [] ++ (70, answer) ∷ [] })
    × (set_handler second.http_addrs (47 ∷ []) command_codec (λ b. answer) (5 ∷ []) (6 ∷ [])
        ≡ error (redirect_to (47 ∷ []) (some addr)))
    × (into_response (redirect_to (47 ∷ []) (some addr)) ≡ record {
      status = 307;
      location = some (scheme ++ (addr ++ 47 ∷ []));
      retry_after = none;
    })
set_handler-redirects_example =
    set_handler-redirects (file_storage metadata_codec entry_codec snapshot_codec) application
      command_codec following turned_away arguments (some (107 ∷ 118 ∷ 45 ∷ 49 ∷ [])) second 1
      (47 ∷ []) (5 ∷ []) (6 ∷ []) (1 ∷ 5 ∷ 6 ∷ []) 70 second-starts (omega arith) (omega arith) refl
      refl refl proposal-refused
