-- ===== src/Memory/Channels.antt =====
-- `InMemoryTransport` of crates/raft-test-utils/src/lib.rs: a bounded channel for every node, shared by all
-- transports of a cluster.
use ferris_ferry.Prelude.{
  ℕ, Option, none, some, List, [], ◌∷◌, ◌++◌, ltb, if◌then◌else◌, length, lookup, insert,
}
use ferris_ferry.Types.{NodeId, Message}

abbrev pub capacity : ℕ
capacity = 1024

-- The channels by their receiver.
abbrev pub Channels : Type 0
Channels = List (NodeId × List Message)

-- `for node in nodes { channels.insert(..) }`
unfoldable pub insert_channels : List NodeId → Channels → Channels
insert_channels [] channels = channels
insert_channels (node ∷ nodes) channels = insert_channels nodes (insert node [] channels)

unfoldable pub build_in_memory_transport : List NodeId → Channels
build_in_memory_transport nodes = insert_channels nodes []

-- A node without a channel gets nothing; with none, the call waits for room in the channel.
abbrev pub send_within : NodeId → Message → Option (List Message) → Channels → Option Channels
send_within node message none channels = some channels
send_within node message (some queue) channels =
    if ltb (length queue) capacity
    then some (insert node (queue ++ message ∷ []) channels)
    else none

unfoldable pub send : Channels → NodeId → Message → Option Channels
send channels node message = send_within node message (lookup node channels) channels

-- With none, the call waits for a message.
abbrev pub receive_from : NodeId → Option (List Message) → Channels → Option (Message × Channels)
receive_from id (some (message ∷ rest)) channels = some (message, insert id rest channels)
receive_from id _ channels = none

unfoldable pub recv : Channels → NodeId → Option (Message × Channels)
recv channels id = receive_from id (lookup id channels) channels
