-- ===== src/Lib.antt =====
-- Ferris Ferry, a Raft consensus library with a replicated key-value store.
--
-- The program. `RaftCore` (crates/raftcore/src/lib.rs) is one node without I/O: each of its methods takes
-- an input (a clock tick, a proposal, a message) and returns actions. `RaftDriver`
-- (crates/raft-event-loop/src/lib.rs) carries the actions out in order, over a `Storage` and a
-- `Transport`, and answers the clients that wait. `FileStorage` (crates/raft-file-storage/src/lib.rs) is
-- the storage engine. The key-value store (crates/raft-kv/src/main.rs) applies what the cluster has
-- committed.
--
-- The files.
--   Prelude, Prelude/*    names of the libraries, tests on numbers, lists, results that may panic, 64-bit
--                         words, hash maps as association lists
--   Types                 crates/raftcore/src/types.rs
--   Core/State            `struct RaftCore`, `new`, `restore`, `restore_with_snapshot`,
--                         `reset_election_timeout`, `check_msg_term`
--   Core/Log              `last_log_index`, `log_entry_at`, `log_term_at`, `log_slice`
--   Core/Replicate        `propose`, `heartbeat`, `append_entries`, `build_append_entries_for_peer`,
--                         `initialize_leader_state`
--   Core/Election         `tick`, `election_timeout`, `handle_request_vote` and its response
--   Core/Append           `handle_append_entries`
--   Core/Commit           `handle_append_entries_response`, `request_read_barrier`
--   Core/Snapshot         `prepare_snapshot`, `complete_snapshot`, `handle_install_snapshot` and its
--                         response
--   Core/Applies          what is handed to the application, over both places that move the commit index
--   Core/Node             the public methods as one step function, and histories of a node
--   Validity, Validity/*  a well-formedness invariant of `RaftCore`, method by method
--   Network, Network/*    nodes over a network that loses, repeats, delays and reorders messages; elections
--   Simulation, Simulation/*  the simulated cluster of the tests of crates/raftcore/src/lib.rs
--   Durable, Durable/*    what the actions write to storage, and in which order they write and send
--   Loop                  `RaftDriver` with its types (crates/raft-event-loop/src/types.rs)
--   Loop/Tickets, Channels, Requests   the clients that wait
--   Loop/Writes, Restart  what a storage engine promises, what is stored, and restarts
--   Loop/Snapshots        the snapshot that the driver takes of the application
--   Transport, Transport/*  `TcpTransport`: sending and receiving tasks, channels by peer
--   Wire, Files, Files/*  `FileStorage`, its frames, and how it keeps the promises of an engine
--   Memory, Memory/*      `InMemoryStorage` and `InMemoryTransport` (crates/raft-test-utils/src/lib.rs)
--   Kv, Kv/*              the commands of the store, the task that applies them, the handlers, the start
--   Tests, Tests/*        concrete runs, and the theorems at concrete inputs
--
-- How the model corresponds to the code. A method is a function of the same name from the state and its
-- arguments to the new state and the actions; a part of a method that is a function of its own is named
-- for what it does. `Result` has a value or `panic`: an `unwrap` of `None`, an index out of bounds, an
-- empty range of random numbers, or an error that the caller unwraps. Numbers of 64 bits wrap around
-- (`wadd`, `wsub`), as in a release build. Draws of the random generator are an argument. The log starts
-- after `last_included_index`; a map is an association list, iterated in its order. In the event loop, a
-- client's channel is a number, and what is sent to the network, to the application and to clients is a
-- list of it each. An application's state at a snapshot is a function of all that it was sent.
--
-- Bounds and fuel. Loops are structural, but for the loops over a log, which have one round of fuel for
-- each byte of it: a round consumes 8 bytes or more, so that the fuel does not run out. `HasRoom` and
-- similar hypotheses keep the log's indices below 2^64.
--
-- Parameters. The encoding of values (the postcard crate) is a pair of functions; where a theorem needs it,
-- a value that was encoded is decoded to itself, and no encoded entry has 4 GiB.
--
-- Not modelled: sockets and their framing, a crash in the middle of a step, the routes of the web server and
-- the parsing of the command line, errors of the file system other than a missing file, logging, and the scheduling of tasks: the inputs of a node come in any order.
pub mod Prelude
pub mod Types
pub mod Core
pub mod Validity
pub mod Durable
pub mod Network
pub mod Simulation
pub mod Wire
pub mod Files
pub mod Loop
pub mod Transport
pub mod Memory
pub mod Kv
pub mod Tests
