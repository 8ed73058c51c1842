-- ===== src/Tests/Loop.antt =====
-- The event loop (crates/raft-event-loop/src/lib.rs) over `FileStorage` at concrete inputs.
use ferris_ferry.Wire.{frame}
use ferris_ferry.Prelude.{
  ℕ, ◌≡◌, inl, refl, none, some, List, [], ◌∷◌, ◌++◌, true, false, ok, panic, arith, lookup, values,
  wadd, wsub,
}
use ferris_ferry.Types.{
  leader, follower, Bytes, Message, install_snapshot, request_vote, request_vote_response,
  persist_metadata, send_message,
}
use ferris_ferry.Core.State.{
  RaftCore, restore, new, random_range, is_leader, other_nodes, after_term_check, begin,
  check_msg_term,
}
use ferris_ferry.Core.Log.{last_log_index, last_log_term, log_term_at, log_entry_at}
use ferris_ferry.Core.Election.{handle_request_vote, answer_vote}
use ferris_ferry.Core.Node.{receive}
use ferris_ferry.Durable.{image}
use ferris_ferry.Loop.{
  AppliedEntry, RaftDriver, RaftConfig, on_message, handle_message, handle_actions, handle_action,
  start, refused, lost_leadership, follower_node, on_read_request, restore_core,
}
use ferris_ferry.Loop.Tickets.{Tracked, entry_of, Dismissed}
use ferris_ferry.Loop.Channels.{on_message-Tracked}
use ferris_ferry.Loop.Requests.{on_read_request-Tracked}
use ferris_ferry.Loop.Writes.{StorageLaws, commands, handle_message-Holds}
use ferris_ferry.Loop.Restart.{start-image}
use ferris_ferry.Files.{
  FileStorage, read_type, store_metadata, file_storage, restore_snapshot, restore_log_entries,
}
use ferris_ferry.Files.Laws.{file_storage_laws}
use ferris_ferry.Files.Missing.{install-without_log}
use ferris_ferry.Tests.Fixtures.{entry, lowest, fresh, leading}
use ferris_ferry.Tests.Storage.{
  metadata_codec, metadata_trip, entry_codec, entry_trip, entry-Short, snapshot_codec,
  snapshot_trip,
}

abbrev config : RaftConfig
config = record {
  id = 1;
  nodes = 1 ∷ 2 ∷ 3 ∷ [];
  heartbeat_interval = none;
  election_range = record { start = 15; end = 31 };
  snapshot_threshold = 1024;
}

abbrev empty_files : FileStorage
empty_files = record { metadata = none; log = none; snapshot = none }

-- an application whose snapshots are empty
abbrev pub application : List AppliedEntry → Bytes
application sent = []

abbrev pub follower_driver : RaftDriver FileStorage
follower_driver = record {
  id = 1;
  core = fresh;
  pending_proposals = [];
  pending_reads = [];
  num_entries = 0;
  snapshot_threshold = 1024;
  storage = empty_files;
  sent = [];
  applied = [];
  answers = [];
}

-- a leader for which client 70 waits at index 3, and client 80 for read 1
abbrev leader_driver : RaftDriver FileStorage
leader_driver = record follower_driver {
  core = leading;
  pending_proposals = (3, 70) ∷ [];
  pending_reads = (1, 80) ∷ [];
}

abbrev ask : Message
ask = request_vote (record { term = 9; candidate_id = 2; last_log_index = 0; last_log_term = 0 })

-- the files and the node after a vote is asked for in term 9
abbrev metadata_of_9 : FileStorage
metadata_of_9 = record empty_files { metadata = some (9 ∷ []) }

abbrev refused_vote : ℕ × Message
refused_vote = (2, request_vote_response (record { id = 1; term = 9; vote_granted = false }))

abbrev deposed : RaftDriver FileStorage
deposed = record leader_driver {
  core = record leading {
    state = follower;
    current_term = 9;
    voted_for = none;
    current_leader = none;
    election_timeout = 15;
  };
  storage = metadata_of_9;
  sent = refused_vote ∷ [];
  pending_proposals = [];
  pending_reads = [];
  answers = (70, refused lost_leadership) ∷ (80, refused lost_leadership) ∷ [];
}

ask-deposes :
    on_message
      (file_storage metadata_codec entry_codec snapshot_codec)
      application
      lowest
      leader_driver
      ask
    ≡ ok deposed
unfolding on_message handle_message handle_actions handle_action receive handle_request_vote
    after_term_check begin check_msg_term answer_vote last_log_term log_term_at last_log_index
    log_entry_at wadd wsub store_metadata values
ask-deposes = refl

on_message-Tracked_example :
    Tracked deposed (entry_of 3) 70
    × (is_leader leading ≡ true → is_leader deposed.core ≡ false → Dismissed deposed 70)
on_message-Tracked_example =
    on_message-Tracked (file_storage metadata_codec entry_codec snapshot_codec) application lowest
      leader_driver deposed ask (entry_of 3) 70 ask-deposes (unfold lookup in inl refl)

-- the only node of a cluster, which leads
abbrev alone : RaftDriver FileStorage
alone = record follower_driver {
  core = record fresh { state = leader; current_term = 1; peers = [] };
}

abbrev alone_waits : RaftDriver FileStorage
alone_waits = record alone {
  core = record alone.core { log = entry 1 5 ∷ []; ticks_since_last_heartbeat = 0 };
  pending_proposals = (1, 70) ∷ [];
  storage = record empty_files { log = some (frame 1 (1 ∷ 5 ∷ [])) };
}

abbrev laws : StorageLaws (file_storage metadata_codec entry_codec snapshot_codec)
laws =
    file_storage_laws metadata_codec entry_codec snapshot_codec metadata_trip entry_trip
      snapshot_trip entry-Short

abbrev voted : RaftCore
voted = record fresh { current_term = 9; voted_for = some 2 }

abbrev granted_vote : Message
granted_vote = request_vote_response (record { id = 1; term = 9; vote_granted = true })

-- the node after it gave its vote in term 9
abbrev voter_driver : RaftDriver FileStorage
voter_driver = record follower_driver {
  core = voted;
  storage = record empty_files { metadata = some (9 ∷ 2 ∷ []) };
  sent = (2, granted_vote) ∷ [];
}

ask-receive :
    receive lowest fresh ask
    ≡ ok (
      voted,
      persist_metadata 9 none ∷ persist_metadata 9 (some 2) ∷ send_message 2 granted_vote ∷ [],
    )
unfolding receive handle_request_vote after_term_check begin check_msg_term answer_vote
    last_log_term log_term_at last_log_index wadd
ask-receive = refl

ask-voted :
    handle_message
      (file_storage metadata_codec entry_codec snapshot_codec)
      application
      lowest
      follower_driver
      ask
    ≡ ok voter_driver
unfolding handle_message handle_actions handle_action receive handle_request_vote after_term_check
    begin check_msg_term answer_vote last_log_term log_term_at last_log_index wadd store_metadata
ask-voted = refl

files-hold : laws.Holds empty_files (image fresh)
unfolding file_storage_laws
files-hold = record { metadata_held = (refl, refl); log_held = refl; snapshot_held = (refl, refl) }

handle_message-Holds_example :
    laws.Holds voter_driver.storage (image voter_driver.core) × (voter_driver.core ≡ voted)
handle_message-Holds_example =
    handle_message-Holds (file_storage metadata_codec entry_codec snapshot_codec) laws application
      lowest follower_driver voter_driver ask
      (
        voted,
        persist_metadata 9 none ∷ persist_metadata 9 (some 2) ∷ send_message 2 granted_vote ∷ [],
      )
      files-hold tt (omega arith) ask-receive (unfold commands in omega arith) ask-voted

-- the node that starts from the files that the vote left
abbrev restarted : RaftDriver FileStorage
restarted = record voter_driver { sent = [] }

voter-restarts :
    start lowest config
      (file_storage metadata_codec entry_codec snapshot_codec)
      (record empty_files { metadata = some (9 ∷ 2 ∷ []) })
    ≡ ok restarted
unfolding start restore_core restore new random_range other_nodes read_type restore_log_entries
voter-restarts = refl

start-image_example :
    (image restarted.core ≡ image voted)
    × (restarted.storage ≡ record empty_files { metadata = some (9 ∷ 2 ∷ []) })
    × (restarted.pending_proposals ≡ [])
    × (restarted.pending_reads ≡ [])
    × (restarted.sent ≡ [])
start-image_example =
    start-image (file_storage metadata_codec entry_codec snapshot_codec) laws lowest config
      (record empty_files { metadata = some (9 ∷ 2 ∷ []) }) voted restarted
      (unfold file_storage_laws in
        record { metadata_held = refl; log_held = refl; snapshot_held = (refl, refl) })
      (λ z. refl) voter-restarts

on_read_request-Tracked_example :
    (is_leader leading ≡ true
      → (lookup
            (wadd leading.next_read_barrier_id 1)
            (on_read_request leader_driver 90).pending_reads
          ≡ some 90)
        × (lookup
              (wadd leading.next_read_barrier_id 1)
              (on_read_request leader_driver 90).core.read_barriers
            ≡ some leading.append_entries_count)
        × ((on_read_request leader_driver 90).core.next_read_barrier_id
            ≡ wadd leading.next_read_barrier_id 1)
        × ((on_read_request leader_driver 90).answers ≡ []))
    × (is_leader leading ≡ false
        → on_read_request leader_driver 90 ≡ record leader_driver {
          answers = [] ++ (90, refused (follower_node leading.current_leader)) ∷ [];
        })
on_read_request-Tracked_example = on_read_request-Tracked leader_driver 90

-- a node that has never stored an entry, with a snapshot
abbrev no_log : RaftDriver FileStorage
no_log = record follower_driver {
  storage = record { metadata = some (9 ∷ []); log = none; snapshot = some (5 ∷ 2 ∷ []) };
}

install-without_log_example :
    (handle_action
        (file_storage metadata_codec entry_codec snapshot_codec)
        application
        no_log
        (install_snapshot 7 2 [])
      ≡ panic)
    × (restore_snapshot snapshot_codec no_log.storage
          ≡ ok (some (record { last_included_index = 5; last_included_term = 2; payload = [] }))
        → start lowest config
            (file_storage metadata_codec entry_codec snapshot_codec)
            no_log.storage
          ≡ panic)
install-without_log_example =
    install-without_log metadata_codec entry_codec snapshot_codec application no_log 7 2 [] lowest
      config (record { last_included_index = 5; last_included_term = 2; payload = [] }) refl
