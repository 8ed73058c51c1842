-- ===== src/Tests/Memory.antt =====
-- The storage for tests (crates/raft-test-utils/src/lib.rs) at concrete inputs.
use ferris_ferry.Prelude.{
  ℕ, ◌≡◌, refl, none, some, [], ◌∷◌, ◌++◌, ok, length, lookup, contains, arith,
}
use ferris_ferry.Types.{Bytes, Message, request_vote}
use ferris_ferry.Transport.Routing.{addressed}
use ferris_ferry.Memory.Channels.{Channels, build_in_memory_transport}
use ferris_ferry.Memory.Queues.{send_in_order, send_in_order-build}
use ferris_ferry.Wire.{frame, to_be_bytes, from_be_bytes, skip_frame, read_number, read_exact}
use ferris_ferry.Loop.Writes.{StorageLaws}
use ferris_ferry.Files as Files
use ferris_ferry.Files.{FileStorage, truncate_at, write_frames, read_frames}
use ferris_ferry.Files.Frames.{FramesThen, Whole}
use ferris_ferry.Memory.{InMemoryStorage, find_frame, store_log_entries, memory_storage}
use ferris_ferry.Memory.Search.{store_log_entries-same}
use ferris_ferry.Memory.Rounds.{Restores, Truncates, Finds, rounds-enough}
use ferris_ferry.Memory.Laws.{memory_storage_laws}
use ferris_ferry.Tests.Fixtures.{entry}
use ferris_ferry.Tests.Storage.{
  entry_codec, entry-Short, entry_trip, metadata_codec, metadata_trip, snapshot_codec,
  snapshot_trip,
}

-- two entries from index 3 on
abbrev two : Bytes
two = frame 3 (1 ∷ 30 ∷ []) ++ (frame 4 (1 ∷ 40 ∷ []) ++ [])

abbrev buffers : InMemoryStorage
buffers = record { metadata = []; log_entries = two; snapshot = [] }

abbrev files : FileStorage
files = record { metadata = none; log = some two; snapshot = none }

abbrev files_after : FileStorage
files_after = record files { log = some (frame 3 (1 ∷ 30 ∷ []) ++ (frame 4 (2 ∷ 41 ∷ []) ++ [])) }

two-Whole : Whole entry_codec 3 (entry 1 30 ∷ entry 1 40 ∷ []) two
unfolding FramesThen
two-Whole = (
  1 ∷ 30 ∷ [],
  frame 4 (1 ∷ 40 ∷ []) ++ [],
  refl,
  omega arith,
  refl,
  (1 ∷ 40 ∷ [], [], refl, omega arith, refl, refl),
)

files-stored : Files.store_log_entries entry_codec files 4 (entry 2 41 ∷ []) ≡ ok files_after
unfolding Files.store_log_entries truncate_at skip_frame read_number read_exact from_be_bytes
    to_be_bytes write_frames
files-stored = refl

store_log_entries-same_example :
    (s' : InMemoryStorage) × (store_log_entries entry_codec buffers 4 (entry 2 41 ∷ []) ≡ ok s')
    × (files_after.log ≡ some s'.log_entries)
store_log_entries-same_example =
    store_log_entries-same entry_codec entry-Short files files_after buffers 3 4
      (entry 1 30 ∷ entry 1 40 ∷ []) (entry 2 41 ∷ []) refl two-Whole files-stored

-- The encodings of these tests meet what the engine in memory asks of them.
in_memory : StorageLaws (memory_storage metadata_codec entry_codec snapshot_codec)
in_memory =
    memory_storage_laws metadata_codec entry_codec snapshot_codec metadata_trip entry_trip
      snapshot_trip entry-Short refl refl

-- a whole frame and three bytes of another one
abbrev torn : Bytes
torn = frame 3 (1 ∷ 30 ∷ []) ++ (0 ∷ 0 ∷ 0 ∷ [])

rounds-enough_example :
    Restores entry_codec torn (read_frames entry_codec (length torn) torn)
    × Truncates 4 torn 0 (truncate_at 4 (length torn) torn 0)
    × Finds 4 torn 0 (find_frame 4 (length torn) torn 0)
rounds-enough_example = rounds-enough entry_codec 4 (length torn) torn 0 (omega arith)

abbrev ping : ℕ → Message
ping term =
    request_vote (record { term = term; candidate_id = 1; last_log_index = 0; last_log_term = 0 })

send_in_order-build_example :
    (after : Channels) × (send_in_order
        ((2, ping 1) ∷ (1, ping 2) ∷ (3, ping 3) ∷ (2, ping 4) ∷ [])
        (build_in_memory_transport (1 ∷ 2 ∷ []))
      ≡ some after)
    × (lookup 2 after ≡ some (ping 1 ∷ ping 4 ∷ []))
unfolding contains addressed
send_in_order-build_example =
    send_in_order-build (1 ∷ 2 ∷ []) ((2, ping 1) ∷ (1, ping 2) ∷ (3, ping 3) ∷ (2, ping 4) ∷ []) 2
      (omega arith)
