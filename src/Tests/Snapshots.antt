-- ===== src/Tests/Snapshots.antt =====
-- A snapshot of the application (crates/raft-event-loop/src/lib.rs) over `FileStorage`.
use ferris_ferry.Prelude.{◌-◌, ◌≡◌, refl, some, List, [], ◌∷◌, ◌++◌, drop, ok, arith}
use ferris_ferry.Types.{Bytes}
use ferris_ferry.Core.Log.{log_term_at, log_entry_at}
use ferris_ferry.Core.Snapshot.{prepare_snapshot, complete_snapshot}
use ferris_ferry.Durable.{image}
use ferris_ferry.Loop.{AppliedEntry, applied_snapshot_request, RaftDriver, snapshot_application}
use ferris_ferry.Loop.Writes.{StorageLaws}
use ferris_ferry.Loop.Snapshots.{snapshot_application-Holds}
use ferris_ferry.Wire.{frame, read_frame, read_number, read_exact}
use ferris_ferry.Files.{FileStorage, file_storage, store_snapshot, truncate_log}
use ferris_ferry.Files.Frames.{FramesThen}
use ferris_ferry.Files.Laws.{file_storage_laws}
use ferris_ferry.Tests.Fixtures.{behind}
use ferris_ferry.Tests.Storage.{
  metadata_codec, metadata_trip, entry_codec, entry_trip, entry-Short, snapshot_codec,
  snapshot_trip,
}

-- the application's state is a byte for each entry that it was sent
abbrev application : List AppliedEntry → Bytes
application [] = []
application (entry ∷ rest) = 0 ∷ application rest

abbrev three_frames : Bytes
three_frames = frame 3 (1 ∷ 30 ∷ []) ++ (frame 4 (1 ∷ 40 ∷ []) ++ (frame 5 (1 ∷ 50 ∷ []) ++ []))

-- the files of the node `behind`
abbrev behind_files : FileStorage
behind_files = record {
  metadata = some (2 ∷ []);
  log = some three_frames;
  snapshot = some (2 ∷ 1 ∷ []);
}

abbrev behind_driver : RaftDriver FileStorage
behind_driver = record {
  id = 1;
  core = behind;
  pending_proposals = [];
  pending_reads = [];
  num_entries = 1;
  snapshot_threshold = 1;
  storage = behind_files;
  sent = [];
  applied = [];
  answers = [];
}

abbrev compacted : RaftDriver FileStorage
compacted = record behind_driver {
  core = record behind { log = drop 1 behind.log; last_included_index = 3; last_included_term = 1 };
  storage = record behind_files { log = some []; snapshot = some (3 ∷ 1 ∷ 0 ∷ []) };
  applied = applied_snapshot_request ∷ [];
  num_entries = 0;
}

snapshot-taken :
    snapshot_application
      (file_storage metadata_codec entry_codec snapshot_codec)
      application
      behind_driver
    ≡ ok compacted
unfolding snapshot_application prepare_snapshot complete_snapshot log_term_at log_entry_at
    store_snapshot truncate_log
snapshot-taken = refl

abbrev laws : StorageLaws (file_storage metadata_codec entry_codec snapshot_codec)
laws =
    file_storage_laws metadata_codec entry_codec snapshot_codec metadata_trip entry_trip
      snapshot_trip entry-Short

behind-held : laws.Holds behind_files (image behind)
unfolding file_storage_laws FramesThen read_frame read_number read_exact
behind-held = record {
  metadata_held = refl;
  log_held = (
    1 ∷ 30 ∷ [],
    frame 4 (1 ∷ 40 ∷ []) ++ (frame 5 (1 ∷ 50 ∷ []) ++ []),
    refl,
    omega arith,
    refl,
    (
      1 ∷ 40 ∷ [],
      frame 5 (1 ∷ 50 ∷ []) ++ [],
      refl,
      omega arith,
      refl,
      (1 ∷ 50 ∷ [], [], refl, omega arith, refl, refl),
    ),
  );
  snapshot_held = ([], refl);
}

snapshot_application-Holds_example :
    laws.Holds compacted.storage (record (image compacted.core) { log = [] })
    × (compacted.core.log ≡ drop (3 - 2) behind.log)
    × (compacted.core.last_included_index ≡ 3)
snapshot_application-Holds_example =
    snapshot_application-Holds (file_storage metadata_codec entry_codec snapshot_codec) laws
      application behind_driver compacted behind-held (omega arith) snapshot-taken
