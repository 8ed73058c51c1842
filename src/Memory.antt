-- ===== src/Memory.antt =====
-- `InMemoryStorage` and `InMemoryTransport` of crates/raft-test-utils/src/lib.rs: a storage engine over three
-- buffers, and a transport over channels, for tests. The encoding of values is a parameter; an `Err` is the
-- failing result.
pub mod Search
pub mod Laws
pub mod Rounds
pub mod Channels
pub mod Queues
use ferris_ferry.Prelude.{
  ℕ, zero, suc, ◌+◌, Option, none, some, List, [], ◌∷◌, ◌++◌, Bool, is_empty, if◌then◌else◌, ◌==◌,
  length, take, drop, Result, ok, panic, ◌>>=◌, unwrap, lookup, insert,
}
use ferris_ferry.Types.{NodeId, Bytes, LogEntry, Message}
use ferris_ferry.Wire.{read_number}
use ferris_ferry.Loop.{PersistedMetadata, Snapshot, Storage}
use ferris_ferry.Files.{Codec, write_frames, read_frames}

pub record InMemoryStorage : Type 0 where
  pub metadata : Bytes
  pub log_entries : Bytes
  pub snapshot : Bytes

abbrev pub new_storage : InMemoryStorage
new_storage = record { metadata = []; log_entries = []; snapshot = [] }

module _ (metadata_codec : Codec PersistedMetadata) where
  unfoldable pub store_metadata : InMemoryStorage → PersistedMetadata → Result InMemoryStorage
  store_metadata s metadata = do
    buf ← unwrap (metadata_codec.to_allocvec metadata)
    ok (record s { metadata = buf })

  -- An empty buffer that is not decoded is no metadata yet.
  abbrev pub decoded_metadata : Bool → Option PersistedMetadata → Result (Option PersistedMetadata)
  decoded_metadata empty (some m) = ok (some m)
  decoded_metadata empty none = if empty then ok none else panic

  unfoldable pub restore_metadata : InMemoryStorage → Result (Option PersistedMetadata)
  restore_metadata s = decoded_metadata (is_empty s.metadata) (metadata_codec.from_bytes s.metadata)

-- The loop that finds the frame of an index. A frame without a whole length is a panic; the cursor may be
-- set behind the end.
abbrev pub after_length :
    (Bytes → ℕ → Result (Option ℕ)) → ℕ → Option (ℕ × Bytes) → Result (Option ℕ)
after_length next pos none = panic
after_length next pos (some len) = next (drop len.0 len.1) (pos + 12 + len.0)

abbrev pub at_index :
    (Bytes → ℕ → Result (Option ℕ)) → ℕ → ℕ → Option (ℕ × Bytes) → Result (Option ℕ)
at_index next start_index pos none = ok none
at_index next start_index pos (some index) =
    if index.0 == start_index then ok (some pos) else after_length next pos (read_number 4 index.1)

unfoldable pub find_frame : ℕ → ℕ → Bytes → ℕ → Result (Option ℕ)
find_frame start_index zero bs pos = ok none
find_frame start_index (suc fuel) bs pos =
    at_index (find_frame start_index fuel) start_index pos (read_number 8 bs)

abbrev pub truncate : Option ℕ → Bytes → Bytes
truncate none bs = bs
truncate (some pos) bs = take pos bs

module _ (codec : Codec LogEntry) where
  -- Each round reads 8 bytes or more: one round for each byte is enough.
  unfoldable pub store_log_entries : InMemoryStorage → ℕ → List LogEntry → Result InMemoryStorage
  unfolding find_frame
  store_log_entries s start_index entries = do
    serialized ← write_frames codec start_index entries
    truncate_at ← find_frame start_index (length s.log_entries) s.log_entries 0
    ok (record s { log_entries = truncate truncate_at s.log_entries ++ serialized })

  unfoldable pub restore_log_entries : InMemoryStorage → Result (Option (List LogEntry))
  restore_log_entries s =
      if is_empty s.log_entries
      then ok none
      else (do entries ← read_frames codec (length s.log_entries) s.log_entries; ok (some entries))

unfoldable pub truncate_log : InMemoryStorage → Result InMemoryStorage
truncate_log s = ok (record s { log_entries = [] })

module _ (snapshot_codec : Codec Snapshot) where
  unfoldable pub store_snapshot : InMemoryStorage → Snapshot → Result InMemoryStorage
  store_snapshot s snapshot = do
    snap ← unwrap (snapshot_codec.to_allocvec snapshot)
    ok (record s { snapshot = snap })

  abbrev pub get_snapshot : InMemoryStorage → Result Snapshot
  get_snapshot s = unwrap (snapshot_codec.from_bytes s.snapshot)

  unfoldable pub retrieve_snapshot_bytes : InMemoryStorage → Result Bytes
  retrieve_snapshot_bytes s = do snapshot ← get_snapshot s; ok snapshot.payload

  unfoldable pub restore_snapshot : InMemoryStorage → Result (Option Snapshot)
  restore_snapshot s =
      if is_empty s.snapshot then ok none else (do snapshot ← get_snapshot s; ok (some snapshot))

-- `impl Storage for InMemoryStorage`
abbrev pub memory_storage :
    Codec PersistedMetadata → Codec LogEntry → Codec Snapshot → Storage InMemoryStorage
memory_storage metadata_codec entry_codec snapshot_codec = record {
  store_metadata = store_metadata metadata_codec;
  restore_metadata = restore_metadata metadata_codec;
  store_log_entries = store_log_entries entry_codec;
  restore_log_entries = restore_log_entries entry_codec;
  store_snapshot = store_snapshot snapshot_codec;
  truncate_log = truncate_log;
  retrieve_snapshot_bytes = retrieve_snapshot_bytes snapshot_codec;
  restore_snapshot = restore_snapshot snapshot_codec;
}
