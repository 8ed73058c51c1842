-- ===== src/Files.antt =====
-- `FileStorage` of crates/raft-file-storage/src/lib.rs over the three files of its directory. The
-- encoding of values (the postcard crate) is a parameter. The file system keeps what is written to it and
-- a file that is renamed over another replaces it whole; the only error it gives is that a file is
-- missing. An `Err` is the failing result.
pub mod Frames
pub mod Laws
pub mod Missing
use ferris_ferry.Prelude.{
  ℕ, zero, suc, ◌+◌, ◌≡◌, ◌<◌, Option, none, some, List, [], ◌∷◌, ◌++◌, ◌%◌, length, take, Result,
  ok, panic, ◌>>=◌, unwrap, unwrap_or, wadd,
}
use ferris_ferry.Types.{Bytes, LogEntry}
use ferris_ferry.Wire.{frame, read_frame, skip_frame}
use ferris_ferry.Loop.{PersistedMetadata, Snapshot, Storage}

-- `postcard::to_allocvec` and `postcard::from_bytes`
pub record Codec (A : Type 0) : Type 0 where
  pub to_allocvec : A → Option Bytes
  pub from_bytes : Bytes → Option A

-- A value that was encoded is decoded to itself.
abbrev pub RoundTrip : {A : Type 0} → Codec A → Type 0
RoundTrip {A} codec =
    (a : A) (b : Bytes) → codec.to_allocvec a ≡ some b → codec.from_bytes b ≡ some a

-- The files of the directory: their bytes, if they exist.
pub record FileStorage : Type 0 where
  pub metadata : Option Bytes
  pub log : Option Bytes
  pub snapshot : Option Bytes

module _ {A : Type 0} (codec : Codec A) where
  -- The bytes that the file has afterwards: they are written to another file, which is then renamed.
  abbrev pub atomic_serialize : A → Result Bytes
  atomic_serialize a = unwrap (codec.to_allocvec a)

  unfoldable pub read_type : Option Bytes → Result (Option A)
  read_type none = ok none
  read_type (some b) = do a ← unwrap (codec.from_bytes b); ok (some a)

-- The loop that finds where to write: the position of the frame of the index, or the end of the last
-- whole frame.
abbrev pub search_on : ℕ → (Bytes → ℕ → ℕ) → Option (ℕ × Bytes) → ℕ
search_on pos next none = pos
search_on pos next (some r) = next r.1 (pos + r.0)

unfoldable pub truncate_at : ℕ → ℕ → Bytes → ℕ → ℕ
truncate_at start_index zero bs pos = pos
truncate_at start_index (suc fuel) bs pos =
    search_on pos (truncate_at start_index fuel) (skip_frame start_index bs)

module _ (codec : Codec LogEntry) where
  -- `for entry in addendum.entries`: the bytes that are written
  unfoldable pub write_frames : ℕ → List LogEntry → Result Bytes
  write_frames index [] = ok []
  write_frames index (entry ∷ rest) = do
    serialized ← unwrap (codec.to_allocvec entry)
    more ← write_frames (wadd index 1) rest
    ok (frame index serialized ++ more)

  abbrev pub read_on :
      (Bytes → Result (List LogEntry)) → Option (Bytes × Bytes) → Result (List LogEntry)
  read_on next none = ok []
  read_on next (some r) = do
    entry ← unwrap (codec.from_bytes r.0)
    entries ← next r.1
    ok (entry ∷ entries)

  -- the loop of `restore_log_entries`
  unfoldable pub read_frames : ℕ → Bytes → Result (List LogEntry)
  read_frames zero bs = ok []
  read_frames (suc fuel) bs = read_on (read_frames fuel) (read_frame bs)

  -- Each round reads a byte or more: one round for each byte is enough.
  unfoldable pub store_log_entries : FileStorage → ℕ → List LogEntry → Result FileStorage
  unfolding truncate_at write_frames
  store_log_entries f start_index entries = do
    let bs = unwrap_or f.log []
    written ← write_frames start_index entries
    ok (record f { log = some (take (truncate_at start_index (length bs) bs 0) bs ++ written) })

  abbrev pub read_log : Option Bytes → Result (Option (List LogEntry))
  read_log none = ok none
  read_log (some bs) = do entries ← read_frames (length bs) bs; ok (some entries)

  unfoldable pub restore_log_entries : FileStorage → Result (Option (List LogEntry))
  unfolding read_frames
  restore_log_entries f = read_log f.log

-- The file is opened without `create`: it must exist.
unfoldable pub truncate_log : FileStorage → Result FileStorage
truncate_log f = do old ← unwrap f.log; ok (record f { log = some [] })

module _ (metadata_codec : Codec PersistedMetadata) where
  unfoldable pub store_metadata : FileStorage → PersistedMetadata → Result FileStorage
  store_metadata f metadata = do
    b ← atomic_serialize metadata_codec metadata
    ok (record f { metadata = some b })

  abbrev pub restore_metadata : FileStorage → Result (Option PersistedMetadata)
  restore_metadata f = read_type metadata_codec f.metadata

module _ (snapshot_codec : Codec Snapshot) where
  unfoldable pub store_snapshot : FileStorage → Snapshot → Result FileStorage
  store_snapshot f snapshot = do
    b ← atomic_serialize snapshot_codec snapshot
    ok (record f { snapshot = some b })

  abbrev pub restore_snapshot : FileStorage → Result (Option Snapshot)
  restore_snapshot f = read_type snapshot_codec f.snapshot

  unfoldable pub retrieve_snapshot_bytes : FileStorage → Result Bytes
  retrieve_snapshot_bytes f = do snapshot ← restore_snapshot f; s ← unwrap snapshot; ok s.payload

-- `impl Storage for FileStorage`
abbrev pub file_storage :
    Codec PersistedMetadata → Codec LogEntry → Codec Snapshot → Storage FileStorage
file_storage metadata_codec entry_codec snapshot_codec = record {
  store_metadata = store_metadata metadata_codec;
  restore_metadata = restore_metadata metadata_codec;
  store_log_entries = store_log_entries entry_codec;
  restore_log_entries = restore_log_entries entry_codec;
  store_snapshot = store_snapshot snapshot_codec;
  truncate_log = truncate_log;
  retrieve_snapshot_bytes = retrieve_snapshot_bytes snapshot_codec;
  restore_snapshot = restore_snapshot snapshot_codec;
}
