-- ===== src/Tests/Storage.antt =====
-- The event loop (crates/raft-event-loop/src/lib.rs) over `FileStorage`
-- (crates/raft-file-storage/src/lib.rs) at concrete inputs, with a simple encoding of values.
use ferris_ferry.Prelude.{
  ℕ, ◌+◌, ◌≡◌, refl, Option, none, some, [], ◌∷◌, ◌++◌, ltb, if◌then◌else◌, length, ok, arith,
}
use ferris_ferry.Types.{Bytes, LogEntry}
use ferris_ferry.Loop.{PersistedMetadata, Snapshot}
use ferris_ferry.Wire.{
  frame, to_be_bytes, from_be_bytes, read_frame, skip_frame, read_number, read_exact,
}
use ferris_ferry.Files.{
  Codec, RoundTrip, FileStorage, truncate_at, write_frames, store_log_entries, restore_log_entries,
}
use ferris_ferry.Files.Laws.{store_log_entries-restored}
use ferris_ferry.Files.Frames.{Short, FramesThen, Framed, Whole}
use ferris_ferry.Tests.Fixtures.{entry}

abbrev pub encode_vote : Option ℕ → Bytes
encode_vote none = []
encode_vote (some v) = v ∷ []

abbrev pub decode_metadata : Bytes → Option PersistedMetadata
decode_metadata [] = none
decode_metadata (term ∷ []) = some (record { term = term; voted_for = none })
decode_metadata (term ∷ v ∷ rest) = some (record { term = term; voted_for = some v })

abbrev pub metadata_codec : Codec PersistedMetadata
metadata_codec = record {
  to_allocvec = λ m. some (m.term ∷ encode_vote m.voted_for);
  from_bytes = decode_metadata;
}

vote_trip :
    (t : ℕ) (v : Option ℕ)
    → decode_metadata (t ∷ encode_vote v) ≡ some (record { term = t; voted_for = v })
vote_trip t none = refl
vote_trip t (some v) = refl

pub metadata_trip : RoundTrip metadata_codec
metadata_trip m b h = ground (arith, vote_trip m.term m.voted_for)

abbrev pub decode_entry : Bytes → Option LogEntry
decode_entry [] = none
decode_entry (term ∷ command) = some (record { term = term; command = command })

abbrev pub entry_codec : Codec LogEntry
entry_codec = record {
  to_allocvec =
      λ e. if ltb (length e.command + 1) 4294967296 then some (e.term ∷ e.command) else none;
  from_bytes = decode_entry;
}

pub entry_trip : RoundTrip entry_codec
entry_trip e b h = ground arith

pub entry-Short : Short entry_codec
entry-Short e b h = ground arith

abbrev pub decode_snapshot : Bytes → Option Snapshot
decode_snapshot (index ∷ term ∷ payload) =
    some (record { last_included_index = index; last_included_term = term; payload = payload })
decode_snapshot _ = none

abbrev pub snapshot_codec : Codec Snapshot
snapshot_codec = record {
  to_allocvec = λ s. some (s.last_included_index ∷ s.last_included_term ∷ s.payload);
  from_bytes = decode_snapshot;
}

pub snapshot_trip : RoundTrip snapshot_codec
snapshot_trip s b h = ground arith

-- two entries from index 3 on, and three bytes of another frame
abbrev torn : Bytes
torn = frame 3 (1 ∷ 30 ∷ []) ++ (frame 4 (1 ∷ 40 ∷ []) ++ (0 ∷ 0 ∷ 0 ∷ []))

abbrev before_store : FileStorage
before_store = record { metadata = none; log = some torn; snapshot = none }

abbrev after_store : FileStorage
after_store = record before_store {
  log = some (frame 3 (1 ∷ 30 ∷ []) ++ (frame 4 (2 ∷ 41 ∷ []) ++ []));
}

torn-Framed : Framed entry_codec 3 (entry 1 30 ∷ entry 1 40 ∷ []) torn
unfolding FramesThen read_frame read_number read_exact
torn-Framed = (
  1 ∷ 30 ∷ [],
  frame 4 (1 ∷ 40 ∷ []) ++ (0 ∷ 0 ∷ 0 ∷ []),
  refl,
  omega arith,
  refl,
  (1 ∷ 40 ∷ [], 0 ∷ 0 ∷ 0 ∷ [], refl, omega arith, refl, refl),
)

torn-stored : store_log_entries entry_codec before_store 4 (entry 2 41 ∷ []) ≡ ok after_store
unfolding store_log_entries truncate_at skip_frame read_number read_exact from_be_bytes to_be_bytes
    write_frames
torn-stored = refl

-- one request overwrites entry 4; the incomplete frame goes too
store_log_entries-restored_example :
    ((bs' : Bytes) × (after_store.log ≡ some bs')
      × Whole entry_codec 3 (entry 1 30 ∷ entry 2 41 ∷ []) bs')
    × (restore_log_entries entry_codec after_store ≡ ok (some (entry 1 30 ∷ entry 2 41 ∷ [])))
store_log_entries-restored_example =
    store_log_entries-restored entry_codec entry_trip entry-Short before_store after_store torn 3 4
      (entry 1 30 ∷ entry 1 40 ∷ []) (entry 2 41 ∷ []) refl torn-Framed (omega arith) (omega arith)
      (omega arith) torn-stored
