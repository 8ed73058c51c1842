-- ===== src/Files/Missing.antt =====
-- A missing log file: `truncate_log` of crates/raft-file-storage/src/lib.rs under the event loop of
-- crates/raft-event-loop/src/lib.rs.
use ferris_ferry.Prelude.{
  ℕ, ◌≡◌, refl, Option, none, some, List, ok, panic, Result-cases, Option-cases, inl, inr,
}
use ferris_ferry.Types.{Bytes, LogEntry, install_snapshot}
use ferris_ferry.Core.State.{Rng}
use ferris_ferry.Loop.{
  PersistedMetadata, Snapshot, AppliedEntry, RaftConfig, RaftDriver, handle_action, restore_core,
  start,
}
use ferris_ferry.Files.{
  Codec, FileStorage, file_storage, store_snapshot, truncate_log, restore_metadata,
  restore_snapshot, restore_log_entries,
}

module _ (metadata_codec : Codec PersistedMetadata) (entry_codec : Codec LogEntry)
    (snapshot_codec : Codec Snapshot) where
  no_entries :
      (rng : Rng) (config : RaftConfig) (s : Snapshot) (m : Option PersistedMetadata)
      → restore_core rng config (some s) m none ≡ panic
  unfolding restore_core
  no_entries rng config s none = refl
  no_entries rng config s (some m) = refl

  -- A node that has no log file yet, because it never stored an entry, panics when it installs a snapshot:
  -- the file that it clears does not exist. If the snapshot had been stored, then each later start panics
  -- too: a snapshot without a log is refused, whatever the metadata.
  pub install-without_log :
      (application : List AppliedEntry → Bytes) (d : RaftDriver FileStorage) (index term : ℕ)
      (payload : Bytes) (rng : Rng) (config : RaftConfig) (s : Snapshot)
      → d.storage.log ≡ none
      → (handle_action
            (file_storage metadata_codec entry_codec snapshot_codec)
            application
            d
            (install_snapshot index term payload)
          ≡ panic)
        × (restore_snapshot snapshot_codec d.storage ≡ ok (some s)
            → start rng config (file_storage metadata_codec entry_codec snapshot_codec) d.storage
              ≡ panic)
  unfolding handle_action store_snapshot truncate_log start restore_log_entries
  install-without_log application d index term payload rng config s h = (first, later)
    where
      first :
          (handle_action
            (file_storage metadata_codec entry_codec snapshot_codec)
            application
            d
            (install_snapshot index term payload))
          ≡ panic
      first =
          elim (Option-cases (
            snapshot_codec.to_allocvec (record {
              last_included_index = index;
              last_included_term = term;
              payload = payload;
            }))) [ inl e ↦ rw e refl | inr (b, e) ↦ rw (e, h) refl ]

      later :
          restore_snapshot snapshot_codec d.storage ≡ ok (some s)
          → start rng config (file_storage metadata_codec entry_codec snapshot_codec) d.storage
            ≡ panic
      later e =
          rw (e, h)
            (elim (Result-cases (restore_metadata metadata_codec d.storage)) [
              | inl p ↦ rw p refl
              | inr (m, p) ↦ rw (p, no_entries rng config s m) refl
            ])
