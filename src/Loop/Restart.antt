-- ===== src/Loop/Restart.antt =====
-- `RaftDriver::new` of crates/raft-event-loop/src/lib.rs after a crash.
use ferris_ferry.Prelude.{
  ◌≡◌, sym, ap, ◌∙◌, Option, none, some, List, [], ok, >>=-eq-ok, ok-injective, unwrap_or, arith,
}
use ferris_ferry.Types.{LogEntry}
use ferris_ferry.Core.State.{RaftCore, Rng, new, restore, restore_with_snapshot, random_range}
use ferris_ferry.Durable.{Disk, image}
use ferris_ferry.Loop.{
  PersistedMetadata, Snapshot, Storage, RaftDriver, RaftConfig, restore_core, start,
}
use ferris_ferry.Loop.Writes.{SnapshotOf, MetadataOf, StorageLaws}

-- The node that is built from what is restored has the disk as its durable part.
restore_core-image :
    (rng : Rng) (config : RaftConfig) (disk : Disk) (snapshot : Option Snapshot)
    (metadata : Option PersistedMetadata) (entries : Option (List LogEntry)) (c : RaftCore)
    → SnapshotOf disk snapshot
    → MetadataOf disk metadata
    → disk.log ≡ unwrap_or entries []
    → (disk.current_term ≡ 0 → disk.log ≡ [])
    → restore_core rng config snapshot metadata entries ≡ ok c
    → image c ≡ disk
unfolding restore_core restore_with_snapshot restore new random_range
restore_core-image rng config disk (some s) (some m) (some es) c p q r z e = ground arith
restore_core-image rng config disk (some s) (some m) none c p q r z e = ground arith
restore_core-image rng config disk (some s) none entries c p q r z e = ground arith
restore_core-image rng config disk none (some m) entries c p q r z e = ground arith
restore_core-image rng config disk none none entries c p q r z e = ground (arith, z q.0)

-- Where a node's durable part is on disk, a restart that returns gives a node with the same term, vote,
-- snapshot point and log, for which no client waits and which has sent nothing yet. A node of
-- term 0 has an empty log.
pub start-image :
    {S : Type 0} (io : Storage S) (laws : StorageLaws io) (rng : Rng) (config : RaftConfig)
    (storage : S) (c : RaftCore) (d : RaftDriver S)
    → laws.Holds storage (image c)
    → (c.current_term ≡ 0 → c.log ≡ [])
    → start rng config io storage ≡ ok d
    → (image d.core ≡ image c)
      × (d.storage ≡ storage)
      × (d.pending_proposals ≡ [])
      × (d.pending_reads ≡ [])
      × (d.sent ≡ [])
unfolding start
start-image io laws rng config storage c d h z e =
    let (snapshot, p, e₁) = >>=-eq-ok (io.restore_snapshot storage) _ e in
    let (metadata, q, e₂) = >>=-eq-ok (io.restore_metadata storage) _ e₁ in
    let (entries, r, e₃) = >>=-eq-ok (io.restore_log_entries storage) _ e₂ in
    let (core, s, e₄) = >>=-eq-ok (restore_core rng config snapshot metadata entries) _ e₃ in
    let same =
      restore_core-image rng config (image c) snapshot metadata entries core
        (laws.snapshot_restored h p) (laws.metadata_restored h q) (laws.entries_restored h r) z s in
    let done = ok-injective e₄ in
    (
      ap (λ x. image x.core) (sym done) ∙ same,
      ap (λ x. x.storage) (sym done),
      ap (λ x. x.pending_proposals) (sym done),
      ap (λ x. x.pending_reads) (sym done),
      ap (λ x. x.sent) (sym done),
    )
