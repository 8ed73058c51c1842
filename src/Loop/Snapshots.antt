-- ===== src/Loop/Snapshots.antt =====
-- The snapshot that the event loop of crates/raft-event-loop/src/lib.rs takes of the application.
use ferris_ferry.Prelude.{
  ℕ, ◌-◌, ◌<◌, ◌≡◌, sym, ap, ◌∙◌, subst, List, [], drop, ok, >>=-eq-ok, ok-injective, arith,
}
use ferris_ferry.Types.{Bytes, SnapshotMetadata}
use ferris_ferry.Core.State.{RaftCore}
use ferris_ferry.Core.Snapshot.{prepare_snapshot, complete_snapshot}
use ferris_ferry.Durable.{Disk, image, persist}
use ferris_ferry.Loop.{AppliedEntry, Storage, RaftDriver, snapshot_application}
use ferris_ferry.Loop.Writes.{StorageLaws}

prepare-applied :
    (c : RaftCore) (m : SnapshotMetadata)
    → prepare_snapshot c ≡ ok m
    → m.last_applied ≡ c.last_applied
unfolding prepare_snapshot
prepare-applied c m e = ground arith

complete-image :
    (c c' : RaftCore) (m : SnapshotMetadata)
    → c.last_included_index < m.last_applied
    → complete_snapshot c m ≡ ok c'
    → image c' ≡ record (image c) {
      log = drop (m.last_applied - c.last_included_index) c.log;
      last_included_index = m.last_applied;
      last_included_term = m.last_applied_term;
    }
unfolding complete_snapshot
complete-image c c' m l e = ground arith

-- Let the storage hold what a node must not lose, and let entries be applied since its snapshot. After the
-- next snapshot, where it does not panic, the core keeps the entries behind the last applied one, but the
-- storage holds an empty log.
pub snapshot_application-Holds :
    {S : Type 0} (io : Storage S) (laws : StorageLaws io) (application : List AppliedEntry → Bytes)
    (d d' : RaftDriver S)
    → laws.Holds d.storage (image d.core)
    → d.core.last_included_index < d.core.last_applied
    → snapshot_application io application d ≡ ok d'
    → laws.Holds d'.storage (record (image d'.core) { log = [] })
      × (d'.core.log ≡ drop (d.core.last_applied - d.core.last_included_index) d.core.log)
      × (d'.core.last_included_index ≡ d.core.last_applied)
unfolding snapshot_application persist
snapshot_application-Holds io laws application d d' h l e =
    let (m, p, e₁) = >>=-eq-ok (prepare_snapshot d.core) _ e in
    let (s, q, e₂) = >>=-eq-ok (io.store_snapshot d.storage _) _ e₁ in
    let (c, r, e₃) = >>=-eq-ok (complete_snapshot d.core m) _ e₂ in
    let (cleared, t, e₄) = >>=-eq-ok (io.truncate_log s) _ e₃ in
    let at = prepare-applied d.core m p in
    let after = complete-image d.core c m (omega (arith, at)) r in
    let done = ok-injective e₄ in
    let kept = laws.snapshot_stored _ h q t in
    (
      subst (λ x. laws.Holds x.storage (record (image x.core) { log = [] })) done
          (subst (λ (i : Disk). laws.Holds cleared (record i { log = [] })) (sym after) kept),
      ap (λ x. x.core.log) (sym done)
          ∙ ap (λ (i : Disk). i.log) after
          ∙ ap (λ (n : ℕ). drop (n - d.core.last_included_index) d.core.log) at,
      ap (λ x. x.core.last_included_index) (sym done)
          ∙ ap (λ (i : Disk). i.last_included_index) after
          ∙ at,
    )
