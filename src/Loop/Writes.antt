-- ===== src/Loop/Writes.antt =====
-- Storage and restarts of the event loop of crates/raft-event-loop/src/lib.rs: what an engine of storage
-- promises, and what a node is after a crash.
use ferris_ferry.Prelude.{
  ℕ, ◌+◌, ◌<◌, ◌≡◌, inl, inr, refl, sym, ap, ◌∙◌, subst, Option, none, some, List, [], ◌∷◌, true,
  if◌then◌else◌, Bool-cases, is_empty, ok, >>=-eq-ok, ok-injective, wadd, wadd-eq-add, u64_mod,
  lookup, unwrap_or, arith, leb-false,
}
use ferris_ferry.Types.{
  Bytes, LogEntry, Message, Action, send_message, apply_to_state_machine, persist_metadata,
  persist_log_entries, send_install_snapshot, install_snapshot, read_barrier_ready,
}
use ferris_ferry.Core.State.{RaftCore, Rng}
use ferris_ferry.Core.Node.{receive, step, received}
use ferris_ferry.Durable.{Disk, image, persist, persist_all, contiguous, all_contiguous}
use ferris_ferry.Durable.Step.{IsOrdinary, step-IsDurable}
use ferris_ferry.Loop.{
  PersistedMetadata, Snapshot, AppliedEntry, Storage, RaftDriver, notify_proposal, notify_read,
  resolve_proposal, resolve_read, count_command, apply_command, handle_action, handle_actions,
  handle_message,
}

-- What the three restored parts say of a disk. A node that never stored metadata is in term 0.
abbrev pub SnapshotOf : Disk → Option Snapshot → Type 0
SnapshotOf d none = (d.last_included_index ≡ 0) × (d.last_included_term ≡ 0)
SnapshotOf d (some s) =
    (d.last_included_index ≡ s.last_included_index) × (d.last_included_term ≡ s.last_included_term)

abbrev pub MetadataOf : Disk → Option PersistedMetadata → Type 0
MetadataOf d none = (d.current_term ≡ 0) × (d.voted_for ≡ none)
MetadataOf d (some m) = (d.current_term ≡ m.term) × (d.voted_for ≡ m.voted_for)

-- An engine of storage holds a disk, through every write that it accepts.
pub record StorageLaws {S : Type 0} (io : Storage S) : Type 1 where
  pub Holds : S → Disk → Type 0
  pub metadata_stored :
      {s s' : S} {d : Disk} (m : PersistedMetadata)
      → Holds s d
      → io.store_metadata s m ≡ ok s'
      → Holds s' (record d { current_term = m.term; voted_for = m.voted_for })
  pub entries_stored :
      {s s' : S} {d : Disk} (start_index : ℕ) (entries : List LogEntry)
      → Holds s d
      → contiguous d (persist_log_entries start_index entries) ≡ true
      → io.store_log_entries s start_index entries ≡ ok s'
      → Holds s' (persist d (persist_log_entries start_index entries))
  pub snapshot_stored :
      {s s₁ s' : S} {d : Disk} (snapshot : Snapshot)
      → Holds s d
      → io.store_snapshot s snapshot ≡ ok s₁
      → io.truncate_log s₁ ≡ ok s'
      → Holds s' (
          persist d (
            install_snapshot snapshot.last_included_index snapshot.last_included_term
              snapshot.payload))
  pub snapshot_restored :
      {s : S} {d : Disk} {o : Option Snapshot}
      → Holds s d
      → io.restore_snapshot s ≡ ok o
      → SnapshotOf d o
  pub metadata_restored :
      {s : S} {d : Disk} {o : Option PersistedMetadata}
      → Holds s d
      → io.restore_metadata s ≡ ok o
      → MetadataOf d o
  pub entries_restored :
      {s : S} {d : Disk} {o : Option (List LogEntry)}
      → Holds s d
      → io.restore_log_entries s ≡ ok o
      → d.log ≡ unwrap_or o []

-- The commands that the actions deliver to the application: empty ones are not delivered.
unfoldable pub commands : List Action → ℕ
commands [] = 0
commands (apply_to_state_machine index command ∷ rest) =
    let later = commands rest in if is_empty command then later else later + 1
commands (_ ∷ rest) = commands rest

commands-cons :
    (a : Action) (rest : List Action) → commands (a ∷ rest) ≡ commands (a ∷ []) + commands rest
unfolding commands
commands-cons (send_message target message) rest = omega arith
commands-cons (persist_metadata term vote) rest = omega arith
commands-cons (persist_log_entries from entries) rest = omega arith
commands-cons (send_install_snapshot target term index index_term) rest = omega arith
commands-cons (install_snapshot index term payload) rest = omega arith
commands-cons (read_barrier_ready id) rest = omega arith
commands-cons (apply_to_state_machine index command) rest = ground arith

module _ {S : Type 0} (io : Storage S) (laws : StorageLaws io)
    (application : List AppliedEntry → Bytes) where
  -- The effect of actions below the threshold of snapshots.
  record Written (d d' : RaftDriver S) (disk : Disk) (n : ℕ) : Type 0 where
    holds : laws.Holds d'.storage disk
    core : d'.core ≡ d.core
    count : d'.num_entries ≡ d.num_entries + n
    threshold : d'.snapshot_threshold ≡ d.snapshot_threshold

  resolve_proposal-Written :
      (d : RaftDriver S) (index : ℕ) (o : Option ℕ) (disk : Disk)
      → laws.Holds d.storage disk
      → Written d (notify_proposal d index o) disk 0
  resolve_proposal-Written d index none disk h = record {
    holds = h;
    core = refl;
    count = omega arith;
    threshold = refl;
  }
  resolve_proposal-Written d index (some client) disk h = record {
    holds = h;
    core = refl;
    count = omega arith;
    threshold = refl;
  }

  apply_command-Written :
      (d d' : RaftDriver S) (index : ℕ) (command : Bytes) (disk : Disk)
      → laws.Holds d.storage disk
      → d.snapshot_threshold < u64_mod
      → d.num_entries + commands (apply_to_state_machine index command ∷ []) < d.snapshot_threshold
      → apply_command io application d index command ≡ ok d'
      → Written d d' disk (commands (apply_to_state_machine index command ∷ []))
  unfolding apply_command resolve_proposal count_command commands
  apply_command-Written d d' index command disk h bound below e =
      let r = notify_proposal d index (lookup index d.pending_proposals) in
      let w = resolve_proposal-Written d index (lookup index d.pending_proposals) disk h in
      elim (Bool-cases (is_empty command)) [
        | inl b ↦ rw b (subst (λ x. Written d x disk 0) (ok-injective (rw b at e)) w)
        | inr b ↦
            (let one = rw b at below in
              let same = wadd-eq-add r.num_entries 1 (omega (arith, w.count, w.threshold)) in
              let later =
                leb-false r.snapshot_threshold (wadd r.num_entries 1)
                  (omega (arith, w.count, w.threshold, same)) in
              rw b (
                subst (λ x. Written d x disk 1) (ok-injective (rw (b, later) at e))
                  (record {
                    holds = w.holds;
                    core = w.core;
                    count = omega (arith, w.count, same);
                    threshold = w.threshold;
                  })))
      ]

  handle_action-Written :
      (d d' : RaftDriver S) (a : Action) (disk : Disk)
      → laws.Holds d.storage disk
      → contiguous disk a ≡ true
      → d.snapshot_threshold < u64_mod
      → d.num_entries + commands (a ∷ []) < d.snapshot_threshold
      → handle_action io application d a ≡ ok d'
      → Written d d' (persist disk a) (commands (a ∷ []))
  unfolding handle_action resolve_read persist commands
  handle_action-Written d d' (send_message target message) disk h c bound below e =
      subst (λ x. Written d x disk 0) (ok-injective e)
        (record { holds = h; core = refl; count = omega arith; threshold = refl })
  handle_action-Written d d' (persist_metadata term vote) disk h c bound below e =
      let m : PersistedMetadata = record { term = term; voted_for = vote } in
      let (s, p, q) = >>=-eq-ok (io.store_metadata d.storage m) _ e in
      subst (λ x. Written d x (persist disk (persist_metadata term vote)) 0) (ok-injective q)
        (record {
          holds = laws.metadata_stored m h p;
          core = refl;
          count = omega arith;
          threshold = refl;
        })
  handle_action-Written d d' (persist_log_entries from entries) disk h c bound below e =
      let (s, p, q) = >>=-eq-ok (io.store_log_entries d.storage from entries) _ e in
      subst (λ x. Written d x (persist disk (persist_log_entries from entries)) 0) (ok-injective q)
        (record {
          holds = laws.entries_stored from entries h c p;
          core = refl;
          count = omega arith;
          threshold = refl;
        })
  handle_action-Written d d' (install_snapshot index index_term payload) disk h c bound below e =
      let snapshot : Snapshot = record {
        last_included_index = index;
        last_included_term = index_term;
        payload = payload;
      } in
      let (s₁, p, q) = >>=-eq-ok (io.store_snapshot d.storage snapshot) _ e in
      let (s, p', q') = >>=-eq-ok (io.truncate_log s₁) _ q in
      subst (λ x. Written d x (persist disk (install_snapshot index index_term payload)) 0)
        (ok-injective q')
        (record {
          holds = laws.snapshot_stored snapshot h p p';
          core = refl;
          count = omega arith;
          threshold = refl;
        })
  handle_action-Written d d' (send_install_snapshot target term index index_term) disk h c bound
        below e =
      let (payload, p, q) = >>=-eq-ok (io.retrieve_snapshot_bytes d.storage) _ e in
      subst (λ x. Written d x disk 0) (ok-injective q)
        (record { holds = h; core = refl; count = omega arith; threshold = refl })
  handle_action-Written d d' (apply_to_state_machine index command) disk h c bound below e =
      apply_command-Written d d' index command disk h bound below e
  handle_action-Written d d' (read_barrier_ready id) disk h c bound below e =
      subst (λ x. Written d x disk 0) (ok-injective e) (read (lookup id d.pending_reads))
    where
      read : (o : Option ℕ) → Written d (notify_read d id o) disk 0
      read none = record { holds = h; core = refl; count = omega arith; threshold = refl }
      read (some client) = record { holds = h; core = refl; count = omega arith; threshold = refl }

  handle_actions-Written :
      (d d' : RaftDriver S) (actions : List Action) (disk : Disk)
      → laws.Holds d.storage disk
      → all_contiguous disk actions ≡ true
      → d.snapshot_threshold < u64_mod
      → d.num_entries + commands actions < d.snapshot_threshold
      → handle_actions io application d actions ≡ ok d'
      → Written d d' (persist_all disk actions) (commands actions)
  unfolding handle_actions persist_all all_contiguous commands
  handle_actions-Written d d' [] disk h c bound below e =
      subst (λ x. Written d x disk 0) (ok-injective e)
        (record { holds = h; core = refl; count = omega arith; threshold = refl })
  handle_actions-Written d d' (a ∷ rest) disk h c bound below e =
      let (d₁, p, q) = >>=-eq-ok (handle_action io application d a) _ e in
      let split = commands-cons a rest in
      let one = handle_action-Written d d₁ a disk h (ground arith) bound (omega (arith, split)) p in
      let more =
        handle_actions-Written d₁ d' rest (persist disk a) one.holds (ground arith)
          (omega (arith, one.threshold)) (omega (arith, one.count, one.threshold, split)) q in
      record {
        holds = more.holds;
        core = more.core ∙ one.core;
        count = omega (arith, more.count, one.count, split);
        threshold = more.threshold ∙ one.threshold;
      }

  -- The engine holds what a node must not lose, before a message and, wherever the handling returns,
  -- after it: the core's term, vote, snapshot point and log are on disk. The entries of a request to append
  -- start after the node's snapshot (`prev_log_index` is the snapshot's index or a later one) and the log has room,
  -- in 64 bits, for them and one more entry, and for two more where a vote comes in. The threshold for a snapshot is a number of
  -- 64 bits, and the commands applied since the last snapshot, with those that the message lets be applied, stay
  -- below it.
  pub handle_message-Holds :
      (rng : Rng) (d d' : RaftDriver S) (msg : Message) (r : RaftCore × List Action)
      → laws.Holds d.storage (image d.core)
      → IsOrdinary d.core (received msg)
      → d.snapshot_threshold < u64_mod
      → receive rng d.core msg ≡ ok r
      → d.num_entries + commands r.1 < d.snapshot_threshold
      → handle_message io application rng d msg ≡ ok d'
      → laws.Holds d'.storage (image d'.core) × (d'.core ≡ r.0)
  unfolding handle_message
  handle_message-Holds rng d d' msg r h o bound e below run =
      let i = step-IsDurable rng d.core (received msg) r o (unfold step in e) in
      let w =
        handle_actions-Written (record d { core = r.0 }) d' r.1 (image d.core) h i.ranged bound
          below (rw e at run) in
      (subst (laws.Holds d'.storage) (i.written ∙ sym (ap image w.core)) w.holds, w.core)
