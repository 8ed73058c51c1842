-- ===== src/Files/Laws.antt =====
-- `FileStorage` of crates/raft-file-storage/src/lib.rs keeps what the event loop stores.
use ferris_ferry.Prelude.{
  unwrap-eq, ℕ, ◌+◌, ◌-◌, ◌≤◌, ◌<◌, ◌≡◌, refl, sym, ap, ◌∙◌, subst, Option, none, some, List, [],
  ◌++◌, true, length, take, ok, unwrap, unwrap_or, >>=-eq-ok, ok-injective, u64_mod, arith,
}
use ferris_ferry.Types.{NodeId, Bytes, install_snapshot, LogEntry, persist_log_entries}
use ferris_ferry.Wire.{read_frame, read_number, read_exact}
use ferris_ferry.Durable.{Disk, persist, contiguous}
use ferris_ferry.Loop.{PersistedMetadata, Snapshot}
use ferris_ferry.Loop.Writes.{SnapshotOf, MetadataOf, StorageLaws}
use ferris_ferry.Files.{
  Codec, RoundTrip, FileStorage, truncate_at, write_frames, read_type, read_log, store_log_entries,
  restore_log_entries, truncate_log, store_metadata, store_snapshot, file_storage,
}
use ferris_ferry.Files.Frames.{
  Short, FramesThen, NoFrame, Framed, read_frames-Framed, write_frames-Whole, Whole, Whole-Framed,
  truncate_at-Frames,
}

module _ (codec : Codec LogEntry) (trip : RoundTrip codec) (short : Short codec) where
  -- The log file, empty if it is missing, holds entries from an index on, perhaps with an incomplete frame
  -- behind them. Storing
  -- entries from an index in that range, or right after it, leaves the file with the entries before the
  -- index and the new ones, in whole frames and without a byte behind them: what was at the index and after it is
  -- gone, and so is the incomplete frame.
  -- Reading the file gives exactly these entries.
  pub store_log_entries-restored :
      (f f' : FileStorage) (bs : Bytes) (i start_index : ℕ) (es new : List LogEntry)
      → unwrap_or f.log [] ≡ bs
      → Framed codec i es bs
      → i ≤ start_index
      → start_index ≤ i + length es
      → start_index + length new < u64_mod
      → store_log_entries codec f start_index new ≡ ok f'
      → ((bs' : Bytes) × (f'.log ≡ some bs') × Whole codec i (take (start_index - i) es ++ new) bs')
        × (restore_log_entries codec f' ≡ ok (some (take (start_index - i) es ++ new)))
  unfolding store_log_entries restore_log_entries
  store_log_entries-restored f f' bs i start_index es new p h l k bound e =
      let (written, q, r) = >>=-eq-ok (write_frames codec start_index new) _ e in
      let (n, (cut, keep)) =
        truncate_at-Frames codec trip short NoFrame (λ b h. h) start_index (length bs) i es bs
          (omega arith) h l k in
      let whole =
        keep new written (write_frames-Whole codec trip short start_index new written bound q) in
      let stored : f'.log ≡ some (take n bs ++ written) =
        ap (λ x. x.log) (sym (ok-injective r))
        ∙ ap (λ b. some (take (truncate_at start_index (length b) b 0) b ++ written)) p
        ∙ ap (λ (m : ℕ). some (take m bs ++ written)) (cut 0 ∙ omega arith) in
      (
        (take n bs ++ written, stored, whole),
        ap (read_log codec) stored
            ∙ rw
                (read_frames-Framed codec trip short (length (take n bs ++ written)) i
                  (take (start_index - i) es ++ new) (take n bs ++ written) (omega arith)
                  (Whole-Framed codec i _ _ whole))
                refl,
      )

module _ (metadata_codec : Codec PersistedMetadata) (entry_codec : Codec LogEntry)
    (snapshot_codec : Codec Snapshot) (metadata_trip : RoundTrip metadata_codec)
    (entry_trip : RoundTrip entry_codec) (snapshot_trip : RoundTrip snapshot_codec)
    (short : Short entry_codec) where
  abbrev pub MetadataHeld : Option Bytes → ℕ → Option NodeId → Type 0
  MetadataHeld none term vote = (term ≡ 0) × (vote ≡ none)
  MetadataHeld (some b) term vote =
      metadata_codec.from_bytes b ≡ some (record { term = term; voted_for = vote })

  abbrev pub LogHeld : Option Bytes → ℕ → List LogEntry → Type 0
  LogHeld none index log = log ≡ []
  LogHeld (some b) index log = Framed entry_codec (index + 1) log b

  abbrev pub SnapshotHeld : Option Bytes → ℕ → ℕ → Type 0
  SnapshotHeld none index term = (index ≡ 0) × (term ≡ 0)
  SnapshotHeld (some b) index term =
      (payload : Bytes) × (snapshot_codec.from_bytes b
        ≡ some
            (record { last_included_index = index; last_included_term = term; payload = payload }))

  -- The three files hold a disk; the log may end in an incomplete frame.
  pub record FilesHold (f : FileStorage) (d : Disk) : Type 0 where
    pub metadata_held : MetadataHeld f.metadata d.current_term d.voted_for
    pub log_held : LogHeld f.log d.last_included_index d.log
    pub snapshot_held : SnapshotHeld f.snapshot d.last_included_index d.last_included_term

  read_type-eq :
      {A : Type 0} (codec : Codec A) (b : Bytes) (a : A) {o : Option A}
      → codec.from_bytes b ≡ some a
      → read_type codec (some b) ≡ ok o
      → o ≡ some a
  unfolding read_type
  read_type-eq codec b a h e = sym (ok-injective (rw h at e))

  log_bytes :
      (o : Option Bytes) (index : ℕ) (log : List LogEntry)
      → LogHeld o index log
      → Framed entry_codec (index + 1) log (unwrap_or o [])
  log_bytes (some b) index log h = h
  log_bytes none index log h =
      subst (λ es. Framed entry_codec (index + 1) es []) (sym h)
        (unfold FramesThen read_frame read_number read_exact in refl)

  pub metadata_stored-Files :
      (f f' : FileStorage) (d : Disk) (m : PersistedMetadata)
      → FilesHold f d
      → store_metadata metadata_codec f m ≡ ok f'
      → FilesHold f' (record d { current_term = m.term; voted_for = m.voted_for })
  unfolding store_metadata
  metadata_stored-Files f f' d m h e =
      let (b, p, q) = >>=-eq-ok (unwrap (metadata_codec.to_allocvec m)) _ e in
      subst (λ x. FilesHold x (record d { current_term = m.term; voted_for = m.voted_for }))
        (ok-injective q)
        (record {
          metadata_held = metadata_trip m b (unwrap-eq (metadata_codec.to_allocvec m) p);
          log_held = h.log_held;
          snapshot_held = h.snapshot_held;
        })

  store_log_entries-frame :
      (f f' : FileStorage) (start_index : ℕ) (entries : List LogEntry)
      → store_log_entries entry_codec f start_index entries ≡ ok f'
      → (f'.metadata ≡ f.metadata) × (f'.snapshot ≡ f.snapshot)
  unfolding store_log_entries
  store_log_entries-frame f f' start_index entries e = (ground arith, ground arith)

  pub entries_stored-Files :
      (f f' : FileStorage) (d : Disk) (start_index : ℕ) (entries : List LogEntry)
      → FilesHold f d
      → contiguous d (persist_log_entries start_index entries) ≡ true
      → store_log_entries entry_codec f start_index entries ≡ ok f'
      → FilesHold f' (persist d (persist_log_entries start_index entries))
  unfolding persist
  entries_stored-Files f f' d start_index entries h c e =
      let r =
        store_log_entries-restored entry_codec entry_trip short f f' (unwrap_or f.log [])
          (d.last_included_index + 1) start_index d.log entries refl
          (log_bytes f.log d.last_included_index d.log h.log_held) (ground arith) (ground arith)
          (ground arith) e in
      let (bs, stored, whole) = r.0 in
      let framed = Whole-Framed entry_codec (d.last_included_index + 1) _ bs whole in
      let same = store_log_entries-frame f f' start_index entries e in
      record {
        metadata_held =
            subst (λ o. MetadataHeld o d.current_term d.voted_for) (sym same.0) h.metadata_held;
        log_held =
            subst
              (λ o.
                LogHeld o d.last_included_index
                  (take (start_index - d.last_included_index - 1) d.log ++ entries))
              (sym stored)
              (subst
                (λ (n : ℕ).
                  Framed entry_codec (d.last_included_index + 1) (take n d.log ++ entries) bs)
                {x = start_index - (d.last_included_index + 1)}
                {y = start_index - d.last_included_index - 1} (omega arith) framed);
        snapshot_held =
            subst (λ o. SnapshotHeld o d.last_included_index d.last_included_term) (sym same.1)
              h.snapshot_held;
      }

  pub snapshot_stored-Files :
      (f f₁ f' : FileStorage) (d : Disk) (s : Snapshot)
      → FilesHold f d
      → store_snapshot snapshot_codec f s ≡ ok f₁
      → truncate_log f₁ ≡ ok f'
      → FilesHold f'
          (persist d (install_snapshot s.last_included_index s.last_included_term s.payload))
  unfolding store_snapshot truncate_log persist
  snapshot_stored-Files f f₁ f' d s h e k =
      let (b, p, q) = >>=-eq-ok (unwrap (snapshot_codec.to_allocvec s)) _ e in
      let (old, p', q') = >>=-eq-ok (unwrap f₁.log) _ k in
      subst
        (λ x. FilesHold x (record d {
          log = [];
          last_included_index = s.last_included_index;
          last_included_term = s.last_included_term;
        }))
        (ap (λ (x : FileStorage). record x { log = some [] }) (ok-injective q) ∙ ok-injective q')
        (record {
          metadata_held = h.metadata_held;
          log_held = unfold FramesThen read_frame read_number read_exact in refl;
          snapshot_held =
              (s.payload, snapshot_trip s b (unwrap-eq (snapshot_codec.to_allocvec s) p));
        })

  pub snapshot_of :
      (o : Option Bytes) (d : Disk) {s : Option Snapshot}
      → SnapshotHeld o d.last_included_index d.last_included_term
      → read_type snapshot_codec o ≡ ok s
      → SnapshotOf d s
  unfolding read_type
  snapshot_of none d h e = subst (SnapshotOf d) (ok-injective e) h
  snapshot_of (some b) d (payload, h) e =
      subst (SnapshotOf d) (ok-injective (rw h at e)) (refl, refl)

  pub metadata_of :
      (o : Option Bytes) (d : Disk) {m : Option PersistedMetadata}
      → MetadataHeld o d.current_term d.voted_for
      → read_type metadata_codec o ≡ ok m
      → MetadataOf d m
  unfolding read_type
  metadata_of none d h e = subst (MetadataOf d) (ok-injective e) h
  metadata_of (some b) d h e = subst (MetadataOf d) (ok-injective (rw h at e)) (refl, refl)

  pub entries_of :
      (o : Option Bytes) (d : Disk) {es : Option (List LogEntry)}
      → LogHeld o d.last_included_index d.log
      → read_log entry_codec o ≡ ok es
      → d.log ≡ unwrap_or es []
  entries_of none d h e = subst (λ es. d.log ≡ unwrap_or es []) (ok-injective e) h
  entries_of (some b) d h e =
      subst (λ es. d.log ≡ unwrap_or es [])
        (ok-injective (
          rw
            (read_frames-Framed entry_codec entry_trip short (length b) (d.last_included_index + 1)
              d.log b (omega arith) h)
            at e))
        refl

  -- The files keep the laws of the event loop's storage.
  unfoldable pub file_storage_laws :
      StorageLaws (file_storage metadata_codec entry_codec snapshot_codec)
  unfolding restore_log_entries
  file_storage_laws = record {
    Holds = FilesHold;
    metadata_stored = λ {s} {s'} {d} m h e. metadata_stored-Files s s' d m h e;
    entries_stored =
        λ {s} {s'} {d} from entries h c e. entries_stored-Files s s' d from entries h c e;
    snapshot_stored = λ {s} {s₁} {s'} {d} x h p q. snapshot_stored-Files s s₁ s' d x h p q;
    snapshot_restored = λ {s} {d} {o} h e. snapshot_of s.snapshot d h.snapshot_held e;
    metadata_restored = λ {s} {d} {o} h e. metadata_of s.metadata d h.metadata_held e;
    entries_restored = λ {s} {d} {o} h e. entries_of s.log d h.log_held e;
  }
