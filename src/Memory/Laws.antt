-- ===== src/Memory/Laws.antt =====
-- `InMemoryStorage` of crates/raft-test-utils/src/lib.rs keeps what the event loop stores.
use ferris_ferry.Prelude.{
  unwrap-eq, ℕ, ◌+◌, ◌-◌, ◌≤◌, ◌<◌, ◌≡◌, refl, sym, ap, ◌∙◌, subst, ◌⊎◌, inl, inr, ◌>>=◌, Option,
  none, some, List, [], ◌∷◌, ◌++◌, true, is_empty, if◌then◌else◌, length, length-append, ◌%◌, take,
  ok, unwrap, unwrap_or, >>=-eq-ok, ok-injective, u64_mod, arith,
}
use ferris_ferry.Types.{NodeId, Bytes, install_snapshot, LogEntry, persist_log_entries}
use ferris_ferry.Wire.{frame, to_be_bytes, length-to_be_bytes}
use ferris_ferry.Durable.{Disk, persist, contiguous}
use ferris_ferry.Loop.{PersistedMetadata, Snapshot}
use ferris_ferry.Loop.Writes.{SnapshotOf, MetadataOf, StorageLaws}
use ferris_ferry.Files.{Codec, RoundTrip, write_frames, read_frames}
use ferris_ferry.Files.Frames.{
  Short, FramesThen, Whole, Whole-Framed, nothing-NoFrame, read_frames-Framed, write_frames-Whole,
  truncate_at-Frames,
}
use ferris_ferry.Memory.{
  InMemoryStorage, find_frame, truncate, store_metadata, restore_metadata, store_log_entries,
  restore_log_entries, truncate_log, store_snapshot, restore_snapshot, memory_storage,
}
use ferris_ferry.Memory.Search.{find_frame-truncate_at, truncate-take}

no_entries :
    (codec : Codec LogEntry) (i : ℕ) (log : List LogEntry) → Whole codec i log [] → log ≡ []
unfolding FramesThen
no_entries codec i [] w = refl
no_entries codec i (e ∷ es) (b, rest, c, small, eq, f) = absurd (
    omega (
      arith,
      ap length eq,
      length-append (frame i b) rest,
      length-append (to_be_bytes 8 i) (to_be_bytes 4 (length b % 4294967296) ++ b),
      length-to_be_bytes 8 i,
    ))

module _ (metadata_codec : Codec PersistedMetadata) (entry_codec : Codec LogEntry)
    (snapshot_codec : Codec Snapshot) (metadata_trip : RoundTrip metadata_codec)
    (entry_trip : RoundTrip entry_codec) (snapshot_trip : RoundTrip snapshot_codec)
    (short : Short entry_codec) (metadata_nothing : metadata_codec.from_bytes [] ≡ none)
    (snapshot_nothing : snapshot_codec.from_bytes [] ≡ none) where
  -- Nothing has been written, or the bytes of the term and the vote.
  abbrev pub MetadataHeld : Bytes → ℕ → Option NodeId → Type 0
  MetadataHeld b term vote =
      ((b ≡ []) × (term ≡ 0) × (vote ≡ none))
      ⊎ (metadata_codec.from_bytes b ≡ some (record { term = term; voted_for = vote }))

  abbrev pub SnapshotHeld : Bytes → ℕ → ℕ → Type 0
  SnapshotHeld b index term =
      ((b ≡ []) × (index ≡ 0) × (term ≡ 0))
      ⊎ ((payload : Bytes) × (snapshot_codec.from_bytes b
            ≡ some (record {
              last_included_index = index;
              last_included_term = term;
              payload = payload;
            })))

  -- The three buffers hold a disk; the log is made of whole frames.
  pub record BuffersHold (s : InMemoryStorage) (d : Disk) : Type 0 where
    pub metadata_held : MetadataHeld s.metadata d.current_term d.voted_for
    pub log_held : Whole entry_codec (d.last_included_index + 1) d.log s.log_entries
    pub snapshot_held : SnapshotHeld s.snapshot d.last_included_index d.last_included_term

  pub metadata_stored-Buffers :
      (s s' : InMemoryStorage) (d : Disk) (m : PersistedMetadata)
      → BuffersHold s d
      → store_metadata metadata_codec s m ≡ ok s'
      → BuffersHold s' (record d { current_term = m.term; voted_for = m.voted_for })
  unfolding store_metadata
  metadata_stored-Buffers s s' d m h e =
      let (b, p, q) = >>=-eq-ok (unwrap (metadata_codec.to_allocvec m)) _ e in
      subst (λ x. BuffersHold x (record d { current_term = m.term; voted_for = m.voted_for }))
        (ok-injective q)
        (record {
          metadata_held = inr (metadata_trip m b (unwrap-eq (metadata_codec.to_allocvec m) p));
          log_held = h.log_held;
          snapshot_held = h.snapshot_held;
        })

  -- Storing from an index of the log, or right after it, leaves whole frames: those before the index, and
  -- the new ones.
  store_log_entries-Whole :
      (s s' : InMemoryStorage) (i start_index : ℕ) (es new : List LogEntry)
      → Whole entry_codec i es s.log_entries
      → i ≤ start_index
      → start_index ≤ i + length es
      → start_index + length new < u64_mod
      → store_log_entries entry_codec s start_index new ≡ ok s'
      → (s'.metadata ≡ s.metadata)
        × (s'.snapshot ≡ s.snapshot)
        × Whole entry_codec i (take (start_index - i) es ++ new) s'.log_entries
  unfolding store_log_entries
  store_log_entries-Whole s s' i start_index es new w l k bound e =
      let (written, q, r) = >>=-eq-ok (write_frames entry_codec start_index new) _ e in
      let (o, q', r') =
        >>=-eq-ok (find_frame start_index (length s.log_entries) s.log_entries 0) _ r in
      let (o', found, agrees) =
        find_frame-truncate_at entry_codec short start_index (length s.log_entries) i es
          s.log_entries 0 (omega arith) w in
      let (n, (cut, keep)) =
        truncate_at-Frames entry_codec entry_trip short (λ bs. bs ≡ []) nothing-NoFrame start_index
          (length s.log_entries) i es s.log_entries (omega arith) w l k in
      let kept : truncate o s.log_entries ≡ take n s.log_entries =
        ap (λ x. truncate x s.log_entries) (ok-injective (sym q' ∙ found))
        ∙ truncate-take entry_codec short o' s.log_entries _ agrees
        ∙ ap (λ (m : ℕ). take m s.log_entries) (cut 0 ∙ omega arith) in
      let whole =
        keep new written
          (write_frames-Whole entry_codec entry_trip short start_index new written bound q) in
      subst
        (λ (x : InMemoryStorage).
          (x.metadata ≡ s.metadata)
          × (x.snapshot ≡ s.snapshot)
          × Whole entry_codec i (take (start_index - i) es ++ new) x.log_entries)
        (ok-injective r')
        (
          refl,
          refl,
          subst (λ b. Whole entry_codec i (take (start_index - i) es ++ new) (b ++ written))
              (sym kept) whole,
        )

  pub entries_stored-Buffers :
      (s s' : InMemoryStorage) (d : Disk) (start_index : ℕ) (entries : List LogEntry)
      → BuffersHold s d
      → contiguous d (persist_log_entries start_index entries) ≡ true
      → store_log_entries entry_codec s start_index entries ≡ ok s'
      → BuffersHold s' (persist d (persist_log_entries start_index entries))
  unfolding persist
  entries_stored-Buffers s s' d start_index entries h c e =
      let (same_metadata, same_snapshot, whole) =
        store_log_entries-Whole s s' (d.last_included_index + 1) start_index d.log entries
          h.log_held (ground arith) (ground arith) (ground arith) e in
      record {
        metadata_held =
            subst (λ b. MetadataHeld b d.current_term d.voted_for) (sym same_metadata)
              h.metadata_held;
        log_held =
            subst
              (λ (n : ℕ).
                Whole entry_codec (d.last_included_index + 1) (take n d.log ++ entries)
                  s'.log_entries)
              {x = start_index - (d.last_included_index + 1)}
              {y = start_index - d.last_included_index - 1} (omega arith) whole;
        snapshot_held =
            subst (λ b. SnapshotHeld b d.last_included_index d.last_included_term)
              (sym same_snapshot) h.snapshot_held;
      }

  pub snapshot_stored-Buffers :
      (s s₁ s' : InMemoryStorage) (d : Disk) (x : Snapshot)
      → BuffersHold s d
      → store_snapshot snapshot_codec s x ≡ ok s₁
      → truncate_log s₁ ≡ ok s'
      → BuffersHold s'
          (persist d (install_snapshot x.last_included_index x.last_included_term x.payload))
  unfolding store_snapshot truncate_log persist
  snapshot_stored-Buffers s s₁ s' d x h e k =
      let (b, p, q) = >>=-eq-ok (unwrap (snapshot_codec.to_allocvec x)) _ e in
      subst
        (λ y. BuffersHold y (record d {
          log = [];
          last_included_index = x.last_included_index;
          last_included_term = x.last_included_term;
        }))
        (ap (λ (y : InMemoryStorage). record y { log_entries = [] }) (ok-injective q)
          ∙ ok-injective k)
        (record {
          metadata_held = h.metadata_held;
          log_held = unfold FramesThen in refl;
          snapshot_held =
              inr (x.payload, snapshot_trip x b (unwrap-eq (snapshot_codec.to_allocvec x) p));
        })

  pub snapshot_of :
      (s : InMemoryStorage) (d : Disk) (o : Option Snapshot)
      → BuffersHold s d
      → restore_snapshot snapshot_codec s ≡ ok o
      → SnapshotOf d o
  unfolding restore_snapshot
  snapshot_of s d o h e = elim h.snapshot_held [
    | inl (b, i, t) ↦ subst (SnapshotOf d) (ok-injective (rw b at e)) (i, t)
    | inr (payload, f) ↦ by_bytes s.snapshot payload f e
  ]
    where
      by_bytes :
          (b : Bytes) (payload : Bytes)
          → snapshot_codec.from_bytes b
            ≡ some (record {
              last_included_index = d.last_included_index;
              last_included_term = d.last_included_term;
              payload = payload;
            })
          → (if is_empty b
              then ok none
              else (do x ← unwrap (snapshot_codec.from_bytes b); ok (some x)))
            ≡ ok o
          → SnapshotOf d o
      by_bytes [] payload f e = absurd (cc)
      by_bytes (x ∷ xs) payload f e = subst (SnapshotOf d) (ok-injective (rw f at e)) (refl, refl)

  pub metadata_of :
      (s : InMemoryStorage) (d : Disk) (o : Option PersistedMetadata)
      → BuffersHold s d
      → restore_metadata metadata_codec s ≡ ok o
      → MetadataOf d o
  unfolding restore_metadata
  metadata_of s d o h e = elim h.metadata_held [
    | inl (b, t, v) ↦ subst (MetadataOf d) (ok-injective (rw (b, metadata_nothing) at e)) (t, v)
    | inr f ↦ subst (MetadataOf d) (ok-injective (rw f at e)) (refl, refl)
  ]

  pub entries_of :
      (s : InMemoryStorage) (d : Disk) (o : Option (List LogEntry))
      → BuffersHold s d
      → restore_log_entries entry_codec s ≡ ok o
      → d.log ≡ unwrap_or o []
  unfolding restore_log_entries
  entries_of s d o h e = by_bytes s.log_entries d.log h.log_held e
    where
      by_bytes :
          (b : Bytes) (log : List LogEntry)
          → Whole entry_codec (d.last_included_index + 1) log b
          → (if is_empty b
              then ok none
              else (do es ← read_frames entry_codec (length b) b; ok (some es)))
            ≡ ok o
          → log ≡ unwrap_or o []
      by_bytes [] log w e =
          subst (λ x. log ≡ unwrap_or x []) (ok-injective e)
            (no_entries entry_codec (d.last_included_index + 1) log w)
      by_bytes (x ∷ xs) log w e =
          let framed = Whole-Framed entry_codec (d.last_included_index + 1) log (x ∷ xs) w in
          subst (λ y. log ≡ unwrap_or y [])
            (ok-injective (
              rw
                (read_frames-Framed entry_codec entry_trip short (length (x ∷ xs))
                  (d.last_included_index + 1) log (x ∷ xs) (omega arith) framed)
                at e))
            refl

  -- The buffers keep the laws of the event loop's storage.
  unfoldable pub memory_storage_laws :
      StorageLaws (memory_storage metadata_codec entry_codec snapshot_codec)
  memory_storage_laws = record {
    Holds = BuffersHold;
    metadata_stored = λ {s} {s'} {d} m h e. metadata_stored-Buffers s s' d m h e;
    entries_stored =
        λ {s} {s'} {d} from entries h c e. entries_stored-Buffers s s' d from entries h c e;
    snapshot_stored = λ {s} {s₁} {s'} {d} x h p q. snapshot_stored-Buffers s s₁ s' d x h p q;
    snapshot_restored = λ {s} {d} {o} h e. snapshot_of s d o h e;
    metadata_restored = λ {s} {d} {o} h e. metadata_of s d o h e;
    entries_restored = λ {s} {d} {o} h e. entries_of s d o h e;
  }
