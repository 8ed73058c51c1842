-- ===== src/Memory/Search.antt =====
-- The log of `InMemoryStorage` (crates/raft-test-utils/src/lib.rs) against the log file of `FileStorage`
-- (crates/raft-file-storage/src/lib.rs).
use ferris_ferry.Prelude.{
  ℕ, zero, suc, ◌+◌, ◌≤◌, ◌<◌, ◌≡◌, ◌⊎◌, inl, inr, refl, sym, ap, ◌∙◌, Option, none, some, List, [],
  ◌∷◌, ◌++◌, false, ◌==◌, Bool-cases, length, length-append, take, drop-append_left, ok, ◌>>=◌,
  >>=-eq-ok, ok-injective, unwrap_or, u64_mod, arith, take_of_length-le,
}
use ferris_ferry.Types.{Bytes, LogEntry}
use ferris_ferry.Wire.{
  frame, skip_frame, skip_frame_own, skip_frame_other, skip_frame-none, read_number, read_exact,
  length-frame, index_read, length_read,
}
use ferris_ferry.Files as Files
use ferris_ferry.Files.{Codec, RoundTrip, FileStorage, truncate_at, search_on, write_frames}
use ferris_ferry.Files.Frames.{Short, FramesThen, Whole, nothing-NoFrame}
use ferris_ferry.Memory.{
  InMemoryStorage, after_length, at_index, find_frame, truncate, store_log_entries,
}

-- The position that one search finds, against the place where the other one stops.
abbrev pub Agrees : ℕ → Bytes → Option ℕ → ℕ → Type 0
Agrees pos bs o t = (o ≡ some t) ⊎ ((o ≡ none) × (t ≡ pos + length bs))

module _ (codec : Codec LogEntry) (short : Short codec) where
  pub find_frame-truncate_at :
      (start_index fuel i : ℕ) (es : List LogEntry) (bs : Bytes) (pos : ℕ)
      → length bs ≤ fuel
      → Whole codec i es bs
      → (o : Option ℕ) × (find_frame start_index fuel bs pos ≡ ok o)
        × Agrees pos bs o (truncate_at start_index fuel bs pos)
  unfolding FramesThen find_frame truncate_at
  find_frame-truncate_at start_index zero i [] bs pos h f =
      (none, refl, inr (refl, omega (arith, ap length f)))
  find_frame-truncate_at start_index (suc fuel) i [] bs pos h f = (
    none,
    ap (λ b. at_index (find_frame start_index fuel) start_index pos (read_number 8 b)) f
        ∙ (unfold read_number read_exact in refl),
    inr (
      refl,
      ap (search_on pos (truncate_at start_index fuel))
            (skip_frame-none start_index bs (nothing-NoFrame bs f))
          ∙ omega (arith, ap length f),
    ),
  )
  find_frame-truncate_at start_index zero i (e ∷ es) bs pos h (b, rest, c, small, eq, f) = absurd (
      omega (
        arith,
        ap length eq,
        length-append (frame i b) rest,
        length-frame i b rest small (short e b c),
      ))
  find_frame-truncate_at start_index (suc fuel) i (e ∷ es) bs pos h (b, rest, c, small, eq, f) =
      let size = short e b c in
      let bound : length rest ≤ fuel =
        omega
          (arith, ap length eq, length-append (frame i b) rest, length-frame i b rest small size) in
      let later =
        find_frame-truncate_at start_index fuel (i + 1) es rest (pos + (12 + length b)) bound f in
      let read = ap (read_number 8) eq ∙ index_read i b rest small size in
      elim (Bool-cases (i == start_index)) [
        | inl s ↦ (
          some pos,
          ap (at_index (find_frame start_index fuel) start_index pos) read ∙ rw s refl,
          inl (
              ap some (
                sym (
                  ap (search_on pos (truncate_at start_index fuel)) (
                    ap (skip_frame start_index) eq
                    ∙ skip_frame_own i b rest small size start_index s)))),
        )
        | inr s ↦ (
          later.0,
          ap (at_index (find_frame start_index fuel) start_index pos) read
              ∙ rw s (
                  ap (after_length (find_frame start_index fuel) pos)
                    (length_read i b rest small size)
                  ∙ ap (λ r. find_frame start_index fuel r (pos + 12 + length b))
                      (drop-append_left b rest)
                  ∙ ap (find_frame start_index fuel rest) {x = pos + 12 + length b}
                      {y = pos + (12 + length b)} (omega arith)
                  ∙ later.1),
          moved fuel b rest eq small size later.0 s later.2,
        )
      ]
    where
      moved :
          (fuel : ℕ) (b rest : Bytes)
          → bs ≡ frame i b ++ rest
          → i < u64_mod
          → length b < 4294967296
          → (o : Option ℕ) → (i == start_index) ≡ false
          → Agrees
              (pos + (12 + length b))
              rest
              o
              (truncate_at start_index fuel rest (pos + (12 + length b)))
          → Agrees pos bs o (truncate_at start_index (suc fuel) bs pos)
      moved fuel b rest eq small size o s a =
          let same : truncate_at start_index (suc fuel) bs pos
              ≡ truncate_at start_index fuel rest (pos + (12 + length b)) =
            ap (search_on pos (truncate_at start_index fuel)) (
              ap (skip_frame start_index) eq
              ∙ skip_frame_other i b rest small size start_index s) in
          elim a [
            | inl q ↦ inl (q ∙ ap some (sym same))
            | inr (q, r) ↦ inr (
              q,
              same
                  ∙ r
                  ∙ omega (
                    arith,
                    ap length eq,
                    length-append (frame i b) rest,
                    length-frame i b rest small size,
                  ),
            )
          ]

  pub truncate-take :
      (o : Option ℕ) (bs : Bytes) (t : ℕ) → Agrees 0 bs o t → truncate o bs ≡ take t bs
  truncate-take o bs t (inl e) = ap (λ x. truncate x bs) e
  truncate-take o bs t (inr (e, r)) =
      ap (λ x. truncate x bs) e ∙ sym (take_of_length-le t bs (omega (arith, r)))

  -- Over a log that is made of whole frames, the two engines write the same bytes: where the engine on files
  -- stores entries, from whatever index, the one in memory does too, and its buffer is then the log file.
  pub store_log_entries-same :
      (f f' : FileStorage) (s : InMemoryStorage) (i start_index : ℕ) (es entries : List LogEntry)
      → unwrap_or f.log [] ≡ s.log_entries
      → Whole codec i es s.log_entries
      → Files.store_log_entries codec f start_index entries ≡ ok f'
      → (s' : InMemoryStorage) × (store_log_entries codec s start_index entries ≡ ok s')
        × (f'.log ≡ some s'.log_entries)
  unfolding Files.store_log_entries store_log_entries
  store_log_entries-same f f' s i start_index es entries p w e =
      let (written, q, r) = >>=-eq-ok (write_frames codec start_index entries) _ e in
      let (o, found, agrees) =
        find_frame-truncate_at start_index (length s.log_entries) i es s.log_entries 0 (omega arith)
          w in
      (
        record s { log_entries = truncate o s.log_entries ++ written },
        ap
              (λ r. r >>= (λ serialized. do
                truncate_at ← find_frame start_index (length s.log_entries) s.log_entries 0
                ok (record s { log_entries = truncate truncate_at s.log_entries ++ serialized })))
              q
            ∙ ap
                (λ r. r >>= (λ truncate_at.
                  ok (record s { log_entries = truncate truncate_at s.log_entries ++ written })))
                found,
        ap (λ x. x.log) (sym (ok-injective r))
            ∙ ap (λ b. some (take (truncate_at start_index (length b) b 0) b ++ written)) p
            ∙ ap (λ b. some (b ++ written)) (sym (truncate-take o s.log_entries _ agrees)),
      )
