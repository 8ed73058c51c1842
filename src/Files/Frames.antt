-- ===== src/Files/Frames.antt =====
-- The log file of crates/raft-file-storage/src/lib.rs: entries that are written are read back, over an
-- incomplete frame at the end too.
use ferris_ferry.Prelude.{
  unwrap-eq, ℕ, zero, suc, ◌+◌, ◌-◌, ◌≤◌, ◌<◌, ◌≡◌, inl, inr, refl, sym, ap, ◌∙◌, subst, none, some,
  List, [], ◌∷◌, ◌++◌, false, ◌==◌, Bool-cases, length, length-append, take-append_plus, take, ok,
  >>=-eq-ok, ok-injective, unwrap, wadd, wadd-eq-add, u64_mod, arith, append_assoc,
}
use ferris_ferry.Types.{Bytes, LogEntry}
use ferris_ferry.Wire.{
  frame, read_frame, read_number, read_exact, skip_frame, read_frame-frame, skip_frame_own,
  skip_frame_other, skip_frame-none, length-frame,
}
use ferris_ferry.Files.{
  Codec, RoundTrip, truncate_at, search_on, write_frames, read_on, read_frames,
}

-- No encoded entry has 4 GiB: its length is written in 32 bits.
abbrev pub Short : Codec LogEntry → Type 0
Short codec = (e : LogEntry) (b : Bytes) → codec.to_allocvec e ≡ some b → length b < 4294967296

-- The bytes are the frames of entries from an index on, and then bytes of a kind.
unfoldable pub FramesThen : (Bytes → Type 0) → Codec LogEntry → ℕ → List LogEntry → Bytes → Type 0
FramesThen P codec i [] bs = P bs
FramesThen P codec i (e ∷ es) bs =
    (b : Bytes) × (rest : Bytes) × (codec.to_allocvec e ≡ some b)
    × (i < u64_mod)
    × (bs ≡ frame i b ++ rest)
    × FramesThen P codec (i + 1) es rest

abbrev pub NoFrame : Bytes → Type 0
NoFrame bs = read_frame bs ≡ none

-- Then no whole frame.
abbrev pub Framed : Codec LogEntry → ℕ → List LogEntry → Bytes → Type 0
Framed = FramesThen NoFrame

-- Then nothing.
abbrev pub Whole : Codec LogEntry → ℕ → List LogEntry → Bytes → Type 0
Whole = FramesThen (λ bs. bs ≡ [])

pub nothing-NoFrame : (bs : Bytes) → bs ≡ [] → NoFrame bs
nothing-NoFrame bs h = ap read_frame h ∙ (unfold read_frame read_number read_exact in refl)

pub Whole-Framed :
    (codec : Codec LogEntry) (i : ℕ) (es : List LogEntry) (bs : Bytes)
    → Whole codec i es bs
    → Framed codec i es bs
unfolding FramesThen
Whole-Framed codec i [] bs h = nothing-NoFrame bs h
Whole-Framed codec i (e ∷ es) bs (b, rest, c, small, eq, f) =
    (b, rest, c, small, eq, Whole-Framed codec (i + 1) es rest f)

-- the two assumptions on the encoding
module _ (codec : Codec LogEntry) (trip : RoundTrip codec) (short : Short codec) where
  -- Whatever the bytes after them, whole frames are read back as the entries that were written.
  pub read_frames-Framed :
      (fuel i : ℕ) (es : List LogEntry) (bs : Bytes)
      → length bs ≤ fuel
      → Framed codec i es bs
      → read_frames codec fuel bs ≡ ok es
  unfolding FramesThen read_frames
  read_frames-Framed zero i [] bs h f = refl
  read_frames-Framed (suc fuel) i [] bs h f = ap (read_on codec (read_frames codec fuel)) f
  read_frames-Framed zero i (e ∷ es) bs h (b, rest, c, small, eq, f) = absurd (
      omega (
        arith,
        ap length eq,
        length-append (frame i b) rest,
        length-frame i b rest small (short e b c),
      ))
  read_frames-Framed (suc fuel) i (e ∷ es) bs h (b, rest, c, small, eq, f) =
      let more =
        read_frames-Framed fuel (i + 1) es rest
          (omega (
            arith,
            ap length eq,
            length-append (frame i b) rest,
            length-frame i b rest small (short e b c),
          ))
          f in
      ap (read_on codec (read_frames codec fuel))
        (ap read_frame eq ∙ read_frame-frame i b rest small (short e b c))
      ∙ rw (trip e b c, more) refl

  pub write_frames-Whole :
      (i : ℕ) (es : List LogEntry) (bs : Bytes)
      → i + length es < u64_mod
      → write_frames codec i es ≡ ok bs
      → Whole codec i es bs
  unfolding FramesThen write_frames
  write_frames-Whole i [] bs h e = sym (ok-injective e)
  write_frames-Whole i (x ∷ xs) bs h e =
      let (b, p, q) = >>=-eq-ok (unwrap (codec.to_allocvec x)) _ e in
      let (more, p', q') = >>=-eq-ok (write_frames codec (wadd i 1) xs) _ q in
      (
        b,
        more,
        unwrap-eq (codec.to_allocvec x) p,
        omega arith,
        sym (ok-injective q'),
        write_frames-Whole (i + 1) xs more (omega arith)
            (sym (ap (λ n. write_frames codec n xs) (wadd-eq-add i 1 (omega arith))) ∙ p'),
      )

  -- Where the search ends, what is written continues the frames that are left.
  abbrev pub CutAt : ℕ → ℕ → ℕ → List LogEntry → Bytes → ℕ → Type 0
  CutAt start_index fuel i es bs n =
      ((pos : ℕ) → truncate_at start_index fuel bs pos ≡ pos + n)
      × ((new : List LogEntry) (written : Bytes)
          → Whole codec start_index new written
          → Whole codec i (take (start_index - i) es ++ new) (take n bs ++ written))

  cut_here :
      (start_index fuel i : ℕ) (es : List LogEntry) (bs : Bytes)
      → start_index ≡ i
      → ((pos : ℕ) → truncate_at start_index fuel bs pos ≡ pos)
      → CutAt start_index fuel i es bs 0
  cut_here start_index fuel i es bs s t = (
    λ pos. t pos ∙ omega arith,
    λ new written w.
        subst (λ (m : ℕ). Whole codec i (take m es ++ new) written) {x = 0} {y = start_index - i}
          (omega arith) (subst (λ j. Whole codec j new written) s w),
  )

  pass_frame :
      (start_index fuel i : ℕ) (e : LogEntry) (es : List LogEntry) (b rest : Bytes) (n : ℕ)
      → codec.to_allocvec e ≡ some b
      → i < start_index
      → i < u64_mod
      → CutAt start_index fuel (i + 1) es rest n
      → CutAt start_index (suc fuel) i (e ∷ es) (frame i b ++ rest) (length (frame i b) + n)
  unfolding FramesThen truncate_at
  pass_frame start_index fuel i e es b rest n c l small (cut, keep) = (
    λ pos.
        ap (search_on pos (truncate_at start_index fuel))
          (skip_frame_other i b rest small (short e b c) start_index (other i start_index l))
        ∙ cut (pos + (12 + length b))
        ∙ omega (arith, length-frame i b rest small (short e b c)),
    λ new written w.
        subst
          (λ (m : ℕ).
            Whole codec i (take m (e ∷ es) ++ new)
              (take (length (frame i b) + n) (frame i b ++ rest) ++ written))
          {x = suc (start_index - (i + 1))} {y = start_index - i} (omega arith)
          (
            b,
            take n rest ++ written,
            c,
            small,
            ap (λ bs. bs ++ written) (take-append_plus (frame i b) rest n)
                ∙ append_assoc (frame i b) (take n rest) written,
            keep new written w,
          ),
  )
    where
      other : (i j : ℕ) → i < j → (i == j) ≡ false
      other i j h = ground arith

  -- The search passes the frames before the index, and stops at the index or after the last whole frame.
  pub truncate_at-Frames :
      (P : Bytes → Type 0) (tail : (bs : Bytes) → P bs → NoFrame bs) (start_index fuel i : ℕ)
      (es : List LogEntry) (bs : Bytes)
      → length bs ≤ fuel
      → FramesThen P codec i es bs
      → i ≤ start_index
      → start_index ≤ i + length es
      → (n : ℕ) × CutAt start_index fuel i es bs n
  unfolding FramesThen truncate_at
  truncate_at-Frames P tail start_index zero i [] bs h f l k =
      (0, cut_here start_index zero i [] bs (omega arith) (λ pos. refl))
  truncate_at-Frames P tail start_index (suc fuel) i [] bs h f l k = (
    0,
    cut_here start_index (suc fuel) i [] bs (omega arith) (λ pos.
        ap (search_on pos (truncate_at start_index fuel))
          (skip_frame-none start_index bs (tail bs f))),
  )
  truncate_at-Frames P tail start_index zero i (e ∷ es) bs h (b, rest, c, small, eq, f) l k =
      absurd (
        omega (
          arith,
          ap length eq,
          length-append (frame i b) rest,
          length-frame i b rest small (short e b c),
        ))
  truncate_at-Frames P tail start_index (suc fuel) i (e ∷ es) bs h (b, rest, c, small, eq, f) l k =
      elim (Bool-cases (i == start_index)) [
        | inl s ↦ (
          0,
          cut_here start_index (suc fuel) i (e ∷ es) bs (ground arith) (λ pos.
              ap (search_on pos (truncate_at start_index fuel)) (
                ap (skip_frame start_index) eq
                ∙ skip_frame_own i b rest small (short e b c) start_index s)),
        )
        | inr s ↦
            (let (n, cut) =
                truncate_at-Frames P tail start_index fuel (i + 1) es rest
                  (omega (
                    arith,
                    ap length eq,
                    length-append (frame i b) rest,
                    length-frame i b rest small (short e b c),
                  ))
                  f (ground arith) (omega arith) in
              (
                length (frame i b) + n,
                subst (λ x. CutAt start_index (suc fuel) i (e ∷ es) x (length (frame i b) + n))
                    (sym eq)
                    (pass_frame start_index fuel i e es b rest n c (ground arith) small cut),
              ))
      ]
