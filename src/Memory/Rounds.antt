-- ===== src/Memory/Rounds.antt =====
-- The loops over a log (crates/raft-file-storage/src/lib.rs, crates/raft-test-utils/src/lib.rs) end by
-- themselves.
use ferris_ferry.Prelude.{
  ℕ, zero, suc, ◌+◌, ◌≤◌, ◌<◌, ◌≡◌, refl, ap, ◌∙◌, inl, inr, Option, none, some, List, [], ◌∷◌,
  Result, ok, panic, true, false, ◌==◌, Bool-cases, Option-cases, length, drop, length-drop, arith,
}
use ferris_ferry.Types.{Bytes, LogEntry}
use ferris_ferry.Wire.{read_frame, skip_frame, read_number, read_exact}
use ferris_ferry.Files.{Codec, truncate_at, read_on, read_frames}
use ferris_ferry.Memory.{find_frame}

read_exact-length :
    (k : ℕ) (bs : Bytes) (r : Bytes × Bytes) → read_exact k bs ≡ some r → length bs ≡ k + length r.1
unfolding read_exact
read_exact-length zero bs r e = ground arith
read_exact-length (suc k) [] r e = absurd (cc)
read_exact-length (suc k) (b ∷ bs) r e = elim (Option-cases (read_exact k bs)) [
  | inl n ↦ absurd (ground (arith, n, e))
  | inr (q, n) ↦ (let h = read_exact-length k bs q n in ground (arith, n, e, h))
]

read_number-length :
    (k : ℕ) (bs : Bytes) (r : ℕ × Bytes) → read_number k bs ≡ some r → length bs ≡ k + length r.1
unfolding read_number
read_number-length k bs r e = elim (Option-cases (read_exact k bs)) [
  | inl n ↦ absurd (ground (arith, n, e))
  | inr (q, n) ↦ (let h = read_exact-length k bs q n in ground (arith, n, e, h))
]

read_frame-length :
    (bs : Bytes) (r : Bytes × Bytes) → read_frame bs ≡ some r → length r.1 < length bs
unfolding read_frame
read_frame-length bs r e = elim (Option-cases (read_number 8 bs)) [
  | inl n ↦ absurd (ground (arith, n, e))
  | inr (index, n) ↦ elim (Option-cases (read_number 4 index.1)) [
    | inl m ↦ absurd (ground (arith, n, m, e))
    | inr (len, m) ↦
        (let h = read_exact-length len.0 len.1 r (rw (n, m) at e) in
          omega (arith, h, read_number-length 8 bs index n, read_number-length 4 index.1 len m))
  ]
]

skip_frame-length :
    (start_index : ℕ) (bs : Bytes) (r : ℕ × Bytes)
    → skip_frame start_index bs ≡ some r
    → length r.1 < length bs
unfolding skip_frame
skip_frame-length start_index bs r e = elim (Option-cases (read_number 8 bs)) [
  | inl n ↦ absurd (ground (arith, n, e))
  | inr (index, n) ↦ elim (Bool-cases (index.0 == start_index)) [
    | inl same ↦ absurd (ground (arith, n, same, e))
    | inr other ↦ elim (Option-cases (read_number 4 index.1)) [
      | inl m ↦ absurd (ground (arith, n, other, m, e))
      | inr (len, m) ↦ elim (Option-cases (read_exact len.0 len.1)) [
        | inl k ↦ absurd (ground (arith, n, other, m, k, e))
        | inr (entry, k) ↦
            (let h = read_exact-length len.0 len.1 entry k in
              let left : r.1 ≡ entry.1 = ground (arith, n, other, m, k, e) in
              omega (
                arith,
                ap length left,
                h,
                read_number-length 8 bs index n,
                read_number-length 4 index.1 len m,
              ))
      ]
    ]
  ]
]

no_bytes : (bs : Bytes) → length bs ≤ 0 → bs ≡ []
no_bytes [] h = refl
no_bytes (b ∷ bs) h = absurd (omega arith)

-- The runs of the three loops, round by round and without a bound. A run is finite: a loop that went round for
-- ever over some bytes would have none, and so no result.
-- `restore_log_entries`: it ends where no whole frame is left.
pub data Restores (codec : Codec LogEntry) : Bytes → Result (List LogEntry) → Type 0 where
  at_end : {bs : Bytes} → read_frame bs ≡ none → Restores codec bs (ok [])
  reads :
      {bs : Bytes} {later : Result (List LogEntry)} (r : Bytes × Bytes)
      → read_frame bs ≡ some r
      → Restores codec r.1 later
      → Restores codec bs (read_on codec (λ rest. later) (some r))

-- The search of `truncate_at` in the log file, with the position in it: it ends at the frame of the index, or
-- where no whole frame is left.
pub data Truncates (start_index : ℕ) : Bytes → ℕ → ℕ → Type 0 where
  stops :
      {bs : Bytes} {pos : ℕ} → skip_frame start_index bs ≡ none → Truncates start_index bs pos pos
  skips :
      {bs : Bytes} {pos result : ℕ} (r : ℕ × Bytes)
      → skip_frame start_index bs ≡ some r
      → Truncates start_index r.1 (pos + r.0) result
      → Truncates start_index bs pos result

-- The search in the buffer in memory: it ends at the frame of the index, where no whole index is left, or with a
-- panic where a length is not whole.
pub data Finds (start_index : ℕ) : Bytes → ℕ → Result (Option ℕ) → Type 0 where
  no_index : {bs : Bytes} {pos : ℕ} → read_number 8 bs ≡ none → Finds start_index bs pos (ok none)
  found :
      {bs : Bytes} {pos : ℕ} (index : ℕ × Bytes)
      → read_number 8 bs ≡ some index
      → (index.0 == start_index) ≡ true
      → Finds start_index bs pos (ok (some pos))
  no_length :
      {bs : Bytes} {pos : ℕ} (index : ℕ × Bytes)
      → read_number 8 bs ≡ some index
      → (index.0 == start_index) ≡ false
      → read_number 4 index.1 ≡ none
      → Finds start_index bs pos panic
  passes :
      {bs : Bytes} {pos : ℕ} {result : Result (Option ℕ)} (index len : ℕ × Bytes)
      → read_number 8 bs ≡ some index
      → (index.0 == start_index) ≡ false
      → read_number 4 index.1 ≡ some len
      → Finds start_index (drop len.0 len.1) (pos + 12 + len.0) result
      → Finds start_index bs pos result

no_frame : (bs : Bytes) → length bs ≤ 0 → read_frame bs ≡ none
no_frame bs h = ap read_frame (no_bytes bs h) ∙ (unfold read_frame read_number read_exact in refl)

no_skip : (start_index : ℕ) (bs : Bytes) → length bs ≤ 0 → skip_frame start_index bs ≡ none
no_skip start_index bs h =
    ap (skip_frame start_index) (no_bytes bs h) ∙ (unfold skip_frame read_number read_exact in refl)

no_number : (bs : Bytes) → length bs ≤ 0 → read_number 8 bs ≡ none
no_number bs h = ap (read_number 8) (no_bytes bs h) ∙ (unfold read_number read_exact in refl)

read_frames-Restores :
    (codec : Codec LogEntry) (fuel : ℕ) (bs : Bytes)
    → length bs ≤ fuel
    → Restores codec bs (read_frames codec fuel bs)
unfolding read_frames
read_frames-Restores codec zero bs h = at_end (no_frame bs h)
read_frames-Restores codec (suc fuel) bs h = elim (Option-cases (read_frame bs)) [
  | inl e ↦ rw e (at_end e)
  | inr (r, e) ↦
      (let shorter = read_frame-length bs r e in
        rw e (reads r e (read_frames-Restores codec fuel r.1 (omega (arith, shorter)))))
]

truncate_at-Truncates :
    (start_index fuel : ℕ) (bs : Bytes) (pos : ℕ)
    → length bs ≤ fuel
    → Truncates start_index bs pos (truncate_at start_index fuel bs pos)
unfolding truncate_at
truncate_at-Truncates start_index zero bs pos h = stops (no_skip start_index bs h)
truncate_at-Truncates start_index (suc fuel) bs pos h =
    elim (Option-cases (skip_frame start_index bs)) [
      | inl e ↦ rw e (stops e)
      | inr (r, e) ↦
          (let shorter = skip_frame-length start_index bs r e in
            rw e (
              skips r e
                (truncate_at-Truncates start_index fuel r.1 (pos + r.0) (omega (arith, shorter)))))
    ]

find_frame-Finds :
    (start_index fuel : ℕ) (bs : Bytes) (pos : ℕ)
    → length bs ≤ fuel
    → Finds start_index bs pos (find_frame start_index fuel bs pos)
unfolding find_frame
find_frame-Finds start_index zero bs pos h = no_index (no_number bs h)
find_frame-Finds start_index (suc fuel) bs pos h = elim (Option-cases (read_number 8 bs)) [
  | inl e ↦ rw e (no_index e)
  | inr (index, e) ↦ rw e (elim (Bool-cases (index.0 == start_index)) [
    | inl same ↦ rw same (found index e same)
    | inr other ↦ rw other (elim (Option-cases (read_number 4 index.1)) [
      | inl f ↦ rw f (no_length index e other f)
      | inr (len, f) ↦
          (let shorter : length (drop len.0 len.1) < length bs = omega (
            arith,
            length-drop len.0 len.1,
            read_number-length 8 bs index e,
            read_number-length 4 index.1 len f,
          ) in
            rw f (
              passes index len e other f (
                find_frame-Finds start_index fuel (drop len.0 len.1) (pos + 12 + len.0)
                  (omega (arith, shorter)))))
    ])
  ])
]

-- Over any bytes, whole frames or not, the three loops over a log end: with one round for each byte, or more,
-- reading the entries, searching the log file and searching the buffer in memory each give the result of a
-- finite run of the loop without a bound, which stops by the loop's own test.
pub rounds-enough :
    (codec : Codec LogEntry) (start_index fuel : ℕ) (bs : Bytes) (pos : ℕ)
    → length bs ≤ fuel
    → Restores codec bs (read_frames codec fuel bs)
      × Truncates start_index bs pos (truncate_at start_index fuel bs pos)
      × Finds start_index bs pos (find_frame start_index fuel bs pos)
rounds-enough codec start_index fuel bs pos h = (
  read_frames-Restores codec fuel bs h,
  truncate_at-Truncates start_index fuel bs pos h,
  find_frame-Finds start_index fuel bs pos h,
)
