-- ===== src/Wire.antt =====
-- Big-endian numbers and exact reads, as crates/raft-file-storage/src/lib.rs and
-- crates/raft-test-utils/src/lib.rs use them for the frames of the log. Writes and reads of numbers are
-- the language's; a byte is a number.
use ferris_ferry.Prelude.{
  ℕ, zero, suc, ◌+◌, ◌*◌, ◌/◌, ◌%◌, ◌<◌, ◌≡◌, true, false, refl, sym, ap, ◌∙◌, Option, none, some,
  [], ◌∷◌, ◌++◌, length, length-snoc, length-append, u64_mod, ◌==◌, if◌then◌else◌, arith,
  append_assoc,
}
use ferris_ferry.Types.{Bytes}

-- `Option`'s `?`
infixl 5 ◌>>=◌
abbrev pub ◌>>=◌ {ℓ κ} : {A : Type ℓ} {B : Type κ} → Option A → (A → Option B) → Option B
none >>= f = none
some a >>= f = f a

-- `to_be_bytes` of a number of `k` bytes
unfoldable pub to_be_bytes : ℕ → ℕ → Bytes
to_be_bytes zero n = []
to_be_bytes (suc k) n = to_be_bytes k (n / 256) ++ (n % 256) ∷ []

unfoldable pub from_be_bytes : ℕ → Bytes → ℕ
from_be_bytes acc [] = acc
from_be_bytes acc (b ∷ bs) = from_be_bytes (acc * 256 + b) bs

-- `read_exact` of a buffer of `k` bytes: fails at the end of the input
unfoldable pub read_exact : ℕ → Bytes → Option (Bytes × Bytes)
read_exact zero bs = some ([], bs)
read_exact (suc k) [] = none
read_exact (suc k) (b ∷ bs) = do r ← read_exact k bs; some (b ∷ r.0, r.1)

-- `read_u64` and `read_u32` are numbers of 8 and 4 bytes.
unfoldable pub read_number : ℕ → Bytes → Option (ℕ × Bytes)
unfolding read_exact from_be_bytes
read_number k bs = do r ← read_exact k bs; some (from_be_bytes 0 r.0, r.1)

pub length-to_be_bytes : (k n : ℕ) → length (to_be_bytes k n) ≡ k
unfolding to_be_bytes
length-to_be_bytes zero n = refl
length-to_be_bytes (suc k) n =
    omega (arith, length-snoc (to_be_bytes k (n / 256)) (n % 256), length-to_be_bytes k (n / 256))

from_be_bytes-snoc :
    (acc : ℕ) (xs : Bytes) (b : ℕ)
    → from_be_bytes acc (xs ++ b ∷ []) ≡ from_be_bytes acc xs * 256 + b
unfolding from_be_bytes
from_be_bytes-snoc acc [] b = refl
from_be_bytes-snoc acc (x ∷ xs) b = from_be_bytes-snoc (acc * 256 + x) xs b

-- the numbers of `k` bytes
unfoldable pub byte_limit : ℕ → ℕ
byte_limit zero = 1
byte_limit (suc k) = 256 * byte_limit k

pub from_be_bytes-to_be_bytes : (k n : ℕ) → n < byte_limit k → from_be_bytes 0 (to_be_bytes k n) ≡ n
unfolding to_be_bytes byte_limit from_be_bytes
from_be_bytes-to_be_bytes zero n h = omega arith
from_be_bytes-to_be_bytes (suc k) n h =
    let back = from_be_bytes-to_be_bytes k (n / 256) (omega arith) in
    from_be_bytes-snoc 0 (to_be_bytes k (n / 256)) (n % 256) ∙ omega (arith, back)

pub read_exact-append : (xs ys : Bytes) → read_exact (length xs) (xs ++ ys) ≡ some (xs, ys)
unfolding read_exact
read_exact-append [] ys = refl
read_exact-append (x ∷ xs) ys = rw (read_exact-append xs ys) refl

-- A number that was written is read back, and what follows it is left.
pub read_number-to_be_bytes :
    (k n : ℕ) (rest : Bytes)
    → n < byte_limit k
    → read_number k (to_be_bytes k n ++ rest) ≡ some (n, rest)
unfolding read_number
read_number-to_be_bytes k n rest h =
    ap (λ r. r >>= (λ (r : Bytes × Bytes). some (from_be_bytes 0 r.0, r.1)))
      (ap (λ j. read_exact j (to_be_bytes k n ++ rest)) (sym (length-to_be_bytes k n))
        ∙ read_exact-append (to_be_bytes k n) rest)
    ∙ ap (λ m. some (m, rest)) (from_be_bytes-to_be_bytes k n h)

-- A frame of the log: the entry's index, its length and its bytes.
abbrev pub frame : ℕ → Bytes → Bytes
frame index entry = to_be_bytes 8 index ++ (to_be_bytes 4 (length entry % 4294967296) ++ entry)

-- One whole frame: the bytes of the entry, and what follows.
unfoldable pub read_frame : Bytes → Option (Bytes × Bytes)
unfolding read_number
read_frame bs = do index ← read_number 8 bs; len ← read_number 4 index.1; read_exact len.0 len.1

-- One round of the search for the frame of an index: none where the frame is found, or none is left. The
-- length of the frame, and what follows.
unfoldable pub skip_frame : ℕ → Bytes → Option (ℕ × Bytes)
unfolding read_number
skip_frame start_index bs = do
  index ← read_number 8 bs
  if index.0 == start_index then none else (do
    len ← read_number 4 index.1
    entry ← read_exact len.0 len.1
    some (12 + len.0, entry.1))

pub frame-append :
    (i : ℕ) (b rest : Bytes)
    → frame i b ++ rest ≡ to_be_bytes 8 i ++ (to_be_bytes 4 (length b % 4294967296) ++ (b ++ rest))
frame-append i b rest =
    append_assoc (to_be_bytes 8 i) (to_be_bytes 4 (length b % 4294967296) ++ b) rest
    ∙ ap (◌++◌ (to_be_bytes 8 i)) (append_assoc (to_be_bytes 4 (length b % 4294967296)) b rest)

module _ (i : ℕ) (b rest : Bytes) (small : i < u64_mod) (short : length b < 4294967296) where
  pub index_read :
      read_number 8 (frame i b ++ rest)
      ≡ some (i, to_be_bytes 4 (length b % 4294967296) ++ (b ++ rest))
  index_read =
      ap (read_number 8) (frame-append i b rest)
      ∙ read_number-to_be_bytes 8 i _ (unfold byte_limit in omega arith)

  pub length_read :
      read_number 4 (to_be_bytes 4 (length b % 4294967296) ++ (b ++ rest))
      ≡ some (length b, b ++ rest)
  length_read =
      read_number-to_be_bytes 4 (length b % 4294967296) (b ++ rest)
        (unfold byte_limit in omega arith)
      ∙ ap (λ (n : ℕ). some (n, b ++ rest)) {x = length b % 4294967296} {y = length b} (omega arith)

  -- A frame that was written is read back, and what follows it is left.
  pub read_frame-frame : read_frame (frame i b ++ rest) ≡ some (b, rest)
  unfolding read_frame
  read_frame-frame = rw (index_read, length_read) (read_exact-append b rest)

  -- The search passes a frame of another index, and stops at one of its own.
  skip_frame-frame :
      (start_index : ℕ)
      → skip_frame start_index (frame i b ++ rest)
        ≡ (if i == start_index then none else some (12 + length b, rest))
  unfolding skip_frame
  skip_frame-frame start_index = rw (index_read, length_read, read_exact-append b rest) refl

  pub skip_frame_own :
      (start_index : ℕ)
      → (i == start_index) ≡ true
      → skip_frame start_index (frame i b ++ rest) ≡ none
  skip_frame_own start_index h = skip_frame-frame start_index ∙ rw h refl

  pub skip_frame_other :
      (start_index : ℕ)
      → (i == start_index) ≡ false
      → skip_frame start_index (frame i b ++ rest) ≡ some (12 + length b, rest)
  skip_frame_other start_index h = skip_frame-frame start_index ∙ rw h refl

  pub length-frame : length (frame i b) ≡ 12 + length b
  length-frame = omega (
    arith,
    length-append (to_be_bytes 8 i) (to_be_bytes 4 (length b % 4294967296) ++ b),
    length-append (to_be_bytes 4 (length b % 4294967296)) b,
    length-to_be_bytes 8 i,
    length-to_be_bytes 4 (length b % 4294967296),
  )

-- Where no whole frame is left, the search stops.
pub skip_frame-none :
    (start_index : ℕ) (bs : Bytes) → read_frame bs ≡ none → skip_frame start_index bs ≡ none
unfolding skip_frame read_frame
skip_frame-none start_index bs h = ground arith
