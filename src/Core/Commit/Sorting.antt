-- ===== src/Core/Commit/Sorting.antt =====
-- The sort of the peers' indices in `handle_append_entries_response` (crates/raftcore/src/lib.rs), and
-- how many of them lie at or above the one that is picked.
use ferris_ferry.Prelude.{
  ℕ, zero, suc, ◌-◌, ◌≤◌, ◌≡◌, refl, ◌∙◌, subst, List, ◌∷◌, [], some, arith, length, get_elem?, leb,
  All, if◌then◌else◌, Bool-cases, inl, inr, leb→le, not-leb→lt,
}
use ferris_ferry.Core.Commit.{insert_sorted, sort}

-- How many are at least `v`.
abbrev pub count_ge : ℕ → List ℕ → ℕ
count_ge v [] = 0
count_ge v (x ∷ xs) = if leb v x then suc (count_ge v xs) else count_ge v xs

abbrev pub IsSorted : List ℕ → Type 0
IsSorted [] = Unit
IsSorted (x ∷ xs) = All (λ y. x ≤ y) xs × IsSorted xs

count_ge-insert_sorted :
    (v x : ℕ) (xs : List ℕ) → count_ge v (insert_sorted x xs) ≡ count_ge v (x ∷ xs)
unfolding insert_sorted
count_ge-insert_sorted v x [] = refl
count_ge-insert_sorted v x (y ∷ ys) = ground (arith, count_ge-insert_sorted v x ys)

pub count_ge-sort : (v : ℕ) (xs : List ℕ) → count_ge v (sort xs) ≡ count_ge v xs
unfolding sort
count_ge-sort v [] = refl
count_ge-sort v (x ∷ xs) = count_ge-insert_sorted v x (sort xs) ∙ ground (arith, count_ge-sort v xs)

length-insert_sorted : (x : ℕ) (xs : List ℕ) → length (insert_sorted x xs) ≡ suc (length xs)
unfolding insert_sorted
length-insert_sorted x [] = refl
length-insert_sorted x (y ∷ ys) = ground (arith, length-insert_sorted x ys)

pub length-sort : (xs : List ℕ) → length (sort xs) ≡ length xs
unfolding sort
length-sort [] = refl
length-sort (x ∷ xs) = omega (arith, length-insert_sorted x (sort xs), length-sort xs)

All-le_trans : (x y : ℕ) (ys : List ℕ) → x ≤ y → All (λ z. y ≤ z) ys → All (λ z. x ≤ z) ys
All-le_trans x y [] h a = tt
All-le_trans x y (z ∷ zs) h a = (omega arith, All-le_trans x y zs h a.1)

insert_sorted-All :
    (P : ℕ → Type 0) (x : ℕ) (xs : List ℕ) → P x → All P xs → All P (insert_sorted x xs)
unfolding insert_sorted
insert_sorted-All P x [] h a = (h, tt)
insert_sorted-All P x (y ∷ ys) h a = elim (Bool-cases (leb x y)) [
  | inl e ↦ rw e (h, a)
  | inr e ↦ rw e (a.0, insert_sorted-All P x ys h a.1)
]

pub sort-All : (P : ℕ → Type 0) (xs : List ℕ) → All P xs → All P (sort xs)
unfolding sort
sort-All P [] a = tt
sort-All P (x ∷ xs) a = insert_sorted-All P x (sort xs) a.0 (sort-All P xs a.1)

insert_sorted-IsSorted : (x : ℕ) (xs : List ℕ) → IsSorted xs → IsSorted (insert_sorted x xs)
unfolding insert_sorted
insert_sorted-IsSorted x [] s = (tt, tt)
insert_sorted-IsSorted x (y ∷ ys) s = elim (Bool-cases (leb x y)) [
  | inl e ↦ rw e ((leb→le x y e, All-le_trans x y ys (leb→le x y e) s.0), s)
  | inr e ↦
      let h = not-leb→lt x y e in
      rw e (insert_sorted-All (λ z. y ≤ z) x ys (omega arith) s.0, insert_sorted-IsSorted x ys s.1)
]

pub sort-IsSorted : (xs : List ℕ) → IsSorted (sort xs)
unfolding sort
sort-IsSorted [] = tt
sort-IsSorted (x ∷ xs) = insert_sorted-IsSorted x (sort xs) (sort-IsSorted xs)

count_ge-All : (v : ℕ) (xs : List ℕ) → All (λ x. v ≤ x) xs → count_ge v xs ≡ length xs
count_ge-All v [] a = refl
count_ge-All v (x ∷ xs) a = ground (arith, count_ge-All v xs)

-- In a sorted list the i-th element has all that follow it above it.
pub count_ge_sorted :
    (xs : List ℕ) (i v : ℕ) → IsSorted xs → get_elem? xs i ≡ some v → length xs - i ≤ count_ge v xs
count_ge_sorted [] i v s h = omega arith
count_ge_sorted (x ∷ xs) zero v s h =
    let e : x ≡ v = ground arith in
    subst (λ w. length (x ∷ xs) - 0 ≤ count_ge w (x ∷ xs)) e (ground (arith, count_ge-All x xs s.0))
count_ge_sorted (x ∷ xs) (suc i) v s h = ground (arith, count_ge_sorted xs i v)

pub All_get : (P : ℕ → Type 0) (xs : List ℕ) (i v : ℕ) → All P xs → get_elem? xs i ≡ some v → P v
All_get P [] i v a h = cc
All_get P (x ∷ xs) zero v a h = let e : x ≡ v = ground arith in subst P e a.0
All_get P (x ∷ xs) (suc i) v a h = All_get P xs i v a.1 h

pub count_ge_mono : (v w : ℕ) (xs : List ℕ) → v ≤ w → count_ge w xs ≤ count_ge v xs
count_ge_mono v w [] h = omega arith
count_ge_mono v w (x ∷ xs) h = ground (arith, count_ge_mono v w xs)
