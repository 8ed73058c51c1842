-- ===== src/Network/Quorum.antt =====
-- Two majorities of one set of nodes share a node.
use ferris_ferry.Prelude.{
  eq-of_==, ℕ, ◌+◌, ◌≤◌, ◌<◌, ◌≡◌, ap, ◌∙◌, subst, inl, inr, List, [], ◌∷◌, true, false, ◌==◌,
  if◌then◌else◌, Bool-cases, All, length, contains, insert_set, arith,
}

-- A list without repetition.
abbrev pub Distinct : List ℕ → Type 0
Distinct [] = Unit
Distinct (x ∷ xs) = (contains x xs ≡ false) × Distinct xs

-- Every element is one of `m`.
abbrev pub Within : List ℕ → List ℕ → Type 0
Within m = All (λ x. contains x m ≡ true)

-- Without the first occurrence of `x`.
erase : ℕ → List ℕ → List ℕ
erase x [] = []
erase x (y ∷ ys) = if y == x then ys else y ∷ erase x ys

length-erase : (x : ℕ) (ys : List ℕ) → contains x ys ≡ true → length ys ≡ length (erase x ys) + 1
unfolding erase contains
length-erase x [] h = cc
length-erase x (y ∷ ys) h = ground (arith, length-erase x ys)

contains-erase :
    (x z : ℕ) (ys : List ℕ)
    → (z == x) ≡ false
    → contains z ys ≡ true
    → contains z (erase x ys) ≡ true
unfolding erase contains
contains-erase x z [] n h = h
contains-erase x z (y ∷ ys) n h = ground (arith, contains-erase x z ys)

Within-erase : (x : ℕ) (zs m : List ℕ) → contains x zs ≡ false → Within m zs → Within (erase x m) zs
unfolding contains
Within-erase x [] m n h = tt
Within-erase x (z ∷ zs) m n h =
    (contains-erase x z m (ground arith) h.0, Within-erase x zs m (ground arith) h.1)

pub Distinct-length : (xs m : List ℕ) → Distinct xs → Within m xs → length xs ≤ length m
Distinct-length [] m d w = omega arith
Distinct-length (x ∷ xs) m d w =
    omega (
      arith,
      length-erase x m w.0,
      Distinct-length xs (erase x m) d.1 (Within-erase x xs m d.0 w.1),
    )

shared_here :
    (x : ℕ) (xs ys : List ℕ)
    → contains x ys ≡ true
    → (contains x (x ∷ xs) ≡ true) × (contains x ys ≡ true)
unfolding contains
shared_here x xs ys h = (ground arith, h)

-- A node of `xs` and of `x ∷ ys` is not `x` where `x` is none of `xs`.
shared_later :
    (x z : ℕ) (xs ys : List ℕ)
    → contains x xs ≡ false
    → contains z xs ≡ true
    → contains z (x ∷ ys) ≡ true
    → (contains z (x ∷ xs) ≡ true) × (contains z ys ≡ true)
unfolding contains
shared_later x z xs ys n h k = elim (Bool-cases (x == z)) [
  | inl e ↦ absurd (differ (ap (λ w. contains w xs) (eq-of_== x z e) ∙ h))
  | inr e ↦ (ground arith, ground arith)
]
  where
    differ : contains x xs ≡ true → ⊥
    differ e = cc

pub shared_node :
    (xs ys m : List ℕ)
    → Distinct xs
    → Distinct ys
    → Within m xs
    → Within m ys
    → length m < length xs + length ys
    → (z : ℕ) × (contains z xs ≡ true) × (contains z ys ≡ true)
shared_node [] ys m d e w v h = absurd (omega (arith, Distinct-length ys m e v))
shared_node (x ∷ xs) ys m d e w v h = elim (Bool-cases (contains x ys)) [
  | inl both ↦ (let r = shared_here x xs ys both in (x, r.0, r.1))
  | inr alone ↦
      (let (z, p, q) = shared_node xs (x ∷ ys) m d.1 (alone, e) w.1 (w.0, v) (omega arith) in
        let r = shared_later x z xs ys d.0 p q in (z, r.0, r.1))
]

pub Distinct-insert_set : (x : ℕ) (xs : List ℕ) → Distinct xs → Distinct (insert_set x xs)
unfolding insert_set
Distinct-insert_set x xs d = elim (Bool-cases (contains x xs)) [
  | inl e ↦ rw e d
  | inr e ↦ rw e (e, d)
]

pub All-insert_set {κ} :
    (P : ℕ → Type κ) (x : ℕ) (xs : List ℕ) → P x → All P xs → All P (insert_set x xs)
unfolding insert_set
All-insert_set P x xs p h = elim (Bool-cases (contains x xs)) [
  | inl e ↦ rw e h
  | inr e ↦ rw e (p, h)
]

-- What holds of all elements holds of one that is contained.
pub All-contains {κ} :
    (P : ℕ → Type κ) (x : ℕ) (xs : List ℕ) → contains x xs ≡ true → All P xs → P x
unfolding contains
All-contains P x [] h a = absurd (cc)
All-contains P x (y ∷ ys) h a = elim (Bool-cases (y == x)) [
  | inl e ↦ subst P (ground arith) a.0
  | inr e ↦ All-contains P x ys (ground arith) a.1
]
