-- ===== src/Core/Append/Agreeing.antt =====
-- What the merge of old and new entries keeps (`handle_append_entries` of crates/raftcore/src/lib.rs).
use ferris_ferry.Prelude.{
  ℕ, zero, suc, ◌+◌, ◌≤◌, ◌≡◌, ◌⊎◌, refl, ap, some, List, [], ◌∷◌, inl, inr, Bool-cases, arith,
  ◌==◌, length, get_elem?, take, ==_iff,
}
use ferris_ferry.Types.{LogEntry}
use ferris_ferry.Core.Append.Merge.{merge}

-- The first `n` old entries are of the same terms as the new entries at their places.
abbrev pub Agree : ℕ → List LogEntry → List LogEntry → Type 0
Agree zero es old = Unit
Agree (suc n) [] old = Unit
Agree (suc n) (e ∷ es) [] = Unit
Agree (suc n) (e ∷ es) (x ∷ xs) = (x.term ≡ e.term) × Agree n es xs

-- Old entries that agree with the new ones are kept.
pub take-merge :
    (n : ℕ) (es old : List LogEntry)
    → Agree n es old
    → n ≤ length old
    → take n (merge es old) ≡ take n old
unfolding merge
take-merge zero es old a h = refl
take-merge (suc n) [] old a h = refl
take-merge (suc n) (e ∷ es) [] a h = absurd (omega arith)
take-merge (suc n) (e ∷ es) (x ∷ xs) a h =
    rw ((==_iff x.term e.term).1 a.0) (ap (◌∷◌ x) (take-merge n es xs a.1 (omega arith)))

pub length-merge-ge :
    (n : ℕ) (es old : List LogEntry) → Agree n es old → n ≤ length old → n ≤ length (merge es old)
unfolding merge
length-merge-ge zero es old a h = omega arith
length-merge-ge (suc n) [] old a h = h
length-merge-ge (suc n) (e ∷ es) [] a h = absurd (omega arith)
length-merge-ge (suc n) (e ∷ es) (x ∷ xs) a h =
    rw ((==_iff x.term e.term).1 a.0) (omega (arith, length-merge-ge n es xs a.1 (omega arith)))

pub length-merge-le : (es old : List LogEntry) → length (merge es old) ≤ length old + length es
unfolding merge
length-merge-le [] old = omega arith
length-merge-le (e ∷ es) [] = omega arith
length-merge-le (e ∷ es) (x ∷ xs) = ground (arith, length-merge-le es xs)

-- Each new entry's term stands at its place afterwards.
pub merge-terms :
    (es old : List LogEntry) (k : ℕ) (e : LogEntry)
    → get_elem? es k ≡ some e
    → (x : LogEntry) × (get_elem? (merge es old) k ≡ some x) × (x.term ≡ e.term)
unfolding merge
merge-terms [] old k e h = cc
merge-terms (e ∷ es) [] k e' h = (e', h, refl)
merge-terms (e ∷ es) (x ∷ xs) zero e' h = elim (Bool-cases (x.term == e.term)) [
  | inl same ↦ rw same (x, refl, ground arith)
  | inr other ↦ rw other (e', h, refl)
]
merge-terms (e ∷ es) (x ∷ xs) (suc k) e' h = elim (Bool-cases (x.term == e.term)) [
  | inl same ↦ rw same (merge-terms es xs k e' h)
  | inr other ↦ rw other (e', h, refl)
]

-- What stands at the place of a new entry afterwards: the new entry, or the old one that was there, if new and
-- old ones are of the same terms up to and at this place.
pub merge-entry :
    (es old : List LogEntry) (k : ℕ) (e : LogEntry)
    → get_elem? es k ≡ some e
    → (x : LogEntry) × (get_elem? (merge es old) k ≡ some x)
      × ((x ≡ e) ⊎ ((get_elem? old k ≡ some x) × Agree (suc k) es old))
unfolding merge
merge-entry [] old k e h = cc
merge-entry (e ∷ es) [] k e' h = (e', h, inl refl)
merge-entry (e ∷ es) (x ∷ xs) zero e' h = elim (Bool-cases (x.term == e.term)) [
  | inl same ↦ rw same (x, refl, inr (refl, (ground arith, tt)))
  | inr other ↦ rw other (e', h, inl refl)
]
merge-entry (e ∷ es) (x ∷ xs) (suc k) e' h = elim (Bool-cases (x.term == e.term)) [
  | inl same ↦
      (let (y, p, q) = merge-entry es xs k e' h in
        rw same (y, p, elim q [ inl n ↦ inl n | inr (o, a) ↦ inr (o, (ground arith, a)) ]))
  | inr other ↦ rw other (e', h, inl refl)
]
