-- ===== src/Core/Append/Conflict.antt =====
-- The search for the conflicting term in `handle_append_entries` of crates/raftcore/src/lib.rs.
use ferris_ferry.Prelude.{
  ℕ, zero, suc, ◌-◌, ◌≤◌, ◌<◌, ◌≡◌, ◌≢◌, ap, ◌∙◌, Option, none, some, Bool-cases, inl, inr,
  unwrap_or, ◌==◌, wadd, wadd-eq-add, u64_mod, arith, subst, dec_lt,
}
use ferris_ferry.Core.State.{RaftCore}
use ferris_ferry.Core.Log.{log_term_at}
use ferris_ferry.Core.Append.{find_conflict}

-- The term of an index, 0 where the log has none.
abbrev pub term_or_0 : RaftCore → ℕ → ℕ
term_or_0 c i = unwrap_or (log_term_at c i) 0

-- What the answer says about the indices below `n`.
abbrev pub FirstOfTerm : RaftCore → ℕ → ℕ → Option ℕ → Type 0
FirstOfTerm c t n none = (i : ℕ) → i < n → term_or_0 c i ≡ t
FirstOfTerm c t n (some k) =
    (0 < k) × (k ≤ n) × (term_or_0 c (k - 1) ≢ t) × ((i : ℕ) → k ≤ i → i < n → term_or_0 c i ≡ t)

extend :
    (c : RaftCore) (t n : ℕ) (o : Option ℕ)
    → term_or_0 c n ≡ t
    → FirstOfTerm c t n o
    → FirstOfTerm c t (suc n) o
extend c t n none h f = λ i below. elim (dec_lt i n) [
  | yes l ↦ f i l
  | no g ↦ ap (term_or_0 c) {x = i} {y = n} (omega arith) ∙ h
]
extend c t n (some k) h (pos, le, other, same) = (
  pos,
  omega arith,
  other,
  λ i from below. elim (dec_lt i n) [
    | yes l ↦ same i from l
    | no g ↦ ap (term_or_0 c) {x = i} {y = n} (omega arith) ∙ h
  ],
)

-- The index that a follower answers with is the first of the run of indices right below the rejected one
-- whose terms are the conflicting term: from it on all have that term, and the one before it has another.
-- There is no answer only if all the indices below have that term.
pub find_conflict-FirstOfTerm :
    (c : RaftCore) (t n : ℕ) → n < u64_mod → FirstOfTerm c t n (find_conflict c t n)
unfolding find_conflict
find_conflict-FirstOfTerm c t zero h = λ i below. absurd (omega arith)
find_conflict-FirstOfTerm c t (suc n) h = elim (Bool-cases (term_or_0 c n == t)) [
  | inl e ↦ rw e (
      extend c t n (find_conflict c t n) (ground arith)
        (find_conflict-FirstOfTerm c t n (omega arith)))
  | inr e ↦ rw e (
      subst (λ (k : ℕ). FirstOfTerm c t (suc n) (some k)) {x = suc n} {y = wadd n 1}
        (omega (arith, wadd-eq-add n 1))
        (omega arith, omega arith, λ same. ground arith, λ i from below. absurd (omega arith)))
]
