-- ===== src/Core/State/Rules.antt =====
-- Rules for the handlers of crates/raftcore/src/lib.rs, which all begin by `check_msg_term`.
use ferris_ferry.Prelude.{
  ℕ, ◌<◌, ◌≡◌, refl, Bool-cases, inl, inr, none, List, [], ◌∷◌, ◌++◌, ltb, lt→ltb, if◌then◌else◌,
  Result, ok, ◌>>=◌, arith, Returns, ◌∙◌, >>=-eq-ok,
}
use ferris_ferry.Types.{follower, Action, persist_metadata}
use ferris_ferry.Core.State.{
  Rng, RaftCore, reset_election_timeout, begin, check_msg_term, after_term_check,
}

-- A relation between the states before and after, kept by both parts of a handler.
module _ (R : RaftCore → RaftCore → Type 0)
    (R-trans : (a b c : RaftCore) → R a b → R b c → R a c) where
  pub after_term_check-rule :
      (rng : Rng) (c : RaftCore) (t : ℕ) (body : RaftCore → Result (RaftCore × List Action))
      {r : RaftCore × List Action}
      → ((s : RaftCore × List Action) → begin rng c t ≡ ok s → R c s.0)
      → ((c' : RaftCore) (s : RaftCore × List Action) → body c' ≡ ok s → R c' s.0)
      → after_term_check rng c t body ≡ ok r
      → R c r.0
  unfolding after_term_check
  after_term_check-rule rng c t body first rest h =
      let (s, p, q) = >>=-eq-ok (begin rng c t) _ h in
      let (s', p', q') = >>=-eq-ok (body s.0) _ q in
      R-trans c s.0 _ (first s p) (ground (arith, rest s.0 s' p', q'))

-- `election_timeout_range` is not empty, so a draw does not panic.
abbrev pub HasRange : RaftCore → Type 0
HasRange c = c.election_timeout_range.start < c.election_timeout_range.end

abbrev pub with_timeout : Rng → ℕ → RaftCore → RaftCore
with_timeout rng n c = record c {
  ticks_since_last_heartbeat = 0;
  election_timeout = rng n c.election_timeout_range.start c.election_timeout_range.end;
}

pub reset_election_timeout-eq :
    (rng : Rng) (n : ℕ) (c : RaftCore)
    → HasRange c
    → reset_election_timeout rng n c ≡ ok (with_timeout rng n c)
unfolding reset_election_timeout
reset_election_timeout-eq rng n c h = rw (lt→ltb _ _ h) refl

-- The state after the check of a message's term, and the actions of the check.
unfoldable pub checked : Rng → RaftCore → ℕ → RaftCore
checked rng c t =
    if ltb c.current_term t
    then record (with_timeout rng 0 c) {
      current_term = t;
      state = follower;
      voted_for = none;
      read_barriers = [];
      current_leader = none;
    }
    else c

unfoldable pub check_actions : RaftCore → ℕ → List Action
check_actions c t = if ltb c.current_term t then persist_metadata t none ∷ [] else []

begin-eq :
    (rng : Rng) (c : RaftCore) (t : ℕ)
    → HasRange c
    → begin rng c t ≡ ok (checked rng c t, check_actions c t)
unfolding begin check_msg_term checked check_actions
begin-eq rng c t h = ground arith

pub after_term_check-eq :
    (rng : Rng) (c : RaftCore) (t : ℕ) (body : RaftCore → Result (RaftCore × List Action))
    → HasRange c
    → after_term_check rng c t body
      ≡ (body (checked rng c t) >>= λ rest. ok (rest.0, check_actions c t ++ rest.1))
unfolding after_term_check
after_term_check-eq rng c t body h = rw (begin-eq rng c t h) refl

-- A handler returns with `P` of its state if its body does.
pub after_term_check-Returns :
    (P : RaftCore → Type 0) (rng : Rng) (c : RaftCore) (t : ℕ)
    (body : RaftCore → Result (RaftCore × List Action))
    → HasRange c
    → Returns (body (checked rng c t)) (λ r. P r.0)
    → Returns (after_term_check rng c t body) (λ r. P r.0)
after_term_check-Returns P rng c t body h k =
    let (r, e, p) = k in
    ((r.0, check_actions c t ++ r.1), after_term_check-eq rng c t body h ∙ rw e refl, p)

-- What holds of a node, and of it in a new term, holds after the check of a message's term.
pub checked-cases :
    (P : RaftCore → Type 0) (rng : Rng) (c : RaftCore) (t : ℕ)
    → P c
    → P (record (with_timeout rng 0 c) {
      current_term = t;
      state = follower;
      voted_for = none;
      read_barriers = [];
      current_leader = none;
    })
    → P (checked rng c t)
unfolding checked
checked-cases P rng c t h k = elim (Bool-cases (ltb c.current_term t)) [
  | inl e ↦ rw e k
  | inr e ↦ rw e h
]
