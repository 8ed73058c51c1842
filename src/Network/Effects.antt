-- ===== src/Network/Effects.antt =====
-- What a step of a node (crates/raftcore/src/lib.rs) does to votes: its role, its tally, and the votes among
-- its actions.
use ferris_ferry.Prelude.{
  ℕ, ◌≤◌, ◌≡◌, sym, ap, ◌∙◌, subst, ◌⊎◌, inl, inr, some, List, [], ◌∷◌, ◌++◌, true, Bool-cases, ltb,
  Result, ok, >>=-eq-ok, ok-injective, insert_set, arith,
}
use ferris_ferry.Types.{
  follower, candidate, NodeId, RequestVoteResponseRpc, request_vote_response, Action,
  persist_metadata,
}
use ferris_ferry.Core.State.{
  Rng, RaftCore, is_leader, begin, check_msg_term, reset_election_timeout, after_term_check,
}
use ferris_ferry.Core.Election.{vote_response, has_majority}
use ferris_ferry.Core.Node.{Input, received}
use ferris_ferry.Network.Ballots.{ballots, ballots-append}

-- The node follows, or its role, its term and its tally are as before.
abbrev pub Follows : RaftCore → RaftCore → Type 0
Follows c c' =
    (c'.state ≡ follower)
    ⊎ ((c'.state ≡ c.state)
        × (c'.current_term ≡ c.current_term)
        × (c'.votes_received ≡ c.votes_received))

-- The four things that a step can do about votes.
pub data Effect (c : RaftCore) (input : Input) (c' : RaftCore) (b : List Action) : Type 0 where
  quiet : b ≡ [] → Follows c c' → Effect c input c' b
  stands :
      b ≡ persist_metadata c'.current_term (some c.id) ∷ []
      → c'.voted_for ≡ some c.id
      → c'.state ≡ candidate
      → c'.votes_received ≡ c.id ∷ []
      → Effect c input c' b
  grants :
      (j : NodeId)
      → b ≡ persist_metadata c'.current_term (some j) ∷ vote_response c' j true ∷ []
      → c'.voted_for ≡ some j
      → Follows c c'
      → Effect c input c' b
  counts :
      (resp : RequestVoteResponseRpc)
      → b ≡ []
      → input ≡ received (request_vote_response resp)
      → resp.vote_granted ≡ true
      → resp.term ≤ c.current_term
      → c.state ≡ candidate
      → c'.current_term ≡ c.current_term
      → c'.votes_received ≡ insert_set resp.id c.votes_received
      → (is_leader c' ≡ true → has_majority c' ≡ true)
      → Effect c input c' b

pub record NodeEffect (c : RaftCore) (input : Input) (c' : RaftCore) (actions : List Action)
    : Type 0 where
  pub id : c'.id ≡ c.id
  pub peers : c'.peers ≡ c.peers
  pub effect : Effect c input c' (ballots actions)

pub still :
    (c : RaftCore) (input : Input) (c' : RaftCore) (actions : List Action)
    → c'.id ≡ c.id
    → c'.peers ≡ c.peers
    → ballots actions ≡ []
    → Follows c c'
    → NodeEffect c input c' actions
still c input c' actions i p b f = record { id = i; peers = p; effect = quiet b f }

-- The check of a message's term.
pub begin-cases :
    (rng : Rng) (c : RaftCore) (t : ℕ) (s : RaftCore × List Action)
    → begin rng c t ≡ ok s
    → (s.0.id ≡ c.id)
      × (s.0.peers ≡ c.peers)
      × (ballots s.1 ≡ [])
      × (t ≤ s.0.current_term)
      × ((s.0 ≡ c) ⊎ (s.0.state ≡ follower))
unfolding begin check_msg_term reset_election_timeout ballots
begin-cases rng c t s e = elim (Bool-cases (ltb c.current_term t)) [
  | inl b ↦ (ground arith, ground arith, ground arith, ground arith, inr (ground arith))
  | inr b ↦ (ground arith, ground arith, ground arith, ground arith, inl (ground arith))
]

-- An effect after the node stepped down.
after_stepping_down :
    (c c₁ : RaftCore) (input : Input) (c' : RaftCore) (b : List Action)
    → c₁.id ≡ c.id
    → c₁.state ≡ follower
    → Effect c₁ input c' b
    → Effect c input c' b
after_stepping_down c c₁ input c' b i s (quiet e (inl f)) = quiet e (inl f)
after_stepping_down c c₁ input c' b i s (quiet e (inr f)) = quiet e (inl (f.0 ∙ s))
after_stepping_down c c₁ input c' b i s (stands e v st t) =
    subst (λ x. Effect (record c { id = x }) input c' b) i (stands e v st t)
after_stepping_down c c₁ input c' b i s (grants j e v (inl f)) = grants j e v (inl f)
after_stepping_down c c₁ input c' b i s (grants j e v (inr f)) = grants j e v (inl (f.0 ∙ s))
after_stepping_down c c₁ input c' b i s (counts resp e p g l st t v m) = absurd (cc)

pub after_term_check-Effect :
    (rng : Rng) (c : RaftCore) (t : ℕ) (input : Input)
    (body : RaftCore → Result (RaftCore × List Action)) (r : RaftCore × List Action)
    → ((c₁ : RaftCore) (s : RaftCore × List Action)
        → t ≤ c₁.current_term
        → body c₁ ≡ ok s
        → NodeEffect c₁ input s.0 s.1)
    → after_term_check rng c t body ≡ ok r
    → NodeEffect c input r.0 r.1
unfolding after_term_check
after_term_check-Effect rng c t input body r rest h =
    let (s, p, q) = >>=-eq-ok (begin rng c t) _ h in
    let (s', p', q') = >>=-eq-ok (body s.0) _ q in
    let (i, ps, b, l, kind) = begin-cases rng c t s p in
    let n = rest s.0 s' l p' in
    let same : ballots (s.1 ++ s'.1) ≡ ballots s'.1 =
      ballots-append s.1 s'.1 ∙ ap (λ x. x ++ ballots s'.1) b in
    subst (λ (x : RaftCore × List Action). NodeEffect c input x.0 x.1) (ok-injective q')
      (record {
        id = n.id ∙ i;
        peers = n.peers ∙ ps;
        effect = subst (Effect c input s'.0) (sym same) (elim kind [
          | inl e ↦ subst (λ x. Effect x input s'.0 (ballots s'.1)) e n.effect
          | inr e ↦ after_stepping_down c s.0 input s'.0 (ballots s'.1) i e n.effect
        ]);
      })
