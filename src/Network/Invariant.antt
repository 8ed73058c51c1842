-- ===== src/Network/Invariant.antt =====
-- What every network of nodes of crates/raftcore/src/lib.rs keeps about votes.
use ferris_ferry.Prelude.{
  ℕ, ◌≤◌, ◌≡◌, sym, ap, subst, ◌⊎◌, inl, inr, some, List, [], ◌∷◌, Bool, true, false, if◌then◌else◌,
  All, map, lookup, contains, arith,
}
use ferris_ferry.Types.{
  follower, NodeId, RequestVoteResponseRpc, request_vote_response, Action, send_message,
  persist_metadata,
}
use ferris_ferry.Core.State.{RaftCore, other_nodes, is_leader}
use ferris_ferry.Core.Election.{has_majority}
use ferris_ferry.Core.Node.{Input}
use ferris_ferry.Network.{Network, Did}
use ferris_ferry.Network.Ballots.{In, is_ballot, ballots}
use ferris_ferry.Network.Effects.{Effect, quiet, stands, grants, counts}
use ferris_ferry.Network.Quorum.{Distinct}

-- Node `i` has written down a vote for `v` in term `t`.
abbrev pub Voted : List (NodeId × Action) → NodeId → ℕ → NodeId → Type 0
Voted history i t v = Did history i (persist_metadata t (some v))

-- The votes that a node has counted were given to it in its term, each by another node, and a leader has a
-- majority.
pub record Tally (history : List (NodeId × Action)) (c : RaftCore) : Type 0 where
  pub given : All (λ x. Voted history x c.current_term c.id) c.votes_received
  pub distinct : Distinct c.votes_received
  pub majority : is_leader c ≡ true → has_majority c ≡ true

pub record Sound (members : List NodeId) (n : Network) : Type 0 where
  pub identity :
      (i : NodeId) (c : RaftCore)
      → lookup i n.nodes ≡ some c
      → (c.id ≡ i) × (c.peers ≡ other_nodes i members) × (contains i members ≡ true)
  pub recorded :
      (i : NodeId) (t v : ℕ)
      → Voted n.history i t v
      → (c : RaftCore) × (lookup i n.nodes ≡ some c)
        × (t ≤ c.current_term)
        × (t ≡ c.current_term → c.voted_for ≡ some v)
  pub unique : (i : NodeId) (t v w : ℕ) → Voted n.history i t v → Voted n.history i t w → v ≡ w
  pub answered :
      (i j : NodeId) (resp : RequestVoteResponseRpc)
      → Did n.history i (send_message j (request_vote_response resp))
      → resp.vote_granted ≡ true
      → (resp.id ≡ i) × Voted n.history i resp.term j
  pub tally :
      (i : NodeId) (c : RaftCore)
      → lookup i n.nodes ≡ some c
      → (c.state ≡ follower) ⊎ Tally n.history c

pub In-actions :
    (i id : NodeId) (a : Action) (actions : List Action)
    → Did (map (λ x. (id, x)) actions) i a
    → (i ≡ id) × In a actions
In-actions i id a [] h = elim h [ ]
In-actions i id a (x ∷ xs) (inl e) =
    (ap (λ (p : NodeId × Action). p.0) e, inl (ap (λ (p : NodeId × Action). p.1) e))
In-actions i id a (x ∷ xs) (inr h) = let r = In-actions i id a xs h in (r.0, inr r.1)

pub actions-In :
    (id : NodeId) (a : Action) (actions : List Action)
    → In a actions
    → Did (map (λ x. (id, x)) actions) id a
actions-In id a [] h = h
actions-In id a (x ∷ xs) (inl e) = inl (ap (λ y. (id, y)) e)
actions-In id a (x ∷ xs) (inr h) = inr (actions-In id a xs h)

pub of_ballots : (a : Action) (xs : List Action) → In a (ballots xs) → In a xs
unfolding ballots
of_ballots a [] h = h
of_ballots a (x ∷ xs) h = elim (keep (is_ballot x) h) [
  | inl e ↦ inl e
  | inr m ↦ inr (of_ballots a xs m)
]
  where
    keep :
        (b : Bool) → In a (if b then x ∷ ballots xs else ballots xs) → (a ≡ x) ⊎ In a (ballots xs)
    keep true h = h
    keep false h = inr h

-- A ballot among the actions of a step.
pub Effect-wrote :
    (c : RaftCore) (input : Input) (c' : RaftCore) (b : List Action) (t v : ℕ)
    → Effect c input c' b
    → In (persist_metadata t (some v)) b
    → (t ≡ c'.current_term) × (c'.voted_for ≡ some v)
Effect-wrote c input c' b t v (quiet e f) h = absurd (subst (In (persist_metadata t (some v))) e h)
Effect-wrote c input c' b t v (counts resp e p g l s k w m) h =
    absurd (subst (In (persist_metadata t (some v))) e h)
Effect-wrote c input c' b t v (stands e u s w) h =
    elim (subst (In (persist_metadata t (some v))) e h) [
      | inl m ↦ (ground arith, ground arith)
      | inr m ↦ absurd m
    ]
Effect-wrote c input c' b t v (grants j e u f) h =
    elim (subst (In (persist_metadata t (some v))) e h) [
      | inl m ↦ (ground arith, ground arith)
      | inr (inl m) ↦ absurd (cc)
      | inr (inr m) ↦ absurd m
    ]

pub Effect-answered :
    (c : RaftCore) (input : Input) (c' : RaftCore) (b : List Action) (j : NodeId)
    (resp : RequestVoteResponseRpc)
    → Effect c input c' b
    → In (send_message j (request_vote_response resp)) b
    → (resp.id ≡ c'.id) × In (persist_metadata resp.term (some j)) b
Effect-answered c input c' b j resp (quiet e f) h =
    absurd (subst (In (send_message j (request_vote_response resp))) e h)
Effect-answered c input c' b j resp (counts r e p g l s k w m) h =
    absurd (subst (In (send_message j (request_vote_response resp))) e h)
Effect-answered c input c' b j resp (stands e u s w) h =
    elim (subst (In (send_message j (request_vote_response resp))) e h) [
      | inl m ↦ absurd (cc)
      | inr m ↦ absurd m
    ]
Effect-answered c input c' b j resp (grants k e u f) h =
    elim (subst (In (send_message j (request_vote_response resp))) e h) [
      | inl m ↦ absurd (cc)
      | inr (inl m) ↦ (
        ground arith,
        subst (In (persist_metadata resp.term (some j))) (sym e) (inl (ground arith)),
      )
      | inr (inr m) ↦ absurd m
    ]
