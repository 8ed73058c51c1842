-- ===== src/Network/Change.antt =====
-- A change of one node keeps what is known of votes.
use ferris_ferry.Prelude.{
  ℕ, ◌≤◌, ◌≡◌, sym, ap, ◌∙◌, subst, ◌⊎◌, inl, inr, some, List, [], ◌∷◌, ◌++◌, true, ◌==◌,
  Bool-cases, All, lookup, insert, lookup-insert, contains, arith,
}
use ferris_ferry.Types.{
  follower, NodeId, RequestVoteResponseRpc, request_vote_response, Action, send_message,
  persist_metadata,
}
use ferris_ferry.Core.State.{RaftCore, new, other_nodes}
use ferris_ferry.Core.Node.Votes.{KeepsVote}
use ferris_ferry.Network.{Network, Did}
use ferris_ferry.Network.Ballots.{In-append, In-append_left, In-append_right}
use ferris_ferry.Network.Invariant.{Voted, Tally, Sound}

All-map : (P Q : ℕ → Type 0) (xs : List ℕ) → ((x : ℕ) → P x → Q x) → All P xs → All Q xs
All-map P Q [] f h = tt
All-map P Q (x ∷ xs) f h = (f x h.0, All-map P Q xs f h.1)

-- A tally stays right as the history grows.
pub Tally-later :
    (new old : List (NodeId × Action)) (c : RaftCore) → Tally old c → Tally (new ++ old) c
Tally-later new old c t = record {
  given =
      All-map (λ x. Voted old x c.current_term c.id) (λ x. Voted (new ++ old) x c.current_term c.id)
        c.votes_received
        (λ x. In-append_right (x, persist_metadata c.current_term (some c.id)) new old) t.given;
  distinct = t.distinct;
  majority = t.majority;
}

-- The node under `i` after `id` became `c'`.
lookup-moved :
    (id i : NodeId) (c' d : RaftCore) (nodes : List (NodeId × RaftCore))
    → lookup i (insert id c' nodes) ≡ some d
    → ((i ≡ id) × (c' ≡ d)) ⊎ (lookup i nodes ≡ some d)
lookup-moved id i c' d nodes e = ground (arith, lookup-insert id i c' nodes)

-- A change of one node, with what it did.
pub record Change (members : List NodeId) (n : Network) (id : NodeId) (c c' : RaftCore)
    (new : List (NodeId × Action)) : Type 0 where
  pub found : lookup id n.nodes ≡ some c
  pub same_id : c'.id ≡ c.id
  pub same_peers : c'.peers ≡ c.peers
  pub keeps : KeepsVote c c'
  pub wrote :
      (i : NodeId) (t v : ℕ)
      → Voted new i t v
      → (i ≡ id) × (t ≡ c'.current_term) × (c'.voted_for ≡ some v)
  pub told :
      (i j : NodeId) (resp : RequestVoteResponseRpc)
      → Did new i (send_message j (request_vote_response resp))
      → resp.vote_granted ≡ true
      → (resp.id ≡ i) × Voted new i resp.term j
  pub tallies : (c'.state ≡ follower) ⊎ Tally (new ++ n.history) c'

module _ (members : List NodeId) (n : Network) (id : NodeId) (c c' : RaftCore)
    (new : List (NodeId × Action)) (s : Sound members n) (g : Change members n id c c' new) where
  abbrev pub after : Network
  after = record { nodes = insert id c' n.nodes; history = new ++ n.history }

  abbrev Recorded : NodeId → ℕ → ℕ → Type 0
  Recorded i t v =
      (d : RaftCore) × (lookup i (insert id c' n.nodes) ≡ some d)
      × (t ≤ d.current_term)
      × (t ≡ d.current_term → d.voted_for ≡ some v)

  recorded : (i : NodeId) (t v : ℕ) → Voted (new ++ n.history) i t v → Recorded i t v
  recorded i t v h = elim (In-append (i, persist_metadata t (some v)) new n.history h) [
    | inl m ↦
        (let (e, u, w) = g.wrote i t v m in
          (c', ground (arith, lookup-insert id i c' n.nodes, e), omega arith, λ x. w))
    | inr m ↦
        (let (d, l, b, w) = s.recorded i t v m in
          elim (Bool-cases (id == i)) [
            | inl e ↦
                (let k : d ≡ c = ground (arith, g.found, l, e) in
                  let b' : t ≤ c.current_term = subst (λ x. t ≤ x.current_term) k b in
                  let w' : t ≡ c.current_term → c.voted_for ≡ some v =
                    subst (λ x. t ≡ x.current_term → x.voted_for ≡ some v) k w in
                  (
                    c',
                    ground (arith, lookup-insert id i c' n.nodes, e),
                    omega (arith, b', g.keeps.term_le),
                    λ x.
                        g.keeps.vote v (omega (arith, x, b', g.keeps.term_le))
                          (w' (omega (arith, x, b', g.keeps.term_le))),
                  ))
            | inr e ↦ (d, ground (arith, lookup-insert id i c' n.nodes, e, l), b, w)
          ])
  ]

  one_vote :
      (i : NodeId) (t v w : ℕ) (d e : RaftCore)
      → lookup i (insert id c' n.nodes) ≡ some d
      → lookup i (insert id c' n.nodes) ≡ some e
      → t ≡ e.current_term
      → (t ≡ d.current_term → d.voted_for ≡ some v)
      → (t ≡ e.current_term → e.voted_for ≡ some w)
      → v ≡ w
  one_vote i t v w d e l k u p q =
      let x : d ≡ e = ground (arith, l, k) in
      let p' : e.voted_for ≡ some v =
        subst (λ y. t ≡ y.current_term → y.voted_for ≡ some v) x p u in
      ground (arith, p', q u)

  newly :
      (i : NodeId) (t v : ℕ)
      → Voted new i t v
      → (lookup i (insert id c' n.nodes) ≡ some c') × (t ≡ c'.current_term)
  newly i t v h =
      let (e, u, w) = g.wrote i t v h in (ground (arith, lookup-insert id i c' n.nodes, e), u)

  unique :
      (i : NodeId) (t v w : ℕ)
      → Voted (new ++ n.history) i t v
      → Voted (new ++ n.history) i t w
      → v ≡ w
  unique i t v w h k =
      let (d, l, b, p) = recorded i t v h in
      let (e, l', b', q) = recorded i t w k in
      elim (In-append (i, persist_metadata t (some w)) new n.history k) [
        | inl m ↦
            (let (a, u) = newly i t w m in
              one_vote i t v w d e l l' (u ∙ ap (λ x. x.current_term) (same_node a l')) p q)
        | inr o ↦ elim (In-append (i, persist_metadata t (some v)) new n.history h) [
          | inl m ↦
              (let (a, u) = newly i t v m in
                sym (one_vote i t w v e d l' l (u ∙ ap (λ x. x.current_term) (same_node a l)) q p))
          | inr m ↦ s.unique i t v w m o
        ]
      ]
    where
      same_node :
          {x : RaftCore}
          → lookup i (insert id c' n.nodes) ≡ some c'
          → lookup i (insert id c' n.nodes) ≡ some x
          → c' ≡ x
      same_node a b = ground (arith, a, b)

  answered :
      (i j : NodeId) (resp : RequestVoteResponseRpc)
      → Did (new ++ n.history) i (send_message j (request_vote_response resp))
      → resp.vote_granted ≡ true
      → (resp.id ≡ i) × Voted (new ++ n.history) i resp.term j
  answered i j resp h y =
      elim (In-append (i, send_message j (request_vote_response resp)) new n.history h) [
        | inl m ↦ (let (e, v) = g.told i j resp m y in (e, In-append_left _ new n.history v))
        | inr m ↦ (let (e, v) = s.answered i j resp m y in (e, In-append_right _ new n.history v))
      ]

  pub Change-Sound : Sound members after
  Change-Sound = record {
    identity = λ i d l. elim (lookup-moved id i c' d n.nodes l) [
      | inl (e, k) ↦
          (let (p, q, r) = s.identity id c g.found in
            subst
              (λ x. (x.id ≡ i) × (x.peers ≡ other_nodes i members) × (contains i members ≡ true)) k
              (subst
                (λ y.
                  (c'.id ≡ y) × (c'.peers ≡ other_nodes y members) × (contains y members ≡ true))
                (sym e) (g.same_id ∙ p, g.same_peers ∙ q, r)))
      | inr k ↦ s.identity i d k
    ];
    recorded = recorded;
    unique = unique;
    answered = answered;
    tally = λ i d l. elim (lookup-moved id i c' d n.nodes l) [
      | inl (e, k) ↦ subst (λ x. (x.state ≡ follower) ⊎ Tally (new ++ n.history) x) k g.tallies
      | inr k ↦ elim (s.tally i d k) [ inl f ↦ inl f | inr t ↦ inr (Tally-later new n.history d t) ]
    ];
  }
