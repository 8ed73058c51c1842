-- ===== src/Network/Election.antt =====
-- Elections of crates/raftcore/src/lib.rs in a cluster.
use ferris_ferry.Prelude.{
  eq-of_==, ℕ, ◌+◌, ◌*◌, ◌/◌, ◌≤◌, ◌<◌, ◌≡◌, refl, sym, ap, ◌∙◌, subst, inl, inr, Option, some,
  List, [], ◌∷◌, true, false, ◌==◌, Bool-cases, All, length, map, ok, u64_mod, wadd, lookup,
  contains, arith,
}
use ferris_ferry.Types.{
  follower, NodeId, request_vote_response, Action, send_message, persist_metadata,
}
use ferris_ferry.Core.State.{Range, Rng, RaftCore, new, random_range, other_nodes, is_leader}
use ferris_ferry.Core.Election.{has_majority}
use ferris_ferry.Network.{Network, Did, NetStep, acts, restarts, NetReach, here, next}
use ferris_ferry.Network.Ballots.{In-append_right}
use ferris_ferry.Network.Quorum.{Distinct, Within, shared_node, All-contains}
use ferris_ferry.Network.Invariant.{Voted, Sound}
use ferris_ferry.Network.Keeps.{NetReach-Sound}

-- `RaftCore::new` has made the node, for one of the members.
abbrev pub Begins : List NodeId → NodeId → RaftCore → Type 0
Begins members i c =
    (contains i members ≡ true)
    × (rng : Rng) × (interval : Option ℕ) × (range : Range) × (new rng i members interval range
        ≡ ok c)

-- A cluster of new nodes that have done nothing.
pub record Starts (members : List NodeId) (n : Network) : Type 0 where
  pub begun : All (λ (p : NodeId × RaftCore). Begins members p.0 p.1) n.nodes
  pub silent : n.history ≡ []

lookup-Begins :
    (members : List NodeId) (i : NodeId) (c : RaftCore) (nodes : List (NodeId × RaftCore))
    → All (λ (p : NodeId × RaftCore). Begins members p.0 p.1) nodes
    → lookup i nodes ≡ some c
    → Begins members i c
unfolding lookup
lookup-Begins members i c [] h e = absurd (cc)
lookup-Begins members i c ((j, d) ∷ nodes) h e = elim (Bool-cases (j == i)) [
  | inl k ↦
      subst (λ x. Begins members x c) (eq-of_== j i k)
        (subst (Begins members j) (ground (arith, k, e)) h.0)
  | inr k ↦ lookup-Begins members i c nodes h.1 (ground (arith, k, e))
]

new-fields :
    (members : List NodeId) (i : NodeId) (c : RaftCore)
    → Begins members i c
    → (c.id ≡ i)
      × (c.peers ≡ other_nodes i members)
      × (contains i members ≡ true)
      × (c.state ≡ follower)
unfolding new random_range
new-fields members i c (m, rng, interval, range, e) = (ground arith, ground arith, m, ground arith)

Starts-Sound : (members : List NodeId) (n : Network) → Starts members n → Sound members n
Starts-Sound members n s = record {
  identity = λ i c l. let (a, b, d, e) = fields i c l in (a, b, d);
  recorded = λ i t v h. absurd (nothing i (persist_metadata t (some v)) h);
  unique = λ i t v w h k. absurd (nothing i (persist_metadata t (some v)) h);
  answered = λ i j resp h g. absurd (nothing i (send_message j (request_vote_response resp)) h);
  tally = λ i c l. inl (fields i c l).3;
}
  where
    fields :
        (i : NodeId) (c : RaftCore)
        → lookup i n.nodes ≡ some c
        → (c.id ≡ i)
          × (c.peers ≡ other_nodes i members)
          × (contains i members ≡ true)
          × (c.state ≡ follower)
    fields i c l = new-fields members i c (lookup-Begins members i c n.nodes s.begun l)

    nothing : (i : NodeId) (a : Action) → Did n.history i a → ⊥
    nothing i a h = subst (λ x. Did x i a) s.silent h

-- The history only grows.
NetReach-Did :
    (members : List NodeId) (n n' : Network) (i : NodeId) (a : Action)
    → NetReach members n n'
    → Did n.history i a
    → Did n'.history i a
NetReach-Did members n n' i a here h = h
NetReach-Did members n n' i a (next {n₁} {n₂} r t) h =
    later n₁ n₂ t (NetReach-Did members n n₁ i a r h)
  where
    later : (x y : Network) → NetStep members x y → Did x.history i a → Did y.history i a
    later x y (acts id c c' rng input actions l w u b e q) d =
        subst (λ z. Did z.history i a) (sym q)
          (In-append_right (i, a) (map (λ b. (id, b)) actions) x.history d)
    later x y (restarts id c c' rng interval range l e q) d =
        subst (λ z. Did z.history i a) (sym q) d

missing-length :
    (id : NodeId) (m : List NodeId) → contains id m ≡ false → length (other_nodes id m) ≡ length m
unfolding contains other_nodes
missing-length id [] h = refl
missing-length id (x ∷ xs) h = ground (arith, missing-length id xs)

others-length :
    (id : NodeId) (m : List NodeId)
    → Distinct m
    → (length m ≤ length (other_nodes id m) + 1) × (length (other_nodes id m) ≤ length m)
unfolding other_nodes
others-length id [] d = omega arith
others-length id (x ∷ xs) d = elim (Bool-cases (x == id)) [
  | inl e ↦
      (let n : contains id xs ≡ false = ground (arith, e, d.0) in
        ground (arith, e, missing-length id xs n))
  | inr e ↦ (let h = others-length id xs d.1 in ground (arith, e, h.0, h.1))
]

-- The votes of a leader: more than half of the members, each of which gave it its vote in its term.
record Elected (members : List NodeId) (n : Network) (i : NodeId) (t : ℕ) : Type 0 where
  voters : List NodeId
  distinct : Distinct voters
  within : Within members voters
  voted : All (λ x. Voted n.history x t i) voters
  majority : length members < 2 * length voters

majority-length :
    (members : List NodeId) (c : RaftCore)
    → Distinct members
    → length members + 1 < u64_mod
    → c.peers ≡ other_nodes c.id members
    → has_majority c ≡ true
    → length members < 2 * length c.votes_received
unfolding has_majority wadd
majority-length members c d b p h =
    let o = others-length c.id members d in
    let peers : length c.peers ≡ length (other_nodes c.id members) = ap length p in
    let m : wadd (length c.peers) 1 / 2 < length c.votes_received = ground (arith, h) in
    omega (arith, o.0, o.1, m, peers)

leader-Elected :
    (members : List NodeId) (n : Network) (i : NodeId) (c : RaftCore)
    → Distinct members
    → length members + 1 < u64_mod
    → Sound members n
    → lookup i n.nodes ≡ some c
    → is_leader c ≡ true
    → Elected members n i c.current_term
leader-Elected members n i c d b s l e = elim (s.tally i c l) [
  | inl f ↦ absurd (not_both c f e)
  | inr t ↦
      (let (own, peers, m) = s.identity i c l in
        let given =
          subst (λ x. All (λ y. Voted n.history y c.current_term x) c.votes_received) own t.given in
        record {
          voters = c.votes_received;
          distinct = t.distinct;
          within = known c.votes_received given;
          voted = given;
          majority =
              majority-length members c d b (peers ∙ ap (λ x. other_nodes x members) (sym own))
                (t.majority e);
        })
]
  where
    not_both : (x : RaftCore) → x.state ≡ follower → is_leader x ≡ true → ⊥
    not_both x f g = absurd (ground (arith, f, g))

    known :
        (voters : List NodeId)
        → All (λ y. Voted n.history y c.current_term i) voters
        → Within members voters
    known [] h = tt
    known (x ∷ xs) h =
        let (x', k, a, w) = s.recorded x c.current_term i h.0 in
        ((s.identity x x' k).2, known xs h.1)

-- In a cluster of fewer than 2^64 - 1 different nodes that start anew, however messages are lost, repeated,
-- delayed and reordered and however nodes restart with their term, vote and log, as long as no answer to a
-- request for a vote arrives after its receiver has moved on to a later term, and no node that is asked or
-- told something is in the last of the 2^64 terms, a term has one leader: nodes that are leaders in the same
-- term, at any two moments, are the same node.
pub one_leader :
    (members : List NodeId) (n₀ n₁ n₂ : Network) (i j : NodeId) (c d : RaftCore)
    → Distinct members
    → length members + 1 < u64_mod
    → Starts members n₀
    → NetReach members n₀ n₁
    → NetReach members n₁ n₂
    → lookup i n₁.nodes ≡ some c
    → lookup j n₂.nodes ≡ some d
    → is_leader c ≡ true
    → is_leader d ≡ true
    → c.current_term ≡ d.current_term
    → i ≡ j
one_leader members n₀ n₁ n₂ i j c d m b s r r' l l' e e' t =
    let s₁ = NetReach-Sound members n₀ n₁ r (Starts-Sound members n₀ s) in
    let s₂ = NetReach-Sound members n₁ n₂ r' s₁ in
    let p = leader-Elected members n₁ i c m b s₁ l e in
    let q = leader-Elected members n₂ j d m b s₂ l' e' in
    let (z, x, y) =
      shared_node p.voters q.voters members p.distinct q.distinct p.within q.within
        (omega (arith, p.majority, q.majority)) in
    let v =
      NetReach-Did members n₁ n₂ z (persist_metadata c.current_term (some i)) r'
        (All-contains (λ k. Voted n₁.history k c.current_term i) z p.voters x p.voted) in
    let w =
      subst (λ k. Voted n₂.history z k j) (sym t)
        (All-contains (λ k. Voted n₂.history k d.current_term j) z q.voters y q.voted) in
    s₂.unique z c.current_term i j v w
