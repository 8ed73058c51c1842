-- ===== src/Network/Keeps.antt =====
-- A step of the network keeps what is known of votes.
use ferris_ferry.Prelude.{
  ℕ, ◌+◌, ◌<◌, ◌≡◌, refl, sym, ◌∙◌, subst, ◌⊎◌, inl, inr, Option, some, List, [], ◌∷◌, ◌++◌, true,
  All, map, ok, u64_mod, lookup, insert, contains, insert_set, arith,
}
use ferris_ferry.Types.{
  follower, candidate, NodeId, RequestVoteResponseRpc, request_vote_response, Action, send_message,
  persist_metadata,
}
use ferris_ferry.Core.State.{
  Range, Rng, RaftCore, new, restore, restore_with_snapshot, random_range, other_nodes, is_leader,
}
use ferris_ferry.Core.Election.{has_majority}
use ferris_ferry.Core.Node.{Input, step}
use ferris_ferry.Core.Node.Votes.{step-KeepsVote}
use ferris_ferry.Network.{
  Network, Did, WasSent, IsTimely, NetStep, acts, restarts, NetReach, here, next,
}
use ferris_ferry.Network.Ballots.{In, In-append_left, In-append_right, ballots, In-ballots}
use ferris_ferry.Network.Effects.{Follows, Effect, quiet, stands, grants, counts, NodeEffect}
use ferris_ferry.Network.Standing.{majority_same}
use ferris_ferry.Network.Steps.{step-Effect}
use ferris_ferry.Network.Quorum.{Distinct, Distinct-insert_set, All-insert_set}
use ferris_ferry.Network.Invariant.{
  Voted, Tally, Sound, In-actions, actions-In, of_ballots, Effect-wrote, Effect-answered,
}
use ferris_ferry.Network.Change.{Tally-later, Change-Sound}

-- What a step adds to the history, where the node that took it is among its actions.
step_wrote :
    (id : NodeId) (c : RaftCore) (input : Input) (c' : RaftCore) (actions : List Action)
    (i : NodeId) (t v : ℕ)
    → NodeEffect c input c' actions
    → Voted (map (λ a. (id, a)) actions) i t v
    → (i ≡ id) × (t ≡ c'.current_term) × (c'.voted_for ≡ some v)
step_wrote id c input c' actions i t v n h =
    let (e, m) = In-actions i id (persist_metadata t (some v)) actions h in
    let (u, w) =
      Effect-wrote c input c' (ballots actions) t v n.effect
        (In-ballots (persist_metadata t (some v)) actions refl m) in
    (e, u, w)

step_told :
    (id : NodeId) (c : RaftCore) (input : Input) (c' : RaftCore) (actions : List Action)
    (i j : NodeId) (resp : RequestVoteResponseRpc)
    → NodeEffect c input c' actions
    → c'.id ≡ id
    → Did (map (λ a. (id, a)) actions) i (send_message j (request_vote_response resp))
    → resp.vote_granted ≡ true
    → (resp.id ≡ i) × Voted (map (λ a. (id, a)) actions) i resp.term j
step_told id c input c' actions i j resp n k h y =
    let (e, m) = In-actions i id (send_message j (request_vote_response resp)) actions h in
    let (u, w) =
      Effect-answered c input c' (ballots actions) j resp n.effect
        (In-ballots (send_message j (request_vote_response resp)) actions y m) in
    (
      u ∙ k ∙ sym e,
      subst (λ x. Voted (map (λ a. (id, a)) actions) x resp.term j) (sym e)
          (actions-In id _ actions (of_ballots _ actions w)),
    )

-- A node that follows its old role keeps a right tally.
follow-Tally :
    (new old : List (NodeId × Action)) (c c' : RaftCore)
    → c'.id ≡ c.id
    → c'.peers ≡ c.peers
    → Follows c c'
    → (c.state ≡ follower) ⊎ Tally old c
    → (c'.state ≡ follower) ⊎ Tally (new ++ old) c'
follow-Tally new old c c' i p (inl f) t = inl f
follow-Tally new old c c' i p (inr (s, u, w)) (inl f) = inl (s ∙ f)
follow-Tally new old c c' i p (inr (s, u, w)) (inr t) =
    let later = Tally-later new old c t in
    let given' : All (λ x. Voted (new ++ old) x c'.current_term c'.id) c'.votes_received =
      rw (u, i, w) later.given in
    inr (record {
      given = given';
      distinct = subst Distinct (sym w) t.distinct;
      majority = λ e. majority_same c' c p w ∙ t.majority (ground (arith, s, e));
    })

stand-Tally :
    (id : NodeId) (c c' : RaftCore) (actions : List Action) (old : List (NodeId × Action))
    → c.id ≡ id
    → c'.id ≡ c.id
    → ballots actions ≡ persist_metadata c'.current_term (some c.id) ∷ []
    → c'.state ≡ candidate
    → c'.votes_received ≡ c.id ∷ []
    → Tally (map (λ a. (id, a)) actions ++ old) c'
unfolding contains
stand-Tally id c c' actions old k i b s v =
    let own : In (persist_metadata c'.current_term (some c.id)) actions =
      of_ballots _ actions
        (subst (In (persist_metadata c'.current_term (some c.id))) (sym b) (inl refl)) in
    let vote : Voted (map (λ a. (id, a)) actions ++ old) c.id c'.current_term c'.id =
      rw (i, k)
        (In-append_left _ (map (λ a. (id, a)) actions) old
          (rw k at (actions-In id _ actions own))) in
    record {
      given = rw v (vote, tt);
      distinct = rw v (refl, tt);
      majority = λ e. absurd (no_leader c' s e);
    }
  where
    no_leader : (x : RaftCore) → x.state ≡ candidate → is_leader x ≡ true → ⊥
    no_leader x e f = absurd (ground (arith, e, f))

-- A vote that is counted in its term.
count-Tally :
    (new old : List (NodeId × Action)) (c c' : RaftCore) (resp : RequestVoteResponseRpc)
    → c'.id ≡ c.id
    → c'.current_term ≡ c.current_term
    → c'.votes_received ≡ insert_set resp.id c.votes_received
    → (is_leader c' ≡ true → has_majority c' ≡ true)
    → Voted old resp.id c.current_term c.id
    → Tally old c
    → Tally (new ++ old) c'
count-Tally new old c c' resp i u v m h t =
    let later = Tally-later new old c t in
    let P = λ (x : ℕ). Voted (new ++ old) x c.current_term c.id in
    let all : All P (insert_set resp.id c.votes_received) =
      All-insert_set P resp.id c.votes_received (In-append_right _ new old h) later.given in
    record {
      given = rw (u, i, v) all;
      distinct = subst Distinct (sym v) (Distinct-insert_set resp.id c.votes_received t.distinct);
      majority = m;
    }

step-Tally :
    (members : List NodeId) (n : Network) (id : NodeId) (c : RaftCore) (input : Input)
    (c' : RaftCore) (actions : List Action)
    → Sound members n
    → lookup id n.nodes ≡ some c
    → WasSent n id input
    → IsTimely c input
    → c'.id ≡ c.id
    → c'.peers ≡ c.peers
    → Effect c input c' (ballots actions)
    → (c'.state ≡ follower) ⊎ Tally (map (λ a. (id, a)) actions ++ n.history) c'
step-Tally members n id c input c' actions s l w y i p (quiet b f) =
    follow-Tally _ n.history c c' i p f (s.tally id c l)
step-Tally members n id c input c' actions s l w y i p (grants j b v f) =
    follow-Tally _ n.history c c' i p f (s.tally id c l)
step-Tally members n id c input c' actions s l w y i p (stands b v st r) =
    inr (stand-Tally id c c' actions n.history (s.identity id c l).0 i b st r)
step-Tally members n id c input c' actions s l w y i p (counts resp b e g le st u r m) =
    let (from, sent) = subst (WasSent n id) e w in
    let timely = subst (IsTimely c) e y in
    let (k, vote) = s.answered from id resp sent g in
    let own = (s.identity id c l).0 in
    let same : resp.term ≡ c.current_term = omega (arith, le, timely) in
    let vote' : Voted n.history resp.id c.current_term c.id =
      subst (λ x. Voted n.history resp.id x c.id) same (rw (k, own) vote) in
    elim (s.tally id c l) [
      | inl f ↦ absurd (cc)
      | inr t ↦ inr (count-Tally _ n.history c c' resp i u r m vote' t)
    ]

acts-Sound :
    (members : List NodeId) (n : Network) (id : NodeId) (c : RaftCore) (rng : Rng) (input : Input)
    (c' : RaftCore) (actions : List Action)
    → Sound members n
    → lookup id n.nodes ≡ some c
    → WasSent n id input
    → IsTimely c input
    → c.current_term + 1 < u64_mod
    → step rng c input ≡ ok (c', actions)
    → Sound members
        (record { nodes = insert id c' n.nodes; history = map (λ a. (id, a)) actions ++ n.history })
acts-Sound members n id c rng input c' actions s l w y b e =
    let f = step-Effect rng c input (c', actions) e in
    let own = (s.identity id c l).0 in
    Change-Sound members n id c c' (map (λ a. (id, a)) actions) s (record {
      found = l;
      same_id = f.id;
      same_peers = f.peers;
      keeps = step-KeepsVote rng c input (c', actions) b e;
      wrote = λ i t v h. step_wrote id c input c' actions i t v f h;
      told = λ i j resp h g. step_told id c input c' actions i j resp f (f.id ∙ own) h g;
      tallies = step-Tally members n id c input c' actions s l w y f.id f.peers f.effect;
    })

restarts-Sound :
    (members : List NodeId) (n : Network) (id : NodeId) (c c' : RaftCore) (rng : Rng)
    (interval : Option ℕ) (range : Range)
    → Sound members n
    → lookup id n.nodes ≡ some c
    → restore_with_snapshot rng id members interval range c.current_term c.voted_for c.log
        c.last_included_index c.last_included_term
      ≡ ok c'
    → Sound members (record { nodes = insert id c' n.nodes; history = n.history })
restarts-Sound members n id c c' rng interval range s l e =
    let (own, peers, m) = s.identity id c l in
    let (i, p, t, v, f) = restored in
    Change-Sound members n id c c' [] s (record {
      found = l;
      same_id = i ∙ sym own;
      same_peers = p ∙ sym peers;
      keeps = record { term_le = omega (arith, t); vote = λ w x h. v ∙ h };
      wrote = λ j u w h. absurd h;
      told = λ j k resp h g. absurd h;
      tallies = inl f;
    })
  where
    restored :
        (c'.id ≡ id)
        × (c'.peers ≡ other_nodes id members)
        × (c'.current_term ≡ c.current_term)
        × (c'.voted_for ≡ c.voted_for)
        × (c'.state ≡ follower)
    restored = unfold restore_with_snapshot restore new random_range in ground arith

NetStep-Sound :
    (members : List NodeId) (n n' : Network)
    → NetStep members n n'
    → Sound members n
    → Sound members n'
NetStep-Sound members n n' (acts id c c' rng input actions l w y b e r) s =
    subst (Sound members) (sym r) (acts-Sound members n id c rng input c' actions s l w y b e)
NetStep-Sound members n n' (restarts id c c' rng interval range l e r) s =
    subst (Sound members) (sym r) (restarts-Sound members n id c c' rng interval range s l e)

pub NetReach-Sound :
    (members : List NodeId) (n n' : Network)
    → NetReach members n n'
    → Sound members n
    → Sound members n'
NetReach-Sound members n n' here s = s
NetReach-Sound members n n' (next {n₁} {n₂} r t) s =
    NetStep-Sound members n₁ n₂ t (NetReach-Sound members n n₁ r s)
