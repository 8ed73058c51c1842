-- ===== src/Network.antt =====
-- A cluster of nodes (`RaftCore` of crates/raftcore/src/lib.rs) over a network that loses, repeats, delays
-- and reorders messages, and the crashes and restarts of its nodes.
pub mod Ballots
pub mod Effects
pub mod Standing
pub mod Steps
pub mod Quorum
pub mod Invariant
pub mod Change
pub mod Keeps
pub mod Election
use ferris_ferry.Prelude.{
  ℕ, ◌+◌, ◌≤◌, ◌<◌, ◌≡◌, Option, some, List, ◌++◌, map, ok, u64_mod, lookup, insert,
}
use ferris_ferry.Types.{NodeId, LogEntry, Message, request_vote_response, Action, send_message}
use ferris_ferry.Core.State.{Range, Rng, RaftCore, restore_with_snapshot}
use ferris_ferry.Core.Node.{Input, received, step}
use ferris_ferry.Network.Ballots.{In}

-- The nodes by their identifiers, and every action that a node has taken, with the node.
pub record Network : Type 0 where
  pub nodes : List (NodeId × RaftCore)
  pub history : List (NodeId × Action)

-- Node `i` took the action.
abbrev pub Did : List (NodeId × Action) → NodeId → Action → Type 0
Did history i a = In {A = NodeId × Action} (i, a) history

-- An answer to a request for a vote is one that some node has sent to this node. All other inputs are
-- arbitrary.
abbrev pub WasSent : Network → NodeId → Input → Type 0
WasSent n id (received (request_vote_response resp)) =
    (from : NodeId) × Did n.history from (send_message id (request_vote_response resp))
WasSent n id _ = Unit

-- It does not arrive after its receiver has moved on to a later term.
abbrev pub IsTimely : RaftCore → Input → Type 0
IsTimely c (received (request_vote_response resp)) = c.current_term ≤ resp.term
IsTimely c _ = Unit

-- A node takes an input, or restarts with what it must not lose.
pub data NetStep (members : List NodeId) (n n' : Network) : Type 0 where
  acts :
      (id : NodeId) (c c' : RaftCore) (rng : Rng) (input : Input) (actions : List Action)
      → lookup id n.nodes ≡ some c
      → WasSent n id input
      → IsTimely c input
      → c.current_term + 1 < u64_mod
      → step rng c input ≡ ok (c', actions)
      → n' ≡ record n {
        nodes = insert id c' n.nodes;
        history = map (λ a. (id, a)) actions ++ n.history;
      }
      → NetStep members n n'
  restarts :
      (id : NodeId) (c c' : RaftCore) (rng : Rng) (interval : Option ℕ) (range : Range)
      → lookup id n.nodes ≡ some c
      → restore_with_snapshot rng id members interval range c.current_term c.voted_for c.log
          c.last_included_index c.last_included_term
        ≡ ok c'
      → n' ≡ record n { nodes = insert id c' n.nodes }
      → NetStep members n n'

pub data NetReach (members : List NodeId) (n : Network) : Network → Type 0 where
  here : NetReach members n n
  next : {n₁ n₂ : Network} → NetReach members n n₁ → NetStep members n₁ n₂ → NetReach members n n₂
