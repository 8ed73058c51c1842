-- ===== src/Simulation.antt =====
-- The simulated cluster of the tests of crates/raftcore/src/lib.rs (`TestCluster`): its nodes, the messages that
-- are under way, and the nodes that are cut off. The draws of the n-th call of a method are `rngs n`.
pub mod Delivery
pub mod Refines
use ferris_ferry.Prelude.{
  ℕ, zero, suc, ◌+◌, Option, none, some, List, [], ◌∷◌, ◌++◌, Bool, true, false, not, ltb, ◌==◌,
  if◌then◌else◌, length, take, drop, Result, ok, panic, ◌>>=◌, unwrap, unwrap_or, map, map_result,
  lookup, insert, values, ◌&&◌, contains, insert_set, wsub,
}
use ferris_ferry.Types.{NodeId, Bytes, Message, Action, send_message, is_leader_state}
use ferris_ferry.Core.State.{Rng, RaftCore, new}
use ferris_ferry.Core.Replicate.{propose, append_entries_to_peers}
use ferris_ferry.Core.Election.{tick}
use ferris_ferry.Core.Node.{receive}

-- A message with its sender and its recipient.
pub record Envelope : Type 0 where
  pub sender : NodeId
  pub recipient : NodeId
  pub message : Message

pub record TestCluster : Type 0 where
  pub nodes : List (NodeId × RaftCore)
  pub pending_messages : List Envelope
  pub partitioned : List NodeId
  pub leader : Option NodeId

-- Actions by node, `HashMap<NodeId, Vec<Action>>`
abbrev pub Results : Type 0
Results = List (NodeId × List Action)

-- `for id in node_ids { nodes.insert(..) }`
unfoldable pub insert_nodes :
    (ℕ → Rng)
    → List NodeId
    → List NodeId
    → List (NodeId × RaftCore)
    → Result (List (NodeId × RaftCore))
insert_nodes rngs node_ids [] nodes = ok nodes
insert_nodes rngs node_ids (id ∷ ids) nodes = do
  node ← new (rngs 0) id node_ids none (record { start = 15; end = 31 })
  insert_nodes (λ n. rngs (suc n)) node_ids ids (insert id node nodes)

unfoldable pub new_cluster : (ℕ → Rng) → List NodeId → Result TestCluster
unfolding insert_nodes
new_cluster rngs node_ids = do
  nodes ← insert_nodes rngs node_ids node_ids []
  ok (record { nodes = nodes; pending_messages = []; partitioned = []; leader = none })

abbrev pub node : TestCluster → NodeId → Result RaftCore
node c id = unwrap (lookup id c.nodes)

abbrev pub set_node : TestCluster → NodeId → RaftCore → TestCluster
set_node c id n = record c { nodes = insert id n c.nodes }

-- The two halves of `partition`: the messages among the actions, and the other actions.
unfoldable pub messages : NodeId → List Action → List Envelope
messages from [] = []
messages from (send_message target message ∷ rest) =
    record { sender = from; recipient = target; message = message } ∷ messages from rest
messages from (_ ∷ rest) = messages from rest

unfoldable pub other_actions : List Action → List Action
other_actions [] = []
other_actions (send_message target message ∷ rest) = other_actions rest
other_actions (a ∷ rest) = a ∷ other_actions rest

-- What a node that is cut off sends is lost. The other actions are returned.
unfoldable pub collect_actions : TestCluster → NodeId → List Action → TestCluster × List Action
unfolding messages other_actions
collect_actions c from actions =
    if contains from c.partitioned then (c, other_actions actions) else (
      record c { pending_messages = c.pending_messages ++ messages from actions },
      other_actions actions,
    )

-- `results.entry(id).or_default().extend(actions)`
abbrev pub extend_results : NodeId → List Action → Results → Results
extend_results id actions results = insert id (unwrap_or (lookup id results) [] ++ actions) results

-- A message of the queue, by the node that receives it.
unfoldable pub deliver_message : Rng → Envelope → TestCluster → Result (TestCluster × List Action)
unfolding collect_actions
deliver_message rng e c = do
  receiver ← node c e.recipient
  r ← receive rng receiver e.message
  ok (collect_actions (set_node c e.recipient r.0) e.recipient r.1)

-- A round of the loop: a node that is cut off does not receive.
unfoldable pub deliver_one : Rng → Envelope → TestCluster → Results → Result (TestCluster × Results)
deliver_one rng e c results =
    if contains e.recipient c.partitioned
    then ok (c, results)
    else (do r ← deliver_message rng e c; ok (r.0, extend_results e.recipient r.1 results))

-- `for (_, recipient, msg) in pending`
unfoldable pub deliver_each :
    (ℕ → Rng) → List Envelope → TestCluster → Results → Result (TestCluster × Results)
deliver_each rngs [] c results = ok (c, results)
deliver_each rngs (e ∷ es) c results = do
  r ← deliver_one (rngs 0) e c results
  deliver_each (λ n. rngs (suc n)) es r.0 r.1

-- At most 50 messages are delivered.
unfoldable pub deliver_all : (ℕ → Rng) → TestCluster → Result (TestCluster × Results)
deliver_all rngs c =
    if ltb 50 (length c.pending_messages)
    then deliver_each rngs (take 50 c.pending_messages)
        (record c { pending_messages = drop 50 c.pending_messages }) []
    else deliver_each rngs c.pending_messages (record c { pending_messages = [] }) []

unfoldable pub sent_to : Bool → NodeId → List Envelope → List Envelope
sent_to wanted target [] = []
sent_to wanted target (e ∷ es) =
    let rest = sent_to wanted target es in
    if (if wanted then e.recipient == target else not (e.recipient == target))
    then e ∷ rest
    else rest

unfoldable pub deliver_to : (ℕ → Rng) → NodeId → TestCluster → Result (TestCluster × Results)
unfolding deliver_each sent_to
deliver_to rngs target c =
    deliver_each rngs (sent_to true target c.pending_messages)
      (record c { pending_messages = sent_to false target c.pending_messages }) ((target, []) ∷ [])

unfoldable pub tick_node : Rng → NodeId → TestCluster → Result (TestCluster × List Action)
tick_node rng id c = do n ← node c id; r ← tick rng n; ok (set_node c id r.0, r.1)

-- Ticks whose actions are dropped.
unfoldable pub tick_times : (ℕ → Rng) → ℕ → NodeId → TestCluster → Result TestCluster
unfolding tick_node
tick_times rngs zero id c = ok c
tick_times rngs (suc n) id c = do r ← tick_node (rngs n) id c; tick_times rngs n id r.0

unfoldable pub tick_until_candidate : (ℕ → Rng) → NodeId → TestCluster → Result TestCluster
tick_until_candidate rngs id c = do n ← node c id; tick_times rngs (wsub n.election_timeout 1) id c

unfoldable pub tick_until_heartbeat : (ℕ → Rng) → NodeId → TestCluster → Result TestCluster
tick_until_heartbeat rngs id c = do
  n ← node c id
  tick_times rngs (wsub n.heartbeat_interval 1) id c

unfoldable pub propose_command : Bytes → TestCluster → Result (TestCluster × List Action)
propose_command command c = do
  leader_id ← unwrap c.leader
  n ← node c leader_id
  r ← propose n command
  actions ← unwrap r.1
  ok (collect_actions (set_node c leader_id r.0) leader_id actions)

-- `self.node_mut(id).append_entries()` with its messages queued
unfoldable pub send_entries : NodeId → TestCluster → Result TestCluster
send_entries id c = do
  n ← node c id
  actions ← append_entries_to_peers n
  ok (collect_actions c id actions).0

-- `assert_eq!`
abbrev pub assert : Bool → Result Bool
assert holds = if holds then ok true else panic

unfoldable pub all_committed : ℕ → List RaftCore → Bool
all_committed index [] = true
all_committed index (n ∷ ns) = n.commit_index == index && all_committed index ns

-- `deliver_all` some times, without its results
unfoldable pub deliver_times : (ℕ → ℕ → Rng) → ℕ → TestCluster → Result TestCluster
unfolding deliver_all
deliver_times rngs zero c = ok c
deliver_times rngs (suc n) c = do r ← deliver_all (rngs n) c; deliver_times rngs n r.0

unfoldable pub elect_leader : (ℕ → ℕ → ℕ → Rng) → NodeId → TestCluster → Result TestCluster
unfolding tick_until_candidate send_entries deliver_times all_committed
elect_leader rngs id c = do
  c₁ ← tick_until_candidate (rngs 0 0) id c
  stood ← tick_node (rngs 1 0 0) id c₁
  c₂ ← deliver_times (rngs 2) 2 (collect_actions stood.0 id stood.1).0
  n ← node c₂ id
  leads ← assert (is_leader_state n.state)
  c₃ ← deliver_times (rngs 3) 4 (record c₂ { leader = some id })
  n' ← node c₃ id
  committed ← assert (n'.commit_index == 1)
  c₄ ← send_entries id c₃
  c₅ ← deliver_times (rngs 4) 2 c₄
  synced ← assert (all_committed 1 (values c₅.nodes))
  ok c₅

unfoldable pub new_with_leader :
    (ℕ → Rng) → (ℕ → ℕ → ℕ → Rng) → List NodeId → NodeId → Result TestCluster
unfolding new_cluster elect_leader
new_with_leader created rngs node_ids leader_id = do
  c ← new_cluster created node_ids
  elect_leader rngs leader_id c

-- `for (id, actions) in results { combined.insert(id, actions) }`
unfoldable pub join : Results → Results → Results
join [] combined = combined
join ((id, actions) ∷ rest) combined = join rest (insert id actions combined)

unfoldable pub propose_and_sync :
    (ℕ → ℕ → Rng) → Bytes → TestCluster → Result (TestCluster × Results)
unfolding propose_command send_entries join
propose_and_sync rngs command c = do
  leader_id ← unwrap c.leader
  proposed ← propose_command command c
  followers ← deliver_all (rngs 0) proposed.0
  leader_actions ← deliver_all (rngs 1) followers.0
  c₁ ← send_entries leader_id leader_actions.0
  follower_actions ← deliver_all (rngs 2) c₁
  ok (
    follower_actions.0,
    join follower_actions.1 ((leader_id, unwrap_or (lookup leader_id leader_actions.1) []) ∷ []),
  )

abbrev pub partition : NodeId → TestCluster → TestCluster
partition id c = record c { partitioned = insert_set id c.partitioned }

-- `HashSet::remove`
unfoldable pub remove_id : NodeId → List NodeId → List NodeId
remove_id id [] = []
remove_id id (x ∷ xs) = let rest = remove_id id xs in if x == id then rest else x ∷ rest

-- The second part is whether the node was cut off.
unfoldable pub heal : NodeId → TestCluster → TestCluster × Bool
unfolding remove_id
heal id c = (record c { partitioned = remove_id id c.partitioned }, contains id c.partitioned)
