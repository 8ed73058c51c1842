-- ===== src/Simulation/Refines.antt =====
-- A delivery in the simulated cluster of crates/raftcore/src/lib.rs is a step of the network.
use ferris_ferry.Prelude.{
  ◌+◌, ◌<◌, ◌≡◌, refl, sym, ap, ◌∙◌, subst, inl, inr, some, List, [], ◌∷◌, ◌++◌, Bool-cases, All,
  All-append, ok, >>=-eq-ok, ok-injective, unwrap, map, lookup, insert, contains, u64_mod, arith,
}
use ferris_ferry.Types.{
  NodeId, Message, request_vote, request_vote_response, append_entries, append_entries_response,
  install_snapshot, install_snapshot_response, Action, send_message, apply_to_state_machine,
  persist_metadata, persist_log_entries, send_install_snapshot, read_barrier_ready,
}
use ferris_ferry.Core.State.{Rng, RaftCore}
use ferris_ferry.Core.Node.{received, receive, step}
use ferris_ferry.Network.{Network, Did, WasSent, IsTimely, NetStep, acts}
use ferris_ferry.Network.Ballots.{In-append_left, In-append_right}
use ferris_ferry.Simulation.{
  Envelope, TestCluster, node, set_node, messages, collect_actions, deliver_message,
}

-- Every message of the queue has been sent.
abbrev pub AllSent : List Envelope → List (NodeId × Action) → Type 0
AllSent es history =
    All (λ (e : Envelope). Did history e.sender (send_message e.recipient e.message)) es

-- The nodes of the simulated cluster as a network, with what they have done.
abbrev pub as_network : TestCluster → List (NodeId × Action) → Network
as_network c history = record { nodes = c.nodes; history = history }

AllSent-later :
    (new old : List (NodeId × Action)) (es : List Envelope)
    → AllSent es old
    → AllSent es (new ++ old)
AllSent-later new old [] h = tt
AllSent-later new old (e ∷ es) h = (
  In-append_right (e.sender, send_message e.recipient e.message) new old h.0,
  AllSent-later new old es h.1,
)

-- The node's actions are put before the history.
abbrev done : NodeId → List Action → List (NodeId × Action)
done id actions = map (λ a. (id, a)) actions

AllSent-more :
    (a : NodeId × Action) (history : List (NodeId × Action)) (es : List Envelope)
    → AllSent es history
    → AllSent es (a ∷ history)
AllSent-more a history es h = AllSent-later (a ∷ []) history es h

messages-AllSent :
    (id : NodeId) (actions : List Action) → AllSent (messages id actions) (done id actions)
unfolding messages
messages-AllSent id [] = tt
messages-AllSent id (send_message target message ∷ rest) = (
  inl refl,
  AllSent-more (id, send_message target message) (done id rest) (messages id rest)
      (messages-AllSent id rest),
)
messages-AllSent id (apply_to_state_machine index command ∷ rest) =
    AllSent-more (id, apply_to_state_machine index command) (done id rest) (messages id rest)
      (messages-AllSent id rest)
messages-AllSent id (persist_metadata term vote ∷ rest) =
    AllSent-more (id, persist_metadata term vote) (done id rest) (messages id rest)
      (messages-AllSent id rest)
messages-AllSent id (persist_log_entries index entries ∷ rest) =
    AllSent-more (id, persist_log_entries index entries) (done id rest) (messages id rest)
      (messages-AllSent id rest)
messages-AllSent id (send_install_snapshot peer term index index_term ∷ rest) =
    AllSent-more (id, send_install_snapshot peer term index index_term) (done id rest)
      (messages id rest) (messages-AllSent id rest)
messages-AllSent id (Action.install_snapshot index index_term payload ∷ rest) =
    AllSent-more (id, Action.install_snapshot index index_term payload) (done id rest)
      (messages id rest) (messages-AllSent id rest)
messages-AllSent id (read_barrier_ready barrier ∷ rest) =
    AllSent-more (id, read_barrier_ready barrier) (done id rest) (messages id rest)
      (messages-AllSent id rest)

AllSent-left :
    (new old : List (NodeId × Action)) (es : List Envelope)
    → AllSent es new
    → AllSent es (new ++ old)
AllSent-left new old [] h = tt
AllSent-left new old (e ∷ es) h = (
  In-append_left (e.sender, send_message e.recipient e.message) new old h.0,
  AllSent-left new old es h.1,
)

collect_actions-AllSent :
    (c : TestCluster) (id : NodeId) (n : RaftCore) (actions : List Action)
    (history : List (NodeId × Action))
    → AllSent c.pending_messages history
    → AllSent
        (collect_actions (set_node c id n) id actions).0.pending_messages
        (done id actions ++ history)
unfolding collect_actions
collect_actions-AllSent c id n actions history h = elim (Bool-cases (contains id c.partitioned)) [
  | inl off ↦ rw off (AllSent-later (done id actions) history c.pending_messages h)
  | inr on ↦ rw on (
      All-append
        (λ (e : Envelope).
          Did (done id actions ++ history) e.sender (send_message e.recipient e.message))
        c.pending_messages (messages id actions)
        (AllSent-later (done id actions) history c.pending_messages h)
        (AllSent-left (done id actions) history (messages id actions)
          (messages-AllSent id actions)))
]

collect_actions-nodes :
    (c : TestCluster) (id : NodeId) (n : RaftCore) (actions : List Action)
    → (collect_actions (set_node c id n) id actions).0.nodes ≡ insert id n c.nodes
unfolding collect_actions
collect_actions-nodes c id n actions = ground arith

was_sent :
    (c : TestCluster) (history : List (NodeId × Action)) (from id : NodeId) (m : Message)
    → Did history from (send_message id m)
    → WasSent (as_network c history) id (received m)
was_sent c history from id (request_vote req) h = tt
was_sent c history from id (request_vote_response resp) h = (from, h)
was_sent c history from id (append_entries req) h = tt
was_sent c history from id (append_entries_response resp) h = tt
was_sent c history from id (install_snapshot req) h = tt
was_sent c history from id (install_snapshot_response resp) h = tt

-- Let every message that is under way have been sent. Delivering one that its receiver is not too late for, where the
-- delivery does not panic, is a step of the network, and afterwards every message that is under way has been sent.
pub deliver_message-NetStep :
    (members : List NodeId) (rng : Rng) (e : Envelope) (c c' : TestCluster) (others : List Action)
    (history : List (NodeId × Action)) (receiver : RaftCore)
    → AllSent (e ∷ c.pending_messages) history
    → lookup e.recipient c.nodes ≡ some receiver
    → IsTimely receiver (received e.message)
    → receiver.current_term + 1 < u64_mod
    → deliver_message rng e c ≡ ok (c', others)
    → (history' : List (NodeId × Action)) × NetStep members
        (as_network c history)
        (as_network c' history')
      × AllSent c'.pending_messages history'
unfolding deliver_message
deliver_message-NetStep members rng e c c' others history receiver sent found timely bound h =
    let (n, p, q) = >>=-eq-ok (node c e.recipient) _ h in
    let same : receiver ≡ n = ok-injective (sym (ap unwrap found) ∙ p) in
    let (r, p', q') = >>=-eq-ok (receive rng n e.message) _ q in
    let id = e.recipient in
    let c'' = (collect_actions (set_node c id r.0) id r.1).0 in
    let after : c'' ≡ c' = ap (λ (x : TestCluster × List Action). x.0) (ok-injective q') in
    let history' = done id r.1 ++ history in
    let taken : step rng receiver (received e.message) ≡ ok (r.0, r.1) =
      unfold step in (ap (λ x. receive rng x e.message) same ∙ p') in
    let moved : NetStep members (as_network c history) (as_network c'' history') =
      acts id receiver r.0 rng (received e.message) r.1 found
        (was_sent c history e.sender id e.message sent.0) timely bound taken
        (ap (λ nodes. record { nodes = nodes; history = history' })
          (collect_actions-nodes c id r.0 r.1)) in
    (
      history',
      subst (λ x. NetStep members (as_network c history) (as_network x history')) after moved,
      subst (λ (x : TestCluster). AllSent x.pending_messages history') after
          (collect_actions-AllSent c id r.0 r.1 history sent.1),
    )
