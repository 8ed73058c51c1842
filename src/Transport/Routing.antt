-- ===== src/Transport/Routing.antt =====
-- Where `TcpTransport` of crates/raft-tcp-transport/src/lib.rs sends messages, and what it receives.
use ferris_ferry.Prelude.{
  eq-of_==, ℕ, ◌≡◌, refl, sym, ap, ◌∙◌, subst, inl, inr, Option, none, some, List, [], ◌∷◌, ◌++◌,
  Bool, true, false, ◌==◌, ◌||◌, ◌&&◌, not, if◌then◌else◌, Bool-cases, lookup, insert,
  lookup-insert, ok, panic, arith, contains, append_assoc, append-nil,
}
use ferris_ferry.Types.{NodeId, Message}
use ferris_ferry.Transport.{
  RaftNodeDescription, TcpTransport, add_nodes, new, push_message, send, recv,
}

module _ {A : Type 0} where
  -- the identifiers of the nodes
  abbrev pub ids : List (RaftNodeDescription A) → List NodeId
  ids [] = []
  ids (n ∷ nodes) = n.id ∷ ids nodes

  add_nodes-senders :
      (id peer : NodeId) (nodes : List (RaftNodeDescription A)) (t : TcpTransport)
      → lookup peer (add_nodes id nodes t).senders
        ≡ (if contains peer (ids nodes) && not (peer == id) then some [] else lookup peer t.senders)
  unfolding add_nodes contains
  add_nodes-senders id peer [] t = refl
  add_nodes-senders id peer (n ∷ nodes) t = elim (Bool-cases (n.id == id)) [
    | inl e ↦ ground (arith, e, add_nodes-senders id peer nodes (record t { listening = true }))
    | inr e ↦ ground (
      arith,
      e,
      add_nodes-senders id peer nodes (record t { senders = insert n.id [] t.senders }),
      lookup-insert n.id peer [] t.senders,
    )
  ]

  add_nodes-listening :
      (id : NodeId) (nodes : List (RaftNodeDescription A)) (t : TcpTransport)
      → ((add_nodes id nodes t).listening ≡ (contains id (ids nodes) || t.listening))
        × ((add_nodes id nodes t).receiver_rx ≡ t.receiver_rx)
  unfolding add_nodes contains
  add_nodes-listening id [] t = (refl, refl)
  add_nodes-listening id (n ∷ nodes) t = elim (Bool-cases (n.id == id)) [
    | inl e ↦
        (let h = add_nodes-listening id nodes (record t { listening = true }) in
          (ground (arith, e, h.0), ground (arith, e, h.1)))
    | inr e ↦
        (let h = add_nodes-listening id nodes (record t { senders = insert n.id [] t.senders }) in
          (ground (arith, e, h.0), ground (arith, e, h.1)))
  ]

-- What a caller sends, in order.
abbrev pub send_all : TcpTransport → List (NodeId × Message) → TcpTransport
send_all t [] = t
send_all t ((node, m) ∷ rest) = send_all (send t node m) rest

unfoldable pub addressed : NodeId → List (NodeId × Message) → List Message
addressed peer [] = []
addressed peer ((node, m) ∷ rest) =
    let later = addressed peer rest in if node == peer then m ∷ later else later

abbrev pub append_to : Option (List Message) → List Message → Option (List Message)
append_to none ms = none
append_to (some queue) ms = some (queue ++ ms)

send-senders :
    (t : TcpTransport) (node peer : NodeId) (m : Message)
    → lookup peer (send t node m).senders
      ≡ (if node == peer then append_to (lookup peer t.senders) (m ∷ []) else lookup peer t.senders)
unfolding send
send-senders t node peer m = elim (Bool-cases (node == peer)) [
  | inl e ↦
      subst
        (λ (k : ℕ). lookup peer (push_message k m (lookup k t.senders) t).senders ≡ (
          if k == peer then append_to (lookup peer t.senders) (m ∷ []) else lookup peer t.senders))
        (sym (eq-of_== node peer e)) (own (lookup peer t.senders) refl)
  | inr e ↦ rw e (other (lookup node t.senders) e)
]
  where
    own :
        (o : Option (List Message))
        → lookup peer t.senders ≡ o
        → lookup peer (push_message peer m o t).senders
          ≡ (if peer == peer then append_to o (m ∷ []) else o)
    own none h = ground (arith, h)
    own (some queue) h = ground (arith, h, lookup-insert peer peer (queue ++ m ∷ []) t.senders)

    other :
        (o : Option (List Message))
        → (node == peer) ≡ false
        → lookup peer (push_message node m o t).senders ≡ lookup peer t.senders
    other none e = refl
    other (some queue) e = ground (arith, e, lookup-insert node peer (queue ++ m ∷ []) t.senders)

pub append_to-append_to :
    (o : Option (List Message)) (xs ys : List Message)
    → append_to (append_to o xs) ys ≡ append_to o (xs ++ ys)
append_to-append_to none xs ys = refl
append_to-append_to (some queue) xs ys = ap some (append_assoc queue xs ys)

pub append_to-nil : (o : Option (List Message)) → o ≡ append_to o []
append_to-nil none = refl
append_to-nil (some queue) = ap some (sym (append-nil queue))

send_all-senders :
    (t : TcpTransport) (peer : NodeId) (xs : List (NodeId × Message))
    → lookup peer (send_all t xs).senders ≡ append_to (lookup peer t.senders) (addressed peer xs)
unfolding addressed
send_all-senders t peer [] = append_to-nil (lookup peer t.senders)
send_all-senders t peer ((node, m) ∷ rest) =
    let later =
      send_all-senders (send t node m) peer rest
      ∙ ap (λ o. append_to o (addressed peer rest)) (send-senders t node peer m) in
    elim (Bool-cases (node == peer)) [
      | inl e ↦ rw e (
          rw e at later
          ∙ append_to-append_to (lookup peer t.senders) (m ∷ []) (addressed peer rest))
      | inr e ↦ rw e (rw e at later)
    ]

-- The channel of every other node of the cluster holds what was sent to that node, all of it and in the
-- order of sending; what is sent to the node itself or to an unknown node is dropped.
pub send_all-new :
    {A : Type 0} (id peer : NodeId) (nodes : List (RaftNodeDescription A))
    (xs : List (NodeId × Message))
    → lookup peer (send_all (new id nodes) xs).senders
      ≡ (if contains peer (ids nodes) && not (peer == id) then some (addressed peer xs) else none)
unfolding new lookup
send_all-new id peer nodes xs =
    let start : TcpTransport = record { senders = []; receiver_rx = []; listening = false } in
    send_all-senders (add_nodes id nodes start) peer xs
    ∙ ap (λ o. append_to o (addressed peer xs)) (add_nodes-senders id peer nodes start)
    ∙ by_test (contains peer (ids nodes) && not (peer == id))
  where
    by_test :
        (k : Bool)
        → append_to (if k then some [] else none) (addressed peer xs)
          ≡ (if k then some (addressed peer xs) else none)
    by_test true = refl
    by_test false = refl

send-receiver :
    (t : TcpTransport) (node : NodeId) (m : Message)
    → ((send t node m).receiver_rx ≡ t.receiver_rx) × ((send t node m).listening ≡ t.listening)
unfolding send
send-receiver t node m = (ground arith, ground arith)

send_all-receiver :
    (t : TcpTransport) (xs : List (NodeId × Message))
    → ((send_all t xs).receiver_rx ≡ t.receiver_rx) × ((send_all t xs).listening ≡ t.listening)
send_all-receiver t [] = (refl, refl)
send_all-receiver t ((node, m) ∷ rest) =
    let h = send_all-receiver (send t node m) rest in
    let g = send-receiver t node m in (h.0 ∙ g.0, h.1 ∙ g.1)

-- A transport whose own node is not among the nodes has nothing that listens: whatever it sends, its first receive
-- panics. With its own node among them, it waits.
pub recv-new :
    {A : Type 0} (id : NodeId) (nodes : List (RaftNodeDescription A)) (xs : List (NodeId × Message))
    → recv (send_all (new id nodes) xs) ≡ (if contains id (ids nodes) then ok none else panic)
unfolding recv new
recv-new id nodes xs =
    let start : TcpTransport = record { senders = []; receiver_rx = []; listening = false } in
    let s = send_all-receiver (add_nodes id nodes start) xs in
    let a = add_nodes-listening id nodes start in ground (arith, s.0, s.1, a.0, a.1)
