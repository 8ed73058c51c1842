-- ===== src/Memory/Queues.antt =====
-- What `InMemoryTransport` of crates/raft-test-utils/src/lib.rs delivers, and to whom.
use ferris_ferry.Prelude.{
  eq-of_==, ℕ, suc, ◌+◌, ◌≤◌, ◌≡◌, refl, sym, ap, ◌∙◌, subst, inl, inr, Option, none, some, List,
  [], ◌∷◌, ◌++◌, Bool, true, false, lt→ltb, ◌==◌, if◌then◌else◌, Bool-cases, Option-cases, length,
  length-append, lookup, insert, lookup-insert, contains, arith,
}
use ferris_ferry.Types.{NodeId, Message}
use ferris_ferry.Transport.Routing.{addressed, append_to, append_to-append_to, append_to-nil}
use ferris_ferry.Memory.Channels.{
  capacity, Channels, insert_channels, build_in_memory_transport, send,
}

-- What the nodes send, in order.
abbrev pub send_next : (Channels → Option Channels) → Option Channels → Option Channels
send_next rest none = none
send_next rest (some channels) = rest channels

unfoldable pub send_in_order : List (NodeId × Message) → Channels → Option Channels
send_in_order [] channels = some channels
send_in_order ((node, m) ∷ xs) channels = send_next (send_in_order xs) (send channels node m)

insert_channels-lookup :
    (peer : NodeId) (nodes : List NodeId) (channels : Channels)
    → lookup peer (insert_channels nodes channels)
      ≡ (if contains peer nodes then some [] else lookup peer channels)
unfolding insert_channels contains
insert_channels-lookup peer [] channels = refl
insert_channels-lookup peer (n ∷ nodes) channels = ground (
  arith,
  insert_channels-lookup peer nodes (insert n [] channels),
  lookup-insert n peer [] channels,
)

-- Every channel has room for some more messages.
abbrev pub RoomFor : ℕ → Channels → Type 0
RoomFor n channels =
    (peer : NodeId) (queue : List Message)
    → lookup peer channels ≡ some queue
    → length queue + n ≤ capacity

send-queued :
    (channels : Channels) (node : NodeId) (m : Message) (n : ℕ)
    → RoomFor (suc n) channels
    → (after : Channels) × (send channels node m ≡ some after)
      × RoomFor n after
      × ((peer : NodeId)
          → lookup peer after ≡ (
              if node == peer
              then append_to (lookup peer channels) (m ∷ [])
              else lookup peer channels))
unfolding send
send-queued channels node m n room = elim (Option-cases (lookup node channels)) [
  | inl e ↦ (
    channels,
    rw e refl,
    (λ peer queue l. omega (arith, room peer queue l)),
    λ peer. missing peer e,
  )
  | inr (queue, e) ↦ (
    insert node (queue ++ m ∷ []) channels,
    rw (e, lt→ltb (length queue) capacity (omega (arith, room node queue e))) refl,
    (λ peer q l. roomy queue e peer q l),
    λ peer. there queue e peer,
  )
]
  where
    missing :
        (peer : NodeId)
        → lookup node channels ≡ none
        → lookup peer channels ≡ (
            if node == peer
            then append_to (lookup peer channels) (m ∷ [])
            else lookup peer channels)
    missing peer e = elim (Bool-cases (node == peer)) [
      | inl s ↦
          (let f : lookup peer channels ≡ none =
              subst (λ (x : ℕ). lookup x channels ≡ none) (eq-of_== node peer s) e in
            rw (s, f) refl)
      | inr o ↦ rw o refl
    ]

    there :
        (queue : List Message)
        → lookup node channels ≡ some queue
        → (peer : NodeId)
        → lookup peer (insert node (queue ++ m ∷ []) channels) ≡ (
            if node == peer
            then append_to (lookup peer channels) (m ∷ [])
            else lookup peer channels)
    there queue e peer = elim (Bool-cases (node == peer)) [
      | inl s ↦
          (let f : lookup peer channels ≡ some queue =
              subst (λ (x : ℕ). lookup x channels ≡ some queue) (eq-of_== node peer s) e in
            lookup-insert node peer (queue ++ m ∷ []) channels ∙ rw (s, f) refl)
      | inr o ↦ lookup-insert node peer (queue ++ m ∷ []) channels ∙ rw o refl
    ]

    roomy :
        (queue : List Message)
        → lookup node channels ≡ some queue
        → (peer : NodeId) (q : List Message)
        → lookup peer (insert node (queue ++ m ∷ []) channels) ≡ some q
        → length q + n ≤ capacity
    roomy queue e peer q l = elim (Bool-cases (node == peer)) [
      | inl s ↦
          (let f : some (queue ++ m ∷ []) ≡ some q =
              sym (lookup-insert node peer (queue ++ m ∷ []) channels ∙ rw s refl) ∙ l in
            let g : queue ++ m ∷ [] ≡ q = ground (arith, f) in
            omega (arith, ap length g, length-append queue (m ∷ []), room node queue e))
      | inr o ↦ omega (
        arith,
        room peer q (sym (lookup-insert node peer (queue ++ m ∷ []) channels ∙ rw o refl) ∙ l),
      )
    ]

send_in_order-queued :
    (xs : List (NodeId × Message)) (channels : Channels)
    → RoomFor (length xs) channels
    → (after : Channels) × (send_in_order xs channels ≡ some after)
      × ((peer : NodeId) → lookup peer after ≡ append_to (lookup peer channels) (addressed peer xs))
unfolding send_in_order addressed
send_in_order-queued [] channels room =
    (channels, refl, λ peer. append_to-nil (lookup peer channels))
send_in_order-queued ((node, m) ∷ xs) channels room =
    let (middle, sent, left, queued) = send-queued channels node m (length xs) room in
    let (after, rest, found) = send_in_order-queued xs middle left in
    (
      after,
      ap (send_next (send_in_order xs)) sent ∙ rest,
      λ peer. joined peer middle after (queued peer) (found peer),
    )
  where
    joined :
        (peer : NodeId) (middle after : Channels)
        → lookup peer middle ≡ (
            if node == peer
            then append_to (lookup peer channels) (m ∷ [])
            else lookup peer channels)
        → lookup peer after ≡ append_to (lookup peer middle) (addressed peer xs)
        → lookup peer after
          ≡ append_to
              (lookup peer channels)
              (if node == peer then m ∷ addressed peer xs else addressed peer xs)
    joined peer middle after q f = elim (Bool-cases (node == peer)) [
      | inl s ↦ rw s (
          f
          ∙ ap (λ o. append_to o (addressed peer xs)) (rw s at q)
          ∙ append_to-append_to (lookup peer channels) (m ∷ []) (addressed peer xs))
      | inr o ↦ rw o (f ∙ ap (λ o. append_to o (addressed peer xs)) (rw o at q))
    ]

-- Up to 1024 messages are sent without waiting, whoever sends them. The channel of every node then holds what was
-- sent to it, all of it and in order, as with the transport over TCP, but for the node itself, which has a channel
-- here; what is sent to a node without a channel is dropped.
pub send_in_order-build :
    (nodes : List NodeId) (xs : List (NodeId × Message)) (peer : NodeId)
    → length xs ≤ capacity
    → (after : Channels) × (send_in_order xs (build_in_memory_transport nodes) ≡ some after)
      × (lookup peer after ≡ (if contains peer nodes then some (addressed peer xs) else none))
unfolding build_in_memory_transport
send_in_order-build nodes xs peer h =
    let (after, sent, found) =
      send_in_order-queued xs (insert_channels nodes []) (λ p q l. room p q l) in
    (
      after,
      sent,
      found peer
          ∙ ap (λ o. append_to o (addressed peer xs)) (insert_channels-lookup peer nodes [])
          ∙ by_test (contains peer nodes),
    )
  where
    by_test :
        (b : Bool)
        → append_to (if b then some [] else lookup peer []) (addressed peer xs)
          ≡ (if b then some (addressed peer xs) else none)
    by_test true = refl
    by_test false = unfold lookup in refl

    room : RoomFor (length xs) (insert_channels nodes [])
    room p q l = empty_queue (contains p nodes) (sym (insert_channels-lookup p nodes []) ∙ l)
      where
        empty_queue :
            (b : Bool)
            → (if b then some [] else lookup p []) ≡ some q
            → length q + length xs ≤ capacity
        empty_queue true e = (let g : [] ≡ q = ground (arith, e) in omega (arith, ap length g))
        empty_queue false e = absurd (unfold lookup in cc)
