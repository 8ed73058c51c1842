-- ===== src/Transport.antt =====
-- `TcpTransport` of crates/raft-tcp-transport/src/lib.rs: a channel and a sending task for each peer, and
-- the tasks that receive. Sockets are not modelled: what they answer is an argument of a task's round. Time
-- is in milliseconds.
pub mod Thinning
pub mod Sending
pub mod Backoff
pub mod Receiving
pub mod Routing
use ferris_ferry.Prelude.{
  ℕ, ◌+◌, ◌*◌, Option, none, some, List, [], ◌∷◌, ◌++◌, Bool, true, false, min, ◌==◌, if◌then◌else◌,
  unwrap_or, Result, ok, panic, lookup, insert,
}
use ferris_ferry.Types.{NodeId, Bytes, Message}
use ferris_ferry.Files.{Codec}

abbrev pub min_backoff : ℕ
min_backoff = 10

abbrev pub max_backoff : ℕ
max_backoff = 100

-- The variables of a peer's sending task, and the messages that it has written to its streams.
pub record Sender : Type 0 where
  pub connected : Bool
  pub pending : Option Message
  pub backoff : ℕ
  pub deadline : Option ℕ
  pub sent : List Message

abbrev pub new_sender : Sender
new_sender = record {
  connected = false;
  pending = none;
  backoff = min_backoff;
  deadline = none;
  sent = [];
}

-- What the task waits for without a connection: a message, the end of the channel, or the timer, with
-- whether it connects then and the time after that.
pub data Waiting : Type 0 where
  queued : Message → Waiting
  hung_up : Waiting
  fired : (connects : Bool) → (now : ℕ) → Waiting

-- And with a connection: a message, the end of the channel, or anything on the stream.
pub data Serving : Type 0 where
  queued : Message → Serving
  hung_up : Serving
  ended : Serving

-- What the world answers in one round of the loop.
pub record World : Type 0 where
  pub now : ℕ
  pub waiting : Waiting
  pub flushes : Bool
  pub serving : Serving
  pub sends : Bool

-- A round goes on with the loop, or breaks.
pub data Flow : Type 0 where
  continues : Sender → Flow
  breaks : Flow

-- `(2 * backoff).min(MAX_BACKOFF)`
unfoldable pub next_backoff : ℕ → ℕ
next_backoff backoff = min (2 * backoff) max_backoff

-- the round without a stream
unfoldable pub reconnect : ℕ → Waiting → Sender → Flow
unfolding next_backoff
reconnect now (Waiting.queued m) s =
    continues
      (record s { pending = some m; deadline = some (unwrap_or s.deadline (now + s.backoff)) })
reconnect now Waiting.hung_up s = breaks
reconnect now (fired true later) s =
    continues (record s { connected = true; backoff = min_backoff; deadline = none })
reconnect now (fired false later) s = continues (record s {
  backoff = next_backoff s.backoff;
  deadline = some (later + next_backoff s.backoff);
})

-- `s.send(..)` of a message: if it fails, the message is kept and the stream is given up.
unfoldable pub transmit : Bool → Message → Sender → Sender
transmit true m s = record s { sent = s.sent ++ m ∷ [] }
transmit false m s = record s { pending = some m; connected = false }

module _ (codec : Codec Message) where
  -- The pending message is sent first, and the round goes on if there is still a stream. A message that
  -- is not serialized has been taken.
  abbrev pub send_pending : Bool → Message → Option Bytes → Sender → Sender × Bool
  send_pending sends m none s = (s, false)
  send_pending sends m (some buf) s = (transmit sends m s, sends)

  abbrev pub flush_pending : Bool → Option Message → Sender → Sender × Bool
  flush_pending sends none s = (s, true)
  flush_pending sends (some m) s =
      send_pending sends m (codec.to_allocvec m) (record s { pending = none })

  unfoldable pub flush : Bool → Sender → Sender × Bool
  flush sends s = flush_pending sends s.pending s

  abbrev pub send_queued : Bool → Message → Option Bytes → Sender → Sender
  send_queued sends m none s = s
  send_queued sends m (some buf) s = transmit sends m s

  unfoldable pub serve : Bool → Serving → Sender → Flow
  serve sends (Serving.queued m) s = continues (send_queued sends m (codec.to_allocvec m) s)
  serve sends Serving.hung_up s = breaks
  serve sends ended s = continues (record s { connected = false })

  -- the round with a stream
  unfoldable pub exchange : World → Sender → Flow
  unfolding flush serve
  exchange w s =
      let flushed = flush w.flushes s in
      if flushed.1 then serve w.sends w.serving flushed.0 else continues flushed.0

  -- one round of the sending task's loop
  unfoldable pub round : World → Sender → Flow
  unfolding reconnect exchange
  round w s = if s.connected then exchange w s else reconnect w.now w.waiting s

  -- The task of a connection that another node has made: frames that are not decoded are skipped, an
  -- error ends it. What it puts into the node's channel.
  abbrev pub keep_decoded : Option Message → List Message → List Message
  keep_decoded none later = later
  keep_decoded (some msg) later = msg ∷ later

  unfoldable pub forward : List (Option Bytes) → List Message
  forward [] = []
  forward (none ∷ rest) = []
  forward (some buf ∷ rest) = keep_decoded (codec.from_bytes buf) (forward rest)

-- `RaftNodeDescription`
pub record RaftNodeDescription (A : Type 0) : Type 0 where
  pub id : NodeId
  pub address : A

-- The channels to the sending tasks, the channel that the node receives from, and whether a task can still
-- put something into it.
pub record TcpTransport : Type 0 where
  pub senders : List (NodeId × List Message)
  pub receiver_rx : List Message
  pub listening : Bool

module _ {A : Type 0} where
  -- `for n in nodes`
  unfoldable pub add_nodes : NodeId → List (RaftNodeDescription A) → TcpTransport → TcpTransport
  add_nodes id [] t = t
  add_nodes id (n ∷ nodes) t = add_nodes id nodes (
      if n.id == id
      then record t { listening = true }
      else record t { senders = insert n.id [] t.senders })

  unfoldable pub new : NodeId → List (RaftNodeDescription A) → TcpTransport
  unfolding add_nodes
  new id nodes = add_nodes id nodes (record { senders = []; receiver_rx = []; listening = false })

abbrev pub push_message : NodeId → Message → Option (List Message) → TcpTransport → TcpTransport
push_message node message none t = t
push_message node message (some queue) t = record t {
  senders = insert node (queue ++ message ∷ []) t.senders;
}

unfoldable pub send : TcpTransport → NodeId → Message → TcpTransport
send t node message = push_message node message (lookup node t.senders) t

-- Waits, with none, while the channel is empty and some task holds it.
abbrev pub receive_next :
    Bool → List Message → TcpTransport → Result (Option (Message × TcpTransport))
receive_next listening (message ∷ rest) t = ok (some (message, record t { receiver_rx = rest }))
receive_next true [] t = ok none
receive_next false [] t = panic

unfoldable pub recv : TcpTransport → Result (Option (Message × TcpTransport))
recv t = receive_next t.listening t.receiver_rx t
