-- ===== src/Tests/Transport.antt =====
-- The TCP transport (crates/raft-tcp-transport/src/lib.rs) at concrete inputs.
use ferris_ferry.Prelude.{
  ℕ, ◌≡◌, ◌++◌, take, refl, none, some, List, [], ◌∷◌, true, false, map, panic, lookup, contains,
}
use ferris_ferry.Types.{Message, request_vote}
use ferris_ferry.Transport.{
  Sender, new_sender, Waiting, fired, Serving, ended, World, round, reconnect, exchange, flush,
  transmit, serve, next_backoff, forward, RaftNodeDescription, new, recv,
}
use ferris_ferry.Transport.Thinning.{held, Thinned}
use ferris_ferry.Transport.Sending.{Runs, here, next, taken, Runs-Thinned}
use ferris_ferry.Transport.Receiving.{Connection, opened, goes_on, forward-Connection}
use ferris_ferry.Transport.Routing.{send_all, addressed, send_all-new, recv-new}
use ferris_ferry.Tests.Messages.{message_codec, message_encodes, message_trip}

abbrev ask : ℕ → Message
ask term =
    request_vote (record { term = term; candidate_id = 1; last_log_index = 0; last_log_term = 0 })

abbrev idle : World
idle = record { now = 0; waiting = Waiting.hung_up; flushes = true; serving = ended; sends = true }

-- Two messages while the peer is away, a refused connection, one that is made, a message that fails with the
-- message after the first flush.
abbrev away : Sender
away = record new_sender { pending = some (ask 2); backoff = 20; deadline = some 30 }

abbrev back : Sender
back = record new_sender { connected = true; pending = some (ask 2) }

abbrev broken : Sender
broken = record new_sender { pending = some (ask 3); sent = ask 2 ∷ [] }

comes_back : Runs message_codec new_sender (ask 1 ∷ ask 2 ∷ ask 3 ∷ []) broken
unfolding round reconnect exchange flush transmit serve next_backoff taken
comes_back =
    next {s₁ = back} (record idle { serving = Serving.queued (ask 3); sends = false })
      (next {s₁ = away} (record idle { waiting = fired true 40 })
        (next (record idle { waiting = fired false 10 })
          (next (record idle { waiting = Waiting.queued (ask 2) })
            (next (record idle { waiting = Waiting.queued (ask 1) }) here refl refl) refl refl)
          refl refl)
        refl refl)
      refl refl

third_fails : Connection message_codec back (ask 3 ∷ []) broken
unfolding round exchange flush transmit serve taken
third_fails =
    goes_on {s₁ = back} (record idle { serving = Serving.queued (ask 3); sends = false }) opened
      refl refl refl

Runs-Thinned_example : Thinned (ask 2 ∷ ask 3 ∷ []) (ask 1 ∷ ask 2 ∷ ask 3 ∷ [])
Runs-Thinned_example =
    Runs-Thinned message_codec message_encodes (ask 1 ∷ ask 2 ∷ ask 3 ∷ []) broken comes_back

-- the connection over which the second message is written, and the third one fails
forward-Connection_example :
    (ask 2 ∷ held (some (ask 3)) ≡ held (some (ask 2)) ++ ask 3 ∷ [])
    × (forward message_codec
          (take 1 (map message_codec.to_allocvec (ask 2 ∷ [])) ++ none ∷ some (1 ∷ []) ∷ [])
        ≡ take 1 (ask 2 ∷ []))
forward-Connection_example =
    forward-Connection message_codec message_encodes message_trip (ask 3 ∷ []) (ask 2 ∷ []) back
      broken 1 (some (1 ∷ []) ∷ []) third_fails refl

abbrev described : ℕ → RaftNodeDescription ℕ
described id = record { id = id; address = 8000 }

abbrev pair : List (RaftNodeDescription ℕ)
pair = described 1 ∷ described 2 ∷ []

send_all-new_example :
    lookup 2
      (send_all (new 1 pair) ((2, ask 1) ∷ (1, ask 2) ∷ (3, ask 3) ∷ (2, ask 4) ∷ [])).senders
    ≡ some (ask 1 ∷ ask 4 ∷ [])
unfolding contains addressed
send_all-new_example =
    send_all-new 1 2 pair ((2, ask 1) ∷ (1, ask 2) ∷ (3, ask 3) ∷ (2, ask 4) ∷ [])

recv-new_example : recv (send_all (new 3 pair) []) ≡ panic
unfolding contains
recv-new_example = recv-new 3 pair []
