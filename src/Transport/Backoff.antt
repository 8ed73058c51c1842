-- ===== src/Transport/Backoff.antt =====
-- The time that a sending task of `TcpTransport` (crates/raft-tcp-transport/src/lib.rs) waits between attempts
-- to connect.
use ferris_ferry.Prelude.{
  ℕ, ◌+◌, ◌*◌, ◌^◌, ◌≡◌, ◌⊎◌, min, if◌then◌else◌, Option, none, some, List, true, false,
}
use ferris_ferry.Types.{Message}
use ferris_ferry.Files.{Codec}
use ferris_ferry.Transport.{min_backoff, max_backoff, Sender, new_sender, Waiting, fired, World}
use ferris_ferry.Transport.Sending.{Runs, here, next}

-- Read off the rounds: how many attempts to connect have failed since the last connection, and the time from which
-- the wait for the next attempt counts.
pub record Attempts : Type 0 where
  pub failures : ℕ
  pub since : ℕ

-- The wait counts from the first message that comes while no attempt is due, and after a failed attempt from
-- that attempt.
unfoldable pub after_waiting : ℕ → Waiting → Option ℕ → Attempts → Attempts
after_waiting now (Waiting.queued m) none a = record a { since = now }
after_waiting now (Waiting.queued m) (some due) a = a
after_waiting now Waiting.hung_up due a = a
after_waiting now (fired true later) due a = record a { failures = 0 }
after_waiting now (fired false later) due a = record { failures = a.failures + 1; since = later }

abbrev pub after_round : World → Sender → Attempts → Attempts
after_round w s a = if s.connected then a else after_waiting w.now w.waiting s.deadline a

module _ (codec : Codec Message) where
  unfoldable pub attempts :
      {came : List Message} {s : Sender} → Runs codec new_sender came s → Attempts
  attempts here = record { failures = 0; since = 0 }
  attempts (next {s₁ = s₁} w r e a) = after_round w s₁ (attempts r)

pub record Backed (a : Attempts) (s : Sender) : Type 0 where
  pub doubled : s.backoff ≡ min (min_backoff * 2 ^ a.failures) max_backoff
  pub due : (s.deadline ≡ none) ⊎ (s.deadline ≡ some (a.since + s.backoff))
  pub reset : s.connected ≡ true → (a.failures ≡ 0) × (s.deadline ≡ none)
