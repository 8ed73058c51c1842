-- ===== src/Transport/Receiving.antt =====
-- What the receiving task of a connection (crates/raft-tcp-transport/src/lib.rs) makes of the frames that the
-- sending task writes over that connection. Each connection has a receiving task of its own.
use ferris_ferry.Prelude.{
  ℕ, zero, suc, ◌≡◌, refl, sym, ap, ◌∙◌, inl, inr, Option, none, some, List, [], ◌∷◌, ◌++◌,
  append-nil, append_assoc, Bool, true, Bool-cases, if◌then◌else◌, take, map, arith,
}
use ferris_ferry.Types.{Bytes, Message}
use ferris_ferry.Files.{Codec, RoundTrip}
use ferris_ferry.Transport.{Sender, World, continues, forward, round, exchange, flush}
use ferris_ferry.Transport.Thinning.{held}
use ferris_ferry.Transport.Sending.{
  delivered, taken, of_serving, of_waiting, flush-delivered, serve-delivered, continued,
}

module _ (codec : Codec Message) where
  -- Rounds of a sending task over one connection, with what it takes from its channel: each starts with the
  -- stream, and the last one may lose it.
  pub data Connection (s : Sender) : List Message → Sender → Type 0 where
    opened : Connection s [] s
    goes_on :
        {came all : List Message} {s₁ s₂ : Sender} (w : World)
        → Connection s came s₁
        → s₁.connected ≡ true
        → round codec w s₁ ≡ continues s₂
        → all ≡ came ++ taken codec w s₁
        → Connection s all s₂

  module _ (encodes : (m : Message) → (b : Bytes) × (codec.to_allocvec m ≡ some b)) where
    exchange-delivered :
        (w : World) (s s' : Sender)
        → exchange codec w s ≡ continues s'
        → delivered s'
          ≡ delivered s ++ (if (flush codec w.flushes s).1 then of_serving codec w.serving else [])
    unfolding exchange
    exchange-delivered w s s' e =
        let f = flush-delivered codec encodes w.flushes s in
        elim (Bool-cases (flush codec w.flushes s).1) [
          | inl on ↦ rw on (
              serve-delivered codec encodes w.sends w.serving (flush codec w.flushes s).0 s'
                (f.1 on) (rw on at e)
              ∙ ap (λ xs. xs ++ of_serving codec w.serving) f.0)
          | inr off ↦ rw off (
              ap delivered (sym (continued codec _ s' (rw off at e)))
              ∙ f.0
              ∙ sym (append-nil (delivered s)))
        ]

    round-delivered :
        (w : World) (s s' : Sender)
        → s.connected ≡ true
        → round codec w s ≡ continues s'
        → delivered s' ≡ delivered s ++ taken codec w s
    unfolding round taken
    round-delivered w s s' on e =
        exchange-delivered w s s' (ground (arith, on, e))
        ∙ ap
            (λ (k : Bool).
              delivered s
              ++ (if k
                  then (if (flush codec w.flushes s).1 then of_serving codec w.serving else [])
                  else of_waiting codec w.waiting))
            (sym on)

    Connection-delivered :
        (s : Sender) (came : List Message) (s' : Sender)
        → Connection s came s'
        → delivered s' ≡ delivered s ++ came
    Connection-delivered s came s' opened = sym (append-nil (delivered s))
    Connection-delivered s came s' (goes_on {came = before} {s₁ = s₁} w c on e a) =
        round-delivered w s₁ s' on e
        ∙ ap (λ xs. xs ++ taken codec w s₁) (Connection-delivered s before s₁ c)
        ∙ append_assoc (delivered s) before (taken codec w s₁)
        ∙ ap (◌++◌ (delivered s)) (sym a)

    forward-take :
        (trip : RoundTrip codec) (k : ℕ) (xs : List Message) (junk : List (Option Bytes))
        → forward codec (take k (map codec.to_allocvec xs) ++ none ∷ junk) ≡ take k xs
    unfolding forward
    forward-take trip zero xs junk = refl
    forward-take trip (suc k) [] junk = refl
    forward-take trip (suc k) (m ∷ xs) junk =
        let (b, e) = encodes m in rw (e, trip m b e, forward-take trip k xs junk) refl

    -- As long as every message can be serialized and is then deserialized to itself: over one connection, the
    -- sending task writes the message that it had kept, if there is one, and then those that it takes from its
    -- channel, in their order and without a gap, but for the last one, which it keeps if its sending fails. From
    -- the first `k` of these frames, with an error after them, the connection's receiving task makes exactly the
    -- first `k` messages.
    pub forward-Connection :
        (trip : RoundTrip codec) (came written : List Message) (s s' : Sender) (k : ℕ)
        (junk : List (Option Bytes))
        → Connection s came s'
        → s'.sent ≡ s.sent ++ written
        → (written ++ held s'.pending ≡ held s.pending ++ came)
          × (forward codec (take k (map codec.to_allocvec written) ++ none ∷ junk) ≡ take k written)
    forward-Connection trip came written s s' k junk c e = (
      same_prefix s.sent (
          sym (append_assoc s.sent written (held s'.pending))
          ∙ ap (λ xs. xs ++ held s'.pending) (sym e)
          ∙ Connection-delivered s came s' c
          ∙ append_assoc s.sent (held s.pending) came),
      forward-take trip k written junk,
    )
      where
        same_prefix : (xs : List Message) {ys zs : List Message} → xs ++ ys ≡ xs ++ zs → ys ≡ zs
        same_prefix [] h = h
        same_prefix (x ∷ xs) h = same_prefix xs cc
