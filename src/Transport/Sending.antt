-- ===== src/Transport/Sending.antt =====
-- The sending task of `TcpTransport` (crates/raft-tcp-transport/src/lib.rs) over all its rounds.
use ferris_ferry.Prelude.{
  ℕ, ◌≡◌, refl, sym, ap, ◌∙◌, subst, inl, inr, Option, none, some, List, [], ◌∷◌, ◌++◌, Bool, true,
  false, if◌then◌else◌, Bool-cases, arith, append-nil,
}
use ferris_ferry.Types.{Bytes, Message}
use ferris_ferry.Files.{Codec}
use ferris_ferry.Transport.{
  Sender, new_sender, Waiting, fired, Serving, ended, World, Flow, continues, breaks, reconnect,
  transmit, flush_pending, flush, serve, exchange, round,
}
use ferris_ferry.Transport.Thinning.{held, Thinned, added, replaced}

-- What the task has written, and then what it keeps for the next connection.
abbrev pub delivered : Sender → List Message
delivered s = s.sent ++ held s.pending

module _ (codec : Codec Message) where
  -- The messages that the task takes from its channel in a round.
  abbrev pub of_waiting : Waiting → List Message
  of_waiting (Waiting.queued m) = m ∷ []
  of_waiting _ = []

  abbrev pub of_serving : Serving → List Message
  of_serving (Serving.queued m) = m ∷ []
  of_serving _ = []

  unfoldable pub taken : World → Sender → List Message
  taken w s =
      if s.connected
      then (if (flush codec w.flushes s).1 then of_serving w.serving else [])
      else of_waiting w.waiting

  -- Rounds of the task, with all that it has taken from its channel.
  pub data Runs (s : Sender) : List Message → Sender → Type 0 where
    here : Runs s [] s
    next :
        {came all : List Message} {s₁ s₂ : Sender} (w : World)
        → Runs s came s₁
        → round codec w s₁ ≡ continues s₂
        → all ≡ came ++ taken w s₁
        → Runs s all s₂

  transmit-delivered :
      (sends : Bool) (m : Message) (s : Sender)
      → s.pending ≡ none
      → delivered (transmit sends m s) ≡ s.sent ++ m ∷ []
  unfolding transmit
  transmit-delivered true m s e = rw e (append-nil (s.sent ++ m ∷ []))
  transmit-delivered false m s e = refl

  pub continued : (s s' : Sender) → continues s ≡ continues s' → s ≡ s'
  continued s s' e = ap unwrap_flow e
    where
      unwrap_flow : Flow → Sender
      unwrap_flow (continues x) = x
      unwrap_flow breaks = s

  module _ (encodes : (m : Message) → (b : Bytes) × (codec.to_allocvec m ≡ some b)) where
    pub flush-delivered :
        (sends : Bool) (s : Sender)
        → (delivered (flush codec sends s).0 ≡ delivered s)
          × ((flush codec sends s).1 ≡ true → (flush codec sends s).0.pending ≡ none)
    unfolding flush
    flush-delivered sends s = by_pending s.pending refl
      where
        by_pending :
            (o : Option Message)
            → s.pending ≡ o
            → (delivered (flush_pending codec sends o s).0 ≡ s.sent ++ held o)
              × ((flush_pending codec sends o s).1 ≡ true
                  → (flush_pending codec sends o s).0.pending ≡ none)
        by_pending none e = (rw e refl, λ h. e)
        by_pending (some m) e =
            let (b, q) = encodes m in
            rw q
              (transmit-delivered sends m (record s { pending = none }) refl, λ h. sent_now sends h)
          where
            sent_now :
                (k : Bool) → k ≡ true → (transmit k m (record s { pending = none })).pending ≡ none
            sent_now true h = unfold transmit in refl
            sent_now false h = absurd (cc)

    pub serve-delivered :
        (sends : Bool) (w : Serving) (s s' : Sender)
        → s.pending ≡ none
        → serve codec sends w s ≡ continues s'
        → delivered s' ≡ delivered s ++ of_serving w
    unfolding serve
    serve-delivered sends (Serving.queued m) s s' p e =
        let (b, q) = encodes m in
        let after : transmit sends m s ≡ s' = continued _ s' (rw q at e) in
        ap delivered (sym after)
        ∙ transmit-delivered sends m s p
        ∙ ap (λ xs. xs ++ m ∷ []) (rw p (sym (append-nil s.sent)))
    serve-delivered sends Serving.hung_up s s' p e = absurd (cc)
    serve-delivered sends ended s s' p e =
        ap delivered (sym (continued _ s' e)) ∙ sym (append-nil (delivered s))

    reconnect-Thinned :
        (now : ℕ) (w : Waiting) (s s' : Sender) (came : List Message)
        → reconnect now w s ≡ continues s'
        → Thinned (delivered s) came
        → Thinned (delivered s') (came ++ of_waiting w)
    unfolding reconnect
    reconnect-Thinned now (Waiting.queued m) s s' came e t =
        subst (λ x. Thinned (delivered x) (came ++ m ∷ [])) (continued _ s' e)
          (replaced s.sent came s.pending m t)
    reconnect-Thinned now Waiting.hung_up s s' came e t = absurd (cc)
    reconnect-Thinned now (fired true later) s s' came e t =
        subst (λ x. Thinned (delivered x) (came ++ [])) (continued _ s' e)
          (subst (Thinned (delivered s)) (sym (append-nil came)) t)
    reconnect-Thinned now (fired false later) s s' came e t =
        subst (λ x. Thinned (delivered x) (came ++ [])) (continued _ s' e)
          (subst (Thinned (delivered s)) (sym (append-nil came)) t)

    serve-Thinned :
        (sends : Bool) (w : Serving) (s s' : Sender) (came : List Message)
        → s.pending ≡ none
        → serve codec sends w s ≡ continues s'
        → Thinned (delivered s) came
        → Thinned (delivered s') (came ++ of_serving w)
    serve-Thinned sends (Serving.queued m) s s' came p e t =
        subst (λ xs. Thinned xs (came ++ m ∷ []))
          (sym (serve-delivered sends (Serving.queued m) s s' p e)) (added (delivered s) came m t)
    serve-Thinned sends Serving.hung_up s s' came p e t = absurd (unfold serve in cc)
    serve-Thinned sends ended s s' came p e t =
        subst (λ xs. Thinned xs (came ++ []))
          (sym (serve-delivered sends ended s s' p e ∙ append-nil (delivered s)))
          (subst (Thinned (delivered s)) (sym (append-nil came)) t)

    exchange-Thinned :
        (w : World) (s s' : Sender) (came : List Message)
        → exchange codec w s ≡ continues s'
        → Thinned (delivered s) came
        → Thinned
            (delivered s')
            (came ++ (if (flush codec w.flushes s).1 then of_serving w.serving else []))
    unfolding exchange
    exchange-Thinned w s s' came e t =
        let f = flush-delivered w.flushes s in
        let t' = subst (λ xs. Thinned xs came) (sym f.0) t in
        elim (Bool-cases (flush codec w.flushes s).1) [
          | inl on ↦ rw on (
              serve-Thinned w.sends w.serving (flush codec w.flushes s).0 s' came (f.1 on)
                (rw on at e) t')
          | inr off ↦ rw off (
              subst (λ x. Thinned (delivered x) (came ++ [])) (continued _ s' (rw off at e))
                (subst (Thinned (delivered (flush codec w.flushes s).0)) (sym (append-nil came))
                  t'))
        ]

    round-Thinned :
        (w : World) (s s' : Sender) (came : List Message)
        → round codec w s ≡ continues s'
        → Thinned (delivered s) came
        → Thinned (delivered s') (came ++ taken w s)
    unfolding round taken
    round-Thinned w s s' came e t = elim (Bool-cases s.connected) [
      | inl on ↦
          subst
            (λ (k : Bool). Thinned (delivered s') (
              came
              ++ (if k
                  then (if (flush codec w.flushes s).1 then of_serving w.serving else [])
                  else of_waiting w.waiting)))
            (sym on) (exchange-Thinned w s s' came (ground (arith, on, e)) t)
      | inr off ↦
          subst
            (λ (k : Bool). Thinned (delivered s') (
              came
              ++ (if k
                  then (if (flush codec w.flushes s).1 then of_serving w.serving else [])
                  else of_waiting w.waiting)))
            (sym off) (reconnect-Thinned w.now w.waiting s s' came (ground (arith, off, e)) t)
    ]

    -- However connections fail and whenever they come back, as long as every message can be serialized: what the
    -- sending task has written, with the message that it keeps after it, is a part of the messages that it was
    -- given, in their order and each at most once, and the newest message is never the one left out.
    pub Runs-Thinned :
        (came : List Message) (s : Sender) → Runs new_sender came s → Thinned (delivered s) came
    Runs-Thinned came s here = record { sublist = tt; newest = refl }
    Runs-Thinned came s (next {came = before} {all} {s₁} {s₂} w r e a) =
        subst (Thinned (delivered s₂)) (sym a)
          (round-Thinned w s₁ s₂ before e (Runs-Thinned before s₁ r))
