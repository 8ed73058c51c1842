-- ===== src/Loop/Channels.antt =====
-- The clients that wait on the event loop of crates/raft-event-loop/src/lib.rs: none is forgotten.
use ferris_ferry.Prelude.{
  ℕ, ◌≡◌, refl, subst, inl, inr, List, [], ◌∷◌, ◌++◌, true, false, not, ◌&&◌, leb, Bool-cases,
  is_empty, ok, >>=-eq-ok, ok-injective, lookup, wadd, arith,
}
use ferris_ferry.Types.{
  Bytes, Message, Action, send_message, apply_to_state_machine, persist_metadata,
  persist_log_entries, send_install_snapshot, install_snapshot, read_barrier_ready,
}
use ferris_ferry.Core.State.{Rng, is_leader}
use ferris_ferry.Core.Node.{receive}
use ferris_ferry.Loop.{
  AppliedEntry, Storage, RaftDriver, lost, notify_proposal, resolve_proposal, resolve_read,
  drain_pending, snapshot_application, deliver, applied_command, count_command, apply_command,
  handle_action, handle_actions, handle_message, on_message,
}
use ferris_ferry.Loop.Tickets.{
  Ticket, entry_of, barrier_of, Answered, Tracked, Dismissed, answered-append, contains-values,
  clients-lost, respond-Tracked, notify_proposal-Tracked, notify_read-Tracked, SameClients,
  SameClients-Tracked,
}

module _ {S : Type 0} (io : Storage S) (application : List AppliedEntry → Bytes) where
  snapshot_application-SameClients :
      (d d' : RaftDriver S) → snapshot_application io application d ≡ ok d' → SameClients d d'
  unfolding snapshot_application
  snapshot_application-SameClients d d' e = record {
    proposals = ground arith;
    reads = ground arith;
    answers = ground arith;
  }

  -- the rest of the handler, after the client is answered
  count_command-SameClients :
      (d d' : RaftDriver S) → count_command io application d ≡ ok d' → SameClients d d'
  unfolding count_command
  count_command-SameClients d d' e =
      elim (Bool-cases (leb d.snapshot_threshold (wadd d.num_entries 1))) [
        | inl b ↦
            (let s =
                snapshot_application-SameClients (record d { num_entries = wadd d.num_entries 1 })
                  d' (rw b at e) in
              record { proposals = s.proposals; reads = s.reads; answers = s.answers })
        | inr b ↦ ground arith
      ]

  apply_command-Tracked :
      (d d' : RaftDriver S) (index : ℕ) (command : Bytes) (ticket : Ticket) (client : ℕ)
      → apply_command io application d index command ≡ ok d'
      → Tracked d ticket client
      → Tracked d' ticket client
  unfolding apply_command resolve_proposal
  apply_command-Tracked d d' index command ticket client e h =
      let resolved = notify_proposal d index (lookup index d.pending_proposals) in
      let w =
        notify_proposal-Tracked d index ticket client (lookup index d.pending_proposals) refl h in
      elim (Bool-cases (is_empty command)) [
        | inl b ↦ subst (λ r. Tracked r ticket client) (ok-injective (rw b at e)) w
        | inr b ↦
            (let s =
                count_command-SameClients (deliver resolved (applied_command command)) d'
                  (rw b at e) in
              SameClients-Tracked resolved d' ticket client
                (record { proposals = s.proposals; reads = s.reads; answers = s.answers }) w)
      ]

  handle_action-Tracked :
      (d d' : RaftDriver S) (a : Action) (ticket : Ticket) (client : ℕ)
      → handle_action io application d a ≡ ok d'
      → Tracked d ticket client
      → Tracked d' ticket client
  unfolding handle_action resolve_read
  handle_action-Tracked d d' (send_message target message) ticket client e h =
      SameClients-Tracked d d' ticket client (ground arith) h
  handle_action-Tracked d d' (persist_metadata term vote) ticket client e h =
      SameClients-Tracked d d' ticket client (ground arith) h
  handle_action-Tracked d d' (persist_log_entries start entries) ticket client e h =
      SameClients-Tracked d d' ticket client (ground arith) h
  handle_action-Tracked d d' (install_snapshot index index_term payload) ticket client e h =
      SameClients-Tracked d d' ticket client (ground arith) h
  handle_action-Tracked d d' (send_install_snapshot target term index index_term) ticket client e
        h =
      SameClients-Tracked d d' ticket client (ground arith) h
  handle_action-Tracked d d' (apply_to_state_machine index command) ticket client e h =
      apply_command-Tracked d d' index command ticket client e h
  handle_action-Tracked d d' (read_barrier_ready id) ticket client e h =
      subst (λ r. Tracked r ticket client) (ok-injective e)
        (notify_read-Tracked d id ticket client (lookup id d.pending_reads) refl h)

  pub handle_actions-Tracked :
      (d d' : RaftDriver S) (actions : List Action) (ticket : Ticket) (client : ℕ)
      → handle_actions io application d actions ≡ ok d'
      → Tracked d ticket client
      → Tracked d' ticket client
  unfolding handle_actions
  handle_actions-Tracked d d' [] ticket client e h =
      subst (λ r. Tracked r ticket client) (ok-injective e) h
  handle_actions-Tracked d d' (a ∷ rest) ticket client e h =
      let (d₁, p, q) = >>=-eq-ok (handle_action io application d a) _ e in
      handle_actions-Tracked d₁ d' rest ticket client q
        (handle_action-Tracked d d₁ a ticket client p h)

  handle_message-Tracked :
      (rng : Rng) (d d' : RaftDriver S) (msg : Message) (ticket : Ticket) (client : ℕ)
      → handle_message io application rng d msg ≡ ok d'
      → Tracked d ticket client
      → Tracked d' ticket client
  unfolding handle_message
  handle_message-Tracked rng d d' msg ticket client e h =
      let (r, p, q) = >>=-eq-ok (receive rng d.core msg) _ e in
      handle_actions-Tracked (record d { core = r.0 }) d' r.1 ticket client q
        (SameClients-Tracked d (record d { core = r.0 }) ticket client
          (record { proposals = refl; reads = refl; answers = refl }) h)

  drain_pending-Answered :
      (d : RaftDriver S) (ticket : Ticket) (client : ℕ)
      → Tracked d ticket client
      → Answered (drain_pending d) client
  unfolding drain_pending
  drain_pending-Answered d ticket client (inr a) =
      respond-Tracked d (drain_pending d) (lost d.pending_proposals ++ lost d.pending_reads) client
        refl a
  drain_pending-Answered d (entry_of k) client (inl w) =
      rw
        (
          answered-append client d.answers (lost d.pending_proposals ++ lost d.pending_reads),
          answered-append client (lost d.pending_proposals) (lost d.pending_reads),
          clients-lost d.pending_proposals,
          contains-values k client d.pending_proposals w,
        )
        (ground arith)
  drain_pending-Answered d (barrier_of k) client (inl w) =
      rw
        (
          answered-append client d.answers (lost d.pending_proposals ++ lost d.pending_reads),
          answered-append client (lost d.pending_proposals) (lost d.pending_reads),
          clients-lost d.pending_reads,
          contains-values k client d.pending_reads w,
        )
        (ground arith)

  -- A client that waits, or has its answer, before a message from the network waits for the same, or has
  -- its answer, after it, where its handling does not panic. If the message costs the node its leadership, then no
  -- client waits any more: both maps are empty, and each client that was waiting has an answer.
  pub on_message-Tracked :
      (rng : Rng) (d d' : RaftDriver S) (msg : Message) (ticket : Ticket) (client : ℕ)
      → on_message io application rng d msg ≡ ok d'
      → Tracked d ticket client
      → Tracked d' ticket client
        × (is_leader d.core ≡ true → is_leader d'.core ≡ false → Dismissed d' client)
  unfolding on_message drain_pending
  on_message-Tracked rng d d' msg ticket client e h =
      let (d₁, p, q) = >>=-eq-ok (handle_message io application rng d msg) _ e in
      let w = handle_message-Tracked rng d d₁ msg ticket client p h in
      elim (Bool-cases (is_leader d.core && not (is_leader d₁.core))) [
        | inl b ↦
            (let a =
                subst (λ r. Dismissed r client) (ok-injective (rw b at q))
                  (refl, refl, drain_pending-Answered d₁ ticket client w) in
              let (none_wait, none_read, answered) = a in (inr answered, λ was lost. a))
        | inr b ↦ (
          subst (λ r. Tracked r ticket client) (ok-injective (rw b at q)) w,
          λ was lost. ground arith,
        )
      ]
