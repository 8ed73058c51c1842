-- ===== src/Simulation/Delivery.antt =====
-- What the simulated cluster of crates/raftcore/src/lib.rs does with messages.
use ferris_ferry.Prelude.{
  eq-of_==, ℕ, zero, suc, ◌≡◌, refl, sym, ap, ◌∙◌, subst, inl, inr, List, [], ◌∷◌, true, false, ltb,
  ◌==◌, Bool-cases, All, All-append, length, take, drop, ok, >>=-eq-ok, ok-injective, lookup,
  lookup-insert, contains, arith,
}
use ferris_ferry.Types.{
  NodeId, Action, send_message, apply_to_state_machine, persist_metadata, persist_log_entries,
  send_install_snapshot, read_barrier_ready,
}
use ferris_ferry.Core.State.{Rng, RaftCore}
use ferris_ferry.Core.Node.{receive}
use ferris_ferry.Simulation.{
  Envelope, TestCluster, Results, node, set_node, messages, collect_actions, deliver_message,
  deliver_one, deliver_each, deliver_all,
}

-- No message of the queue is from the node.
abbrev pub NoneFrom : NodeId → List Envelope → Type 0
NoneFrom id = All (λ e. (e.sender == id) ≡ false)

-- A node that is cut off: it stays as it is, it stays cut off, and the queue has no message from it.
pub record Isolated (id : NodeId) (c c' : TestCluster) : Type 0 where
  pub unchanged : lookup id c'.nodes ≡ lookup id c.nodes
  pub still : c'.partitioned ≡ c.partitioned
  pub silent : NoneFrom id c'.pending_messages

messages-NoneFrom :
    (id from : NodeId) (actions : List Action)
    → (from == id) ≡ false
    → NoneFrom id (messages from actions)
unfolding messages
messages-NoneFrom id from [] h = tt
messages-NoneFrom id from (send_message target message ∷ rest) h =
    (h, messages-NoneFrom id from rest h)
messages-NoneFrom id from (apply_to_state_machine index command ∷ rest) h =
    messages-NoneFrom id from rest h
messages-NoneFrom id from (persist_metadata term vote ∷ rest) h = messages-NoneFrom id from rest h
messages-NoneFrom id from (persist_log_entries index entries ∷ rest) h =
    messages-NoneFrom id from rest h
messages-NoneFrom id from (send_install_snapshot peer term index index_term ∷ rest) h =
    messages-NoneFrom id from rest h
messages-NoneFrom id from (read_barrier_ready barrier ∷ rest) h = messages-NoneFrom id from rest h
messages-NoneFrom id from (Action.install_snapshot index index_term payload ∷ rest) h =
    messages-NoneFrom id from rest h

collect_actions-Isolated :
    (id from : NodeId) (c : TestCluster) (n : RaftCore) (actions : List Action)
    → contains id c.partitioned ≡ true
    → contains from c.partitioned ≡ false
    → (from == id) ≡ false
    → NoneFrom id c.pending_messages
    → Isolated id c (collect_actions (set_node c from n) from actions).0
unfolding collect_actions
collect_actions-Isolated id from c n actions cut free other silent = rw free (record {
  unchanged = ground (arith, other, lookup-insert from id n c.nodes);
  still = refl;
  silent =
      All-append (λ (e : Envelope). (e.sender == id) ≡ false) c.pending_messages
        (messages from actions) silent (messages-NoneFrom id from actions other);
})

deliver_message-Isolated :
    (id : NodeId) (rng : Rng) (e : Envelope) (c : TestCluster) (r : TestCluster × List Action)
    → contains id c.partitioned ≡ true
    → contains e.recipient c.partitioned ≡ false
    → (e.recipient == id) ≡ false
    → NoneFrom id c.pending_messages
    → deliver_message rng e c ≡ ok r
    → Isolated id c r.0
unfolding deliver_message
deliver_message-Isolated id rng e c r cut on other silent h =
    let (receiver, p, q) = >>=-eq-ok (node c e.recipient) _ h in
    let (s, p', q') = >>=-eq-ok (receive rng receiver e.message) _ q in
    subst (λ (x : TestCluster × List Action). Isolated id c x.0) (ok-injective q')
      (collect_actions-Isolated id e.recipient c s.0 s.1 cut on other silent)

deliver_one-Isolated :
    (id : NodeId) (rng : Rng) (e : Envelope) (c : TestCluster) (results : Results)
    (r : TestCluster × Results)
    → contains id c.partitioned ≡ true
    → NoneFrom id c.pending_messages
    → deliver_one rng e c results ≡ ok r
    → Isolated id c r.0
unfolding deliver_one
deliver_one-Isolated id rng e c results r cut silent h =
    elim (Bool-cases (contains e.recipient c.partitioned)) [
      | inl off ↦
          subst (λ (x : TestCluster × Results). Isolated id c x.0) (ok-injective (rw off at h))
            (record { unchanged = refl; still = refl; silent = silent })
      | inr on ↦
          (let (d, p, q) = >>=-eq-ok (deliver_message rng e c) _ (rw on at h) in
            subst (λ (x : TestCluster × Results). Isolated id c x.0) (ok-injective q)
              (deliver_message-Isolated id rng e c d cut on (elsewhere on) silent p))
    ]
  where
    elsewhere : contains e.recipient c.partitioned ≡ false → (e.recipient == id) ≡ false
    elsewhere on = elim (Bool-cases (e.recipient == id)) [
      | inl same ↦ absurd (
          both
            (subst (λ (x : ℕ). contains x c.partitioned ≡ true) (sym (eq-of_== e.recipient id same))
              cut)
            on)
      | inr other ↦ other
    ]
      where
        both :
            contains e.recipient c.partitioned ≡ true
            → contains e.recipient c.partitioned ≡ false
            → ⊥
        both x y = cc

deliver_each-Isolated :
    (id : NodeId) (rngs : ℕ → Rng) (es : List Envelope) (c : TestCluster) (results : Results)
    (r : TestCluster × Results)
    → contains id c.partitioned ≡ true
    → NoneFrom id c.pending_messages
    → deliver_each rngs es c results ≡ ok r
    → Isolated id c r.0
unfolding deliver_each
deliver_each-Isolated id rngs [] c results r cut silent h =
    subst (λ (x : TestCluster × Results). Isolated id c x.0) (ok-injective h)
      (record { unchanged = refl; still = refl; silent = silent })
deliver_each-Isolated id rngs (e ∷ es) c results r cut silent h =
    let (d, p, q) = >>=-eq-ok (deliver_one (rngs 0) e c results) _ h in
    let first = deliver_one-Isolated id (rngs 0) e c results d cut silent p in
    let rest =
      deliver_each-Isolated id (λ n. rngs (suc n)) es d.0 d.1 r (ap (contains id) first.still ∙ cut)
        first.silent q in
    record {
      unchanged = rest.unchanged ∙ first.unchanged;
      still = rest.still ∙ first.still;
      silent = rest.silent;
    }

NoneFrom-drop : (id n : ℕ) (es : List Envelope) → NoneFrom id es → NoneFrom id (drop n es)
NoneFrom-drop id zero es h = h
NoneFrom-drop id (suc n) [] h = tt
NoneFrom-drop id (suc n) (e ∷ es) h = NoneFrom-drop id n es h.1

-- While a node is cut off and has no message under way, a delivery of all messages leaves it as it is, and no
-- message from it is under way afterwards, however many messages there are.
pub deliver_all-Isolated :
    (id : NodeId) (rngs : ℕ → Rng) (c c' : TestCluster) (results : Results)
    → contains id c.partitioned ≡ true
    → NoneFrom id c.pending_messages
    → deliver_all rngs c ≡ ok (c', results)
    → Isolated id c c'
unfolding deliver_all
deliver_all-Isolated id rngs c c' results cut silent h =
    elim (Bool-cases (ltb 50 (length c.pending_messages))) [
      | inl many ↦ again (drop 50 c.pending_messages) (
          deliver_each-Isolated id rngs (take 50 c.pending_messages)
            (record c { pending_messages = drop 50 c.pending_messages }) [] (c', results) cut
            (NoneFrom-drop id 50 c.pending_messages silent) (rw many at h))
      | inr few ↦ again [] (
          deliver_each-Isolated id rngs c.pending_messages (record c { pending_messages = [] }) []
            (c', results) cut tt (rw few at h))
    ]
  where
    again :
        (queue : List Envelope)
        → Isolated id (record c { pending_messages = queue }) c'
        → Isolated id c c'
    again queue i = record { unchanged = i.unchanged; still = i.still; silent = i.silent }
