-- ===== src/Loop/Tickets.antt =====
-- The clients that wait on the event loop of crates/raft-event-loop/src/lib.rs, what they wait for, and the
-- answers that they have.
use ferris_ferry.Prelude.{
  ℕ, ◌≡◌, refl, ap, ◌∙◌, ◌⊎◌, inl, inr, Option, none, some, List, [], ◌∷◌, ◌++◌, true, ◌||◌, ◌==◌,
  Bool-cases, lookup, values, contains, lookup-remove, arith,
}
use ferris_ferry.Loop.{Answer, accepted, RaftDriver, lost, notify_proposal, notify_read}

-- the clients that have their answer
unfoldable pub clients : List (ℕ × Answer) → List ℕ
clients [] = []
clients ((client, result) ∷ rest) = client ∷ clients rest

-- What a client waits for: the entry of an index, or a barrier of reads.
pub data Ticket : Type 0 where
  entry_of : ℕ → Ticket
  barrier_of : ℕ → Ticket

module _ {S : Type 0} where
  abbrev pub Waiting : RaftDriver S → Ticket → ℕ → Type 0
  Waiting d (entry_of index) client = lookup index d.pending_proposals ≡ some client
  Waiting d (barrier_of id) client = lookup id d.pending_reads ≡ some client

  abbrev pub Answered : RaftDriver S → ℕ → Type 0
  Answered d client = contains client (clients d.answers) ≡ true

  -- A client waits for what its ticket says, or has its answer.
  abbrev pub Tracked : RaftDriver S → Ticket → ℕ → Type 0
  Tracked d ticket client = Waiting d ticket client ⊎ Answered d client

  -- Nobody waits, and a client has its answer.
  abbrev pub Dismissed : RaftDriver S → ℕ → Type 0
  Dismissed d client = (d.pending_proposals ≡ []) × (d.pending_reads ≡ []) × Answered d client

contains-append :
    (k : ℕ) (xs ys : List ℕ) → contains k (xs ++ ys) ≡ (contains k xs || contains k ys)
unfolding contains
contains-append k [] ys = refl
contains-append k (x ∷ xs) ys = ground (arith, contains-append k xs ys)

clients-append : (xs ys : List (ℕ × Answer)) → clients (xs ++ ys) ≡ clients xs ++ clients ys
unfolding clients
clients-append [] ys = refl
clients-append (x ∷ xs) ys = ap (◌∷◌ x.0) (clients-append xs ys)

-- An answer that is given stays given.
pub answered-append :
    (k : ℕ) (xs ys : List (ℕ × Answer))
    → contains k (clients (xs ++ ys)) ≡ (contains k (clients xs) || contains k (clients ys))
answered-append k xs ys = rw (clients-append xs ys) (contains-append k (clients xs) (clients ys))

pub contains-values :
    (k v : ℕ) (m : List (ℕ × ℕ)) → lookup k m ≡ some v → contains v (values m) ≡ true
unfolding lookup contains values
contains-values k v [] h = cc
contains-values k v ((j, w) ∷ m) h = ground (arith, contains-values k v m)

pub clients-lost : (m : List (ℕ × ℕ)) → clients (lost m) ≡ values m
unfolding clients values
clients-lost [] = refl
clients-lost ((j, w) ∷ m) = ap (◌∷◌ w) (clients-lost m)

module _ {S : Type 0} where
  -- Further answers forget nobody.
  pub respond-Tracked :
      (d d' : RaftDriver S) (more : List (ℕ × Answer)) (client : ℕ)
      → d'.answers ≡ d.answers ++ more
      → Answered d client
      → Answered d' client
  respond-Tracked d d' more client e h =
      ap (λ l. contains client (clients l)) e
      ∙ answered-append client d.answers more
      ∙ ap (λ b. b || contains client (clients more)) h

  pub Answered-last :
      (d d' : RaftDriver S) (client : ℕ) (a : Answer)
      → d'.answers ≡ d.answers ++ (client, a) ∷ []
      → Answered d' client
  unfolding contains clients
  Answered-last d d' client a e =
      ground (arith, answered-append client d.answers ((client, a) ∷ []))

  pub notify_proposal-Tracked :
      (d : RaftDriver S) (index : ℕ) (ticket : Ticket) (client : ℕ) (o : Option ℕ)
      → lookup index d.pending_proposals ≡ o
      → Tracked d ticket client
      → Tracked (notify_proposal d index o) ticket client
  notify_proposal-Tracked d index ticket client none e h = h
  notify_proposal-Tracked d index ticket client (some other) e (inr a) = inr (
      respond-Tracked d (notify_proposal d index (some other)) ((other, accepted) ∷ []) client refl
        a)
  notify_proposal-Tracked d index (barrier_of k) client (some other) e (inl w) = inl w
  notify_proposal-Tracked d index (entry_of k) client (some other) e (inl w) =
      elim (Bool-cases (index == k)) [
        | inl s ↦
            inr (
              Answered-last d (notify_proposal d index (some other)) client accepted (ground arith))
        | inr n ↦ inl (rw (lookup-remove index k d.pending_proposals) (ground arith))
      ]

  pub notify_read-Tracked :
      (d : RaftDriver S) (id : ℕ) (ticket : Ticket) (client : ℕ) (o : Option ℕ)
      → lookup id d.pending_reads ≡ o
      → Tracked d ticket client
      → Tracked (notify_read d id o) ticket client
  notify_read-Tracked d id ticket client none e h = h
  notify_read-Tracked d id ticket client (some other) e (inr a) =
      inr (respond-Tracked d (notify_read d id (some other)) ((other, accepted) ∷ []) client refl a)
  notify_read-Tracked d id (entry_of k) client (some other) e (inl w) = inl w
  notify_read-Tracked d id (barrier_of k) client (some other) e (inl w) =
      elim (Bool-cases (id == k)) [
        | inl s ↦
            inr (Answered-last d (notify_read d id (some other)) client accepted (ground arith))
        | inr n ↦ inl (rw (lookup-remove id k d.pending_reads) (ground arith))
      ]

  -- A part that leaves the maps and the answers alone.
  pub record SameClients (d d' : RaftDriver S) : Type 0 where
    pub proposals : d'.pending_proposals ≡ d.pending_proposals
    pub reads : d'.pending_reads ≡ d.pending_reads
    pub answers : d'.answers ≡ d.answers

  pub SameClients-Tracked :
      (d d' : RaftDriver S) (ticket : Ticket) (client : ℕ)
      → SameClients d d'
      → Tracked d ticket client
      → Tracked d' ticket client
  SameClients-Tracked d d' (entry_of k) client s (inl w) = inl (ap (lookup k) s.proposals ∙ w)
  SameClients-Tracked d d' (barrier_of k) client s (inl w) = inl (ap (lookup k) s.reads ∙ w)
  SameClients-Tracked d d' ticket client s (inr a) =
      inr (ap (λ l. contains client (clients l)) s.answers ∙ a)
