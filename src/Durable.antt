-- ===== src/Durable.antt =====
-- What a crash leaves of a node: the storage that the persistence actions of
-- crates/raftcore/src/types.rs write, and the order in which a method asks for writes and messages.
pub mod Replication
pub mod Handlers
pub mod Appending
pub mod Step
use ferris_ferry.Prelude.{
  ℕ, ◌-◌, ◌≡◌, refl, sym, ◌∙◌, Option, List, [], ◌∷◌, ◌++◌, Bool, true, false, not, ◌&&◌,
  if◌then◌else◌, take, ltb, leb, u64_mod, ◌+◌, length, arith,
}
use ferris_ferry.Types.{
  NodeId, LogEntry, Action, send_message, apply_to_state_machine, persist_metadata,
  persist_log_entries, send_install_snapshot, install_snapshot, read_barrier_ready,
}
use ferris_ferry.Core.State.{RaftCore}

-- The durable state: term and vote, the snapshot's index and term, and the entries after it.
pub record Disk : Type 0 where
  pub current_term : ℕ
  pub voted_for : Option NodeId
  pub log : List LogEntry
  pub last_included_index : ℕ
  pub last_included_term : ℕ

-- what of a node must survive a crash
abbrev pub image : RaftCore → Disk
image c = record {
  current_term = c.current_term;
  voted_for = c.voted_for;
  log = c.log;
  last_included_index = c.last_included_index;
  last_included_term = c.last_included_term;
}

-- `PersistLogEntries` overwrites from its index on; an installed snapshot clears the log.
unfoldable pub persist : Disk → Action → Disk
persist d (persist_metadata term vote) = record d { current_term = term; voted_for = vote }
persist d (persist_log_entries start_index entries) = record d {
  log = take (start_index - d.last_included_index - 1) d.log ++ entries;
}
persist d (install_snapshot index term payload) = record d {
  log = [];
  last_included_index = index;
  last_included_term = term;
}
persist d (send_message target message) = d
persist d (apply_to_state_machine index command) = d
persist d (send_install_snapshot target term index index_term) = d
persist d (read_barrier_ready id) = d

unfoldable pub persist_all : Disk → List Action → Disk
unfolding persist
persist_all d [] = d
persist_all d (a ∷ rest) = persist_all (persist d a) rest

abbrev pub is_persist : Action → Bool
is_persist (persist_metadata term vote) = true
is_persist (persist_log_entries start_index entries) = true
is_persist (install_snapshot index term payload) = true
is_persist _ = false

abbrev pub is_send : Action → Bool
is_send (send_message target message) = true
is_send (send_install_snapshot target term index index_term) = true
is_send _ = false

unfoldable pub no_persist : List Action → Bool
no_persist [] = true
no_persist (a ∷ rest) = not (is_persist a) && no_persist rest

-- No write is asked for after the first message.
unfoldable pub persists_first : List Action → Bool
unfolding no_persist
persists_first [] = true
persists_first (a ∷ rest) =
    let later = persists_first rest in if is_send a then no_persist rest else later

pub persist_all-append :
    (d : Disk) (xs ys : List Action) → persist_all d (xs ++ ys) ≡ persist_all (persist_all d xs) ys
unfolding persist_all
persist_all-append d [] ys = refl
persist_all-append d (x ∷ xs) ys = persist_all-append (persist d x) xs ys

pub no_persist-append :
    (xs ys : List Action)
    → no_persist xs ≡ true
    → no_persist ys ≡ true
    → no_persist (xs ++ ys) ≡ true
unfolding no_persist
no_persist-append [] ys h k = k
no_persist-append (x ∷ xs) ys h k = ground (arith, no_persist-append xs ys)

-- Actions that write nothing leave the disk alone, and are in order.
pub persist_all-no_persist :
    (d : Disk) (xs : List Action) → no_persist xs ≡ true → persist_all d xs ≡ d
unfolding persist_all no_persist
persist_all-no_persist d [] h = refl
persist_all-no_persist d (x ∷ xs) h = ground (arith, persist_all-no_persist d xs)

pub persists_first-no_persist : (xs : List Action) → no_persist xs ≡ true → persists_first xs ≡ true
unfolding persists_first
persists_first-no_persist [] h = refl
persists_first-no_persist (x ∷ xs) h = ground (arith, persists_first-no_persist xs)

-- New entries start in the log, or right after it, and end below 2^64.
abbrev pub contiguous : Disk → Action → Bool
contiguous d (persist_log_entries start_index entries) =
    ltb d.last_included_index start_index
    && (leb start_index (d.last_included_index + length d.log + 1)
        && ltb (start_index + length entries) u64_mod)
contiguous d _ = true

unfoldable pub all_contiguous : Disk → List Action → Bool
unfolding persist
all_contiguous d [] = true
all_contiguous d (a ∷ rest) = contiguous d a && all_contiguous (persist d a) rest

pub all_contiguous-cons :
    (d : Disk) (a : Action) (rest : List Action)
    → contiguous d a ≡ true
    → all_contiguous (persist d a) rest ≡ true
    → all_contiguous d (a ∷ rest) ≡ true
unfolding all_contiguous
all_contiguous-cons d a rest h k = ground arith

pub all_contiguous-append :
    (d : Disk) (xs ys : List Action)
    → all_contiguous d (xs ++ ys) ≡ (all_contiguous d xs && all_contiguous (persist_all d xs) ys)
unfolding all_contiguous persist_all
all_contiguous-append d [] ys = refl
all_contiguous-append d (x ∷ xs) ys = ground (arith, all_contiguous-append (persist d x) xs ys)

pub all_contiguous-no_persist :
    (d : Disk) (xs : List Action) → no_persist xs ≡ true → all_contiguous d xs ≡ true
unfolding all_contiguous no_persist
all_contiguous-no_persist d [] h = refl
all_contiguous-no_persist d (x ∷ xs) h = ground (arith, all_contiguous-no_persist d xs)

-- What a method does to a node's durable part is what its actions write, and they write before they send.
pub record IsDurable (c : RaftCore) (r : RaftCore × List Action) : Type 0 where
  pub written : persist_all (image c) r.1 ≡ image r.0
  pub first : persists_first r.1 ≡ true
  pub ranged : all_contiguous (image c) r.1 ≡ true

-- A method that writes nothing.
pub quiet :
    (c : RaftCore) (r : RaftCore × List Action)
    → image r.0 ≡ image c
    → no_persist r.1 ≡ true
    → IsDurable c r
quiet c r e h = record {
  written = persist_all-no_persist (image c) r.1 h ∙ sym e;
  first = persists_first-no_persist r.1 h;
  ranged = all_contiguous-no_persist (image c) r.1 h;
}
