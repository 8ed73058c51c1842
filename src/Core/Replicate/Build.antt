-- ===== src/Core/Replicate/Build.antt =====
-- What a leader sends to a peer (`build_append_entries_for_peer` of crates/raftcore/src/lib.rs).
use ferris_ferry.Prelude.{
  ℕ, ◌+◌, ◌-◌, ◌≤◌, ◌≡◌, refl, ◌⊎◌, inl, inr, none, some, List, ◌∷◌, [], ok, arith, length, drop,
  ◌∙◌, ap, dec_le, Option-cases, leb, le→leb, wadd, if◌then◌else◌, leb-false, map_result,
}
use ferris_ferry.Types.{
  NodeId, LogEntry, Action, send_message, send_install_snapshot, append_entries,
}
use ferris_ferry.Core.State.{RaftCore}
use ferris_ferry.Core.Log.{last_log_index, log_term_at, log_slice}
use ferris_ferry.Core.Log.Bounds.{HasRoom, last_log_index-eq, log_term_at-bounds}
use ferris_ferry.Core.Log.Slices.{log_slice-suffix}
use ferris_ferry.Core.Replicate.{
  peer_next_index, peer_prev_log_index, append_entries_message, build_append_entries_for_peer,
  append_entries_to_peers,
}

-- the entries from an index on, as a slice of the log gives them: none up to the snapshot
abbrev pub entries_from : RaftCore → ℕ → List LogEntry
entries_from c from =
    if leb from c.last_included_index then [] else drop (from - c.last_included_index - 1) c.log

log_slice-from :
    (c : RaftCore) (from : ℕ)
    → HasRoom c 1
    → from ≤ c.last_included_index + length c.log + 1
    → log_slice c from (wadd (last_log_index c) 1) ≡ ok (entries_from c from)
log_slice-from c from r h = elim (dec_le from c.last_included_index) [
  | yes b ↦ unfold log_slice in rw (le→leb from c.last_included_index b) refl
  | no b ↦
      rw (leb-false from c.last_included_index (omega arith))
        (log_slice-suffix c from r (omega arith) h)
]

-- The slice of the last entry, if there is one after the snapshot.
pub log_slice-last :
    (c : RaftCore)
    → HasRoom c 1
    → log_slice c (last_log_index c) (wadd (last_log_index c) 1)
      ≡ ok (entries_from c (c.last_included_index + length c.log))
log_slice-last c r =
    ap (λ (from : ℕ). log_slice c from (wadd (last_log_index c) 1))
      (last_log_index-eq c (omega arith))
    ∙ log_slice-from c (c.last_included_index + length c.log) r (omega arith)

-- The message for a peer whose entry before the next one has the term `t`.
abbrev pub entries_for_peer : RaftCore → NodeId → ℕ → Action
entries_for_peer c peer t = send_message peer (
    append_entries (record {
      term = c.current_term;
      leader_id = c.id;
      prev_log_index = peer_prev_log_index c peer;
      prev_log_term = t;
      entries = entries_from c (peer_next_index c peer);
      leader_commit = c.commit_index;
    }))

next_le : (c : RaftCore) (peer : NodeId) → peer_next_index c peer ≤ peer_prev_log_index c peer + 1
next_le c peer = ground arith

append_entries_message-eq :
    (c : RaftCore) (peer : NodeId) (t : ℕ)
    → HasRoom c 1
    → log_term_at c (peer_prev_log_index c peer) ≡ some t
    → append_entries_message c peer t ≡ ok (entries_for_peer c peer t)
unfolding append_entries_message
append_entries_message-eq c peer t r h =
    rw
      (log_slice-from c (peer_next_index c peer) r
        (omega (arith, (log_term_at-bounds c (peer_prev_log_index c peer) t h).1, next_le c peer)))
      refl

either_message :
    (c : RaftCore) (peer : NodeId)
    → HasRoom c 1
    → ((t : ℕ) × (log_term_at c (peer_prev_log_index c peer) ≡ some t)
        × (build_append_entries_for_peer c peer ≡ ok (entries_for_peer c peer t)))
      ⊎ ((log_term_at c (peer_prev_log_index c peer) ≡ none)
          × (build_append_entries_for_peer c peer
              ≡ ok (
                  send_install_snapshot peer c.current_term c.last_included_index
                    c.last_included_term)))
unfolding build_append_entries_for_peer
either_message c peer r = elim (Option-cases (log_term_at c (peer_prev_log_index c peer))) [
  | inl e ↦ inr (e, rw (e, build_append_entries_for_peer) refl)
  | inr (t, e) ↦
      inl (t, e, rw (e, build_append_entries_for_peer) (append_entries_message-eq c peer t r e))
]

pub build-ok :
    (c : RaftCore) (peer : NodeId)
    → HasRoom c 1
    → (a : Action) × (build_append_entries_for_peer c peer ≡ ok a)
build-ok c peer r = elim (either_message c peer r) [ inl (t, e, p) ↦ (_, p) | inr (e, p) ↦ (_, p) ]

map_build-ok :
    (c : RaftCore) (peers : List NodeId)
    → HasRoom c 1
    → (sent : List Action) × (map_result (build_append_entries_for_peer c) peers ≡ ok sent)
unfolding map_result
map_build-ok c [] r = ([], refl)
map_build-ok c (p ∷ ps) r =
    let (a, e) = build-ok c p r in
    let (rest, e') = map_build-ok c ps r in (a ∷ rest, rw e (rw e' refl))

-- Sending to every peer does not panic.
pub append_entries_to_peers-ok :
    (c : RaftCore) → HasRoom c 1 → (sent : List Action) × (append_entries_to_peers c ≡ ok sent)
unfolding append_entries_to_peers
append_entries_to_peers-ok c r = map_build-ok c c.peers r
