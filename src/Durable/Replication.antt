-- ===== src/Durable/Replication.antt =====
-- Durability of what a leader does, and of a log that takes entries (crates/raftcore/src/lib.rs).
use ferris_ferry.Prelude.{
  ℕ, ◌+◌, ◌-◌, ◌≤◌, ◌≡◌, refl, sym, ap, ap₂, take-append-drop, take_of_length-le, ◌∙◌, List, [],
  ◌∷◌, ◌++◌, true, ok, arith, >>=-eq-ok, map_result, map, length, take, drop, length-append,
  length-take, length-drop, length-snoc, drop-append_left, leb-false, Bool-cases, inl, inr,
  is_empty, wadd-eq-add, wadd,
}
use ferris_ferry.Types.{
  NodeId, LogEntry, Message, Action, AppendEntriesRpc, persist_log_entries, send_message,
}
use ferris_ferry.Core.State.{RaftCore}
use ferris_ferry.Core.Log.{last_log_index}
use ferris_ferry.Core.Log.Bounds.{HasRoom, last_log_index-eq}
use ferris_ferry.Core.Log.Slices.{log_slice-suffix}
use ferris_ferry.Core.Replicate.{
  build_append_entries_for_peer, append_entries_to_peers, initialize_leader_state, push_entry,
  track_peers,
}
use ferris_ferry.Core.Replicate.Frame.{track_peers-frame}
use ferris_ferry.Core.Replicate.Build.{entries_from, log_slice-last}
use ferris_ferry.Core.Append.{apply_actions, persist_appended}
use ferris_ferry.Core.Commit.{ready_barriers}
use ferris_ferry.Core.Append.Agreeing.{length-merge-le}
use ferris_ferry.Core.Append.Merge.{merge, stored}
use ferris_ferry.Durable.{
  Disk, image, persist, persist_all, no_persist, persists_first, all_contiguous,
}

pub build-no_persist :
    (c : RaftCore) (peer : NodeId) {a : Action}
    → build_append_entries_for_peer c peer ≡ ok a
    → no_persist (a ∷ []) ≡ true
unfolding build_append_entries_for_peer no_persist
build-no_persist c peer h = ground arith

map_build-no_persist :
    (c : RaftCore) (peers : List NodeId) {sent : List Action}
    → map_result (build_append_entries_for_peer c) peers ≡ ok sent
    → no_persist sent ≡ true
unfolding map_result no_persist
map_build-no_persist c [] h = ground arith
map_build-no_persist c (p ∷ ps) h =
    let (a, e, k) = >>=-eq-ok (build_append_entries_for_peer c p) _ h in
    let (rest, e', k') = >>=-eq-ok (map_result (build_append_entries_for_peer c) ps) _ k in
    ground (arith, build-no_persist c p e, map_build-no_persist c ps e', k')

-- What is sent to the peers writes nothing.
pub append_entries_to_peers-no_persist :
    (c : RaftCore) {sent : List Action}
    → append_entries_to_peers c ≡ ok sent
    → no_persist sent ≡ true
unfolding append_entries_to_peers
append_entries_to_peers-no_persist c h = map_build-no_persist c c.peers h

pub map_send-no_persist :
    (m : Message) (peers : List NodeId) → no_persist (map (λ p. send_message p m) peers) ≡ true
unfolding no_persist
map_send-no_persist m [] = refl
map_send-no_persist m (p ∷ ps) = map_send-no_persist m ps

pub apply_actions-no_persist :
    (base index : ℕ) (es : List LogEntry) → no_persist (apply_actions base index es) ≡ true
unfolding apply_actions no_persist
apply_actions-no_persist base index [] = refl
apply_actions-no_persist base index (e ∷ es) = apply_actions-no_persist base (index + 1) es

pub ready_barriers-no_persist :
    (count quorum : ℕ) (m : List (ℕ × ℕ)) → no_persist (ready_barriers count quorum m) ≡ true
unfolding ready_barriers no_persist
ready_barriers-no_persist count quorum [] = refl
ready_barriers-no_persist count quorum ((id, n) ∷ m) =
    ground (arith, ready_barriers-no_persist count quorum m)

-- One more entry: what is written is the entry, at the end.
pub pushed-persist :
    (d : Disk) (c : RaftCore) (e : LogEntry)
    → HasRoom (push_entry c e) 1
    → d.log ≡ c.log
    → d.last_included_index ≡ c.last_included_index
    → persist d (
        persist_log_entries
          (last_log_index (push_entry c e))
          (entries_from (push_entry c e) (c.last_included_index + length (push_entry c e).log)))
      ≡ record d { log = c.log ++ e ∷ [] }
unfolding persist push_entry
pushed-persist d c e r p q = ap (λ l. record d { log = l }) (ap₂ ◌++◌ before after)
  where
    last : last_log_index (push_entry c e) ≡ c.last_included_index + length c.log + 1
    last = omega (arith, last_log_index-eq (push_entry c e) (omega (arith, r)), length-snoc c.log e)

    before : take (last_log_index (push_entry c e) - d.last_included_index - 1) d.log ≡ c.log
    before =
        ap (take (last_log_index (push_entry c e) - d.last_included_index - 1)) p
        ∙ take_of_length-le (last_log_index (push_entry c e) - d.last_included_index - 1) c.log
            (omega (arith, last))

    after :
        entries_from (push_entry c e) (c.last_included_index + length (c.log ++ e ∷ [])) ≡ e ∷ []
    after =
        rw
          (leb-false (c.last_included_index + length (c.log ++ e ∷ [])) c.last_included_index
            (omega (arith, length-snoc c.log e)))
          (ap (λ (n : ℕ). drop n (c.log ++ e ∷ []))
              {x = c.last_included_index + length (c.log ++ e ∷ []) - c.last_included_index - 1}
              {y = length c.log} (omega (arith, length-snoc c.log e))
            ∙ drop-append_left c.log (e ∷ []))

-- a new leader's no-op, its log, and its view of the peers
abbrev pub noop : RaftCore → LogEntry
noop c = record { term = c.current_term; command = [] }

abbrev pub tracked : RaftCore → RaftCore
tracked c =
    track_peers (wadd (last_log_index (push_entry c (noop c))) 1) c.peers (push_entry c (noop c))

abbrev pub leader_entry : RaftCore → Action
leader_entry c = persist_log_entries (last_log_index (push_entry c (noop c))) (
    entries_from (push_entry c (noop c))
      (c.last_included_index + length (push_entry c (noop c)).log))

pub image-tracked : (c : RaftCore) → image (tracked c) ≡ image (push_entry c (noop c))
image-tracked c = ap image (
    track_peers-frame (wadd (last_log_index (push_entry c (noop c))) 1) c.peers
      (push_entry c (noop c)))

pub stored-HasRoom :
    (c : RaftCore) (req : AppendEntriesRpc)
    → HasRoom c (length req.entries + 1)
    → c.last_included_index ≤ req.prev_log_index
    → req.prev_log_index ≤ c.last_included_index + length c.log
    → HasRoom (stored c req) 1
stored-HasRoom c req r l h =
    let j = req.prev_log_index - c.last_included_index in
    omega (
      arith,
      length-append (take j c.log) (merge req.entries (drop j c.log)),
      length-take j c.log (omega arith),
      length-drop j c.log,
      length-merge-le req.entries (drop j c.log),
    )

pub initialize_leader_state-eq :
    (c : RaftCore) → HasRoom c 2 → initialize_leader_state c ≡ ok (tracked c, leader_entry c)
unfolding initialize_leader_state push_entry last_log_index
initialize_leader_state-eq c r =
    let frame =
      track_peers-frame (wadd (last_log_index (push_entry c (noop c))) 1) c.peers
        (push_entry c (noop c)) in
    let room : HasRoom (tracked c) 1 = rw frame (omega (arith, length-snoc c.log (noop c))) in
    rw (log_slice-last (tracked c) room) (
      ap
        (λ (t : RaftCore). ok (
          tracked c,
          persist_log_entries (last_log_index t)
              (entries_from t (t.last_included_index + length t.log)),
        ))
        frame)

merge_empty : (es old : List LogEntry) → is_empty es ≡ true → merge es old ≡ old
unfolding merge
merge_empty [] old h = refl
merge_empty (e ∷ es) old h = cc

-- The entries that a follower writes are the part of its log after the request's previous entry.
pub persist_appended-eq :
    (c : RaftCore) (req : AppendEntriesRpc)
    → HasRoom (stored c req) 1
    → c.last_included_index ≤ req.prev_log_index
    → req.prev_log_index ≤ c.last_included_index + length c.log
    → (d : Disk) → d.log ≡ c.log
    → d.last_included_index ≡ c.last_included_index
    → (written : List Action) × (persist_appended (stored c req) req ≡ ok written)
      × (persist_all d written ≡ record d { log = (stored c req).log })
      × ((xs : List Action) → persists_first xs ≡ true → persists_first (written ++ xs) ≡ true)
      × (all_contiguous d written ≡ true)
persist_appended-eq c req r l h d p q = elim (Bool-cases (is_empty req.entries)) [
  | inl e ↦ (
    [],
    unfold persist_appended in rw e refl,
    unfold persist_all in unchanged e,
    λ xs k. k,
    unfold all_contiguous in refl,
  )
  | inr e ↦ (
    persist_log_entries (req.prev_log_index + 1) (suffix (stored c req).log) ∷ [],
    unfold persist_appended in
        rw e (
          rw (wadd-eq-add req.prev_log_index 1 (omega (arith, bound))) (
            rw (log_slice-suffix (stored c req) (req.prev_log_index + 1) r (omega arith) bound)
              refl)),
    unfold persist_all in ap (λ k. record d { log = k }) replaced,
    λ xs k. unfold persists_first in k,
    unfold all_contiguous in
        ground (
          arith,
          ap length p,
          r,
          bound,
          length-drop (req.prev_log_index + 1 - c.last_included_index - 1) (stored c req).log,
        ),
  )
]
  where
    j : ℕ
    j = req.prev_log_index - c.last_included_index

    merged : List LogEntry
    merged = merge req.entries (drop j c.log)

    suffix : List LogEntry → List LogEntry
    suffix = drop (req.prev_log_index + 1 - c.last_included_index - 1)

    bound : req.prev_log_index + 1 ≤ c.last_included_index + length (take j c.log ++ merged) + 1
    bound = omega (arith, length-append (take j c.log) merged, length-take j c.log (omega arith))

    unchanged : is_empty req.entries ≡ true → d ≡ record d { log = take j c.log ++ merged }
    unchanged e =
        ap (λ k. record d { log = k })
          (p
            ∙ sym (take-append-drop j c.log)
            ∙ ap (◌++◌ (take j c.log)) (sym (merge_empty req.entries (drop j c.log) e)))

    replaced :
        take (req.prev_log_index + 1 - d.last_included_index - 1) d.log
          ++ suffix (take j c.log ++ merged)
        ≡ take j c.log ++ merged
    replaced =
        ap₂ ◌++◌
          (ap (take (req.prev_log_index + 1 - d.last_included_index - 1)) p
            ∙ ap (λ (n : ℕ). take n c.log) {x = req.prev_log_index + 1 - d.last_included_index - 1}
                {y = j} (omega arith))
          (ap (λ (n : ℕ). drop n (take j c.log ++ merged))
              {x = req.prev_log_index + 1 - c.last_included_index - 1} {y = length (take j c.log)}
              (omega (arith, length-take j c.log (omega arith)))
            ∙ drop-append_left (take j c.log) merged)
