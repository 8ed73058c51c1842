-- ===== src/Core/Applies.antt =====
-- What crates/raftcore/src/lib.rs hands to the application: the entries between the old commit index and
-- the new one, in order, each once.
use ferris_ferry.Prelude.{
  ℕ, zero, suc, ◌+◌, ◌-◌, ◌≤◌, ◌<◌, ◌≡◌, if◌then◌else◌, refl, sym, ap, ◌∙◌, some, List, [], ◌∷◌,
  ◌++◌, min, Bool-cases, inl, inr, ltb, Returns, length, get_elem?, get_elem?_of_lt, wadd,
  wadd-eq-add, u64_mod, arith,
}
use ferris_ferry.Types.{LogEntry, Action, apply_to_state_machine}
use ferris_ferry.Core.State.{RaftCore}
use ferris_ferry.Core.Log.{last_log_index, log_entry_at, log_slice}
use ferris_ferry.Core.Log.Bounds.{HasRoom, last_log_index-eq}
use ferris_ferry.Core.Log.Slices.{log_slice-entries}
use ferris_ferry.Core.Append.{apply_actions, follow_commit}
use ferris_ferry.Core.Commit.{release_barriers, advance_commit}
use ferris_ferry.Core.Commit.Quorum.{MatchBounded, next_commit-IsCommittable}

-- The actions apply the log's entries from the index after `base` up to and with `last`, in order.
abbrev pub InOrder : RaftCore → ℕ → ℕ → List Action → Type 0
InOrder c base last actions =
    (length actions ≡ last - base)
    × ((k : ℕ)
        → k < last - base
        → (e : LogEntry) × (log_entry_at c (base + 1 + k) ≡ some e)
          × (get_elem? actions k ≡ some (apply_to_state_machine (base + 1 + k) e.command)))

length-apply_actions :
    (base index : ℕ) (es : List LogEntry) → length (apply_actions base index es) ≡ length es
unfolding apply_actions
length-apply_actions base index [] = refl
length-apply_actions base index (e ∷ es) = ap suc (length-apply_actions base (index + 1) es)

get_elem?-apply_actions :
    (base index : ℕ) (es : List LogEntry) (k : ℕ) (e : LogEntry)
    → base + index + length es + 1 < u64_mod
    → get_elem? es k ≡ some e
    → get_elem? (apply_actions base index es) k
      ≡ some (apply_to_state_machine (base + 1 + (index + k)) e.command)
unfolding apply_actions
get_elem?-apply_actions base index [] k e h g = cc
get_elem?-apply_actions base index (x ∷ es) zero e h g =
    ap (λ (n : ℕ). some (apply_to_state_machine n x.command)) {x = wadd (wadd index base) 1}
      {y = base + 1 + (index + 0)}
      (omega (arith, wadd-eq-add index base, wadd-eq-add (wadd index base) 1))
    ∙ ground arith
get_elem?-apply_actions base index (x ∷ es) (suc k) e h g =
    get_elem?-apply_actions base (index + 1) es k e (omega arith) g
    ∙ ap (λ (n : ℕ). some (apply_to_state_machine n e.command)) (omega arith)

-- The slice of the log that is applied, and its actions.
apply_slice :
    (c : RaftCore) (base last : ℕ)
    → HasRoom c 1
    → c.last_included_index ≤ base
    → base ≤ last
    → last ≤ c.last_included_index + length c.log
    → Returns
        (log_slice c (wadd base 1) (wadd last 1))
        (λ es. InOrder c base last (apply_actions base 0 es))
apply_slice c base last room l h k =
    let (es, e, (n, at)) =
      log_slice-entries c (base + 1) (last + 1) room (omega arith) (omega arith) (omega arith) in
    (
      es,
      ap (λ (i : ℕ). log_slice c i (wadd last 1)) (wadd-eq-add base 1 (omega arith))
          ∙ ap (λ (i : ℕ). log_slice c (base + 1) i) (wadd-eq-add last 1 (omega arith))
          ∙ e,
      (
        length-apply_actions base 0 es ∙ n ∙ omega arith,
        λ i below.
            let (entry, p) = get_elem?_of_lt es i (omega (arith, n)) in
            (
              entry,
              sym (at i (omega arith)) ∙ p,
              get_elem?-apply_actions base 0 es i entry (omega (arith, n)) p
                  ∙ ap (λ (m : ℕ). some (apply_to_state_machine m entry.command)) (omega arith),
            ),
      ),
    )

-- A follower whose commit index lies between its snapshot and the end of its log follows its leader's
-- commit index without a panic: if that is above its own, its own becomes the smaller of that and its last
-- index, and otherwise it stays where it is; it has exactly the entries in between applied, in order.
pub follow_commit-InOrder :
    (c : RaftCore) (leader_commit : ℕ)
    → HasRoom c 1
    → c.last_included_index ≤ c.commit_index
    → c.commit_index ≤ c.last_included_index + length c.log
    → Returns (follow_commit c leader_commit) (λ r.
      (r.0.commit_index ≡ (
        if ltb c.commit_index leader_commit
        then min leader_commit (c.last_included_index + length c.log)
        else c.commit_index))
      × (c.commit_index ≤ r.0.commit_index)
      × InOrder c c.commit_index r.0.commit_index r.1)
unfolding follow_commit
follow_commit-InOrder c leader_commit room l h =
    let last = last_log_index-eq c (omega arith) in
    elim (Bool-cases (ltb c.commit_index leader_commit)) [
      | inl b ↦
          (let (es, e, order) =
              apply_slice c c.commit_index (min leader_commit (last_log_index c)) room l
                (ground (arith, last)) (omega (arith, last)) in
            rw (b, e) (_, refl, (omega (arith, last), ground (arith, last), order)))
      | inr b ↦ rw b (_, refl, (refl, omega arith, (omega arith, λ k below. absurd (omega arith))))
    ]

-- If no peer is believed to hold more than the leader's log, and what is applied lies between the snapshot
-- and the commit index, then a leader that recomputes its commit index does not panic, and the first
-- actions that it returns apply exactly the entries between what was applied and the new commit index, in
-- order; only barriers of reads follow.
pub advance_commit-InOrder :
    (c : RaftCore)
    → HasRoom c 1
    → c.last_included_index ≤ c.last_applied
    → c.last_applied ≤ c.commit_index
    → c.commit_index ≤ c.last_included_index + length c.log
    → MatchBounded c
    → Returns (advance_commit c) (λ r.
      (c.commit_index ≤ r.0.commit_index)
      × (r.0.last_applied ≡ r.0.commit_index)
      × ((applied : List Action) × (r.1 ≡ applied ++ (release_barriers c).1)
          × InOrder c c.last_applied r.0.commit_index applied))
unfolding advance_commit release_barriers
advance_commit-InOrder c room l a h m =
    let (n, e, ok_commit) = next_commit-IsCommittable c room (omega arith) h m in
    let (es, p, order) =
      apply_slice c c.last_applied n room l (omega (arith, ok_commit.grows)) ok_commit.in_log in
    rw (e, p) (_, refl, (ok_commit.grows, refl, (apply_actions c.last_applied 0 es, refl, order)))
