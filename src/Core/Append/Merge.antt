-- ===== src/Core/Append/Merge.antt =====
-- The loop of `handle_append_entries` (crates/raftcore/src/lib.rs) over the new entries, against a
-- description without indices: the logs agree up to the first entry whose term differs.
use ferris_ferry.Prelude.{
  ℕ, zero, suc, dec_lt, ap₂, Result, ◌+◌, ◌-◌, ◌≤◌, ◌<◌, ◌≡◌, refl, sym, ap, ◌∙◌, some, List, [],
  ◌∷◌, ◌++◌, append-nil, append_assoc, ok, true, false, inl, inr, Bool-cases, arith, ◌==◌,
  if◌then◌else◌, length, get_elem?, take, drop, wadd-eq-add, wsub-eq-sub, length-append,
  length-take, take-append-drop, get_elem?_of_lt, drop-eq-get_elem?-cons, drop_of_length-le,
  take_of_length-le, le→leb, leb-false,
}
use ferris_ferry.Types.{LogEntry, AppendEntriesRpc}
use ferris_ferry.Core.State.{RaftCore}
use ferris_ferry.Core.Log.{log_term_at, log_entry_at}
use ferris_ferry.Core.Log.Bounds.{HasRoom, last_log_index-eq}
use ferris_ferry.Core.Append.{store_entry, store_entries, store_request}

-- New entries over those at the same indices: what agrees is kept, and from the first entry of another
-- term on the new ones replace the rest. If none differs, older entries beyond the new ones stay.
unfoldable pub merge : List LogEntry → List LogEntry → List LogEntry
merge [] old = old
merge (e ∷ es) [] = e ∷ es
merge (e ∷ es) (x ∷ xs) = if x.term == e.term then x ∷ merge es xs else e ∷ es

store_entry-past :
    (c : RaftCore) (i : ℕ) (e : LogEntry)
    → HasRoom c 1
    → i ≡ c.last_included_index + length c.log + 1
    → store_entry c i e ≡ ok (record c { log = c.log ++ e ∷ [] })
unfolding store_entry
store_entry-past c i e r h =
    rw (last_log_index-eq c (omega arith))
      (rw (leb-false i (c.last_included_index + length c.log) (omega arith)) refl)

store_entries-past :
    (c : RaftCore) (i : ℕ) (es : List LogEntry)
    → HasRoom c (length es + 1)
    → i ≡ c.last_included_index + length c.log + 1
    → store_entries c i es ≡ ok (record c { log = c.log ++ es })
unfolding store_entries
store_entries-past c i [] r h =
    ap (λ (l : List LogEntry). ok (record c { log = l })) (sym (append-nil c.log))
store_entries-past c i (e ∷ es) r h = rw (store_entry-past c i e (omega arith) h) (
    store_entries-past (record c { log = c.log ++ e ∷ [] }) (i + 1) es
      (omega (arith, length-append c.log (e ∷ []))) (omega (arith, length-append c.log (e ∷ [])))
    ∙ ap (λ (l : List LogEntry). ok (record c { log = l })) (append_assoc c.log (e ∷ []) es))

-- an entry over one that is there
store_entry-old :
    (c : RaftCore) (j i : ℕ) (e x : LogEntry)
    → HasRoom c 1
    → i ≡ c.last_included_index + j + 1
    → get_elem? c.log j ≡ some x
    → j < length c.log
    → store_entry c i e
      ≡ ok (if x.term == e.term then c else record c { log = take j c.log ++ e ∷ [] })
store_entry-old c j i e x r p g h =
    unfold store_entry log_term_at log_entry_at in
    rw (last_log_index-eq c (omega arith)) (
      rw (le→leb i (c.last_included_index + length c.log) (omega arith)) (
        rw (wsub-eq-sub i c.last_included_index (omega arith) (omega arith)) (
          rw (wsub-eq-sub (i - c.last_included_index) 1 (omega arith) (omega arith))
            (rw index (ground (arith, g))))))
  where
    index : i - c.last_included_index - 1 ≡ j
    index = omega arith

take-suc :
    (j : ℕ) (x : LogEntry) (log rest : List LogEntry)
    → get_elem? log j ≡ some x
    → take (suc j) log ++ rest ≡ take j log ++ x ∷ rest
take-suc j x [] rest g = cc
take-suc zero x (y ∷ log) rest g = ground arith
take-suc (suc j) x (y ∷ log) rest g = ap (◌∷◌ y) (take-suc j x log rest g)

abbrev with_log : RaftCore → List LogEntry → Result RaftCore
with_log c log = ok (record c { log = log })

-- the same with the position `j` in the in-memory log of the first new entry
store_entries-at :
    (c : RaftCore) (j i : ℕ) (es : List LogEntry)
    → HasRoom c (length es + 1)
    → i ≡ c.last_included_index + j + 1
    → j ≤ length c.log
    → store_entries c i es ≡ with_log c (take j c.log ++ merge es (drop j c.log))
unfolding store_entries
store_entries-at c j i [] r e l = unfold merge in ap (with_log c) (sym (take-append-drop j c.log))
store_entries-at c j i (e ∷ es) r p l = elim (dec_lt j (length c.log)) [
  | no n ↦
      store_entries-past c i (e ∷ es) r (omega arith)
      ∙ unfold merge in
        ap₂ (λ old rest. with_log c (old ++ merge (e ∷ es) rest))
          (sym (take_of_length-le j c.log (omega arith)))
          (sym (drop_of_length-le j c.log (omega arith)))
  | yes h ↦
      let (x, g) = get_elem?_of_lt c.log j h in
      elim (Bool-cases (x.term == e.term)) [
        | inl same ↦ rw (store_entry-old c j i e x (omega arith) p g h) (
            rw same (
              store_entries-at c (suc j) (i + 1) es (omega arith) (omega arith) (omega arith)
              ∙ ap (with_log c)
                  (take-suc j x c.log _ g ∙ ap (◌++◌ (take j c.log)) (kept x g same))))
        | inr other ↦ rw (store_entry-old c j i e x (omega arith) p g h) (
            rw other (
              store_entries-past (record c { log = take j c.log ++ e ∷ [] }) (i + 1) es
                (omega (arith, cut h)) (omega (arith, cut h))
              ∙ ap (with_log c) (
                  append_assoc (take j c.log) (e ∷ []) es
                  ∙ ap (◌++◌ (take j c.log)) (replaced x g other))))
      ]
]
  where
    cut : j < length c.log → length (take j c.log ++ e ∷ []) ≡ j + 1
    cut h = omega (arith, length-append (take j c.log) (e ∷ []), length-take j c.log (omega arith))

    kept :
        (x : LogEntry)
        → get_elem? c.log j ≡ some x
        → (x.term == e.term) ≡ true
        → x ∷ merge es (drop (suc j) c.log) ≡ merge (e ∷ es) (drop j c.log)
    kept x g same = unfold merge in rw (drop-eq-get_elem?-cons c.log j x g) (rw same refl)

    replaced :
        (x : LogEntry)
        → get_elem? c.log j ≡ some x
        → (x.term == e.term) ≡ false
        → e ∷ es ≡ merge (e ∷ es) (drop j c.log)
    replaced x g other = unfold merge in rw (drop-eq-get_elem?-cons c.log j x g) (rw other refl)

-- Where the new entries start inside the log or right after it, the loop never panics, and the log
-- afterwards is its part before them followed by the merge of the rest; nothing else changes.
pub store_entries-merge :
    (c : RaftCore) (i : ℕ) (es : List LogEntry)
    → HasRoom c (length es + 1)
    → c.last_included_index < i
    → i ≤ c.last_included_index + length c.log + 1
    → store_entries c i es
      ≡ ok (record c {
        log =
            take (i - c.last_included_index - 1) c.log
            ++ merge es (drop (i - c.last_included_index - 1) c.log);
      })
store_entries-merge c i es r l h =
    store_entries-at c (i - c.last_included_index - 1) i es r (omega arith) (omega arith)

-- The log after the new entries of a request.
abbrev pub stored : RaftCore → AppendEntriesRpc → RaftCore
stored c req = record c {
  log =
      take (req.prev_log_index - c.last_included_index) c.log
      ++ merge req.entries (drop (req.prev_log_index - c.last_included_index) c.log);
}

pub store_request-eq :
    (c : RaftCore) (req : AppendEntriesRpc)
    → HasRoom c (length req.entries + 1)
    → c.last_included_index ≤ req.prev_log_index
    → req.prev_log_index ≤ c.last_included_index + length c.log
    → store_request c req ≡ ok (stored c req)
unfolding store_request
store_request-eq c req r l h = rw (wadd-eq-add req.prev_log_index 1 (omega arith)) (
    rw (wadd-eq-add (req.prev_log_index + 1) (length req.entries) (omega arith)) (
      rw
        (take_of_length-le (req.prev_log_index + 1 + length req.entries - (req.prev_log_index + 1))
          req.entries (omega arith))
        (store_entries-at c (req.prev_log_index - c.last_included_index) (req.prev_log_index + 1)
          req.entries r (omega arith) (omega arith))))
