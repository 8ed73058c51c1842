-- ===== src/Tests/Kv.antt =====
-- The store of crates/raft-kv/src/main.rs at concrete inputs.
use ferris_ferry.Prelude.{
  ℕ, ◌≡◌, refl, subst, Option, none, some, List, [], ◌∷◌, ◌++◌, ok, arith, Option-cases, inl, inr,
}
use ferris_ferry.Types.{Bytes}
use ferris_ferry.Loop.{AppliedEntry, applied_command, applied_snapshot, applied_snapshot_request}
use ferris_ferry.Files.{Codec, RoundTrip}
use ferris_ferry.Kv.{
  KvCommand, set, delete, Store, get_key, eq_string, insert_key, run_command, apply_entries,
  apply_entry,
}
use ferris_ferry.Kv.Replay.{updated, run_command-get_key, apply_entries-snapshot}

-- commands on keys and values of one byte
abbrev decode_command : Bytes → Option KvCommand
decode_command (tag ∷ key ∷ []) = some (delete (key ∷ []))
decode_command (tag ∷ key ∷ value ∷ []) = some (set (key ∷ []) (value ∷ []))
decode_command _ = none

abbrev command_codec : Codec KvCommand
command_codec = record { to_allocvec = λ command. none; from_bytes = decode_command }

abbrev encode_pair : ℕ → ℕ → Option Bytes → Option Bytes
encode_pair k v none = none
encode_pair k v (some rest) = some (k ∷ v ∷ rest)

-- stores of keys and values of one byte
abbrev encode_store : Store → Option Bytes
encode_store [] = some []
encode_store ((k ∷ [], v ∷ []) ∷ rest) = encode_pair k v (encode_store rest)
encode_store _ = none

abbrev decode_pair : ℕ → ℕ → Option Store → Option Store
decode_pair k v none = none
decode_pair k v (some rest) = some ((k ∷ [], v ∷ []) ∷ rest)

abbrev decode_store : Bytes → Option Store
decode_store [] = some []
decode_store (k ∷ []) = none
decode_store (k ∷ v ∷ rest) = decode_pair k v (decode_store rest)

abbrev store_codec : Codec Store
store_codec = record { to_allocvec = encode_store; from_bytes = decode_store }

store_trip : RoundTrip store_codec
store_trip [] b h = ground arith
store_trip ((k ∷ [], v ∷ []) ∷ rest) b h = elim (Option-cases (encode_store rest)) [
  | inl e ↦ absurd (none-some (rw e at h))
  | inr (r, e) ↦
      subst (λ x. decode_store x ≡ some ((k ∷ [], v ∷ []) ∷ rest)) (some-injective (rw e at h))
        (rw (store_trip rest r e) refl)
]
  where
    none-some : {b : Bytes} → none ≡ some b → ⊥
    none-some e = cc

    some-injective : {a b : Bytes} → some a ≡ some b → a ≡ b
    some-injective e = cc
store_trip (([], v) ∷ rest) b h = cc
store_trip ((k ∷ [], []) ∷ rest) b h = cc
store_trip ((k ∷ [], v ∷ w ∷ ws) ∷ rest) b h = cc
store_trip ((k ∷ j ∷ js, v) ∷ rest) b h = cc

run_command-get_key_example :
    get_key (1 ∷ []) (run_command ((1 ∷ [], 5 ∷ []) ∷ []) (set (1 ∷ []) (7 ∷ [])))
    ≡ updated (set (1 ∷ []) (7 ∷ [])) (λ j. get_key j ((1 ∷ [], 5 ∷ []) ∷ [])) (1 ∷ [])
run_command-get_key_example =
    run_command-get_key ((1 ∷ [], 5 ∷ []) ∷ []) (set (1 ∷ []) (7 ∷ [])) (1 ∷ [])

-- two keys are set, a snapshot is taken, and one key is deleted
abbrev history : List AppliedEntry
history = applied_command (1 ∷ 1 ∷ 5 ∷ []) ∷ applied_command (1 ∷ 2 ∷ 6 ∷ []) ∷ []

abbrev both_keys : Store
both_keys = (1 ∷ [], 5 ∷ []) ∷ (2 ∷ [], 6 ∷ []) ∷ []

history-applied : apply_entries command_codec store_codec [] history ≡ ok both_keys
unfolding apply_entries apply_entry run_command insert_key eq_string
history-applied = refl

apply_entries-snapshot_example :
    apply_entries command_codec store_codec []
      (history ++ applied_snapshot_request ∷ applied_command (0 ∷ 1 ∷ []) ∷ [])
    ≡ apply_entries command_codec store_codec
        ((9 ∷ [], 9 ∷ []) ∷ [])
        (applied_snapshot (1 ∷ 5 ∷ 2 ∷ 6 ∷ []) ∷ applied_command (0 ∷ 1 ∷ []) ∷ [])
apply_entries-snapshot_example =
    apply_entries-snapshot command_codec store_codec both_keys ((9 ∷ [], 9 ∷ []) ∷ [])
      (1 ∷ 5 ∷ 2 ∷ 6 ∷ []) history (applied_command (0 ∷ 1 ∷ []) ∷ []) store_trip history-applied
      refl
