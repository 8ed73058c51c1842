-- ===== src/Kv/Replay.antt =====
-- Replicas of the store of crates/raft-kv/src/main.rs: what a command does to it, and restoring it.
use ferris_ferry.Prelude.{
  ◌≡◌, refl, ap, ◌∙◌, Option, none, some, List, [], ◌∷◌, ◌++◌, true, if◌then◌else◌, ok, >>=-eq-ok,
  ok-injective, arith,
}
use ferris_ferry.Types.{Bytes}
use ferris_ferry.Loop.{AppliedEntry, applied_snapshot, applied_snapshot_request}
use ferris_ferry.Files.{Codec, RoundTrip}
use ferris_ferry.Kv.{
  KvCommand, get, set, delete, Store, eq_string, get_key, insert_key, remove_key, run_command,
  apply_entry, apply_entries,
}

-- A store is a function from keys to values, and a command an update of it.
abbrev pub updated : KvCommand → (Bytes → Option Bytes) → Bytes → Option Bytes
updated (get key) f k = f k
updated (set key value) f k = if eq_string key k then some value else f k
updated (delete key) f k = if eq_string key k then none else f k

eq_string_left : (a b c : Bytes) → eq_string a b ≡ true → eq_string b c ≡ eq_string a c
unfolding eq_string
eq_string_left [] [] c h = refl
eq_string_left [] (y ∷ ys) c h = cc
eq_string_left (x ∷ xs) [] c h = cc
eq_string_left (x ∷ xs) (y ∷ ys) [] h = refl
eq_string_left (x ∷ xs) (y ∷ ys) (z ∷ zs) h = ground (arith, eq_string_left xs ys zs)

eq_string_right : (a b c : Bytes) → eq_string b c ≡ true → eq_string a b ≡ eq_string a c
unfolding eq_string
eq_string_right a [] [] h = refl
eq_string_right a [] (z ∷ zs) h = cc
eq_string_right a (y ∷ ys) [] h = cc
eq_string_right [] (y ∷ ys) (z ∷ zs) h = refl
eq_string_right (x ∷ xs) (y ∷ ys) (z ∷ zs) h = ground (arith, eq_string_right xs ys zs)

insert_key-get_key :
    (key value k : Bytes) (s : Store)
    → get_key k (insert_key key value s) ≡ (if eq_string key k then some value else get_key k s)
unfolding get_key insert_key
insert_key-get_key key value k [] = refl
insert_key-get_key key value k ((j, v) ∷ s) =
    ground
      (arith, insert_key-get_key key value k s, eq_string_left j key k, eq_string_right j key k)

remove_key-get_key :
    (key k : Bytes) (s : Store)
    → get_key k (remove_key key s) ≡ (if eq_string key k then none else get_key k s)
unfolding get_key remove_key
remove_key-get_key key k [] = ground arith
remove_key-get_key key k ((j, v) ∷ s) =
    ground (arith, remove_key-get_key key k s, eq_string_left j key k, eq_string_right j key k)

-- Every command updates the store, read as a function from keys to values, as its name says: `set` changes
-- the value of its key alone, `delete` removes its key alone, `get` changes nothing.
pub run_command-get_key :
    (s : Store) (command : KvCommand) (k : Bytes)
    → get_key k (run_command s command) ≡ updated command (λ j. get_key j s) k
unfolding run_command
run_command-get_key s (get key) k = refl
run_command-get_key s (set key value) k = insert_key-get_key key value k s
run_command-get_key s (delete key) k = remove_key-get_key key k s

module _ (commands : Codec KvCommand) (stores : Codec Store) where
  apply_entries-append :
      (s s' : Store) (xs ys : List AppliedEntry)
      → apply_entries commands stores s xs ≡ ok s'
      → apply_entries commands stores s (xs ++ ys) ≡ apply_entries commands stores s' ys
  unfolding apply_entries
  apply_entries-append s s' [] ys e = ap (λ x. apply_entries commands stores x ys) (ok-injective e)
  apply_entries-append s s' (x ∷ xs) ys e =
      let (s₁, p, q) = >>=-eq-ok (apply_entry commands stores s x) _ e in
      rw p (apply_entries-append s₁ s' xs ys q)

  -- Let a replica that started empty have the store `s` after some entries, and let `b` be what it answers
  -- a request for a snapshot with. A replica in any state that is sent this snapshot and then further
  -- entries does exactly what the first one does on them.
  pub apply_entries-snapshot :
      (s other : Store) (b : Bytes) (before after : List AppliedEntry)
      → RoundTrip stores
      → apply_entries commands stores [] before ≡ ok s
      → stores.to_allocvec s ≡ some b
      → apply_entries commands stores [] (before ++ applied_snapshot_request ∷ after)
        ≡ apply_entries commands stores other (applied_snapshot b ∷ after)
  apply_entries-snapshot s other b before after trip e c =
      apply_entries-append [] s before (applied_snapshot_request ∷ after) e
      ∙ unfold apply_entries apply_entry in rw (c, trip s b c) refl
