-- ===== src/Prelude/Assoc.antt =====
-- `HashMap<u64, V>` as an association list, and `HashSet<u64>` as a list without repetition. The order
-- of iteration of the source's maps is not specified; here it is that of the list.
use Prim.Native.Nat.{ℕ}
use mathlib.Core.Path.{◌≡◌, refl}
use mathlib.Core.Bool.{Bool, false, ◌||◌}
use mathlib.Core.List.{List, [], ◌∷◌}
use mathlib.Core.Option.{Option, none, some}
use native.Mathlib.Omega.{arith}
use ferris_ferry.Prelude.Tests.{◌==◌, if◌then◌else◌}
use ferris_ferry.Prelude.Lists.{All}

module _ {ℓ} {V : Type ℓ} where
  -- `get`
  unfoldable pub lookup : ℕ → List (ℕ × V) → Option V
  lookup k [] = none
  lookup k ((j, v) ∷ m) = if j == k then some v else lookup k m

  unfoldable pub insert : ℕ → V → List (ℕ × V) → List (ℕ × V)
  insert k v [] = (k, v) ∷ []
  insert k v ((j, w) ∷ m) = if j == k then (k, v) ∷ m else (j, w) ∷ insert k v m

  unfoldable pub remove : ℕ → List (ℕ × V) → List (ℕ × V)
  remove k [] = []
  remove k ((j, w) ∷ m) = let rest = remove k m in if j == k then rest else (j, w) ∷ rest

  -- `entry(k).and_modify(|v| *v = …)`: a key that is missing stays missing
  unfoldable pub modify : ℕ → V → List (ℕ × V) → List (ℕ × V)
  modify k v [] = []
  modify k v ((j, w) ∷ m) = if j == k then (k, v) ∷ m else (j, w) ∷ modify k v m

  unfoldable pub values : List (ℕ × V) → List V
  values [] = []
  values ((j, v) ∷ m) = v ∷ values m

  pub lookup-insert :
      (new key : ℕ) (v : V) (table : List (ℕ × V))
      → lookup key (insert new v table) ≡ (if new == key then some v else lookup key table)
  unfolding insert lookup
  lookup-insert new key v ((other, w) ∷ table) = ground (arith, lookup-insert new key v table)
  lookup-insert new key v [] = refl

  pub lookup-remove :
      (gone key : ℕ) (table : List (ℕ × V))
      → lookup key (remove gone table) ≡ (if gone == key then none else lookup key table)
  unfolding remove lookup
  lookup-remove gone key ((other, w) ∷ table) = ground (arith, lookup-remove gone key table)
  lookup-remove gone key [] = ground arith

  pub values-insert-All {κ} :
      (P : V → Type κ) (k : ℕ) (v : V) (m : List (ℕ × V))
      → P v
      → All P (values m)
      → All P (values (insert k v m))
  unfolding values insert
  values-insert-All P k v [] p h = (p, tt)
  values-insert-All P k v ((i, w) ∷ m) p h = ground (arith, values-insert-All P k v m)

unfoldable pub contains : ℕ → List ℕ → Bool
contains k [] = false
contains k (x ∷ xs) = x == k || contains k xs

-- `HashSet::insert`
unfoldable pub insert_set : ℕ → List ℕ → List ℕ
unfolding contains
insert_set k xs = if contains k xs then xs else k ∷ xs
