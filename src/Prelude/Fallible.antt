-- ===== src/Prelude/Fallible.antt =====
-- Code that may panic (`unwrap` on `None`, an index out of bounds, an empty range of random numbers).
use mathlib.Core.Path.{◌≡◌, refl}
use mathlib.Core.List.{List, [], ◌∷◌}
use mathlib.Core.Option.{Option, none, some}
use mathlib.Core.Bool.{Bool, true, false}
use ferris_ferry.Prelude.Tests.{if◌then◌else◌}
use mathlib.Core.Logic.{◌⊎◌, inl, inr}

pub data Result {ℓ} (A : Type ℓ) : Type ℓ where
  ok : A → Result A
  panic : Result A

infixl 5 ◌>>=◌
abbrev pub ◌>>=◌ {ℓ κ} : {A : Type ℓ} {B : Type κ} → Result A → (A → Result B) → Result B
ok a >>= f = f a
panic >>= f = panic

module _ {ℓ} {A : Type ℓ} where
  abbrev pub unwrap : Option A → Result A
  unwrap none = panic
  unwrap (some a) = ok a

  -- The code returns, and its result satisfies `P`: a panic does not.
  abbrev pub Returns : Result A → (A → Type 0) → Type ℓ
  Returns r P = (a : A) × (r ≡ ok a) × P a

  pub Returns-weaken :
      {P Q : A → Type 0} (r : Result A) → Returns r P → ((a : A) → P a → Q a) → Returns r Q
  Returns-weaken r (a, e, h) f = (a, e, f a h)

  pub Returns-if :
      {P : A → Type 0} (b : Bool) (r s : Result A)
      → (b ≡ true → Returns r P)
      → (b ≡ false → Returns s P)
      → Returns (if b then r else s) P
  Returns-if true r s h k = h refl
  Returns-if false r s h k = k refl

  pub ok-injective : {a b : A} → ok a ≡ ok b → a ≡ b
  ok-injective h = cc

  pub unwrap-eq : (o : Option A) {a : A} → unwrap o ≡ ok a → o ≡ some a
  unwrap-eq none e = cc
  unwrap-eq (some b) e = cc

  pub Result-cases : (r : Result A) → (r ≡ panic) ⊎ ((a : A) × (r ≡ ok a))
  Result-cases panic = inl refl
  Result-cases (ok a) = inr (a, refl)

module _ {ℓ κ} {A : Type ℓ} {B : Type κ} where
  pub Returns-bind :
      {P : A → Type 0} {Q : B → Type 0} (m : Result A) (f : A → Result B)
      → Returns m P
      → ((a : A) → P a → Returns (f a) Q)
      → Returns (m >>= f) Q
  Returns-bind m f (a, e, h) k = rw e (k a h)

  -- Where a bind returns, both of its parts did.
  pub >>=-eq-ok :
      {s : B} (first : Result A) (rest : A → Result B)
      → first >>= rest ≡ ok s
      → (v : A) × (first ≡ ok v) × (rest v ≡ ok s)
  >>=-eq-ok panic rest e = cc
  >>=-eq-ok (ok v) rest e = (v, refl, e)

  -- `iter().map(f).collect()` for an `f` that may panic.
  unfoldable pub map_result : (A → Result B) → List A → Result (List B)
  map_result f [] = ok []
  map_result f (x ∷ xs) = do y ← f x; ys ← map_result f xs; ok (y ∷ ys)
