-- ===== src/Prelude/Word.antt =====
-- `u64` and `usize` arithmetic of a release build: it wraps at 2^64.
use Prim.Native.Nat.{ℕ, ◌+◌, ◌-◌, ◌%◌, ◌≤◌, ◌<◌}
use mathlib.Core.Path.{◌≡◌}
use native.Mathlib.Omega.{arith}

abbrev pub u64_mod : ℕ
u64_mod = 18446744073709551616

unfoldable pub wadd : ℕ → ℕ → ℕ
wadd a b = (a + b) % u64_mod

unfoldable pub wsub : ℕ → ℕ → ℕ
wsub a b = (a + u64_mod - b) % u64_mod

pub wadd-eq-add : (a b : ℕ) → a + b < u64_mod → wadd a b ≡ a + b
unfolding wadd
wadd-eq-add a b h = omega arith

pub wsub-eq-sub : (a b : ℕ) → b ≤ a → a < u64_mod → wsub a b ≡ a - b
unfolding wsub
wsub-eq-sub a b h k = omega arith

pub wadd-lt : (a b : ℕ) → wadd a b < u64_mod
unfolding wadd
wadd-lt a b = omega arith
