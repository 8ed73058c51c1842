-- ===== src/Kv/Hostname.antt =====
-- `id_from_hostname` of crates/raft-kv/src/main.rs.
use ferris_ferry.Prelude.{
  ℕ, zero, suc, ◌+◌, ◌-◌, ◌*◌, ◌^◌, ◌≤◌, ◌<◌, ◌≡◌, refl, sym, ap, ◌∙◌, inl, inr, Option, none, some,
  [], ◌∷◌, ◌++◌, true, false, ltb, ◌==◌, if◌then◌else◌, Bool-cases, All, length, u64_mod, arith,
}
use native.Mathlib.Omega.{pow_step}
use native.Mathlib.Nat.{pow-zero, add-mul, mul_assoc}
use ferris_ferry.Types.{Bytes}
use ferris_ferry.Kv.Startup.{
  rsplit_once, is_digit, parse_digits, parse_unsigned, no_final_dash, invalid_number,
  number_too_large, identified, failed, next_id, id_after_dash, id_from_hostname,
}

-- Decimal digits, and the number that they are.
abbrev pub Digits : Bytes → Type 0
Digits = All (λ b. is_digit b ≡ true)

unfoldable pub decimal : Bytes → ℕ
decimal [] = 0
decimal (b ∷ bs) = (b - 48) * 10 ^ length bs + decimal bs

no_dash : (ds : Bytes) → Digits ds → rsplit_once 45 ds ≡ none
unfolding rsplit_once
no_dash [] h = refl
no_dash (b ∷ bs) h = rw (no_dash bs h.1) (ground (arith, h.0))

split-last : (p ds : Bytes) → Digits ds → rsplit_once 45 (p ++ 45 ∷ ds) ≡ some (p, ds)
unfolding rsplit_once
split-last [] ds h = rw (no_dash ds h) refl
split-last (x ∷ p) ds h = rw (split-last p ds h) refl

digit_product : (a d t : ℕ) → (a * 10 + d) * t ≡ a * (10 * t) + d * t
digit_product a d t = omega (arith, add-mul (a * 10) d t, mul_assoc a 10 t)

next_digit :
    (acc d n rest : ℕ) → acc * 10 ^ suc n + (d * 10 ^ n + rest) ≡ (acc * 10 + d) * 10 ^ n + rest
next_digit acc d n rest =
    omega (arith, ap (λ (t : ℕ). acc * t) (pow_step 10 n), digit_product acc d (10 ^ n))

mul_left_comm : (a t : ℕ) → a * (10 * t) ≡ 10 * (a * t)
mul_left_comm a t = grind arith

at_least : (acc n rest : ℕ) → acc ≤ acc * 10 ^ n + rest
at_least acc zero rest = omega (arith, pow-zero 10)
at_least acc (suc n) rest = omega (
  arith,
  ap (λ (t : ℕ). acc * t) (pow_step 10 n),
  mul_left_comm acc (10 ^ n),
  at_least acc n rest,
)

-- The number, if it is below the limit.
abbrev below : ℕ → Option ℕ
below n = if ltb n u64_mod then some n else none

below-some : (n : ℕ) → n < u64_mod → some n ≡ below n
below-some n h = ground arith

below-none : (n m : ℕ) → ltb n u64_mod ≡ false → n ≤ m → none ≡ below m
below-none n m h l = ground arith

parse_digits-decimal :
    (acc : ℕ) (ds : Bytes)
    → Digits ds
    → acc < u64_mod
    → parse_digits u64_mod acc ds ≡ below (acc * 10 ^ length ds + decimal ds)
unfolding parse_digits decimal
parse_digits-decimal acc [] h b = below-some acc b ∙ ap below (omega (arith, pow-zero 10))
parse_digits-decimal acc (d ∷ ds) h b =
    let whole = next_digit acc (d - 48) (length ds) (decimal ds) in
    elim (Bool-cases (ltb (acc * 10 + (d - 48)) u64_mod)) [
      | inl small ↦
          rw (h.0, small)
            (parse_digits-decimal (acc * 10 + (d - 48)) ds h.1 (ltb→lt _ _ small)
              ∙ ap below (sym whole))
      | inr large ↦
          rw (h.0, large)
            (below-none (acc * 10 + (d - 48)) _ large
              (omega (arith, whole, at_least (acc * 10 + (d - 48)) (length ds) (decimal ds))))
    ]
  where
    ltb→lt : (n m : ℕ) → ltb n m ≡ true → n < m
    ltb→lt n m e = ground arith

parse_unsigned-decimal :
    (d : ℕ) (ds : Bytes)
    → Digits (d ∷ ds)
    → parse_unsigned u64_mod (d ∷ ds) ≡ below (decimal (d ∷ ds))
unfolding parse_unsigned
parse_unsigned-decimal d ds h =
    let no_sign : (d == 43) ≡ false = ground (arith, h.0) in
    rw no_sign (parse_digits-decimal 0 (d ∷ ds) h (omega arith) ∙ ap below (omega arith))

-- For a host name that ends in a dash and decimal digits, whatever stands before and however many zeros
-- come first, the node's identifier is the number after the last dash plus one. The largest 64-bit number has
-- no identifier, and a larger one is no number.
pub id_from_hostname-decimal :
    (p : Bytes) (d : ℕ) (ds : Bytes)
    → Digits (d ∷ ds)
    → id_from_hostname (p ++ 45 ∷ d ∷ ds) ≡ (
        if ltb (decimal (d ∷ ds) + 1) u64_mod
        then identified (decimal (d ∷ ds) + 1)
        else if decimal (d ∷ ds) + 1 == u64_mod
        then failed number_too_large
        else failed invalid_number)
unfolding id_from_hostname
id_from_hostname-decimal p d ds h =
    ap id_after_dash (split-last p (d ∷ ds) h)
    ∙ ap next_id (parse_unsigned-decimal d ds h)
    ∙ by_size (decimal (d ∷ ds))
  where
    by_size :
        (n : ℕ)
        → next_id (below n) ≡ (
            if ltb (n + 1) u64_mod
            then identified (n + 1)
            else if n + 1 == u64_mod
            then failed number_too_large
            else failed invalid_number)
    by_size n = ground arith

-- A host name without a dash has no identifier.
pub id_from_hostname-no_dash :
    (hostname : Bytes)
    → All (λ b. (b == 45) ≡ false) hostname
    → id_from_hostname hostname ≡ failed no_final_dash
unfolding id_from_hostname rsplit_once
id_from_hostname-no_dash hostname h = ap id_after_dash (never hostname h)
  where
    never : (bs : Bytes) → All (λ b. (b == 45) ≡ false) bs → rsplit_once 45 bs ≡ none
    never [] h = refl
    never (b ∷ bs) h = rw (never bs h.1) (ground (arith, h.0))
