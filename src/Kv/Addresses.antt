-- ===== src/Kv/Addresses.antt =====
-- The addresses at which clients find the nodes of a cluster (`main` of crates/raft-kv/src/main.rs).
use ferris_ferry.Prelude.{
  ℕ, suc, ◌+◌, ◌-◌, ◌≤◌, ◌<◌, ◌≡◌, refl, sym, ap, ◌∙◌, subst, inl, inr, Option, none, some, List,
  [], ◌∷◌, ◌++◌, zero, true, false, All, Option-cases, unwrap-eq, ◌==◌, Bool-cases, length,
  get_elem?, lookup, Result, ok, >>=-eq-ok, ok-injective, unwrap, map_result, arith,
}
use ferris_ferry.Types.{NodeId, Bytes}
use ferris_ferry.Kv.Startup.{Args, rsplit_once, numbered, with_port, addresses, same_number}

-- The address at which clients find a node: the one of its number among those given for clients, or, if there
-- are none, what stands before the last colon of the node's own address, with the port of the arguments.
abbrev pub IsClientAddress : Args → Option (List Bytes) → NodeId → Bytes → Type 0
IsClientAddress args (some http_nodes) id addr = get_elem? http_nodes (id - 1) ≡ some addr
IsClientAddress args none id addr =
    (host port : Bytes) × (get_elem? args.nodes (id - 1) ≡ some (host ++ 58 ∷ port))
    × All (λ b. (b == 58) ≡ false) port
    × (addr ≡ host ++ 58 ∷ args.port)

lookup-numbered :
    {A : Type 0} (idx i : ℕ) (xs : List A)
    → idx < i
    → i ≤ idx + length xs
    → (a : A) × (lookup i (numbered idx xs) ≡ some a) × (get_elem? xs (i - idx - 1) ≡ some a)
unfolding lookup numbered
lookup-numbered idx i [] h k = absurd (omega arith)
lookup-numbered idx i (x ∷ xs) h k = elim (Bool-cases (idx + 1 == i)) [
  | inl e ↦
      (x, rw e refl, ap (get_elem? (x ∷ xs)) {x = i - idx - 1} {y = 0} (ground (arith, e)) ∙ refl)
  | inr e ↦
      (let (a, q, g) = lookup-numbered (idx + 1) i xs (ground (arith, e)) (omega arith) in
        (
          a,
          rw e q,
          ap (get_elem? (x ∷ xs)) {x = i - idx - 1} {y = suc (i - (idx + 1) - 1)}
                (ground (arith, e))
              ∙ g,
        ))
]

-- The last occurrence of a byte in a text: what follows does not hold it.
rsplit_once-none :
    (sep : ℕ) (bs : Bytes) → rsplit_once sep bs ≡ none → All (λ b. (b == sep) ≡ false) bs
unfolding rsplit_once
rsplit_once-none sep [] e = tt
rsplit_once-none sep (b ∷ bs) e = elim (Option-cases (rsplit_once sep bs)) [
  | inl n ↦ (ground (arith, n, e), rsplit_once-none sep bs n)
  | inr (parts, n) ↦ absurd (ground (arith, n, e))
]

rsplit_once-some :
    (sep : ℕ) (bs : Bytes) (parts : Bytes × Bytes)
    → rsplit_once sep bs ≡ some parts
    → (bs ≡ parts.0 ++ sep ∷ parts.1) × All (λ b. (b == sep) ≡ false) parts.1
unfolding rsplit_once
rsplit_once-some sep [] parts e = absurd (cc)
rsplit_once-some sep (b ∷ bs) parts e = elim (Option-cases (rsplit_once sep bs)) [
  | inl n ↦ elim (Bool-cases (b == sep)) [
    | inl same ↦
        (let split : parts ≡ ([], bs) = ground (arith, n, same, e) in
          subst
            (λ (p : Bytes × Bytes). (b ∷ bs ≡ p.0 ++ sep ∷ p.1) × All (λ b. (b == sep) ≡ false) p.1)
            (sym split)
            (ap (λ (x : ℕ). x ∷ bs) {x = b} {y = sep} (ground arith), rsplit_once-none sep bs n))
    | inr other ↦ absurd (ground (arith, n, other, e))
  ]
  | inr (later, n) ↦
      (let split : parts ≡ (b ∷ later.0, later.1) = ground (arith, n, e) in
        let (p, q) = rsplit_once-some sep bs later n in
        subst
          (λ (p : Bytes × Bytes). (b ∷ bs ≡ p.0 ++ sep ∷ p.1) × All (λ b. (b == sep) ≡ false) p.1)
          (sym split) (ap (◌∷◌ b) p, q))
]

length-map_result :
    {A B : Type 0} (f : A → Result B) (xs : List A) (ys : List B)
    → map_result f xs ≡ ok ys
    → length ys ≡ length xs
unfolding map_result
length-map_result f [] ys e = ground arith
length-map_result f (x ∷ xs) ys e =
    let (y, p, q) = >>=-eq-ok (f x) _ e in
    let (rest, p', q') = >>=-eq-ok (map_result f xs) _ q in
    ap length (sym (ok-injective q')) ∙ ap suc (length-map_result f xs rest p')

no_element : {A : Type 0} (k : ℕ) (a : A) → get_elem? [] k ≡ some a → ⊥
no_element k a h = cc

mapped_first :
    {A B : Type 0} (f : A → Result B) (x : A) (xs : List A) (first : B) (rest : List B) (k : ℕ)
    (y : B)
    → f x ≡ ok first
    → ((k' : ℕ)
        → get_elem? rest k' ≡ some y
        → (x' : A) × (get_elem? xs k' ≡ some x') × (f x' ≡ ok y))
    → get_elem? (first ∷ rest) k ≡ some y
    → (x' : A) × (get_elem? (x ∷ xs) k ≡ some x') × (f x' ≡ ok y)
mapped_first f x xs first rest zero y p later g = (x, refl, p ∙ ground (arith, g))
mapped_first f x xs first rest (suc k) y p later g = later k g

get_elem?-map_result :
    {A B : Type 0} (f : A → Result B) (xs : List A) (ys : List B) (k : ℕ) (y : B)
    → map_result f xs ≡ ok ys
    → get_elem? ys k ≡ some y
    → (x : A) × (get_elem? xs k ≡ some x) × (f x ≡ ok y)
unfolding map_result
get_elem?-map_result f [] ys k y e g =
    absurd (no_element k y (subst (λ l. get_elem? l k ≡ some y) (sym (ok-injective e)) g))
get_elem?-map_result f (x ∷ xs) ys k y e g =
    let (first, p, q) = >>=-eq-ok (f x) _ e in
    let (rest, p', q') = >>=-eq-ok (map_result f xs) _ q in
    mapped_first f x xs first rest k y p (λ k' h. get_elem?-map_result f xs rest k' y p' h)
      (subst (λ l. get_elem? l k ≡ some y) (sym (ok-injective q')) g)

with_port-parts :
    (new_port s addr : Bytes)
    → with_port new_port s ≡ ok addr
    → (host port : Bytes) × (s ≡ host ++ 58 ∷ port)
      × All (λ b. (b == 58) ≡ false) port
      × (addr ≡ host ++ 58 ∷ new_port)
unfolding with_port
with_port-parts new_port s addr e =
    let (parts, p, q) = >>=-eq-ok (unwrap (rsplit_once 58 s)) _ e in
    let (split, last) = rsplit_once-some 58 s parts (unwrap-eq (rsplit_once 58 s) p) in
    (parts.0, parts.1, split, last, sym (ok-injective q))

-- Every node of the cluster has its address for clients.
pub addresses-lookup :
    (args : Args) (o : Option (List Bytes)) (table : List (NodeId × Bytes)) (i : NodeId)
    → same_number args.nodes o ≡ true
    → addresses args o ≡ ok table
    → 0 < i
    → i ≤ length args.nodes
    → (addr : Bytes) × (lookup i table ≡ some addr) × IsClientAddress args o i addr
addresses-lookup args (some http_nodes) table i n e h k =
    let (addr, found, at) = lookup-numbered 0 i http_nodes h (ground arith) in
    (
      addr,
      ap (lookup i) (sym (ok-injective e)) ∙ found,
      ap (get_elem? http_nodes) {x = i - 1} {y = i - 0 - 1} (omega arith) ∙ at,
    )
addresses-lookup args none table i n e h k =
    let (hosts, p, q) = >>=-eq-ok (map_result (with_port args.port) args.nodes) _ e in
    let (addr, found, at) =
      lookup-numbered 0 i hosts h
        (omega (arith, length-map_result (with_port args.port) args.nodes hosts p)) in
    let (node, at_node, made) =
      get_elem?-map_result (with_port args.port) args.nodes hosts (i - 1) addr p
        (ap (get_elem? hosts) {x = i - 1} {y = i - 0 - 1} (omega arith) ∙ at) in
    let (host, port, split, last, same) = with_port-parts args.port node addr made in
    (
      addr,
      ap (lookup i) (sym (ok-injective q)) ∙ found,
      (host, port, at_node ∙ ap some split, last, same),
    )
