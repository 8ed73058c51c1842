-- ===== src/Kv/Startup.antt =====
-- The start of the key-value store (`main` of crates/raft-kv/src/main.rs): the node's identifier, the
-- addresses of the cluster, and the checks of the arguments. A text is the list of its bytes; the parsing of
-- the command line (the clap crate) is not modelled, but for what it gives.
use ferris_ferry.Prelude.{
  ℕ, ◌+◌, ◌-◌, ◌*◌, Option, none, some, List, [], ◌∷◌, ◌++◌, Bool, true, false, not, ◌&&◌, ◌||◌,
  leb, ltb, ◌==◌, if◌then◌else◌, is_empty, length, get_elem?, Result, ok, panic, ◌>>=◌, unwrap,
  map_result, u64_mod,
}
use ferris_ferry.Types.{NodeId, Bytes}
use ferris_ferry.Transport.{RaftNodeDescription}

-- `str::rsplit_once` at a byte: what stands before and after its last occurrence
abbrev pub split_later : ℕ → ℕ → Bytes → Option (Bytes × Bytes) → Option (Bytes × Bytes)
split_later sep x xs (some parts) = some (x ∷ parts.0, parts.1)
split_later sep x xs none = if x == sep then some ([], xs) else none

unfoldable pub rsplit_once : ℕ → Bytes → Option (Bytes × Bytes)
rsplit_once sep [] = none
rsplit_once sep (x ∷ xs) = split_later sep x xs (rsplit_once sep xs)

abbrev pub is_digit : ℕ → Bool
is_digit b = leb 48 b && leb b 57

-- The digits of a number below the limit: none at another byte, or when the limit is reached.
unfoldable pub parse_digits : ℕ → ℕ → Bytes → Option ℕ
parse_digits limit acc [] = some acc
parse_digits limit acc (b ∷ bs) =
    let rest = parse_digits limit (acc * 10 + (b - 48)) bs in
    if is_digit b && ltb (acc * 10 + (b - 48)) limit then rest else none

-- `str::parse` of an unsigned number below the limit: a `+` may come first, but not alone
unfoldable pub parse_unsigned : ℕ → Bytes → Option ℕ
unfolding parse_digits
parse_unsigned limit [] = none
parse_unsigned limit (b ∷ bs) =
    parse_digits limit 0 (if b == 43 && not (is_empty bs) then bs else b ∷ bs)

pub data IdError : Type 0 where
  no_final_dash invalid_number number_too_large hostname_not_set : IdError

-- `Result<NodeId, String>`, with the messages by name
pub data Identity : Type 0 where
  identified : NodeId → Identity
  failed : IdError → Identity

-- `checked_add(1)`
abbrev pub next_id : Option ℕ → Identity
next_id none = failed invalid_number
next_id (some id) = if ltb (id + 1) u64_mod then identified (id + 1) else failed number_too_large

abbrev pub id_after_dash : Option (Bytes × Bytes) → Identity
id_after_dash none = failed no_final_dash
id_after_dash (some parts) = next_id (parse_unsigned u64_mod parts.1)

unfoldable pub id_from_hostname : Bytes → Identity
unfolding rsplit_once
id_from_hostname hostname = id_after_dash (rsplit_once 45 hostname)

pub record Args : Type 0 where
  pub nodes : List Bytes
  pub http_nodes : Option (List Bytes)
  pub id : Option NodeId
  pub derive_id : Bool
  pub port : Bytes

abbrev pub id_of_variable : Option Bytes → Identity
id_of_variable none = failed hostname_not_set
id_of_variable (some hostname) = id_from_hostname hostname

abbrev pub resolved : Option Bytes → Option NodeId → Bool → Result Identity
resolved hostname (some id) false = ok (identified id)
resolved hostname none true = ok (id_of_variable hostname)
resolved hostname _ _ = panic

-- The variable `HOSTNAME` is an argument.
unfoldable pub resolve_id : Args → Option Bytes → Result Identity
resolve_id args hostname = resolved hostname args.id args.derive_id

-- An error ends the program.
abbrev pub expect_id : Identity → Result NodeId
expect_id (identified id) = ok id
expect_id (failed e) = panic

-- `enumerate`, with numbers from 1
unfoldable pub numbered {ℓ} : {A : Type ℓ} → ℕ → List A → List (NodeId × A)
numbered idx [] = []
numbered idx (x ∷ xs) = (idx + 1, x) ∷ numbered (idx + 1) xs

abbrev pub described : ℕ → List Bytes → List (RaftNodeDescription Bytes)
described idx [] = []
described idx (s ∷ rest) = record { id = idx + 1; address = s } ∷ described (idx + 1) rest

-- `format!("{}:{}", ip, port)` for the address of a node
unfoldable pub with_port : Bytes → Bytes → Result Bytes
with_port port s = do parts ← unwrap (rsplit_once 58 s); ok (parts.0 ++ 58 ∷ port)

abbrev pub addresses : Args → Option (List Bytes) → Result (List (NodeId × Bytes))
addresses args (some http_nodes) = ok (numbered 0 http_nodes)
addresses args none = do hosts ← map_result (with_port args.port) args.nodes; ok (numbered 0 hosts)

-- As many addresses as nodes, if there are any.
abbrev pub same_number : List Bytes → Option (List Bytes) → Bool
same_number nodes none = true
same_number nodes (some http_nodes) = length http_nodes == length nodes

-- The port of the node's own address is a number of 16 bits.
unfoldable pub advertised_port : Bytes → Result ℕ
advertised_port s = do parts ← unwrap (rsplit_once 58 s); unwrap (parse_unsigned 65536 parts.1)

pub record Started : Type 0 where
  pub node_id : NodeId
  pub nodes : List (RaftNodeDescription Bytes)
  pub http_addrs : List (NodeId × Bytes)

-- `main` up to the configuration of the node
unfoldable pub start_node : Args → List (NodeId × Bytes) → NodeId → Result Started
start_node args http_addrs node_id =
    if node_id == 0 || ltb (length args.nodes) node_id then panic else (do
      address ← unwrap (get_elem? args.nodes (node_id - 1))
      port ← advertised_port address
      ok (record { node_id = node_id; nodes = described 0 args.nodes; http_addrs = http_addrs }))

unfoldable pub startup : Args → Option Bytes → Result Started
unfolding resolve_id start_node
startup args hostname =
    if same_number args.nodes args.http_nodes
    then (do
      http_addrs ← addresses args args.http_nodes
      identity ← resolve_id args hostname
      node_id ← expect_id identity
      start_node args http_addrs node_id)
    else panic
