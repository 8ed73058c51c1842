-- ===== src/Tests/Startup.antt =====
-- The start of the key-value store (crates/raft-kv/src/main.rs) at concrete inputs.
use ferris_ferry.Prelude.{
  ◌≤◌, ◌<◌, ◌≡◌, refl, none, some, true, List, [], ◌∷◌, map_result, ok, arith,
}
use ferris_ferry.Types.{Bytes}
use ferris_ferry.Loop.{follower_node}
use ferris_ferry.Transport.{recv, new}
use ferris_ferry.Kv.{map_proposal_error, redirect_to}
use ferris_ferry.Kv.Startup.{
  rsplit_once, parse_digits, parse_unsigned, id_from_hostname, identified, Args, Started, numbered,
  described, with_port, advertised_port, start_node, startup, resolve_id,
}
use ferris_ferry.Kv.Hostname.{decimal, id_from_hostname-decimal}
use ferris_ferry.Kv.Addresses.{IsClientAddress}
use ferris_ferry.Kv.Cluster.{startup-redirects}

-- "kv-07"
id_from_hostname-decimal_example : id_from_hostname (107 ∷ 118 ∷ 45 ∷ 48 ∷ 55 ∷ []) ≡ identified 8
unfolding decimal
id_from_hostname-decimal_example =
    id_from_hostname-decimal (107 ∷ 118 ∷ []) 48 (55 ∷ []) (refl, (refl, tt))

-- "a:90" and "b:91"
abbrev pub hosts : List Bytes
hosts = (97 ∷ 58 ∷ 57 ∷ 48 ∷ []) ∷ (98 ∷ 58 ∷ 57 ∷ 49 ∷ []) ∷ []

abbrev pub arguments : Args
arguments = record {
  nodes = hosts;
  http_nodes = none;
  id = none;
  derive_id = true;
  port = 56 ∷ 48 ∷ [];
}

-- the second node, by its host name "kv-1"; clients find the nodes at "a:80" and "b:80"
abbrev pub second : Started
second = record {
  node_id = 2;
  nodes = described 0 hosts;
  http_addrs = (1, 97 ∷ 58 ∷ 56 ∷ 48 ∷ []) ∷ (2, 98 ∷ 58 ∷ 56 ∷ 48 ∷ []) ∷ [];
}

pub second-starts : startup arguments (some (107 ∷ 118 ∷ 45 ∷ 49 ∷ [])) ≡ ok second
unfolding startup resolve_id start_node id_from_hostname rsplit_once parse_unsigned parse_digits
    with_port numbered advertised_port map_result
second-starts = refl

startup-redirects_example :
    ((0 < 2) × (2 ≤ 2))
    × (recv (new 2 (described 0 hosts)) ≡ ok none)
    × ((addr : Bytes) × IsClientAddress arguments none 1 addr
        × (map_proposal_error second.http_addrs (follower_node (some 1)) (47 ∷ [])
            ≡ redirect_to (47 ∷ []) (some addr)))
startup-redirects_example =
    startup-redirects arguments (some (107 ∷ 118 ∷ 45 ∷ 49 ∷ [])) second 1 (47 ∷ []) second-starts
      (omega arith) (omega arith)
