-- ===== src/Kv/Cluster.antt =====
-- What holds of a node of crates/raft-kv/src/main.rs that has started.
use ferris_ferry.Prelude.{
  ℕ, ◌+◌, ◌-◌, ◌≤◌, ◌<◌, ◌≡◌, refl, sym, ap, ◌∙◌, subst, inl, inr, Option, none, some, List, [],
  ◌∷◌, true, ◌||◌, ltb, ◌==◌, Bool-cases, length, get_elem?, lookup, contains, ok, >>=-eq-ok,
  ok-injective, unwrap, arith,
}
use ferris_ferry.Types.{NodeId, Bytes}
use ferris_ferry.Loop.{follower_node}
use ferris_ferry.Transport.{recv, new}
use ferris_ferry.Transport.Routing.{ids, recv-new}
use ferris_ferry.Kv.{redirect_to, map_proposal_error}
use ferris_ferry.Kv.Startup.{
  Args, Started, described, addresses, same_number, resolve_id, expect_id, advertised_port,
  start_node, startup,
}
use ferris_ferry.Kv.Addresses.{IsClientAddress, addresses-lookup}

contains-described :
    (idx i : ℕ) (xs : List Bytes)
    → idx < i
    → i ≤ idx + length xs
    → contains i (ids (described idx xs)) ≡ true
unfolding contains
contains-described idx i [] h k = absurd (omega arith)
contains-described idx i (x ∷ xs) h k = elim (Bool-cases (idx + 1 == i)) [
  | inl e ↦ rw e refl
  | inr e ↦ rw e (contains-described (idx + 1) i xs (ground (arith, e)) (omega arith))
]

start_node-fields :
    (args : Args) (table : List (NodeId × Bytes)) (id : NodeId) (c : Started)
    → start_node args table id ≡ ok c
    → (0 < c.node_id)
      × (c.node_id ≤ length args.nodes)
      × (c.nodes ≡ described 0 args.nodes)
      × (c.http_addrs ≡ table)
unfolding start_node
start_node-fields args table id c e = elim (Bool-cases (id == 0 || ltb (length args.nodes) id)) [
  | inl bad ↦ absurd (ground (arith, bad, e))
  | inr fine ↦
      (let (address, p, q) = >>=-eq-ok (unwrap (get_elem? args.nodes (id - 1))) _ (rw fine at e) in
        let (port, p', q') = >>=-eq-ok (advertised_port address) _ q in
        subst
          (λ (x : Started).
            (0 < x.node_id)
            × (x.node_id ≤ length args.nodes)
            × (x.nodes ≡ described 0 args.nodes)
            × (x.http_addrs ≡ table))
          (ok-injective q') (ground (arith, fine), ground (arith, fine), refl, refl))
]

-- A store that has started, with whatever arguments and host name: the node's identifier is one of the numbers
-- from 1 to the number of nodes, its transport listens, and a client that asks it while it follows a leader of the
-- cluster is redirected to the address of that leader: the one of its number among the addresses for clients, or, if none
-- are given, what stands before the last colon of its own address, with the port of the arguments.
pub startup-redirects :
    (args : Args) (hostname : Option Bytes) (c : Started) (leader : NodeId) (path : Bytes)
    → startup args hostname ≡ ok c
    → 0 < leader
    → leader ≤ length args.nodes
    → ((0 < c.node_id) × (c.node_id ≤ length args.nodes))
      × (recv (new c.node_id c.nodes) ≡ ok none)
      × ((addr : Bytes) × IsClientAddress args args.http_nodes leader addr
          × (map_proposal_error c.http_addrs (follower_node (some leader)) path
              ≡ redirect_to path (some addr)))
unfolding startup map_proposal_error
startup-redirects args hostname c leader path e h k =
    elim (Bool-cases (same_number args.nodes args.http_nodes)) [
      | inr differ ↦ absurd (ground (arith, differ, e))
      | inl same ↦
          (let (table, p, q) = >>=-eq-ok (addresses args args.http_nodes) _ (rw same at e) in
            let (identity, p', q') = >>=-eq-ok (resolve_id args hostname) _ q in
            let (id, p'', q'') = >>=-eq-ok (expect_id identity) _ q' in
            let (low, high, nodes, http) = start_node-fields args table id c q'' in
            let (addr, found, address) =
              addresses-lookup args args.http_nodes table leader same p h k in
            let member : contains c.node_id (ids c.nodes) ≡ true =
              subst (λ x. contains c.node_id (ids x) ≡ true) (sym nodes)
                (contains-described 0 c.node_id args.nodes low (omega (arith, high))) in
            (
              (low, high),
              recv-new c.node_id c.nodes [] ∙ rw member refl,
              (addr, address, ap (redirect_to path) (ap (lookup leader) http ∙ found)),
            ))
    ]
