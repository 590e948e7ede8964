-- ===== src/Command.antt =====
-- cmd/cache/main.go: the command that runs one node. It derives the addresses of the node from its
-- flags and puts the store, the ring, the server and the cluster together.
pub mod Agreement
pub mod Gossip
pub mod Life
mod Tests
use self_healing_distributed.Prelude.{
  ℕ, String, Bool, true, false, ◌&&◌, Option, none, some, List, [], ◌∷◌, ◌==◌, nat_key, string_key,
  if◌then◌else◌,
}
use self_healing_distributed.Prelude.Int64.{add64, slt}
use self_healing_distributed.Time.{second}
use self_healing_distributed.Text.{
  split, comma, colon, trim_space, starts_with, atoi, decimal, split_host_port, join_host_port,
}
use self_healing_distributed.Http.{Env}
use self_healing_distributed.Ring.{Node, Ring, new as new_ring, add_node}
use self_healing_distributed.Store.{Store, new as new_store, new_with_eviction}
use self_healing_distributed.Placement.{Placement}
use self_healing_distributed.Cluster.{Cluster, notify_join, notify_leave}
use self_healing_distributed.Cluster.Membership.{Config, Memberlist, create}
use self_healing_distributed.Server.{Server, new as new_server, with_cluster, with_listen_addr}
use self_healing_distributed.Server.Handlers.{trigger_rebalance}
use self_healing_distributed.Server.Tasks.{on_cluster}

-- The values of the flags; the numbers are `int` and `int64` patterns.
pub record Flags : Type 0 where
  pub addr : String
  pub advertise_addr : String
  pub id : String
  pub peers : String
  pub gossip_advertise_addr : String
  pub cluster_port : ℕ
  pub mem_cap : ℕ

unfoldable pub with_defaults : Flags → Flags
with_defaults f = record f {
  id = if f.id == "" then f.addr else f.id;
  advertise_addr = if f.advertise_addr == "" then f.addr else f.advertise_addr;
}

-- The host and the port of an address, both empty where `net.SplitHostPort` fails.
unfoldable pub host_of : Option (String × String) → String
host_of none = ""
host_of (some (host, port)) = host

unfoldable pub port_of : Option (String × String) → String
port_of none = ""
port_of (some (host, port)) = port

unfoldable pub gossip_bind_addr : String → String
unfolding host_of
gossip_bind_addr addr =
    let host = host_of (split_host_port addr) in if host == "" then "0.0.0.0" else host

-- `clusterBindPort` and `useDefaultPorts`
unfoldable pub cluster_bind_port : Flags → ℕ × Bool
unfolding port_of
cluster_bind_port f =
    if f.cluster_port == 0
    then (add64 (atoi (port_of (split_host_port f.addr))).0 1_000, true)
    else (f.cluster_port, false)

-- The loop of `peersToGossipPeers` on one peer that is not blank: the host and the port of the seed.
unfoldable pub seed_host : String → String
unfolding host_of
seed_host peer =
    let host = host_of (split_host_port peer) in
    if host == "" then if starts_with colon peer then "127.0.0.1" else peer else host

unfoldable pub default_port : ℕ × Bool → ℕ → ℕ
default_port (p, parsed) gossip_port =
    if parsed && slt 0 p && slt p 64_535 then add64 p 1_000 else gossip_port

unfoldable pub seed_port : String → ℕ → Bool → ℕ
unfolding default_port port_of
seed_port peer gossip_port use_default_ports =
    if use_default_ports
    then default_port (atoi (port_of (split_host_port peer))) gossip_port
    else gossip_port

unfoldable pub seed_of : String → ℕ → Bool → String
unfolding seed_host seed_port decimal
seed_of peer gossip_port use_default_ports =
    join_host_port (seed_host peer) (decimal (seed_port peer gossip_port use_default_ports))

unfoldable pub seeds_each : List String → ℕ → Bool → List String
unfolding seed_of
seeds_each [] gossip_port use_default_ports = []
seeds_each (p ∷ ps) gossip_port use_default_ports =
    let rest = seeds_each ps gossip_port use_default_ports in
    let peer = trim_space p in
    if peer == "" then rest else seed_of peer gossip_port use_default_ports ∷ rest

unfoldable pub peers_to_gossip_peers : String → ℕ → Bool → List String
unfolding seeds_each
peers_to_gossip_peers peers gossip_port use_default_ports =
    if peers == "" then [] else seeds_each (split comma peers) gossip_port use_default_ports

unfoldable pub boot_store : Flags → Store
boot_store f = if slt 0 f.mem_cap then new_with_eviction second f.mem_cap else new_store second

unfoldable pub config_of : Flags → Config
unfolding cluster_bind_port gossip_bind_addr peers_to_gossip_peers
config_of f =
    let (port, use_default_ports) = cluster_bind_port f in
    record {
      node_id = f.id;
      bind_addr = gossip_bind_addr f.addr;
      bind_port = port;
      advertise_addr = f.gossip_advertise_addr;
      seed_peers = peers_to_gossip_peers f.peers port use_default_ports;
    }

module _ (sha256 : String → List ℕ) where
  -- the loop over the peers
  unfoldable pub add_peers : List String → Ring → Ring
  add_peers [] r = r
  add_peers (p ∷ ps) r =
      let peer = trim_space p in
      add_peers ps (if peer == "" then r else add_node sha256 (record { id = peer; addr = peer }) r)

  unfoldable pub boot_ring : Flags → Ring
  unfolding add_peers
  boot_ring f =
      let r = add_node sha256 (record { id = f.id; addr = f.advertise_addr }) (new_ring 150) in
      if f.peers == "" then r else add_peers (split comma f.peers) r

  -- the node and its ring, or the fatal error where the cluster could not be created
  unfoldable pub booted : {W : Type 0} → Flags → Option Cluster → W → Option (Server × Ring) × W
  unfolding boot_store boot_ring
  booted f none w = (none, w)
  booted f (some c) w =
      let s = with_listen_addr f.advertise_addr (new_server (boot_store f) f.id) in
      (some (with_cluster c s, boot_ring f), w)

  -- `main` up to where it serves requests
  unfoldable pub boot : {W : Type 0} → Memberlist W → Flags → W → Option (Server × Ring) × W
  unfolding booted config_of create
  boot list flags w =
      let f = with_defaults flags in
      let (joined, w') = create list (config_of f) w in booted f joined w'

module _ {W : Type 0} (env : Env W) (place : Placement) where
  -- A report of the membership protocol, with the `OnTopologyChange` that `main` passes.
  unfoldable pub report : String → Bool → Server → W → Server × W
  unfolding on_cluster notify_join notify_leave trigger_rebalance
  report node_id true s w =
      let (now, w') = env.now w in (on_cluster (notify_join now node_id) s, w')
  report node_id false s w =
      let (now, w') = env.now w in
      trigger_rebalance env place (on_cluster (notify_leave now node_id) s) w'
