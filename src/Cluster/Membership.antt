-- ===== src/Cluster/Membership.antt =====
-- internal/cluster/cluster.go: how a node enters the membership protocol, and what it reads of it. The
-- protocol is memberlist's, a parameter; its callbacks are the operations of the parent.
use self_healing_distributed.Prelude.{
  ℕ, ◌≡◌, String, Bool, Option, none, some, List, [], ◌∷◌, length, arith, ◌==◌, nat_key, Bool-cases,
  inl, inr, string_key, if◌then◌else◌,
}
use self_healing_distributed.Text.{itoa, join_host_port}
use self_healing_distributed.Cluster.{Cluster, new}

pub record Config : Type 0 where
  pub node_id : String
  pub bind_addr : String
  pub bind_port : ℕ
  pub advertise_addr : String
  pub seed_peers : List String

-- The fields of memberlist's configuration that `New` sets; `advertise_addr` is empty by default.
pub record MemberConfig : Type 0 where
  pub name : String
  pub bind_addr : String
  pub bind_port : ℕ
  pub advertise_port : ℕ
  pub advertise_addr : String

-- memberlist, with the state of the network around it: whether a list can be created, the joining
-- of the seeds, and the leaving and the shutdown with whether they succeed.
pub record Memberlist (W : Type 0) : Type 0 where
  pub create : MemberConfig → W → Bool × W
  pub join : List String → W → Bool × W
  pub leave : W → Bool × W
  pub shutdown : W → Bool × W

-- A member, as memberlist lists it.
pub record Member : Type 0 where
  pub name : String
  pub alive : Bool
  pub addr : String
  pub port : ℕ

unfoldable pub member_config : Config → MemberConfig
member_config cfg = record {
  name = cfg.node_id;
  bind_addr = cfg.bind_addr;
  bind_port = cfg.bind_port;
  advertise_port = cfg.bind_port;
  advertise_addr = if cfg.advertise_addr == "" then "" else cfg.advertise_addr;
}

-- `Cluster.Members`
unfoldable pub members : List Member → List String
members [] = []
members (m ∷ ms) = let rest = members ms in if m.alive then m.name ∷ rest else rest

-- `ExtractPeerAddr`
unfoldable pub extract_peer_addr : Member → ℕ → String
extract_peer_addr m default_port =
    join_host_port m.addr (itoa (if m.port == 0 then default_port else m.port))

module _ {W : Type 0} (list : Memberlist W) where
  -- `New`; `none` is its error. A failure to join the seeds is only logged.
  unfoldable pub create : Config → W → Option Cluster × W
  unfolding member_config new
  create cfg w =
      let (created, w') = list.create (member_config cfg) w in
      if created
      then if length cfg.seed_peers == 0
        then (some (new cfg.node_id), w')
        else (some (new cfg.node_id), (list.join cfg.seed_peers w').1)
      else (none, w')

  -- `Shutdown`: whether it succeeds, and a failure to leave is only logged
  unfoldable pub shutdown : W → Bool × W
  shutdown w = list.shutdown (list.leave w).1

  -- Whether the node has a cluster depends on the creation of the list alone.
  pub create-created :
      (cfg : Config) (w : W)
      → (create cfg w).0
        ≡ (if (list.create (member_config cfg) w).0 then some (new cfg.node_id) else none)
  unfolding create
  create-created cfg w = elim (Bool-cases (length cfg.seed_peers == 0)) [
    | inl alone ↦ rw alone (ground arith)
    | inr seeds ↦ rw seeds (ground arith)
  ]
