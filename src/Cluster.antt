-- ===== src/Cluster.antt =====
-- internal/cluster/cluster.go: what a node knows of the other nodes. The membership protocol is
-- memberlist's, whose callbacks are the operations here.
pub mod Liveness
pub mod Membership
mod Tests
use self_healing_distributed.Prelude.{
  ℕ, ◌+◌, String, Bool, true, false, Option, none, some, List, [], ◌∷◌, ◌++◌, string_key,
  if◌then◌else◌,
}
use self_healing_distributed.Prelude.Map.{Map, lookup, insert}

pub data EventType : Type 0 where
  node_join node_leave node_failed : EventType

pub record Event : Type 0 where
  pub timestamp : ℕ
  pub node : String
  pub type : EventType
  pub detected_by : String

pub record Cluster : Type 0 where
  pub node_id : String
  pub events : List Event
  pub alive_nodes : Map String Bool

-- `EventType.String`
unfoldable pub event_name : EventType → String
event_name node_join = "JOIN"
event_name node_leave = "LEAVE"
event_name node_failed = "FAILED"

-- `New`, before it joins the seeds
unfoldable pub new : String → Cluster
unfolding insert
new node_id = record { node_id = node_id; events = []; alive_nodes = insert node_id true [] }

unfoldable pub set_node_alive : String → Bool → Cluster → Cluster
set_node_alive node_id alive c = record c { alive_nodes = insert node_id alive c.alive_nodes }

unfoldable pub record_event : ℕ → String → EventType → Cluster → Cluster
record_event now node type c = record c {
  events =
      c.events
      ++ (record { timestamp = now; node = node; type = type; detected_by = "gossip" }) ∷ [];
}

-- `NotifyJoin` and `NotifyLeave`, with the `onChange` that `New` wires
unfoldable pub notify_join : ℕ → String → Cluster → Cluster
unfolding record_event set_node_alive
notify_join now node c = set_node_alive node true (record_event now node node_join c)

unfoldable pub notify_leave : ℕ → String → Cluster → Cluster
unfolding record_event set_node_alive
notify_leave now node c = set_node_alive node false (record_event now node node_failed c)

-- a missing key reads as `false`
unfoldable pub flag_of : Option Bool → Bool
flag_of none = false
flag_of (some alive) = alive

unfoldable pub is_alive : String → Cluster → Bool
unfolding flag_of
is_alive node_id c = flag_of (lookup node_id c.alive_nodes)

unfoldable pub count_alive : Map String Bool → ℕ
count_alive [] = 0
count_alive ((id, alive) ∷ m) = let rest = count_alive m in if alive then rest + 1 else rest

unfoldable pub alive_count : Cluster → ℕ
unfolding count_alive
alive_count c = count_alive c.alive_nodes
