-- ===== src/Server.antt =====
-- internal/server/server.go: the state of one node, what it asks of its placement, and its messages
-- to the other nodes. The children have the replication, the forwarding and the handlers.
-- A goroutine that a handler starts is a task of the node, which runs at some later step.
pub mod Replication
pub mod Forward
pub mod Handlers
pub mod Quorum
pub mod Routes
pub mod Pending
pub mod Retries
pub mod Records
pub mod Retried
pub mod Validity
pub mod Tasks
pub mod Serving
pub mod Answering
pub mod Life
pub mod Guards
pub mod Reading
pub mod Order
pub mod Race
pub mod Shutdown
pub mod Due
pub mod Delivered
pub mod Deleting
pub mod Reachable
mod Tests
pub mod Majority
use self_healing_distributed.Prelude.{
  ℕ, ◌-◌, String, Bool, true, false, Option, none, some, List, [], ◌∷◌, ◌++◌, leb, ◌==◌, nat_key,
  string_key, if◌then◌else◌,
}
use self_healing_distributed.Prelude.Int64.{two63, slt}
use self_healing_distributed.Prelude.Map.{Map, lookup, insert, delete}
use self_healing_distributed.Time.{millisecond, second, unix_milli, of_unix_milli}
use self_healing_distributed.Http.{
  Env, Request, Response, Body, Members, text, number, object, blank,
}
use self_healing_distributed.Ring.{Node}
use self_healing_distributed.Store.{Store}
use self_healing_distributed.Placement.{Placement}
use self_healing_distributed.Rebalance.{Rebalancer, new as new_rebalancer}
use self_healing_distributed.Cluster.{Cluster, is_alive}

-- A goroutine that has been started.
pub data Task : Type 0 where
  replicate : String → String → ℕ → Task
  replicate_deletion : String → Task
  -- the write of what a replica returned
  heal : String → String → ℕ → Task
  -- the run of the rebalancer on the keys
  rebalance : List String → Task

abbrev pub Pending : Type 0
Pending = Map String (Map String ℕ)

pub record Server : Type 0 where
  pub store : Store
  pub node_id : String
  pub listen_addr : String
  pub replication_factor : ℕ
  pub cluster : Option Cluster
  -- key -> (replica -> the time of the first failure)
  pub pending_repls : Pending
  pub max_pending_age : ℕ
  pub retry_interval : ℕ
  pub rebalancer : Option Rebalancer
  pub tasks : List Task

unfoldable pub new : Store → String → Server
new s node_id = record {
  store = s;
  node_id = node_id;
  listen_addr = "";
  replication_factor = 2;
  cluster = none;
  pending_repls = [];
  max_pending_age = 86_400_000_000_000;
  retry_interval = 5_000_000_000;
  rebalancer = none;
  tasks = [];
}

unfoldable pub with_cluster : Cluster → Server → Server
with_cluster c s = record s { cluster = some c }

unfoldable pub with_listen_addr : String → Server → Server
with_listen_addr addr s = record s { listen_addr = addr }

-- `go f()`
unfoldable pub start : Task → Server → Server
start task s = record s { tasks = s.tasks ++ task ∷ [] }

unfoldable pub or_new : Option Rebalancer → Rebalancer
unfolding new_rebalancer
or_new none = new_rebalancer
or_new (some rb) = rb

-- `getOrCreateRebalancer`
unfoldable pub get_or_create_rebalancer : Server → Rebalancer × Server
unfolding or_new
get_or_create_rebalancer s = let rb = or_new s.rebalancer in (rb, record s { rebalancer = some rb })

unfoldable pub alive_in : Option Cluster → String → Bool
unfolding is_alive
alive_in none node_id = true
alive_in (some c) node_id = is_alive node_id c

unfoldable pub is_node_alive : String → Server → Bool
unfolding alive_in
is_node_alive node_id s = alive_in s.cluster node_id

unfoldable pub split_by_alive : List Node → Server → List Node × List Node
unfolding is_node_alive
split_by_alive [] s = ([], [])
split_by_alive (n ∷ nodes) s =
    let (alive, dead) = split_by_alive nodes s in
    if is_node_alive n.id s then (n ∷ alive, dead) else (alive, n ∷ dead)

-- `append(aliveReplicas, deadReplicas...)`
unfoldable pub try_order : List Node → Server → List Node
unfolding split_by_alive
try_order nodes s = let (alive, dead) = split_by_alive nodes s in alive ++ dead

unfoldable pub is_owner : Option Node → String → Bool
is_owner none node_id = false
is_owner (some owner) node_id = owner.id == node_id

unfoldable pub owns_local : Placement → String → Server → Bool
unfolding is_owner
owns_local place key s = is_owner (place.owner key) s.node_id

-- `expires_at_ms` of a message, and what a receiver makes of it: no expiry unless it is positive
unfoldable pub expiry_of_wire : ℕ → ℕ
expiry_of_wire ms = if slt 0 ms then of_unix_milli ms else 0

-- The requests between the nodes, to the node at `addr`.
unfoldable pub replicate_request : String → String → String → ℕ → Request
replicate_request addr key value expires_at = record {
  method = "POST";
  host = addr;
  path = "/replica/set";
  key = key;
  body = object (
      ("key", text key)
      ∷ ("value", text value)
      ∷ ("expires_at_ms", number (unix_milli expires_at))
      ∷ []);
}

unfoldable pub replicate_deletion_request : String → String → Request
replicate_deletion_request addr key = record {
  method = "DELETE";
  host = addr;
  path = "/replica/delete";
  key = key;
  body = blank;
}

unfoldable pub replica_get_request : String → String → Request
replica_get_request addr key = record {
  method = "GET";
  host = addr;
  path = "/replica/get";
  key = key;
  body = blank;
}

unfoldable pub get_request : String → String → Request
get_request addr key = record {
  method = "GET";
  host = addr;
  path = "/get";
  key = key;
  body = blank;
}

-- `http.NewRequest` and `RoundTrip`, where the caller treats their errors alike
unfoldable pub send : {W : Type 0} → Env W → Request → W → Option Response × W
send env r w = if env.well_formed r then env.round_trip r w else (none, w)
