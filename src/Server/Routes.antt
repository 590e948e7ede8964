-- ===== src/Server/Routes.antt =====
-- internal/server/server.go: the endpoints that report the state of the node, the routes, and the
-- answer to a preflight request. Where a member of an answer is a list or an object, the model says
-- no more than that.
use self_healing_distributed.Prelude.{
  ℕ, ◌+◌, String, true, false, Option, none, some, List, [], ◌∷◌, length, ◌==◌, nat_key, string_key,
  if◌then◌else◌,
}
use self_healing_distributed.Http.{
  Env, Request, Response, Members, boolean, text, number, composite, null, blank, write_json,
  write_error, ok, method_not_allowed,
}
use self_healing_distributed.Store.{has_eviction}
use self_healing_distributed.Store.Access.{memory_usage, memory_cap, entry_count}
use self_healing_distributed.Cluster.{Cluster, alive_count}
use self_healing_distributed.Placement.{Placement}
use self_healing_distributed.Rebalance.{Rebalancer}
use self_healing_distributed.Server.{Server, Pending}
use self_healing_distributed.Server.Handlers.{
  handle_set, handle_get, handle_delete, handle_replica_set, handle_replica_delete,
  handle_rebalance, handle_rebalance_accept, handle_rebalance_pull, handle_rebalance_complete,
}
use self_healing_distributed.Server.Quorum.{handle_replica_quorum_set}
use self_healing_distributed.Server.Quorum.Handlers.{
  handle_quorum_set, handle_quorum_get, handle_replica_get,
}

unfoldable pub pending_count : Pending → ℕ
pending_count [] = 0
pending_count ((key, m) ∷ pending) = length m + pending_count pending

unfoldable pub health_of : Option Cluster → String × ℕ
unfolding alive_count
health_of none = ("healthy", 0)
health_of (some c) = (if alive_count c == 0 then "degraded" else "healthy", alive_count c)

unfoldable pub handle_health : Request → Server → Response
unfolding health_of write_json write_error
handle_health r s =
    if r.method == "GET"
    then (let (status, alive_nodes) = health_of s.cluster in
        write_json ok (
          ("status", text status)
          ∷ ("node_id", text s.node_id)
          ∷ ("alive_nodes", number alive_nodes)
          ∷ []))
    else write_error method_not_allowed "method must be GET"

unfoldable pub cluster_metrics : Option Cluster → Members
unfolding alive_count
cluster_metrics none = ("cluster_enabled", boolean false) ∷ []
cluster_metrics (some c) =
    ("alive_nodes", number (alive_count c)) ∷ ("cluster_enabled", boolean true) ∷ []

unfoldable pub handle_metrics : Request → Server → Response
unfolding pending_count cluster_metrics write_json write_error
handle_metrics r s =
    if r.method == "GET"
    then write_json ok (
        ("node_id", text s.node_id)
        ∷ ("entry_count", number (entry_count s.store))
        ∷ ("memory_usage", number (memory_usage s.store))
        ∷ ("memory_cap", number (memory_cap s.store))
        ∷ ("has_eviction", boolean (has_eviction s.store))
        ∷ ("pending_repls", number (pending_count s.pending_repls))
        ∷ cluster_metrics s.cluster)
    else write_error method_not_allowed "method must be GET"

unfoldable pub handle_ring_info : Server → Response
unfolding write_json
handle_ring_info s = write_json ok (("node_id", text s.node_id) ∷ ("ring_nodes", composite) ∷ [])

unfoldable pub cluster_info : Option Cluster → String → Members
unfolding alive_count
cluster_info none node_id = ("cluster_enabled", boolean false) ∷ []
cluster_info (some c) node_id =
    ("cluster_enabled", boolean true)
    ∷ ("node_id", text node_id)
    ∷ ("alive_count", number (alive_count c))
    ∷ ("members", composite)
    ∷ []

unfoldable pub handle_cluster_info : Server → Response
unfolding cluster_info write_json
handle_cluster_info s = write_json ok (cluster_info s.cluster s.node_id)

unfoldable pub rebalance_status : Option Rebalancer → Members
rebalance_status none = ("status", text "no rebalance performed yet") ∷ []
rebalance_status (some rb) =
    ("in_progress", boolean rb.in_progress)
    ∷ ("last_result", elim rb.last_result [ none ↦ null | some result ↦ composite ])
    ∷ ("migrations", composite)
    ∷ []

unfoldable pub handle_rebalance_status : Server → Response
unfolding rebalance_status write_json
handle_rebalance_status s = write_json ok (rebalance_status s.rebalancer)

-- A handler of the mux; `files` is what is not one of the routes, the files of the dashboard.
pub data Route : Type 0 where
  set get delete replica_set replica_delete ring_info cluster_info_route : Route
  rebalance accept pull complete status : Route
  quorum_set quorum_get replica_get replica_quorum_set health metrics files : Route

unfoldable pub route_in : List (String × Route) → String → Route
route_in [] path = files
route_in ((pattern, route) ∷ routes) path = if pattern == path then route else route_in routes path

abbrev pub routes : List (String × Route)
routes =
    ("/set", set)
    ∷ ("/get", get)
    ∷ ("/delete", delete)
    ∷ ("/replica/set", replica_set)
    ∷ ("/replica/delete", replica_delete)
    ∷ ("/ring/info", ring_info)
    ∷ ("/cluster/info", cluster_info_route)
    ∷ ("/rebalance", rebalance)
    ∷ ("/rebalance/accept", accept)
    ∷ ("/rebalance/pull", pull)
    ∷ ("/rebalance/complete", complete)
    ∷ ("/rebalance/status", status)
    ∷ ("/quorum/set", quorum_set)
    ∷ ("/quorum/get", quorum_get)
    ∷ ("/replica/get", replica_get)
    ∷ ("/replica/quorum/set", replica_quorum_set)
    ∷ ("/health", health)
    ∷ ("/metrics", metrics)
    ∷ []

module _ {W : Type 0} (env : Env W) (place : Placement) (website : Request → Response) where
  unfoldable pub dispatch : Route → Request → Server → W → Response × Server × W
  unfolding handle_set handle_get handle_delete handle_quorum_set handle_quorum_get
  dispatch set r s w = handle_set env place r s w
  dispatch get r s w = handle_get env place r s w
  dispatch delete r s w = handle_delete env place r s w
  dispatch replica_set r s w = let (resp, s') = handle_replica_set r s in (resp, s', w)
  dispatch replica_delete r s w = let (resp, s') = handle_replica_delete r s in (resp, s', w)
  dispatch ring_info r s w = (handle_ring_info s, s, w)
  dispatch cluster_info_route r s w = (handle_cluster_info s, s, w)
  dispatch rebalance r s w = handle_rebalance env place r s w
  dispatch accept r s w = let (resp, s') = handle_rebalance_accept r s in (resp, s', w)
  dispatch pull r s w = handle_rebalance_pull env place r s w
  dispatch complete r s w = let (resp, s') = handle_rebalance_complete r s in (resp, s', w)
  dispatch status r s w = (handle_rebalance_status s, s, w)
  dispatch quorum_set r s w = handle_quorum_set env place r s w
  dispatch quorum_get r s w = handle_quorum_get env place r s w
  dispatch replica_get r s w = handle_replica_get env place r s w
  dispatch replica_quorum_set r s w =
      let (resp, s') = handle_replica_quorum_set r s in (resp, s', w)
  dispatch health r s w = (handle_health r s, s, w)
  dispatch metrics r s w = (handle_metrics r s, s, w)
  dispatch files r s w = (website r, s, w)

  -- `Handler`, with `corsMiddleware`
  unfoldable pub serve : Request → Server → W → Response × Server × W
  unfolding dispatch route_in
  serve r s w =
      if r.method == "OPTIONS"
      then (record { status = 204; body = blank }, s, w)
      else dispatch (route_in routes r.path) r s w
