-- ===== src/Server/Guards.antt =====
-- What internal/server/server.go refuses: requests with another method than that of their route, and
-- requests without the key that their route needs.
use self_healing_distributed.Prelude.{
  ℕ, ◌≡◌, refl, String, Bool, true, false, Option, none, some, arith, ◌==◌, string_key,
}
use self_healing_distributed.Http.{Env, Request, Response, write_error, write_json, bad_request}
use self_healing_distributed.Placement.{Placement}
use self_healing_distributed.Server.{Server}
use self_healing_distributed.Server.Handlers.{
  handle_set, handle_get, handle_delete, handle_replica_set, handle_replica_delete,
  handle_rebalance, handle_rebalance_accept, handle_rebalance_pull, handle_rebalance_complete,
}
use self_healing_distributed.Server.Quorum.{handle_replica_quorum_set}
use self_healing_distributed.Server.Quorum.Handlers.{
  handle_quorum_set, handle_quorum_get, handle_replica_get,
}
use self_healing_distributed.Server.Routes.{
  Route, set, get, delete, replica_set, replica_delete, ring_info, cluster_info_route, accept, pull,
  complete, status, quorum_set, quorum_get, replica_get, replica_quorum_set, health, metrics, files,
  rebalance, dispatch, handle_health, handle_metrics,
}

-- The method that a route insists on, if any.
abbrev pub method_of : Route → Option String
method_of set = some "POST"
method_of get = some "GET"
method_of delete = some "DELETE"
method_of replica_set = some "POST"
method_of replica_delete = some "DELETE"
method_of rebalance = some "POST"
method_of accept = some "POST"
method_of pull = some "POST"
method_of complete = some "POST"
method_of quorum_set = some "POST"
method_of quorum_get = some "GET"
method_of replica_quorum_set = some "POST"
method_of health = some "GET"
method_of metrics = some "GET"
method_of route = none

-- Whether a route needs the key in the query.
abbrev pub needs_key : Route → Bool
needs_key get = true
needs_key delete = true
needs_key replica_delete = true
needs_key accept = true
needs_key pull = true
needs_key complete = true
needs_key quorum_get = true
needs_key replica_get = true
needs_key replica_quorum_set = true
needs_key route = false

-- Whether a request has the method that the route insists on.
abbrev pub has_method : Option String → Request → Bool
has_method none r = true
has_method (some m) r = r.method == m

-- The answer has the status, and neither the node nor its surroundings have changed.
abbrev pub IsRefused : {W : Type 0} → ℕ → Server → W → Response × Server × W → Type 0
IsRefused code s w x = (x.0.status ≡ code) × (x.1 ≡ s) × (x.2 ≡ w)

module _ {W : Type 0} (env : Env W) (place : Placement) (website : Request → Response) where
  -- A request with the right method that has no key, where its route needs one, is answered 400 and
  -- changes nothing.
  pub dispatch_key-IsRefused :
      (route : Route) (r : Request) (s : Server) (w : W)
      → has_method (method_of route) r ≡ true
      → needs_key route ≡ true
      → (r.key == "") ≡ true
      → IsRefused bad_request s w (dispatch env place website route r s w)
  unfolding dispatch handle_set handle_get handle_delete handle_replica_set handle_replica_delete
      handle_rebalance handle_rebalance_accept handle_rebalance_pull handle_rebalance_complete
      handle_quorum_set handle_quorum_get handle_replica_get handle_replica_quorum_set handle_health
      handle_metrics write_error write_json
  dispatch_key-IsRefused set r s w h k e = absurd (ground arith)
  dispatch_key-IsRefused get r s w h k e = rw (h, e) (refl, refl, refl)
  dispatch_key-IsRefused delete r s w h k e = rw (h, e) (refl, refl, refl)
  dispatch_key-IsRefused replica_set r s w h k e = absurd (ground arith)
  dispatch_key-IsRefused replica_delete r s w h k e = rw (h, e) (refl, refl, refl)
  dispatch_key-IsRefused ring_info r s w h k e = absurd (ground arith)
  dispatch_key-IsRefused cluster_info_route r s w h k e = absurd (ground arith)
  dispatch_key-IsRefused rebalance r s w h k e = absurd (ground arith)
  dispatch_key-IsRefused accept r s w h k e = rw (h, e) (refl, refl, refl)
  dispatch_key-IsRefused pull r s w h k e = rw (h, e) (refl, refl, refl)
  dispatch_key-IsRefused complete r s w h k e = rw (h, e) (refl, refl, refl)
  dispatch_key-IsRefused status r s w h k e = absurd (ground arith)
  dispatch_key-IsRefused quorum_set r s w h k e = absurd (ground arith)
  dispatch_key-IsRefused quorum_get r s w h k e = rw (h, e) (refl, refl, refl)
  dispatch_key-IsRefused replica_get r s w h k e = rw e (refl, refl, refl)
  dispatch_key-IsRefused replica_quorum_set r s w h k e = rw (h, e) (refl, refl, refl)
  dispatch_key-IsRefused health r s w h k e = absurd (ground arith)
  dispatch_key-IsRefused metrics r s w h k e = absurd (ground arith)
  dispatch_key-IsRefused files r s w h k e = absurd (ground arith)
