-- ===== src/Server/Life.antt =====
-- The life of a node of internal/server/server.go: whatever requests, tasks and ticks, in whatever
-- order, and whatever the network and the clock do.
use self_healing_distributed.Prelude.{
  ◌≡◌, refl, sym, subst, Option, none, some, List, [], ◌∷◌, string_key, ◌==◌,
}
use self_healing_distributed.Http.{Env, Request, Response}
use self_healing_distributed.Placement.{Placement}
use self_healing_distributed.Store.Invariant.{IsValid}
use self_healing_distributed.Store.History.{apply, apply-IsValid, tick}
use self_healing_distributed.Server.{Server, Task, replicate, replicate_deletion, heal, rebalance}
use self_healing_distributed.Server.Records.{replicate_set-IsReplicated}
use self_healing_distributed.Server.Retried.{retry_failed_replications-IsRetried}
use self_healing_distributed.Server.Routes.{
  Route, set, get, delete, replica_set, replica_delete, ring_info, cluster_info_route, accept, pull,
  complete, status, quorum_set, quorum_get, replica_get, replica_quorum_set, health, metrics, files,
  rebalance as rebalance_route, dispatch, serve, routes, route_in,
}
use self_healing_distributed.Server.Handlers.{handle_rebalance, trigger_rebalance}
use self_healing_distributed.Server.Tasks.{
  Move, request, task, retry, expire, joined, left, run_task, run_some, take_task, move, moves,
}
use self_healing_distributed.Server.Pending.{IsTracked}
use self_healing_distributed.Server.Validity.{IsSound, with_store}
use self_healing_distributed.Server.Serving.{
  stored-IsSound, handle_replica_set-IsSound, handle_replica_delete-IsSound,
  handle_rebalance_accept-IsSound, handle_rebalance_complete-IsSound,
  handle_replica_quorum_set-IsSound,
}
use self_healing_distributed.Server.Answering.{
  guarded_by, handle_set-IsSound, handle_get-IsSound, handle_delete-IsSound,
  handle_rebalance_pull-IsSound, handle_quorum_set-IsSound, handle_quorum_get-IsSound,
  handle_replica_get-IsSound,
}

-- Only the store and the pending replications matter.
same_parts :
    (s s' : Server)
    → s'.store ≡ s.store
    → s'.pending_repls ≡ s.pending_repls
    → IsSound s
    → IsSound s'
same_parts s s' p q v = record {
  store = subst IsValid (sym p) v.store;
  pending = subst (λ x. IsTracked x) (sym q) v.pending;
}

module _ {W : Type 0} (env : Env W) (place : Placement) (website : Request → Response) where
  handle_rebalance-IsSound :
      (r : Request) (s : Server) (w : W) → IsSound s → IsSound (handle_rebalance env place r s w).1
  unfolding handle_rebalance trigger_rebalance
  handle_rebalance-IsSound r s w v =
      guarded_by env place (r.method == "POST") _ _ (same_parts s _ refl refl v) v

  dispatch-IsSound :
      (route : Route) (r : Request) (s : Server) (w : W)
      → IsSound s
      → IsSound (dispatch env place website route r s w).1
  unfolding dispatch
  dispatch-IsSound set r s w v = handle_set-IsSound env place r s w v
  dispatch-IsSound get r s w v = handle_get-IsSound env place r s w v
  dispatch-IsSound delete r s w v = handle_delete-IsSound env place r s w v
  dispatch-IsSound replica_set r s w v = handle_replica_set-IsSound r s v
  dispatch-IsSound replica_delete r s w v = handle_replica_delete-IsSound r s v
  dispatch-IsSound ring_info r s w v = v
  dispatch-IsSound cluster_info_route r s w v = v
  dispatch-IsSound rebalance_route r s w v = handle_rebalance-IsSound r s w v
  dispatch-IsSound accept r s w v = handle_rebalance_accept-IsSound r s v
  dispatch-IsSound pull r s w v = handle_rebalance_pull-IsSound env place r s w v
  dispatch-IsSound complete r s w v = handle_rebalance_complete-IsSound r s v
  dispatch-IsSound status r s w v = v
  dispatch-IsSound quorum_set r s w v = handle_quorum_set-IsSound env place r s w v
  dispatch-IsSound quorum_get r s w v = handle_quorum_get-IsSound env place r s w v
  dispatch-IsSound replica_get r s w v = handle_replica_get-IsSound env place r s w v
  dispatch-IsSound replica_quorum_set r s w v = handle_replica_quorum_set-IsSound r s v
  dispatch-IsSound health r s w v = v
  dispatch-IsSound metrics r s w v = v
  dispatch-IsSound files r s w v = v

  serve-IsSound :
      (r : Request) (s : Server) (w : W) → IsSound s → IsSound (serve env place website r s w).1
  unfolding serve
  serve-IsSound r s w v =
      guarded_by env place (r.method == "OPTIONS") _ _ v
        (dispatch-IsSound (route_in routes r.path) r s w v)

  run_task-IsSound :
      (t : Task) (s : Server) (w : W) → IsSound s → IsSound (run_task env place website t s w).0
  unfolding run_task
  run_task-IsSound (replicate key value expires_at) s w v =
      let r = replicate_set-IsReplicated env place key value expires_at s w v.pending in
      record { store = subst IsValid (sym r.store) v.store; pending = r.tracked }
  run_task-IsSound (replicate_deletion key) s w v = v
  run_task-IsSound (heal key value expires_at) s w v = stored-IsSound key value expires_at s v
  run_task-IsSound (rebalance keys) s w v = same_parts s _ refl refl v

  run_some-IsSound :
      (o : Option Task) (s : Server) (w : W)
      → IsSound s
      → IsSound (run_some env place website o s w).0
  unfolding run_some
  run_some-IsSound none s w v = v
  run_some-IsSound (some t) s w v = run_task-IsSound t s w v

  move-IsSound :
      (m : Move) (s : Server) (w : W) → IsSound s → IsSound (move env place website m s w).0
  unfolding move apply
  move-IsSound (request r) s w v = serve-IsSound r s w v
  move-IsSound (task n) s w v =
      let (found, rest) = take_task n s.tasks in
      run_some-IsSound found (record s { tasks = rest }) w (same_parts s _ refl refl v)
  move-IsSound retry s w v =
      let r = retry_failed_replications-IsRetried env place s w v.pending in
      record { store = subst IsValid (sym r.store) v.store; pending = r.tracked }
  move-IsSound expire s w v = with_store s _ v (apply-IsValid (tick (env.now w).0) s.store v.store)
  move-IsSound (joined node) s w v = same_parts s _ refl refl v
  move-IsSound (left node) s w v = same_parts s _ refl refl v

  -- Whatever happens to a node whose store and pending replications are well formed, in whatever
  -- order, and whatever the network and the clock answer, they are well formed afterwards.
  pub moves-IsSound :
      (ms : List Move) (s : Server) (w : W) → IsSound s → IsSound (moves env place website ms s w).0
  unfolding moves
  moves-IsSound [] s w v = v
  moves-IsSound (m ∷ ms) s w v =
      moves-IsSound ms (move env place website m s w).0 (move env place website m s w).1
        (move-IsSound m s w v)
