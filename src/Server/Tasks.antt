-- ===== src/Server/Tasks.antt =====
-- internal/server/server.go: the goroutines that the handlers start, the ticks of the retry loop, and
-- the life of a node as a sequence of requests, tasks and ticks in any order. A task or a handler is
-- one step. What the node sends to itself over the network comes back as a request.
use self_healing_distributed.Prelude.{
  ℕ, zero, suc, Option, none, some, List, [], ◌∷◌, String, string_key,
}
use self_healing_distributed.Http.{Env, Request, Response}
use self_healing_distributed.Placement.{Placement}
use self_healing_distributed.Rebalance.{rebalance as run_rebalance}
use self_healing_distributed.Store.{set_with_expiry}
use self_healing_distributed.Store.Access.{sweep}
use self_healing_distributed.Cluster.{Cluster, notify_join, notify_leave}
use self_healing_distributed.Server.{
  Server, Task, replicate, replicate_deletion, heal, rebalance, or_new,
}
use self_healing_distributed.Server.Replication.{
  replicate_set, replicate_delete, retry_failed_replications,
}
use self_healing_distributed.Server.Routes.{serve}

-- The tasks without the one at a position, and that one.
unfoldable pub take_task : ℕ → List Task → Option Task × List Task
take_task n [] = (none, [])
take_task zero (t ∷ ts) = (some t, ts)
take_task (suc n) (t ∷ ts) = let (found, rest) = take_task n ts in (found, t ∷ rest)

-- What can happen to a node.
pub data Move : Type 0 where
  request : Request → Move
  -- the task at a position runs
  task : ℕ → Move
  -- a tick of the retry loop, and one of the sweep of the store
  retry : Move
  expire : Move
  -- the membership protocol reports a node
  joined left : String → Move

unfoldable pub on_cluster : (Cluster → Cluster) → Server → Server
on_cluster f s = record s { cluster = elim s.cluster [ none ↦ none | some c ↦ some (f c) ] }

module _ {W : Type 0} (env : Env W) (place : Placement) (website : Request → Response) where
  unfoldable pub run_task : Task → Server → W → Server × W
  unfolding replicate_set replicate_delete run_rebalance or_new
  run_task (replicate key value expires_at) s w =
      let (all_success, s', w') = replicate_set env place key value expires_at s w in (s', w')
  run_task (replicate_deletion key) s w = (s, replicate_delete env place key s w)
  run_task (heal key value expires_at) s w =
      (record s { store = set_with_expiry key value expires_at s.store }, w)
  run_task (rebalance keys) s w =
      let (result, rb, w') =
        run_rebalance env place s.node_id s.listen_addr keys (or_new s.rebalancer) w in
      (record s { rebalancer = some rb }, w')

  unfoldable pub run_some : Option Task → Server → W → Server × W
  unfolding run_task
  run_some none s w = (s, w)
  run_some (some t) s w = run_task t s w

  unfoldable pub move : Move → Server → W → Server × W
  unfolding serve run_some take_task retry_failed_replications notify_join notify_leave on_cluster
  move (request r) s w = let (resp, s', w') = serve env place website r s w in (s', w')
  move (task n) s w =
      let (found, rest) = take_task n s.tasks in run_some found (record s { tasks = rest }) w
  move retry s w = retry_failed_replications env place s w
  move expire s w = let (now, w') = env.now w in (record s { store = sweep now s.store }, w')
  move (joined node) s w = let (now, w') = env.now w in (on_cluster (notify_join now node) s, w')
  move (left node) s w = let (now, w') = env.now w in (on_cluster (notify_leave now node) s, w')

  unfoldable pub moves : List Move → Server → W → Server × W
  unfolding move
  moves [] s w = (s, w)
  moves (m ∷ ms) s w = let (s', w') = move m s w in moves ms s' w'
