-- ===== src/Server/Shutdown.antt =====
-- internal/server/server.go: the retry loop, and the shutdown that waits for it and for the
-- replications that the handlers have started.
mod Tests
use self_healing_distributed.Prelude.{
  ◌≡◌, subst, Bool, Option, none, some, nat_key, true, false, List, [], ◌∷◌, string_key,
  if◌then◌else◌,
}
use self_healing_distributed.Http.{Env, Request, Response}
use self_healing_distributed.Placement.{Placement}
use self_healing_distributed.Store.{Store}
use self_healing_distributed.Server.{
  Server, Task, replicate, replicate_deletion, heal, rebalance, start,
}
use self_healing_distributed.Server.Replication.{retry_failed_replications}
use self_healing_distributed.Server.Tasks.{run_task}
use self_healing_distributed.Server.Pending.{IsTracked}

-- What wakes the retry loop: a tick, or the closing of `replStop`.
pub data Wake : Type 0 where
  tick stopped : Wake

-- The tasks that `replWg` counts.
unfoldable pub is_counted : Task → Bool
is_counted (replicate key value expires_at) = true
is_counted (replicate_deletion key) = true
is_counted (heal key value expires_at) = false
is_counted (rebalance keys) = false

unfoldable pub uncounted : List Task → List Task
uncounted [] = []
uncounted (t ∷ ts) = let rest = uncounted ts in if is_counted t then rest else t ∷ rest

module _ {W : Type 0} (env : Env W) (place : Placement) (website : Request → Response) where
  -- `retryLoop`, for what wakes it
  unfoldable pub retry_loop : List Wake → Server → W → Server × W
  unfolding retry_failed_replications
  retry_loop [] s w = (s, w)
  retry_loop (stopped ∷ wakes) s w = (s, w)
  retry_loop (tick ∷ wakes) s w =
      let (s', w') = retry_failed_replications env place s w in retry_loop wakes s' w'

  -- the waiting for `replWg`: the counted tasks run, and the others stay
  unfoldable pub wait : List Task → Server → W → Server × W
  unfolding is_counted run_task start
  wait [] s w = (s, w)
  wait (t ∷ ts) s w = elim (is_counted t) [
    | true ↦ let (s', w') = run_task env place website t s w in wait ts s' w'
    | false ↦ wait ts (start t s) w
  ]

  -- `ShutdownReplication`, for what wakes the retry loop until it ends
  unfoldable pub shutdown_replication : List Wake → Server → W → Server × W
  unfolding retry_loop wait
  shutdown_replication wakes s w =
      let (s', w') = retry_loop wakes s w in wait s'.tasks (record s' { tasks = [] }) w'

-- What a run of the replications and their retries leaves as it was.
record IsQuiet (s s' : Server) : Type 0 where
  store : s'.store ≡ s.store
  tasks : s'.tasks ≡ s.tasks
  tracked : IsTracked s'.pending_repls
