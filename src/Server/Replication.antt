-- ===== src/Server/Replication.antt =====
-- internal/server/server.go: replication to the other nodes, and the retries of what failed.
use self_healing_distributed.Prelude.{
  ℕ, ◌-◌, String, Bool, true, false, Option, none, some, List, [], ◌∷◌, ◌++◌, leb, ◌==◌, nat_key,
  string_key, if◌then◌else◌,
}
use self_healing_distributed.Prelude.Int64.{two63, sle}
use self_healing_distributed.Prelude.Map.{Map, lookup, insert, delete}
use self_healing_distributed.Http.{Env}
use self_healing_distributed.Ring.{Node}
use self_healing_distributed.Store.{get_with_version}
use self_healing_distributed.Placement.{Placement}
use self_healing_distributed.Server.{
  Server, Pending, replicate_request, replicate_deletion_request, send,
}

-- `s.pendingRepls[key]`, where nil has no replica
unfoldable pub replicas_of : Option (Map String ℕ) → Map String ℕ
replicas_of none = []
replicas_of (some m) = m

-- Whether the replication of the key to the replica is pending, and since when.
unfoldable pub pending_since : String → String → Pending → Option ℕ
unfolding replicas_of
pending_since key id pending = lookup id (replicas_of (lookup key pending))

-- `trackFailedReplication`
unfoldable pub track : String → String → ℕ → Pending → Pending
unfolding replicas_of
track key id now pending = insert key (insert id now (replicas_of (lookup key pending))) pending

-- `delete(replicas, id)`, and of the key where nothing is left
unfoldable pub drop_replica : String → String → Option (Map String ℕ) → Pending → Pending
drop_replica key id none pending = pending
drop_replica key id (some m) pending = elim (delete id m) [
  | [] ↦ delete key pending
  | e ∷ rest ↦ insert key (e ∷ rest) pending
]

unfoldable pub untrack : String → String → Pending → Pending
unfolding drop_replica
untrack key id pending = drop_replica key id (lookup key pending) pending

-- `time.Since`: an `int64`, at most the greatest
unfoldable pub since : ℕ → ℕ → ℕ
since first now = if leb two63 (now - first) then two63 - 1 else now - first

pub record RetryTarget : Type 0 where
  pub key : String
  pub replica_id : String
  pub first_fail : ℕ

-- Whether nothing is left of some replicas.
unfoldable pub is_drained : Map String ℕ → Map String ℕ → Bool
is_drained [] kept = false
is_drained (e ∷ m) [] = true
is_drained (e ∷ m) (f ∷ kept) = false

module _ {W : Type 0} (env : Env W) where
  unfoldable pub track_failed_replication : String → String → Server → W → Server × W
  unfolding pending_since track
  track_failed_replication key id s w = elim (pending_since key id s.pending_repls) [
    | some first ↦ (s, w)
    | none ↦
        let (now, w') = env.now w in
        (record s { pending_repls = track key id now s.pending_repls }, w')
  ]

  -- the loop of `replicateSet`
  unfoldable pub replicate_each :
      String → String → ℕ → List Node → Bool → Server → W → Bool × Server × W
  unfolding track_failed_replication send replicate_request
  replicate_each key value expires_at [] all_success s w = (all_success, s, w)
  replicate_each key value expires_at (n ∷ nodes) all_success s w = elim (n.id == s.node_id) [
    | true ↦ replicate_each key value expires_at nodes all_success s w
    | false ↦
        let (answer, w') = send env (replicate_request n.addr key value expires_at) w in
        elim answer [
          | some resp ↦ replicate_each key value expires_at nodes all_success s w'
          | none ↦
              let (s', w'') = track_failed_replication key n.id s w' in
              replicate_each key value expires_at nodes false s' w''
        ]
  ]

  unfoldable pub replicate_set : Placement → String → String → ℕ → Server → W → Bool × Server × W
  unfolding replicate_each
  replicate_set place key value expires_at s w =
      replicate_each key value expires_at (place.replicas key) true s w

  -- the loop of `replicateDelete`, which ignores the answers
  unfoldable pub delete_each : String → List Node → String → W → W
  unfolding send replicate_deletion_request
  delete_each key [] node_id w = w
  delete_each key (n ∷ nodes) node_id w = elim (n.id == node_id) [
    | true ↦ delete_each key nodes node_id w
    | false ↦
        let (answer, w') = send env (replicate_deletion_request n.addr key) w in
        delete_each key nodes node_id w'
  ]

  unfoldable pub replicate_delete : Placement → String → Server → W → W
  unfolding delete_each
  replicate_delete place key s w = delete_each key (place.replicas key) s.node_id w

  -- `replicateToReplica`
  unfoldable pub replicate_to : String → String → ℕ → String → List Node → W → Bool × W
  unfolding send replicate_request
  replicate_to key value expires_at id [] w = (false, w)
  replicate_to key value expires_at id (n ∷ nodes) w = elim (n.id == id) [
    | false ↦ replicate_to key value expires_at id nodes w
    | true ↦
        let (answer, w') = send env (replicate_request n.addr key value expires_at) w in
        elim answer [ none ↦ (false, w') | some resp ↦ (true, w') ]
  ]

  -- The first part of `retryFailedReplications`, for the replicas of one key and for all keys: what
  -- is left of the pending ones, and the ones to retry.
  unfoldable pub scan_replicas :
      String → Map String ℕ → Server → W → Map String ℕ × List RetryTarget × W
  unfolding since
  scan_replicas key [] s w = ([], [], w)
  scan_replicas key ((id, first) ∷ m) s w =
      let (now, w') = env.now w in
      let age = since first now in
      let (kept, targets, w'') = scan_replicas key m s w' in
      if sle s.max_pending_age age
      then (kept, targets, w'')
      else if sle s.retry_interval age
      then (
        (id, first) ∷ kept,
        (record { key = key; replica_id = id; first_fail = first }) ∷ targets,
        w'',
      )
      else ((id, first) ∷ kept, targets, w'')

  unfoldable pub scan_pending : Pending → Server → W → Pending × List RetryTarget × W
  unfolding scan_replicas is_drained
  scan_pending [] s w = ([], [], w)
  scan_pending ((key, m) ∷ pending) s w =
      let (kept, targets, w') = scan_replicas key m s w in
      let (rest, others, w'') = scan_pending pending s w' in
      (if is_drained m kept then rest else (key, kept) ∷ rest, targets ++ others, w'')

  -- the second part of `retryFailedReplications`
  unfoldable pub retry_targets : Placement → List RetryTarget → Server → W → Server × W
  unfolding untrack replicate_to
  retry_targets place [] s w = (s, w)
  retry_targets place (t ∷ targets) s w =
      let (now, w') = env.now w in
      elim (get_with_version t.key now s.store) [
        | none ↦
            retry_targets place targets
              (record s { pending_repls = untrack t.key t.replica_id s.pending_repls }) w'
        | some (value, version, expires_at) ↦
            let (sent, w'') =
              replicate_to t.key value expires_at t.replica_id (place.replicas t.key) w' in
            elim sent [
              | true ↦
                  retry_targets place targets
                    (record s { pending_repls = untrack t.key t.replica_id s.pending_repls }) w''
              | false ↦ retry_targets place targets s w''
            ]
      ]

  unfoldable pub retry_failed_replications : Placement → Server → W → Server × W
  unfolding scan_pending retry_targets
  retry_failed_replications place s w =
      let (pending, targets, w') = scan_pending s.pending_repls s w in
      retry_targets place targets (record s { pending_repls = pending }) w'
